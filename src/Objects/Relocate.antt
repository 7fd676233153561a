-- ===== src/Objects/Relocate.antt =====
-- A copy followed by a removal, whatever the client; and single uploads and removals.
use file_server_management.Prelude.{
  ◌≡◌, refl, Bool, true, false, none, some, sym, ap, ◌∙◌, inl, inr, Bool-cases,
}
use file_server_management.Text.{Text, text_eq, text_eq_iff}
use file_server_management.Os.{Bytes}
use file_server_management.Objects.{Objects, and_then, set_object}
use file_server_management.Objects.Publish.{IsUpload, IsCopy, IsRemoval}

module _ {W : Type 0} (content : W → Objects) where
  pub upload-set_object :
      (k : Text) (b : Bytes) (w : W) (r : Bool × W) (p : Text)
      → IsUpload content k b w r
      → r.0 ≡ true
      → content r.1 p ≡ set_object (content w) k (some b) p
  upload-set_object k b w r p up e = elim (Bool-cases (text_eq p k)) [
    | inl here ↦ rw here (ap (content r.1) ((text_eq_iff p k).0 here) ∙ up.stored e)
    | inr elsewhere ↦
        rw elsewhere (up.changes.others p (λ s. cc ((text_eq_iff p k).1 s, elsewhere)))
  ]

  pub removal-set_object :
      (k : Text) (w : W) (r : Bool × W) (p : Text)
      → IsRemoval content k w r
      → r.0 ≡ true
      → content r.1 p ≡ set_object (content w) k none p
  removal-set_object k w r p rm e = elim (Bool-cases (text_eq p k)) [
    | inl here ↦ rw here (ap (content r.1) ((text_eq_iff p k).0 here) ∙ rm.gone e)
    | inr elsewhere ↦
        rw elsewhere (rm.changes.others p (λ s. cc ((text_eq_iff p k).1 s, elsewhere)))
  ]

  module _ (copy remove : W → Bool × W) where
    abbrev pub relocate : W → Bool × W
    relocate w = and_then (copy w) remove

    module _ (src dst : Text) (w : W) (cp : IsCopy content src dst w (copy w))
        (rm : (v : W) → IsRemoval content src v (remove v)) where
      -- A success has the old content of the one key under the other; then the one is removed,
      -- also if they are the same.
      pub relocate-ok :
          (p : Text)
          → (relocate w).0 ≡ true
          → content (relocate w).1 p
            ≡ set_object (set_object (content w) dst (content w src)) src none p
      relocate-ok p e = first (copy w) refl e
        where
          copied_at :
              (v : W)
              → copy w ≡ (true, v)
              → content v p ≡ set_object (content w) dst (content w src) p
          copied_at v q = elim (Bool-cases (text_eq p dst)) [
            | inl at_dst ↦ rw at_dst (
                ap (content v) ((text_eq_iff p dst).0 at_dst)
                ∙ sym (ap (λ r. content r.1 dst) q)
                ∙ cp.copied (ap (λ r. r.0) q))
            | inr elsewhere ↦ rw elsewhere (
                sym (ap (λ r. content r.1 p) q)
                ∙ cp.changes.others p (λ s. cc ((text_eq_iff p dst).1 s, elsewhere)))
          ]

          removed :
              (v : W)
              → copy w ≡ (true, v)
              → (remove v).0 ≡ true
              → content (remove v).1 p
                ≡ set_object (set_object (content w) dst (content w src)) src none p
          removed v q e' = elim (Bool-cases (text_eq p src)) [
            | inl at_src ↦
                rw at_src
                  (ap (content (remove v).1) ((text_eq_iff p src).0 at_src) ∙ (rm v).gone e')
            | inr elsewhere ↦ rw elsewhere (
                (rm v).changes.others p (λ s. cc ((text_eq_iff p src).1 s, elsewhere))
                ∙ copied_at v q)
          ]

          first :
              (r : Bool × W)
              → copy w ≡ r
              → (and_then r remove).0 ≡ true
              → content (and_then r remove).1 p
                ≡ set_object (set_object (content w) dst (content w src)) src none p
          first (false, v) q e' = absurd (cc e')
          first (true, v) q e' = removed v q e'
