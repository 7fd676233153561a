-- ===== src/Objects/Publish.antt =====
-- An upload to a temporary key, a copy to the final key and a removal, whatever the client.
use file_server_management.Prelude.{
  ◌≡◌, ◌≢◌, ◌++◌, length, length-append, refl, Bool, true, false, none, some, sym, ap, ◌∙◌, arith,
  ◌⊎◌, inl, inr, Bool-cases,
}
use file_server_management.Text.{Text, txt, text_eq, text_eq_iff}
use file_server_management.Os.{Bytes}
use file_server_management.Objects.{Objects, and_then, set_object, temp_key}

-- A temporary key is not the key that it is made from.
pub temp_key-apart : (final hex : Text) → final ≢ temp_key final hex
unfolding temp_key
temp_key-apart final hex e = omega (
  arith,
  length-append (final ++ txt ".tmp-") hex,
  length-append final (txt ".tmp-"),
  ap length e,
)

module _ {W : Type 0} (content : W → Objects) where
  -- The call changes no key but `k`.
  pub record ChangesOnly (k : Text) (w : W) (r : Bool × W) : Type 0 where
    pub others : (p : Text) → p ≢ k → content r.1 p ≡ content w p

  -- The call puts the content `b` under `k`.
  pub record IsUpload (k : Text) (b : Bytes) (w : W) (r : Bool × W) : Type 0 where
    pub changes : ChangesOnly k w r
    pub stored : r.0 ≡ true → content r.1 k ≡ some b

  -- The call copies the object under `src`, if there is one, to `dst`; if it fails, the copy may
  -- have been made all the same, as behind an answer that is lost.
  pub record IsCopy (src dst : Text) (w : W) (r : Bool × W) : Type 0 where
    pub changes : ChangesOnly dst w r
    pub copied : r.0 ≡ true → content r.1 dst ≡ content w src
    pub failed : r.0 ≡ false → (content r.1 dst ≡ content w dst) ⊎ (content r.1 dst ≡ content w src)

  -- The call removes the object under `k`; if it fails, it may have been removed.
  pub record IsRemoval (k : Text) (w : W) (r : Bool × W) : Type 0 where
    pub changes : ChangesOnly k w r
    pub gone : r.0 ≡ true → content r.1 k ≡ none

  module _ (upload : W → Bool × W) (copy : W → Bool × W) (remove : W → Bool × W) where
    abbrev pub publish : W → Bool × W
    publish w = and_then (upload w) (λ w1. and_then (copy w1) (λ w2. (true, (remove w2).1)))

    module _ (tmp final : Text) (b : Bytes) (w : W) (apart : final ≢ tmp)
        (up : IsUpload tmp b w (upload w)) (cp : (v : W) → IsCopy tmp final v (copy v))
        (rm : (v : W) → IsRemoval tmp v (remove v)) where
      abbrev pub KeptOrPlaced : Text → W → Type 0
      KeptOrPlaced p v = (content v p ≡ content w p) ⊎ ((p ≡ final) × (content v p ≡ some b))

      -- A failure changes nothing but the temporary key, and the final one if the copy was made.
      pub publish-err : (p : Text) → p ≢ tmp → (publish w).0 ≡ false → KeptOrPlaced p (publish w).1
      publish-err p ne e = first (upload w) refl e
        where
          second :
              (v : W) (r : Bool × W)
              → copy v ≡ r
              → content v tmp ≡ some b
              → content v p ≡ content w p
              → (and_then r (λ w2. (true, (remove w2).1))).0 ≡ false
              → KeptOrPlaced p (and_then r (λ w2. (true, (remove w2).1))).1
          second v (true, v') q held same e' = absurd (cc e')
          second v (false, v') q held same e' = elim (Bool-cases (text_eq p final)) [
            | inl at_final ↦
                let is_final = (text_eq_iff p final).0 at_final in
                let here = ap (content v') is_final ∙ sym (ap (λ r. content r.1 final) q) in
                elim ((cp v).failed (ap (λ r. r.0) q)) [
                  | inl kept ↦ inl (here ∙ kept ∙ ap (content v) (sym is_final) ∙ same)
                  | inr made ↦ inr (is_final, here ∙ made ∙ held)
                ]
            | inr elsewhere ↦ inl (
                sym (ap (λ r. content r.1 p) q)
                ∙ (cp v).changes.others p (λ s. cc ((text_eq_iff p final).1 s, elsewhere))
                ∙ same)
          ]

          first :
              (r : Bool × W)
              → upload w ≡ r
              → (and_then r (λ w1. and_then (copy w1) (λ w2. (true, (remove w2).1)))).0 ≡ false
              → KeptOrPlaced p
                  (and_then r (λ w1. and_then (copy w1) (λ w2. (true, (remove w2).1)))).1
          first (false, v) q e' = inl (sym (ap (λ r. content r.1 p) q) ∙ up.changes.others p ne)
          first (true, v) q e' =
              second v (copy v) refl
                (sym (ap (λ r. content r.1 tmp) q) ∙ up.stored (ap (λ r. r.0) q))
                (sym (ap (λ r. content r.1 p) q) ∙ up.changes.others p ne) e'

      -- A success puts the content under the final key, and changes nothing else but the temporary
      -- one.
      pub publish-ok :
          (p : Text)
          → p ≢ tmp
          → (publish w).0 ≡ true
          → content (publish w).1 p ≡ set_object (content w) final (some b) p
      publish-ok p ne e = first (upload w) refl e
        where
          placed :
              (v v' : W)
              → content v tmp ≡ some b
              → content v p ≡ content w p
              → copy v ≡ (true, v')
              → content v' p ≡ set_object (content w) final (some b) p
          placed v v' held same q = elim (Bool-cases (text_eq p final)) [
            | inl at_final ↦ rw at_final (
                ap (content v') ((text_eq_iff p final).0 at_final)
                ∙ sym (ap (λ r. content r.1 final) q)
                ∙ (cp v).copied (ap (λ r. r.0) q)
                ∙ held)
            | inr elsewhere ↦ rw elsewhere (
                sym (ap (λ r. content r.1 p) q)
                ∙ (cp v).changes.others p (λ s. cc ((text_eq_iff p final).1 s, elsewhere))
                ∙ same)
          ]

          second :
              (v : W) (r : Bool × W)
              → copy v ≡ r
              → content v tmp ≡ some b
              → content v p ≡ content w p
              → (and_then r (λ w2. (true, (remove w2).1))).0 ≡ true
              → content (and_then r (λ w2. (true, (remove w2).1))).1 p
                ≡ set_object (content w) final (some b) p
          second v (false, v') q held same e' = absurd (cc e')
          second v (true, v') q held same e' = (rm v').changes.others p ne ∙ placed v v' held same q

          first :
              (r : Bool × W)
              → upload w ≡ r
              → (and_then r (λ w1. and_then (copy w1) (λ w2. (true, (remove w2).1)))).0 ≡ true
              → content (and_then r (λ w1. and_then (copy w1) (λ w2. (true, (remove w2).1)))).1 p
                ≡ set_object (content w) final (some b) p
          first (false, v) q e' = absurd (cc e')
          first (true, v) q e' =
              second v (copy v) refl
                (sym (ap (λ r. content r.1 tmp) q) ∙ up.stored (ap (λ r. r.0) q))
                (sym (ap (λ r. content r.1 p) q) ∙ up.changes.others p ne) e'
