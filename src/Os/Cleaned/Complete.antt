-- ===== src/Os/Cleaned/Complete.antt =====
-- The atomic write of internal/filesystem/fs.go, with its cleanup, is all or nothing.
use file_server_management.Prelude.{
  ℕ, ◌≡◌, ◌≢◌, refl, Bool, true, false, List, [], ◌∷◌, Option, none, some, Result, ok, err, sym, ap,
  ◌∙◌, Bool-cases, Result-cases, inl, inr, ◌⊎◌,
}
use file_server_management.Text.{Text, text_eq, text_eq_iff}
use file_server_management.FilePath.{dir}
use file_server_management.LocalFs.{LocalFs, FsError, sanitize_and_resolve}
use file_server_management.LocalFs.Sanitize.{HasBase, IsWithin}
use file_server_management.LocalFs.Links.{EvalIsClean, sanitize_and_resolve-IsWithin}
use file_server_management.Os.{
  Bytes, Os, Outcome, DiskError, cancelled, target_required, after, copy, with_path,
}
use file_server_management.Os.Steps.{IsOs}
use file_server_management.Os.Atomic.{
  AllOrNothing, IsStaged, kept_file, made, written, named, moded, same_or_else,
}
use file_server_management.Os.Cleaned.{
  cleaned, fill_and_rename, stage, ensure_and_stage, resolved_atomic_write,
}

-- The name is not one that os.CreateTemp gives.
pub record IsNoTemp {W : Type 0} (os : Os W) (target : Text) : Type 0 where
  pub apart : (d : Text) (w w' : W) (t : Text) → os.create_temp d w ≡ (some t, w') → t ≢ target

module _ {W : Type 0} (content : W → Text → Option Bytes) (os : Os W) (laws : IsOs os content)
    (target : Text) (b : Bytes) (w : W) where
  -- Removing the temporary file takes nothing away that was there before.
  cleaned-AllOrNothing :
      (t : Text) (r : Outcome W)
      → content w t ≡ none
      → t ≢ target
      → AllOrNothing content w target b r
      → AllOrNothing content w target b (cleaned os t r)
  unfolding cleaned
  cleaned-AllOrNothing t (err e, v) is_new apart all = λ p there.
      laws.remove_others t v p (λ same. there (ap (content w) same ∙ is_new)) ∙ all p there
  cleaned-AllOrNothing t (ok _, v) is_new apart all = (
    laws.remove_others t v target (λ q. apart (sym q)) ∙ all.0,
    λ p other. elim (Bool-cases (text_eq p t)) [
      | inl same ↦
          let p_eq = (text_eq_iff p t).0 same in
          ap (content (os.remove t v).1) p_eq
          ∙ gone (os.remove t v) refl
          ∙ ap (content w) (sym p_eq)
      | inr differs ↦
          laws.remove_others t v p (λ q. cc ((text_eq_iff p t).1 q, differs)) ∙ all.1 p other
    ],
  )
    where
      gone : (d : Bool × W) → os.remove t v ≡ d → content (os.remove t v).1 t ≡ content w t
      gone (true, v') e = ap (λ q. content q.1 t) e ∙ laws.remove_done t v v' e ∙ sym is_new
      gone (false, v') e = ap (λ q. content q.1 t) e ∙ laws.remove_fails t v v' e t ∙ all.1 t apart

  closed :
      (next : W → Outcome W) (t : Text) (v : W) (r : Bool × W)
      → os.close t v ≡ r
      → IsStaged content os laws target b w t v
      → content v t ≡ some b
      → ((v' : W)
          → IsStaged content os laws target b w t v'
          → content v' t ≡ some b
          → AllOrNothing content w target b (next v'))
      → AllOrNothing content w target b (after r next)
  closed next t v (x, v') e st held go = split x
    where
      same : (p : Text) → content v' p ≡ content v p
      same p = sym (ap (λ r. content r.1 p) e) ∙ laws.close_keeps t v p

      staged : IsStaged content os laws target b w t v'
      staged = record { is_new = st.is_new; others = λ p ne. same p ∙ st.others p ne }

      split : (x' : Bool) → AllOrNothing content w target b (after (x', v') next)
      split true = go v' staged (same t ∙ held)
      split false = kept_file content os laws target b w t v' staged

  synced :
      (t : Text) (v : W)
      → IsStaged content os laws target b w t v
      → IsStaged content os laws target b w t (os.sync t v)
  synced t v st = record {
    is_new = st.is_new;
    others = λ p ne. laws.sync_keeps t v p ∙ st.others p ne;
  }

  pub stage-AllOrNothing :
      (mode : ℕ) (clean : Bool) (v : W)
      → IsNoTemp os target
      → ((p : Text) → content v p ≡ content w p)
      → AllOrNothing content w target b (stage os mode target (b, clean) v)
  unfolding stage fill_and_rename copy
  stage-AllOrNothing mode clean v no_temp same =
      named content os laws target b w _ v (os.create_temp (dir target) v) same refl
        (λ t v1 e st empty.
          cleaned-AllOrNothing t _ st.is_new (no_temp.apart (dir target) v v1 t e) (
            written content os laws target b w _ t clean v1 (os.write t b v1) refl st empty
              (λ v2 st2 held.
                closed _ t (os.sync t v2) (os.close t (os.sync t v2)) refl (synced t v2 st2)
                  (laws.sync_keeps t v2 t ∙ held)
                  (λ v3 st3 held3.
                    moded content os laws target b w mode t v3 (os.chmod t mode v3) refl st3
                      held3))))

  pub ensure_and_stage-AllOrNothing :
      (mode : ℕ) (clean : Bool)
      → IsNoTemp os target
      → AllOrNothing content w target b (ensure_and_stage os mode target (b, clean) w)
  unfolding ensure_and_stage
  ensure_and_stage-AllOrNothing mode clean no_temp =
      made content os laws target b w _ (os.mkdir_all (dir target) w) refl
        (λ v same. stage-AllOrNothing mode clean v no_temp same)

module _ {W : Type 0} (content : W → Text → Option Bytes) (os : Os W)
    (eval : W → Text → Option Text) (l : LocalFs) (mode : ℕ) (b : Bytes) (clean : Bool) where
  -- What a call with a live context and a target amounts to.
  abbrev by_path : Result FsError Text → W → Outcome W
  by_path r w = with_path os r w (λ p. ensure_and_stage os mode p (b, clean) w)

  attempt :
      (done : Bool) (parts : List Text) (w : W)
      → ((error : DiskError) × (resolved_atomic_write os eval l done mode (b, clean) parts w
            ≡ (err error, w)))
        ⊎ (resolved_atomic_write os eval l done mode (b, clean) parts w
            ≡ by_path (sanitize_and_resolve (eval w) l parts) w)
  unfolding resolved_atomic_write
  attempt true parts w = inl (cancelled, refl)
  attempt false [] w = inl (target_required, refl)
  attempt false (p ∷ parts) w = inr refl

  -- If `AtomicWriteFile` of fs.go succeeds, the requested parts have been resolved to a path, which
  -- is the base or below it and holds what the reader gave, and every other path holds what it held
  -- before, provided that the target has no name that os.CreateTemp gives and that EvalSymlinks
  -- answers cleaned paths.
  pub resolved_atomic_write-ok :
      (done : Bool) (bs : List Text) (parts : List Text) (w w' : W)
      → IsOs os content
      → EvalIsClean (eval w)
      → HasBase l bs
      → ((target : Text) → sanitize_and_resolve (eval w) l parts ≡ ok target → IsNoTemp os target)
      → resolved_atomic_write os eval l done mode (b, clean) parts w ≡ (ok tt, w')
      → (target : Text) × (sanitize_and_resolve (eval w) l parts ≡ ok target)
        × IsWithin bs target
        × (content w' target ≡ some b)
        × ((p : Text) → (p ≡ target) ⊎ (content w' p ≡ content w p))
  resolved_atomic_write-ok done bs parts w w' laws v h no_temp e = elim (attempt done parts w) [
    | inl (error, stopped) ↦ absurd (cc (ap (λ q. q.0) (sym stopped ∙ e)))
    | inr begun ↦ elim (Result-cases (sanitize_and_resolve (eval w) l parts)) [
      | inr (r, outside) ↦
          absurd (cc (ap (λ q. q.0) (sym (ap (λ s. by_path s w) outside) ∙ sym begun ∙ e)))
      | inl (target, accepted) ↦
          let ran : ensure_and_stage os mode target (b, clean) w ≡ (ok tt, w') =
            sym (ap (λ s. by_path s w) accepted) ∙ sym begun ∙ e in
          let all = rw ran at (
            ensure_and_stage-AllOrNothing content os laws target b w mode clean
              (no_temp target accepted)) in
          (
            target,
            accepted,
            sanitize_and_resolve-IsWithin (eval w) l bs parts target v h accepted,
            all.0,
            λ p. same_or_else content w w' target p (all.1 p),
          )
    ]
  ]

  -- If `AtomicWriteFile` of fs.go fails, for whatever reason, every file that was on the disk is as
  -- it was, provided that the target has no name that os.CreateTemp gives.
  pub resolved_atomic_write-err :
      (done : Bool) (parts : List Text) (w w' : W) (error : DiskError) (p : Text)
      → IsOs os content
      → ((target : Text) → sanitize_and_resolve (eval w) l parts ≡ ok target → IsNoTemp os target)
      → resolved_atomic_write os eval l done mode (b, clean) parts w ≡ (err error, w')
      → content w p ≢ none
      → content w' p ≡ content w p
  resolved_atomic_write-err done parts w w' error p laws no_temp e there =
      elim (attempt done parts w) [
        | inl (_, stopped) ↦ ap (λ q. content q.1 p) (sym e ∙ stopped)
        | inr begun ↦ elim (Result-cases (sanitize_and_resolve (eval w) l parts)) [
          | inr (r, outside) ↦
              sym (ap (λ q. content q.1 p) (sym (ap (λ s. by_path s w) outside) ∙ sym begun ∙ e))
          | inl (target, accepted) ↦
              let ran : ensure_and_stage os mode target (b, clean) w ≡ (err error, w') =
                sym (ap (λ s. by_path s w) accepted) ∙ sym begun ∙ e in
              (rw ran at (
                  ensure_and_stage-AllOrNothing content os laws target b w mode clean
                    (no_temp target accepted)))
                p there
        ]
      ]
