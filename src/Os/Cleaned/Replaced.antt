-- ===== src/Os/Cleaned/Replaced.antt =====
-- What `MoveUploadedFile` of internal/filesystem/fs.go leaves of a file that it replaces.
use file_server_management.Prelude.{
  ℕ, ◌≡◌, ◌≢◌, refl, Bool, true, false, List, Option, none, some, ok, err, sym, ap, ◌∙◌, Bool-cases,
  Option-cases, inl, inr, ◌⊎◌,
}
use file_server_management.Text.{Text}
use file_server_management.FilePath.{dir}
use file_server_management.LocalFs.{LocalFs, sanitize_and_resolve}
use file_server_management.Os.{
  Bytes, Os, Outcome, DiskError, os_failed, after, finish, copy, with_name,
}
use file_server_management.Os.Steps.{IsOs}
use file_server_management.Os.Atomic.{AllOrNothing}
use file_server_management.Os.Cleaned.{
  cleaned, fill_and_rename, stage, copy_file_contents, then_remove, or_copy_contents, resolved_move,
}
use file_server_management.Os.Cleaned.Complete.{IsNoTemp, stage-AllOrNothing}

module _ {W : Type 0} (os : Os W) where
  failed_cleanup : (t : Text) (r : Outcome W) → (cleaned os t r).0 ≡ r.0
  unfolding cleaned
  failed_cleanup t (r, w) = refl

  fill_broken :
      (mode : ℕ) (target t : Text) (b : Bytes) (w : W)
      → (fill_and_rename os mode target (b, false) t w).0 ≡ err os_failed
  unfolding fill_and_rename copy
  fill_broken mode target t b w = elim (Bool-cases (os.write t b w).0) [
    | inl done ↦ rw done refl
    | inr failed ↦ rw failed refl
  ]

  -- A source whose reading fails is never staged.
  stage_broken :
      (mode : ℕ) (target : Text) (b : Bytes) (w : W)
      → (stage os mode target (b, false) w).0 ≡ err os_failed
  unfolding stage
  stage_broken mode target b w = by_name (os.create_temp (dir target) w)
    where
      by_name :
          (r : Option Text × W)
          → (with_name r (λ t w1. cleaned os t (fill_and_rename os mode target (b, false) t w1))).0
            ≡ err os_failed
      by_name (none, w1) = refl
      by_name (some t, w1) =
          failed_cleanup t (fill_and_rename os mode target (b, false) t w1)
          ∙ fill_broken mode target t b w1

module _ {W : Type 0} (content : W → Text → Option Bytes) (os : Os W) (laws : IsOs os content)
    (s d : Text) (x y : Bytes) (w : W) (apart : s ≢ d) (no_temp : IsNoTemp os d)
    (held : content w s ≡ some x) (there : content w d ≡ some y) where
  -- After a failure the source is whole, and the target is what it was or the whole source.
  abbrev Whole : Outcome W → Type 0
  Whole (ok _, v) = Unit
  Whole (err _, v) = (content v s ≡ some x) × ((content v d ≡ some y) ⊎ (content v d ≡ some x))

  abbrev Same : W → Type 0
  Same v = (p : Text) → content v p ≡ content w p

  unchanged : (e : DiskError) (v : W) → Same v → Whole (err e, v)
  unchanged e v same = (same s ∙ held, inl (same d ∙ there))

  removed : (v : W) → content v s ≡ some x → content v d ≡ some x → Whole (finish (os.remove s v))
  removed v at_s at_d = by_result (os.remove s v) refl
    where
      by_result : (r : Bool × W) → os.remove s v ≡ r → Whole (finish r)
      by_result (true, v') e = tt
      by_result (false, v') e =
          (laws.remove_fails s v v' e s ∙ at_s, inr (laws.remove_fails s v v' e d ∙ at_d))

  staged :
      (b : Bytes) (r : Outcome W)
      → AllOrNothing content w d b r
      → (r.0 ≡ ok tt → b ≡ x)
      → Whole (then_remove os s r)
  staged b (ok u, v) all same = removed v (all.1 s apart ∙ held) (all.0 ∙ ap some (same refl))
  staged b (err e, v) all _ = (
    all s (λ q. absurd (cc (sym held ∙ q))) ∙ held,
    inl (all d (λ q. absurd (cc (sym there ∙ q))) ∙ there),
  )

  read_whole :
      (mode : ℕ) (v : W) (b : Bytes) (clean : Bool)
      → Same v
      → os.open_file s v ≡ some (b, clean)
      → (stage os mode d (b, clean) v).0 ≡ ok tt
      → b ≡ x
  read_whole mode v b false same e done = absurd (cc (sym (stage_broken os mode d b v) ∙ done))
  read_whole mode v b true same e done =
      ap (elim [ none ↦ b | some z ↦ z ]) (sym (laws.open_reads s v b e) ∙ same s ∙ held)

  copied : (v : W) → Same v → Whole (then_remove os s (copy_file_contents os s d v))
  unfolding copy_file_contents
  copied v same = elim (Option-cases (os.open_file s v)) [
    | inl unopened ↦ rw (unopened, copy_file_contents) (unchanged os_failed v same)
    | inr ((b, clean), opened) ↦ elim (Option-cases (os.mode_of s v)) [
      | inl unknown ↦ rw (opened, copy_file_contents, unknown) (unchanged os_failed v same)
      | inr (mode, known) ↦
          rw (opened, copy_file_contents, known)
            (staged b (stage os mode d (b, clean) v)
              (stage-AllOrNothing content os laws d b w mode clean v no_temp same)
              (read_whole mode v b clean same opened))
    ]
  ]

  renamed : (v : W) → Same v → Whole (or_copy_contents os s d (os.rename s d v))
  renamed v same = by_result (os.rename s d v) refl
    where
      by_result : (r : Bool × W) → os.rename s d v ≡ r → Whole (or_copy_contents os s d r)
      by_result (true, v') e = tt
      by_result (false, v') e = copied v' (λ p. laws.rename_fails s d v v' e p ∙ same p)

  pub after_mkdir :
      Whole (after (os.mkdir_all (dir d) w) (λ v. or_copy_contents os s d (os.rename s d v)))
  after_mkdir = by_result (os.mkdir_all (dir d) w) refl
    where
      by_result :
          (r : Bool × W)
          → os.mkdir_all (dir d) w ≡ r
          → Whole (after r (λ v. or_copy_contents os s d (os.rename s d v)))
      by_result (true, v) e =
          renamed v (λ p. sym (ap (λ r. content r.1 p) e) ∙ laws.mkdir_keeps (dir d) w p)
      by_result (false, v) e =
          unchanged os_failed v
            (λ p. sym (ap (λ r. content r.1 p) e) ∙ laws.mkdir_keeps (dir d) w p)

-- If `MoveUploadedFile` of fs.go, called with a live context on a file and the name of another
-- file, fails, the file is still at its old name, and at the new name is the file that was there or
-- the whole of the moved one, never a part, provided that os.CreateTemp does not give that name.
pub resolved_move-err :
    {W : Type 0} (content : W → Text → Option Bytes) (os : Os W) (eval : W → Text → Option Text)
    (l : LocalFs) (src dst : List Text) (s d : Text) (x y : Bytes) (w w' : W) (error : DiskError)
    → IsOs os content
    → sanitize_and_resolve (eval w) l src ≡ ok s
    → sanitize_and_resolve (eval w) l dst ≡ ok d
    → s ≢ d
    → IsNoTemp os d
    → content w s ≡ some x
    → content w d ≡ some y
    → resolved_move os eval l false src dst w ≡ (err error, w')
    → (content w' s ≡ some x) × ((content w' d ≡ some y) ⊎ (content w' d ≡ some x))
unfolding resolved_move
resolved_move-err content os eval l src dst s d x y w w' error laws from to apart no_temp held there
      e =
    let failed = rw (from, to, resolved_move) at e in
    rw failed at (after_mkdir content os laws s d x y w apart no_temp held there)
