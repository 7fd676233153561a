-- ===== src/Os/Cleaned.antt =====
-- The operations of internal/filesystem/fs.go on the disk: as those of local.go, but that paths
-- have their links resolved, a cancelled context stops a call at once, and a temporary file is
-- removed behind a write, whatever has happened.
pub mod Complete
pub mod Replaced
use file_server_management.Prelude.{
  ℕ, ◌≡◌, ◌≢◌, refl, Bool, true, false, List, [], ◌∷◌, ◌++◌, Option, none, some, Result, ok, err,
  sym, ap, ◌∙◌, Bool-cases, if◌then◌else◌, Result-cases, inl, inr, ◌⊎◌,
}
use file_server_management.Text.{Text, text_eq, text_eq_iff}
use file_server_management.FilePath.{dir}
use file_server_management.LocalFs.{LocalFs, sanitize_and_resolve}
use file_server_management.LocalFs.Sanitize.{HasBase, IsWithin}
use file_server_management.LocalFs.Links.{EvalIsClean, sanitize_and_resolve-IsWithin}
use file_server_management.Os.{
  Bytes, Source, Os, Outcome, DiskError, os_failed, cancelled, target_required, after, with_name,
  finish, copy, with_path, existing,
}
use file_server_management.Os.Steps.{IsOs}
use file_server_management.Os.Atomic.{
  AllOrNothing, IsStaged, kept_file, made, written, named, moded, same_or_else,
}

module _ {W : Type 0} (os : Os W) where
  -- The deferred function that removes the temporary file; its error is dropped.
  unfoldable pub cleaned : Text → Outcome W → Outcome W
  cleaned tmp (r, w) = (r, (os.remove tmp w).1)

  -- What `AtomicWriteFile` and `copyFileContents` do once they have a temporary file.
  unfoldable pub fill_and_rename : ℕ → Text → Source → Text → W → Outcome W
  fill_and_rename mode target src tmp w = after (copy os tmp src w) (λ w1.
      after (os.close tmp (os.sync tmp w1))
        (λ w2. after (os.chmod tmp mode w2) (λ w3. finish (os.rename tmp target w3))))

  unfoldable pub stage : ℕ → Text → Source → W → Outcome W
  stage mode target src w =
      with_name (os.create_temp (dir target) w)
        (λ tmp w1. cleaned tmp (fill_and_rename mode target src tmp w1))

  -- `AtomicWriteFile`, past its checks
  unfoldable pub ensure_and_stage : ℕ → Text → Source → W → Outcome W
  ensure_and_stage mode target src w =
      after (os.mkdir_all (dir target) w) (λ w1. stage mode target src w1)

  abbrev pub with_mode : Option ℕ → W → (ℕ → Outcome W) → Outcome W
  with_mode none w next = (err os_failed, w)
  with_mode (some mode) w next = next mode

  -- `copyFileContents`
  unfoldable pub copy_file_contents : (src dst : Text) → W → Outcome W
  copy_file_contents src dst w = elim (os.open_file src w) [
    | none ↦ (err os_failed, w)
    | some source ↦ with_mode (os.mode_of src w) w (λ mode. stage mode dst source w)
  ]

  -- The removal behind a copy that succeeded.
  abbrev pub then_remove : (src : Text) → Outcome W → Outcome W
  then_remove src (ok _, w) = finish (os.remove src w)
  then_remove src (err e, w) = (err e, w)

  abbrev pub or_copy_contents : (src dst : Text) → Bool × W → Outcome W
  or_copy_contents src dst (true, w) = (ok tt, w)
  or_copy_contents src dst (false, w) = then_remove src (copy_file_contents src dst w)

  abbrev pub unless_done : Bool → W → Outcome W → Outcome W
  unless_done done w next = if done then (err cancelled, w) else next

  abbrev pub unless_empty : List Text → W → Outcome W → Outcome W
  unless_empty [] w next = (err target_required, w)
  unless_empty (_ ∷ _) w next = next

  -- `eval w` is filepath.EvalSymlinks on the disk `w`, and `done` tells whether the context is
  -- done.
  module _ (eval : W → Text → Option Text) (l : LocalFs) (done : Bool) where
    -- `CreateFolder`
    unfoldable pub resolved_create_folder : List Text → W → Outcome W
    resolved_create_folder parts w =
        unless_done done w
          (with_path os (sanitize_and_resolve (eval w) l parts) w (λ p. finish (os.mkdir_all p w)))

    -- `AtomicWriteFile`
    unfoldable pub resolved_atomic_write : ℕ → Source → List Text → W → Outcome W
    resolved_atomic_write mode src parts w = unless_done done w (
        unless_empty parts w (
          with_path os (sanitize_and_resolve (eval w) l parts) w
            (λ p. ensure_and_stage mode p src w)))

    -- `MoveUploadedFile`
    unfoldable pub resolved_move : List Text → List Text → W → Outcome W
    resolved_move src dst w = unless_done done w (
        with_path os (sanitize_and_resolve (eval w) l src) w (λ s.
          with_path os (sanitize_and_resolve (eval w) l dst) w
            (λ d. after (os.mkdir_all (dir d) w) (λ w1. or_copy_contents s d (os.rename s d w1)))))

  -- `Exists`
  unfoldable pub resolved_exists :
      (W → Text → Option Text) → LocalFs → List Text → W → Result DiskError Bool
  resolved_exists eval l parts w = existing os (sanitize_and_resolve (eval w) l parts) w
