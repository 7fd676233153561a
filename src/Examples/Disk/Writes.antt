-- ===== src/Examples/Disk/Writes.antt =====
-- Writes and moves on the disk of Examples/Disk.
use file_server_management.Prelude.{
  ℕ, Bool, Result, ◌≡◌, ◌⊎◌, ◌≢◌, refl, true, false, [], ◌∷◌, ◌++◌, Option, none, some, ok, err,
  sym, ap, ◌∙◌, arith, All,
}
use file_server_management.Text.{Text, txt, text_eq, has_prefix, has_suffix, trim_prefix}
use file_server_management.FilePath.{dir, render, is_abs, clean, join, rel, split_slash, walk}
use file_server_management.FilePath.Walk.{IsPlain}
use file_server_management.Storage.{full}
use file_server_management.LocalFs.{sanitize_and_join, relative_request, check_inside}
use file_server_management.LocalFs.Sanitize.{HasBase, IsWithin}
use file_server_management.Os.{
  os_failed, copy, copy_and_remove, write_through, write_with_mode, move_through,
  storage_atomic_write, storage_move, atomic_write_file, move_uploaded_file,
}
use file_server_management.Os.Writes.{storage_atomic_write-err}
use file_server_management.Examples.{base, files}
use file_server_management.Examples.Disk.{Files, content, put, disk, temp_name, temp_at, disk-IsOs}
use file_server_management.LocalFs.{FsError, sanitize_and_resolve, resolve_links}
use file_server_management.LocalFs.Links.{EvalIsClean}
use file_server_management.Os.Cleaned.{
  cleaned, fill_and_rename, stage, ensure_and_stage, resolved_atomic_write,
}
use file_server_management.Os.Cleaned.Complete.{
  IsNoTemp, resolved_atomic_write-ok, resolved_atomic_write-err,
}

runs : Unit {0}
unfolding storage_atomic_write storage_move atomic_write_file move_uploaded_file write_through
    write_with_mode move_through copy copy_and_remove full sanitize_and_join relative_request
    check_inside clean join rel dir is_abs text_eq has_prefix trim_prefix has_suffix render
    split_slash walk
runs = tt

abbrev pub stored : Files
stored = put (txt "/mnt/files/a") (some (1 ∷ [])) (λ p. none)

abbrev pub root : Text
root = txt "/mnt/files"

abbrev overwritten : Files
overwritten = (storage_atomic_write (disk true) root (txt "a") (2 ∷ [], true) stored).1

write_run :
    storage_atomic_write (disk true) root (txt "a") (2 ∷ [], true) stored ≡ (ok tt, overwritten)
unfolding runs
write_run = refl

abbrev interrupted : Files
interrupted = (storage_atomic_write (disk true) root (txt "a") (2 ∷ [], false) stored).1

interrupted_run :
    storage_atomic_write (disk true) root (txt "a") (2 ∷ [], false) stored
    ≡ (err os_failed, interrupted)
unfolding runs
interrupted_run = refl

a_is_there : content stored (txt "/mnt/files/a") ≢ none
a_is_there = unfold text_eq in ground arith

storage_atomic_write-err_example :
    content interrupted (txt "/mnt/files/a") ≡ content stored (txt "/mnt/files/a")
storage_atomic_write-err_example =
    storage_atomic_write-err content (disk true) root (txt "a") (2 ∷ []) false stored interrupted
      os_failed (txt "/mnt/files/a") (disk-IsOs true) interrupted_run a_is_there

base-IsPlain : All IsPlain base
base-IsPlain = ground arith

files-HasBase : HasBase files base
files-HasBase = record { plain = base-IsPlain; text = unfold render in refl }

abbrev saved : Files
saved = (atomic_write_file (disk true) files 420 (3 ∷ []) (txt "b" ∷ []) stored).1

saved_run : atomic_write_file (disk true) files 420 (3 ∷ []) (txt "b" ∷ []) stored ≡ (ok tt, saved)
unfolding runs
saved_run = refl

abbrev unsaved : Files
unsaved = (atomic_write_file (disk false) files 420 (3 ∷ []) (txt "a" ∷ []) stored).1

unsaved_run :
    atomic_write_file (disk false) files 420 (3 ∷ []) (txt "a" ∷ []) stored
    ≡ (err os_failed, unsaved)
unfolding runs
unsaved_run = refl

-- The last code of a text.
abbrev pub final : Text → ℕ
final [] = 0
final (c ∷ []) = c
final (c ∷ d ∷ s) = final (d ∷ s)

final-append : (s : Text) (c : ℕ) (t : Text) → final (s ++ c ∷ t) ≡ final (c ∷ t)
final-append [] c t = refl
final-append (d ∷ []) c t = refl
final-append (d ∷ e ∷ s) c t = final-append (e ∷ s) c t

abbrev new_name : Text
new_name = txt "/mnt/files/b"

pub not_temp-IsNoTemp :
    (linked : Bool) (target : Text)
    → final (txt "/.tmp-1") ≢ final target
    → IsNoTemp (disk linked) target
not_temp-IsNoTemp linked target differs = record {
  apart = λ d w w' t e same.
      let (name, free, all) = temp_at (temp_name d) t (w (temp_name d)) w w' e in
      differs (sym (final-append d 47 (txt ".tmp-1")) ∙ ap final (name ∙ same));
}

-- No path has been resolved yet.
abbrev pub unresolved : Files → Text → Option Text
unresolved w p = none

unresolved-EvalIsClean : EvalIsClean (unresolved stored)
unresolved-EvalIsClean = record { abs = λ p q _ e. absurd cc; cleaned = λ p q e. absurd cc }

new_name_run : sanitize_and_resolve (unresolved stored) files (txt "b" ∷ []) ≡ ok new_name
unfolding runs sanitize_and_resolve resolve_links
new_name_run = refl

only_new_name :
    (target : Text)
    → sanitize_and_resolve (unresolved stored) files (txt "b" ∷ []) ≡ ok target
    → IsNoTemp (disk true) target
only_new_name target e =
    rw (← ok_text (sym new_name_run ∙ e)) (not_temp-IsNoTemp true new_name (ground arith))
  where
    ok_text : {s t : Text} → ◌≡◌ {A = Result FsError Text} (ok s) (ok t) → s ≡ t
    ok_text {s} q = ap (elim [ ok x ↦ x | err _ ↦ s ]) q

abbrev resolved : Files
resolved =
    (resolved_atomic_write (disk true) unresolved files false 420 (3 ∷ [], true) (txt "b" ∷ [])
      stored).1

resolved_run :
    resolved_atomic_write
      (disk true)
      unresolved
      files
      false
      420
      (3 ∷ [], true)
      (txt "b" ∷ [])
      stored
    ≡ (ok tt, resolved)
unfolding runs sanitize_and_resolve resolve_links resolved_atomic_write ensure_and_stage stage
    cleaned fill_and_rename
resolved_run = refl

resolved_atomic_write-ok_example :
    (target : Text) × (sanitize_and_resolve (unresolved stored) files (txt "b" ∷ []) ≡ ok target)
    × IsWithin base target
    × (content resolved target ≡ some (3 ∷ []))
    × ((p : Text) → (p ≡ target) ⊎ (content resolved p ≡ content stored p))
resolved_atomic_write-ok_example =
    resolved_atomic_write-ok content (disk true) unresolved files 420 (3 ∷ []) true false base
      (txt "b" ∷ []) stored resolved (disk-IsOs true) unresolved-EvalIsClean files-HasBase
      only_new_name resolved_run

abbrev broken_off : Files
broken_off =
    (resolved_atomic_write (disk true) unresolved files false 420 (3 ∷ [], false) (txt "b" ∷ [])
      stored).1

broken_off_run :
    resolved_atomic_write
      (disk true)
      unresolved
      files
      false
      420
      (3 ∷ [], false)
      (txt "b" ∷ [])
      stored
    ≡ (err os_failed, broken_off)
unfolding runs sanitize_and_resolve resolve_links resolved_atomic_write ensure_and_stage stage
    cleaned fill_and_rename
broken_off_run = refl

resolved_atomic_write-err_example :
    content broken_off (txt "/mnt/files/a") ≡ content stored (txt "/mnt/files/a")
resolved_atomic_write-err_example =
    resolved_atomic_write-err content (disk true) unresolved files 420 (3 ∷ []) false false
      (txt "b" ∷ []) stored broken_off os_failed (txt "/mnt/files/a") (disk-IsOs true) only_new_name
      broken_off_run a_is_there
