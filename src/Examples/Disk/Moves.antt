-- ===== src/Examples/Disk/Moves.antt =====
-- Moves, and a write that nobody checks, on the disk of Examples/Disk.
use file_server_management.Prelude.{
  ◌≡◌, refl, true, false, [], ◌∷◌, ◌++◌, some, ok, err, arith, ◌⊎◌,
}
use file_server_management.Text.{Text, txt, text_eq, has_prefix, has_suffix, trim_prefix}
use file_server_management.FilePath.{dir, render, is_abs, clean, join, rel, split_slash, walk}
use file_server_management.Storage.{full}
use file_server_management.LocalFs.{sanitize_and_join, relative_request, check_inside}
use file_server_management.Os.{
  os_failed, copy, copy_and_remove, write_through, write_with_mode, move_through,
  storage_atomic_write, storage_move, atomic_write_file, move_uploaded_file,
}
use file_server_management.Os.Unchecked.{unchecked_atomic_write, unchecked_atomic_write-partial}
use file_server_management.Examples.{files}
use file_server_management.Examples.Disk.{Files, content, put, disk, disk-IsOs}
use file_server_management.LocalFs.{sanitize_and_resolve, resolve_links}
use file_server_management.Os.Cleaned.{cleaned, fill_and_rename, stage}
use file_server_management.Os.Cleaned.{copy_file_contents, resolved_move}
use file_server_management.Os.Cleaned.Replaced.{resolved_move-err}
use file_server_management.Examples.Disk.Writes.{stored, root, unresolved, not_temp-IsNoTemp}

runs : Unit {0}
unfolding storage_atomic_write storage_move atomic_write_file move_uploaded_file write_through
    write_with_mode move_through copy copy_and_remove full sanitize_and_join relative_request
    check_inside clean join rel dir is_abs text_eq has_prefix trim_prefix has_suffix render
    split_slash walk
runs = tt

-- Moved by a copy, since the rename fails.
abbrev copied_over : Files
copied_over = (storage_move (disk false) root (txt "a") (txt "c") stored).1

copied_run : storage_move (disk false) root (txt "a") (txt "c") stored ≡ (ok tt, copied_over)
unfolding runs
copied_run = refl

abbrev stuck : Files
stuck = (move_uploaded_file (disk false) files (txt "a" ∷ []) (txt "locked" ∷ []) stored).1

stuck_run :
    move_uploaded_file (disk false) files (txt "a" ∷ []) (txt "locked" ∷ []) stored
    ≡ (err os_failed, stuck)
unfolding runs
stuck_run = refl

source_run : sanitize_and_join files (txt "a" ∷ []) ≡ ok (txt "/mnt/files/a")
unfolding runs
source_run = refl

target_run : sanitize_and_join files (txt "locked" ∷ []) ≡ ok (txt "/mnt/files/locked")
unfolding runs
target_run = refl

abbrev tmp : Text
tmp = full root (txt "a") ++ txt ".tmp"

abbrev emptied : Files
emptied = ((disk true).create tmp stored).1

abbrev half_written : Files
half_written = ((disk true).write tmp (2 ∷ []) emptied).1

abbrev published : Files
published = ((disk true).rename tmp (full root (txt "a")) half_written).1

create_run : (disk true).create tmp stored ≡ (true, emptied)
unfolding runs
create_run = refl

half_run : (disk true).write tmp (2 ∷ []) emptied ≡ (true, half_written)
unfolding runs
half_run = refl

publish_run : (disk true).rename tmp (full root (txt "a")) half_written ≡ (true, published)
unfolding runs
publish_run = refl

unchecked_atomic_write-partial_example :
    (unchecked_atomic_write (disk true) root (txt "a") (2 ∷ [], false) stored ≡ (true, published))
    × (content published (full root (txt "a")) ≡ some (2 ∷ []))
unchecked_atomic_write-partial_example =
    unchecked_atomic_write-partial (disk true) root content (txt "a") (2 ∷ []) stored emptied
      half_written published (disk-IsOs true) create_run half_run publish_run

-- A file at the new name; a rename never works on this disk.
abbrev both_held : Files
both_held = put (txt "/mnt/files/c") (some (9 ∷ [])) stored

abbrev unmoved : Files
unmoved =
    (resolved_move (disk false) unresolved files false (txt "a" ∷ []) (txt "c" ∷ []) both_held).1

unmoved_run :
    resolved_move (disk false) unresolved files false (txt "a" ∷ []) (txt "c" ∷ []) both_held
    ≡ (err os_failed, unmoved)
unfolding runs sanitize_and_resolve resolve_links resolved_move copy_file_contents stage cleaned
    fill_and_rename
unmoved_run = refl

old_run : sanitize_and_resolve (unresolved both_held) files (txt "a" ∷ []) ≡ ok (txt "/mnt/files/a")
unfolding runs sanitize_and_resolve resolve_links
old_run = refl

new_run : sanitize_and_resolve (unresolved both_held) files (txt "c" ∷ []) ≡ ok (txt "/mnt/files/c")
unfolding runs sanitize_and_resolve resolve_links
new_run = refl

old_held : content both_held (txt "/mnt/files/a") ≡ some (1 ∷ [])
unfolding text_eq
old_held = refl

new_held : content both_held (txt "/mnt/files/c") ≡ some (9 ∷ [])
unfolding text_eq
new_held = refl

resolved_move-err_example :
    (content unmoved (txt "/mnt/files/a") ≡ some (1 ∷ []))
    × ((content unmoved (txt "/mnt/files/c") ≡ some (9 ∷ []))
        ⊎ (content unmoved (txt "/mnt/files/c") ≡ some (1 ∷ [])))
resolved_move-err_example =
    resolved_move-err content (disk false) unresolved files (txt "a" ∷ []) (txt "c" ∷ [])
      (txt "/mnt/files/a") (txt "/mnt/files/c") (1 ∷ []) (9 ∷ []) both_held unmoved os_failed
      (disk-IsOs false) old_run new_run (ground arith)
      (not_temp-IsNoTemp false (txt "/mnt/files/c") (ground arith)) old_held new_held unmoved_run
