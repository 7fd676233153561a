-- ===== src/Examples/Files.antt =====
-- Paths below a base directory and keys of a bucket, at concrete requests.
use file_server_management.Prelude.{
  ◌≡◌, refl, true, [], ◌∷◌, ◌++◌, All, Option, none, some, ok, err, arith, if◌then◌else◌, inr, Memᴰ,
}
use file_server_management.Text.{Text, txt, text_eq, has_prefix, trim_prefix, has_suffix}
use file_server_management.FilePath.{render, is_abs, clean, join, rel, dotdot, split_slash, walk}
use file_server_management.FilePath.Walk.{IsPlain}
use file_server_management.LocalFs.{
  outside_base, new_local_fs, relative_request, check_inside, resolve_links, sanitize_and_join,
  sanitize_and_resolve,
}
use file_server_management.LocalFs.Sanitize.{HasBase, IsWithin, sanitize_and_join-IsWithin}
use file_server_management.LocalFs.Accepted.{sanitize_and_join_plain}
use file_server_management.LocalFs.Links.{EvalIsClean, sanitize_and_resolve-IsWithin}
use file_server_management.Storage.{full}
use file_server_management.Storage.Dots.{climbing, can_access-climbing}
use file_server_management.Auth.{perm_write, in_memory, set_acl, new_in_memory_acl_store, find_flag}
use file_server_management.Auth.Resolver.{can_access}
use file_server_management.Examples.{base, files, alice, project_entry}

runs : Unit {0}
unfolding sanitize_and_join sanitize_and_resolve relative_request check_inside resolve_links clean
    join rel is_abs text_eq has_prefix trim_prefix has_suffix render split_slash walk new_local_fs
runs = tt

base-IsPlain : All IsPlain base
base-IsPlain = ground arith

files-HasBase : HasBase files base
files-HasBase = record { plain = base-IsPlain; text = unfold render in refl }

-- A request that climbs is brought back below the base.
climb_run : sanitize_and_join files (txt "../../etc" ∷ txt "passwd" ∷ []) ≡ err outside_base
unfolding runs
climb_run = refl

rooted_run :
    sanitize_and_join files (txt "/../etc" ∷ txt "passwd" ∷ []) ≡ ok (txt "/mnt/files/etc/passwd")
unfolding runs
rooted_run = refl

sanitize_and_join-IsWithin_example : IsWithin base (txt "/mnt/files/etc/passwd")
sanitize_and_join-IsWithin_example =
    sanitize_and_join-IsWithin files base (txt "/../etc" ∷ txt "passwd" ∷ [])
      (txt "/mnt/files/etc/passwd") files-HasBase rooted_run

-- The answers of a disk with one link, to another directory.
abbrev links : Text → Option Text
links p = if text_eq p (txt "/mnt/files/link") then some (txt "/mnt/files/real") else none

links-EvalIsClean : EvalIsClean links
links-EvalIsClean = record {
  abs = λ p q _ e. rw (← resolved p q e) (unfold is_abs has_prefix in refl);
  cleaned = λ p q e. rw (← resolved p q e) real_run;
}
  where
    resolved : (p q : Text) → links p ≡ some q → txt "/mnt/files/real" ≡ q
    resolved p q e = ground arith

    real_run : clean (txt "/mnt/files/real") ≡ txt "/mnt/files/real"
    real_run = unfold clean is_abs has_prefix split_slash walk render in refl

link_run : sanitize_and_resolve links files (txt "link" ∷ []) ≡ ok (txt "/mnt/files/real")
unfolding runs
link_run = refl

sanitize_and_resolve-IsWithin_example : IsWithin base (txt "/mnt/files/real")
sanitize_and_resolve-IsWithin_example =
    sanitize_and_resolve-IsWithin links files base (txt "link" ∷ []) (txt "/mnt/files/real")
      links-EvalIsClean files-HasBase link_run

new_file_run :
    links (join (files.base_root ∷ relative_request (txt "link" ∷ txt "new" ∷ []) ∷ [])) ≡ none
unfolding runs
new_file_run = refl

cache-IsPlain : All IsPlain (txt "..cache" ∷ txt "a" ∷ [])
cache-IsPlain = ground arith

sanitize_and_join_plain_example : sanitize_and_join files (txt "..cache" ∷ txt "a" ∷ []) ≡ (
    if has_prefix (txt "..cache") dotdot
    then err outside_base
    else ok (render true (base ++ txt "..cache" ∷ txt "a" ∷ [])))
sanitize_and_join_plain_example =
    sanitize_and_join_plain files base (txt "..cache") (txt "a" ∷ []) files-HasBase cache-IsPlain

abbrev absolute : Text → Option Text
absolute p = some (txt "/" ++ p)

new_files_run : new_local_fs absolute (txt "mnt/./files/") ≡ ok files
unfolding runs
new_files_run = refl

projects-IsPlain : All IsPlain ([] ++ txt "projects" ∷ [])
projects-IsPlain = ground arith

can_access-climbing_example :
    (can_access 40 alice
        (climbing [] (txt "projects"))
        perm_write
        (in_memory (set_acl new_in_memory_acl_store project_entry))
      ≡ some true)
    × (full (render true base) (climbing [] (txt "projects")) ≡ render true (base ++ []))
can_access-climbing_example =
    can_access-climbing 40 alice base [] (txt "projects") perm_write new_in_memory_acl_store
      project_entry base-IsPlain projects-IsPlain (unfold render in omega arith)
      (unfold render in refl)
      (record {
        permits = unfold find_flag text_eq in refl;
        principal = inr (txt "staff", Memᴰ.tail (Memᴰ.head refl), refl);
      })
