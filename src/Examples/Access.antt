-- ===== src/Examples/Access.antt =====
-- Access decisions at concrete paths and entries.
use file_server_management.Prelude.{
  ◌≡◌, ◌↔◌, ◌⊎◌, refl, true, false, [], ◌∷◌, All, none, some, arith, any, Bool, Memᴰ,
}
use file_server_management.Text.{Text, txt, contains, replace_all, text_eq, trim_space}
use file_server_management.FilePath.{is_abs, render, dir, clean}
use file_server_management.FilePath.Walk.{IsPlain}
use file_server_management.Auth.{
  Acl, perm_read, perm_write, set_acl, new_in_memory_acl_store, in_memory, find_flag, get_acls,
  role_permissions,
}
use file_server_management.Auth.Resolver.{
  parent_paths, can_access, granted_by_role, can_access_paths, granted_by_acl, acl_grants,
  entries_of,
}
use file_server_management.Auth.Ancestors.{visited, parent_paths-eq-visited, parent_paths_relative}
use file_server_management.Auth.Grants.{IsGrant, ByAcl, ByRole, can_access_iff}
use file_server_management.Auth.Documented.{
  Agrees, documented, entries_on, first, can_access-Agrees,
}
use file_server_management.Auth.Inherit.{
  can_access-inherited, can_access-set_acl_iff, in_memory-IsConsistent,
}
use file_server_management.Authz.{normalize, collapse}
use file_server_management.Authz.Normalize.{normal_form, normalize-eq-normal_form}
use file_server_management.Examples.{alice, entries, projects}

runs : Unit {0}
unfolding can_access parent_paths dir clean can_access_paths granted_by_acl acl_grants entries_of
    granted_by_role find_flag set_acl new_in_memory_acl_store normalize trim_space any get_acls
    role_permissions collapse contains replace_all text_eq
runs = tt

abbrev docs : Text
docs = txt "/projects/docs"

docs-IsAbs : is_abs docs ≡ true
docs-IsAbs = unfold is_abs in refl

inherited_run : can_access 20 alice docs perm_write (in_memory entries) ≡ some true
unfolding runs
inherited_run = refl

denied_run : can_access 20 alice (txt "/other") perm_write (in_memory entries) ≡ some false
unfolding runs
denied_run = refl

role_run : can_access 20 alice (txt "/other") perm_read (in_memory entries) ≡ some true
unfolding runs
role_run = refl

parent_paths-eq-visited_example : parent_paths 20 docs ≡ some (visited docs)
parent_paths-eq-visited_example = parent_paths-eq-visited 20 docs docs-IsAbs (omega arith)

parent_paths_relative_example : parent_paths 100 (txt "docs/a") ≡ none
parent_paths_relative_example = parent_paths_relative 100 (txt "docs/a") (unfold is_abs in refl)

can_access_iff_example :
    (can_access 20 alice docs perm_write (in_memory entries) ≡ some true)
    ↔ (ByAcl alice perm_write (visited docs) (in_memory entries).get_acls ⊎ ByRole alice perm_write)
can_access_iff_example =
    can_access_iff 20 alice docs perm_write (in_memory entries) docs-IsAbs (omega arith)
      (in_memory-IsConsistent entries)

projects_run : can_access 40 alice (render true projects) perm_write (in_memory entries) ≡ some true
unfolding runs render
projects_run = refl

projects-IsPlain : All IsPlain (txt "projects" ∷ txt "docs" ∷ [])
projects-IsPlain = ground arith

can_access-inherited_example :
    can_access 40 alice
      (render true (txt "projects" ∷ txt "docs" ∷ []))
      perm_write
      (in_memory entries)
    ≡ some true
can_access-inherited_example =
    can_access-inherited 40 40 alice projects (txt "docs" ∷ []) perm_write (in_memory entries)
      projects-IsPlain (unfold render in omega arith) (unfold render in omega arith)
      (in_memory-IsConsistent entries) projects_run

abbrev refusal : Acl
refusal = record {
  path = docs;
  principal_id = txt "user:alice";
  permissions = (perm_write, false) ∷ [];
}

can_access-set_acl_iff_example :
    (can_access 20 alice docs perm_write (in_memory (set_acl entries refusal)) ≡ some true) ↔ (
      (can_access 20 alice docs perm_write (in_memory entries) ≡ some true)
      ⊎ (Memᴰ refusal.path (visited docs) × IsGrant alice perm_write refusal))
can_access-set_acl_iff_example =
    can_access-set_acl_iff 20 alice docs perm_write entries refusal docs-IsAbs (omega arith)

-- The closer entry refuses, and the code grants.
refused_run : can_access 20 alice docs perm_write (in_memory (set_acl entries refusal)) ≡ some true
unfolding runs
refused_run = refl

documented_run :
    documented alice perm_write
      (entries_on (visited docs) (in_memory (set_acl entries refusal)).get_acls)
    ≡ false
unfolding runs documented entries_on first
documented_run = refl

can_access-Agrees_example :
    (granted : Bool) × (can_access 20 alice docs perm_write (in_memory (set_acl entries refusal))
      ≡ some granted)
    × Agrees alice perm_write
        (entries_on (visited docs) (in_memory (set_acl entries refusal)).get_acls)
        granted
can_access-Agrees_example =
    can_access-Agrees 20 alice docs perm_write (in_memory (set_acl entries refusal)) docs-IsAbs
      (omega arith) (in_memory-IsConsistent (set_acl entries refusal))

normalize-eq-normal_form_example : normalize 20 (txt " a//b ") ≡ some (normal_form (txt " a//b "))
normalize-eq-normal_form_example = normalize-eq-normal_form 20 (txt " a//b ") (omega arith)

normalize_run : normalize 20 (txt " a///b/ ") ≡ some (txt "/a/b/")
unfolding runs
normalize_run = refl
