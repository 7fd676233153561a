-- ===== src/Auth/Resolver.antt =====
-- internal/auth/resolver.go: the paths whose entries count for a path, and the decision. The
-- children prove when the walk to the root ends, what is granted, and how grants are inherited.
use mathlib.Core.Option
use file_server_management.Prelude.{
  ℕ, zero, suc, Bool, ◌&&◌, ◌||◌, List, [], ◌∷◌, ◌++◌, Option, none, some, foldl, if◌then◌else◌,
  any,
}
use file_server_management.Text.{Text, txt, text_eq}
use file_server_management.FilePath.{dir}
use file_server_management.Auth.{
  Permission, Acl, AuthContext, AclMap, AclStore, find_flag, role_permissions, set_acl,
  new_in_memory_acl_store,
}

-- `parentPaths`; `none` means that the loop is still running after `fuel` rounds.
unfoldable pub parent_paths : ℕ → Text → Option (List Text)
parent_paths zero path = none
parent_paths (suc fuel) path =
    let rest = Option.map (λ ps. path ∷ ps) (parent_paths fuel (dir path)) in
    if text_eq path (txt "/") then some (path ∷ []) else rest

-- The tests on one entry: the user, then each role.
unfoldable pub acl_grants : AuthContext → Permission → Acl → Bool
acl_grants ctx perm acl =
    (text_eq acl.principal_id (txt "user:" ++ ctx.user_id) && find_flag acl.permissions perm)
    || any (λ r. text_eq acl.principal_id (txt "role:" ++ r) && find_flag acl.permissions perm)
        ctx.roles

-- The loops over the paths and their entries.
unfoldable pub granted_by_acl : AuthContext → List Text → Permission → (Text → List Acl) → Bool
granted_by_acl ctx paths perm acls_of = any (λ p. any (acl_grants ctx perm) (acls_of p)) paths

-- The loop over the roles at the end.
unfoldable pub granted_by_role : AuthContext → Permission → Bool
granted_by_role ctx perm = any (λ r. find_flag (role_permissions r) perm) ctx.roles

-- The map `byPath`.
unfoldable pub by_path : List Acl → AclMap
by_path acls = foldl set_acl new_in_memory_acl_store acls

-- The entries that the loops read: those of the batch, if there is one and it does not fail.
unfoldable pub entries_of : AclStore → List Text → (Text → List Acl)
entries_of store paths = elim store.get_acls_for_paths [
  | none ↦ store.get_acls
  | some batch ↦ elim (batch paths) [ none ↦ store.get_acls | some acls ↦ by_path acls ]
]

-- The decision for the paths that count.
unfoldable pub can_access_paths : AuthContext → List Text → Permission → AclStore → Bool
can_access_paths ctx paths perm store =
    granted_by_acl ctx paths perm (entries_of store paths) || granted_by_role ctx perm

-- `CanAccess`; `none` means that `parentPaths` is still running after `fuel` rounds.
unfoldable pub can_access : ℕ → AuthContext → Text → Permission → AclStore → Option Bool
can_access fuel ctx path perm store =
    Option.map (λ paths. can_access_paths ctx paths perm store) (parent_paths fuel path)
