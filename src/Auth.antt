-- ===== src/Auth.antt =====
-- internal/auth: who asks (resolver.go `AuthContext`), what is granted (acl.go, permissions.go,
-- roles.go), where grants are kept (store.go, inmemory_store.go), and context.go.
pub mod Resolver
pub mod Ancestors
pub mod Grants
pub mod Inherit
pub mod Documented
pub mod Postgres
pub mod Jwt
use file_server_management.Prelude.{
  ◌≡◌, refl, Bool, true, false, List, [], ◌∷◌, ◌++◌, Option, none, some, Result, ok, if◌then◌else◌,
}
use file_server_management.Text.{Text, txt, text_eq}

-- permissions.go `Permission`, a string type, and its four constants
abbrev pub Permission : Type 0
Permission = Text

abbrev pub perm_read : Permission
perm_read = txt "read"

abbrev pub perm_write : Permission
perm_write = txt "write"

abbrev pub perm_delete : Permission
perm_delete = txt "delete"

abbrev pub perm_list : Permission
perm_list = txt "list"

-- A Go map with string keys as its entries; a missing key reads as the zero value.
unfoldable pub find_flag : List (Text × Bool) → Text → Bool
unfolding text_eq
find_flag [] k = false
find_flag ((j, v) ∷ m) k = if text_eq j k then v else find_flag m k

-- acl.go `ACL`
pub record Acl : Type 0 where
  pub path : Text
  pub principal_id : Text
  pub permissions : List (Permission × Bool)

-- resolver.go `AuthContext`
pub record AuthContext : Type 0 where
  pub user_id : Text
  pub roles : List Text

-- roles.go `Roles`
unfoldable pub role_permissions : Text → List (Permission × Bool)
unfolding text_eq
role_permissions r =
    if text_eq r (txt "admin")
    then (perm_read, true) ∷ (perm_write, true) ∷ (perm_delete, true) ∷ (perm_list, true) ∷ []
    else (if text_eq r (txt "editor")
        then (perm_read, true) ∷ (perm_write, true) ∷ (perm_list, true) ∷ []
        else (if text_eq r (txt "viewer") then (perm_read, true) ∷ (perm_list, true) ∷ [] else []))

-- inmemory_store.go `InMemoryACLStore`: a map from paths to entries, of which a missing key reads
-- as no entry.
abbrev pub AclMap : Type 0
AclMap = Text → List Acl

-- inmemory_store.go `NewInMemoryACLStore`
unfoldable pub new_in_memory_acl_store : AclMap
new_in_memory_acl_store p = []

-- inmemory_store.go `SetACL`, which never fails; also one round of the loop that fills `byPath`
-- in resolver.go
unfoldable pub set_acl : AclMap → Acl → AclMap
unfolding text_eq
set_acl m a p = if text_eq a.path p then m a.path ++ a ∷ [] else m p

-- inmemory_store.go `GetACLs`
unfoldable pub get_acls : AclMap → Text → List Acl
get_acls m p = m p

-- store.go `ACLStore` and resolver.go `ACLBatchStore`, as one call of CanAccess reads them. A store
-- that is no `ACLBatchStore` has no `get_acls_for_paths`; `none` as its answer is an error.
pub record AclStore : Type 0 where
  pub get_acls : Text → List Acl
  pub get_acls_for_paths : Option (List Text → Option (List Acl))

-- The in-memory store as CanAccess sees it.
abbrev pub in_memory : AclMap → AclStore
in_memory m = record { get_acls = get_acls m; get_acls_for_paths = none }
