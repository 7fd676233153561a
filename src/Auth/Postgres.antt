-- ===== src/Auth/Postgres.antt =====
-- internal/auth/postgres_store.go, over the statements that it sends to the database and over
-- encoding/json.
pub mod Rows
pub mod Decisions
use file_server_management.Prelude.{◌≡◌, Bool, true, false, List, [], ◌∷◌, Option, none, some}
use file_server_management.Text.{Text}
use file_server_management.Auth.{Permission, Acl, AclStore}

-- A row of the table acl_entries; the permissions are JSON.
pub record Row : Type 0 where
  pub path : Text
  pub principal_id : Text
  pub permissions : Text

-- The statements, on the state `S` of the database. An answer is the list of its rows, of which
-- `none` is one that Scan refuses; no answer is an error of Query.
pub record Db (S : Type 0) : Type 0 where
  pub insert : Row → S → Bool × S
  pub select_path : Text → S → Option (List (Option Row))
  pub select_paths : List Text → S → Option (List (Option Row))

-- json.Marshal and json.Unmarshal on the permissions.
pub record PermissionJson : Type 0 where
  pub marshal : List (Permission × Bool) → Option Text
  pub unmarshal : Text → Option (List (Permission × Bool))

abbrev pub or_none_set : Option (List (Permission × Bool)) → List (Permission × Bool)
or_none_set none = []
or_none_set (some m) = m

module _ (json : PermissionJson) where
  -- The entry of a row: no permissions where they are not JSON.
  unfoldable pub acl_of_row : Row → Acl
  acl_of_row r = record {
    path = r.path;
    principal_id = r.principal_id;
    permissions = or_none_set (json.unmarshal r.permissions);
  }

  -- The loop over the rows, which skips those that Scan refuses.
  unfoldable pub scanned : List (Option Row) → List Acl
  scanned [] = []
  scanned (none ∷ rows) = scanned rows
  scanned (some r ∷ rows) = acl_of_row r ∷ scanned rows

  module _ {S : Type 0} (db : Db S) where
    -- `SetACL`
    unfoldable pub postgres_set_acl : Acl → S → Bool × S
    postgres_set_acl a s = elim (json.marshal a.permissions) [
      | none ↦ (false, s)
      | some b ↦
          db.insert (record { path = a.path; principal_id = a.principal_id; permissions = b }) s
    ]

    -- `GetACLs`
    unfoldable pub postgres_get_acls : S → Text → List Acl
    postgres_get_acls s path = elim (db.select_path path s) [ none ↦ [] | some rows ↦ scanned rows ]

    -- `GetACLsForPaths`
    unfoldable pub postgres_get_acls_for_paths : S → List Text → Option (List Acl)
    postgres_get_acls_for_paths s [] = some []
    postgres_get_acls_for_paths s (p ∷ ps) = elim (db.select_paths (p ∷ ps) s) [
      | none ↦ none
      | some rows ↦ some (scanned rows)
    ]

    -- `PostgresACLStore` as CanAccess sees it.
    abbrev pub postgres_store : S → AclStore
    postgres_store s = record {
      get_acls = postgres_get_acls s;
      get_acls_for_paths = some (postgres_get_acls_for_paths s);
    }
