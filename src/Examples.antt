-- ===== src/Examples.antt =====
-- Inputs on which the theorems of the other modules are applied, and runs of the code.
mod Access
mod Files
mod Buckets
mod Calls
mod Database
mod Disk
mod Remote
mod Start
mod Process
mod Board
mod Scripts
mod Tasks
mod Web
use file_server_management.Prelude.{
  ℕ, true, false, [], ◌∷◌, List, Option, none, some, Result, ok, err, Bool,
}
use file_server_management.Text.{Text, txt, text_eq}
use file_server_management.LocalFs.{LocalFs}
use file_server_management.Auth.{
  Acl, AuthContext, AclMap, AclStore, perm_read, perm_write, set_acl, new_in_memory_acl_store,
  in_memory,
}
use file_server_management.Auth.Jwt.{JwtError, missing_token}

-- A user who may write below /projects.
abbrev alice : AuthContext
alice = record { user_id = txt "alice"; roles = txt "viewer" ∷ txt "staff" ∷ [] }

abbrev project_entry : Acl
project_entry = record {
  path = txt "/projects";
  principal_id = txt "role:staff";
  permissions = (perm_write, true) ∷ [];
}

abbrev entries : AclMap
entries = set_acl new_in_memory_acl_store project_entry

abbrev projects : List Text
projects = txt "projects" ∷ []

abbrev base : List Text
base = txt "mnt" ∷ txt "files" ∷ []

abbrev files : LocalFs
files = record { base_root = txt "/mnt/files" }

-- A verifier that knows one header.
abbrev parse : Text → Result JwtError AuthContext
parse header = elim (text_eq header (txt "Bearer t1")) [
  | true ↦ ok alice
  | false ↦ err missing_token
]
