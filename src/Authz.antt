-- ===== src/Authz.antt =====
-- internal/authz: which permission an RPC needs (method_map.go), which path it is about
-- (path_extract.go), and the check in front of the handlers (grpc_authz_interceptor.go).
pub mod Normalize
use file_server_management.Prelude.{
  ℕ, zero, suc, ◌≡◌, Bool, true, false, List, [], ◌∷◌, ◌++◌, Option, none, some, Result, ok, err,
  if◌then◌else◌,
}
use mathlib.Core.Option
use file_server_management.Text.{
  Text, txt, text_eq, has_prefix, trim_space, trim_suffix, contains, replace_all,
}
use file_server_management.Auth.{Permission, perm_read, perm_write, perm_list}

-- method_map.go `MethodPermission`, in the order of the source
abbrev pub method_table : List (Text × Permission)
method_table =
    (txt "/fileengine.FileEngine/CreateFolder", perm_write)
    ∷ (txt "/fileengine.FileEngine/ListObjects", perm_list)
    ∷ (txt "/fileengine.FileEngine/UploadObject", perm_write)
    ∷ (txt "/fileengine.FileEngine/DownloadObject", perm_read)
    ∷ (txt "/fileengine.FileEngine/InitiateUpload", perm_write)
    ∷ (txt "/fileengine.FileEngine/CompleteUpload", perm_write)
    ∷ (txt "/fileengine.FileEngine/GetTaskStatus", perm_read)
    ∷ (txt "/fileengine.FileEngine/GetTask", perm_read)
    ∷ []

-- A lookup in a Go map with its `ok`.
unfoldable pub find : List (Text × Permission) → Text → Option Permission
unfolding text_eq
find [] k = none
find ((j, v) ∷ m) k = if text_eq j k then some v else find m k

unfoldable pub method_permission : Text → Option Permission
method_permission name = find method_table name

-- The requests that `ExtractPath` tells apart, with the fields that the code reads; `other` is a
-- request of any other type.
pub data Request : Type 0 where
  list_objects : (prefix : Text) → Request
  upload_object : (path : Text) (content : List ℕ) → Request
  download_object : (path : Text) → Request
  initiate_upload : (target_path : Text) → Request
  complete_upload : Request
  task_status : Request
  get_task : (task_id : Text) → Request
  create_folder : (parent_path folder_name requested_by : Text) → Request
  other : Request

-- The loop of `normalize`; `none` means that it is still running after `fuel` rounds.
unfoldable pub collapse : ℕ → Text → Option Text
collapse zero p = none
collapse (suc fuel) p =
    let rest = collapse fuel (replace_all p (txt "//") (txt "/")) in
    if contains p (txt "//") then rest else some p

abbrev pub add_slash : Text → Text
add_slash p = if has_prefix p (txt "/") then p else txt "/" ++ p

-- path_extract.go `normalize`
unfoldable pub normalize : ℕ → Text → Option Text
normalize fuel p =
    let trimmed = trim_space p in
    if text_eq trimmed [] then some (txt "/") else collapse fuel (add_slash trimmed)

-- path_extract.go `ExtractPath`: an inner `none` is its error, an outer one a `normalize` that is
-- still running after `fuel` rounds.
unfoldable pub extract_path : ℕ → Request → Option (Option Text)
extract_path fuel (list_objects prefix) = Option.map some (normalize fuel prefix)
extract_path fuel (upload_object path content) = Option.map some (normalize fuel path)
extract_path fuel (download_object path) = Option.map some (normalize fuel path)
extract_path fuel (initiate_upload target_path) = Option.map some (normalize fuel target_path)
extract_path fuel complete_upload = some (some (txt "/"))
extract_path fuel task_status = some (some (txt "/"))
extract_path fuel (get_task task_id) = some (some (txt "/"))
extract_path fuel (create_folder parent_path folder_name requested_by) =
    Option.map some (normalize fuel (trim_suffix parent_path (txt "/") ++ txt "/" ++ folder_name))
extract_path fuel other = some none
