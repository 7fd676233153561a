-- ===== src/Storage.antt =====
-- internal/storage and the parts of its three backends that are pure: which path of the disk
-- (adapters/storage/local) or which key of the bucket (adapters/storage/s3, adapters/storage/gcs)
-- a path stands for, what a listing shows of it, and which backend a configuration picks.
pub mod Keys
pub mod Dots
use file_server_management.Prelude.{
  ℕ, ◌≡◌, Bool, true, false, not, ◌&&◌, List, [], ◌∷◌, ◌++◌, Option, none, some, Result, ok, err,
  ◌==◌, if◌then◌else◌,
}
use file_server_management.Text.{
  Text, txt, text_eq, has_suffix, trim_prefix, trim_suffix, trim_slashes, trim_space, to_lower,
}
use file_server_management.FilePath.{clean, join}

-- storage.go `ObjectInfo`
pub record ObjectInfo : Type 0 where
  pub path : Text
  pub size : ℕ
  pub is_dir : Bool

-- local_storage.go `full`
unfoldable pub full : (base : Text) → Text → Text
full base p = join (base ∷ clean (txt "/" ++ p) ∷ [])

-- `key` of s3_storage.go and gcs_storage.go, which are the same
unfoldable pub key : (prefix : Text) → Text → Text
key prefix path =
    let p = trim_prefix path (txt "/") in if text_eq prefix [] then p else prefix ++ txt "/" ++ p

-- The key of a folder's placeholder, in `CreateFolder` of s3_storage.go and gcs_storage.go.
unfoldable pub folder_key : (prefix : Text) → Text → Text
folder_key prefix path = key prefix (trim_suffix path (txt "/") ++ txt "/")

-- The prefix that `List` of s3_storage.go and gcs_storage.go asks for.
unfoldable pub list_prefix : (prefix : Text) → Text → Text
list_prefix prefix path =
    let k = key prefix (trim_prefix path (txt "/")) in
    if not (text_eq k []) && not (has_suffix k (txt "/")) then k ++ txt "/" else k

-- gcs_storage.go: the path that `List` shows for a key
unfoldable pub gcs_shown_path : (prefix : Text) → Text → Text
gcs_shown_path prefix k =
    txt "/" ++ (if text_eq prefix [] then k else trim_prefix k (prefix ++ txt "/"))

-- s3_storage.go: the path that `List` shows for the key of an object
unfoldable pub s3_shown_path : (prefix : Text) → Text → Text
s3_shown_path prefix k = txt "/" ++ trim_prefix k (prefix ++ txt "/")

-- The loop of `List` in gcs_storage.go over the objects of the answer, names and sizes.
unfoldable pub gcs_listing : (prefix : Text) → List (Text × ℕ) → List ObjectInfo
gcs_listing prefix [] = []
gcs_listing prefix ((k, size) ∷ objs) =
    let rest = gcs_listing prefix objs in
    if has_suffix k (txt "/") && (size == 0)
    then rest
    else record { path = gcs_shown_path prefix k; size = size; is_dir = false } ∷ rest

-- factory.go `FactoryConfig`, but for what is only passed on to the clients
pub record FactoryConfig : Type 0 where
  pub backend : Text
  pub local_base : Text
  pub s3_bucket : Text
  pub s3_prefix : Text
  pub gcs_bucket : Text
  pub gcs_prefix : Text

-- The backends, with the fields that the paths depend on.
pub data Backend : Type 0 where
  local_storage : (base : Text) → Backend
  s3_storage : (bucket prefix : Text) → Backend
  gcs_storage : (bucket prefix : Text) → Backend

pub data FactoryError : Type 0 where
  bucket_required : FactoryError
  client_failed : FactoryError
  unknown_backend : Text → FactoryError

-- `New` of s3_storage.go; `connected` tells whether the SDK's configuration loads.
unfoldable pub new_s3 : (connected : Bool) → (bucket prefix : Text) → Result FactoryError Backend
new_s3 connected bucket prefix =
    if text_eq bucket []
    then err bucket_required
    else (if connected then ok (s3_storage bucket (trim_slashes prefix)) else err client_failed)

-- `New` of gcs_storage.go; `connected` tells whether the client is created.
unfoldable pub new_gcs : (connected : Bool) → (bucket prefix : Text) → Result FactoryError Backend
new_gcs connected bucket prefix =
    if text_eq bucket []
    then err bucket_required
    else (if connected then ok (gcs_storage bucket (trim_slashes prefix)) else err client_failed)

abbrev pub or_local : Text → Text
or_local b = if text_eq b [] then txt "local" else b

-- factory.go `NewFromConfig`
unfoldable pub new_from_config : (connected : Bool) → FactoryConfig → Result FactoryError Backend
new_from_config connected cfg =
    let b = or_local (to_lower (trim_space cfg.backend)) in
    if text_eq b (txt "local")
    then ok (local_storage cfg.local_base)
    else (if text_eq b (txt "s3")
        then new_s3 connected cfg.s3_bucket cfg.s3_prefix
        else (if text_eq b (txt "gcs")
            then new_gcs connected cfg.gcs_bucket cfg.gcs_prefix
            else err (unknown_backend cfg.backend)))
