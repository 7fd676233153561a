-- ===== src/Objects/S3.antt =====
-- internal/adapters/storage/s3/s3_storage.go, over the calls of the client.
pub mod Escape
pub mod Laws
pub mod Listing
use file_server_management.Prelude.{
  ℕ, ◌≡◌, Bool, true, false, ◌&&◌, List, [], ◌∷◌, ◌++◌, Option, none, some, ◌==◌, if◌then◌else◌,
}
use file_server_management.Text.{Text, txt, has_suffix, trim_prefix, trim_suffix, replace_all}
use file_server_management.Os.{Bytes, Source}
use file_server_management.Storage.{ObjectInfo, key, folder_key, list_prefix, s3_shown_path}
use file_server_management.Objects.{and_then, temp_key}

-- One page of a listing: common prefixes, and keys with sizes; `none` is a nil pointer.
pub record Page : Type 0 where
  pub common_prefixes : List (Option Text)
  pub contents : List (Option Text × Option ℕ)

-- The calls on one bucket, in the state `W`.
pub record S3Client (W : Type 0) : Type 0 where
  pub put_object : Text → Source → W → Bool × W
  -- From a copy source, which names the bucket and the key, to a key.
  pub copy_object : (copy_source dst : Text) → W → Bool × W
  pub delete_object : Text → W → Bool × W
  pub head_object : Text → W → Bool
  -- The pages of a listing with the delimiter "/", and whether no page is an error.
  pub list_pages : Text → W → List Page × Bool
  pub get_object : Text → W → Option Source

-- `urlPathEscape`
unfoldable pub url_path_escape : Text → Text
url_path_escape s = replace_all s (txt " ") (txt "%20")

-- The directory that `List` shows for a common prefix.
unfoldable pub s3_shown_dir : (prefix : Text) → Text → Text
s3_shown_dir prefix p = txt "/" ++ trim_suffix (trim_prefix p (prefix ++ txt "/")) (txt "/")

abbrev pub size_or_zero : Option ℕ → ℕ
size_or_zero none = 0
size_or_zero (some n) = n

abbrev pub is_zero : Option ℕ → Bool
is_zero none = false
is_zero (some n) = n == 0

-- The loop of `List` over the common prefixes of a page.
unfoldable pub s3_dirs : (prefix : Text) → List (Option Text) → List ObjectInfo
s3_dirs prefix [] = []
s3_dirs prefix (none ∷ ps) = s3_dirs prefix ps
s3_dirs prefix (some p ∷ ps) =
    record { path = s3_shown_dir prefix p; size = 0; is_dir = true } ∷ s3_dirs prefix ps

-- The loop of `List` over the objects of a page.
unfoldable pub s3_files : (prefix : Text) → List (Option Text × Option ℕ) → List ObjectInfo
s3_files prefix [] = []
s3_files prefix ((none, size) ∷ objs) = s3_files prefix objs
s3_files prefix ((some k, size) ∷ objs) =
    let rest = s3_files prefix objs in
    if has_suffix k (txt "/") && is_zero size
    then rest
    else record { path = s3_shown_path prefix k; size = size_or_zero size; is_dir = false } ∷ rest

-- The loop of `List` over the pages.
unfoldable pub s3_listing : (prefix : Text) → List Page → List ObjectInfo
s3_listing prefix [] = []
s3_listing prefix (page ∷ pages) =
    s3_dirs prefix page.common_prefixes ++ s3_files prefix page.contents ++ s3_listing prefix pages

module _ {W : Type 0} (s3 : S3Client W) (bucket prefix : Text) where
  -- The copy source of a key.
  abbrev pub copy_source : Text → Text
  copy_source k = url_path_escape (bucket ++ txt "/" ++ k)

  -- `CreateFolder`
  unfoldable pub s3_create_folder : Text → W → Bool × W
  s3_create_folder path w = s3.put_object (folder_key prefix path) ([], true) w

  -- `AtomicWrite`
  unfoldable pub s3_atomic_write : (hex path : Text) → Source → W → Bool × W
  s3_atomic_write hex path src w =
      let final = key prefix path in
      let tmp = temp_key final hex in
      and_then (s3.put_object tmp src w) (λ w1.
        and_then (s3.copy_object (copy_source tmp) final w1)
          (λ w2. (true, (s3.delete_object tmp w2).1)))

  -- `Move`
  unfoldable pub s3_move : (src dst : Text) → W → Bool × W
  s3_move src dst w =
      and_then (s3.copy_object (copy_source (key prefix src)) (key prefix dst) w)
        (λ w1. s3.delete_object (key prefix src) w1)

  -- `Delete`
  unfoldable pub s3_delete : Text → W → Bool × W
  s3_delete path w = s3.delete_object (key prefix path) w

  -- `Exists`, whose error is always nil
  unfoldable pub s3_exists : Text → W → Bool
  s3_exists path w = s3.head_object (key prefix path) w

  -- `List`; `none` is an error of a page.
  unfoldable pub s3_list : Text → W → Option (List ObjectInfo)
  s3_list path w =
      let (pages, complete) = s3.list_pages (list_prefix prefix path) w in
      if complete then some (s3_listing prefix pages) else none

  -- `Open`
  unfoldable pub s3_open : Text → W → Option Source
  s3_open path w = s3.get_object (key prefix path) w
