-- ===== src/Objects/Gcs.antt =====
-- internal/adapters/storage/gcs/gcs_storage.go, over the calls of the client.
pub mod Laws
use file_server_management.Prelude.{
  ℕ, ◌≡◌, Bool, true, false, ◌&&◌, List, [], ◌∷◌, ◌++◌, Option, none, some, if◌then◌else◌,
}
use file_server_management.Text.{Text, txt}
use file_server_management.Os.{Bytes, Source}
use file_server_management.Storage.{ObjectInfo, key, folder_key, list_prefix, gcs_listing}
use file_server_management.Objects.{and_then, temp_key}

-- The calls on one bucket, in the state `W`. An object is written by a writer, which takes bytes
-- and makes them the object's content when it is closed.
pub record GcsClient (W : Type 0) : Type 0 where
  pub write : Text → Bytes → W → Bool × W
  -- Closing the writer of a key, with what it has taken.
  pub close : Text → Bytes → W → Bool × W
  pub copy : (src dst : Text) → W → Bool × W
  pub delete : Text → W → Bool × W
  pub attrs : Text → W → Bool
  -- The names and sizes of the objects under a prefix, and whether the iterator ends with Done.
  pub objects : Text → W → List (Text × ℕ) × Bool
  pub new_reader : Text → W → Option Source

module _ {W : Type 0} (gcs : GcsClient W) (prefix : Text) where
  -- `CreateFolder`
  unfoldable pub gcs_create_folder : Text → W → Bool × W
  gcs_create_folder path w = gcs.close (folder_key prefix path) [] w

  abbrev pub close_after : Text → Bytes → Bool × W → Bool × W
  close_after k b (true, w) = gcs.close k b w
  close_after k b (false, w) = (false, (gcs.close k b w).1)

  -- The upload to the temporary key: the writer is closed also behind an error of io.Copy.
  unfoldable pub gcs_upload : Text → Source → W → Bool × W
  gcs_upload k src w = let r = gcs.write k src.0 w in close_after k src.0 (r.0 && src.1, r.1)

  -- `AtomicWrite`
  unfoldable pub gcs_atomic_write : (hex path : Text) → Source → W → Bool × W
  gcs_atomic_write hex path src w =
      let final = key prefix path in
      let tmp = temp_key final hex in
      and_then (gcs_upload tmp src w)
        (λ w1. and_then (gcs.copy tmp final w1) (λ w2. (true, (gcs.delete tmp w2).1)))

  -- `Move`
  unfoldable pub gcs_move : (src dst : Text) → W → Bool × W
  gcs_move src dst w =
      and_then (gcs.copy (key prefix src) (key prefix dst) w) (λ w1. gcs.delete (key prefix src) w1)

  -- `Delete`
  unfoldable pub gcs_delete : Text → W → Bool × W
  gcs_delete path w = gcs.delete (key prefix path) w

  -- `Exists`, whose error is always nil
  unfoldable pub gcs_exists : Text → W → Bool
  gcs_exists path w = gcs.attrs (key prefix path) w

  -- `List`; `none` is an error of the iterator.
  unfoldable pub gcs_list : Text → W → Option (List ObjectInfo)
  gcs_list path w =
      let (objs, done) = gcs.objects (list_prefix prefix path) w in
      if done then some (gcs_listing prefix objs) else none

  -- `Open`
  unfoldable pub gcs_open : Text → W → Option Source
  gcs_open path w = gcs.new_reader (key prefix path) w
