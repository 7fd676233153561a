-- ===== src/Objects/Contract.antt =====
-- What internal/storage/storage.go promises of an object store, as operations on a map from keys to
-- contents, and what it means that a backend implements it.
pub mod Sequence
use file_server_management.Prelude.{
  ◌≡◌, ◌≢◌, refl, Bool, true, false, List, [], ◌∷◌, ◌++◌, Option, none, some, if◌then◌else◌,
}
use file_server_management.Text.{Text, text_eq}
use file_server_management.Os.{Source}
use file_server_management.Storage.{key, folder_key}
use file_server_management.Objects.{Objects, temp_key, set_object}

-- The operations of `Storage` that change objects.
pub data ObjectOp : Type 0 where
  create_folder : (path : Text) → ObjectOp
  atomic_write : (path : Text) (source : Source) → ObjectOp
  move : (src dst : Text) → ObjectOp
  delete : (path : Text) → ObjectOp

-- What an operation that succeeds does; a move to the key where the object is leaves it there.
unfoldable pub apply : (prefix : Text) → ObjectOp → Objects → Objects
apply prefix (create_folder path) m = set_object m (folder_key prefix path) (some [])
apply prefix (atomic_write path source) m = set_object m (key prefix path) (some source.0)
apply prefix (move src dst) m =
    if text_eq (key prefix src) (key prefix dst)
    then m
    else set_object (set_object m (key prefix dst) (m (key prefix src))) (key prefix src) none
apply prefix (delete path) m = set_object m (key prefix path) none

-- The key is not one of a temporary object.
abbrev pub IsVisible : Text → Type 0
IsVisible p = (final hex : Text) → p ≢ temp_key final hex

-- The operation is no move to the key where the object is already.
abbrev pub MovesAway : (prefix : Text) → ObjectOp → Type 0
MovesAway prefix (move src dst) = text_eq (key prefix src) (key prefix dst) ≡ false
MovesAway prefix _ = Unit {0}

-- A backend: the operations, with what randHex gives, on the state of its bucket.
abbrev pub ObjectBackend : Type 0 → Type 0
ObjectBackend W = (hex : Text) → ObjectOp → W → Bool × W

-- Where the operation is allowed and succeeds, the visible objects become those that the contract
-- says.
pub record Implements {W : Type 0} (backend : ObjectBackend W) (content : W → Objects)
    (prefix : Text) (Allowed : Text → ObjectOp → Type 0) : Type 0 where
  pub simulates :
      (hex : Text) (op : ObjectOp) (w : W) (p : Text)
      → Allowed hex op
      → IsVisible p
      → (backend hex op w).0 ≡ true
      → content (backend hex op w).1 p ≡ apply prefix op (content w) p
