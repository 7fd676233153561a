-- ===== src/Objects.antt =====
-- What the two object stores share: internal/adapters/storage/s3 and internal/adapters/storage/gcs,
-- over the calls of their clients. A call answers whether it succeeds, with the bucket's new state.
pub mod Publish
pub mod Relocate
pub mod Gcs
pub mod S3
pub mod Contract
pub mod Race
use file_server_management.Prelude.{
  ℕ, ◌≡◌, Bool, true, false, List, [], ◌∷◌, ◌++◌, Option, none, some, if◌then◌else◌,
}
use file_server_management.Text.{Text, txt, text_eq}
use file_server_management.Os.{Bytes, Source}

-- What a bucket holds under each key.
abbrev pub Objects : Type 0
Objects = Text → Option Bytes

-- `if err != nil { return err }`
abbrev pub and_then : {W : Type 0} → Bool × W → (W → Bool × W) → Bool × W
and_then (true, w) next = next w
and_then (false, w) next = (false, w)

-- `finalKey + ".tmp-" + randHex(8)`; `hex` is what randHex gives.
unfoldable pub temp_key : (final hex : Text) → Text
temp_key final hex = final ++ txt ".tmp-" ++ hex

abbrev pub set_object : Objects → Text → Option Bytes → Objects
set_object m k v p = if text_eq p k then v else m p
