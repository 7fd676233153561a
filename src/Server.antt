-- ===== src/Server.antt =====
-- The handlers behind the interceptors: internal/handlers/grpc_handler.go over
-- internal/services/object_service.go, and internal/server/download_http.go.
pub mod Download
pub mod Http
pub mod Root
pub mod Folder
pub mod Listen
use file_server_management.Prelude.{
  ℕ, ◌≡◌, Bool, true, false, List, [], ◌∷◌, ◌++◌, Option, none, some, Result, ok, err, suc, map,
  length, ◌==◌, if◌then◌else◌,
}
use file_server_management.Text.{Text, txt, text_eq}
use file_server_management.Auth.{AuthContext, AclStore, Permission, perm_read}
use file_server_management.Auth.Jwt.{JwtError}
use file_server_management.Auth.Resolver.{can_access}
use file_server_management.Authz.{Request, download_object, extract_path}
use file_server_management.Gate.{Context, from_context}
use file_server_management.Storage.{ObjectInfo}
use file_server_management.Queue.{Redis, Json, QueueError, enqueue_create_folder}

abbrev pub Bytes : Type 0
Bytes = List ℕ

-- The operations of the storage that the handlers use, on its state `W`; `none` is an error.
-- Opening gives the reads that the reader will answer.
pub data Read : Type 0 where
  -- Bytes, and more may come.
  more : Bytes → Read
  -- Bytes, perhaps none, together with io.EOF.
  last : Bytes → Read
  -- Bytes, perhaps none, together with another error.
  broken : Bytes → Read

pub record ObjectStorage (W : Type 0) : Type 0 where
  pub list : Text → W → Option (List ObjectInfo)
  pub atomic_write : Text → Bytes → W → Bool × W
  pub open_reader : Text → W → Option (List Read)

-- How the loop of `DownloadObject` ends; `unfinished` means that no read of the list was the last.
pub data Ending : Type 0 where
  finished send_failed read_failed unfinished : Ending

-- What is sent, and the ending.
abbrev pub sent_first : Bytes → List Bytes × Ending → List Bytes × Ending
sent_first c (cs, e) = (c ∷ cs, e)

-- One chunk: an empty one is not sent. `delivered` tells whether Send succeeds; if it does not,
-- the loop ends, else it goes on with `rest`.
abbrev pub send_chunk : Bytes → (delivered : Bool) → List Bytes × Ending → List Bytes × Ending
send_chunk [] delivered rest = rest
send_chunk (b ∷ bs) delivered rest =
    if delivered then sent_first (b ∷ bs) rest else ([], send_failed)

-- grpc_handler.go, the loop of `DownloadObject`: each read, with whether its chunk is delivered.
unfoldable pub download_loop : List (Read × Bool) → List Bytes × Ending
download_loop [] = ([], unfinished)
download_loop ((more c, delivered) ∷ reads) = send_chunk c delivered (download_loop reads)
download_loop ((last c, delivered) ∷ reads) = send_chunk c delivered ([], finished)
download_loop ((broken c, delivered) ∷ reads) = send_chunk c delivered ([], read_failed)

pub data DownloadReply : Type 0 where
  missing_auth_context : DownloadReply
  cannot_extract_path : DownloadReply
  access_denied : DownloadReply
  open_failed : DownloadReply
  streamed : List Bytes × Ending → DownloadReply
  running : DownloadReply

abbrev pub with_delivery : (ℕ → Bool) → ℕ → List Read → List (Read × Bool)
with_delivery delivers n [] = []
with_delivery delivers n (r ∷ rs) = (r, delivers n) ∷ with_delivery delivers (suc n) rs

module _ {W : Type 0} (storage : ObjectStorage W) where
  -- object_service.go `List`, and `ListObjects` of grpc_handler.go, which copies the items
  unfoldable pub list_objects_handler : (prefix : Text) → W → Option (List ObjectInfo)
  list_objects_handler prefix w = storage.list prefix w

  -- object_service.go `Upload`, and `UploadObject` of grpc_handler.go
  unfoldable pub upload_object_handler : (path : Text) → (content : Bytes) → W → Bool × W
  upload_object_handler path content w = storage.atomic_write path content w

  abbrev pub stream_reads : (ℕ → Bool) → Option (List Read) → DownloadReply
  stream_reads delivers none = open_failed
  stream_reads delivers (some reads) = streamed (download_loop (with_delivery delivers 0 reads))

  abbrev pub opened_if : Option Bool → DownloadReply → DownloadReply
  opened_if none reply = running
  opened_if (some allowed) reply = if allowed then reply else access_denied

  -- grpc_handler.go `DownloadObject`; `delivers n` tells whether the n-th chunk is delivered.
  unfoldable pub download_object_handler :
      ℕ → AclStore → (ℕ → Bool) → Context → (path : Text) → W → DownloadReply
  download_object_handler fuel store delivers ctx path w = elim (from_context ctx) [
    | none ↦ missing_auth_context
    | some a ↦ elim (extract_path fuel (download_object path)) [
      | none ↦ running
      | some none ↦ cannot_extract_path
      | some (some p) ↦
          opened_if (can_access fuel a p perm_read store)
            (stream_reads delivers (storage.open_reader path w))
    ]
  ]

-- The response of `CreateFolder`, but for its fixed message
pub record CreateFolderResponse : Type 0 where
  pub task_id : Text
  pub status : Text

module _ {S : Type 0} (redis : Redis S) (json : Json) where
  abbrev pub queued : Result QueueError Text × S → Result QueueError CreateFolderResponse × S
  queued (ok id, s) = (ok (record { task_id = id; status = txt "queued" }), s)
  queued (err e, s) = (err e, s)

  -- grpc_handler.go `CreateFolder`; `id` is the formatted time of the call.
  unfoldable pub create_folder_handler :
      (id parent_path folder_name requested_by : Text)
      → S
      → Result QueueError CreateFolderResponse × S
  create_folder_handler id parent_path folder_name requested_by s =
      queued (enqueue_create_folder redis json id parent_path folder_name requested_by s)

-- The answers of download_http.go; `running` means that the access check has not ended within the
-- fuel.
pub data HttpReply : Type 0 where
  unauthorized : HttpReply
  missing_path : HttpReply
  forbidden : HttpReply
  not_found : HttpReply
  content : List Read → HttpReply
  running : HttpReply

abbrev pub served : Option (List Read) → HttpReply
served none = not_found
served (some reads) = content reads

abbrev pub served_if : Option Bool → HttpReply → HttpReply
served_if none reply = HttpReply.running
served_if (some allowed) reply = if allowed then reply else forbidden

-- download_http.go `handleDownload`, with the header "Authorization" and the parameter "path" of
-- the request
unfoldable pub handle_download :
    {W : Type 0}
    → (Text → Result JwtError AuthContext)
    → ℕ
    → AclStore
    → ObjectStorage W
    → (header path : Text) → W
    → HttpReply
handle_download parse fuel store storage header path w = elim (parse header) [
  | err _ ↦ unauthorized
  | ok a ↦
      if text_eq path []
      then missing_path
      else served_if (can_access fuel a path perm_read store) (served (storage.open_reader path w))
]
