-- ===== src/Process.antt =====
-- The process of cmd/file-engine/main.go: the servers that the environment configures, and the
-- unary calls that its gRPC server answers one after the other.
pub mod Permitted
pub mod Granted
pub mod Started
pub mod Answered
pub mod Streamed
pub mod Work
use file_server_management.Prelude.{
  ◌≡◌, ℕ, Bool, true, List, [], ◌∷◌, Option, none, some, Result, ok, err, ◌>>=◌,
}
use file_server_management.Text.{Text, txt}
use file_server_management.Auth.Jwt.{X509, JwtLibrary}
use file_server_management.Auth.Postgres.{Db, PermissionJson}
use file_server_management.Authz.{
  Request, list_objects, upload_object, download_object, initiate_upload, complete_upload,
  task_status, get_task, create_folder, other,
}
use file_server_management.Gate.{Rejection, Context, Reply, rejected, replied, running}
use file_server_management.Gate.Stream.{
  AuthzServerStream, Received, message, refused, stream_error, stuck, recv_msg,
}
use file_server_management.Storage.{ObjectInfo, Backend}
use file_server_management.Queue.{Redis, Json, QueueError}
use file_server_management.Server.{
  ObjectStorage, DownloadReply, download_object_handler, CreateFolderResponse,
  create_folder_handler, list_objects_handler, upload_object_handler,
}
use file_server_management.Server.Root.{RootReply}
use file_server_management.Server.Listen.{
  StoreChoice, Network, ServeError, FileEngineServer, GrpcService, store_at, grpc_start, http_start,
}
use file_server_management.Config.{StartError, Servers, load_from_env, servers}

-- With which message the process ends.
pub data MainError : Type 0 where
  not_built : StartError → MainError
  not_served : ServeError → MainError

abbrev pub or_exit : {E A : Type 0} → (E → MainError) → Result E A → Result MainError A
or_exit f (ok a) = ok a
or_exit f (err e) = err (f e)

-- cmd/file-engine/main.go `main`, up to the wait for a signal: what the two servers serve. The two
-- are started side by side and an error of either ends the process; where both fail, the model
-- names the error of the HTTP server. `handler` makes the handler of the storage and of the store.
unfoldable pub file_engine_main :
    {K S W A B G : Type 0}
    → X509 K
    → JwtLibrary K
    → PermissionJson
    → (db : Text → Db S) → ℕ
    → Network
    → (connected : Bool) → (pool : Text → Bool) → (Backend → ObjectStorage W)
    → (gateway : Text → Context → G) → (handler : Backend → StoreChoice → FileEngineServer A B)
    → (env : Text → Text)
    → Result MainError
        (GrpcService S A B × (S → Context → (path header query : Text) → W → RootReply G))
file_engine_main x lib json db fuel net connected pool storage gateway handler env = do
  s ← or_exit not_built (servers x connected pool (load_from_env env))
  http ← or_exit not_served (http_start lib json db fuel net s.http storage gateway)
  grpc ←
      or_exit not_served
        (grpc_start lib json db fuel net s.grpc (handler s.http.storage s.grpc.acl_store))
  ok (grpc, http)

-- The method of the service that takes a request of each type; none takes `other`.
unfoldable pub method_of : Request → Text
method_of (create_folder parent_path folder_name requested_by) =
    txt "/fileengine.FileEngine/CreateFolder"
method_of (list_objects prefix) = txt "/fileengine.FileEngine/ListObjects"
method_of (upload_object path content) = txt "/fileengine.FileEngine/UploadObject"
method_of (download_object path) = txt "/fileengine.FileEngine/DownloadObject"
method_of (initiate_upload target_path) = txt "/fileengine.FileEngine/InitiateUpload"
method_of complete_upload = txt "/fileengine.FileEngine/CompleteUpload"
method_of task_status = txt "/fileengine.FileEngine/GetTaskStatus"
method_of (get_task task_id) = txt "/fileengine.FileEngine/GetTask"
method_of other = []

-- The answers of the unary methods; `unimplemented` is that of UnimplementedFileEngineServer.
pub data RpcReply : Type 0 where
  listed : Option (List ObjectInfo) → RpcReply
  uploaded : Bool → RpcReply
  folder_queued : Result QueueError CreateFolderResponse → RpcReply
  unimplemented : RpcReply

module _ {Q W : Type 0} (redis : Redis Q) (encoding : Json) (storage : ObjectStorage W) where
  abbrev with_queue : Result QueueError CreateFolderResponse × Q → W → RpcReply × (Q × W)
  with_queue (r, q) w = (folder_queued r, (q, w))

  abbrev with_storage : Q → Bool × W → RpcReply × (Q × W)
  with_storage q (done, w) = (uploaded done, (q, w))

  -- `GRPCHandler`: its unary methods on the queue and the storage that it holds; `id` is the
  -- formatted time of the call. DownloadObject is not unary.
  unfoldable pub handle_call : Request → (id : Text) → Q × W → RpcReply × (Q × W)
  handle_call (create_folder parent_path folder_name requested_by) id (q, w) =
      with_queue (create_folder_handler redis encoding id parent_path folder_name requested_by q) w
  handle_call (upload_object path content) id (q, w) =
      with_storage q (upload_object_handler storage path content w)
  handle_call (list_objects prefix) id (q, w) =
      (listed (list_objects_handler storage prefix w), (q, w))
  handle_call _ id qw = (unimplemented, qw)

  -- `NewGRPCHandler`; `stream` is what the generated code makes of DownloadObject.
  unfoldable pub new_grpc_handler :
      {B : Type 0}
      → (stream : Context → Option AuthzServerStream → B)
      → FileEngineServer (Text → Q × W → RpcReply × (Q × W)) B
  new_grpc_handler stream = record {
    unary = λ ctx req id qw. handle_call req id qw;
    stream = stream;
  }

-- What a method that answers with a stream gives where `RecvMsg` refuses its request; the request
-- that arrives is no error of the stream, and a guard refuses for two reasons only.
abbrev pub unless_refused : Received → DownloadReply → DownloadReply
unless_refused (message req) next = next
unless_refused (refused Rejection.access_denied) next = DownloadReply.access_denied
unless_refused (refused Rejection.cannot_extract_path) next = DownloadReply.cannot_extract_path
unless_refused (refused _) next = DownloadReply.missing_auth_context
unless_refused stream_error next = DownloadReply.running
unless_refused stuck next = DownloadReply.running

-- The generated code receives the request, behind the guard if there is one, and then calls
-- DownloadObject.
abbrev pub received_by : ℕ → Option AuthzServerStream → Request → DownloadReply → DownloadReply
received_by fuel none req next = next
received_by fuel (some guard) req next = unless_refused (recv_msg fuel guard (some req)).0 next

-- The handler of the service as container.go makes it, with the storage and the store that the
-- servers use; a call of DownloadObject comes with the state of the database, the path, and the
-- state of the storage.
unfoldable pub service_handler :
    {Q W S : Type 0}
    → Redis Q
    → Json
    → (storage : Backend → ObjectStorage W) → PermissionJson
    → (db : Text → Db S) → ℕ
    → (delivers : ℕ → Bool) → Backend
    → StoreChoice
    → FileEngineServer (Text → Q × W → RpcReply × (Q × W)) (S → Text → W → DownloadReply)
service_handler redis encoding storage json db fuel delivers st choice =
    new_grpc_handler redis encoding (storage st) (λ ctx guard s path w.
      received_by fuel guard (download_object path)
        (download_object_handler (storage st) fuel (store_at json db choice s) delivers ctx path w))

-- A call as it arrives: its context, its request, the formatted time, and the database's state.
pub record Call (S : Type 0) : Type 0 where
  pub ctx : Context
  pub req : Request
  pub id : Text
  pub at : S

module _ {S Q W B : Type 0} (service : GrpcService S (Text → Q × W → RpcReply × (Q × W)) B) where
  abbrev pub finished :
      Reply (Text → Q × W → RpcReply × (Q × W)) → Text → Q × W → Reply RpcReply × (Q × W)
  finished (replied f) id qw = let (r, qw') = f id qw in (replied r, qw')
  finished (rejected r) id qw = (rejected r, qw)
  finished running id qw = (running, qw)

  -- A call through the interceptors to the handler, and what it leaves.
  unfoldable pub serve_call : Call S → Q × W → Reply RpcReply × (Q × W)
  serve_call c qw = finished (service.unary c.at (method_of c.req) c.ctx c.req) c.id qw

  -- Calls that are answered one after the other: the answers, and what is left.
  unfoldable pub serve_all : List (Call S) → Q × W → List (Reply RpcReply) × (Q × W)
  serve_all [] qw = ([], qw)
  serve_all (c ∷ cs) qw =
      let (r, qw1) = serve_call c qw in let (rs, qw2) = serve_all cs qw1 in (r ∷ rs, qw2)
