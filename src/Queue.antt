-- ===== src/Queue.antt =====
-- The task queue and its workers: internal/adapters/queue/redisq/redisq.go with
-- internal/app/tasks/processor.go and worker.go, and the older internal/worker/worker_impl.go.
-- Redis and encoding/json are parameters.

pub mod Process
pub mod Fifo
pub mod Worker
pub mod Drained
pub mod Interleaved
use file_server_management.Prelude.{
  ◌≡◌, Bool, true, false, ◌||◌, List, [], ◌∷◌, ◌++◌, Option, none, some, Result, ok, err,
  if◌then◌else◌,
}
use file_server_management.Text.{Text, txt, text_eq, trim_suffix}

-- redisq.go `TaskPayload` and worker_impl.go `Task`, which have the same fields; a map of strings
-- is its entries in the order of the keys, each key once.
pub record TaskPayload : Type 0 where
  pub id : Text
  pub task_type : Text
  pub params : List (Text × Text)

-- The Redis commands that the code sends, on the server's state `S`; a command that fails may
-- leave any state.
pub record Redis (S : Type 0) : Type 0 where
  pub rpush : Text → Text → S → Bool × S
  pub blpop : Text → S → Option Text × S
  pub set : Text → Text → S → Bool × S

-- json.Marshal, and json.Unmarshal into a zero value: what it has filled in, and whether it
-- succeeded.
pub record Json : Type 0 where
  pub marshal : TaskPayload → Option Text
  pub unmarshal : Text → TaskPayload × Bool

pub data QueueError : Type 0 where
  redis_error marshal_error unmarshal_error : QueueError

-- Reading a map: "" for a missing key.
abbrev pub read_map : List (Text × Text) → Text → Text
read_map [] k = []
read_map ((j, v) ∷ m) k = if text_eq j k then v else read_map m k

-- The payload that `EnqueueCreateFolder` builds.
abbrev pub create_folder_payload : (id parent_path folder_name requested_by : Text) → TaskPayload
create_folder_payload id parent_path folder_name requested_by = record {
  id = id;
  task_type = txt "create_folder";
  params = (txt "by", requested_by) ∷ (txt "name", folder_name) ∷ (txt "parent", parent_path) ∷ [];
}

module _ {S : Type 0} (redis : Redis S) (json : Json) where
  abbrev pub pushed : Bool × S → Result QueueError (Unit {0}) × S
  pushed (done, s) = (if done then ok tt else err redis_error, s)

  -- redisq.go `Enqueue`
  unfoldable pub enqueue : TaskPayload → S → Result QueueError (Unit {0}) × S
  enqueue p s = elim (json.marshal p) [
    | none ↦ (err marshal_error, s)
    | some b ↦ pushed (redis.rpush (txt "tasks") b s)
  ]

  abbrev pub decoded : Option Text × S → Result QueueError TaskPayload × S
  decoded (none, s) = (err redis_error, s)
  decoded (some b, s) = (ok (json.unmarshal b).0, s)

  -- redisq.go `Pop`: an error of Unmarshal is dropped.
  unfoldable pub pop : S → Result QueueError TaskPayload × S
  pop s = decoded (redis.blpop (txt "tasks") s)

  abbrev pub checked : TaskPayload × Bool → Result QueueError TaskPayload
  checked (t, valid) = if valid then ok t else err unmarshal_error

  abbrev pub decoded_strictly : Option Text × S → Result QueueError TaskPayload × S
  decoded_strictly (none, s) = (err redis_error, s)
  decoded_strictly (some b, s) = (checked (json.unmarshal b), s)

  -- worker_impl.go `Pop`: an error of Unmarshal is returned, and the message is gone.
  unfoldable pub pop_strictly : S → Result QueueError TaskPayload × S
  pop_strictly s = decoded_strictly (redis.blpop (txt "tasks") s)

  -- `Complete` of both queues
  unfoldable pub complete : (id status : Text) → S → Result QueueError (Unit {0}) × S
  complete id status s = pushed (redis.set (txt "task:" ++ id) status s)

  abbrev pub with_id : Text → Result QueueError (Unit {0}) × S → Result QueueError Text × S
  with_id id (ok _, s) = (ok id, s)
  with_id id (err e, s) = (err e, s)

  -- redisq.go `EnqueueCreateFolder`; `id` is the formatted time of the call.
  unfoldable pub enqueue_create_folder :
      (id parent_path folder_name requested_by : Text) → S → Result QueueError Text × S
  enqueue_create_folder id parent_path folder_name requested_by s =
      with_id id (enqueue (create_folder_payload id parent_path folder_name requested_by) s)

pub data ProcessError : Type 0 where
  missing_params : ProcessError
  unknown_task_type : Text → ProcessError
  backend_failed : ProcessError

-- The operations of storage.Storage that the processor calls, on the backend's state `W`.
pub record Backend (W : Type 0) : Type 0 where
  pub create_folder : Text → W → Bool × W
  pub move : Text → Text → W → Bool × W

-- The operations of local.LocalFs that `FSProcessor` calls.
pub record Disk (W : Type 0) : Type 0 where
  pub create_folder : List Text → W → Bool × W
  pub move_uploaded_file : List Text → List Text → W → Bool × W

module _ {W : Type 0} where
  abbrev pub ran : Bool × W → Result ProcessError (Unit {0}) × W
  ran (done, w) = (if done then ok tt else err backend_failed, w)

  -- processor.go, the case "create_folder"
  unfoldable pub process_create_folder :
      Backend W → (parent name : Text) → W → Result ProcessError (Unit {0}) × W
  process_create_folder st parent name w =
      if text_eq parent [] || text_eq name []
      then (err missing_params, w)
      else ran (st.create_folder (trim_suffix parent (txt "/") ++ txt "/" ++ name) w)

  -- processor.go, the case "move_file"
  unfoldable pub process_move_file :
      Backend W → (src dst : Text) → W → Result ProcessError (Unit {0}) × W
  process_move_file st src dst w =
      if text_eq src [] || text_eq dst [] then (err missing_params, w) else ran (st.move src dst w)

  -- processor.go `Process`
  unfoldable pub process : Backend W → TaskPayload → W → Result ProcessError (Unit {0}) × W
  process st t w =
      if text_eq t.task_type (txt "create_folder")
      then process_create_folder st (read_map t.params (txt "parent"))
          (read_map t.params (txt "name")) w
      else (if text_eq t.task_type (txt "move_file")
          then process_move_file st (read_map t.params (txt "src")) (read_map t.params (txt "dst"))
              w
          else (err (unknown_task_type t.task_type), w))

  -- worker_impl.go `FSProcessor.Process`, the case "create_folder"
  unfoldable pub fs_create_folder :
      Disk W → (path folder : Text) → W → Result ProcessError (Unit {0}) × W
  fs_create_folder fs path folder w =
      if text_eq path [] || text_eq folder []
      then (err missing_params, w)
      else ran (fs.create_folder (path ∷ folder ∷ []) w)

  -- worker_impl.go `FSProcessor.Process`, the case "complete_upload"
  unfoldable pub fs_complete_upload :
      Disk W → (upload_tmp target_path filename : Text) → W → Result ProcessError (Unit {0}) × W
  fs_complete_upload fs upload_tmp target_path filename w =
      if text_eq upload_tmp [] || (text_eq target_path [] || text_eq filename [])
      then (err missing_params, w)
      else ran (fs.move_uploaded_file (upload_tmp ∷ []) (target_path ∷ filename ∷ []) w)

  -- worker_impl.go `FSProcessor.Process`
  unfoldable pub fs_process : Disk W → TaskPayload → W → Result ProcessError (Unit {0}) × W
  fs_process fs t w =
      if text_eq t.task_type (txt "create_folder")
      then fs_create_folder fs (read_map t.params (txt "path")) (read_map t.params (txt "folder")) w
      else (if text_eq t.task_type (txt "complete_upload")
          then fs_complete_upload fs (read_map t.params (txt "upload_tmp"))
              (read_map t.params (txt "target_path")) (read_map t.params (txt "filename")) w
          else (err (unknown_task_type t.task_type), w))
