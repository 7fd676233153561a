-- ===== src/TaskTable.antt =====
-- cmd/main.go: the handlers of the service that keeps its tasks in memory.
pub mod Kept
use file_server_management.Prelude.{
  ℕ, ◌≡◌, Bool, true, false, ◌||◌, List, [], ◌∷◌, ◌++◌, Option, none, some, if◌then◌else◌,
}
use file_server_management.Text.{Text, txt, text_eq}

-- `Task`
pub record Task : Type 0 where
  pub id : Text
  pub status : Text
  pub message : Text
  pub created : ℕ

-- `tasks`, a map from ids
abbrev pub Tasks : Type 0
Tasks = Text → Option Task

abbrev pub no_tasks : Tasks
no_tasks id = none

-- `tasks[id] = &t`
unfoldable pub put_task : Tasks → Text → Task → Tasks
put_task tasks id t x = if text_eq x id then some t else tasks x

-- `CreateFolderReq`, but for its metadata, which nothing reads
pub record CreateFolderReq : Type 0 where
  pub parent_path : Text
  pub name : Text

-- `UploadInitiateReq`, of which nothing is read: a negative size is not told apart.
pub record UploadInitiateReq : Type 0 where
  pub target_path : Text
  pub filename : Text
  pub size : ℕ

-- `UploadCompleteReq`
pub record UploadCompleteReq : Type 0 where
  pub upload_id : Text

-- `CreateFolderResp`
pub record CreateFolderResp : Type 0 where
  pub status : Text
  pub task_id : Text
  pub message : Text

-- `UploadInitiateResp`
pub record UploadInitiateResp : Type 0 where
  pub upload_url : Text
  pub upload_id : Text

-- `UploadCompleteResp`
pub record UploadCompleteResp : Type 0 where
  pub status : Text
  pub message : Text

-- The decoders of encoding/json for the three requests; `none` is an error.
pub record Decoders : Type 0 where
  pub create_folder_req : Text → Option CreateFolderReq
  pub upload_initiate_req : Text → Option UploadInitiateReq
  pub upload_complete_req : Text → Option UploadCompleteReq

-- The time of a request: UnixNano as "%d" prints it, and the time that a task is created.
pub record Clock : Type 0 where
  pub stamp : Text
  pub now : ℕ

pub data Response : Type 0 where
  healthy : Response
  bad_request : (message : Text) → Response
  not_found : (message : Text) → Response
  folder_accepted : CreateFolderResp → Response
  upload_initiated : UploadInitiateResp → Response
  upload_completed : UploadCompleteResp → Response
  task_found : Task → Response

abbrev pub queued_task : Clock → (message : Text) → Task
queued_task c message = record {
  id = txt "task-" ++ c.stamp;
  status = txt "queued";
  message = message;
  created = c.now;
}

abbrev pub add_task : Clock → (message : Text) → Tasks → Tasks
add_task c message tasks = put_task tasks (txt "task-" ++ c.stamp) (queued_task c message)

-- A request by the route that takes it.
pub data Call : Type 0 where
  health : Call
  create_folder : (body : Text) → Call
  uploads_initiate : (body : Text) → Call
  uploads_complete : (body : Text) → Call
  task_status : (id : Text) → Call

abbrev pub found_task : Option Task → Response
found_task none = not_found (txt "task not found")
found_task (some t) = task_found t

-- `taskStatusHandler`
unfoldable pub handle_task_status : (id : Text) → Tasks → Response
handle_task_status id tasks = found_task (tasks id)

module _ (json : Decoders) where
  -- `createFolderHandler`
  unfoldable pub handle_create_folder : (body : Text) → Clock → Tasks → Response × Tasks
  handle_create_folder body c tasks = elim (json.create_folder_req body) [
    | none ↦ (bad_request (txt "invalid json"), tasks)
    | some req ↦
        if text_eq req.parent_path [] || text_eq req.name []
        then (bad_request (txt "parent_path and name are required"), tasks)
        else (
          folder_accepted (record {
            status = txt "queued";
            task_id = txt "task-" ++ c.stamp;
            message =
                txt "Pasta em criação. Verifique o status via /tasks/" ++ txt "task-" ++ c.stamp;
          }),
          add_task c (txt "Task queued for folder creation") tasks,
        )
  ]

  -- `uploadsInitiateHandler`
  unfoldable pub handle_uploads_initiate : (body : Text) → Clock → Response
  handle_uploads_initiate body c = elim (json.upload_initiate_req body) [
    | none ↦ bad_request (txt "invalid json")
    | some req ↦ upload_initiated (record {
      upload_url = txt "https://temp-storage.example.com/upload/" ++ txt "upload-" ++ c.stamp;
      upload_id = txt "upload-" ++ c.stamp;
    })
  ]

  -- `uploadsCompleteHandler`
  unfoldable pub handle_uploads_complete : (body : Text) → Clock → Tasks → Response × Tasks
  handle_uploads_complete body c tasks = elim (json.upload_complete_req body) [
    | none ↦ (bad_request (txt "invalid json"), tasks)
    | some req ↦
        if text_eq req.upload_id [] then (bad_request (txt "upload_id is required"), tasks) else (
          upload_completed (record {
            status = txt "queued_scan";
            message =
                txt
                  "Arquivo recebido e enviado para scan. Após aprovação, será movido para o File Server.";
          }),
          add_task c (txt "Arquivo recebido e enviado para scan") tasks,
        )
  ]

  -- The routes of `main`.
  unfoldable pub route : Call → Clock → Tasks → Response × Tasks
  route health c tasks = (healthy, tasks)
  route (create_folder body) c tasks = handle_create_folder body c tasks
  route (uploads_initiate body) c tasks = (handle_uploads_initiate body c, tasks)
  route (uploads_complete body) c tasks = handle_uploads_complete body c tasks
  route (task_status id) c tasks = (handle_task_status id tasks, tasks)

  -- The table after a sequence of requests, each with its time.
  unfoldable pub run : List (Call × Clock) → Tasks → Tasks
  run [] tasks = tasks
  run ((call, c) ∷ later) tasks = run later (route call c tasks).1
