-- ===== src/Examples/Board.antt =====
-- Requests to the service with a task table.
use file_server_management.Prelude.{◌≡◌, refl, [], ◌∷◌, none, some, arith, if◌then◌else◌}
use file_server_management.Text.{txt, text_eq}
use file_server_management.TaskTable.{
  Task, no_tasks, CreateFolderResp, Decoders, Clock, folder_accepted, task_found, queued_task,
  add_task, uploads_complete, handle_task_status, handle_create_folder, run,
}
use file_server_management.TaskTable.Kept.{handle_task_status-handle_create_folder}

-- A body is the name of the folder, or the id of the upload.
abbrev decoders : Decoders
decoders = record {
  create_folder_req =
      λ b. if text_eq b [] then none else some (record { parent_path = txt "/"; name = b });
  upload_initiate_req = λ b. none;
  upload_complete_req = λ b. some (record { upload_id = b });
}

abbrev at_1 : Clock
at_1 = record { stamp = txt "1"; now = 1 }

abbrev at_2 : Clock
at_2 = record { stamp = txt "2"; now = 2 }

abbrev made : CreateFolderResp
made = record {
  status = txt "queued";
  task_id = txt "task-1";
  message = txt "Pasta em criação. Verifique o status via /tasks/task-1";
}

abbrev folder_task : Task
folder_task = queued_task at_1 (txt "Task queued for folder creation")

folder_run :
    handle_create_folder decoders (txt "docs") at_1 no_tasks
    ≡ (folder_accepted made, add_task at_1 (txt "Task queued for folder creation") no_tasks)
unfolding handle_create_folder text_eq
folder_run = refl

handle_task_status-handle_create_folder_example :
    handle_task_status made.task_id (
      run decoders
        ((uploads_complete (txt "u"), at_2) ∷ [])
        (add_task at_1 (txt "Task queued for folder creation") no_tasks))
    ≡ task_found folder_task
handle_task_status-handle_create_folder_example =
    handle_task_status-handle_create_folder decoders (txt "docs") at_1 no_tasks
      (add_task at_1 (txt "Task queued for folder creation") no_tasks) made
      ((uploads_complete (txt "u"), at_2) ∷ []) folder_run (ground arith)
