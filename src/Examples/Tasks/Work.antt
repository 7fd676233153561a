-- ===== src/Examples/Tasks/Work.antt =====
-- A worker process with one variable in its environment, and the folder of Examples/Tasks/Runs.
use file_server_management.Prelude.{◌≡◌, refl, true, List, [], ◌++◌, some, ok, arith}
use file_server_management.Text.{
  Text, txt, text_eq, trim_suffix, to_lower, trim_space, trim_left, trim_right, is_space,
}
use file_server_management.Authz.{create_folder}
use file_server_management.Storage.{Backend, new_from_config}
use file_server_management.Queue.{TaskPayload, enqueue, enqueue_create_folder}
use file_server_management.Queue.Fifo.{waiting}
use file_server_management.Queue.Worker.{start}
use file_server_management.Queue.Drained.{rounds_for, processed}
use file_server_management.Server.{create_folder_handler}
use file_server_management.Server.Folder.{outcome}
use file_server_management.Config.{load_from_env, get_env, factory_config}
use file_server_management.Process.{folder_queued, handle_call}
use file_server_management.Process.Work.{WorkerLoop, worker_main, worker_main-folder}
use file_server_management.Examples.Start.{env}
use file_server_management.Examples.Calls.{one_file}
use file_server_management.Examples.Tasks.{
  Server, server, list_at, value_at, encoding, server-IsRedis, encoding-IsRoundTrip,
}
use file_server_management.Examples.Tasks.Runs.{
  recorder, fresh, queued_folder, accepted, server-IsUp,
}

abbrev loop : WorkerLoop Server (List Text)
loop rounds sw = start server encoding recorder rounds sw

loop_run : worker_main server encoding (λ st. recorder) true env ≡ ok loop
unfolding worker_main load_from_env get_env factory_config new_from_config text_eq to_lower
    trim_space trim_left trim_right is_space
loop_run = refl

call_run :
    handle_call server encoding one_file
      (create_folder (txt "/projects/") (txt "docs") (txt "alice"))
      (txt "7")
      (fresh, tt)
    ≡ (folder_queued (ok accepted), (queued_folder, tt))
unfolding handle_call create_folder_handler enqueue_create_folder enqueue
call_run = refl

abbrev waits : Server → List TaskPayload
waits s = waiting server encoding list_at value_at s

worker_main-folder_example :
    (st : Backend) × (new_from_config true (factory_config (load_from_env env)) ≡ ok st)
    × (let made =
          recorder.create_folder
            (trim_suffix (txt "/projects/") (txt "/") ++ txt "/" ++ txt "docs")
            (processed recorder (waits fresh) []) in
        let after = loop (rounds_for (waits queued_folder)) (queued_folder, []) in
        (after.1 ≡ made.1)
        × (value_at after.0 (txt "task:" ++ accepted.task_id) ≡ some (outcome made.0))
        × (waits after.0 ≡ []))
worker_main-folder_example =
    worker_main-folder server encoding one_file (λ st. recorder) true env list_at value_at
      server-IsRedis server-IsUp encoding-IsRoundTrip loop (txt "/projects/") (txt "docs")
      (txt "alice") (txt "7") fresh queued_folder tt tt [] accepted loop_run (ground arith)
      (ground arith) call_run
