-- ===== src/Examples/Tasks/Runs.antt =====
-- Calls, rounds and traces on the queue of Examples/Tasks.
use file_server_management.Prelude.{◌≡◌, refl, ap, true, false, List, [], ◌∷◌, ◌++◌, none, some, ok}
use file_server_management.Text.{Text, txt, text_eq, trim_suffix}
use file_server_management.Queue.{
  TaskPayload, Backend, Disk, create_folder_payload, enqueue, enqueue_create_folder, pop, process,
  process_create_folder,
}
use file_server_management.Queue.Fifo.{waiting}
use file_server_management.Queue.Worker.{start}
use file_server_management.Queue.Drained.{IsUp, rounds_for}
use file_server_management.Server.{CreateFolderResponse, create_folder_handler}
use file_server_management.Queue.{complete}
use file_server_management.Queue.Interleaved.{
  Call, enqueued, taken, reported, all_enqueued, all_taken, idle, enqueues, takes, reports,
  Trace-waiting,
}
use file_server_management.Examples.Tasks.{
  Server, server, list_at, value_at, encoding, put_at, take_first, server-IsRedis,
  encoding-IsRoundTrip,
}

abbrev pub fresh : Server
fresh = (λ k. [], λ k. none)

abbrev pub folder_task : TaskPayload
folder_task = create_folder_payload (txt "7") (txt "/projects/") (txt "docs") (txt "alice")

abbrev pub queued_folder : Server
queued_folder = (enqueue server encoding folder_task fresh).1

enqueue_run : enqueue server encoding folder_task fresh ≡ (ok tt, queued_folder)
unfolding enqueue
enqueue_run = refl

abbrev drained : Server
drained = (pop server encoding queued_folder).1

popped : pop server encoding queued_folder ≡ (ok folder_task, drained)
unfolding pop enqueue text_eq
popped = refl

-- A backend that records the folders it makes.
abbrev pub recorder : Backend (List Text)
recorder = record { create_folder = λ p w. (true, p ∷ w); move = λ src dst w. (false, w) }

folder_run : process recorder folder_task [] ≡ (ok tt, txt "/projects/docs" ∷ [])
unfolding process process_create_folder text_eq trim_suffix
folder_run = refl

abbrev disk : Disk (List Text)
disk = record {
  create_folder = λ ps w. (true, ps ++ w);
  move_uploaded_file = λ src dst w. (false, w);
}

pub server-IsUp : IsUp server list_at
server-IsUp = record {
  pops = λ k v vs s e. ((put_at s.0 k vs, s.1), ap (λ us. take_first us k s) e);
  sets = λ k v s. ((s.0, put_at s.1 k (some v)), refl);
}

abbrev pub accepted : CreateFolderResponse
accepted = record { task_id = txt "7"; status = txt "queued" }

accepted_run :
    create_folder_handler server encoding
      (txt "7")
      (txt "/projects/")
      (txt "docs")
      (txt "alice")
      fresh
    ≡ (ok accepted, queued_folder)
unfolding create_folder_handler enqueue_create_folder enqueue
accepted_run = refl

abbrev later : Server × List Text
later =
    start server encoding recorder
      (rounds_for (waiting server encoding list_at value_at queued_folder)) (queued_folder, [])

-- One worker takes the folder's task and reports it.
abbrev calls : List Call
calls = enqueued folder_task ∷ taken 1 folder_task ∷ reported (txt "7") (txt "success") ∷ []

abbrev reported_at : Server
reported_at = (complete server encoding (txt "7") (txt "success") drained).1

report_run : complete server encoding (txt "7") (txt "success") drained ≡ (ok tt, reported_at)
unfolding complete
report_run = refl

Trace-waiting_example :
    waiting server encoding list_at value_at fresh ++ all_enqueued calls
    ≡ all_taken calls ++ waiting server encoding list_at value_at reported_at
Trace-waiting_example =
    Trace-waiting server encoding list_at value_at server-IsRedis encoding-IsRoundTrip calls fresh
      reported_at (enqueues enqueue_run (takes popped (reports report_run idle)))
