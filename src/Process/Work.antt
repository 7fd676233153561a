-- ===== src/Process/Work.antt =====
-- The worker process of cmd/worker/main.go, and the folders that it makes for the server process.
use file_server_management.Prelude.{
  ◌≡◌, ◌≢◌, Bool, List, [], ◌++◌, Option, some, Result, ok, err, ap, subst, chained, ◌>>=◌,
}
use file_server_management.Text.{Text, txt, trim_suffix}
use file_server_management.Authz.{create_folder}
use file_server_management.Storage.{Backend, FactoryError, new_from_config}
use file_server_management.Queue
use file_server_management.Queue.{Redis, Json, QueueError}
use file_server_management.Queue.Fifo.{IsRedis, IsRoundTrip, waiting}
use file_server_management.Queue.Worker.{start}
use file_server_management.Queue.Drained.{IsUp, rounds_for, processed}
use file_server_management.Server.{ObjectStorage, CreateFolderResponse, create_folder_handler}
use file_server_management.Server.Folder.{outcome, create_folder_handler-start}
use file_server_management.Config.{load_from_env, factory_config}
use file_server_management.Process.{RpcReply, folder_queued, handle_call}

-- What the worker's loop does in some rounds to the queue and to the storage.
abbrev pub WorkerLoop : Type 0 → Type 0 → Type 0
WorkerLoop S W = List Bool → S × W → S × W

-- cmd/worker/main.go `main`, up to the wait for a signal: the loop that runs; `operations` are
-- those of a backend on the state `W`.
unfoldable pub worker_main :
    {S W : Type 0}
    → Redis S
    → Json
    → (operations : Backend → Queue.Backend W) → (connected : Bool) → (env : Text → Text)
    → Result FactoryError (WorkerLoop S W)
worker_main redis encoding operations connected env =
    new_from_config connected (factory_config (load_from_env env)) >>= λ st.
    ok (λ rounds sw. start redis encoding (operations st) rounds sw)

module _ {S V : Type 0} (redis : Redis S) (encoding : Json) (storage : ObjectStorage V) where
  abbrev queue_reply :
      RpcReply × (S × V)
      → Result QueueError CreateFolderResponse × S
      → Result QueueError CreateFolderResponse × S
  queue_reply (folder_queued r, (q, v)) d = (r, q)
  queue_reply _ d = d

  -- What `CreateFolder` answers is what the handler queues.
  handle_call-queued :
      (parent_path folder_name requested_by id : Text) (q q' : S) (v v' : V)
      (resp : CreateFolderResponse)
      → handle_call redis encoding storage
          (create_folder parent_path folder_name requested_by)
          id
          (q, v)
        ≡ (folder_queued (ok resp), (q', v'))
      → create_folder_handler redis encoding id parent_path folder_name requested_by q
        ≡ (ok resp, q')
  unfolding handle_call
  handle_call-queued parent_path folder_name requested_by id q q' v v' resp e =
      ap (λ r. queue_reply r (ok resp, q')) e

  module _ {W : Type 0} (operations : Backend → Queue.Backend W) (connected : Bool)
      (env : Text → Text) (list_at : S → Text → List Text) (value_at : S → Text → Option Text)
      (laws : IsRedis redis list_at value_at) (up : IsUp redis list_at)
      (round : IsRoundTrip encoding) where
    -- A folder that the server process has queued, with a parent and a name that are not empty, is
    -- made by a worker process with the same environment, in the storage that this environment
    -- configures: while Redis answers, and JSON gives back what was encoded, one round
    -- for each task that waits processes those that waited before, in their order, then calls
    -- CreateFolder of that storage with the parent and the name, stores "success" or "failed" under
    -- the id of the response as that call went, and leaves no task.
    pub worker_main-folder :
        (run : WorkerLoop S W) (parent_path folder_name requested_by id : Text) (q q' : S)
        (v v' : V) (w : W) (resp : CreateFolderResponse)
        → worker_main redis encoding operations connected env ≡ ok run
        → parent_path ≢ []
        → folder_name ≢ []
        → handle_call redis encoding storage
            (create_folder parent_path folder_name requested_by)
            id
            (q, v)
          ≡ (folder_queued (ok resp), (q', v'))
        → (st : Backend) × (new_from_config connected (factory_config (load_from_env env)) ≡ ok st)
          × (let waits = waiting redis encoding list_at value_at in
              let made =
                (operations st).create_folder
                  (trim_suffix parent_path (txt "/") ++ txt "/" ++ folder_name)
                  (processed (operations st) (waits q) w) in
              let after = run (rounds_for (waits q')) (q', w) in
              (after.1 ≡ made.1)
              × (value_at after.0 (txt "task:" ++ resp.task_id) ≡ some (outcome made.0))
              × (waits after.0 ≡ []))
    unfolding worker_main
    worker_main-folder run parent_path folder_name requested_by id q q' v v' w resp e p n h =
        let (st, made, loop) = chained _ _ e in
        let queued = handle_call-queued parent_path folder_name requested_by id q q' v v' resp h in
        let runs : (λ rounds sw. start redis encoding (operations st) rounds sw) ≡ run =
          ap (ran_by run) loop in
        (
          st,
          made,
          subst
              (λ (f : WorkerLoop S W).
                let waits = waiting redis encoding list_at value_at in
                let folder =
                  (operations st).create_folder
                    (trim_suffix parent_path (txt "/") ++ txt "/" ++ folder_name)
                    (processed (operations st) (waits q) w) in
                let after = f (rounds_for (waits q')) (q', w) in
                (after.1 ≡ folder.1)
                × (value_at after.0 (txt "task:" ++ resp.task_id) ≡ some (outcome folder.0))
                × (waits after.0 ≡ []))
              runs
              (create_folder_handler-start redis encoding (operations st) list_at value_at laws up
                round id parent_path folder_name requested_by q q' w resp p n queued),
        )
      where
        ran_by : WorkerLoop S W → Result FactoryError (WorkerLoop S W) → WorkerLoop S W
        ran_by d (ok f) = f
        ran_by d (err _) = d
