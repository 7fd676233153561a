-- ===== src/Server/Folder.antt =====
-- A folder from the call of `CreateFolder` (internal/handlers/grpc_handler.go) over the queue to
-- the worker (internal/app/tasks) and the storage.
use file_server_management.Prelude.{
  ◌≡◌, ◌≢◌, refl, Bool, true, false, List, [], ◌++◌, Option, some, Result, ok, err, sym, ap, ◌∙◌,
  subst, if◌then◌else◌,
}
use file_server_management.Text.{Text, txt, trim_suffix}
use file_server_management.Queue.{
  Redis, Json, QueueError, Backend, create_folder_payload, enqueue, enqueue_create_folder, with_id,
  ran,
}
use file_server_management.Queue.Fifo.{IsRedis, IsRoundTrip, waiting, enqueue-waiting}
use file_server_management.Queue.Process.{process-create_folder_payload}
use file_server_management.Queue.Worker.{status_of, start}
use file_server_management.Queue.Drained.{IsUp, rounds_for, processed, Handled, start-Handled}
use file_server_management.Server.{CreateFolderResponse, create_folder_handler, queued}

abbrev response_id : {S : Type 0} → Result QueueError CreateFolderResponse × S → Text
response_id (ok resp, s) = resp.task_id
response_id (err e, s) = []

-- The status of a call of the storage.
abbrev pub outcome : Bool → Text
outcome done = if done then txt "success" else txt "failed"

ran-status : {W : Type 0} (r : Bool × W) → status_of (ran r).0 ≡ outcome r.0
ran-status (true, w) = refl
ran-status (false, w) = refl

module _ {S : Type 0} (redis : Redis S) (json : Json) where
  queued-ok :
      (id : Text) (r : Result QueueError (Unit {0}) × S) (resp : CreateFolderResponse) (s' : S)
      → queued redis json (with_id redis json id r) ≡ (ok resp, s')
      → (r ≡ (ok tt, s')) × (resp.task_id ≡ id)
  queued-ok id (ok u, s) resp s' e = (ap (λ q. (ok tt, q.1)) e, ap response_id (sym e))
  queued-ok id (err x, s) resp s' e = absurd (cc (ap (λ q. q.0) e))

  module _ {W : Type 0} (st : Backend W) (list_at : S → Text → List Text)
      (value_at : S → Text → Option Text) (laws : IsRedis redis list_at value_at)
      (up : IsUp redis list_at) (round : IsRoundTrip json) where
    -- A folder that `CreateFolder` has queued is created: while Redis answers, one round of the
    -- worker for each task that waits processes those that waited before, in their order, then
    -- calls the storage's CreateFolder with the parent and the name, stores "success" or "failed"
    -- under the id of the response as that call went, and leaves no task.
    pub create_folder_handler-start :
        (id parent_path folder_name requested_by : Text) (s s' : S) (w : W)
        (resp : CreateFolderResponse)
        → parent_path ≢ []
        → folder_name ≢ []
        → create_folder_handler redis json id parent_path folder_name requested_by s ≡ (ok resp, s')
        → let waits = waiting redis json list_at value_at in
          let made =
            st.create_folder
              (trim_suffix parent_path (txt "/") ++ txt "/" ++ folder_name)
              (processed st (waits s) w) in
          let after = start redis json st (rounds_for (waits s')) (s', w) in
          (after.1 ≡ made.1)
          × (value_at after.0 (txt "task:" ++ resp.task_id) ≡ some (outcome made.0))
          × (waits after.0 ≡ [])
    unfolding create_folder_handler enqueue_create_folder
    create_folder_handler-start id parent_path folder_name requested_by s s' w resp p n e =
        let task = create_folder_payload id parent_path folder_name requested_by in
        let waits = waiting redis json list_at value_at in
        let (pushed, named) = queued-ok id (enqueue redis json task s) resp s' e in
        let behind = enqueue-waiting redis json list_at value_at task s s' laws round pushed in
        let ran_as =
          process-create_folder_payload st id parent_path folder_name requested_by
            (processed st (waits s) w) p n in
        let made =
          st.create_folder (trim_suffix parent_path (txt "/") ++ txt "/" ++ folder_name)
            (processed st (waits s) w) in
        let after = start redis json st (rounds_for (waits s')) (s', w) in
        let (became, status, left) =
          subst
            (λ ts.
              Handled redis json st list_at value_at laws up task [] (processed st (waits s) w)
                (start redis json st (rounds_for ts) (s', w)))
            (sym behind)
            (start-Handled redis json st list_at value_at laws up (waits s) task s' w behind) in
        (
          became ∙ ap (λ r. r.1) ran_as,
          ap (λ k. value_at after.0 (txt "task:" ++ k)) named
              ∙ status
              ∙ ap (λ r. some (status_of r.0)) ran_as
              ∙ ap some (ran-status made),
          left,
        )
