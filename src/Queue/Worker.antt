-- ===== src/Queue/Worker.antt =====
-- The worker loops: `Start` of internal/app/tasks/worker.go and of internal/worker/worker.go.
use file_server_management.Prelude.{
  ◌≡◌, Bool, true, List, [], ◌∷◌, ◌++◌, Option, some, Result, ok, err, ap, if◌then◌else◌,
}
use file_server_management.Text.{Text, txt}
use file_server_management.Queue.{
  TaskPayload, Redis, Json, QueueError, ProcessError, Backend, pop, pop_strictly, complete, process,
}
use file_server_management.Queue.Fifo.{IsRedis}

-- tasks/worker.go: the status that is stored for a task
abbrev pub status_of : Result ProcessError (Unit {0}) → Text
status_of (ok _) = txt "success"
status_of (err _) = txt "failed"

module _ {S W : Type 0} (redis : Redis S) (json : Json) (st : Backend W) where
  -- One task: it is processed, and its status is stored; an error of `Complete` is dropped.
  unfoldable pub handle_task : TaskPayload → S × W → S × W
  handle_task t (s, w) =
      let (r, w') = process st t w in ((complete redis json t.id (status_of r) s).1, w')

  abbrev pub after_pop : Result QueueError TaskPayload × S → W → S × W
  after_pop (err e, s) w = (s, w)
  after_pop (ok t, s) w = handle_task t (s, w)

  -- tasks/worker.go: one round of the loop of `Start`
  unfoldable pub worker_round : S × W → S × W
  worker_round (s, w) = after_pop (pop redis json s) w

  -- tasks/worker.go `Start`: for each round, whether the context is done when it begins. The list
  -- is the part of the run that is looked at.
  unfoldable pub start : List Bool → S × W → S × W
  start [] sw = sw
  start (done ∷ rounds) sw = if done then sw else start rounds (worker_round sw)

-- worker.go: the status that is stored, with the error's message
abbrev pub status_text : (ProcessError → Text) → Result ProcessError (Unit {0}) → Text
status_text message (ok _) = txt "success"
status_text message (err e) = txt "error: " ++ message e

module _ {S W : Type 0} (redis : Redis S) (json : Json)
    (run : TaskPayload → W → Result ProcessError (Unit {0}) × W)
    (message : ProcessError → Text) where
  -- worker.go: one task, by any processor
  unfoldable pub handle_any : TaskPayload → S × W → S × W
  handle_any t (s, w) =
      let (r, w') = run t w in ((complete redis json t.id (status_text message r) s).1, w')

  abbrev pub after_strict_pop : Result QueueError TaskPayload × S → W → S × W
  after_strict_pop (err e, s) w = (s, w)
  after_strict_pop (ok t, s) w = handle_any t (s, w)

  -- worker.go: one round of the loop of `Start`, over the queue of worker_impl.go, whose `Pop`
  -- gives no nil task without an error
  unfoldable pub any_worker_round : S × W → S × W
  any_worker_round (s, w) = after_strict_pop (pop_strictly redis json s) w

module _ {S W : Type 0} (redis : Redis S) (json : Json) (st : Backend W)
    (list_at : S → Text → List Text) (value_at : S → Text → Option Text) where
  -- A round that gets a task processes it once, and stores "success" or "failed" under the task's
  -- key as the processing went, if Redis takes the status.
  pub worker_round-status :
      (s s' s'' : S) (w : W) (t : TaskPayload)
      → IsRedis redis list_at value_at
      → pop redis json s ≡ (ok t, s')
      → redis.set (txt "task:" ++ t.id) (status_of (process st t w).0) s' ≡ (true, s'')
      → (worker_round redis json st (s, w) ≡ (s'', (process st t w).1))
        × (value_at s'' (txt "task:" ++ t.id) ≡ some (status_of (process st t w).0))
  unfolding worker_round handle_task complete
  worker_round-status s s' s'' w t laws popped stored = (
    rw (popped, worker_round) (ap (λ r. (r.1, (process st t w).1)) stored),
    laws.set_value _ _ s' s'' stored,
  )
