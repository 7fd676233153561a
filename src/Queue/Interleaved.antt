-- ===== src/Queue/Interleaved.antt =====
-- Any number of API servers and workers on one queue, in any order of their calls.
use file_server_management.Prelude.{
  ℕ, ◌≡◌, Option, List, [], ◌∷◌, ◌++◌, map, ok, sym, ap, ◌∙◌, append-nil, append_assoc,
}
use file_server_management.Text.{Text, txt}
use file_server_management.Queue.{TaskPayload, Redis, Json, enqueue, pop, complete}
use file_server_management.Queue.Fifo.{
  IsRedis, IsRoundTrip, waiting, enqueue-waiting, pop-waiting, pushed-ok,
}

-- A call that Redis has answered: a task is enqueued, taken by a worker, or its status is stored.
pub data Call : Type 0 where
  enqueued : TaskPayload → Call
  taken : (worker : ℕ) → TaskPayload → Call
  reported : (id status : Text) → Call

abbrev pub all_enqueued : List Call → List TaskPayload
all_enqueued [] = []
all_enqueued (enqueued p ∷ calls) = p ∷ all_enqueued calls
all_enqueued (taken i t ∷ calls) = all_enqueued calls
all_enqueued (reported id status ∷ calls) = all_enqueued calls

abbrev pub all_taken : List Call → List TaskPayload
all_taken [] = []
all_taken (enqueued p ∷ calls) = all_taken calls
all_taken (taken i t ∷ calls) = t ∷ all_taken calls
all_taken (reported id status ∷ calls) = all_taken calls

module _ {S : Type 0} (redis : Redis S) (json : Json) where
  -- The calls happen one after the other, on one Redis.
  pub data Trace : List Call → S → S → Type 0 where
    idle : {s : S} → Trace [] s s
    enqueues :
        {p : TaskPayload} {calls : List Call} {s s1 s2 : S}
        → enqueue redis json p s ≡ (ok tt, s1)
        → Trace calls s1 s2
        → Trace (enqueued p ∷ calls) s s2
    takes :
        {i : ℕ} {t : TaskPayload} {calls : List Call} {s s1 s2 : S}
        → pop redis json s ≡ (ok t, s1)
        → Trace calls s1 s2
        → Trace (taken i t ∷ calls) s s2
    reports :
        {id status : Text} {calls : List Call} {s s1 s2 : S}
        → complete redis json id status s ≡ (ok tt, s1)
        → Trace calls s1 s2
        → Trace (reported id status ∷ calls) s s2

  module _ (list_at : S → Text → List Text) (value_at : S → Text → Option Text)
      (laws : IsRedis redis list_at value_at) (round : IsRoundTrip json) where
    complete-waiting :
        (id status : Text) (s s' : S)
        → complete redis json id status s ≡ (ok tt, s')
        → waiting redis json list_at value_at s' ≡ waiting redis json list_at value_at s
    unfolding complete
    complete-waiting id status s s' e = ap (map (λ b. (json.unmarshal b).0)) (
        laws.set_lists (txt "task:" ++ id) status s s' (pushed-ok redis json list_at value_at _ e)
          (txt "tasks"))

    -- Whatever the order of calls that Redis all answers without an error, the workers together
    -- take the tasks in the order in which they were enqueued, behind those that waited before:
    -- those that waited and those enqueued are, in this order, those that were taken and those that
    -- wait. Of calls that fail nothing is said: a task can be lost with the answer of its BLPOP.
    pub Trace-waiting :
        (calls : List Call) (s s' : S)
        → Trace calls s s'
        → waiting redis json list_at value_at s ++ all_enqueued calls
          ≡ all_taken calls ++ waiting redis json list_at value_at s'
    Trace-waiting [] s s' idle = append-nil _
    Trace-waiting (enqueued p ∷ calls) s s' (enqueues {s1 = s1} e later) =
        sym (append_assoc _ (p ∷ []) (all_enqueued calls))
        ∙ ap (λ q. q ++ all_enqueued calls)
            (sym (enqueue-waiting redis json list_at value_at p s s1 laws round e))
        ∙ Trace-waiting calls s1 s' later
    Trace-waiting (taken i t ∷ calls) s s' (takes {s1 = s1} e later) =
        ap (λ q. q ++ all_enqueued calls) (pop-waiting redis json list_at value_at s s1 t laws e)
        ∙ ap (λ q. t ∷ q) (Trace-waiting calls s1 s' later)
    Trace-waiting (reported id status ∷ calls) s s' (reports {s1 = s1} e later) =
        ap (λ q. q ++ all_enqueued calls) (sym (complete-waiting id status s s1 e))
        ∙ Trace-waiting calls s1 s' later
