-- ===== src/Queue/Fifo.antt =====
-- The queue in Redis is a queue of tasks, first in, first out.
use file_server_management.Prelude.{
  ◌≡◌, Bool, true, false, List, [], ◌∷◌, ◌++◌, map, Option, none, some, Result, ok, ap,
  Option-cases, inl, inr,
}
use mathlib.Core.List.{map-append}
use file_server_management.Text.{Text, txt}
use file_server_management.Queue.{
  TaskPayload, Redis, Json, QueueError, enqueue, pop, pushed, decoded,
}

-- What the commands are documented to do when they succeed: RPUSH appends to the list at a key,
-- BLPOP takes its first item, SET writes the value at a key, and each leaves the rest alone.
pub record IsRedis {S : Type 0} (redis : Redis S) (list_at : S → Text → List Text)
    (value_at : S → Text → Option Text) : Type 0 where
  pub rpush_list :
      (k v : Text) (s s' : S)
      → redis.rpush k v s ≡ (true, s')
      → list_at s' k ≡ list_at s k ++ v ∷ []
  pub blpop_list :
      (k v : Text) (s s' : S) → redis.blpop k s ≡ (some v, s') → list_at s k ≡ v ∷ list_at s' k
  pub set_value : (k v : Text) (s s' : S) → redis.set k v s ≡ (true, s') → value_at s' k ≡ some v
  pub set_lists :
      (k v : Text) (s s' : S)
      → redis.set k v s ≡ (true, s')
      → (j : Text) → list_at s' j ≡ list_at s j

-- Unmarshal reads back what Marshal has written.
pub record IsRoundTrip (json : Json) : Type 0 where
  pub round : (p : TaskPayload) (b : Text) → json.marshal p ≡ some b → json.unmarshal b ≡ (p, true)

module _ {S : Type 0} (redis : Redis S) (json : Json) (list_at : S → Text → List Text)
    (value_at : S → Text → Option Text) where
  -- The tasks that wait, first to go first.
  abbrev pub waiting : S → List TaskPayload
  waiting s = map (λ b. (json.unmarshal b).0) (list_at s (txt "tasks"))

  pub pushed-ok : (r : Bool × S) {s' : S} → pushed redis json r ≡ (ok tt, s') → r ≡ (true, s')
  pushed-ok (true, s) e = ap (λ q. (true, q.1)) e
  pushed-ok (false, s) e = absurd (cc (ap (λ q. q.0) e))

  decoded-ok :
      (r : Option Text × S) {t : TaskPayload} {s' : S}
      → decoded redis json r ≡ (ok t, s')
      → (b : Text) × (r ≡ (some b, s')) × ((json.unmarshal b).0 ≡ t)
  decoded-ok (none, s) e = absurd (cc (ap (λ q. q.0) e))
  decoded-ok (some b, s) e = (b, ap (λ q. (some b, q.1)) e, ok-injective (ap (λ q. q.0) e))
    where
      ok-injective :
          {x y : TaskPayload} → ◌≡◌ {A = Result QueueError TaskPayload} (ok x) (ok y) → x ≡ y
      ok-injective h = cc

  -- A task that is enqueued waits behind all others.
  pub enqueue-waiting :
      (p : TaskPayload) (s s' : S)
      → IsRedis redis list_at value_at
      → IsRoundTrip json
      → enqueue redis json p s ≡ (ok tt, s')
      → waiting s' ≡ waiting s ++ p ∷ []
  unfolding enqueue
  enqueue-waiting p s s' laws round e = elim (Option-cases (json.marshal p)) [
    | inl failed ↦ absurd (cc (ap (λ q. q.0) (rw (failed, enqueue) at e)))
    | inr (b, written) ↦ rw (
      laws.rpush_list _ b s s' (pushed-ok _ (rw (written, enqueue) at e)),
      map-append,
      round.round p b written,
    )
  ]

  -- The worker gets the task that has waited longest, and the others wait on.
  pub pop-waiting :
      (s s' : S) (t : TaskPayload)
      → IsRedis redis list_at value_at
      → pop redis json s ≡ (ok t, s')
      → waiting s ≡ t ∷ waiting s'
  unfolding pop
  pop-waiting s s' t laws e =
      let (b, taken, same) = decoded-ok _ e in rw (laws.blpop_list _ b s s' taken, same)
