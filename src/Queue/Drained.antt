-- ===== src/Queue/Drained.antt =====
-- A worker whose Redis answers works the queue off, in order.
use file_server_management.Prelude.{
  ◌≡◌, refl, Bool, true, false, List, [], ◌∷◌, ◌++◌, map, Option, some, ok, sym, ap, ◌∙◌, subst,
}
use file_server_management.Text.{Text, txt}
use file_server_management.Queue.{TaskPayload, Redis, Json, Backend, pop, process}
use file_server_management.Queue.Fifo.{IsRedis, waiting, pop-waiting}
use file_server_management.Queue.Worker.{status_of, worker_round, worker_round-status, start}

-- Redis answers: BLPOP takes what there is, and SET succeeds.
pub record IsUp {S : Type 0} (redis : Redis S) (list_at : S → Text → List Text) : Type 0 where
  pub pops :
      (k v : Text) (vs : List Text) (s : S)
      → list_at s k ≡ v ∷ vs
      → (s' : S) × (redis.blpop k s ≡ (some v, s'))
  pub sets : (k v : Text) (s : S) → (s' : S) × (redis.set k v s ≡ (true, s'))

-- One round for each task.
abbrev pub rounds_for : List TaskPayload → List Bool
rounds_for = map (λ t. false)

-- What the backend has become when the tasks are processed one after the other.
abbrev pub processed : {W : Type 0} → Backend W → List TaskPayload → W → W
processed st [] w = w
processed st (t ∷ ts) w = processed st ts (process st t w).1

abbrev tail_of : List TaskPayload → List TaskPayload
tail_of [] = []
tail_of (t ∷ ts) = ts

first_of :
    (decode : Text → TaskPayload) (bs : List Text) (t : TaskPayload) (ts : List TaskPayload)
    → map decode bs ≡ t ∷ ts
    → (b : Text) × (rest : List Text) × (bs ≡ b ∷ rest) × (decode b ≡ t)
first_of decode [] t ts e = absurd (cc e)
first_of decode (b ∷ rest) t ts e = (b, rest, refl, ap (λ xs. elim xs [ [] ↦ t | x ∷ _ ↦ x ]) e)

pop-taken :
    {S : Type 0} (redis : Redis S) (json : Json) (s s' : S) (b : Text) (t : TaskPayload)
    → redis.blpop (txt "tasks") s ≡ (some b, s')
    → (json.unmarshal b).0 ≡ t
    → pop redis json s ≡ (ok t, s')
unfolding pop
pop-taken redis json s s' b t taken read = rw (taken, pop, read) refl

module _ {S W : Type 0} (redis : Redis S) (json : Json) (st : Backend W)
    (list_at : S → Text → List Text) (value_at : S → Text → Option Text)
    (laws : IsRedis redis list_at value_at) (up : IsUp redis list_at) where
  abbrev pub waiting_at : S → List TaskPayload
  waiting_at = waiting redis json list_at value_at

  -- What a round makes of the task that has waited longest.
  abbrev pub Handled : TaskPayload → List TaskPayload → W → S × W → Type 0
  Handled t ts w (s', w') =
      (w' ≡ (process st t w).1)
      × (value_at s' (txt "task:" ++ t.id) ≡ some (status_of (process st t w).0))
      × (waiting_at s' ≡ ts)

  set-waiting :
      (k v : Text) (s s' : S) → redis.set k v s ≡ (true, s') → waiting_at s' ≡ waiting_at s
  set-waiting k v s s' stored =
      ap (map (λ b. (json.unmarshal b).0)) (laws.set_lists k v s s' stored (txt "tasks"))

  worker_round-Handled :
      (s : S) (w : W) (t : TaskPayload) (ts : List TaskPayload)
      → waiting_at s ≡ t ∷ ts
      → Handled t ts w (worker_round redis json st (s, w))
  worker_round-Handled s w t ts e =
      let (b, rest, listed, read) =
        first_of (λ v. (json.unmarshal v).0) (list_at s (txt "tasks")) t ts e in
      let (s1, taken) = up.pops (txt "tasks") b rest s listed in
      let popped = pop-taken redis json s s1 b t taken read in
      let (s2, stored) = up.sets (txt "task:" ++ t.id) (status_of (process st t w).0) s1 in
      let (round, status) =
        worker_round-status redis json st list_at value_at s s1 s2 w t laws popped stored in
      subst (Handled t ts w) (sym round) (
        refl,
        status,
        set-waiting _ _ s1 s2 stored
            ∙ ap tail_of (sym (pop-waiting redis json list_at value_at s s1 t laws popped) ∙ e),
      )

  -- After one round for each task that waits, all have been processed in the order in which they
  -- waited, and the last one's status is stored as its processing went.
  pub start-Handled :
      (ts : List TaskPayload) (t : TaskPayload) (s : S) (w : W)
      → waiting_at s ≡ ts ++ t ∷ []
      → Handled t [] (processed st ts w) (start redis json st (rounds_for (ts ++ t ∷ [])) (s, w))
  unfolding start
  start-Handled [] t s w e = worker_round-Handled s w t [] e
  start-Handled (u ∷ ts) t s w e =
      let next = worker_round redis json st (s, w) in
      let (became, _, left) = worker_round-Handled s w u (ts ++ t ∷ []) e in
      subst
        (λ x.
          Handled t [] (processed st ts x) (start redis json st (rounds_for (ts ++ t ∷ [])) next))
        became (start-Handled ts t next.0 next.1 left)
