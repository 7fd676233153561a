-- ===== src/Examples/Tasks.antt =====
-- The queue over a server and an encoding that are written out.
mod Runs
mod Work
use file_server_management.Prelude.{
  zero, suc, ◌≡◌, refl, sym, ap, ◌∙◌, Bool, true, false, List, [], ◌∷◌, ◌++◌, Option, none, some,
  ok, err, if◌then◌else◌, arith,
}
use file_server_management.Text.{Text, txt, text_eq, text_eq_iff, trim_suffix}
use file_server_management.FilePath.{push_front}
use file_server_management.Queue.{
  TaskPayload, Redis, Json, Backend, Disk, create_folder_payload, enqueue, enqueue_create_folder,
  pop, process, process_create_folder, fs_process, missing_params,
}
use file_server_management.Queue.Fifo.{IsRedis, IsRoundTrip, waiting, enqueue-waiting, pop-waiting}
use file_server_management.Queue.Process.{fs_process-create_folder_payload}
use file_server_management.Queue.Worker.{start}
use file_server_management.Queue.Drained.{IsUp, rounds_for, processed}
use file_server_management.Server.{CreateFolderResponse, create_folder_handler}
use file_server_management.Server.Folder.{outcome, create_folder_handler-start}

-- A server as its lists and its values.
abbrev pub Server : Type 0
Server = (Text → List Text) × (Text → Option Text)

abbrev pub put_at : {A : Type 0} → (Text → A) → Text → A → Text → A
put_at m k v j = if text_eq j k then v else m j

abbrev pub take_first : List Text → Text → Server → Option Text × Server
take_first [] k s = (none, s)
take_first (v ∷ vs) k s = (some v, (put_at s.0 k vs, s.1))

abbrev pub server : Redis Server
server = record {
  rpush = λ k v s. (true, (put_at s.0 k (s.0 k ++ v ∷ []), s.1));
  blpop = λ k s. take_first (s.0 k) k s;
  set = λ k v s. (true, (s.0, put_at s.1 k (some v)));
}

abbrev pub list_at : Server → Text → List Text
list_at s k = s.0 k

abbrev pub value_at : Server → Text → Option Text
value_at s k = s.1 k

put_at-same : {A : Type 0} (m : Text → A) (k : Text) (v : A) → put_at m k v k ≡ v
put_at-same m k v = rw ((text_eq_iff k k).1 refl)

taken :
    (vs : List Text) (k v : Text) (s s' : Server)
    → take_first vs k s ≡ (some v, s')
    → vs ≡ v ∷ list_at s' k
taken [] k v s s' e = absurd (cc (ap (λ q. q.0) e))
taken (u ∷ us) k v s s' e =
    let head : u ≡ v = ap (λ q. elim q.0 [ none ↦ u | some x ↦ x ]) e in
    let rest : put_at s.0 k us k ≡ list_at s' k = ap (λ q. q.1.0 k) e in
    rw (head, ← rest, put_at-same)

pub server-IsRedis : IsRedis server list_at value_at
server-IsRedis = record {
  rpush_list = λ k v s s' e. sym (ap (λ q. q.1.0 k) e) ∙ put_at-same s.0 k (s.0 k ++ v ∷ []);
  blpop_list = λ k v s s' e. taken (s.0 k) k v s s' e;
  set_value = λ k v s s' e. sym (ap (λ q. q.1.1 k) e) ∙ put_at-same s.1 k (some v);
  set_lists = λ k v s s' e j. sym (ap (λ q. q.1.0 j) e);
}

-- A list of texts in one text: each code one higher, and 0 behind each text.
abbrev put : Text → Text → Text
put [] r = 0 ∷ r
put (c ∷ t) r = suc c ∷ put t r

abbrev encode : List Text → Text
encode [] = []
encode (t ∷ ts) = put t (encode ts)

abbrev decode : Text → List Text
decode [] = []
decode (zero ∷ r) = [] ∷ decode r
decode (suc c ∷ r) = push_front c (decode r)

decode-put : (t r : Text) → decode (put t r) ≡ t ∷ decode r
decode-put [] r = refl
decode-put (c ∷ t) r = rw (decode-put t r)

decode-encode : (ts : List Text) → decode (encode ts) ≡ ts
decode-encode [] = refl
decode-encode (t ∷ ts) = rw (decode-put t, decode-encode ts)

abbrev flat : List (Text × Text) → List Text
flat [] = []
flat ((k, v) ∷ m) = k ∷ v ∷ flat m

abbrev paired : List Text → List (Text × Text)
paired [] = []
paired (k ∷ []) = []
paired (k ∷ v ∷ ts) = (k, v) ∷ paired ts

paired-flat : (m : List (Text × Text)) → paired (flat m) ≡ m
paired-flat [] = refl
paired-flat ((k, v) ∷ m) = rw (paired-flat m)

abbrev build : List Text → TaskPayload × Bool
build (id ∷ kind ∷ ts) = (record { id = id; task_type = kind; params = paired ts }, true)
build _ = (record { id = []; task_type = []; params = [] }, false)

abbrev pub encoding : Json
encoding = record {
  marshal = λ p. some (encode (p.id ∷ p.task_type ∷ flat p.params));
  unmarshal = λ b. build (decode b);
}

some-text : {a b : Text} → ◌≡◌ {A = Option Text} (some a) (some b) → a ≡ b
some-text {a} e = ap (elim [ none ↦ a | some t ↦ t ]) e

pub encoding-IsRoundTrip : IsRoundTrip encoding
encoding-IsRoundTrip = record {
  round = λ p b e.
      rw (← some-text e, decode-encode (p.id ∷ p.task_type ∷ flat p.params), paired-flat p.params);
}
