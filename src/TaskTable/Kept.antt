-- ===== src/TaskTable/Kept.antt =====
-- Tasks stay in the table of cmd/main.go.
use file_server_management.Prelude.{
  ◌≡◌, ◌≢◌, ◌⊎◌, inl, inr, refl, ◌||◌, List, [], ◌∷◌, ◌++◌, some, arith, All, drop, sym, ap, ◌∙◌,
  Bool-cases, Option-cases,
}
use file_server_management.Text.{Text, txt, text_eq, text_eq_iff}
use file_server_management.TaskTable.{
  Task, Tasks, put_task, CreateFolderResp, Decoders, Clock, Response, folder_accepted, task_found,
  queued_task, add_task, Call, handle_task_status, handle_create_folder, handle_uploads_complete,
  route, run,
}

put_task-elsewhere :
    (tasks : Tasks) (k : Text) (u : Task) (x : Text) → k ≢ x → put_task tasks k u x ≡ tasks x
unfolding put_task
put_task-elsewhere tasks k u x h = ground (arith, text_eq_iff x k)

put_task-same : (tasks : Tasks) (k : Text) (u : Task) → put_task tasks k u k ≡ some u
unfolding put_task
put_task-same tasks k u = ground (arith, text_eq_iff k k)

-- A handler leaves the table or adds one queued task, under the id of its time.
abbrev pub Adds : Clock → Tasks → Tasks → Type 0
Adds c tasks later = (later ≡ tasks) ⊎ ((message : Text) × (later ≡ add_task c message tasks))

module _ (json : Decoders) where
  handle_create_folder-Adds :
      (body : Text) (c : Clock) (tasks : Tasks)
      → Adds c tasks (handle_create_folder json body c tasks).1
  unfolding handle_create_folder
  handle_create_folder-Adds body c tasks = elim (Option-cases (json.create_folder_req body)) [
    | inl bad ↦ inl (rw (bad, handle_create_folder) refl)
    | inr (req, decoded) ↦ elim (Bool-cases (text_eq req.parent_path [] || text_eq req.name [])) [
      | inl empty ↦ inl (rw (decoded, handle_create_folder, empty) refl)
      | inr full ↦
          inr (txt "Task queued for folder creation", rw (decoded, handle_create_folder, full) refl)
    ]
  ]

  handle_uploads_complete-Adds :
      (body : Text) (c : Clock) (tasks : Tasks)
      → Adds c tasks (handle_uploads_complete json body c tasks).1
  unfolding handle_uploads_complete
  handle_uploads_complete-Adds body c tasks = elim (Option-cases (json.upload_complete_req body)) [
    | inl bad ↦ inl (rw (bad, handle_uploads_complete) refl)
    | inr (req, decoded) ↦ elim (Bool-cases (text_eq req.upload_id [])) [
      | inl empty ↦ inl (rw (decoded, handle_uploads_complete, empty) refl)
      | inr full ↦ inr (
        txt "Arquivo recebido e enviado para scan",
        rw (decoded, handle_uploads_complete, full) refl,
      )
    ]
  ]

  route-Adds : (call : Call) (c : Clock) (tasks : Tasks) → Adds c tasks (route json call c tasks).1
  unfolding route
  route-Adds Call.health c tasks = inl refl
  route-Adds (Call.create_folder body) c tasks = handle_create_folder-Adds body c tasks
  route-Adds (Call.uploads_initiate body) c tasks = inl refl
  route-Adds (Call.uploads_complete body) c tasks = handle_uploads_complete-Adds body c tasks
  route-Adds (Call.task_status id) c tasks = inl refl

  task_id-injective : (s t : Text) → txt "task-" ++ s ≡ txt "task-" ++ t → s ≡ t
  task_id-injective s t e = ap (drop 5) e

  Adds-elsewhere :
      (c : Clock) (tasks later : Tasks) (id : Text)
      → Adds c tasks later
      → txt "task-" ++ c.stamp ≢ id
      → later id ≡ tasks id
  unfolding put_task
  Adds-elsewhere c tasks later id (inl same) h = ap (λ (m : Tasks). m id) same
  Adds-elsewhere c tasks later id (inr (message, added)) h =
      ap (λ (m : Tasks). m id) added ∙ put_task-elsewhere tasks _ (queued_task c message) id h

  run-elsewhere :
      (calls : List (Call × Clock)) (tasks : Tasks) (id : Text)
      → All (λ (call : Call × Clock). txt "task-" ++ call.1.stamp ≢ id) calls
      → run json calls tasks id ≡ tasks id
  unfolding run
  run-elsewhere [] tasks id h = refl
  run-elsewhere ((call, c) ∷ later) tasks id h =
      run-elsewhere later (route json call c tasks).1 id h.1
      ∙ Adds-elsewhere c tasks _ id (route-Adds call c tasks) h.0

  abbrev id_of : Response → Text
  id_of (folder_accepted resp) = resp.task_id
  id_of _ = []

  -- What a folder's task is after its request was accepted.
  abbrev FolderTask : Clock → CreateFolderResp → Tasks → Type 0
  FolderTask c resp tasks =
      (resp.task_id ≡ txt "task-" ++ c.stamp)
      × (tasks resp.task_id ≡ some (queued_task c (txt "Task queued for folder creation")))

  handle_create_folder-FolderTask :
      (body : Text) (c : Clock) (tasks next : Tasks) (resp : CreateFolderResp)
      → handle_create_folder json body c tasks ≡ (folder_accepted resp, next)
      → FolderTask c resp next
  unfolding handle_create_folder
  handle_create_folder-FolderTask body c tasks next resp e =
      elim (Option-cases (json.create_folder_req body)) [
        | inl bad ↦ absurd (cc (rw (bad, handle_create_folder) at e))
        | inr (req, decoded) ↦
            elim (Bool-cases (text_eq req.parent_path [] || text_eq req.name [])) [
              | inl empty ↦ absurd (cc (rw (decoded, handle_create_folder, empty) at e))
              | inr full ↦
                  let made = rw (decoded, handle_create_folder, full) at e in
                  let named = ap (λ (r : Response × Tasks). id_of r.0) made in
                  let k = txt "task-" ++ c.stamp in
                  let task = queued_task c (txt "Task queued for folder creation") in
                  (
                    sym named,
                    ap next (sym named)
                        ∙ ap (λ (r : Response × Tasks). r.1 k) (sym made)
                        ∙ put_task-same tasks k task,
                  )
            ]
      ]

  apart_ids :
      (c : Clock) (id : Text) (later : List (Call × Clock))
      → id ≡ txt "task-" ++ c.stamp
      → All (λ (call : Call × Clock). call.1.stamp ≢ c.stamp) later
      → All (λ (call : Call × Clock). txt "task-" ++ call.1.stamp ≢ id) later
  apart_ids c id [] named h = tt
  apart_ids c id ((call, d) ∷ later) named h =
      (λ e. h.0 (task_id-injective d.stamp c.stamp (e ∙ named)), apart_ids c id later named h.1)

  -- A folder request that is accepted gets an id under which its task is found, queued and with
  -- the request's time, after any further requests that come at other times.
  pub handle_task_status-handle_create_folder :
      (body : Text) (c : Clock) (tasks next : Tasks) (resp : CreateFolderResp)
      (later : List (Call × Clock))
      → handle_create_folder json body c tasks ≡ (folder_accepted resp, next)
      → All (λ (call : Call × Clock). call.1.stamp ≢ c.stamp) later
      → handle_task_status resp.task_id (run json later next)
        ≡ task_found (queued_task c (txt "Task queued for folder creation"))
  unfolding handle_task_status
  handle_task_status-handle_create_folder body c tasks next resp later accepted apart =
      let (named, found) = handle_create_folder-FolderTask body c tasks next resp accepted in
      rw (run-elsewhere later next resp.task_id (apart_ids c resp.task_id later named apart), found)
        refl
