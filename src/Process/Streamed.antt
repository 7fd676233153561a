-- ===== src/Process/Streamed.antt =====
-- What the process of cmd/file-engine/main.go streams to the callers of DownloadObject.
use file_server_management.Prelude.{
  ℕ, ◌+◌, ◌<◌, ◌≡◌, inl, inr, refl, sym, ap, ◌∙◌, Bool, true, false, List, Option, none, some, ok,
  Option-cases, length, arith,
}
use file_server_management.Text.{Text}
use file_server_management.Auth.{AuthContext, AclStore, perm_read}
use file_server_management.Auth.Jwt.{
  SigningMethod, Claims, Key, X509, JwtLibrary, parse_auth_context,
}
use file_server_management.Auth.Jwt.Accepted.{ChecksSignature}
use file_server_management.Auth.Postgres.{Row, Db, PermissionJson}
use file_server_management.Auth.Postgres.Rows.{IsTable}
use file_server_management.Auth.Resolver.{can_access}
use file_server_management.Authz.{Request, download_object}
use file_server_management.Authz.Normalize.{normal_form}
use file_server_management.Gate.{
  Rejection, missing_metadata, missing_authorization, invalid_token, Context, replied,
  with_auth_context, from_context,
}
use file_server_management.Gate.Stream.{
  AuthzServerStream, Received, message, refused, stream_error, stuck, recv_msg,
  stream_chain-replied,
}
use file_server_management.Gate.Total.{extract_path-eq, request_path-IsRooted}
use file_server_management.Storage.{Backend, new_from_config}
use file_server_management.Queue.{Redis, Json}
use file_server_management.Server.{
  Bytes, Read, Ending, ObjectStorage, DownloadReply, streamed, opened_if, stream_reads,
  with_delivery, download_loop, download_object_handler,
}
use file_server_management.Server.Root.{RootReply}
use file_server_management.Server.Listen.{Network, GrpcService, store_at}
use file_server_management.Server.Listen.Serves.{grpc_start-stream}
use file_server_management.Config.{load_from_env, factory_config}
use file_server_management.Process.{
  RpcReply, file_engine_main, new_grpc_handler, service_handler, unless_refused, received_by,
}
use file_server_management.Process.Started.{started_servers}
use file_server_management.Process.Granted.{
  IsIdentified, IsFirstValue, parsed-IsIdentified, IsGranted, can_access-IsGranted,
}

module _ {W : Type 0} (storage : ObjectStorage W) (fuel : ℕ) (store : AclStore)
    (delivers : ℕ → Bool) where
  -- Bytes are streamed of what the storage holds, and only to a caller who may read.
  abbrev Streams : (path : Text) → W → List Bytes × Ending → Type 0
  Streams path w out =
      (reads : List Read) × (storage.open_reader path w ≡ some reads)
      × (out ≡ download_loop (with_delivery delivers 0 reads))

  opened_only :
      (d : Option Bool) (path : Text) (w : W) (out : List Bytes × Ending)
      → opened_if storage d (stream_reads storage delivers (storage.open_reader path w))
        ≡ streamed out
      → (d ≡ some true) × Streams path w out
  opened_only none path w out e = absurd (cc e)
  opened_only (some false) path w out e = absurd (cc e)
  opened_only (some true) path w out e = elim (Option-cases (storage.open_reader path w)) [
    | inl missing ↦ absurd (cc (rw missing at e))
    | inr (reads, opened) ↦ (refl, (reads, opened, sym (ap (sent out) (rw opened at e))))
  ]
    where
      sent : List Bytes × Ending → DownloadReply → List Bytes × Ending
      sent d (streamed r) = r
      sent d _ = d

  -- Bytes come behind a guard that has let the request pass.
  passed :
      (guard : Option AuthzServerStream) (req : Request) (next : DownloadReply)
      (out : List Bytes × Ending)
      → received_by fuel guard req next ≡ streamed out
      → next ≡ streamed out
  passed none req next out e = e
  passed (some guard) req next out e = by_message (recv_msg fuel guard (some req)).0 e
    where
      by_message : (r : Received) → unless_refused r next ≡ streamed out → next ≡ streamed out
      by_message (message m) q = q
      by_message (refused missing_metadata) q = absurd (cc q)
      by_message (refused missing_authorization) q = absurd (cc q)
      by_message (refused invalid_token) q = absurd (cc q)
      by_message (refused Rejection.missing_auth_context) q = absurd (cc q)
      by_message (refused Rejection.cannot_extract_path) q = absurd (cc q)
      by_message (refused Rejection.access_denied) q = absurd (cc q)
      by_message stream_error q = absurd (cc q)
      by_message stuck q = absurd (cc q)

  -- What DownloadObject streams.
  download_object_handler-streamed :
      (ctx : Context) (a : AuthContext) (path : Text) (w : W) (out : List Bytes × Ending)
      → from_context ctx ≡ some a
      → length path + 1 < fuel
      → download_object_handler storage fuel store delivers ctx path w ≡ streamed out
      → (can_access fuel a (normal_form path) perm_read store ≡ some true) × Streams path w out
  unfolding download_object_handler
  download_object_handler-streamed ctx a path w out known enough e =
      opened_only (can_access fuel a (normal_form path) perm_read store) path w out (
        rw (known, download_object_handler, extract_path-eq fuel (download_object path) enough) at
          e)

module _ {K S W Q G : Type 0} (x : X509 K) (lib : JwtLibrary K) (json : PermissionJson)
    (db : Text → Db S) (fuel : ℕ) (net : Network) (connected : Bool) (pool : Text → Bool)
    (storage : Backend → ObjectStorage W) (gateway : Text → Context → G) (redis : Redis Q)
    (encoding : Json) (delivers : ℕ → Bool) (env : Text → Text)
    (Signed : SigningMethod → Key K → Text → Claims → Type 0) (table : S → List Row) where
  abbrev pub UnaryAnswer : Type 0
  UnaryAnswer = Text → Q × W → RpcReply × (Q × W)

  abbrev pub StreamAnswer : Type 0
  StreamAnswer = S → Text → W → DownloadReply

  -- In a process that has started, whatever its environment: if the JWT library checks signatures,
  -- Postgres keeps a table of rows and the fuel is enough, DownloadObject streams bytes only to a
  -- caller whose token is signed with the secret or the public key of the environment, to whom a
  -- row of the table or a role gives the permission to read the normalised path; and they are those
  -- of the file that the storage of the environment opens under the path, as far as they can be
  -- delivered.
  pub file_engine_main-streamed :
      (laws : IsTable (db (load_from_env env).postgres_dsn) table)
      (grpc : GrpcService S UnaryAnswer StreamAnswer)
      (http : S → Context → (path header query : Text) → W → RootReply G) (s : S)
      (full_method : Text) (ctx : Context) (answer : StreamAnswer) (path : Text) (w : W)
      (out : List Bytes × Ending)
      → ChecksSignature lib Signed
      → file_engine_main x lib json db fuel net connected pool storage gateway
          (service_handler redis encoding storage json db fuel delivers)
          env
        ≡ ok (grpc, http)
      → length path + 2 < fuel
      → grpc.stream s full_method ctx ≡ replied answer
      → answer s path w ≡ streamed out
      → (a : AuthContext) × (header : Text) × IsFirstValue ctx header
        × IsIdentified x Signed (load_from_env env) header a
        × IsGranted json db
            (load_from_env env).postgres_dsn
            table
            laws
            a
            perm_read
            (normal_form path)
            s
        × ((st : Backend) × (new_from_config connected (factory_config (load_from_env env)) ≡ ok st)
            × ((reads : List Read) × ((storage st).open_reader path w ≡ some reads)
                × (out ≡ download_loop (with_delivery delivers 0 reads))))
  unfolding service_handler new_grpc_handler from_context with_auth_context
  file_engine_main-streamed laws grpc http s full_method ctx answer path w out signing e enough
        called sent =
      let c = load_from_env env in
      let handler = service_handler redis encoding storage json db fuel delivers in
      let (ss, built, _, grpc_up) =
        started_servers x lib json db fuel net connected pool storage gateway handler env grpc http
          e in
      let here = handler ss.http.storage ss.grpc.acl_store in
      let store = store_at json db ss.grpc.acl_store s in
      let served =
        grpc_start-stream lib json db fuel net ss.grpc here grpc grpc_up s full_method ctx in
      let (a, valid, ran) =
        stream_chain-replied (parse_auth_context lib ss.grpc.verifier) store full_method here.stream
          ctx answer (sym served ∙ called) in
      let (allowed, opened) =
        download_object_handler-streamed (storage ss.http.storage) fuel store delivers
          (with_auth_context ctx a) a path w out refl (omega (arith, enough))
          (passed (storage ss.http.storage) fuel store delivers _ (download_object path) _ out
            (ap (λ f. f s path w) ran ∙ sent)) in
      let r = request_path-IsRooted (download_object path) (normal_form path) refl in
      (
        a,
        valid.header,
        record {
          get = valid.get;
          metadata = valid.metadata;
          others = valid.others;
          values = valid.values;
        },
        parsed-IsIdentified x lib Signed signing connected c ss built ss.grpc.verifier valid.header
            a refl valid.parsed,
        can_access-IsGranted json db c.postgres_dsn table laws fuel ss.grpc.acl_store a perm_read
            (normal_form path) s built.grpc_store r.abs (omega (arith, r.short, enough)) allowed,
        (ss.http.storage, built.storage, opened),
      )
