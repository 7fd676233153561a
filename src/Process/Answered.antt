-- ===== src/Process/Answered.antt =====
-- What the process of cmd/file-engine/main.go answers to its clients, from the environment on.
use file_server_management.Prelude.{
  ℕ, ◌+◌, ◌<◌, ◌≡◌, refl, sym, subst, ◌∙◌, Bool, true, List, some, ok, length,
}
use file_server_management.Text.{Text}
use file_server_management.FilePath.{is_abs}
use file_server_management.Auth.{AuthContext, perm_read}
use file_server_management.Auth.Jwt.{
  SigningMethod, Claims, Key, X509, JwtLibrary, parse_auth_context,
}
use file_server_management.Auth.Jwt.Accepted.{ChecksSignature}
use file_server_management.Auth.Postgres.{Row, Db, PermissionJson}
use file_server_management.Auth.Postgres.Rows.{IsTable}
use file_server_management.Authz.{Request}
use file_server_management.Gate.{Context, replied, with_auth_context}
use file_server_management.Gate.Total.{request_text}
use file_server_management.Gate.Unary.{unary_chain-replied}
use file_server_management.Storage.{Backend, new_from_config}
use file_server_management.Server.{Read, ObjectStorage, content}
use file_server_management.Server.Root.{RootReply, downloaded}
use file_server_management.Server.Root.Earned.{root_handler-IsEarned, IsEarned}
use file_server_management.Server.Listen.{
  StoreChoice, postgres_pool, Network, FileEngineServer, GrpcService, store_at,
}
use file_server_management.Config.{load_from_env, factory_config}
use file_server_management.Process.{file_engine_main}
use file_server_management.Server.Listen.Serves.{grpc_start-unary, http_start-serves}
use file_server_management.Process.Started.{started_servers}
use file_server_management.Process.Granted.{
  IsIdentified, IsFirstValue, parsed-IsIdentified, IsGranted, can_access-IsGranted, MayCall,
  authorized-MayCall,
}

module _ {K S W A B G : Type 0} (x : X509 K) (lib : JwtLibrary K) (json : PermissionJson)
    (db : Text → Db S) (fuel : ℕ) (net : Network) (connected : Bool) (pool : Text → Bool)
    (storage : Backend → ObjectStorage W) (gateway : Text → Context → G)
    (handler : Backend → StoreChoice → FileEngineServer A B) (env : Text → Text) where
  module _ (Signed : SigningMethod → Key K → Text → Claims → Type 0) (table : S → List Row) where
    -- Whoever is named by the first value of the call's metadata, signed with a key of the
    -- environment, may make the call.
    pub record IsEarnedCall (laws : IsTable (db (load_from_env env).postgres_dsn) table)
        (full_method : Text) (ctx : Context) (req : Request) (s : S) (a : AuthContext)
        : Type 0 where
      pub header : Text
      pub sent : IsFirstValue ctx header
      pub identified : IsIdentified x Signed (load_from_env env) header a
      pub allowed : MayCall json db (load_from_env env).postgres_dsn table laws full_method a req s

    -- In a process that has started, whatever its environment: if the JWT library checks
    -- signatures, Postgres keeps a table of rows and the fuel is enough, a unary call that is not
    -- rejected carries a token that is signed with the secret or the public key of the environment;
    -- a row of the table in the environment's database, or a role, gives the caller of that token
    -- the method's permission on the path of the request, if it has one; and the answer is that of
    -- the handler with the environment's storage and database to that caller.
    pub file_engine_main-IsEarnedCall :
        (laws : IsTable (db (load_from_env env).postgres_dsn) table) (grpc : GrpcService S A B)
        (http : S → Context → (path header query : Text) → W → RootReply G) (s : S)
        (full_method : Text) (ctx : Context) (req : Request) (y : A)
        → ChecksSignature lib Signed
        → file_engine_main x lib json db fuel net connected pool storage gateway handler env
          ≡ ok (grpc, http)
        → length (request_text req) + 2 < fuel
        → grpc.unary s full_method ctx req ≡ replied y
        → (a : AuthContext) × IsEarnedCall laws full_method ctx req s a
          × ((st : Backend) × (new_from_config connected (factory_config (load_from_env env))
                ≡ ok st)
              × ((handler st (postgres_pool (load_from_env env).postgres_dsn)).unary
                    (with_auth_context ctx a)
                    req
                  ≡ y))
    file_engine_main-IsEarnedCall laws grpc http s full_method ctx req y signing e enough h =
        let c = load_from_env env in
        let (ss, built, _, grpc_up) =
          started_servers x lib json db fuel net connected pool storage gateway handler env grpc
            http e in
        let served =
          grpc_start-unary lib json db fuel net ss.grpc (handler ss.http.storage ss.grpc.acl_store)
            grpc grpc_up s full_method ctx req in
        let (a, valid, allowed, answer) =
          unary_chain-replied (parse_auth_context lib ss.grpc.verifier) fuel
            (store_at json db ss.grpc.acl_store s) full_method
            (handler ss.http.storage ss.grpc.acl_store).unary ctx req y (sym served ∙ h) in
        (
          a,
          record {
            header = valid.header;
            sent = record {
              get = valid.get;
              metadata = valid.metadata;
              others = valid.others;
              values = valid.values;
            };
            identified =
                parsed-IsIdentified x lib Signed signing connected c ss built ss.grpc.verifier
                  valid.header a refl valid.parsed;
            allowed =
                authorized-MayCall json db c.postgres_dsn table laws fuel ss.grpc.acl_store
                  full_method a req s built.grpc_store enough allowed;
          },
          (
            ss.http.storage,
            built.storage,
            subst
                (λ choice. (handler ss.http.storage choice).unary (with_auth_context ctx a) req ≡ y)
                built.grpc_store answer,
          ),
        )

    -- In a process that has started, whatever its environment: if the JWT library checks
    -- signatures, Postgres keeps a table of rows and the fuel is enough, content for a path that
    -- begins with a slash is served only to the caller of a token that is signed with the secret or
    -- the public key of the environment, to whom a row of the table or a role gives the permission
    -- to read the path, and it is what the storage holds there that the environment configures.
    pub file_engine_main-download :
        (laws : IsTable (db (load_from_env env).postgres_dsn) table) (grpc : GrpcService S A B)
        (http : S → Context → (path header query : Text) → W → RootReply G) (s : S) (ctx : Context)
        (path header query : Text) (w : W) (reads : List Read)
        → ChecksSignature lib Signed
        → file_engine_main x lib json db fuel net connected pool storage gateway handler env
          ≡ ok (grpc, http)
        → is_abs query ≡ true
        → length query + 1 < fuel
        → http s ctx path header query w ≡ downloaded (content reads)
        → (a : AuthContext) × IsIdentified x Signed (load_from_env env) header a
          × IsGranted json db (load_from_env env).postgres_dsn table laws a perm_read query s
          × ((st : Backend) × (new_from_config connected (factory_config (load_from_env env))
                ≡ ok st)
              × ((storage st).open_reader query w ≡ some reads))
    file_engine_main-download laws grpc http s ctx path header query w reads signing e rooted enough
          h =
        let c = load_from_env env in
        let (ss, built, http_up, _) =
          started_servers x lib json db fuel net connected pool storage gateway handler env grpc
            http e in
        let parse = parse_auth_context lib ss.http.verifier in
        let store = store_at json db ss.http.acl_store s in
        let st = storage ss.http.storage in
        let gate = gateway ss.http.grpc_addr in
        let served =
          http_start-serves lib json db fuel net storage gateway ss.http http s ctx path header
            query w http_up in
        let earned = root_handler-IsEarned parse fuel store st gate ctx header query w path in
        let (a, valid, (allowed, opened)) =
          subst (λ r. IsEarned parse fuel store st gate ctx header query w r) (sym served ∙ h)
            earned in
        (
          a,
          parsed-IsIdentified x lib Signed signing connected c ss built ss.http.verifier header a
              built.http_verifier valid,
          can_access-IsGranted json db c.postgres_dsn table laws fuel ss.http.acl_store a perm_read
              query s built.http_store rooted enough allowed,
          (ss.http.storage, built.storage, opened),
        )
