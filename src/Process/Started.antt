-- ===== src/Process/Started.antt =====
-- The servers behind what the process of cmd/file-engine/main.go serves.
use file_server_management.Prelude.{ℕ, ◌≡◌, ap, ◌∙◌, Bool, Result, ok, err, chained}
use file_server_management.Text.{Text}
use file_server_management.Auth.Jwt.{X509, JwtLibrary}
use file_server_management.Auth.Postgres.{Db, PermissionJson}
use file_server_management.Gate.{Context}
use file_server_management.Storage.{Backend}
use file_server_management.Server.{ObjectStorage}
use file_server_management.Server.Root.{RootReply}
use file_server_management.Server.Listen.{
  StoreChoice, Network, FileEngineServer, GrpcService, grpc_start, http_start,
}
use file_server_management.Config.{Servers, load_from_env}
use file_server_management.Config.Start.{IsBuilt, servers-load_from_env}
use file_server_management.Process.{MainError, file_engine_main}
use file_server_management.Process.Granted.{or_exit-ok}

module _ {K S W A B G : Type 0} (x : X509 K) (lib : JwtLibrary K) (json : PermissionJson)
    (db : Text → Db S) (fuel : ℕ) (net : Network) (connected : Bool) (pool : Text → Bool)
    (storage : Backend → ObjectStorage W) (gateway : Text → Context → G)
    (handler : Backend → StoreChoice → FileEngineServer A B) (env : Text → Text) where
  abbrev pub HttpHandler : Type 0
  HttpHandler = S → Context → (path header query : Text) → W → RootReply G

  -- The servers behind what the process serves.
  pub started_servers :
      (grpc : GrpcService S A B) (http : HttpHandler)
      → file_engine_main x lib json db fuel net connected pool storage gateway handler env
        ≡ ok (grpc, http)
      → (s : Servers K) × IsBuilt x connected (load_from_env env) s
        × (http_start lib json db fuel net s.http storage gateway ≡ ok http)
        × (grpc_start lib json db fuel net s.grpc (handler s.http.storage s.grpc.acl_store)
            ≡ ok grpc)
  unfolding file_engine_main
  started_servers grpc http e =
      let (s, made, more) = chained _ _ e in
      let (h, http_up, rest) = chained _ _ more in
      let (g, grpc_up, both) = chained _ _ rest in
      let same : (g, h) ≡ (grpc, http) = ap (serving grpc http) both in
      (
        s,
        servers-load_from_env x connected pool env s (or_exit-ok _ _ s made),
        or_exit-ok _ _ h http_up ∙ ap (λ p. ok p.1) same,
        or_exit-ok _ _ g grpc_up ∙ ap (λ p. ok p.0) same,
      )
    where
      serving :
          GrpcService S A B
          → HttpHandler
          → Result MainError (GrpcService S A B × HttpHandler)
          → GrpcService S A B × HttpHandler
      serving g h (ok p) = p
      serving g h (err _) = (g, h)
