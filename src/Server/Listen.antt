-- ===== src/Server/Listen.antt =====
-- The two servers of internal/server/server.go, and what each of them serves once it listens. The
-- network, the gateway and the storage are parameters.
pub mod Serves
use file_server_management.Prelude.{ℕ, Bool, not, Option, Result, ok, err, if◌then◌else◌}
use file_server_management.Text.{Text}
use file_server_management.Auth.{AclStore, in_memory, new_in_memory_acl_store}
use file_server_management.Auth.Jwt.{JwtVerifier, JwtLibrary, parse_auth_context}
use file_server_management.Auth.Postgres.{Db, PermissionJson, postgres_store}
use file_server_management.Authz.{Request}
use file_server_management.Gate.{Context, Reply, unary_chain}
use file_server_management.Gate.Stream.{AuthzServerStream, stream_chain}
use file_server_management.Storage.{Backend}
use file_server_management.Server.{ObjectStorage}
use file_server_management.Server.Root.{RootReply, root_handler}

-- Which store of entries a server holds: the pool of a data source, or the empty one in memory.
pub data StoreChoice : Type 0 where
  postgres_pool : (dsn : Text) → StoreChoice
  memory : StoreChoice

-- `GRPCServer`, but for the logger and the handler
pub record GrpcServer (K : Type 0) : Type 0 where
  pub addr : Text
  pub verifier : JwtVerifier K
  pub acl_store : StoreChoice

-- `HTTPServer`, but for the logger
pub record HttpServer (K : Type 0) : Type 0 where
  pub addr : Text
  pub grpc_addr : Text
  pub verifier : JwtVerifier K
  pub storage : Backend
  pub acl_store : StoreChoice

module _ {K : Type 0} where
  -- `NewGRPCServer`
  unfoldable pub new_grpc_server : (addr : Text) → JwtVerifier K → StoreChoice → GrpcServer K
  new_grpc_server addr verifier store = record {
    addr = addr;
    verifier = verifier;
    acl_store = store;
  }

  -- `NewHTTPServer`
  unfoldable pub new_http_server :
      (addr grpc_addr : Text) → JwtVerifier K → Backend → StoreChoice → HttpServer K
  new_http_server addr grpc_addr verifier st store = record {
    addr = addr;
    grpc_addr = grpc_addr;
    verifier = verifier;
    storage = st;
    acl_store = store;
  }

-- The errors that `Start` wraps, and that of listening.
pub data ServeError : Type 0 where
  listen_failed dial_failed register_failed : ServeError

-- The network: whether a server can listen on an address, whether the gateway can dial one, and
-- whether its handlers can be registered.
pub record Network : Type 0 where
  pub listens : Text → Bool
  pub dials : Text → Bool
  pub registers : Bool

-- The handler of the service: its unary methods, and those that answer with a stream.
pub record FileEngineServer (A B : Type 0) : Type 0 where
  pub unary : Context → Request → A
  pub stream : Context → Option AuthzServerStream → B

-- What the gRPC server answers to a call of a method, with the database in a state of `S`.
pub record GrpcService (S A B : Type 0) : Type 0 where
  pub unary : S → (full_method : Text) → Context → Request → Reply A
  pub stream : S → (full_method : Text) → Context → Reply B

module _ {S : Type 0} (json : PermissionJson) (db : Text → Db S) where
  -- A store of entries as CanAccess reads it, with the database in the state `s`.
  unfoldable pub store_at : StoreChoice → S → AclStore
  store_at (postgres_pool dsn) s = postgres_store json (db dsn) s
  store_at memory s = in_memory new_in_memory_acl_store

module _ {K S : Type 0} (lib : JwtLibrary K) (json : PermissionJson) (db : Text → Db S) (fuel : ℕ)
    (net : Network) where
  -- `Start` of the gRPC server: what `srv.Serve` serves
  unfoldable pub grpc_start :
      {A B : Type 0} → GrpcServer K → FileEngineServer A B → Result ServeError (GrpcService S A B)
  grpc_start g handler =
      if not (net.listens g.addr)
      then err listen_failed
      else ok (record {
        unary = λ s full_method ctx req.
            unary_chain (parse_auth_context lib g.verifier) fuel (store_at json db g.acl_store s)
              full_method handler.unary ctx req;
        stream = λ s full_method ctx.
            stream_chain (parse_auth_context lib g.verifier) (store_at json db g.acl_store s)
              full_method handler.stream ctx;
      })

  -- `Start` of the HTTP server: what `srv.ListenAndServe` serves. `gateway` forwards to the gRPC
  -- server at an address.
  unfoldable pub http_start :
      {W A : Type 0}
      → HttpServer K
      → (Backend → ObjectStorage W)
      → (gateway : Text → Context → A)
      → Result ServeError (S → Context → (path header query : Text) → W → RootReply A)
  http_start h storage gateway =
      if not (net.dials h.grpc_addr)
      then err dial_failed
      else (if not net.registers
          then err register_failed
          else (if not (net.listens h.addr)
              then err listen_failed
              else ok (λ s ctx path header query w.
                root_handler (parse_auth_context lib h.verifier) fuel
                  (store_at json db h.acl_store s) (storage h.storage) (gateway h.grpc_addr) ctx
                  path header query w)))
