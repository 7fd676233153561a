-- ===== src/Server/Listen/Serves.antt =====
-- What the two servers of internal/server/server.go serve, if they listen.
use file_server_management.Prelude.{ℕ, ◌≡◌, sym, ap, Result, ok, err, Bool-cases, inl, inr}
use file_server_management.Text.{Text}
use file_server_management.Auth.Jwt.{JwtLibrary, parse_auth_context}
use file_server_management.Auth.Postgres.{Db, PermissionJson}
use file_server_management.Authz.{Request}
use file_server_management.Gate.{Context, unary_chain}
use file_server_management.Gate.Stream.{stream_chain}
use file_server_management.Server.{ObjectStorage}
use file_server_management.Server.Listen.{
  Network, ServeError, GrpcServer, FileEngineServer, GrpcService, store_at, grpc_start, HttpServer,
  http_start,
}
use file_server_management.Storage.{Backend}
use file_server_management.Server.Root.{RootReply, root_handler}

module _ {K S : Type 0} (lib : JwtLibrary K) (json : PermissionJson) (db : Text → Db S) (fuel : ℕ)
    (net : Network) where
  module _ {A B : Type 0} (g : GrpcServer K) (handler : FileEngineServer A B)
      (service : GrpcService S A B)
      (started : grpc_start lib json db fuel net g handler ≡ ok service) where
    abbrev served_or : GrpcService S A B → Result ServeError (GrpcService S A B) → GrpcService S A B
    served_or d (ok served) = served
    served_or d (err _) = d

    -- What a server that listens serves: the handler behind the two chains.
    abbrev behind_chains : GrpcService S A B
    behind_chains = record {
      unary = λ s full_method ctx req.
          unary_chain (parse_auth_context lib g.verifier) fuel (store_at json db g.acl_store s)
            full_method handler.unary ctx req;
      stream = λ s full_method ctx.
          stream_chain (parse_auth_context lib g.verifier) (store_at json db g.acl_store s)
            full_method handler.stream ctx;
    }

    grpc_start-chains : service ≡ behind_chains
    unfolding grpc_start
    grpc_start-chains = elim (Bool-cases (net.listens g.addr)) [
      | inr deaf ↦ absurd (cc (rw (deaf, grpc_start) at started))
      | inl listening ↦ sym (ap (served_or service) (rw (listening, grpc_start) at started))
    ]

    pub grpc_start-unary :
        (s : S) (full_method : Text) (ctx : Context) (req : Request)
        → service.unary s full_method ctx req
          ≡ unary_chain
              (parse_auth_context lib g.verifier)
              fuel
              (store_at json db g.acl_store s)
              full_method
              handler.unary
              ctx
              req
    grpc_start-unary s full_method ctx req =
        ap (λ t. t.unary s full_method ctx req) grpc_start-chains

    pub grpc_start-stream :
        (s : S) (full_method : Text) (ctx : Context)
        → service.stream s full_method ctx
          ≡ stream_chain
              (parse_auth_context lib g.verifier)
              (store_at json db g.acl_store s)
              full_method
              handler.stream
              ctx
    grpc_start-stream s full_method ctx = ap (λ t. t.stream s full_method ctx) grpc_start-chains

  module _ {W G : Type 0} (storage : Backend → ObjectStorage W) (gateway : Text → Context → G) where
    abbrev HttpHandler : Type 0
    HttpHandler = S → Context → (path header query : Text) → W → RootReply G

    -- What an HTTP server that listens serves.
    pub http_start-serves :
        (h : HttpServer K) (http : HttpHandler) (s : S) (ctx : Context) (path header query : Text)
        (w : W)
        → http_start lib json db fuel net h storage gateway ≡ ok http
        → http s ctx path header query w
          ≡ root_handler
              (parse_auth_context lib h.verifier)
              fuel
              (store_at json db h.acl_store s)
              (storage h.storage)
              (gateway h.grpc_addr)
              ctx
              path
              header
              query
              w
    unfolding http_start
    http_start-serves h http s ctx path header query w e =
        elim (Bool-cases (net.dials h.grpc_addr)) [
          | inr no_gateway ↦ absurd (cc (rw (no_gateway, http_start) at e))
          | inl dialled ↦ elim (Bool-cases net.registers) [
            | inr unregistered ↦ absurd (cc (rw (dialled, http_start, unregistered) at e))
            | inl registered ↦ elim (Bool-cases (net.listens h.addr)) [
              | inr deaf ↦ absurd (cc (rw (dialled, http_start, registered, deaf) at e))
              | inl listening ↦
                  sym (ap served (rw (dialled, http_start, registered, listening) at e))
            ]
          ]
        ]
      where
        served : Result ServeError HttpHandler → RootReply G
        served (ok f) = f s ctx path header query w
        served (err _) = http s ctx path header query w
