-- ===== src/Process/Permitted.antt =====
-- What the calls that the gRPC server answers leave in the queue and in the storage.
use file_server_management.Prelude.{
  map, ℕ, ◌+◌, ◌<◌, ◌≡◌, refl, ap, ◌∙◌, Bool, true, false, List, [], ◌∷◌, Option, none, some,
  Result, ok, err, All, Bool-cases, inl, inr, length, if◌then◌else◌,
}
use file_server_management.Text.{Text}
use file_server_management.Auth.{AuthContext, AclStore, Permission}
use file_server_management.Auth.Jwt.{JwtError, JwtLibrary, parse_auth_context}
use file_server_management.Auth.Ancestors.{visited}
use file_server_management.Auth.Postgres.{Db, PermissionJson}
use file_server_management.Auth.Resolver.{can_access_paths}
use file_server_management.Authz.{Request, method_permission}
use file_server_management.Gate.{
  Context, Rejection, Reply, authenticate, rejected, replied, running, with_auth_context,
}
use file_server_management.Gate.Stream.{AuthzServerStream}
use file_server_management.Gate.Total.{
  request_text, request_path, decided, answer, answer_for, unary_chain-eq-answer,
}
use file_server_management.Queue.{Redis, Json}
use file_server_management.Server.{ObjectStorage}
use file_server_management.Server.Listen.{
  Network, GrpcServer, FileEngineServer, GrpcService, store_at, grpc_start,
}
use file_server_management.Server.Listen.Serves.{grpc_start-unary}
use file_server_management.Process.{
  RpcReply, method_of, handle_call, new_grpc_handler, Call, finished, serve_call, serve_all,
}

-- Whether a caller may do what a method does: it has no permission, or the caller has it on the
-- path.
abbrev pub may_call : Option Permission → Option Text → AclStore → AuthContext → Bool
may_call none path store a = true
may_call (some perm) none store a = false
may_call (some perm) (some path) store a = can_access_paths a (visited path) perm store

module _ {K S : Type 0} (lib : JwtLibrary K) (json : PermissionJson) (db : Text → Db S) (fuel : ℕ)
    (net : Network) where
  module _ (g : GrpcServer K) where
    abbrev permitted_for : AclStore → Request → Result Rejection AuthContext → Bool
    permitted_for store req (err _) = false
    permitted_for store req (ok a) =
        may_call (method_permission (method_of req)) (request_path req) store a

    -- The token of a call is accepted, and its caller may do what the call asks for.
    abbrev pub permitted : Call S → Bool
    permitted c =
        permitted_for (store_at json db g.acl_store c.at) c.req
          (authenticate (parse_auth_context lib g.verifier) c.ctx)

module _ {Q W : Type 0} (redis : Redis Q) (encoding : Json) (storage : ObjectStorage W) where
  -- What the handler answers and leaves, if a call is permitted; and else nothing at all.
  abbrev pub allowed_one : {S : Type 0} → Bool → Call S → Q × W → Option RpcReply × (Q × W)
  allowed_one allowed c qw =
      if allowed
      then (let (r, qw1) = handle_call redis encoding storage c.req c.id qw in (some r, qw1))
      else (none, qw)

  -- The same of calls one after the other, by which of them are permitted.
  abbrev pub allowed_all :
      {S : Type 0} → (Call S → Bool) → List (Call S) → Q × W → List (Option RpcReply) × (Q × W)
  allowed_all test [] qw = ([], qw)
  allowed_all test (c ∷ cs) qw =
      let (r, qw1) = allowed_one (test c) c qw in
      let (rs, qw2) = allowed_all test cs qw1 in (r ∷ rs, qw2)

  -- The handler's answer, if a reply is one.
  abbrev pub answer_of : Reply RpcReply → Option RpcReply
  answer_of (replied r) = some r
  answer_of (rejected _) = none
  answer_of running = none

  abbrev pub seen : {X : Type 0} → Reply RpcReply × X → Option RpcReply × X
  seen (r, x) = (answer_of r, x)

  module _ {K S B : Type 0} (lib : JwtLibrary K) (json : PermissionJson) (db : Text → Db S)
      (fuel : ℕ) (net : Network) (g : GrpcServer K)
      (stream : Context → Option AuthzServerStream → B)
      (service : GrpcService S (Text → Q × W → RpcReply × (Q × W)) B)
      (started : grpc_start lib json db fuel net g (new_grpc_handler redis encoding storage stream)
        ≡ ok service) where
    abbrev handler_of : FileEngineServer (Text → Q × W → RpcReply × (Q × W)) B
    handler_of = new_grpc_handler redis encoding storage stream

    seen-decided :
        (path : Option Text) (store : AclStore) (a : AuthContext) (perm : Permission) (c : Call S)
        (ctx : Context) (qw : Q × W)
        → seen (
            finished service
              (decided path store a perm (replied (handler_of.unary ctx c.req)))
              c.id
              qw)
          ≡ allowed_one (may_call (some perm) path store a) c qw
    unfolding new_grpc_handler
    seen-decided none store a perm c ctx qw = refl
    seen-decided (some path) store a perm c ctx qw =
        elim (Bool-cases (can_access_paths a (visited path) perm store)) [
          | inl granted ↦ rw granted
          | inr denied ↦ rw denied
        ]

    seen-answer_for :
        (parse : Text → Result JwtError AuthContext) (o : Option Permission) (store : AclStore)
        (a : AuthContext) (c : Call S) (qw : Q × W)
        → seen (
            finished service
              (answer_for parse fuel store (method_of c.req) handler_of.unary c.ctx c.req o a)
              c.id
              qw)
          ≡ allowed_one (may_call o (request_path c.req) store a) c qw
    unfolding new_grpc_handler
    seen-answer_for parse none store a c qw = refl
    seen-answer_for parse (some perm) store a c qw =
        seen-decided (request_path c.req) store a perm c (with_auth_context c.ctx a) qw

    -- One call is answered by its handler and leaves what that leaves if it is permitted, and else
    -- everything is as it was.
    serve_call-permitted :
        (c : Call S) (qw : Q × W)
        → length (request_text c.req) + 2 < fuel
        → seen (serve_call service c qw) ≡ allowed_one (permitted lib json db fuel net g c) c qw
    unfolding serve_call
    serve_call-permitted c qw enough =
        let parse = parse_auth_context lib g.verifier in
        let store = store_at json db g.acl_store c.at in
        let served =
          grpc_start-unary lib json db fuel net g handler_of service started c.at (method_of c.req)
            c.ctx c.req in
        let answered =
          unary_chain-eq-answer parse fuel store (method_of c.req) handler_of.unary c.ctx c.req
            enough in
        ap (λ r. seen (finished service r c.id qw)) (served ∙ answered)
        ∙ by_token parse store (authenticate parse c.ctx)
      where
        by_token :
            (parse : Text → Result JwtError AuthContext) (store : AclStore)
            (r : Result Rejection AuthContext)
            → seen (
                finished service
                  (answer parse fuel store (method_of c.req) handler_of.unary c.ctx c.req r)
                  c.id
                  qw)
              ≡ allowed_one (permitted_for lib json db fuel net g store c.req r) c qw
        by_token parse store (err x) = refl
        by_token parse store (ok a) =
            seen-answer_for parse (method_permission (method_of c.req)) store a c qw

    -- Whatever calls come in, and whoever makes them, the gRPC server, with enough fuel for each,
    -- answers them as the handler does that gets the permitted ones alone, in their order, and
    -- leaves in the queue and in the storage what that handler leaves; a call that is not permitted
    -- gets no answer of the handler.
    pub serve_all-allowed_all :
        (calls : List (Call S)) (qw : Q × W)
        → All (λ c. length (request_text c.req) + 2 < fuel) calls
        → let served = serve_all service calls qw in
          (map answer_of served.0, served.1)
          ≡ allowed_all (permitted lib json db fuel net g) calls qw
    unfolding serve_all
    serve_all-allowed_all [] qw _ = refl
    serve_all-allowed_all (c ∷ cs) qw (enough, more) =
        let one = serve_call-permitted c qw enough in
        let rest = serve_all-allowed_all cs (serve_call service c qw).1 more in
        ap (λ r. ((seen (serve_call service c qw)).0 ∷ r.0, r.1)) rest
        ∙ ap
            (λ o.
              let after = allowed_all (permitted lib json db fuel net g) cs o.1 in
              (o.0 ∷ after.0, after.1))
            one
