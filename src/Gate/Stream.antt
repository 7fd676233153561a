-- ===== src/Gate/Stream.antt =====
-- The stream interceptors: `GRPCStreamAuthInterceptor` of internal/auth/grpc_interceptor.go, and
-- `authzServerStream` with `GRPCAuthZStreamInterceptor` of
-- internal/authz/grpc_authz_interceptor.go.
use file_server_management.Prelude.{
  ℕ, ◌≡◌, inl, inr, Bool, true, false, List, [], ◌∷◌, Option, none, some, sym, ◌∙◌, Result, ok, err,
  Option-cases, Result-cases, if◌then◌else◌,
}
use file_server_management.Text.{Text}
use file_server_management.Auth.{AuthContext, AclStore, Permission}
use file_server_management.Auth.Jwt.{JwtError}
use file_server_management.Auth.Resolver.{can_access}
use file_server_management.Authz.{Request, method_permission, extract_path}
use file_server_management.Gate.{
  Rejection, Reply, replied, rejected, Context, with_auth_context, from_context, authenticate,
  with_caller, access_denied, cannot_extract_path,
}
use file_server_management.Gate.Unary.{IsAuthenticated, authenticate-ok}

-- `authzServerStream`, but for the stream that it wraps
pub record AuthzServerStream : Type 0 where
  pub auth_ctx : AuthContext
  pub perm : Permission
  pub store : AclStore
  pub checked : Bool

-- What one call of `RecvMsg` gives the handler; `stuck` means that a loop of the check has not
-- ended within the fuel.
pub data Received : Type 0 where
  stream_error : Received
  refused : Rejection → Received
  message : Request → Received
  stuck : Received

abbrev pub verdict_on : Option Bool → Request → Received
verdict_on none m = stuck
verdict_on (some allowed) m = if allowed then message m else refused access_denied

-- The check of the first message.
unfoldable pub check_message : ℕ → AuthzServerStream → Request → Received
check_message fuel s m = elim (extract_path fuel m) [
  | none ↦ stuck
  | some none ↦ refused cannot_extract_path
  | some (some path) ↦ verdict_on (can_access fuel s.auth_ctx path s.perm s.store) m
]

-- `RecvMsg`, with what the wrapped stream receives: `none` is its error.
unfoldable pub recv_msg : ℕ → AuthzServerStream → Option Request → Received × AuthzServerStream
recv_msg fuel s none = (stream_error, s)
recv_msg fuel s (some m) =
    if s.checked then (message m, s) else (check_message fuel s m, record s { checked = true })

-- A handler that calls `RecvMsg` again and again, whatever it gets.
unfoldable pub recv_all : ℕ → AuthzServerStream → List (Option Request) → List Received
recv_all fuel s [] = []
recv_all fuel s (m ∷ ms) = let (r, s') = recv_msg fuel s m in r ∷ recv_all fuel s' ms

module _ {A : Type 0} where
  -- `GRPCStreamAuthInterceptor`
  unfoldable pub grpc_stream_auth_interceptor :
      (Text → Result JwtError AuthContext) → Context → (Context → Reply A) → Reply A
  grpc_stream_auth_interceptor parse ctx handler = elim (authenticate parse ctx) [
    | err r ↦ rejected r
    | ok a ↦ handler (with_auth_context ctx a)
  ]

  -- `GRPCAuthZStreamInterceptor`: the handler gets the stream as it is, or behind the guard.
  unfoldable pub grpc_authz_stream_interceptor :
      AclStore
      → (full_method : Text) → Context
      → (Context → Option AuthzServerStream → Reply A)
      → Reply A
  grpc_authz_stream_interceptor store full_method ctx handler =
      elim (method_permission full_method) [
        | none ↦ with_caller (from_context ctx) (λ _. handler ctx none)
        | some perm ↦ with_caller (from_context ctx) (λ a.
            handler ctx
              (some (record { auth_ctx = a; perm = perm; store = store; checked = false })))
      ]

  -- server.go: the chain of the stream interceptors in front of a handler
  unfoldable pub stream_chain :
      (Text → Result JwtError AuthContext)
      → AclStore
      → (full_method : Text) → (Context → Option AuthzServerStream → A)
      → Context
      → Reply A
  stream_chain parse store full_method handler ctx =
      grpc_stream_auth_interceptor parse ctx
        (λ c. grpc_authz_stream_interceptor store full_method c (λ c' s. replied (handler c' s)))

-- What passes a guard that has seen a message.
abbrev pub unchecked : Option Request → Received
unchecked none = stream_error
unchecked (some m) = message m

-- The guard of a stream: none for a method without a permission, else a fresh one for the caller.
abbrev pub guard_of : AclStore → AuthContext → Option Permission → Option AuthzServerStream
guard_of store a none = none
guard_of store a (some perm) =
    some (record { auth_ctx = a; perm = perm; store = store; checked = false })

module _ {A : Type 0} (parse : Text → Result JwtError AuthContext) (store : AclStore)
    (full_method : Text) (handler : Context → Option AuthzServerStream → A) (ctx : Context) where
  authz_stream :
      (a : AuthContext)
      → grpc_authz_stream_interceptor store full_method
          (with_auth_context ctx a)
          (λ c s. replied (handler c s))
        ≡ replied
            (handler (with_auth_context ctx a) (guard_of store a (method_permission full_method)))
  unfolding grpc_authz_stream_interceptor from_context with_auth_context
  authz_stream a = elim (Option-cases (method_permission full_method)) [
    | inl unmapped ↦ rw (unmapped, grpc_authz_stream_interceptor)
    | inr (perm, mapped) ↦ rw (mapped, grpc_authz_stream_interceptor)
  ]

  -- A stream handler runs only for a caller whose token is accepted, and gets the stream of that
  -- caller, behind a fresh guard for the method's permission if the method has one.
  pub stream_chain-replied :
      (x : A)
      → stream_chain parse store full_method handler ctx ≡ replied x
      → (a : AuthContext) × IsAuthenticated parse ctx a
        × (handler (with_auth_context ctx a) (guard_of store a (method_permission full_method)) ≡ x)
  unfolding stream_chain grpc_stream_auth_interceptor
  stream_chain-replied x h = elim (Result-cases (authenticate parse ctx)) [
    | inr (r, failed) ↦ absurd (cc (rw (failed, stream_chain, grpc_stream_auth_interceptor) at h))
    | inl (a, valid) ↦ (
      a,
      authenticate-ok parse ctx a valid,
      replied-injective
          (sym (authz_stream a) ∙ rw (valid, stream_chain, grpc_stream_auth_interceptor) at h),
    )
  ]
    where
      replied-injective : {y z : A} → replied y ≡ replied z → y ≡ z
      replied-injective e = cc
