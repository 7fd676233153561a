-- ===== src/Gate.antt =====
-- The interceptors in front of the handlers: internal/auth/grpc_interceptor.go, http_middleware.go
-- and context.go, internal/authz/grpc_authz_interceptor.go, and the chains that
-- internal/server/server.go builds of them.
pub mod Unary
pub mod Total
pub mod Stream
use file_server_management.Prelude.{
  ℕ, ◌≡◌, Bool, true, false, List, [], ◌∷◌, Option, none, some, Result, ok, err, if◌then◌else◌,
}
use file_server_management.Text.{Text, txt}
use file_server_management.Auth.{AuthContext, AclStore, Permission}
use file_server_management.Auth.Jwt.{JwtError}
use file_server_management.Auth.Resolver.{can_access}
use file_server_management.Authz.{Request, method_permission, extract_path}

-- The codes of google.golang.org/grpc/codes that the interceptors answer with.
pub data Code : Type 0 where
  unauthenticated invalid_argument permission_denied : Code

-- The answers of the interceptors themselves.
pub data Rejection : Type 0 where
  missing_metadata : Rejection
  missing_authorization : Rejection
  invalid_token : Rejection
  missing_auth_context : Rejection
  cannot_extract_path : Rejection
  access_denied : Rejection

unfoldable pub code_of : Rejection → Code
code_of missing_metadata = unauthenticated
code_of missing_authorization = unauthenticated
code_of invalid_token = unauthenticated
code_of missing_auth_context = unauthenticated
code_of cannot_extract_path = invalid_argument
code_of access_denied = permission_denied

-- A call ends in a rejection or in what the handler returns; `running` means that a loop of the
-- authorization has not ended within the fuel.
pub data Reply (A : Type 0) : Type 0 where
  rejected : Rejection → Reply A
  replied : A → Reply A
  running : Reply A

-- What the code reads of a context: the incoming metadata, if there is any, as its function `Get`,
-- and the value under `authCtxKey`.
pub record Context : Type 0 where
  pub metadata : Option (Text → List Text)
  pub auth : Option AuthContext

-- context.go `WithAuthContext`
unfoldable pub with_auth_context : Context → AuthContext → Context
with_auth_context ctx a = record ctx { auth = some a }

-- context.go `FromContext`
unfoldable pub from_context : Context → Option AuthContext
from_context ctx = ctx.auth

abbrev pub or_else : List Text → List Text → List Text
or_else [] vals = vals
or_else (x ∷ xs) vals = x ∷ xs

-- The values of the metadata under "authorization", or else under "Authorization".
unfoldable pub authorization_values : (Text → List Text) → List Text
authorization_values get = or_else (get (txt "authorization")) (get (txt "Authorization"))

-- The answer of the verifier as the interceptors pass it on.
abbrev pub token_checked : Result JwtError AuthContext → Result Rejection AuthContext
token_checked (ok a) = ok a
token_checked (err _) = err invalid_token

abbrev pub first_checked :
    (Text → Result JwtError AuthContext) → List Text → Result Rejection AuthContext
first_checked parse [] = err missing_authorization
first_checked parse (header ∷ _) = token_checked (parse header)

-- The checks that both interceptors of grpc_interceptor.go make on the metadata; `parse` is
-- `verifier.ParseAuthContext`.
unfoldable pub authenticate :
    (Text → Result JwtError AuthContext) → Context → Result Rejection AuthContext
authenticate parse ctx = elim ctx.metadata [
  | none ↦ err missing_metadata
  | some get ↦ first_checked parse (authorization_values get)
]

module _ {A : Type 0} where
  -- grpc_interceptor.go `GRPCAuthInterceptor`
  unfoldable pub grpc_auth_interceptor :
      (Text → Result JwtError AuthContext)
      → Context
      → Request
      → (Context → Request → Reply A)
      → Reply A
  grpc_auth_interceptor parse ctx req handler = elim (authenticate parse ctx) [
    | err r ↦ rejected r
    | ok a ↦ handler (with_auth_context ctx a) req
  ]

  abbrev pub verdict : Option Bool → Reply A → Reply A
  verdict none next = running
  verdict (some allowed) next = if allowed then next else rejected access_denied

  -- The decision of the authorization for a caller, and the handler behind it.
  unfoldable pub authorize : ℕ → AclStore → AuthContext → Permission → Request → Reply A → Reply A
  authorize fuel store a perm req next = elim (extract_path fuel req) [
    | none ↦ running
    | some none ↦ rejected cannot_extract_path
    | some (some path) ↦ verdict (can_access fuel a path perm store) next
  ]

  -- `a, ok := auth.FromContext(ctx)`, and the answer if there is none.
  abbrev pub with_caller : Option AuthContext → (AuthContext → Reply A) → Reply A
  with_caller none next = rejected missing_auth_context
  with_caller (some a) next = next a

  -- grpc_authz_interceptor.go `GRPCAuthZInterceptor`
  unfoldable pub grpc_authz_interceptor :
      ℕ
      → AclStore
      → (full_method : Text) → Context
      → Request
      → (Context → Request → Reply A)
      → Reply A
  grpc_authz_interceptor fuel store full_method ctx req handler =
      elim (method_permission full_method) [
        | none ↦ with_caller (from_context ctx) (λ _. handler ctx req)
        | some perm ↦
            with_caller (from_context ctx) (λ a. authorize fuel store a perm req (handler ctx req))
      ]

  -- server.go: the chain of the unary interceptors in front of a handler
  unfoldable pub unary_chain :
      (Text → Result JwtError AuthContext)
      → ℕ
      → AclStore
      → (full_method : Text) → (Context → Request → A)
      → Context
      → Request
      → Reply A
  unary_chain parse fuel store full_method handler ctx req =
      grpc_auth_interceptor parse ctx req (λ c r.
        grpc_authz_interceptor fuel store full_method c r (λ c' r'. replied (handler c' r')))

  -- http_middleware.go `HTTPAuthMiddleware`: `none` is the answer 401.
  unfoldable pub http_auth_middleware :
      (Text → Result JwtError AuthContext) → Context → (header : Text) → (Context → A) → Option A
  http_auth_middleware parse ctx header next = elim (parse header) [
    | err _ ↦ none
    | ok a ↦ some (next (with_auth_context ctx a))
  ]
