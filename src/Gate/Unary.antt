-- ===== src/Gate/Unary.antt =====
-- Who reaches a handler through the chain of unary interceptors.
use file_server_management.Prelude.{
  ℕ, ◌≡◌, ◌⊎◌, inl, inr, refl, Bool, true, false, List, ◌∷◌, Option, none, some, Result, ok, err,
  arith, Option-cases, List-cases, Result-cases, sym, ◌∙◌,
}
use file_server_management.Text.{Text}
use file_server_management.Auth.{AuthContext, AclStore, Permission}
use file_server_management.Auth.Jwt.{JwtError}
use file_server_management.Auth.Resolver.{can_access}
use file_server_management.Authz.{Request, method_permission, extract_path}
use file_server_management.Gate.{
  Rejection, Reply, replied, rejected, Context, with_auth_context, from_context,
  authorization_values, token_checked, authenticate, grpc_auth_interceptor, authorize,
  grpc_authz_interceptor, unary_chain, verdict,
}

-- The caller's token, as the metadata has it, is accepted.
pub record IsAuthenticated (parse : Text → Result JwtError AuthContext) (ctx : Context)
    (a : AuthContext) : Type 0 where
  pub get : Text → List Text
  pub metadata : ctx.metadata ≡ some get
  pub header : Text
  pub others : List Text
  pub values : authorization_values get ≡ header ∷ others
  pub parsed : parse header ≡ ok a

-- The method has no permission in the table, or the caller has it on the path of the request.
abbrev pub IsAuthorized : ℕ → AclStore → Text → AuthContext → Request → Type 0
IsAuthorized fuel store full_method a req =
    (method_permission full_method ≡ none)
    ⊎ ((perm : Permission) × (method_permission full_method ≡ some perm)
        × ((path : Text) × (extract_path fuel req ≡ some (some path))
            × (can_access fuel a path perm store ≡ some true)))

token_checked-ok :
    (r : Result JwtError AuthContext) {a : AuthContext} → token_checked r ≡ ok a → r ≡ ok a
token_checked-ok (ok b) h = ground arith
token_checked-ok (err e) h = absurd (ground arith)

pub authenticate-ok :
    (parse : Text → Result JwtError AuthContext) (ctx : Context) (a : AuthContext)
    → authenticate parse ctx ≡ ok a
    → IsAuthenticated parse ctx a
unfolding authenticate
authenticate-ok parse ctx a h = elim (Option-cases ctx.metadata) [
  | inl missing ↦ absurd (cc (rw (missing, authenticate) at h))
  | inr (get, found) ↦ elim (List-cases (authorization_values get)) [
    | inl empty ↦ absurd (cc (rw (found, authenticate, empty) at h))
    | inr (header, others, values) ↦ record {
      get = get;
      metadata = found;
      header = header;
      others = others;
      values = values;
      parsed = token_checked-ok (parse header) (rw (found, authenticate, values) at h);
    }
  ]
]

module _ {A : Type 0} where
  authorize-replied :
      (fuel : ℕ) (store : AclStore) (a : AuthContext) (perm : Permission) (req : Request) (x y : A)
      → authorize fuel store a perm req (replied x) ≡ replied y
      → (x ≡ y)
        × ((path : Text) × (extract_path fuel req ≡ some (some path))
            × (can_access fuel a path perm store ≡ some true))
  unfolding authorize
  authorize-replied fuel store a perm req x y h = elim (Option-cases (extract_path fuel req)) [
    | inl looping ↦ absurd (cc (rw (looping, authorize) at h))
    | inr (none, found) ↦ absurd (cc (rw (found, authorize) at h))
    | inr (some path, found) ↦
        let (same, allowed) =
          allowed_only (can_access fuel a path perm store) (rw (found, authorize) at h) in
        (same, (path, found, allowed))
  ]
    where
      allowed_only :
          (d : Option Bool) → verdict d (replied x) ≡ replied y → (x ≡ y) × (d ≡ some true)
      allowed_only none e = absurd (ground arith)
      allowed_only (some true) e = (cc, refl)
      allowed_only (some false) e = absurd (ground arith)

  -- What follows a token that is accepted.
  abbrev pub decide_call :
      ℕ → AclStore → Option Permission → AuthContext → Request → Reply A → Reply A
  decide_call fuel store none a req next = next
  decide_call fuel store (some perm) a req next = authorize fuel store a perm req next

  module _ (parse : Text → Result JwtError AuthContext) (fuel : ℕ) (store : AclStore)
      (full_method : Text) (handler : Context → Request → A) (ctx : Context) (req : Request) where
    authz_decides :
        (a : AuthContext) (next : Context → Request → Reply A)
        → grpc_authz_interceptor fuel store full_method (with_auth_context ctx a) req next
          ≡ decide_call fuel store
              (method_permission full_method)
              a
              req
              (next (with_auth_context ctx a) req)
    unfolding grpc_authz_interceptor from_context with_auth_context
    authz_decides a next = elim (Option-cases (method_permission full_method)) [
      | inl unmapped ↦ rw (unmapped, grpc_authz_interceptor)
      | inr (perm, mapped) ↦ rw (mapped, grpc_authz_interceptor)
    ]

    pub unary_chain-ok :
        (a : AuthContext)
        → authenticate parse ctx ≡ ok a
        → unary_chain parse fuel store full_method handler ctx req
          ≡ decide_call fuel store
              (method_permission full_method)
              a
              req
              (replied (handler (with_auth_context ctx a) req))
    unfolding unary_chain grpc_auth_interceptor
    unary_chain-ok a h = rw (h, unary_chain, grpc_auth_interceptor) (authz_decides a _)

    pub unary_chain-err :
        (r : Rejection)
        → authenticate parse ctx ≡ err r
        → unary_chain parse fuel store full_method handler ctx req ≡ rejected r
    unfolding unary_chain grpc_auth_interceptor
    unary_chain-err r h = rw (h, unary_chain, grpc_auth_interceptor)

    decide_call-replied :
        (o : Option Permission) (a : AuthContext) (x y : A)
        → o ≡ method_permission full_method
        → decide_call fuel store o a req (replied x) ≡ replied y
        → (x ≡ y) × IsAuthorized fuel store full_method a req
    decide_call-replied none a x y e h = (cc, inl (sym e))
    decide_call-replied (some perm) a x y e h =
        let (same, found) = authorize-replied fuel store a perm req x y h in
        (same, inr (perm, sym e, found))

    -- The handler's answer comes back only for a caller whose token is accepted and who is allowed
    -- to do what the method does, and it is the handler's answer to that caller and that request.
    pub unary_chain-replied :
        (x : A)
        → unary_chain parse fuel store full_method handler ctx req ≡ replied x
        → (a : AuthContext) × IsAuthenticated parse ctx a
          × IsAuthorized fuel store full_method a req
          × (handler (with_auth_context ctx a) req ≡ x)
    unary_chain-replied x h = elim (Result-cases (authenticate parse ctx)) [
      | inr (r, failed) ↦ absurd (cc (unary_chain-err r failed, h))
      | inl (a, valid) ↦
          let (same, allowed) =
            decide_call-replied (method_permission full_method) a _ x refl
              (sym (unary_chain-ok a valid) ∙ h) in
          (a, authenticate-ok parse ctx a valid, allowed, same)
    ]
