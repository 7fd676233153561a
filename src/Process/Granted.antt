-- ===== src/Process/Granted.antt =====
-- What answers of the process have behind them: a token that is signed with a key of the
-- environment, and a row of the table in Postgres, or a role.
use file_server_management.Prelude.{
  List, ◌∷◌, ℕ, ◌+◌, ◌<◌, ◌≡◌, ◌≢◌, ◌⊎◌, inl, inr, sym, ap, ◌∙◌, subst, Bool, true, [], none, some,
  Result, ok, err, length, arith,
}
use file_server_management.Text.{Text}
use file_server_management.FilePath.{is_abs}
use file_server_management.Auth.{AuthContext, Permission}
use file_server_management.Auth.Ancestors.{visited}
use file_server_management.Auth.Grants.{ByRole}
use file_server_management.Auth.Jwt.{
  SigningMethod, hmac, rsa, Claims, Key, secret_key, public_key, JwtVerifier, X509, JwtLibrary,
  configured_key, token_of, parse_auth_context,
}
use file_server_management.Auth.Jwt.Accepted.{
  ChecksSignature, IsSigned, context_of, parse_auth_context-IsSigned,
}
use file_server_management.Auth.Postgres.{Row, Db, PermissionJson}
use file_server_management.Auth.Postgres.Rows.{IsTable, ByRow}
use file_server_management.Auth.Postgres.Decisions.{can_access-ByRow}
use file_server_management.Auth.Resolver.{can_access}
use file_server_management.Authz.{Request, method_permission}
use file_server_management.Gate.{Context, authorization_values}
use file_server_management.Gate.Total.{
  request_text, request_path, extract_path-eq, request_path-IsRooted,
}
use file_server_management.Gate.Unary.{IsAuthorized}
use file_server_management.Server.Listen.{StoreChoice, postgres_pool, store_at}
use file_server_management.Config.{Config, Servers}
use file_server_management.Config.Start.{IsBuilt}
use file_server_management.Process.{MainError, or_exit}

-- The keys that the configuration `c` trusts: the secret for HMAC, the public key for RSA.
abbrev pub IsSignedBy :
    {K : Type 0}
    → X509 K
    → (SigningMethod → Key K → Text → Claims → Type 0)
    → Config
    → (token : Text) → Claims
    → Type 0
IsSignedBy {K = K} x Signed c token claims =
    ((c.jwt_secret ≢ []) × Signed hmac (secret_key c.jwt_secret) token claims)
    ⊎ ((k : K) × (configured_key x c.jwt_public_key_pem ≡ ok (some k))
        × Signed rsa (public_key k) token claims)

-- The caller is the one that the claims of the header's token name, and the token is signed.
pub record IsIdentified {K : Type 0} (x : X509 K)
    (Signed : SigningMethod → Key K → Text → Claims → Type 0) (c : Config) (header : Text)
    (a : AuthContext) : Type 0 where
  pub claims : Claims
  pub signed : IsSignedBy x Signed c (token_of header) claims
  pub caller : a ≡ context_of claims

-- The header is the first value of the call's metadata under "authorization".
pub record IsFirstValue (ctx : Context) (header : Text) : Type 0 where
  pub get : Text → List Text
  pub metadata : ctx.metadata ≡ some get
  pub others : List Text
  pub values : authorization_values get ≡ header ∷ others

pub or_exit-ok :
    {E A : Type 0} (f : E → MainError) (r : Result E A) (a : A) → or_exit f r ≡ ok a → r ≡ ok a
or_exit-ok f (ok b) a e = cc
or_exit-ok f (err x) a e = absurd (cc e)

module _ {K : Type 0} (x : X509 K) (lib : JwtLibrary K)
    (Signed : SigningMethod → Key K → Text → Claims → Type 0) (signing : ChecksSignature lib Signed)
    (connected : Bool) (c : Config) (s : Servers K) (built : IsBuilt x connected c s) where
  signed_by :
      (token : Text) (claims : Claims)
      → IsSigned s.grpc.verifier Signed token claims
      → IsSignedBy x Signed c token claims
  signed_by token claims (inl (some_secret, signed)) =
      let move = λ (t : Text). Signed hmac (secret_key t) token claims in
      inl (λ z. some_secret (built.secret ∙ z), subst move built.secret signed)
  signed_by token claims (inr (k, set, signed)) = inr (k, built.public_key ∙ ap ok set, signed)

  pub parsed-IsIdentified :
      (v : JwtVerifier K) (header : Text) (a : AuthContext)
      → v ≡ s.grpc.verifier
      → parse_auth_context lib v header ≡ ok a
      → IsIdentified x Signed c header a
  parsed-IsIdentified v header a same parsed =
      let (claims, signed, caller) =
        parse_auth_context-IsSigned lib s.grpc.verifier Signed header a signing
          (subst (λ (u : JwtVerifier K). parse_auth_context lib u header ≡ ok a) same parsed) in
      record {
        claims = claims;
        signed = signed_by (token_of header) claims signed;
        caller = caller;
      }

module _ {S : Type 0} (json : PermissionJson) (db : Text → Db S) (dsn : Text) (table : S → List Row)
    (laws : IsTable (db dsn) table) where
  -- A row of the table or a role gives the caller the permission on the path.
  abbrev pub IsGranted : AuthContext → Permission → (path : Text) → S → Type 0
  IsGranted a perm path s = ByRow json (db dsn) table laws a perm (visited path) s ⊎ ByRole a perm

  pub can_access-IsGranted :
      (fuel : ℕ) (store : StoreChoice) (a : AuthContext) (perm : Permission) (path : Text) (s : S)
      → store ≡ postgres_pool dsn
      → is_abs path ≡ true
      → length path + 1 < fuel
      → can_access fuel a path perm (store_at json db store s) ≡ some true
      → IsGranted a perm path s
  unfolding store_at
  can_access-IsGranted fuel store a perm path s same rooted enough e =
      can_access-ByRow (db dsn) json table laws fuel a path perm s rooted enough
        (subst (λ t. can_access fuel a path perm (store_at json db t s) ≡ some true) same e)

  -- The method has no permission in the table of methods, or the caller has it on the request's
  -- path.
  abbrev pub MayCall : (full_method : Text) → AuthContext → Request → S → Type 0
  MayCall full_method a req s =
      (method_permission full_method ≡ none)
      ⊎ ((perm : Permission) × (method_permission full_method ≡ some perm)
          × ((path : Text) × (request_path req ≡ some path) × IsGranted a perm path s))

  pub authorized-MayCall :
      (fuel : ℕ) (store : StoreChoice) (full_method : Text) (a : AuthContext) (req : Request)
      (s : S)
      → store ≡ postgres_pool dsn
      → length (request_text req) + 2 < fuel
      → IsAuthorized fuel (store_at json db store s) full_method a req
      → MayCall full_method a req s
  authorized-MayCall fuel store full_method a req s same enough (inl free) = inl free
  authorized-MayCall fuel store full_method a req s same enough (inr (perm, mapped, found)) =
      let (path, extracted, allowed) = found in
      let is_path : request_path req ≡ some path =
        ap (elim [ none ↦ none | some o ↦ o ])
          (sym (extract_path-eq fuel req (omega (arith, enough))) ∙ extracted) in
      let r = request_path-IsRooted req path is_path in
      inr (
        perm,
        mapped,
        (
          path,
          is_path,
          can_access-IsGranted fuel store a perm path s same r.abs (omega (arith, r.short, enough))
              allowed,
        ),
      )
