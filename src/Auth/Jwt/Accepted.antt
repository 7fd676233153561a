-- ===== src/Auth/Jwt/Accepted.antt =====
-- What internal/auth/jwt.go accepts, and with which keys.
use file_server_management.Prelude.{
  ◌≡◌, ◌≢◌, ◌↔◌, ◌⊎◌, inl, inr, Bool, true, false, ◌&&◌, [], some, Result, ok, err, chained,
  Option-cases, arith, Bool-cases, ◌∙◌, ap, sym,
}
use file_server_management.Text.{Text, text_eq, text_eq_iff}
use file_server_management.Auth.{AuthContext}
use file_server_management.Auth.Jwt.{
  JwtError, SigningMethod, hmac, rsa, other_method, Claims, Key, secret_key, public_key,
  JwtVerifier, X509, JwtLibrary, configured_key, new_jwt_verifier, key_func, token_of, check_claims,
  parse_auth_context, is_none,
}
use file_server_management.Auth.Jwt.Keys.{IsKeys, key_func-IsKeys, IsKeys-unique}

-- The token's claims pass the verifier's checks.
pub record IsAdmitted {K : Type 0} (lib : JwtLibrary K) (v : JwtVerifier K) (claims : Claims)
    : Type 0 where
  pub issuer : (v.issuer ≡ []) ⊎ (claims.issuer ≡ v.issuer)
  pub audience : (v.audience ≡ []) ⊎ (lib.verify_audience claims.audience v.audience ≡ true)
  pub subject : claims.subject ≢ []

-- The user and the roles that the claims name.
abbrev pub context_of : Claims → AuthContext
context_of claims = record { user_id = claims.subject; roles = claims.roles }

module _ {K : Type 0} (lib : JwtLibrary K) (v : JwtVerifier K) where
  check_claims-IsAdmitted :
      (valid : Bool) (claims : Claims) {a : AuthContext}
      → check_claims lib v (valid, claims) ≡ ok a
      → (valid ≡ true) × IsAdmitted lib v claims × (a ≡ context_of claims)
  unfolding check_claims
  check_claims-IsAdmitted valid claims h =
      let issuer_eq = text_eq_iff claims.issuer v.issuer in
      let no_issuer = text_eq_iff v.issuer [] in
      let no_audience = text_eq_iff v.audience [] in
      let no_subject = text_eq_iff claims.subject [] in
      (
        ground arith,
        record {
          issuer = ground (arith, no_issuer, issuer_eq);
          audience = ground (arith, no_audience);
          subject = ground (arith, no_subject);
        },
        ground arith,
      )

  check_claims-of_IsAdmitted :
      (claims : Claims)
      → IsAdmitted lib v claims
      → check_claims lib v (true, claims) ≡ ok (context_of claims)
  unfolding check_claims
  check_claims-of_IsAdmitted claims d = ground (
    arith,
    text_eq_iff v.issuer [],
    text_eq_iff claims.issuer v.issuer,
    text_eq_iff v.audience [],
    text_eq_iff claims.subject [],
  )

  parse-inversion :
      (header : Text) {a : AuthContext}
      → parse_auth_context lib v header ≡ ok a
      → (p : Bool × Claims) × (token_of header ≢ [])
        × (lib.parse_with_claims (token_of header) (key_func v) ≡ ok p)
        × (check_claims lib v p ≡ ok a)
  unfolding parse_auth_context
  parse-inversion header h = elim (Bool-cases (text_eq (token_of header) [])) [
    | inl empty ↦ absurd (ground arith)
    | inr some_token ↦
        let (p, parsed, checked) =
          chained (lib.parse_with_claims (token_of header) (key_func v)) (check_claims lib v)
            (rw some_token at h) in
        (p, λ e. cc ((text_eq_iff _ _).1 e, some_token), parsed, checked)
  ]

  -- What `ParseAuthContext` accepts: a header with a token that the library finds valid under the
  -- verifier's keys, whose claims pass the checks; the context is what the claims name.
  pub record IsAccepted (header : Text) (a : AuthContext) : Type 0 where
    pub claims : Claims
    pub keys : SigningMethod → Result JwtError (Key K)
    pub token : token_of header ≢ []
    pub right_keys : IsKeys v keys
    pub parsed : lib.parse_with_claims (token_of header) keys ≡ ok (true, claims)
    pub admitted : IsAdmitted lib v claims
    pub context : a ≡ context_of claims

  accepted :
      (header : Text) {a : AuthContext}
      → parse_auth_context lib v header ≡ ok a
      → IsAccepted header a
  accepted header h =
      let (p, token, parsed, checked) = parse-inversion header h in
      let (valid, claims) = p in
      let (is_valid, admitted, context) = check_claims-IsAdmitted valid claims checked in
      record {
        claims = claims;
        keys = key_func v;
        token = token;
        right_keys = key_func-IsKeys v;
        parsed = parsed ∙ ap (λ b. ok (b, claims)) is_valid;
        admitted = admitted;
        context = context;
      }

  of_accepted :
      (header : Text) {a : AuthContext}
      → IsAccepted header a
      → parse_auth_context lib v header ≡ ok a
  unfolding parse_auth_context
  of_accepted header c =
      let some_token : text_eq (token_of header) [] ≡ false = not_empty c.token in
      let parsed =
        ap (lib.parse_with_claims (token_of header)) (sym (IsKeys-unique v c.keys c.right_keys))
        ∙ c.parsed in
      rw (some_token, parsed, check_claims-of_IsAdmitted c.claims c.admitted, c.context)
    where
      not_empty : {t : Text} → t ≢ [] → text_eq t [] ≡ false
      not_empty {t} n = ground (arith, text_eq_iff t [])

  -- `ParseAuthContext` accepts a header exactly if the token that is read off it is not empty, the
  -- library finds it valid when it is given the secret for HMAC if that is not empty, the public
  -- key for RSA if there is one, and an error for all else, and its claims have the issuer and
  -- audience of the configuration (if any) and a subject; the user and the roles are those of the
  -- claims. The claims need no roles: a token without them is accepted, for a user without roles.
  pub parse_auth_context_iff :
      (header : Text) (a : AuthContext)
      → (parse_auth_context lib v header ≡ ok a) ↔ IsAccepted header a
  parse_auth_context_iff header a = (accepted header, of_accepted header)

-- The library answers "valid" only for a token that is signed, by the method that it was asked
-- about, under the key that the callback gave for that method.
pub record ChecksSignature {K : Type 0} (lib : JwtLibrary K)
    (Signed : SigningMethod → Key K → Text → Claims → Type 0) : Type 0 where
  pub checks :
      (token : Text) (keys : SigningMethod → Result JwtError (Key K)) (claims : Claims)
      → lib.parse_with_claims token keys ≡ ok (true, claims)
      → (m : SigningMethod) × (k : Key K) × (keys m ≡ ok k) × Signed m k token claims

module _ {K : Type 0} (v : JwtVerifier K)
    (Signed : SigningMethod → Key K → Text → Claims → Type 0) where
  -- Signed with the configured secret by HMAC, or under the configured public key by RSA.
  abbrev pub IsSigned : Text → Claims → Type 0
  IsSigned token claims =
      ((v.secret ≢ []) × Signed hmac (secret_key v.secret) token claims)
      ⊎ ((k : K) × (v.pub_key ≡ some k) × Signed rsa (public_key k) token claims)

  key_func-IsSigned :
      (m : SigningMethod) (k : Key K) (token : Text) (claims : Claims)
      → key_func v m ≡ ok k
      → Signed m k token claims
      → IsSigned token claims
  unfolding key_func
  key_func-IsSigned hmac k token claims e s = elim (Bool-cases (text_eq v.secret [])) [
    | inl empty ↦ absurd (ground arith)
    | inr some_secret ↦
        let same : k ≡ secret_key v.secret = ground arith in
        inl (λ q. cc ((text_eq_iff _ _).1 q, some_secret), rw same at s)
  ]
  key_func-IsSigned rsa k token claims e s = elim (Option-cases v.pub_key) [
    | inl unset ↦ absurd (ground arith)
    | inr (key, set) ↦ let same : k ≡ public_key key = ground arith in inr (key, set, rw same at s)
  ]
  key_func-IsSigned other_method k token claims e s = cc

-- If the library checks signatures under the key that it is given, no header is accepted unless its
-- token is signed by HMAC with the configured secret, which is
-- not empty, or by RSA under the configured public key: never by another method, and never by
-- HMAC with the public key as the secret.
pub parse_auth_context-IsSigned :
    {K : Type 0} (lib : JwtLibrary K) (v : JwtVerifier K)
    (Signed : SigningMethod → Key K → Text → Claims → Type 0) (header : Text) (a : AuthContext)
    → ChecksSignature lib Signed
    → parse_auth_context lib v header ≡ ok a
    → (claims : Claims) × IsSigned v Signed (token_of header) claims × (a ≡ context_of claims)
parse_auth_context-IsSigned lib v Signed header a checked h =
    let c = (parse_auth_context_iff lib v header a).0 h in
    let (m, k, given, signed) = checked.checks (token_of header) c.keys c.claims c.parsed in
    let own = sym (ap (λ f. f m) (IsKeys-unique v c.keys c.right_keys)) ∙ given in
    (c.claims, key_func-IsSigned v Signed m k (token_of header) c.claims own signed, c.context)

-- A verifier that is built has a secret or a public key.
pub new_jwt_verifier-has_key :
    {K : Type 0} (x : X509 K) (secret pem issuer audience : Text) (v : JwtVerifier K)
    → new_jwt_verifier x secret pem issuer audience ≡ ok v
    → (v.secret ≢ []) ⊎ ((k : K) × (v.pub_key ≡ some k))
unfolding new_jwt_verifier
new_jwt_verifier-has_key x secret pem issuer audience v h =
    let (k, _, built) = chained (configured_key x pem) _ h in
    elim (Bool-cases (text_eq secret [])) [
      | inl empty ↦ elim (Option-cases k) [
        | inl unset ↦ absurd (ground arith)
        | inr (key, set) ↦ inr (key, ground arith)
      ]
      | inr some_secret ↦ inl (ground (arith, text_eq_iff secret []))
    ]

-- A verifier that is built has the secret and the public key of the configuration.
pub new_jwt_verifier-keys :
    {K : Type 0} (x : X509 K) (secret pem issuer audience : Text) (v : JwtVerifier K)
    → new_jwt_verifier x secret pem issuer audience ≡ ok v
    → (v.secret ≡ secret) × (configured_key x pem ≡ ok v.pub_key)
unfolding new_jwt_verifier
new_jwt_verifier-keys x secret pem issuer audience v h =
    let (k, configured, built) = chained (configured_key x pem) _ h in
    elim (Bool-cases (text_eq secret [] && is_none k)) [
      | inl neither ↦ absurd (cc (rw neither at built))
      | inr some_key ↦
          let same = rw some_key at built in
          (
            ap (λ (w : JwtVerifier _). w.secret) (sym (ap (built_or v) same)),
            configured ∙ ap (λ (w : JwtVerifier _). ok w.pub_key) (ap (built_or v) same),
          )
    ]
  where
    built_or : {K : Type 0} → JwtVerifier K → Result JwtError (JwtVerifier K) → JwtVerifier K
    built_or d (ok w) = w
    built_or d (err _) = d
