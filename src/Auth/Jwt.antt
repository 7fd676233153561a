-- ===== src/Auth/Jwt.antt =====
-- internal/auth/jwt.go: the verifier's keys and the reading of an Authorization header. The JWT and
-- crypto libraries are parameters.
pub mod Keys
pub mod Accepted
use file_server_management.Prelude.{
  ◌≡◌, ◌≢◌, Bool, true, false, not, ◌&&◌, ◌||◌, List, [], ◌∷◌, Option, none, some, Result, ok, err,
  ◌>>=◌, if◌then◌else◌, drop,
}
use file_server_management.Text.{Text, txt, text_eq, has_prefix, trim_space, to_lower}
use file_server_management.Auth.{AuthContext}

pub data JwtError : Type 0 where
  missing_token : JwtError
  hmac_not_configured : JwtError
  rsa_not_configured : JwtError
  unsupported_method : JwtError
  library_error : JwtError
  invalid_token : JwtError
  invalid_issuer : JwtError
  invalid_audience : JwtError
  missing_sub : JwtError
  bad_pem : JwtError
  not_rsa : JwtError
  no_key : JwtError

-- The types of `t.Method` that the code tells apart.
pub data SigningMethod : Type 0 where
  hmac rsa other_method : SigningMethod

-- `Claims`, as far as the code reads it itself
pub record Claims : Type 0 where
  pub subject : Text
  pub issuer : Text
  pub audience : List Text
  pub roles : List Text

-- `K` is the library's type of RSA public keys.
pub data Key (K : Type 0) : Type 0 where
  secret_key : Text → Key K
  public_key : K → Key K

-- `JWTVerifier`
pub record JwtVerifier (K : Type 0) : Type 0 where
  pub secret : Text
  pub pub_key : Option K
  pub issuer : Text
  pub audience : Text

-- A public key as crypto/x509 returns it.
pub data AnyKey (K : Type 0) : Type 0 where
  rsa_key : K → AnyKey K
  other_key : AnyKey K

-- encoding/pem and crypto/x509; `none` is an error, or no block.
pub record X509 (K : Type 0) : Type 0 where
  pub pem_decode : Text → Option Text
  pub parse_pkix_public_key : Text → Option (AnyKey K)
  pub parse_certificate : Text → Option (AnyKey K)

-- jwt.ParseWithClaims, which calls back for the key and answers whether the token is valid and
-- what it claims, and `VerifyAudience`.
pub record JwtLibrary (K : Type 0) : Type 0 where
  pub parse_with_claims :
      Text → (SigningMethod → Result JwtError (Key K)) → Result JwtError (Bool × Claims)
  pub verify_audience : List Text → Text → Bool

-- The token of an Authorization header: with or without "Bearer ", in any case.
unfoldable pub token_of : Text → Text
token_of header =
    let token = trim_space header in
    if has_prefix (to_lower token) (txt "bearer ") then trim_space (drop 7 token) else token

module _ {K : Type 0} where
  abbrev pub rsa_only : JwtError → AnyKey K → Result JwtError K
  rsa_only e (rsa_key k) = ok k
  rsa_only e other_key = err e

  abbrev pub from_certificate : Option (AnyKey K) → Result JwtError K
  from_certificate none = err bad_pem
  from_certificate (some k) = rsa_only not_rsa k

  -- `parseRSAPublicKeyFromPEM`
  unfoldable pub parse_rsa_public_key_from_pem : X509 K → Text → Result JwtError K
  parse_rsa_public_key_from_pem x pem = elim (x.pem_decode pem) [
    | none ↦ err bad_pem
    | some bytes ↦ elim (x.parse_pkix_public_key bytes) [
      | some k ↦ rsa_only not_rsa k
      | none ↦ from_certificate (x.parse_certificate bytes)
    ]
  ]

  abbrev pub is_none : Option K → Bool
  is_none none = true
  is_none (some k) = false

  -- The public key of the configuration: none if there is no PEM text.
  unfoldable pub configured_key : X509 K → Text → Result JwtError (Option K)
  configured_key x pem =
      if text_eq pem [] then ok none else parse_rsa_public_key_from_pem x pem >>= λ k. ok (some k)

  -- `NewJWTVerifier`
  unfoldable pub new_jwt_verifier :
      X509 K → Text → Text → Text → Text → Result JwtError (JwtVerifier K)
  new_jwt_verifier x secret pem issuer audience = do
    k ← configured_key x pem
    if text_eq secret [] && is_none k
        then err no_key
        else ok (record { secret = secret; pub_key = k; issuer = issuer; audience = audience })

  -- The callback that picks the key for a signing method.
  unfoldable pub key_func : JwtVerifier K → SigningMethod → Result JwtError (Key K)
  key_func v hmac =
      if text_eq v.secret [] then err hmac_not_configured else ok (secret_key v.secret)
  key_func v rsa = elim v.pub_key [ none ↦ err rsa_not_configured | some k ↦ ok (public_key k) ]
  key_func v other_method = err unsupported_method

  module _ (lib : JwtLibrary K) (v : JwtVerifier K) where
    -- The checks behind the library's.
    unfoldable pub check_claims : Bool × Claims → Result JwtError AuthContext
    check_claims (valid, claims) =
        if not valid
        then err invalid_token
        else (if not (text_eq v.issuer []) && not (text_eq claims.issuer v.issuer)
            then err invalid_issuer
            else (if not (text_eq v.audience [])
                  && not (lib.verify_audience claims.audience v.audience)
                then err invalid_audience
                else (if text_eq claims.subject []
                    then err missing_sub
                    else ok (record { user_id = claims.subject; roles = claims.roles }))))

    -- `ParseAuthContext`
    unfoldable pub parse_auth_context : Text → Result JwtError AuthContext
    parse_auth_context header =
        let token = token_of header in
        if text_eq token []
        then err missing_token
        else lib.parse_with_claims token (key_func v) >>= check_claims
