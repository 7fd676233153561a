-- ===== src/Auth/Jwt/Keys.antt =====
-- The keys that `key_func` of internal/auth/jwt.go gives for each signing method.
use file_server_management.Prelude.{
  ◌≡◌, ◌≢◌, ◌⊎◌, inl, inr, refl, [], Option, none, some, Result, ok, err, Option-cases, Bool-cases,
  ◌∙◌, ap, sym,
}
use file_server_management.Text.{text_eq, text_eq_iff}
use file_server_management.Auth.Jwt.{
  JwtError, hmac_not_configured, rsa_not_configured, unsupported_method, SigningMethod, hmac, rsa,
  other_method, Key, secret_key, public_key, JwtVerifier, key_func,
}

module _ {K : Type 0} (v : JwtVerifier K) where
  -- For HMAC the secret, if it is not empty.
  abbrev pub HmacKey : Result JwtError (Key K) → Type 0
  HmacKey r =
      ((v.secret ≢ []) × (r ≡ ok (secret_key v.secret)))
      ⊎ ((v.secret ≡ []) × (r ≡ err hmac_not_configured))

  -- For RSA the public key, if there is one.
  abbrev pub RsaKey : Result JwtError (Key K) → Type 0
  RsaKey r =
      ((k : K) × (v.pub_key ≡ some k) × (r ≡ ok (public_key k)))
      ⊎ ((v.pub_key ≡ none) × (r ≡ err rsa_not_configured))

  HmacKey-unique : (r r' : Result JwtError (Key K)) → HmacKey r → HmacKey r' → r ≡ r'
  HmacKey-unique r r' (inl (_, e)) (inl (_, f)) = e ∙ sym f
  HmacKey-unique r r' (inl (some_secret, _)) (inr (empty, _)) = absurd (some_secret empty)
  HmacKey-unique r r' (inr (empty, _)) (inl (some_secret, _)) = absurd (some_secret empty)
  HmacKey-unique r r' (inr (_, e)) (inr (_, f)) = e ∙ sym f

  RsaKey-unique : (r r' : Result JwtError (Key K)) → RsaKey r → RsaKey r' → r ≡ r'
  RsaKey-unique r r' (inl (k, set, e)) (inl (k', set', f)) =
      e ∙ ap (λ o. ok (public_key (key_or k o))) (sym set ∙ set') ∙ sym f
    where
      key_or : K → Option K → K
      key_or d none = d
      key_or d (some x) = x
  RsaKey-unique r r' (inl (k, set, _)) (inr (unset, _)) = absurd (cc (sym set ∙ unset))
  RsaKey-unique r r' (inr (unset, _)) (inl (k, set, _)) = absurd (cc (sym set ∙ unset))
  RsaKey-unique r r' (inr (_, e)) (inr (_, f)) = e ∙ sym f

-- The keys that a verifier has: for HMAC its secret, for RSA its public key, as far as they are
-- configured, and none for any other method.
pub record IsKeys {K : Type 0} (v : JwtVerifier K) (keys : SigningMethod → Result JwtError (Key K))
    : Type 0 where
  pub for_hmac : HmacKey v (keys hmac)
  pub for_rsa : RsaKey v (keys rsa)
  pub for_other : keys other_method ≡ err unsupported_method

module _ {K : Type 0} (v : JwtVerifier K) where
  pub key_func-IsKeys : IsKeys v (key_func v)
  unfolding key_func
  key_func-IsKeys = record {
    for_hmac = elim (Bool-cases (text_eq v.secret [])) [
      | inl empty ↦ inr ((text_eq_iff v.secret []).0 empty, rw empty refl)
      | inr set ↦ inl (λ e. cc ((text_eq_iff v.secret []).1 e, set), rw set refl)
    ];
    for_rsa = elim (Option-cases v.pub_key) [
      | inl unset ↦ inr (unset, rw unset refl)
      | inr (k, set) ↦ inl (k, set, rw set refl)
    ];
    for_other = refl;
  }

  -- No other callback has them.
  pub IsKeys-unique :
      (keys : SigningMethod → Result JwtError (Key K)) → IsKeys v keys → keys ≡ key_func v
  IsKeys-unique keys has = λ i m. at_method m i
    where
      at_method : (m : SigningMethod) → keys m ≡ key_func v m
      at_method hmac =
          HmacKey-unique v (keys hmac) (key_func v hmac) has.for_hmac (key_func-IsKeys).for_hmac
      at_method rsa =
          RsaKey-unique v (keys rsa) (key_func v rsa) has.for_rsa (key_func-IsKeys).for_rsa
      at_method other_method = has.for_other ∙ sym (key_func-IsKeys).for_other
