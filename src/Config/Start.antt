-- ===== src/Config/Start.antt =====
-- What servers that are built from the environment work with.
use file_server_management.Prelude.{
  ◌≡◌, ◌≢◌, ◌⊎◌, inl, inr, Bool, true, [], some, Result, ok, err, chained, sym, ap, ◌∙◌, arith,
}
use file_server_management.Text.{Text, txt, text_eq_iff}
use file_server_management.Auth.Jwt.{X509, JwtVerifier, configured_key}
use file_server_management.Auth.Jwt.Accepted.{new_jwt_verifier-has_key, new_jwt_verifier-keys}
use file_server_management.Storage.{new_from_config}
use file_server_management.Server.Listen.{
  StoreChoice, postgres_pool, new_grpc_server, new_http_server,
}
use file_server_management.Config.{
  Config, get_env, load_from_env, factory_config, default_dsn, StartError, storage_init, Servers,
  or_fatal, acl_store, servers,
}

get_env-ne_nil : (env : Text → Text) (k d : Text) → d ≢ [] → get_env env k d ≢ []
unfolding get_env
get_env-ne_nil env k d h = ground (arith, text_eq_iff (env k) [])

dsn-ne_nil : (env : Text → Text) → (load_from_env env).postgres_dsn ≢ []
unfolding load_from_env
dsn-ne_nil env = get_env-ne_nil env (txt "POSTGRES_DSN") default_dsn (ground arith)

acl_store-postgres :
    (pool : Text → Bool) (c : Config) (store : StoreChoice)
    → c.postgres_dsn ≢ []
    → acl_store pool c ≡ ok store
    → (store ≡ postgres_pool c.postgres_dsn) × (pool c.postgres_dsn ≡ true)
unfolding acl_store
acl_store-postgres pool c store h e = ground (arith, text_eq_iff c.postgres_dsn [])

or_fatal-ok :
    {E A : Type 0} (x : StartError) (r : Result E A) (a : A) → or_fatal x r ≡ ok a → r ≡ ok a
or_fatal-ok x (ok b) a e = cc
or_fatal-ok x (err f) a e = absurd (cc e)

abbrev started : {A : Type 0} → A → Result StartError A → A
started d (ok a) = a
started d (err _) = d

-- What two servers share that are built of a configuration with a data source.
pub record IsBuilt {K : Type 0} (x : X509 K) (connected : Bool) (c : Config) (s : Servers K)
    : Type 0 where
  pub grpc_store : s.grpc.acl_store ≡ postgres_pool c.postgres_dsn
  pub http_store : s.http.acl_store ≡ postgres_pool c.postgres_dsn
  pub secret : s.grpc.verifier.secret ≡ c.jwt_secret
  pub public_key : configured_key x c.jwt_public_key_pem ≡ ok s.grpc.verifier.pub_key
  pub has_key : (c.jwt_secret ≢ []) ⊎ ((k : K) × (s.grpc.verifier.pub_key ≡ some k))
  pub http_verifier : s.http.verifier ≡ s.grpc.verifier
  pub gateway : s.http.grpc_addr ≡ s.grpc.addr
  pub storage : new_from_config connected (factory_config c) ≡ ok s.http.storage

has_key-moved :
    {K : Type 0} (w v : JwtVerifier K) (secret : Text)
    → w ≡ v
    → v.secret ≡ secret
    → (v.secret ≢ []) ⊎ ((k : K) × (v.pub_key ≡ some k))
    → (secret ≢ []) ⊎ ((k : K) × (w.pub_key ≡ some k))
has_key-moved w v secret same is_secret (inl some_secret) = inl (λ z. some_secret (is_secret ∙ z))
has_key-moved {K = K} w v secret same is_secret (inr (k, set)) =
    inr (k, ap (λ (u : JwtVerifier K). u.pub_key) same ∙ set)

-- Servers that start with the configuration of the environment, whatever it is, read their access
-- entries from Postgres and never from the empty store in memory. Both have one verifier, with the
-- configured secret and public key, of which one is given; the HTTP server forwards to the address
-- on which the gRPC server listens; and the storage is the one that the factory makes.
pub servers-load_from_env :
    {K : Type 0} (x : X509 K) (connected : Bool) (pool : Text → Bool) (env : Text → Text)
    (s : Servers K)
    → servers x connected pool (load_from_env env) ≡ ok s
    → IsBuilt x connected (load_from_env env) s
unfolding servers new_grpc_server new_http_server
servers-load_from_env {K = K} x connected pool env s e =
    let c = load_from_env env in
    let (st, made, more) = chained _ _ e in
    let (store, chosen, rest) = chained _ _ more in
    let (v, verified, built) = chained _ _ rest in
    let (is_postgres, _) = acl_store-postgres pool c store (dsn-ne_nil env) chosen in
    let same : s ≡ record {
      grpc = new_grpc_server c.grpc_addr v store;
      http = new_http_server c.http_addr c.grpc_addr v st store;
    } =
      sym (ap (started s) built) in
    let verifier : s.grpc.verifier ≡ v = ap (λ (t : Servers K). t.grpc.verifier) same in
    let keys = or_fatal-ok StartError.jwt_verifier _ v verified in
    let (is_secret, is_key) = new_jwt_verifier-keys x _ _ _ _ v keys in
    record {
      grpc_store = ap (λ (t : Servers K). t.grpc.acl_store) same ∙ is_postgres;
      http_store = ap (λ (t : Servers K). t.http.acl_store) same ∙ is_postgres;
      secret = ap (λ (w : JwtVerifier K). w.secret) verifier ∙ is_secret;
      public_key = is_key ∙ ap (λ (w : JwtVerifier K). ok w.pub_key) (sym verifier);
      has_key =
          has_key-moved s.grpc.verifier v c.jwt_secret verifier is_secret
            (new_jwt_verifier-has_key x _ _ _ _ v keys);
      http_verifier = ap (λ (t : Servers K). t.http.verifier) same ∙ sym verifier;
      gateway =
          ap (λ (t : Servers K). t.http.grpc_addr) same
          ∙ sym (ap (λ (t : Servers K). t.grpc.addr) same);
      storage =
          or_fatal-ok storage_init _ st made ∙ ap (λ (t : Servers K). ok t.http.storage) (sym same);
    }
