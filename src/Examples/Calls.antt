-- ===== src/Examples/Calls.antt =====
-- Calls through the interceptors, downloads, and tokens, with a verifier that knows one header.
use file_server_management.Prelude.{
  ℕ, ◌≡◌, ◌↔◌, refl, Bool, true, false, List, [], ◌∷◌, Option, none, some, Result, ok, err, arith,
  Bool-cases, inl, inr, any,
}
use file_server_management.Text.{
  Text, txt, text_eq, text_eq_iff, has_prefix, trim_space, trim_left, trim_right, to_lower,
  contains, replace_all, trim_suffix,
}
use file_server_management.FilePath.{is_abs, dir, clean}
use file_server_management.Auth.{
  perm_write, in_memory, set_acl, new_in_memory_acl_store, get_acls, find_flag, role_permissions,
}
use file_server_management.Auth.Resolver.{
  can_access, can_access_paths, parent_paths, granted_by_acl, granted_by_role, acl_grants,
  entries_of,
}
use file_server_management.Auth.Jwt.{
  JwtError, invalid_token, SigningMethod, hmac, Claims, Key, secret_key, public_key, JwtVerifier,
  X509, JwtLibrary, token_of, key_func, check_claims, parse_auth_context, configured_key,
  new_jwt_verifier,
}
use file_server_management.Auth.Jwt.Accepted.{
  IsAccepted, ChecksSignature, context_of, parse_auth_context_iff,
}
use file_server_management.Authz.{
  Request, create_folder, list_objects, method_permission, find, extract_path, normalize, collapse,
}
use file_server_management.Gate.{
  replied, Context, with_auth_context, from_context, authorization_values, authenticate, authorize,
  grpc_auth_interceptor, grpc_authz_interceptor, unary_chain,
}
use file_server_management.Gate.Total.{answer, unary_chain-eq-answer}
use file_server_management.Gate.Stream.{
  AuthzServerStream, grpc_stream_auth_interceptor, grpc_authz_stream_interceptor, stream_chain,
}
use file_server_management.Server.Download.{IsPrefix, download_loop-IsPrefix}
use file_server_management.Server.{
  Read, more, send_failed, download_loop, last, ObjectStorage, content, handle_download,
}
use file_server_management.Examples.{alice, entries, parse}

runs : Unit {0}
unfolding unary_chain grpc_auth_interceptor grpc_authz_interceptor authenticate authorization_values
    authorize from_context with_auth_context method_permission find extract_path normalize
    trim_space trim_left trim_right collapse contains replace_all trim_suffix has_prefix text_eq
    can_access can_access_paths parent_paths granted_by_acl granted_by_role acl_grants entries_of
    set_acl new_in_memory_acl_store get_acls find_flag role_permissions dir clean is_abs any
    stream_chain grpc_stream_auth_interceptor grpc_authz_stream_interceptor handle_download
runs = tt

abbrev pub metadata : Text → List Text
metadata k = elim (text_eq k (txt "authorization")) [ true ↦ txt "Bearer t1" ∷ [] | false ↦ [] ]

abbrev pub call : Context
call = record { metadata = some metadata; auth = none }

abbrev pub make_docs : Request
make_docs = create_folder (txt "/projects/") (txt "docs") (txt "alice")

abbrev pub make_folder : Text
make_folder = txt "/fileengine.FileEngine/CreateFolder"

abbrev handler : Context → Request → ℕ
handler ctx req = 7

allowed_run :
    unary_chain parse 60 (in_memory entries) make_folder handler call make_docs ≡ replied 7
unfolding runs
allowed_run = refl

unary_chain-eq-answer_example :
    unary_chain parse 60 (in_memory entries) make_folder handler call make_docs
    ≡ answer parse 60
        (in_memory entries)
        make_folder
        handler
        call
        make_docs
        (authenticate parse call)
unary_chain-eq-answer_example =
    unary_chain-eq-answer parse 60 (in_memory entries) make_folder handler call make_docs
      (unfold trim_suffix in omega arith)

abbrev guard : AuthzServerStream
guard = record { auth_ctx = alice; perm = perm_write; store = in_memory entries; checked = false }

abbrev elsewhere : Request
elsewhere = list_objects (txt "/other")

abbrev stream_handler : Context → Option AuthzServerStream → ℕ
stream_handler ctx none = 0
stream_handler ctx (some s) = 1

stream_run : stream_chain parse (in_memory entries) make_folder stream_handler call ≡ replied 1
unfolding runs
stream_run = refl

-- A storage with one file.
abbrev pub one_file : ObjectStorage (Unit {0})
one_file = record {
  list = λ p w. some [];
  atomic_write = λ p b w. (false, w);
  open_reader =
      λ p w. elim (text_eq p (txt "/a")) [ true ↦ some (last (1 ∷ 2 ∷ []) ∷ []) | false ↦ none ];
}

download_run :
    handle_download parse 100 (in_memory entries) one_file (txt "Bearer t1") (txt "/a") tt
    ≡ content (last (1 ∷ 2 ∷ []) ∷ [])
unfolding runs
download_run = refl

abbrev pub alice_claims : Claims
alice_claims = record {
  subject = txt "alice";
  issuer = txt "idp";
  audience = [];
  roles = txt "viewer" ∷ [];
}

-- A library that knows one token, signed by HMAC with the secret "s3cret".
abbrev pub checked_key : Result JwtError (Key (Unit {0})) → Result JwtError (Bool × Claims)
checked_key (ok (secret_key s)) = elim (text_eq s (txt "s3cret")) [
  | true ↦ ok (true, alice_claims)
  | false ↦ err invalid_token
]
checked_key _ = err invalid_token

abbrev pub library : JwtLibrary (Unit {0})
library = record {
  parse_with_claims = λ token keys. elim (text_eq token (txt "t1")) [
    | true ↦ checked_key (keys hmac)
    | false ↦ err invalid_token
  ];
  verify_audience = λ claimed expected. false;
}

abbrev verifier : JwtVerifier (Unit {0})
verifier = record { secret = txt "s3cret"; pub_key = none; issuer = txt "idp"; audience = [] }

token_run : parse_auth_context library verifier (txt " BEARER t1 ") ≡ ok (context_of alice_claims)
unfolding parse_auth_context token_of key_func check_claims text_eq trim_space trim_left trim_right
    has_prefix to_lower
token_run = refl

parse_auth_context_iff_example :
    (parse_auth_context library verifier (txt " BEARER t1 ") ≡ ok (context_of alice_claims))
    ↔ IsAccepted library verifier (txt " BEARER t1 ") (context_of alice_claims)
parse_auth_context_iff_example =
    parse_auth_context_iff library verifier (txt " BEARER t1 ") (context_of alice_claims)

abbrev pub SignedByHmac : SigningMethod → Key (Unit {0}) → Text → Claims → Type 0
SignedByHmac hmac (secret_key s) token claims = token ≡ txt "t1"
SignedByHmac _ _ token claims = ⊥

pub library-ChecksSignature : ChecksSignature library SignedByHmac
library-ChecksSignature = record {
  checks = λ token keys claims e. elim (Bool-cases (text_eq token (txt "t1"))) [
    | inl known ↦
        let (k, given, signed) =
          by_key token claims (keys hmac) (rw (known, library) at e)
            ((text_eq_iff token (txt "t1")).0 known) in
        (hmac, k, given, signed)
    | inr unknown ↦ absurd (cc (rw (unknown, library) at e))
  ];
}
  where
    by_key :
        (token : Text) (claims : Claims) (r : Result JwtError (Key (Unit {0})))
        → checked_key r ≡ ok (true, claims)
        → token ≡ txt "t1"
        → (k : Key (Unit {0})) × (r ≡ ok k) × SignedByHmac hmac k token claims
    by_key token claims (ok (secret_key s)) e known = (secret_key s, refl, known)
    by_key token claims (ok (public_key k)) e known = absurd cc
    by_key token claims (err x) e known = absurd cc

abbrev no_pem : X509 (Unit {0})
no_pem = record {
  pem_decode = λ t. none;
  parse_pkix_public_key = λ b. none;
  parse_certificate = λ b. none;
}

verifier_run : new_jwt_verifier no_pem (txt "s3cret") [] (txt "idp") [] ≡ ok verifier
unfolding new_jwt_verifier configured_key text_eq
verifier_run = refl

-- The second chunk is not delivered.
abbrev two_reads : List (Read × Bool)
two_reads = (more (1 ∷ 2 ∷ []), true) ∷ (more (3 ∷ []), false) ∷ (last (4 ∷ []), true) ∷ []

two_reads_run : download_loop two_reads ≡ ((1 ∷ 2 ∷ []) ∷ [], send_failed)
unfolding download_loop
two_reads_run = refl

download_loop-IsPrefix_example : IsPrefix (download_loop two_reads) (1 ∷ 2 ∷ 3 ∷ 4 ∷ [])
download_loop-IsPrefix_example = download_loop-IsPrefix two_reads
