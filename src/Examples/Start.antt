-- ===== src/Examples/Start.antt =====
-- Servers that start with an environment of one variable.
use file_server_management.Prelude.{◌≡◌, refl, true, [], none, ok, if◌then◌else◌}
use file_server_management.Text.{
  Text, txt, text_eq, to_lower, trim_space, trim_left, trim_right, is_space,
}
use file_server_management.Auth.Jwt.{X509, JwtVerifier, new_jwt_verifier, configured_key}
use file_server_management.Storage.{local_storage, new_from_config}
use file_server_management.Server.Listen.{postgres_pool, new_grpc_server, new_http_server}
use file_server_management.Config.{
  get_env, load_from_env, factory_config, default_dsn, Servers, acl_store, servers,
}

-- Only the secret is set.
abbrev pub env : Text → Text
env k = if text_eq k (txt "JWT_SECRET") then txt "s3cret" else []

abbrev pub no_keys : X509 (Unit {0})
no_keys = record {
  pem_decode = λ t. none;
  parse_pkix_public_key = λ b. none;
  parse_certificate = λ b. none;
}

abbrev pub verifier : JwtVerifier (Unit {0})
verifier = record { secret = txt "s3cret"; pub_key = none; issuer = []; audience = [] }

abbrev pub running : Servers (Unit {0})
running = record {
  grpc = record { addr = txt ":50051"; verifier = verifier; acl_store = postgres_pool default_dsn };
  http = record {
    addr = txt ":8080";
    grpc_addr = txt ":50051";
    verifier = verifier;
    storage = local_storage (txt "/mnt/files");
    acl_store = postgres_pool default_dsn;
  };
}

pub start_run : servers no_keys true (λ dsn. true) (load_from_env env) ≡ ok running
unfolding servers new_grpc_server new_http_server load_from_env get_env factory_config acl_store
    new_from_config new_jwt_verifier configured_key text_eq to_lower trim_space trim_left trim_right
    is_space
start_run = refl
