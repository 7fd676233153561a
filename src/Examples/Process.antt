-- ===== src/Examples/Process.antt =====
-- A process that is started with one variable in its environment, and its calls.
mod Uploads
mod Streams
use file_server_management.Prelude.{
  ◌≡◌, refl, ℕ, true, false, List, [], ◌∷◌, Option, none, some, Result, ok, arith, length, any,
}
use file_server_management.Text.{
  Text, txt, text_eq, has_prefix, trim_space, trim_left, trim_right, to_lower, is_space, contains,
  replace_all, trim_suffix, has_suffix,
}
use file_server_management.FilePath.{is_abs, render, dir, clean, split_slash, walk}
use file_server_management.Auth.{
  AuthContext, perm_write, perm_read, find_flag, role_permissions, set_acl, new_in_memory_acl_store,
}
use file_server_management.Auth.Resolver.{
  can_access, parent_paths, can_access_paths, granted_by_acl, granted_by_role, acl_grants,
  entries_of, by_path,
}
use file_server_management.Auth.Jwt.{
  new_jwt_verifier, configured_key, parse_auth_context, token_of, key_func, check_claims,
}
use file_server_management.Auth.Jwt.Accepted.{context_of}
use file_server_management.Auth.Postgres.{
  Row, acl_of_row, scanned, postgres_get_acls, postgres_get_acls_for_paths,
}
use file_server_management.Authz.{
  Request, method_permission, find, extract_path, normalize, collapse, upload_object,
}
use file_server_management.Gate.{
  Context, Reply, replied, with_auth_context, from_context, authorization_values, authenticate,
  authorize, grpc_auth_interceptor, grpc_authz_interceptor, unary_chain, http_auth_middleware,
}
use file_server_management.Gate.Stream.{AuthzServerStream, stream_chain}
use file_server_management.Storage.{Backend, new_from_config}
use file_server_management.Server.{
  ObjectStorage, Read, last, content, handle_download, upload_object_handler,
}
use file_server_management.Server.Root.{RootReply, downloaded, root_handler, mux_path}
use file_server_management.Server.Listen.{
  StoreChoice, postgres_pool, Network, FileEngineServer, GrpcService, new_grpc_server,
  new_http_server, store_at, grpc_start, http_start,
}
use file_server_management.Config.{
  load_from_env, get_env, factory_config, acl_store, servers, default_dsn,
}
use file_server_management.Process.{
  file_engine_main, RpcReply, Call, handle_call, new_grpc_handler, method_of, serve_call, serve_all,
}
use file_server_management.Process.Granted.{IsIdentified, IsGranted}
use file_server_management.Process.Answered.{
  file_engine_main-IsEarnedCall, IsEarnedCall, file_engine_main-download,
}
use file_server_management.Examples.Start.{env, no_keys, running}
use file_server_management.Examples.Calls.{
  library, SignedByHmac, library-ChecksSignature, one_file, call, make_docs, make_folder,
  alice_claims,
}
use file_server_management.Examples.Tasks.{Server, server, encoding}
use file_server_management.Examples.Database.{db, json, db-IsTable, table}

abbrev net : Network
net = record { listens = λ a. true; dials = λ a. true; registers = true }

abbrev seven : FileEngineServer ℕ ℕ
seven = record { unary = λ ctx req. 7; stream = λ ctx s. 8 }

abbrev handler : Backend → StoreChoice → FileEngineServer ℕ ℕ
handler st choice = seven

abbrev grpc : GrpcService (List Row) ℕ ℕ
grpc = record {
  unary = λ s m ctx req.
      unary_chain (parse_auth_context library running.grpc.verifier) 60
        (store_at json (λ dsn. db true) running.grpc.acl_store s) m seven.unary ctx req;
  stream = λ s m ctx.
      stream_chain (parse_auth_context library running.grpc.verifier)
        (store_at json (λ dsn. db true) running.grpc.acl_store s) m seven.stream ctx;
}

abbrev http : List Row → Context → (path header query : Text) → Unit {0} → RootReply Context
http s ctx path header query w =
    root_handler (parse_auth_context library running.http.verifier) 60
      (store_at json (λ dsn. db true) running.http.acl_store s) one_file (λ c. c) ctx path header
      query w

runs : Unit {0}
unfolding file_engine_main servers new_grpc_server new_http_server load_from_env get_env
    factory_config acl_store new_from_config new_jwt_verifier configured_key text_eq to_lower
    trim_space trim_left trim_right is_space grpc_start http_start
runs = tt

main_run :
    file_engine_main no_keys library json
      (λ dsn. db true)
      60
      net
      true
      (λ dsn. true)
      (λ st. one_file)
      (λ addr ctx. ctx)
      handler
      env
    ≡ ok (grpc, http)
unfolding runs
main_run = refl

abbrev caller : AuthContext
caller = context_of alice_claims

abbrev rows : List Row
rows =
    record { path = txt "/projects"; principal_id = txt "user:alice"; permissions = txt "w" } ∷ []

checks : Unit {0}
unfolding unary_chain grpc_auth_interceptor grpc_authz_interceptor authenticate authorization_values
    authorize from_context with_auth_context method_permission find extract_path normalize
    trim_space trim_left trim_right collapse contains replace_all trim_suffix has_prefix text_eq
    can_access can_access_paths parent_paths granted_by_acl granted_by_role acl_grants entries_of
    set_acl new_in_memory_acl_store find_flag role_permissions dir clean is_abs any handle_download
    http_auth_middleware parse_auth_context token_of key_func check_claims store_at to_lower
    is_space postgres_get_acls postgres_get_acls_for_paths scanned acl_of_row by_path render
    split_slash walk root_handler mux_path has_suffix
checks = tt

folder_call : grpc.unary rows make_folder call make_docs ≡ replied 7
unfolding checks
folder_call = refl

file_engine_main-IsEarnedCall_example :
    (a : AuthContext) × IsEarnedCall no_keys library json
      (λ dsn. db true)
      60
      net
      true
      (λ dsn. true)
      (λ st. one_file)
      (λ addr ctx. ctx)
      handler
      env
      SignedByHmac
      table
      (db-IsTable true)
      make_folder
      call
      make_docs
      rows
      a
    × ((st : Backend) × (new_from_config true (factory_config (load_from_env env)) ≡ ok st)
        × ((handler st (postgres_pool (load_from_env env).postgres_dsn)).unary
              (with_auth_context call a)
              make_docs
            ≡ 7))
file_engine_main-IsEarnedCall_example =
    file_engine_main-IsEarnedCall no_keys library json (λ dsn. db true) 60 net true (λ dsn. true)
      (λ st. one_file) (λ addr ctx. ctx) handler env SignedByHmac table (db-IsTable true) grpc http
      rows make_folder call make_docs 7 library-ChecksSignature main_run
      (unfold trim_suffix in omega arith) folder_call

file_call :
    http rows call (txt "/v1/objects:download") (txt "Bearer t1") (txt "/a") tt
    ≡ downloaded (content (last (1 ∷ 2 ∷ []) ∷ []))
unfolding checks
file_call = refl

file_engine_main-download_example :
    (a : AuthContext) × IsIdentified no_keys SignedByHmac (load_from_env env) (txt "Bearer t1") a
    × IsGranted json
        (λ dsn. db true)
        (load_from_env env).postgres_dsn
        table
        (db-IsTable true)
        a
        perm_read
        (txt "/a")
        rows
    × ((st : Backend) × (new_from_config true (factory_config (load_from_env env)) ≡ ok st)
        × (one_file.open_reader (txt "/a") tt ≡ some (last (1 ∷ 2 ∷ []) ∷ [])))
file_engine_main-download_example =
    file_engine_main-download no_keys library json (λ dsn. db true) 60 net true (λ dsn. true)
      (λ st. one_file) (λ addr ctx. ctx) handler env SignedByHmac table (db-IsTable true) grpc http
      rows call (txt "/v1/objects:download") (txt "Bearer t1") (txt "/a") tt
      (last (1 ∷ 2 ∷ []) ∷ []) library-ChecksSignature main_run (unfold is_abs in refl)
      (omega arith) file_call
