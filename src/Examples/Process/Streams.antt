-- ===== src/Examples/Process/Streams.antt =====
-- A download over gRPC from a process that is started with one variable in its environment.
use file_server_management.Prelude.{◌≡◌, refl, true, List, [], ◌∷◌, some, ok, arith}
use file_server_management.Text.{Text, txt}
use file_server_management.Auth.{AuthContext, perm_read}
use file_server_management.Auth.Jwt.{parse_auth_context}
use file_server_management.Auth.Jwt.Accepted.{context_of}
use file_server_management.Auth.Postgres.{Row}
use file_server_management.Authz.{download_object, method_permission}
use file_server_management.Gate.{replied, with_auth_context, unary_chain}
use file_server_management.Gate.Stream.{
  guard_of, recv_msg, check_message, stream_chain, grpc_stream_auth_interceptor,
  grpc_authz_stream_interceptor,
}
use file_server_management.Storage.{Backend, new_from_config}
use file_server_management.Server.{
  Read, DownloadReply, streamed, with_delivery, download_loop, download_object_handler, finished,
}
use file_server_management.Server.Listen.{StoreChoice, FileEngineServer, GrpcService, store_at}
use file_server_management.Config.{load_from_env, factory_config}
use file_server_management.Process.{
  file_engine_main, RpcReply, new_grpc_handler, service_handler, received_by,
}
use file_server_management.Process.Granted.{IsIdentified, IsGranted}
use file_server_management.Examples.Start.{env, no_keys, running}
use file_server_management.Examples.Calls.{
  library, SignedByHmac, library-ChecksSignature, one_file, call, alice_claims,
}
use file_server_management.Examples.Tasks.{Server, server, encoding}
use file_server_management.Examples.Database.{db, json, db-IsTable, table}
use file_server_management.Authz.Normalize.{normal_form}
use file_server_management.Process.Granted.{IsFirstValue}
use file_server_management.Process.Streamed.{file_engine_main-streamed}
use file_server_management.Examples.Process.{net, runs, checks, rows, http}

abbrev full_handler :
    Backend
    → StoreChoice
    → FileEngineServer
        (Text → Server × Unit {0} → RpcReply × (Server × Unit {0}))
        (List Row → Text → Unit {0} → DownloadReply)
full_handler = service_handler server encoding (λ st. one_file) json (λ dsn. db true) 60 (λ n. true)

abbrev held :
    FileEngineServer
      (Text → Server × Unit {0} → RpcReply × (Server × Unit {0}))
      (List Row → Text → Unit {0} → DownloadReply)
held = full_handler running.http.storage running.grpc.acl_store

abbrev grpc :
    GrpcService
      (List Row)
      (Text → Server × Unit {0} → RpcReply × (Server × Unit {0}))
      (List Row → Text → Unit {0} → DownloadReply)
grpc = record {
  unary = λ s m ctx req.
      unary_chain (parse_auth_context library running.grpc.verifier) 60
        (store_at json (λ dsn. db true) running.grpc.acl_store s) m held.unary ctx req;
  stream = λ s m ctx.
      stream_chain (parse_auth_context library running.grpc.verifier)
        (store_at json (λ dsn. db true) running.grpc.acl_store s) m held.stream ctx;
}

main_run :
    file_engine_main no_keys library json
      (λ dsn. db true)
      60
      net
      true
      (λ dsn. true)
      (λ st. one_file)
      (λ addr ctx. ctx)
      full_handler
      env
    ≡ ok (grpc, http)
unfolding runs
main_run = refl

abbrev download : Text
download = txt "/fileengine.FileEngine/DownloadObject"

abbrev answer : List Row → Text → Unit {0} → DownloadReply
answer s path w =
    received_by 60
      (guard_of (store_at json (λ dsn. db true) running.grpc.acl_store rows)
        (context_of alice_claims) (some perm_read))
      (download_object path)
      (download_object_handler one_file 60 (store_at json (λ dsn. db true) running.grpc.acl_store s)
        (λ n. true) (with_auth_context call (context_of alice_claims)) path w)

stream_run : grpc.stream rows download call ≡ replied answer
unfolding checks method_permission stream_chain grpc_stream_auth_interceptor
    grpc_authz_stream_interceptor service_handler new_grpc_handler
stream_run = refl

bytes_run : answer rows (txt "/a") tt ≡ streamed ((1 ∷ 2 ∷ []) ∷ [], finished)
unfolding checks download_object_handler download_loop recv_msg check_message
bytes_run = refl

file_engine_main-streamed_example :
    (a : AuthContext) × (header : Text) × IsFirstValue call header
    × IsIdentified no_keys SignedByHmac (load_from_env env) header a
    × IsGranted json
        (λ dsn. db true)
        (load_from_env env).postgres_dsn
        table
        (db-IsTable true)
        a
        perm_read
        (normal_form (txt "/a"))
        rows
    × ((st : Backend) × (new_from_config true (factory_config (load_from_env env)) ≡ ok st)
        × ((reads : List Read) × (one_file.open_reader (txt "/a") tt ≡ some reads)
            × (((1 ∷ 2 ∷ []) ∷ [], finished) ≡ download_loop (with_delivery (λ n. true) 0 reads))))
file_engine_main-streamed_example =
    file_engine_main-streamed no_keys library json (λ dsn. db true) 60 net true (λ dsn. true)
      (λ st. one_file) (λ addr ctx. ctx) server encoding (λ n. true) env SignedByHmac table
      (db-IsTable true) grpc http rows download call answer (txt "/a") tt
      ((1 ∷ 2 ∷ []) ∷ [], finished) library-ChecksSignature main_run (omega arith) stream_run
      bytes_run
