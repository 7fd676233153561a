-- ===== src/Examples/Process/Uploads.antt =====
-- Uploads to a process, one of which is not permitted.
use file_server_management.Prelude.{map, ◌≡◌, refl, ℕ, true, List, [], ◌∷◌, none, some, ok, arith}
use file_server_management.Text.{Text, txt}
use file_server_management.Auth.Jwt.{parse_auth_context}
use file_server_management.Auth.Postgres.{Row}
use file_server_management.Authz.{upload_object}
use file_server_management.Gate.{rejected, replied, access_denied, unary_chain}
use file_server_management.Gate.Stream.{stream_chain}
use file_server_management.Server.{ObjectStorage, upload_object_handler}
use file_server_management.Server.Listen.{FileEngineServer, GrpcService, store_at, grpc_start}
use file_server_management.Process.{
  uploaded, RpcReply, Call, handle_call, new_grpc_handler, method_of, serve_call, serve_all,
}
use file_server_management.Process.Permitted.{
  permitted, allowed_all, answer_of, serve_all-allowed_all,
}
use file_server_management.Examples.Start.{running}
use file_server_management.Examples.Calls.{library, call}
use file_server_management.Examples.Tasks.{Server, server, encoding}
use file_server_management.Examples.Database.{db, json}
use file_server_management.Examples.Process.{net, checks, rows}

-- A storage that records the paths that are written.
abbrev notes : ObjectStorage (List Text)
notes = record {
  list = λ p w. some [];
  atomic_write = λ p b w. (true, p ∷ w);
  open_reader = λ p w. none;
}

abbrev uploading : FileEngineServer (Text → Server × List Text → RpcReply × (Server × List Text)) ℕ
uploading = new_grpc_handler server encoding notes (λ c g. 8)

abbrev service :
    GrpcService (List Row) (Text → Server × List Text → RpcReply × (Server × List Text)) ℕ
service = record {
  unary = λ s m ctx req.
      unary_chain (parse_auth_context library running.grpc.verifier) 60
        (store_at json (λ dsn. db true) running.grpc.acl_store s) m uploading.unary ctx req;
  stream = λ s m ctx.
      stream_chain (parse_auth_context library running.grpc.verifier)
        (store_at json (λ dsn. db true) running.grpc.acl_store s) m uploading.stream ctx;
}

service_run : grpc_start library json (λ dsn. db true) 60 net running.grpc uploading ≡ ok service
unfolding grpc_start new_grpc_handler
service_run = refl

-- The first upload is refused, the second one is not.
abbrev uploads : List (Call (List Row))
uploads =
    record { ctx = call; req = upload_object (txt "/other/x") (1 ∷ []); id = txt "1"; at = rows }
    ∷ record { ctx = call; req = upload_object (txt "projects/x") []; id = txt "2"; at = rows }
    ∷ []

abbrev empty : Server × List Text
empty = ((λ k. [], λ k. none), [])

uploads_run :
    (serve_all service uploads empty).0 ≡ rejected access_denied ∷ replied (uploaded true) ∷ []
unfolding checks serve_all serve_call new_grpc_handler handle_call upload_object_handler method_of
uploads_run = refl

serve_all-allowed_all_example :
    (
      map (answer_of server encoding notes) (serve_all service uploads empty).0,
      (serve_all service uploads empty).1,
    )
    ≡ allowed_all server encoding notes
        (permitted library json (λ dsn. db true) 60 net running.grpc)
        uploads
        empty
serve_all-allowed_all_example =
    serve_all-allowed_all server encoding notes library json (λ dsn. db true) 60 net running.grpc
      (λ c g. 8) service service_run uploads empty (omega arith, (omega arith, tt))
