-- ===== src/Examples/Web.antt =====
-- Requests to the HTTP server.
use file_server_management.Prelude.{true, false, [], ◌∷◌, none, some}
use file_server_management.Text.{txt, text_eq}
use file_server_management.Auth.{in_memory}
use file_server_management.Gate.{Context}
use file_server_management.Server.{ObjectStorage, last}
use file_server_management.Server.Root.{root_handler}
use file_server_management.Server.Root.Earned.{IsEarned, root_handler-IsEarned}
use file_server_management.Examples.{entries, parse}

-- A storage with one file.
abbrev one_file : ObjectStorage (Unit {0})
one_file = record {
  list = λ p w. some [];
  atomic_write = λ p b w. (false, w);
  open_reader =
      λ p w. elim (text_eq p (txt "/a")) [ true ↦ some (last (1 ∷ 2 ∷ []) ∷ []) | false ↦ none ];
}

abbrev no_caller : Context
no_caller = record { metadata = none; auth = none }

root_handler-IsEarned_example :
    IsEarned parse 100
      (in_memory entries)
      one_file
      (λ ctx. ctx)
      no_caller
      (txt "Bearer t1")
      (txt "/a")
      tt
      (root_handler parse 100
        (in_memory entries)
        one_file
        (λ ctx. ctx)
        no_caller
        (txt "/v1/objects:download")
        (txt "Bearer t1")
        (txt "/a")
        tt)
root_handler-IsEarned_example =
    root_handler-IsEarned parse 100 (in_memory entries) one_file (λ ctx. ctx) no_caller
      (txt "Bearer t1") (txt "/a") tt (txt "/v1/objects:download")
