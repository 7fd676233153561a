-- ===== src/Lib.antt =====
-- The file engine (file-engine/): a gRPC and HTTP service, in Go, that keeps files for clients in
-- a local directory, in S3 or in Google Cloud Storage, checks each call against a token and a
-- table of access entries, and hands slow work to a worker through a queue in Redis.
--
-- A gRPC call passes two interceptors: the first reads a token from the call's metadata and asks
-- the verifier for the caller, the second looks up which permission the method needs, extracts
-- the request's path, and asks `CanAccess`. The handler behind them calls the storage, or puts a
-- task into the queue; the worker takes it out and calls the storage. The HTTP download does the
-- same checks by hand.
--
-- Which file models what (sources are below file-engine/internal):
--   Auth            auth/acl.go, permissions.go, roles.go, store.go, inmemory_store.go
--   Auth/Resolver   auth/resolver.go: `parent_paths` (parentPaths), `can_access` (CanAccess)
--   Auth/Ancestors, Auth/Grants, Auth/Inherit   proofs on these; Auth/Documented has the order of
--                   resolution that docs/auth.md gives, which the code does not follow
--   Auth/Jwt        auth/jwt.go; its children Keys and Accepted have the proofs
--   Authz           authz/method_map.go, authz/path_extract.go; its child Normalize the proofs
--   Gate            auth/grpc_interceptor.go, http_middleware.go, context.go,
--                   authz/grpc_authz_interceptor.go, the chains of server/server.go; children:
--                   Unary and Total for unary calls, Stream for streams
--   LocalFs         adapters/fs/local/local.go, filesystem/fs.go: `sanitizeAndJoin`
--   Os              the operations on the disk of adapters/storage/local/local_storage.go and
--                   adapters/fs/local/local.go, over the calls of package os; children: Steps says
--                   what the calls do; Atomic, Writes and Move have the proofs; Cleaned is
--                   filesystem/fs.go, which resolves links and removes temporary files
--   Storage         storage/, adapters/storage/: the choice of a backend, paths and keys
--   Queue           adapters/queue/redisq, app/tasks/processor.go, worker/worker_impl.go; Worker:
--                   app/tasks/worker.go, worker/worker.go
--   Server          handlers/grpc_handler.go, services/object_service.go, server/download_http.go
--   Os/Unchecked    fs/local_fs.go
--   Objects         adapters/storage/gcs/gcs_storage.go (Gcs) and adapters/storage/s3/s3_storage.go
--                   (S3), over the calls of their clients; Contract says what storage/storage.go
--                   promises of them: one step on a map from keys for each operation;
--                   S3/Escape has the URL encoding that S3 asks for in copy sources
--   Auth/Postgres   auth/postgres_store.go; its children have the proofs
--   Sftp            filesystem/sftp_client.go
--   Config          config/config.go, and what di/container.go builds of it
--   Queue/Interleaved   calls of many servers and workers on one queue, in any order
--   Queue/Drained, Server/Folder   a folder from the call over the queue to the storage
--   Server/Root     the handlers of the HTTP server in server/server.go
--   Server/Listen   the two servers of server/server.go, and what they serve once they listen
--   Process         cmd/file-engine/main.go, below file-engine/: the process that an environment
--                   starts, and the calls that it answers; Work: cmd/worker/main.go
--   Objects/Race    uploads of many writers to one bucket, call by call, in any order
--   Os/Race         the same for AtomicWrite of the local backend
--   TaskTable       cmd/main.go, below file-engine/: the handlers and the table of tasks
--   Migrate         cmd/migrate/main.go, below file-engine/
--   Text, FilePath  what the sources use of Go's strings and path/filepath, on texts as lists of
--                   code points, for slash-separated paths
--   Prelude         names and lemmas that all files share
--   Examples        inputs, runs of the definitions, and the theorems applied to them
--
-- Loops whose end is in question run on fuel, and `none` (or `running`, `stuck`) says that the
-- fuel is used up. `parentPaths` and `normalize` need no more rounds than their text has characters
-- and two more, and a whole unary call three more; the bounds are proved. All else is structural
-- recursion. A reader's answers are a list, and a worker's run a list of rounds.
--
-- Maps are lists of entries or functions from keys. A call that fails is a result; the text of an
-- error's message is not kept. Texts are lists of code points, and `to_lower` is that of ASCII.
--
-- Parameters: the JWT and X.509 libraries, filepath.Abs and filepath.EvalSymlinks, Redis,
-- encoding/json, package os, the clients of the two object stores, the SSH and SFTP libraries, the
-- database, the network, the gateway, the environment, and the storage behind the handlers. What a
-- theorem needs of them is a named hypothesis (`ChecksSignature`, `EvalIsClean`, `IsRedis`, `IsRoundTrip`, `IsConsistent`,
-- `IsOs`, `IsNoTemp`, `IsGcs`, `IsS3`, `IsTable`, `IsUp`, `IsSftp`, `IsSftpMove`, `IsApart`).
--
-- Not modelled: goroutines but for writes to one backend and calls on one queue, locks, timeouts and
-- shutdown, how the clients of the object stores, of Redis and of the database are made, the
-- commands cmd/server and cmd/gateway, whose handlers are stubs, pkg/generated, the logger, and
-- everything outside file-engine/.
pub mod Prelude
pub mod TaskTable
pub mod Migrate
pub mod Text
pub mod FilePath
pub mod LocalFs
pub mod Auth
pub mod Authz
pub mod Gate
pub mod Storage
pub mod Os
pub mod Objects
pub mod Sftp
pub mod Queue
pub mod Server
pub mod Config
pub mod Process
pub mod Examples
