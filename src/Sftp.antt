-- ===== src/Sftp.antt =====
-- internal/filesystem/sftp_client.go: the file system of a remote host, over the calls of the SSH
-- and SFTP libraries.
pub mod Connect
pub mod Join
pub mod NewFile
pub mod Moved
use file_server_management.Prelude.{
  ℕ, ◌≡◌, Bool, true, false, not, ◌&&◌, List, [], ◌∷◌, ◌++◌, Option, none, some, Result, ok, err,
  ◌>>=◌, drop, if◌then◌else◌,
}
use file_server_management.Text.{Text, txt, text_eq}
use file_server_management.FilePath.{clean, dir, join, is_abs}
use file_server_management.Os.{Bytes, Source}

-- `SftpFs`, but for its connection
pub record SftpFs : Type 0 where
  pub addr : Text
  pub user : Text
  pub password : Text
  pub private_key : Text
  pub base_root : Text

pub data SftpError : Type 0 where
  parse_private_key : SftpError
  no_auth_method : SftpError
  host_key_not_configured : SftpError
  dial_failed : SftpError
  client_failed : SftpError

-- The SSH and SFTP libraries: signers, callbacks for host keys, connections and clients.
pub record Ssh : Type 1 where
  pub Auth : Type 0
  pub HostKeyCallback : Type 0
  pub Connection : Type 0
  pub Client : Type 0
  pub parse_private_key : Text → Option Auth
  pub password_auth : Text → Auth
  pub dial : (addr user : Text) → Auth → HostKeyCallback → Option Connection
  pub new_client : Connection → Option Client

module _ (ssh : Ssh) where
  -- `hostKeyCallback`
  unfoldable pub host_key_callback : SftpFs → Result SftpError ssh.HostKeyCallback
  host_key_callback s = err host_key_not_configured

  abbrev pub or_error : {A : Type 0} → SftpError → Option A → Result SftpError A
  or_error e none = err e
  or_error e (some a) = ok a

  -- The choice of the authentication in `connect`.
  unfoldable pub auth_method : SftpFs → Result SftpError ssh.Auth
  auth_method s =
      if not (text_eq s.private_key [])
      then or_error SftpError.parse_private_key (ssh.parse_private_key s.private_key)
      else (if not (text_eq s.password [])
          then ok (ssh.password_auth s.password)
          else err no_auth_method)

  -- `connect`: the client and the connection.
  unfoldable pub connect : SftpFs → Result SftpError (ssh.Client × ssh.Connection)
  connect s = auth_method s >>= λ a. host_key_callback s >>= λ callback.
      or_error dial_failed (ssh.dial s.addr s.user a callback) >>= λ conn.
      or_error client_failed (ssh.new_client conn) >>= λ client. ok (client, conn)

  -- `NewSftpFs`
  unfoldable pub new_sftp_fs :
      (addr user password private_key base_root : Text)
      → Result SftpError (SftpFs × (ssh.Client × ssh.Connection))
  new_sftp_fs addr user password private_key base_root =
      let cfg : SftpFs = record {
        addr = addr;
        user = user;
        password = password;
        private_key = private_key;
        base_root = clean base_root;
      } in
      connect cfg >>= λ connection. ok (cfg, connection)

-- The path of the request in `remoteJoin`: an absolute one loses its first slash.
unfoldable pub remote_request : List Text → Text
remote_request parts =
    let cleaned = clean (join parts) in if is_abs cleaned then drop 1 (clean cleaned) else cleaned

-- `remoteJoin`
unfoldable pub remote_join : SftpFs → List Text → Text
remote_join s parts = join (s.base_root ∷ remote_request parts ∷ [])

-- The calls of the SFTP client, on the state `W` of the remote disk.
pub record SftpClient (W : Type 0) : Type 0 where
  pub mkdir_all : Text → W → Bool × W
  -- OpenFile with O_CREATE, O_WRONLY and O_TRUNC
  pub open_empty : Text → W → Bool × W
  pub write : Text → Bytes → W → Bool × W
  pub chmod : Text → ℕ → W → Bool × W
  pub rename : Text → Text → W → Bool × W
  pub open_file : Text → W → Option Source
  pub remove : Text → W → Bool × W

-- `if err := ...; err != nil { return err }`
abbrev pub and_then : {W : Type 0} → Bool × W → (W → Bool × W) → Bool × W
and_then (true, w) next = next w
and_then (false, w) next = (false, w)

module _ {W : Type 0} (client : SftpClient W) where
  -- io.Copy to an open file
  unfoldable pub remote_copy : Text → Source → W → Bool × W
  remote_copy t src w = let r = client.write t src.0 w in (r.0 && src.1, r.1)

  -- `AtomicWriteFile`, on the path that `remoteJoin` gives; `nanos` is the time of the call.
  unfoldable pub write_and_rename : ℕ → (nanos full : Text) → Source → W → Bool × W
  write_and_rename mode nanos full src w =
      let tmp = full ++ txt ".tmp-" ++ nanos in
      and_then (client.mkdir_all (dir full) w) (λ w1. and_then (client.open_empty tmp w1) (λ w2.
        and_then (remote_copy tmp src w2)
          (λ w3. client.rename tmp full (client.chmod tmp mode w3).1)))

  -- The copy behind a rename that failed.
  unfoldable pub remote_copy_and_remove : (src dst : Text) → W → Bool × W
  remote_copy_and_remove src dst w = elim (client.open_file src w) [
    | none ↦ (false, w)
    | some source ↦
        and_then (client.open_empty dst w)
          (λ w1. and_then (remote_copy dst source w1) (λ w2. client.remove src w2))
  ]

  abbrev pub or_remote_copy : (src dst : Text) → Bool × W → Bool × W
  or_remote_copy src dst (true, w) = (true, w)
  or_remote_copy src dst (false, w) = remote_copy_and_remove src dst w

  -- `CreateFolder`
  unfoldable pub sftp_create_folder : SftpFs → List Text → W → Bool × W
  sftp_create_folder s parts w = client.mkdir_all (remote_join s parts) w

  -- `AtomicWriteFile`
  unfoldable pub sftp_atomic_write : SftpFs → ℕ → (nanos : Text) → Source → List Text → W → Bool × W
  sftp_atomic_write s mode nanos src parts w =
      write_and_rename mode nanos (remote_join s parts) src w

  -- `MoveUploadedFile`
  unfoldable pub sftp_move : SftpFs → List Text → List Text → W → Bool × W
  sftp_move s src dst w =
      or_remote_copy (remote_join s src) (remote_join s dst)
        (client.rename (remote_join s src) (remote_join s dst) w)
