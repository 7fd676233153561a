-- ===== src/Server/Root.antt =====
-- The HTTP server of internal/server/server.go: the download, and the gateway behind the
-- middleware.
pub mod Earned
use file_server_management.Prelude.{
  ℕ, ◌≡◌, Bool, true, false, not, ◌&&◌, List, [], ◌∷◌, ◌++◌, Option, none, some, Result,
  if◌then◌else◌,
}
use file_server_management.Text.{Text, txt, text_eq, has_suffix}
use file_server_management.FilePath.{clean, is_abs}
use file_server_management.Auth.{AuthContext, AclStore}
use file_server_management.Auth.Jwt.{JwtError}
use file_server_management.Gate.{Context, http_auth_middleware}
use file_server_management.Server.{ObjectStorage, HttpReply, handle_download}

abbrev pub rooted : Text → Text
rooted p = if is_abs p then p else txt "/" ++ p

-- The clean form of a request's path, to which http.ServeMux sends the client.
unfoldable pub mux_path : Text → Text
mux_path p =
    let np = clean (rooted p) in
    if has_suffix (rooted p) (txt "/") && not (text_eq np (txt "/")) then np ++ txt "/" else np

-- `redirected` is the mux's own answer, `refused` the 401 of the middleware.
pub data RootReply (A : Type 0) : Type 0 where
  redirected : (path : Text) → RootReply A
  refused : RootReply A
  downloaded : HttpReply → RootReply A
  forwarded : A → RootReply A

abbrev pub forwarded_or_refused : {A : Type 0} → Option A → RootReply A
forwarded_or_refused none = refused
forwarded_or_refused (some a) = forwarded a

-- The handlers that `Start` gives to the root, and how the mux picks one by the path of the
-- request's URL, for every method but CONNECT; `query` is the parameter "path", and `gateway`
-- forwards to the gRPC server.
unfoldable pub root_handler :
    {W A : Type 0}
    → (Text → Result JwtError AuthContext)
    → ℕ
    → AclStore
    → ObjectStorage W
    → (gateway : Context → A) → Context
    → (path header query : Text) → W
    → RootReply A
root_handler parse fuel store storage gateway ctx path header query w =
    if not (text_eq path (mux_path path))
    then redirected (mux_path path)
    else (if text_eq path (txt "/v1/objects:download")
        then downloaded (handle_download parse fuel store storage header query w)
        else forwarded_or_refused (http_auth_middleware parse ctx header gateway))
