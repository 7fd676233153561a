-- ===== src/Server/Http.antt =====
-- The HTTP download, which checks access to the path as the client has written it.
use file_server_management.Prelude.{
  ℕ, ◌≡◌, ◌≢◌, refl, Bool, true, false, [], List, Option, none, some, Result, ok, arith,
  Result-cases, Bool-cases, inl, inr,
}
use file_server_management.Text.{Text, text_eq, text_eq_iff}
use file_server_management.FilePath.{is_abs}
use file_server_management.Auth.{AuthContext, AclStore, perm_read}
use file_server_management.Auth.Jwt.{JwtError}
use file_server_management.Auth.Resolver.{can_access}
use file_server_management.Auth.Ancestors.{parent_paths_relative}
use file_server_management.Server.{
  Read, ObjectStorage, HttpReply, content, handle_download, served, served_if,
}

can_access_relative :
    (fuel : ℕ) (ctx : AuthContext) (path : Text) (perm : Text) (store : AclStore)
    → is_abs path ≡ false
    → can_access fuel ctx path perm store ≡ none
unfolding can_access
can_access_relative fuel ctx path perm store h = rw (parent_paths_relative fuel path h)

-- A client with a valid token who asks for a path without a slash in front gets no answer at all,
-- in however many rounds: the walk to the root never meets the root.
handle_download_relative :
    {W : Type 0} (parse : Text → Result JwtError AuthContext) (fuel : ℕ) (store : AclStore)
    (storage : ObjectStorage W) (header path : Text) (w : W) (a : AuthContext)
    → parse header ≡ ok a
    → path ≢ []
    → is_abs path ≡ false
    → handle_download parse fuel store storage header path w ≡ HttpReply.running
unfolding handle_download
handle_download_relative parse fuel store storage header path w a valid some_path h =
    let not_empty : text_eq path [] ≡ false = ground (arith, text_eq_iff path []) in
    rw (valid, handle_download, not_empty, can_access_relative fuel a path perm_read store h)

-- Content is served only to a caller whose token is accepted and who may read the path, and it is
-- what the storage holds under that path.
pub handle_download-content :
    {W : Type 0} (parse : Text → Result JwtError AuthContext) (fuel : ℕ) (store : AclStore)
    (storage : ObjectStorage W) (header path : Text) (w : W) (reads : List Read)
    → handle_download parse fuel store storage header path w ≡ content reads
    → (a : AuthContext) × (parse header ≡ ok a)
      × (can_access fuel a path perm_read store ≡ some true)
      × (storage.open_reader path w ≡ some reads)
unfolding handle_download
handle_download-content parse fuel store storage header path w reads e =
    elim (Result-cases (parse header)) [
      | inr (_, failed) ↦ absurd (cc (rw (failed, handle_download) at e))
      | inl (a, valid) ↦ elim (Bool-cases (text_eq path [])) [
        | inl empty ↦ absurd (cc (rw (valid, handle_download, empty) at e))
        | inr some_path ↦
            let (allowed, opened) =
              granted (can_access fuel a path perm_read store) (storage.open_reader path w)
                (rw (valid, handle_download, some_path) at e) in
            (a, valid, allowed, opened)
      ]
    ]
  where
    granted :
        (d : Option Bool) (o : Option (List Read))
        → served_if d (served o) ≡ content reads
        → (d ≡ some true) × (o ≡ some reads)
    granted none o h = absurd (cc)
    granted (some false) o h = absurd (cc)
    granted (some true) none h = absurd (cc)
    granted (some true) (some rs) h = (refl, ground arith)
