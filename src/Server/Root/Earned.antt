-- ===== src/Server/Root/Earned.antt =====
-- What a client of the HTTP server gets, it gets with a token that the verifier accepts.
use file_server_management.Prelude.{
  ℕ, ◌≡◌, refl, true, List, some, Result, ok, Result-cases, Bool-cases, inl, inr,
}
use file_server_management.Text.{Text, txt, text_eq}
use file_server_management.Auth.{AuthContext, AclStore, perm_read}
use file_server_management.Auth.Jwt.{JwtError}
use file_server_management.Auth.Resolver.{can_access}
use file_server_management.Gate.{Context, with_auth_context, http_auth_middleware}
use file_server_management.Server.{Read, ObjectStorage, HttpReply, content, handle_download}
use file_server_management.Server.Http.{handle_download-content}
use file_server_management.Server.Root.{
  RootReply, downloaded, forwarded, forwarded_or_refused, mux_path, root_handler,
}

module _ {W A : Type 0} (parse : Text → Result JwtError AuthContext) (fuel : ℕ) (store : AclStore)
    (storage : ObjectStorage W) (gateway : Context → A) (ctx : Context) (header query : Text)
    (w : W) where
  -- Why a download has content: the caller may read what is served.
  abbrev pub IsReadable : AuthContext → List Read → Type 0
  IsReadable a reads =
      (can_access fuel a query perm_read store ≡ some true)
      × (storage.open_reader query w ≡ some reads)

  -- What the token is behind an answer; an error or a redirection needs none.
  abbrev pub IsEarned : RootReply A → Type 0
  IsEarned (forwarded x) =
      (a : AuthContext) × (parse header ≡ ok a) × (x ≡ gateway (with_auth_context ctx a))
  IsEarned (downloaded (content reads)) =
      (a : AuthContext) × (parse header ≡ ok a) × IsReadable a reads
  IsEarned _ = Unit

  downloaded-IsEarned :
      (r : HttpReply)
      → handle_download parse fuel store storage header query w ≡ r
      → IsEarned (downloaded r)
  downloaded-IsEarned (content reads) e =
      let (a, valid, allowed, opened) =
        handle_download-content parse fuel store storage header query w reads e in
      (a, valid, (allowed, opened))
  downloaded-IsEarned HttpReply.unauthorized e = tt
  downloaded-IsEarned HttpReply.missing_path e = tt
  downloaded-IsEarned HttpReply.forbidden e = tt
  downloaded-IsEarned HttpReply.not_found e = tt
  downloaded-IsEarned HttpReply.running e = tt

  forwarded-IsEarned :
      IsEarned (forwarded_or_refused (http_auth_middleware parse ctx header gateway))
  unfolding http_auth_middleware
  forwarded-IsEarned = elim (Result-cases (parse header)) [
    | inl (a, valid) ↦ rw (valid, http_auth_middleware) (a, valid, refl)
    | inr (e, invalid) ↦ rw (invalid, http_auth_middleware) tt
  ]

  -- Whatever path a client of the HTTP server asks for, an answer that is no error and no
  -- redirection has a token that the verifier accepts behind it: content that its caller may read,
  -- as the storage holds it, or the gateway's answer on behalf of that caller.
  pub root_handler-IsEarned :
      (path : Text)
      → IsEarned (root_handler parse fuel store storage gateway ctx path header query w)
  unfolding root_handler
  root_handler-IsEarned path = elim (Bool-cases (text_eq path (mux_path path))) [
    | inr unclean ↦ rw (root_handler, unclean) tt
    | inl as_is ↦ elim (Bool-cases (text_eq path (txt "/v1/objects:download"))) [
      | inl download ↦ rw (root_handler, as_is, download) (downloaded-IsEarned _ refl)
      | inr other ↦ rw (root_handler, as_is, other) forwarded-IsEarned
    ]
  ]
