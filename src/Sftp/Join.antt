-- ===== src/Sftp/Join.antt =====
-- `remoteJoin` of internal/filesystem/sftp_client.go checks nothing.
use file_server_management.Prelude.{
  ◌≡◌, refl, true, false, List, [], ◌∷◌, ◌++◌, arith, All, All-right, ap, ◌∙◌, reverse,
  reverse-append, reverse-reverse,
}
use file_server_management.Text.{Text, text_eq, text_eq_iff, has_prefix}
use file_server_management.FilePath.{
  dotdot, render, clean, join, is_abs, walk, step, split_slash, join_slash,
}
use file_server_management.FilePath.Segments.{split_slash-slashes}
use file_server_management.FilePath.Walk.{IsPlain, walk-cons, walk_of_IsPlain}
use file_server_management.FilePath.Rooted.{join-render, IsPlain-NoSlash}
use file_server_management.Sftp.{SftpFs, remote_request, remote_join}

clean_relative :
    (t : Text) (xs : List Text)
    → is_abs t ≡ false
    → split_slash t ≡ xs
    → clean t ≡ render false (reverse (walk false [] xs))
unfolding clean
clean_relative t xs h e = rw (h, e)

-- ".." takes away the last part that there is.
step_up : (st : List Text) (b : Text) → IsPlain b → step true (b ∷ st) dotdot ≡ st
unfolding step text_eq
step_up st b h = ground (arith, text_eq_iff b dotdot)

module _ (p : Text) (ps : List Text) (plain : All IsPlain (p ∷ ps)) where
  split_climb : split_slash (join_slash (dotdot ∷ p ∷ ps)) ≡ dotdot ∷ p ∷ ps
  unfolding join_slash
  split_climb = split_slash-slashes dotdot (p ∷ ps) (ground arith) (IsPlain-NoSlash (p ∷ ps) plain)

  climb_relative : is_abs (join_slash (dotdot ∷ p ∷ ps)) ≡ false
  unfolding is_abs join_slash has_prefix
  climb_relative = refl

  step-dotdot : step false [] dotdot ≡ dotdot ∷ []
  unfolding step text_eq
  step-dotdot = refl

  walk_climb : walk false [] (dotdot ∷ p ∷ ps) ≡ reverse (p ∷ ps) ++ dotdot ∷ []
  walk_climb = rw (walk-cons, step-dotdot, walk_of_IsPlain false (dotdot ∷ []) (p ∷ ps) plain)

  clean_climb : clean (join_slash (dotdot ∷ p ∷ ps)) ≡ join_slash (dotdot ∷ p ∷ ps)
  clean_climb =
      clean_relative _ (dotdot ∷ p ∷ ps) climb_relative split_climb
      ∙ ap (λ st. render false (reverse st)) walk_climb
      ∙ ap (render false) (
          reverse-append (reverse (p ∷ ps)) (dotdot ∷ [])
          ∙ ap (λ xs. dotdot ∷ xs) (reverse-reverse (p ∷ ps)))
      ∙ unfold render in refl

  join_climb : join (dotdot ∷ p ∷ ps) ≡ join_slash (dotdot ∷ p ∷ ps)
  unfolding join
  join_climb = clean_climb

  request_climb : remote_request (dotdot ∷ p ∷ ps) ≡ join_slash (dotdot ∷ p ∷ ps)
  unfolding remote_request
  request_climb = rw (join_climb, clean_climb, climb_relative)

  -- A request that begins with ".." leaves the base: it names a path below the base's parent.
  pub remote_join-climb :
      (s : SftpFs) (bs : List Text) (b : Text)
      → All IsPlain (bs ++ b ∷ [])
      → s.base_root ≡ render true (bs ++ b ∷ [])
      → remote_join s (dotdot ∷ p ∷ ps) ≡ render true (bs ++ p ∷ ps)
  unfolding remote_join
  remote_join-climb s bs b hb text =
      rw
        (
          text,
          request_climb,
          join-render (bs ++ b ∷ []) _ hb,
          split_climb,
          walk-cons,
          reverse-append,
          step_up (reverse bs) b (All-right IsPlain bs (b ∷ []) hb).0,
          walk_of_IsPlain true (reverse bs) (p ∷ ps) plain,
          ← reverse-append,
        )
        (ap (render true) (reverse-reverse (bs ++ p ∷ ps)))
