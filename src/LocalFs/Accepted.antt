-- ===== src/LocalFs/Accepted.antt =====
-- Which requests `sanitizeAndJoin` accepts: plain names in order, unless the first begins with
-- "..".
use file_server_management.Prelude.{
  ◌≡◌, ◌≢◌, refl, true, false, List, [], ◌∷◌, ◌++◌, ok, err, arith, if◌then◌else◌, All, All-append,
  ◌∙◌, append-nil, reverse, reverse-append, reverse-reverse,
}
use file_server_management.Text.{Text, txt, has_prefix}
use file_server_management.FilePath.{
  dotdot, render, clean, join, is_abs, slashes, join_slash, split_slash,
}
use file_server_management.FilePath.Segments.{split_slash-slashes}
use file_server_management.FilePath.Walk.{IsPlain, walk_of_IsPlain}
use file_server_management.FilePath.Rooted.{join-render, descend, IsPlain-NoSlash}
use file_server_management.FilePath.Relative.{below, rel-below}
use file_server_management.LocalFs.{
  LocalFs, outside_base, relative_request, check_inside, sanitize_and_join,
}
use file_server_management.LocalFs.Sanitize.{HasBase}

join-cons : (p : Text) (ps : List Text) → p ≢ [] → join (p ∷ ps) ≡ clean (join_slash (p ∷ ps))
unfolding join
join-cons [] ps h = absurd (h refl)
join-cons (c ∷ p) ps h = refl

module _ (p : Text) (ps : List Text) (plain : All IsPlain (p ∷ ps)) where
  not_abs : is_abs (join_slash (p ∷ ps)) ≡ false
  unfolding is_abs join_slash has_prefix
  not_abs = nope p plain.0
    where
      nope : (x : Text) → IsPlain x → has_prefix (x ++ slashes ps) (txt "/") ≡ false
      nope [] h = absurd (h.0 refl)
      nope (c ∷ x) h = ground (arith, h.3.0)

  split_plain : split_slash (join_slash (p ∷ ps)) ≡ p ∷ ps
  unfolding join_slash
  split_plain = split_slash-slashes p ps plain.0.3 (IsPlain-NoSlash ps plain.1)

  clean_plain : clean (join_slash (p ∷ ps)) ≡ join_slash (p ∷ ps)
  unfolding clean
  clean_plain =
      rw
        (not_abs, split_plain, walk_of_IsPlain false [] (p ∷ ps) plain, append-nil, reverse-reverse)
        (unfold render in refl)

  join_plain : join (p ∷ ps) ≡ join_slash (p ∷ ps)
  join_plain = join-cons p ps plain.0.0 ∙ clean_plain

  request_plain : relative_request (p ∷ ps) ≡ join_slash (p ∷ ps)
  unfolding relative_request
  request_plain = rw (join_plain, clean_plain, not_abs)

  prefix_below : has_prefix (below (p ∷ ps)) dotdot ≡ has_prefix p dotdot
  unfolding has_prefix join_slash
  prefix_below = nope p plain.0
    where
      nope : (x : Text) → IsPlain x → has_prefix (x ++ slashes ps) dotdot ≡ has_prefix x dotdot
      nope [] h = absurd (h.0 refl)
      nope (c ∷ []) h = ground (arith, h.1)
      nope (c ∷ d ∷ x) h = refl

  descend_plain : (bs : List Text) → descend bs (join_slash (p ∷ ps)) ≡ bs ++ p ∷ ps
  descend_plain bs =
      rw (split_plain, walk_of_IsPlain true (reverse bs) (p ∷ ps) plain, ← reverse-append)
        (reverse-reverse _)

  check_plain :
      (bs : List Text)
      → All IsPlain bs
      → check_inside (render true bs) (render true (bs ++ p ∷ ps))
        ≡ (if has_prefix p dotdot then err outside_base else ok (render true (bs ++ p ∷ ps)))
  unfolding check_inside
  check_plain bs hb = rw (
    rel-below bs (p ∷ ps) hb (All-append IsPlain bs (p ∷ ps) hb plain),
    check_inside,
    prefix_below,
  )

-- Plain names are joined to the base in order and accepted, unless the first of them begins with
-- "..", as "..cache" does: then the request is refused, though its path lies below the base.
pub sanitize_and_join_plain :
    (l : LocalFs) (bs : List Text) (p : Text) (ps : List Text)
    → HasBase l bs
    → All IsPlain (p ∷ ps)
    → sanitize_and_join l (p ∷ ps)
      ≡ (if has_prefix p dotdot then err outside_base else ok (render true (bs ++ p ∷ ps)))
unfolding sanitize_and_join
sanitize_and_join_plain l bs p ps h plain =
    rw
      (
        h.text,
        request_plain p ps plain,
        join-render bs (join_slash (p ∷ ps)) h.plain,
        descend_plain p ps plain bs,
      )
      (check_plain p ps plain bs h.plain)
