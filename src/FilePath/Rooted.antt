-- ===== src/FilePath/Rooted.antt =====
-- Cleaned paths from the root, seen as the lists of their parts: `render true bs`.
use file_server_management.Prelude.{
  ◌≡◌, ◌≢◌, refl, true, List, [], ◌∷◌, ◌++◌, arith, All, All-reverse, append-nil, reverse,
  reverse-reverse, ap, ◌∙◌,
}
use file_server_management.Text.{Text}
use file_server_management.FilePath.{
  slash, walk, render, is_abs, clean, join, split_slash, slashes, elements, nonempty,
}
use file_server_management.FilePath.Segments.{
  NoSlash, split_slash-slashes, split_slash-append, split_slash-NoSlash,
}
use file_server_management.FilePath.Walk.{
  IsPlain, walk-nil, walk-empty, walk-append, walk_of_IsPlain, walk-IsPlain,
}

pub IsPlain-NoSlash : (xs : List Text) → All IsPlain xs → All NoSlash xs
IsPlain-NoSlash [] _ = tt
IsPlain-NoSlash (x ∷ xs) (p, h) = (p.3, IsPlain-NoSlash xs h)

pub is_abs-render : (bs : List Text) → is_abs (render true bs) ≡ true
unfolding is_abs render
is_abs-render [] = refl
is_abs-render (b ∷ bs) = ground arith

pub split_slash-render_cons :
    (b : Text) (bs : List Text)
    → All IsPlain (b ∷ bs)
    → split_slash (render true (b ∷ bs)) ≡ [] ∷ b ∷ bs
unfolding render split_slash
split_slash-render_cons b bs h =
    split_slash-append [] (b ++ slashes bs)
    ∙ ap (λ t. [] ∷ t) (split_slash-slashes b bs h.0.3 (IsPlain-NoSlash bs h.1))

split_slash-root : split_slash (render true []) ≡ [] ∷ [] ∷ []
unfolding render split_slash
split_slash-root = refl

pub walk-render :
    (st bs : List Text)
    → All IsPlain bs
    → walk true st (split_slash (render true bs)) ≡ reverse bs ++ st
walk-render st [] _ = rw (split_slash-root, walk-empty, walk-empty, walk-nil)
walk-render st (b ∷ bs) h =
    rw (split_slash-render_cons b bs h, walk-empty, walk_of_IsPlain true st (b ∷ bs) h)

-- The parts that Clean keeps of a path from the root.
abbrev pub parts_of : Text → List Text
parts_of p = reverse (walk true [] (split_slash p))

pub clean_of_abs : (p : Text) → is_abs p ≡ true → clean p ≡ render true (parts_of p)
unfolding clean
clean_of_abs p h = rw h

-- Cleaning a cleaned path from the root changes nothing.
pub clean-render : (bs : List Text) → All IsPlain bs → clean (render true bs) ≡ render true bs
clean-render bs h =
    rw (clean_of_abs _ (is_abs-render bs), walk-render [] bs h, append-nil, reverse-reverse)

pub parts_of-IsPlain : (p : Text) → All IsPlain (parts_of p)
parts_of-IsPlain p =
    All-reverse IsPlain _ (walk-IsPlain [] (split_slash p) tt (split_slash-NoSlash p))

-- The parts after going from `bs` along `c`.
abbrev pub descend : List Text → Text → List Text
descend bs c = reverse (walk true (reverse bs) (split_slash c))

pub descend-IsPlain : (bs : List Text) (c : Text) → All IsPlain bs → All IsPlain (descend bs c)
descend-IsPlain bs c h =
    All-reverse IsPlain _
      (walk-IsPlain (reverse bs) (split_slash c) (All-reverse IsPlain bs h) (split_slash-NoSlash c))

join-render_abs : (bs : List Text) (c : Text) → is_abs (render true bs ++ slash ∷ c) ≡ true
unfolding is_abs render
join-render_abs [] c = refl
join-render_abs (b ∷ bs) c = ground arith

join_two : (b c : Text) → b ≢ [] → join (b ∷ c ∷ []) ≡ clean (b ++ slash ∷ c)
unfolding join
join_two [] c h = absurd (h refl)
join_two (x ∷ b) c h = rw append-nil

pub render-ne-nil : (bs : List Text) → render true bs ≢ []
unfolding render
render-ne-nil [] = ground arith
render-ne-nil (b ∷ bs) = ground arith

-- Joining a path to a cleaned path from the root.
pub join-render :
    (bs : List Text) (c : Text)
    → All IsPlain bs
    → join (render true bs ∷ c ∷ []) ≡ render true (descend bs c)
join-render bs c h = rw (
  join_two _ c (render-ne-nil bs),
  clean_of_abs _ (join-render_abs bs c),
  split_slash-append,
  walk-append,
  walk-render [] bs h,
  append-nil,
)

nonempty_of_IsPlain : (bs : List Text) → All IsPlain bs → nonempty bs ≡ bs
nonempty_of_IsPlain [] _ = refl
nonempty_of_IsPlain ([] ∷ bs) (p, h) = absurd (p.0 refl)
nonempty_of_IsPlain ((c ∷ b) ∷ bs) (p, h) = ap (λ t. (c ∷ b) ∷ t) (nonempty_of_IsPlain bs h)

pub elements-render : (bs : List Text) → All IsPlain bs → elements (render true bs) ≡ bs
unfolding elements
elements-render [] _ = rw split_slash-root
elements-render (b ∷ bs) h = rw (split_slash-render_cons b bs h) (nonempty_of_IsPlain (b ∷ bs) h)
