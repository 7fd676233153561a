-- ===== src/FilePath/Parent.antt =====
-- Dir: the last part of a path is dropped and the rest is cleaned.
use file_server_management.Prelude.{
  ℕ, ◌≡◌, ◌≢◌, refl, true, false, List, [], ◌∷◌, ◌++◌, arith, All, All-reverse, All-left,
  append-nil, reverse, reverse-reverse, ap, ◌∙◌, init, ◌==◌, ==_iff, Bool-cases, inl, inr,
}
use file_server_management.Text.{Text, has_prefix}
use file_server_management.FilePath.{
  slash, walk, render, is_abs, clean, split_slash, push_front, keep_front, dir_part, dir,
  join_slash,
}
use file_server_management.FilePath.Segments.{
  split_slash-ne-nil, split_slash-cons_slash, split_slash-cons_other, split_slash-NoSlash,
}
use file_server_management.FilePath.Walk.{
  IsPlain, IsPart, walk-IsPart, walk-nil, walk-empty, walk-append, walk_of_IsPlain,
}
use file_server_management.FilePath.Rooted.{is_abs-render, clean_of_abs, split_slash-render_cons}

split_slash-eq-nil : (d : Text) → split_slash d ≡ [] ∷ [] → d ≡ []
unfolding split_slash
split_slash-eq-nil [] h = refl
split_slash-eq-nil (c ∷ d) h = absurd (ground (arith, split_slash-ne-nil d))

split_slash-keep_front :
    (c : ℕ) (d : Text) (ps : List Text)
    → c ≢ slash
    → ps ≢ []
    → split_slash d ≡ init ps ++ [] ∷ []
    → split_slash (keep_front c d) ≡ init (push_front c ps) ++ [] ∷ []
split_slash-keep_front c d [] p q h = absurd (q refl)
split_slash-keep_front c d (x ∷ []) p q h =
    rw (split_slash-eq-nil d h) (unfold split_slash in ground arith)
split_slash-keep_front c [] (x ∷ y ∷ ys) p q h = absurd (unfold split_slash in ground arith)
split_slash-keep_front c (e ∷ d) (x ∷ y ∷ ys) p q h = rw (split_slash-cons_other c (e ∷ d) p, h)

init-cons : (x : Text) (xs : List Text) → xs ≢ [] → init (x ∷ xs) ≡ x ∷ init xs
init-cons x [] h = absurd (h refl)
init-cons x (y ∷ ys) h = refl

keep_front-slash : (d : Text) → keep_front slash d ≡ slash ∷ d
keep_front-slash [] = refl
keep_front-slash (e ∷ d) = refl

-- The parts of the directory are those of the path but the last.
pub split_slash-dir_part : (p : Text) → split_slash (dir_part p) ≡ init (split_slash p) ++ [] ∷ []
unfolding dir_part
split_slash-dir_part [] = unfold split_slash in refl
split_slash-dir_part (c ∷ s) = elim (Bool-cases (c == slash)) [
  | inl cut ↦ rw (
    (==_iff c slash).0 cut,
    keep_front-slash,
    split_slash-cons_slash,
    split_slash-cons_slash,
    init-cons [] (split_slash s) (split_slash-ne-nil s),
    split_slash-dir_part s,
  )
  | inr kept ↦ rw (split_slash-cons_other c s (ground arith)) (
      split_slash-keep_front c (dir_part s) (split_slash s) (ground arith) (split_slash-ne-nil s)
        (split_slash-dir_part s))
]

is_abs-keep_front : (c : ℕ) (d : Text) → is_abs (keep_front c d) ≡ (c == slash)
unfolding is_abs has_prefix
is_abs-keep_front c [] = ground arith
is_abs-keep_front c (e ∷ d) = ground arith

pub is_abs-dir_part : (p : Text) → is_abs (dir_part p) ≡ is_abs p
unfolding dir_part is_abs has_prefix
is_abs-dir_part [] = refl
is_abs-dir_part (c ∷ s) = is_abs-keep_front c (dir_part s) ∙ ground arith

-- The parts that are left of a path from the root.
pub dir_of_abs :
    (p : Text)
    → is_abs p ≡ true
    → dir p ≡ render true (reverse (walk true [] (init (split_slash p))))
unfolding dir
dir_of_abs p h = rw (
  clean_of_abs (dir_part p) (is_abs-dir_part p ∙ h),
  split_slash-dir_part,
  walk-append,
  walk-empty true,
  walk-nil true (walk true [] (init (split_slash p))),
)

pub init-append : (xs : List Text) (x : Text) → init (xs ++ x ∷ []) ≡ xs
init-append [] x = refl
init-append (y ∷ []) x = refl
init-append (y ∷ z ∷ ys) x = ap (λ t. y ∷ t) (init-append (z ∷ ys) x)

split_slash-render_append :
    (bs : List Text) (x : Text)
    → All IsPlain (bs ++ x ∷ [])
    → split_slash (render true (bs ++ x ∷ [])) ≡ [] ∷ bs ++ x ∷ []
split_slash-render_append [] x h = split_slash-render_cons x [] h
split_slash-render_append (b ∷ bs) x h = split_slash-render_cons b (bs ++ x ∷ []) h

-- Dir of a cleaned path drops its last part.
pub dir-render :
    (bs : List Text) (x : Text)
    → All IsPlain (bs ++ x ∷ [])
    → dir (render true (bs ++ x ∷ [])) ≡ render true bs
dir-render bs x h =
    let split : init (split_slash (render true (bs ++ x ∷ []))) ≡ [] ∷ bs =
      ap init (split_slash-render_append bs x h) ∙ init-append ([] ∷ bs) x in
    rw (
      dir_of_abs _ (is_abs-render (bs ++ x ∷ [])),
      split,
      walk-empty true,
      walk_of_IsPlain true [] bs (All-left IsPlain bs (x ∷ []) h),
      append-nil,
      reverse-reverse,
    )

is_abs-render-false : (xs : List Text) → All IsPart xs → is_abs (render false xs) ≡ false
unfolding is_abs render has_prefix join_slash
is_abs-render-false [] _ = refl
is_abs-render-false ([] ∷ xs) h = absurd (h.0.0 refl)
is_abs-render-false ((c ∷ x) ∷ xs) h = ground arith

-- Clean leaves a path relative if it is, and so does Dir.
pub is_abs-clean-false : (p : Text) → is_abs p ≡ false → is_abs (clean p) ≡ false
unfolding clean
is_abs-clean-false p h = rw h (
    is_abs-render-false _
      (All-reverse IsPart _ (walk-IsPart false [] (split_slash p) tt (split_slash-NoSlash p))))

pub is_abs-dir-false : (p : Text) → is_abs p ≡ false → is_abs (dir p) ≡ false
unfolding dir
is_abs-dir-false p h = is_abs-clean-false (dir_part p) (is_abs-dir_part p ∙ h)
