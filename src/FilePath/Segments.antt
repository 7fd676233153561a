-- ===== src/FilePath/Segments.antt =====
-- Cutting a path at its slashes, and joining the parts again.
use file_server_management.Prelude.{
  ℕ, ◌≡◌, ◌≢◌, inl, inr, Bool-cases, ◌==◌, refl, List, [], ◌∷◌, ◌++◌, arith, All, append-nil,
}
use file_server_management.Text.{Text}
use file_server_management.FilePath.{slash, push_front, split_slash, slashes}

-- A text without a slash, which is one part of a path.
abbrev pub NoSlash : Text → Type 0
NoSlash s = All (λ c. c ≢ slash) s

pub split_slash-ne-nil : (s : Text) → split_slash s ≢ []
unfolding split_slash
split_slash-ne-nil [] = ground arith
split_slash-ne-nil (c ∷ s) = ground (arith, split_slash-ne-nil s)

pub split_slash-cons_slash : (s : Text) → split_slash (slash ∷ s) ≡ [] ∷ split_slash s
unfolding split_slash
split_slash-cons_slash s = refl

pub split_slash-cons_other :
    (c : ℕ) (s : Text) → c ≢ slash → split_slash (c ∷ s) ≡ push_front c (split_slash s)
unfolding split_slash
split_slash-cons_other c s h = ground arith

push_front-append :
    (c : ℕ) (xs ys : List Text) → xs ≢ [] → push_front c (xs ++ ys) ≡ push_front c xs ++ ys
push_front-append c [] ys h = absurd (h refl)
push_front-append c (x ∷ xs) ys h = refl

push_front-NoSlash :
    (c : ℕ) (xs : List Text) → c ≢ slash → All NoSlash xs → All NoSlash (push_front c xs)
push_front-NoSlash c [] p h = ((p, tt), tt)
push_front-NoSlash c (x ∷ xs) p (q, h) = ((p, q), h)

pub split_slash_of_NoSlash : (s : Text) → NoSlash s → split_slash s ≡ s ∷ []
unfolding split_slash
split_slash_of_NoSlash [] h = refl
split_slash_of_NoSlash (c ∷ s) (p, h) = ground (arith, split_slash_of_NoSlash s h)

-- A slash between two texts cuts them.
pub split_slash-append :
    (s t : Text) → split_slash (s ++ slash ∷ t) ≡ split_slash s ++ split_slash t
unfolding split_slash
split_slash-append [] t = refl
split_slash-append (c ∷ s) t = ground (
  arith,
  split_slash-append s t,
  push_front-append c (split_slash s) (split_slash t) (split_slash-ne-nil s),
)

pub split_slash-NoSlash : (s : Text) → All NoSlash (split_slash s)
unfolding split_slash
split_slash-NoSlash [] = (tt, tt)
split_slash-NoSlash (c ∷ s) = elim (Bool-cases (c == slash)) [
  | inl cut ↦ rw cut (tt, split_slash-NoSlash s)
  | inr kept ↦ rw kept (push_front-NoSlash c _ (ground arith) (split_slash-NoSlash s))
]

pub split_slash-slashes :
    (x : Text) (xs : List Text)
    → NoSlash x
    → All NoSlash xs
    → split_slash (x ++ slashes xs) ≡ x ∷ xs
unfolding slashes
split_slash-slashes x [] p _ = rw append-nil (split_slash_of_NoSlash x p)
split_slash-slashes x (y ∷ ys) p (q, h) =
    rw (split_slash-append, split_slash_of_NoSlash x p, split_slash-slashes y ys q h)
