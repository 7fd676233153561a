-- ===== src/Migrate/Order.antt =====
-- The order of sort.Strings.
use mathlib.Core.List.{Perm}
use mathlib.Core.List.Perm
use file_server_management.Prelude.{
  ◌≡◌, refl, true, false, List, [], ◌∷◌, arith, All, Bool-cases, inl, inr,
}
use file_server_management.Text.{Text}
use file_server_management.Migrate.{text_le, insert_string, sort_strings}

-- Each string is at most all that follow it.
abbrev pub IsAscending : List Text → Type 0
IsAscending [] = Unit
IsAscending (x ∷ xs) = All (λ y. text_le x y ≡ true) xs × IsAscending xs

text_le_total : (s t : Text) → text_le s t ≡ false → text_le t s ≡ true
unfolding text_le
text_le_total [] t h = absurd (cc h)
text_le_total (c ∷ s) [] h = refl
text_le_total (c ∷ s) (d ∷ t) h = ground (arith, text_le_total s t)

text_le_trans : (s t u : Text) → text_le s t ≡ true → text_le t u ≡ true → text_le s u ≡ true
unfolding text_le
text_le_trans [] t u p q = refl
text_le_trans (c ∷ s) [] u p q = absurd (cc p)
text_le_trans (c ∷ s) (d ∷ t) [] p q = absurd (cc q)
text_le_trans (c ∷ s) (d ∷ t) (b ∷ u) p q = ground (arith, text_le_trans s t u)

text_le-All :
    (x y : Text) (ys : List Text)
    → text_le x y ≡ true
    → All (λ z. text_le y z ≡ true) ys
    → All (λ z. text_le x z ≡ true) ys
text_le-All x y [] h k = tt
text_le-All x y (z ∷ ys) h k = (text_le_trans x y z h k.0, text_le-All x y ys h k.1)

insert_string-All :
    (P : Text → Type 0) (x : Text) (ys : List Text) → P x → All P ys → All P (insert_string x ys)
unfolding insert_string
insert_string-All P x [] p h = (p, tt)
insert_string-All P x (y ∷ ys) p h = elim (Bool-cases (text_le x y)) [
  | inl le ↦ rw (insert_string, le) (p, h)
  | inr gt ↦ rw (insert_string, gt) (h.0, insert_string-All P x ys p h.1)
]

insert_string-IsAscending :
    (x : Text) (ys : List Text) → IsAscending ys → IsAscending (insert_string x ys)
unfolding insert_string
insert_string-IsAscending x [] h = (tt, tt)
insert_string-IsAscending x (y ∷ ys) (below, h) = elim (Bool-cases (text_le x y)) [
  | inl le ↦ rw (insert_string, le) ((le, text_le-All x y ys le below), (below, h))
  | inr gt ↦
      rw (insert_string, gt)
        (
          insert_string-All (λ z. text_le y z ≡ true) x ys (text_le_total x y gt) below,
          insert_string-IsAscending x ys h,
        )
]

insert_string-perm : (x : Text) (ys : List Text) → Perm (insert_string x ys) (x ∷ ys)
unfolding insert_string
insert_string-perm x [] = Perm.rfl
insert_string-perm x (y ∷ ys) = elim (Bool-cases (text_le x y)) [
  | inl le ↦ rw (insert_string, le) Perm.rfl
  | inr gt ↦
      rw (insert_string, gt) (Perm.trans (Perm.cons y (insert_string-perm x ys)) (Perm.swap x y ys))
]

pub sort_strings-IsAscending : (xs : List Text) → IsAscending (sort_strings xs)
unfolding sort_strings
sort_strings-IsAscending [] = tt
sort_strings-IsAscending (x ∷ xs) =
    insert_string-IsAscending x (sort_strings xs) (sort_strings-IsAscending xs)

pub sort_strings-perm : (xs : List Text) → Perm (sort_strings xs) xs
unfolding sort_strings
sort_strings-perm [] = Perm.rfl
sort_strings-perm (x ∷ xs) =
    Perm.trans (insert_string-perm x (sort_strings xs)) (Perm.cons x (sort_strings-perm xs))
