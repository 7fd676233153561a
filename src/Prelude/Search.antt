-- ===== src/Prelude/Search.antt =====
-- A test on some item of a list, and the item that passes it.
use mathlib.Core.Path.{◌≡◌, refl}
use mathlib.Core.Logic.{◌↔◌, ◌⊎◌, inl, inr}
use mathlib.Core.Bool.{Bool, true, false, ◌&&◌, ◌||◌}
use mathlib.Core.List.{List, [], ◌∷◌, ◌++◌, Memᴰ}
use native.Mathlib.Omega.{arith}
use file_server_management.Prelude.Tests.{Bool-cases}
use file_server_management.Prelude.Lists.{any}

pub List-cases {ℓ} :
    {A : Type ℓ} (xs : List A) → (xs ≡ []) ⊎ ((y : A) × (ys : List A) × (xs ≡ y ∷ ys))
List-cases [] = inl refl
List-cases (y ∷ ys) = inr (y, ys, refl)

pub or_false : (a b : Bool) → (a || b) ≡ false → (a ≡ false) × (b ≡ false)
or_false true b h = absurd (cc h)
or_false false b h = (refl, h)

pub or_iff : (a b : Bool) → ((a || b) ≡ true) ↔ ((a ≡ true) ⊎ (b ≡ true))
or_iff true b = (λ _. inl refl, λ _. refl)
or_iff false b = (λ h. inr h, elim [ inl h ↦ cc | inr h ↦ h ])

pub and_iff : (a b : Bool) → ((a && b) ≡ true) ↔ ((a ≡ true) × (b ≡ true))
and_iff true b = (λ h. (refl, h), λ h. h.1)
and_iff false b = (λ h. cc, λ h. cc (h.0))

module _ {ℓ} {A : Type ℓ} (p : A → Bool) where
  pub any-found : (xs : List A) → any p xs ≡ true → (x : A) × Memᴰ x xs × (p x ≡ true)
  unfolding any
  any-found [] h = absurd (ground arith)
  any-found (x ∷ xs) h = elim (Bool-cases (p x)) [
    | inl here ↦ (x, Memᴰ.head refl, here)
    | inr later ↦ let (y, m, q) = any-found xs (rw later at h) in (y, Memᴰ.tail m, q)
  ]

  pub any-mem : {x : A} {xs : List A} → Memᴰ x xs → p x ≡ true → any p xs ≡ true
  unfolding any
  any-mem (Memᴰ.head e) h = rw (← e, h)
  any-mem (Memᴰ.tail m) h = ground (arith, any-mem m h)

  pub any-append : (xs ys : List A) → any p (xs ++ ys) ≡ (any p xs || any p ys)
  unfolding any
  any-append [] ys = refl
  any-append (x ∷ xs) ys = ground (arith, any-append xs ys)

module _ {ℓ} {A : Type ℓ} (f g : A → Bool) where
  -- Two tests that agree on the items of a list.
  pub any-congr : (xs : List A) → ((x : A) → Memᴰ x xs → f x ≡ g x) → any f xs ≡ any g xs
  unfolding any
  any-congr [] h = refl
  any-congr (x ∷ xs) h = rw (h x (Memᴰ.head refl), any-congr xs (λ y m. h y (Memᴰ.tail m)))

module _ {ℓ} {A : Type ℓ} {x : A} where
  pub mem-append_left : {xs : List A} (ys : List A) → Memᴰ x xs → Memᴰ x (xs ++ ys)
  mem-append_left ys (Memᴰ.head e) = Memᴰ.head e
  mem-append_left ys (Memᴰ.tail m) = Memᴰ.tail (mem-append_left ys m)

  pub mem-append_right : (xs : List A) {ys : List A} → Memᴰ x ys → Memᴰ x (xs ++ ys)
  mem-append_right [] m = m
  mem-append_right (y ∷ xs) m = Memᴰ.tail (mem-append_right xs m)

pub either {ℓ} : {A : Type ℓ} {a b : A} {l : List A} → Memᴰ a (b ∷ l) → (a ≡ b) ⊎ Memᴰ a l
either (Memᴰ.head e) = inl e
either (Memᴰ.tail m) = inr m

pub mem-append_cases {ℓ} :
    {A : Type ℓ} {a : A} (xs ys : List A) → Memᴰ a (xs ++ ys) → Memᴰ a xs ⊎ Memᴰ a ys
mem-append_cases [] ys m = inr m
mem-append_cases (x ∷ xs) ys m = elim (either m) [
  | inl here ↦ inl (Memᴰ.head here)
  | inr later ↦ elim (mem-append_cases xs ys later) [
    | inl before ↦ inl (Memᴰ.tail before)
    | inr behind ↦ inr behind
  ]
]

-- Two truth values for the same thing.
pub bool_ext : (a b : Bool) → (a ≡ true) ↔ (b ≡ true) → a ≡ b
bool_ext true b h = cc (h.0 refl)
bool_ext false true h = h.1 refl
bool_ext false false h = refl
