-- ===== src/Authz/Normalize.antt =====
-- `normalize` of internal/authz/path_extract.go ends, and squeezes each run of slashes to one.
use file_server_management.Prelude.{
  ℕ, zero, suc, ◌+◌, ◌≤◌, ◌<◌, ◌≡◌, refl, Bool, true, false, ◌&&◌, [], ◌∷◌, some, arith,
  if◌then◌else◌, length, ◌==◌, Bool-cases, inl, inr, ◌∙◌,
}
use file_server_management.Text.{
  Text, txt, text_eq, has_prefix, trim_space, contains, replace_all, replace_from, trim_left,
  trim_right, drop_last_if, is_space,
}
use file_server_management.FilePath.{slash, is_abs}
use file_server_management.Authz.{collapse, normalize, add_slash}

-- Each pair of slashes, from the left, becomes one.
halve : Text → Text
halve [] = []
halve (c ∷ []) = c ∷ []
halve (c ∷ d ∷ s) = if c == slash && d == slash then slash ∷ halve s else c ∷ halve (d ∷ s)

-- Each run of slashes becomes one.
abbrev pub squeeze : Text → Text
squeeze [] = []
squeeze (c ∷ []) = c ∷ []
squeeze (c ∷ d ∷ s) = if c == slash && d == slash then squeeze (d ∷ s) else c ∷ squeeze (d ∷ s)

replace_all-halve : (s : Text) → replace_all s (txt "//") (txt "/") ≡ halve s
unfolding replace_all halve has_prefix replace_from
replace_all-halve [] = refl
replace_all-halve (c ∷ []) = ground arith
replace_all-halve (c ∷ d ∷ s) = ground (arith, replace_all-halve s, replace_all-halve (d ∷ s))

abbrev double : Text → Bool
double s = contains s (txt "//")

length-halve : (s : Text) → length (halve s) ≤ length s
unfolding halve
length-halve [] = omega arith
length-halve (c ∷ []) = omega arith
length-halve (c ∷ d ∷ s) = ground (arith, length-halve s, length-halve (d ∷ s))

length-halve_lt : (s : Text) → double s ≡ true → length (halve s) < length s
unfolding halve contains has_prefix
length-halve_lt [] h = absurd (ground arith)
length-halve_lt (c ∷ []) h = absurd (ground arith)
length-halve_lt (c ∷ d ∷ s) h = ground (arith, length-halve s, length-halve_lt (d ∷ s))

squeeze-halve : (x : ℕ) (s : Text) → squeeze (x ∷ halve s) ≡ squeeze (x ∷ s)
unfolding halve
squeeze-halve x [] = refl
squeeze-halve x (c ∷ []) = refl
squeeze-halve x (c ∷ d ∷ s) = ground (arith, squeeze-halve slash s, squeeze-halve c (d ∷ s))

squeeze_single : (s : Text) → double s ≡ false → squeeze s ≡ s
unfolding contains has_prefix
squeeze_single [] h = refl
squeeze_single (c ∷ []) h = refl
squeeze_single (c ∷ d ∷ s) h = ground (arith, squeeze_single (d ∷ s))

squeeze-halve_all : (s : Text) → squeeze (halve s) ≡ squeeze s
unfolding halve
squeeze-halve_all [] = refl
squeeze-halve_all (c ∷ []) = refl
squeeze-halve_all (c ∷ d ∷ s) = ground (arith, squeeze-halve slash s, squeeze-halve c (d ∷ s))

collapse-more : (f : ℕ) (p : Text) → double p ≡ true → collapse (suc f) p ≡ collapse f (halve p)
unfolding collapse
collapse-more f p h = rw (h, replace_all-halve)

collapse-done : (f : ℕ) (p : Text) → double p ≡ false → collapse (suc f) p ≡ some p
unfolding collapse
collapse-done f p h = rw h

-- The loop ends within as many rounds as the text has characters and one more.
collapse-eq-squeeze : (fuel : ℕ) (p : Text) → length p < fuel → collapse fuel p ≡ some (squeeze p)
collapse-eq-squeeze zero p h = elim h [ ]
collapse-eq-squeeze (suc f) p h = elim (Bool-cases (double p)) [
  | inl more ↦ rw (
    collapse-more f p more,
    collapse-eq-squeeze f (halve p) (omega (arith, length-halve_lt p more)),
    squeeze-halve_all,
  )
  | inr done ↦ rw (collapse-done f p done, squeeze_single p done)
]

length-trim_left : (q : ℕ → Bool) (s : Text) → length (trim_left q s) ≤ length s
unfolding trim_left
length-trim_left q [] = omega arith
length-trim_left q (c ∷ s) = ground (arith, length-trim_left q s)

length-drop_last_if :
    (q : ℕ → Bool) (c : ℕ) (s : Text) → length (drop_last_if q c s) ≤ suc (length s)
length-drop_last_if q c [] = ground arith
length-drop_last_if q c (d ∷ s) = omega arith

length-trim_right : (q : ℕ → Bool) (s : Text) → length (trim_right q s) ≤ length s
unfolding trim_right
length-trim_right q [] = omega arith
length-trim_right q (c ∷ s) =
    omega (arith, length-trim_right q s, length-drop_last_if q c (trim_right q s))

length-trim_space : (s : Text) → length (trim_space s) ≤ length s
unfolding trim_space
length-trim_space s =
    omega (arith, length-trim_right is_space (trim_left is_space s), length-trim_left is_space s)

length-add_slash : (s : Text) → length (add_slash s) ≤ length s + 1
length-add_slash s = ground arith

-- What `normalize` computes: trimmed, with a slash in front, each run of slashes squeezed to one.
abbrev pub normal_form : Text → Text
normal_form p =
    let trimmed = trim_space p in
    if text_eq trimmed [] then txt "/" else squeeze (add_slash trimmed)

-- `normalize` ends, within as many rounds as the text has characters and two more, with the trimmed
-- text with a slash in front and each run of slashes squeezed to one.
pub normalize-eq-normal_form :
    (fuel : ℕ) (p : Text) → length p + 1 < fuel → normalize fuel p ≡ some (normal_form p)
normalize-eq-normal_form fuel p h = elim (Bool-cases (text_eq (trim_space p) [])) [
  | inl empty ↦ unfold normalize in rw empty
  | inr full ↦
      unfold normalize in
      rw (
        full,
        collapse-eq-squeeze fuel (add_slash (trim_space p))
            (omega (arith, length-trim_space p, length-add_slash (trim_space p))),
      )
]

is_abs-squeeze : (s : Text) → is_abs (squeeze s) ≡ is_abs s
unfolding is_abs has_prefix
is_abs-squeeze [] = refl
is_abs-squeeze (c ∷ []) = refl
is_abs-squeeze (c ∷ d ∷ s) = ground (arith, is_abs-squeeze (d ∷ s))

is_abs-add_slash : (s : Text) → is_abs (add_slash s) ≡ true
unfolding is_abs has_prefix
is_abs-add_slash [] = refl
is_abs-add_slash (c ∷ s) = ground arith

double-squeeze : (s : Text) → double (squeeze s) ≡ false
unfolding contains has_prefix
double-squeeze [] = refl
double-squeeze (c ∷ []) = ground arith
double-squeeze (c ∷ d ∷ []) = ground arith
double-squeeze (c ∷ d ∷ e ∷ s) = ground (arith, double-squeeze (d ∷ e ∷ s))

-- A normalised path begins with a slash and has no two in a row.
pub normal_form-IsNormal :
    (p : Text) → (is_abs (normal_form p) ≡ true) × (double (normal_form p) ≡ false)
normal_form-IsNormal p = elim (Bool-cases (text_eq (trim_space p) [])) [
  | inl empty ↦ rw empty (unfold is_abs has_prefix in refl, unfold contains has_prefix in refl)
  | inr full ↦ rw full (
    is_abs-squeeze (add_slash (trim_space p)) ∙ is_abs-add_slash (trim_space p),
    double-squeeze (add_slash (trim_space p)),
  )
]

length-squeeze : (s : Text) → length (squeeze s) ≤ length s
length-squeeze [] = omega arith
length-squeeze (c ∷ []) = omega arith
length-squeeze (c ∷ d ∷ s) = ground (arith, length-squeeze (d ∷ s))

pub length-normal_form : (p : Text) → length (normal_form p) ≤ length p + 1
length-normal_form p = elim (Bool-cases (text_eq (trim_space p) [])) [
  | inl empty ↦ rw empty (omega arith)
  | inr full ↦ rw full (
      omega (
        arith,
        length-squeeze (add_slash (trim_space p)),
        length-add_slash (trim_space p),
        length-trim_space p,
      ))
]

-- `normalize` ends, within as many rounds as the text has characters and two more, with a path
-- that begins with a slash and has no two slashes in a row.
normalize-IsNormal :
    (fuel : ℕ) (p : Text)
    → length p + 1 < fuel
    → (q : Text) × (normalize fuel p ≡ some q) × (is_abs q ≡ true) × (contains q (txt "//") ≡ false)
normalize-IsNormal fuel p h =
    let (abs, single) = normal_form-IsNormal p in
    (normal_form p, normalize-eq-normal_form fuel p h, abs, single)
