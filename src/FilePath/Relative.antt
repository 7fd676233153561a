-- ===== src/FilePath/Relative.antt =====
-- Rel between cleaned paths from the root: it begins with ".." exactly if the target is not below
-- the base, or its first part there begins with "..".
use mathlib.Core.Option
use file_server_management.Prelude.{
  ◌≡◌, ◌≢◌, refl, true, false, List, [], ◌∷◌, ◌++◌, arith, All, append-nil, sym, Option, some, none,
  ap, ◌∙◌, Bool-cases, inl, inr, if◌then◌else◌,
}
use file_server_management.Text.{Text, text_eq, text_eq_iff, has_prefix}
use file_server_management.FilePath.{
  dot, dotdot, render, join_slash, elements, rel_elements, rel, rel_clean,
}
use file_server_management.FilePath.Walk.{IsPlain}
use file_server_management.FilePath.Rooted.{clean-render, is_abs-render, elements-render}

-- What is left of a path below its base: "." for the base itself.
abbrev pub below : List Text → Text
below [] = dot
below (x ∷ xs) = join_slash (x ∷ xs)

-- A path below the base is told by its parts.
rel_elements-below : (bs ts : List Text) → rel_elements bs (bs ++ ts) ≡ some ts
unfolding rel_elements
rel_elements-below [] ts = refl
rel_elements-below (b ∷ bs) ts = ground (arith, text_eq_iff b b, rel_elements-below bs ts)

-- Any other result begins with "..".
module _ {r : List Text} where
  rel_elements-inside :
      (bs ts : List Text)
      → rel_elements bs ts ≡ some r
      → has_prefix (join_slash r) dotdot ≡ false
      → ts ≡ bs ++ r
  unfolding rel_elements has_prefix join_slash
  rel_elements-inside [] ts e h = ground arith
  rel_elements-inside (b ∷ bs) [] e h = ground arith
  rel_elements-inside (b ∷ bs) (t ∷ ts) e h =
      ground (arith, text_eq_iff b t, text_eq_iff b dotdot, rel_elements-inside bs ts)

rooted_not_dot : (bs : List Text) → text_eq (render true bs) dot ≡ false
unfolding render text_eq
rooted_not_dot [] = refl
rooted_not_dot (b ∷ bs) = refl

module _ (bs fs : List Text) (hb : All IsPlain bs) (hf : All IsPlain fs) where
  rel-render : rel (render true bs) (render true fs) ≡ (
      if text_eq (render true bs) (render true fs)
      then some dot
      else Option.map join_slash (rel_elements bs fs))
  unfolding rel rel_clean
  rel-render = rw (
    clean-render bs hb,
    clean-render fs hf,
    rooted_not_dot bs,
    is_abs-render bs,
    is_abs-render fs,
    elements-render bs hb,
    elements-render fs hf,
  )

render-injective :
    (bs fs : List Text)
    → All IsPlain bs
    → All IsPlain fs
    → render true bs ≡ render true fs
    → bs ≡ fs
render-injective bs fs hb hf e = sym (elements-render bs hb) ∙ ap elements e ∙ elements-render fs hf

map-join :
    (o : Option (List Text)) {r : Text}
    → Option.map join_slash o ≡ some r
    → (ts : List Text) × (o ≡ some ts) × (r ≡ join_slash ts)
map-join none e = cc
map-join (some ts) e = (ts, refl, cc)

below_of_ne :
    (bs ts : List Text) → render true bs ≢ render true (bs ++ ts) → join_slash ts ≡ below ts
below_of_ne bs [] h = absurd (h (ap (render true) (sym (append-nil bs))))
below_of_ne bs (t ∷ ts) h = refl

module _ (bs fs : List Text) (hb : All IsPlain bs) (hf : All IsPlain fs) {r : Text} where
  rel-inside_ne :
      render true bs ≢ render true fs
      → Option.map join_slash (rel_elements bs fs) ≡ some r
      → has_prefix r dotdot ≡ false
      → (ts : List Text) × (fs ≡ bs ++ ts) × (r ≡ below ts)
  rel-inside_ne ne e h =
      let (ts, found, joined) = map-join (rel_elements bs fs) e in
      let split : fs ≡ bs ++ ts = rel_elements-inside bs fs found (rw (← joined) h) in
      (ts, split, joined ∙ below_of_ne bs ts (λ q. ne (q ∙ ap (render true) (sym split))))

  -- A result of Rel that does not begin with ".." means that the target is the base or below it.
  pub rel-inside :
      rel (render true bs) (render true fs) ≡ some r
      → has_prefix r dotdot ≡ false
      → (ts : List Text) × (fs ≡ bs ++ ts) × (r ≡ below ts)
  rel-inside e h = elim (Bool-cases (text_eq (render true bs) (render true fs))) [
    | inl same ↦
        let at_base : bs ≡ fs = render-injective bs fs hb hf ((text_eq_iff _ _).0 same) in
        ([], sym at_base ∙ sym (append-nil bs), cc (rw (rel-render bs fs hb hf, same) at e))
    | inr other ↦
        rel-inside_ne (λ q. cc ((text_eq_iff _ _).1 q, other))
          (rw (rel-render bs fs hb hf, other) at e) h
  ]

nothing_added : (bs ts : List Text) → bs ≡ bs ++ ts → ts ≡ []
nothing_added [] ts e = sym e
nothing_added (b ∷ bs) ts e = nothing_added bs ts (ground arith)

-- Rel of a path at or below the base.
pub rel-below :
    (bs ts : List Text)
    → All IsPlain bs
    → All IsPlain (bs ++ ts)
    → rel (render true bs) (render true (bs ++ ts)) ≡ some (below ts)
rel-below bs ts hb hf = elim (Bool-cases (text_eq (render true bs) (render true (bs ++ ts)))) [
  | inl same ↦
      let at_base : ts ≡ [] =
        nothing_added bs ts (render-injective bs (bs ++ ts) hb hf ((text_eq_iff _ _).0 same)) in
      rw (rel-render bs (bs ++ ts) hb hf, same) (ap (λ t. some (below t)) (sym at_base))
  | inr other ↦
      rw (rel-render bs (bs ++ ts) hb hf, other, rel_elements-below bs ts)
        (ap some (below_of_ne bs ts (λ q. cc ((text_eq_iff _ _).1 q, other))))
]
