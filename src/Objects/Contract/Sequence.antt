-- ===== src/Objects/Contract/Sequence.antt =====
-- Sequences of operations on a backend that implements the contract.
use file_server_management.Prelude.{
  ℕ, ◌≡◌, refl, Bool, true, false, List, [], ◌∷◌, Option, sym, ap, ◌∙◌, All, Bool-cases, inl, inr,
}
use file_server_management.Text.{Text, text_eq}
use file_server_management.Storage.{key}
use file_server_management.Objects.{Objects, and_then, set_object}
use file_server_management.Objects.Contract.{
  ObjectOp, create_folder, atomic_write, move, delete, apply, IsVisible, ObjectBackend, Implements,
}

-- The operations in order, up to the first that fails.
unfoldable pub run : {W : Type 0} → ObjectBackend W → List (Text × ObjectOp) → W → Bool × W
run backend [] w = (true, w)
run backend ((hex, op) ∷ ops) w = and_then (backend hex op w) (λ w'. run backend ops w')

and_then-ok :
    {W : Type 0} (r : Bool × W) (next : W → Bool × W) {w' : W}
    → and_then r next ≡ (true, w')
    → (v : W) × (r ≡ (true, v)) × (next v ≡ (true, w'))
and_then-ok (true, v) next e = (v, refl, e)
and_then-ok (false, v) next e = absurd (cc (ap (λ r. r.0) e))

abbrev pub apply_all : (prefix : Text) → List (Text × ObjectOp) → Objects → Objects
apply_all prefix [] m = m
apply_all prefix ((hex, op) ∷ ops) m = apply_all prefix ops (apply prefix op m)

-- The operation moves no temporary object.
abbrev pub MovesVisible : (prefix : Text) → ObjectOp → Type 0
MovesVisible prefix (move src dst) = IsVisible (key prefix src)
MovesVisible prefix _ = Unit {0}

abbrev SameVisible : Objects → Objects → Type 0
SameVisible m n = (p : Text) → IsVisible p → m p ≡ n p

set_object-same :
    (m n : Objects) (k : Text) (u v : Option (List ℕ))
    → u ≡ v
    → SameVisible m n
    → SameVisible (set_object m k u) (set_object n k v)
set_object-same m n k u v e same p visible = elim (Bool-cases (text_eq p k)) [
  | inl here ↦ rw here e
  | inr elsewhere ↦ rw elsewhere (same p visible)
]

apply-same :
    (prefix : Text) (op : ObjectOp) (m n : Objects)
    → MovesVisible prefix op
    → SameVisible m n
    → SameVisible (apply prefix op m) (apply prefix op n)
unfolding apply
apply-same prefix (create_folder path) m n h same p visible =
    set_object-same m n _ _ _ refl same p visible
apply-same prefix (atomic_write path source) m n h same p visible =
    set_object-same m n _ _ _ refl same p visible
apply-same prefix (delete path) m n h same p visible = set_object-same m n _ _ _ refl same p visible
apply-same prefix (move src dst) m n h same p visible =
    elim (Bool-cases (text_eq (key prefix src) (key prefix dst))) [
      | inl there ↦ rw there (same p visible)
      | inr away ↦ rw away (
          set_object-same _ _ _ _ _ refl (set_object-same m n _ _ _ (same (key prefix src) h) same)
            p visible)
    ]

apply_all-same :
    (prefix : Text) (ops : List (Text × ObjectOp)) (m n : Objects)
    → All (λ o. MovesVisible prefix o.1) ops
    → SameVisible m n
    → SameVisible (apply_all prefix ops m) (apply_all prefix ops n)
apply_all-same prefix [] m n h same = same
apply_all-same prefix ((hex, op) ∷ ops) m n (here, rest) same =
    apply_all-same prefix ops _ _ rest (apply-same prefix op m n here same)

module _ {W : Type 0} (backend : ObjectBackend W) (content : W → Objects) (prefix : Text)
    (Allowed : Text → ObjectOp → Type 0) where
  -- A sequence of operations that all succeed leaves the visible objects that the contract says,
  -- if no operation moves a temporary object.
  pub run-apply_all :
      (ops : List (Text × ObjectOp)) (w w' : W) (p : Text)
      → Implements backend content prefix Allowed
      → All (λ o. Allowed o.0 o.1) ops
      → All (λ o. MovesVisible prefix o.1) ops
      → IsVisible p
      → run backend ops w ≡ (true, w')
      → content w' p ≡ apply_all prefix ops (content w) p
  unfolding run
  run-apply_all [] w w' p impl allowed moves visible e = sym (ap (λ r. content r.1 p) e)
  run-apply_all ((hex, op) ∷ ops) w w' p impl (now, later) (moved, rest) visible e =
      let (v, done, after) = and_then-ok (backend hex op w) (λ u. run backend ops u) e in
      run-apply_all ops v w' p impl later rest visible after
      ∙ apply_all-same prefix ops _ _ rest
          (λ j seen.
            sym (ap (λ r. content r.1 j) done)
            ∙ impl.simulates hex op w j now seen (ap (λ r. r.0) done))
          p visible
