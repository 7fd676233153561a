-- ===== src/FilePath/Walk.antt =====
-- What Clean's walk over the parts of a path does.
use mathlib.Core.List.{foldl-append}
use file_server_management.Prelude.{
  ◌≡◌, ◌≢◌, refl, Bool, true, false, List, [], ◌∷◌, ◌++◌, arith, All, reverse, reverse-cons,
  append_assoc,
}
use file_server_management.Text.{Text, text_eq_iff}
use file_server_management.FilePath.{dot, dotdot, step, walk}
use file_server_management.FilePath.Segments.{NoSlash}

-- A part that Clean leaves in place.
abbrev pub IsPlain : Text → Type 0
IsPlain x = (x ≢ []) × (x ≢ dot) × (x ≢ dotdot) × NoSlash x

pub step_of_IsPlain : (r : Bool) (st : List Text) (x : Text) → IsPlain x → step r st x ≡ x ∷ st
unfolding step
step_of_IsPlain r st x h = ground (arith, text_eq_iff x [], text_eq_iff x dot, text_eq_iff x dotdot)

pub walk-nil : (r : Bool) (st : List Text) → walk r st [] ≡ st
unfolding walk
walk-nil r st = refl

pub walk-cons :
    (r : Bool) (st : List Text) (x : Text) (xs : List Text)
    → walk r st (x ∷ xs) ≡ walk r (step r st x) xs
unfolding walk
walk-cons r st x xs = refl

pub walk-append :
    (r : Bool) (st xs ys : List Text) → walk r st (xs ++ ys) ≡ walk r (walk r st xs) ys
unfolding walk
walk-append r st xs ys = rw foldl-append

-- Empty parts count for nothing.
pub walk-empty : (r : Bool) (st xs : List Text) → walk r st ([] ∷ xs) ≡ walk r st xs
unfolding walk step
walk-empty r st xs = refl

-- Plain parts are kept in order.
pub walk_of_IsPlain :
    (r : Bool) (st xs : List Text) → All IsPlain xs → walk r st xs ≡ reverse xs ++ st
walk_of_IsPlain r st [] _ = walk-nil r st
walk_of_IsPlain r st (x ∷ xs) (p, h) = rw (
  walk-cons,
  step_of_IsPlain r st x p,
  walk_of_IsPlain r (x ∷ st) xs h,
  reverse-cons,
  append_assoc,
)

-- At the root there is no ".." left in the stack.
step-IsPlain :
    (st : List Text) (x : Text) → All IsPlain st → NoSlash x → All IsPlain (step true st x)
unfolding step
step-IsPlain [] x _ h = ground (arith, text_eq_iff x [], text_eq_iff x dot, text_eq_iff x dotdot)
step-IsPlain (y ∷ ys) x (p, k) h =
    ground (arith, text_eq_iff x [], text_eq_iff x dot, text_eq_iff x dotdot, text_eq_iff y dotdot)

pub walk-IsPlain :
    (st xs : List Text) → All IsPlain st → All NoSlash xs → All IsPlain (walk true st xs)
walk-IsPlain st [] k _ = rw walk-nil k
walk-IsPlain st (x ∷ xs) k (p, h) =
    rw walk-cons (walk-IsPlain (step true st x) xs (step-IsPlain st x k p) h)

-- The stack never holds an empty part, nor one with a slash.
abbrev pub IsPart : Text → Type 0
IsPart x = (x ≢ []) × NoSlash x

step-IsPart :
    (r : Bool) (st : List Text) (x : Text) → All IsPart st → NoSlash x → All IsPart (step r st x)
unfolding step
step-IsPart true [] x _ h = ground (arith, text_eq_iff x [])
step-IsPart false [] x _ h = ground (arith, text_eq_iff x [])
step-IsPart r (y ∷ ys) x (p, k) h = ground (arith, text_eq_iff x [])

pub walk-IsPart :
    (r : Bool) (st xs : List Text) → All IsPart st → All NoSlash xs → All IsPart (walk r st xs)
walk-IsPart r st [] k _ = rw walk-nil k
walk-IsPart r st (x ∷ xs) k (p, h) =
    rw walk-cons (walk-IsPart r (step r st x) xs (step-IsPart r st x k p) h)
