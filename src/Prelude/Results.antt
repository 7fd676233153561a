-- ===== src/Prelude/Results.antt =====
-- Results of fallible calls: Go's `(value, error)` pairs, of which the code always uses one half.
use mathlib.Core.Path.{◌≡◌, refl}
use mathlib.Core.Logic.{◌⊎◌, inl, inr}

pub data Result {ε α} (Err : Type ε) (Val : Type α) : Type (ε ⊔ α) where
  err : Err → Result Err Val
  ok : Val → Result Err Val

-- `if err != nil { return err }`: what follows runs on the value.
infixl 5 ◌>>=◌
abbrev pub ◌>>=◌ {ε α β} :
    {Err : Type ε} {Val : Type α} {Next : Type β}
    → Result Err Val
    → (Val → Result Err Next)
    → Result Err Next
◌>>=◌ (err failure) next = err failure
◌>>=◌ (ok value) next = next value

pub Result-cases {ε α} :
    {Err : Type ε} {Val : Type α} (r : Result Err Val)
    → ((v : Val) × (r ≡ ok v)) ⊎ ((failure : Err) × (r ≡ err failure))
Result-cases (err failure) = inr (failure, refl)
Result-cases (ok v) = inl (v, refl)

-- What a chain that succeeded has computed on the way.
pub chained {ε α β} :
    {Err : Type ε} {Val : Type α} {Next : Type β} (r : Result Err Val)
    (next : Val → Result Err Next) {out : Next}
    → (r >>= next) ≡ ok out
    → (v : Val) × (r ≡ ok v) × (next v ≡ ok out)
chained (err failure) next e = cc
chained (ok v) next e = (v, refl, e)
