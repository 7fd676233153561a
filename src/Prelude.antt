-- ===== src/Prelude.antt =====
-- The names that the other modules share: the libraries', passed on, and those of three children
-- (tests and conditionals, lists over the native numbers, results of fallible calls).
mod Tests
mod Lists
mod Results
mod Search
pub use Tests.*
unfoldable pub use Lists.*
pub use Results.*
pub use Search.*
pub use Prim.Native.Nat.{ℕ, zero, suc, ◌+◌, ◌-◌, ◌*◌, ◌/◌, ◌%◌, ◌^◌, ◌≤◌, ◌<◌}
pub use Prim.Native.String.{String}
pub use mathlib.Core.Path.{◌≡◌, refl, sym, ap, ap₂, ◌∙◌, subst, fun_ext, ◌≡⟨◌⟩◌, ◌∎}
pub use mathlib.Core.Logic.{◌≢◌, ◌↔◌, ◌⊎◌, inl, inr}
pub use mathlib.Core.Bool.{Bool, true, false, not, ◌&&◌, ◌||◌}
pub use mathlib.Core.Option.{Option, none, some}
pub use mathlib.Core.List.{List, [], ◌∷◌, Memᴰ, ◌++◌, map, foldl, reverse}
pub use mathlib.Core.List.{append-nil, append_assoc, reverse-append, reverse-reverse, reverse-cons}
pub use native.Mathlib.Omega.{arith}
