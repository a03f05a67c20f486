-- ===== src/Base.antt =====
-- The names that every other module shares: the libraries' names passed on, and those of the
-- children: tests on numbers, lists by native index, signed integers, machine words, bits.
mod Tests
mod Lists
mod Int
mod Words
mod Bits
mod Slices
pub use Tests.*
pub use Lists.*
pub use Int.*
pub use Words.*
pub use Bits.*
pub use Slices.*
pub use Prim.Native.Nat.{ℕ, zero, suc, ◌+◌, ◌-◌, ◌*◌, ◌/◌, ◌%◌, ◌^◌, ◌≤◌, ◌<◌, min}
pub use Prim.Native.Nat.{bit_and, bit_or, bit_xor}
pub use mathlib.Core.Path.{◌≡◌, refl, sym, ap, ap₂, subst, ◌∙◌}
pub use mathlib.Core.Logic.{◌≢◌, ◌↔◌, ◌⊎◌, inl, inr}
pub use mathlib.Core.Bool.{Bool, true, false, not, ◌&&◌, ◌||◌}
pub use mathlib.Core.Option.{Option, none, some}
pub use mathlib.Core.List.{List, [], ◌∷◌, ◌++◌, foldl, append-nil, append_assoc}
pub use native.Mathlib.Omega.{arith}
