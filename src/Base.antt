-- ===== src/Base.antt =====
-- The names that every part of the model shares: the libraries', passed on, the Boolean tests on
-- native numbers, lists over them, and the unsigned machine words of Rust.
mod Tests
mod Lists
mod Words
mod Options
mod Bits
pub use Tests.*
pub use Lists.*
pub use Words.*
pub use Options.*
unfoldable pub use Bits.{test_bit, set_bit}
pub use Bits.{
  clear_bit, test_bit-set_bit_self, test_bit-clear_bit_self, test_bit-set_bit_ne,
  test_bit-clear_bit_ne,
}
pub use Prim.Native.Nat.{ℕ, zero, suc, ◌+◌, ◌-◌, ◌*◌, ◌/◌, ◌%◌, ◌^◌, ◌≤◌, ◌<◌, min, max}
pub use mathlib.Core.Path.{◌≡◌, refl, sym, ap, subst, ◌∙◌, ◌≡⟨◌⟩◌, ◌∎}
pub use mathlib.Core.Logic.{◌≢◌, ◌↔◌, ◌⊎◌, inl, inr}
pub use mathlib.Core.Bool.{Bool, true, false, ◌&&◌, ◌||◌, not}
pub use mathlib.Core.Option.{Option, none, some}
pub use mathlib.Core.List.{List, [], ◌∷◌, ◌++◌, map}
pub use native.Mathlib.Omega.{arith}
unfoldable pub use native.Mathlib.Decide.{dec_lt, dec_le, ℕ_discrete}
