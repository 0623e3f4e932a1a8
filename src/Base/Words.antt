-- ===== src/Base/Words.antt =====
-- Rust's unsigned integers as native numbers, with the wrap-around and the saturation written out.
use Prim.Native.Nat.{ℕ, ◌+◌, ◌-◌, ◌*◌, ◌/◌, ◌%◌, ◌^◌, min}
use mathlib.Core.Option.{Option, none, some}
use mathlib.Core.Bool.{Bool}
use nesbox.Base.Tests.{ltb, ◌==◌, if◌then◌else◌}

abbrev pub u8_mod : ℕ
u8_mod = 2 ^ 8

abbrev pub u16_mod : ℕ
u16_mod = 2 ^ 16

abbrev pub u32_mod : ℕ
u32_mod = 2 ^ 32

abbrev pub u64_mod : ℕ
u64_mod = 2 ^ 64

-- `a.saturating_add(b)` on u64
abbrev pub saturating_add64 : ℕ → ℕ → ℕ
saturating_add64 a b = min (a + b) (u64_mod - 1)

-- `a.checked_add(b)` on u64
abbrev pub checked_add64 : ℕ → ℕ → Option ℕ
checked_add64 a b = if ltb (a + b) u64_mod then some (a + b) else none

-- `a.checked_sub(b)`
abbrev pub checked_sub : ℕ → ℕ → Option ℕ
checked_sub a b = if ltb a b then none else some (a - b)

-- `a.checked_mul(b)` on u64
abbrev pub checked_mul64 : ℕ → ℕ → Option ℕ
checked_mul64 a b = if ltb (a * b) u64_mod then some (a * b) else none

-- `a + b` on u64 where the code has no check: the release profile wraps.
abbrev pub add64 : ℕ → ℕ → ℕ
add64 a b = (a + b) % u64_mod

-- `a.wrapping_add(b)` and `a.wrapping_sub(b)` on u16
abbrev pub wrapping_add16 : ℕ → ℕ → ℕ
wrapping_add16 a b = (a + b) % u16_mod

abbrev pub wrapping_sub16 : ℕ → ℕ → ℕ
wrapping_sub16 a b = (a + u16_mod - b) % u16_mod

-- `x & (1 << k) != 0`
abbrev pub has_bit : ℕ → ℕ → Bool
has_bit x k = x / 2 ^ k % 2 == 1

-- `x & !(size - 1)` for a power of two `size`: `x` rounded down to a multiple of it
abbrev pub align_down : ℕ → ℕ → ℕ
align_down x size = x - x % size
