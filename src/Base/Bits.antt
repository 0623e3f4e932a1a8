-- ===== src/Base/Bits.antt =====
-- Single bits of a word, by the digits of the number: `x >> k & 1`, `x | 1 << k`, `x & !(1 << k)`.
use Prim.Native.Nat.{ℕ, zero, suc, ◌+◌, ◌*◌, ◌/◌, ◌%◌}
use mathlib.Core.Path.{◌≡◌, refl, ap}
use mathlib.Core.Logic.{◌≢◌}
use mathlib.Core.Bool.{Bool, true, false}
use native.Mathlib.Omega.{arith}
use nesbox.Base.Tests.{◌==◌}

unfoldable pub test_bit : ℕ → ℕ → Bool
test_bit x zero = x % 2 == 1
test_bit x (suc k) = test_bit (x / 2) k

unfoldable pub set_bit : ℕ → ℕ → ℕ
set_bit x zero = x / 2 * 2 + 1
set_bit x (suc k) = set_bit (x / 2) k * 2 + x % 2

pub clear_bit : ℕ → ℕ → ℕ
clear_bit x zero = x / 2 * 2
clear_bit x (suc k) = clear_bit (x / 2) k * 2 + x % 2

half : (y d : ℕ) → d % 2 ≡ d → (y * 2 + d) / 2 ≡ y
half y d h = omega arith

pub test_bit-set_bit_self : (x k : ℕ) → test_bit (set_bit x k) k ≡ true
unfolding test_bit set_bit
test_bit-set_bit_self x zero = ground arith
test_bit-set_bit_self x (suc k) =
    rw (half (set_bit (x / 2) k) (x % 2) (omega arith)) (test_bit-set_bit_self (x / 2) k)

pub test_bit-clear_bit_self : (x k : ℕ) → test_bit (clear_bit x k) k ≡ false
unfolding test_bit clear_bit
test_bit-clear_bit_self x zero = ground arith
test_bit-clear_bit_self x (suc k) =
    rw (half (clear_bit (x / 2) k) (x % 2) (omega arith)) (test_bit-clear_bit_self (x / 2) k)

pub test_bit-set_bit_ne : (x k j : ℕ) → j ≢ k → test_bit (set_bit x k) j ≡ test_bit x j
unfolding test_bit set_bit
test_bit-set_bit_ne x zero zero h = absurd (h refl)
test_bit-set_bit_ne x zero (suc j) h = rw (half (x / 2) 1 refl)
test_bit-set_bit_ne x (suc k) zero h = ground arith
test_bit-set_bit_ne x (suc k) (suc j) h =
    rw (half (set_bit (x / 2) k) (x % 2) (omega arith))
      (test_bit-set_bit_ne (x / 2) k j (λ e. h (ap suc e)))

pub test_bit-clear_bit_ne : (x k j : ℕ) → j ≢ k → test_bit (clear_bit x k) j ≡ test_bit x j
unfolding test_bit clear_bit
test_bit-clear_bit_ne x zero zero h = absurd (h refl)
test_bit-clear_bit_ne x zero (suc j) h = ap (λ y. test_bit y j) (omega arith)
test_bit-clear_bit_ne x (suc k) zero h = ground arith
test_bit-clear_bit_ne x (suc k) (suc j) h =
    rw (half (clear_bit (x / 2) k) (x % 2) (omega arith))
      (test_bit-clear_bit_ne (x / 2) k j (λ e. h (ap suc e)))
