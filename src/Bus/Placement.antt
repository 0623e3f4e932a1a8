-- ===== src/Bus/Placement.antt =====
-- Where `add_device` places the BARs of a device.
use native.Mathlib.Nat.{div-add-mod, mul-mod_right, mod-lt}
use nesbox.Base.{
  ℕ, ◌+◌, ◌-◌, ◌*◌, ◌/◌, ◌%◌, ◌^◌, ◌≤◌, ◌<◌, ◌≡◌, ◌∙◌, ap, arith, u64_mod, add64, align_down,
}
use nesbox.Bus.{BarType, Mmio64Window}
use nesbox.Bus.Alloc.{ok, Cursor, next_of, window_end, push_bar, fresh_bar, place_bar}

align_down-mod : (x size : ℕ) → align_down x size % size ≡ 0
align_down-mod x size =
    let e : align_down x size ≡ size * (x / size) = omega (arith, div-add-mod x size) in
    ap (λ n. n % size) e ∙ mul-mod_right size (x / size)

aligned-bounds :
    (next size : ℕ)
    → 0 < size
    → size ≤ 2 ^ 62
    → next ≤ 2 ^ 62
    → let aligned = align_down ((next + size - 1) % u64_mod) size in
      (next ≤ aligned)
      × (aligned < next + size)
      × (aligned % size ≡ 0)
      × (add64 aligned size ≡ aligned + size)
aligned-bounds next size h0 h1 h2 =
    let e : (next + size - 1) % u64_mod ≡ next + size - 1 = omega arith in
    rw e (
      let m = mod-lt (next + size - 1) h0 in
      (omega (arith, m), omega (arith, m), align_down-mod (next + size - 1) size, omega (arith, m)))

-- What a successful placement has decided: the address, at or above the mark, naturally aligned and
-- with the whole BAR inside its window.
abbrev pub Placed : Mmio64Window → BarType → ℕ → ℕ → Cursor → Cursor → Type 0
Placed w ty idx size c c' =
    (addr : ℕ) × (c' ≡ push_bar c (fresh_bar ty idx size addr))
    × (next_of ty c ≤ addr)
    × (addr + size ≤ window_end w ty)
    × (addr % size ≡ 0)

pub place_bar-Placed :
    (w : Mmio64Window) (ty : BarType) (idx size : ℕ) (c c' : Cursor)
    → 0 < size
    → size ≤ 2 ^ 62
    → next_of ty c ≤ 2 ^ 62
    → place_bar w ty idx size c ≡ ok c'
    → Placed w ty idx size c c'
unfolding place_bar
place_bar-Placed w ty idx size c c' h0 h1 h2 h =
    let b = aligned-bounds (next_of ty c) size h0 h1 h2 in
    (
      align_down ((next_of ty c + size - 1) % u64_mod) size,
      ground arith,
      b.0,
      ground (arith, b),
      b.2,
    )
