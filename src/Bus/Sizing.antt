-- ===== src/Bus/Sizing.antt =====
-- The protocols that a guest runs on a BAR: probing its size, and programming its address.
use native.Mathlib.Nat.{mod-mod_of_dvd, dvd_of_mod-eq-zero}
use nesbox.Base.{
  ℕ, ◌+◌, ◌*◌, ◌/◌, ◌%◌, ◌^◌, ◌≤◌, ◌<◌, ◌≡◌, sym, ap, ◌∙◌, ◌⊎◌, inl, inr, false, arith, u32_mod,
  u64_mod, align_down,
}
use nesbox.Bus.{mem64, Bar, Mmio64Window}
use nesbox.Bus.Config.{Half, low, high, read_bar_register, write_bar_register, requested, probed}

abbrev pub ones : ℕ
ones = 0xFFFF_FFFF

-- A guest sizes a BAR: all ones into each register, then each register read.
pub probe : Mmio64Window → Bar → (ℕ × ℕ) × Bar
probe w b =
    let written = write_bar_register w (write_bar_register w b low ones) high ones in
    let (lo, after_lo) = read_bar_register written low in
    let (hi, after_hi) = read_bar_register after_lo high in ((lo, hi), after_hi)

-- Probing both registers of a BAR that is not being probed gives a mask whose complement is one
-- less than its size, and leaves the BAR as it was. The size is a positive multiple of 16 below
-- 2^64.
pub probe_lem :
    (w : Mmio64Window) (b : Bar)
    → b.probing_lo ≡ false
    → b.probing_hi ≡ false
    → 16 ≤ b.size
    → b.size % 16 ≡ 0
    → b.size < u64_mod
    → ((probe w b).0.1 * u32_mod + (probe w b).0.0 + b.size ≡ u64_mod) × ((probe w b).1 ≡ b)
unfolding probe write_bar_register read_bar_register probed
probe_lem w b hl hh h0 h1 h2 = (ground arith, ground arith)

-- A guest moves a 64-bit BAR: the low half of the new address, then the high half.
pub program : Mmio64Window → Bar → ℕ → Bar
program w b to =
    write_bar_register w (write_bar_register w b low (to % u32_mod)) high (to / u32_mod)

-- A window of whole 4 GiB blocks, below 2^62.
pub record WholeBlocks (w : Mmio64Window) : Type 0 where
  pub start_whole : w.start % u32_mod ≡ 0
  pub end_whole : w.end % u32_mod ≡ 0
  pub end_below : w.end ≤ 2 ^ 62

align_down_of_dvd : (x size : ℕ) → x % size ≡ 0 → align_down x size ≡ x
align_down_of_dvd x size h = omega (arith, h)

-- A write that asks for an address in the window moves the BAR there.
write_bar_register-moves :
    (w : Mmio64Window) (b : Bar) (half : Half) (raw to : ℕ)
    → b.bar_type ≡ mem64
    → raw < ones
    → requested b half raw ≡ to
    → (w.start ≤ to) × (to < w.end)
    → write_bar_register w b half raw ≡ record b { addr = to }
unfolding write_bar_register
write_bar_register-moves w b half raw to ty hr e hw = ground arith

-- The address between the two writes: the old high half with the new low half.
abbrev between : Bar → ℕ → ℕ
between b to = b.addr / u32_mod * u32_mod + to % u32_mod

between-IsAligned :
    (b : Bar) (to : ℕ)
    → (b.addr % b.size ≡ 0) × (to % b.size ≡ 0)
    → (u32_mod % b.size ≡ 0) ⊎ (b.size % u32_mod ≡ 0)
    → between b to % b.size ≡ 0
between-IsAligned b to (ha, ht) (inl small) =
    let d = dvd_of_mod-eq-zero b.size small in
    let low_part : between b to % u32_mod ≡ to % u32_mod = omega arith in
    sym (mod-mod_of_dvd b.size (between b to) d)
    ∙ ap (λ n. n % b.size) low_part
    ∙ mod-mod_of_dvd b.size to d
    ∙ ht
between-IsAligned b to (ha, ht) (inr large) =
    let d = dvd_of_mod-eq-zero u32_mod large in
    let a : b.addr % u32_mod ≡ 0 =
      sym (mod-mod_of_dvd u32_mod b.addr d) ∙ ap (λ n. n % u32_mod) ha in
    let t : to % u32_mod ≡ 0 = sym (mod-mod_of_dvd u32_mod to d) ∙ ap (λ n. n % u32_mod) ht in
    let same : between b to ≡ b.addr = omega (arith, a, t) in ap (λ n. n % b.size) same ∙ ha

-- In a window of whole blocks a 64-bit BAR goes where the guest programs it, though the two halves
-- come in separate writes: for a size that divides 4 GiB, and for one that 4 GiB divides.
pub program_lem :
    (w : Mmio64Window) (b : Bar) (to : ℕ)
    → b.bar_type ≡ mem64
    → WholeBlocks w
    → (w.start ≤ b.addr) × (b.addr < w.end)
    → (w.start ≤ to) × (to < w.end)
    → (b.addr % b.size ≡ 0) × (to % b.size ≡ 0) × (to % 16 ≡ 0)
    → (u32_mod % b.size ≡ 0) ⊎ (b.size % u32_mod ≡ 0)
    → program w b to ≡ record b { addr = to }
unfolding program requested
program_lem w b to ty ws hb ht (ha, hs, h16) fits =
    let mid = between-IsAligned b to (ha, hs) fits in
    let low_write : requested b low (to % u32_mod) ≡ between b to =
      ap (λ n. align_down n b.size) (omega arith) ∙ align_down_of_dvd (between b to) b.size mid in
    let moved : Bar = record b { addr = between b to } in
    let high_write : requested moved high (to / u32_mod) ≡ to =
      ap (λ n. align_down n b.size) (omega arith) ∙ align_down_of_dvd to b.size hs in
    rw
      (write_bar_register-moves w b low (to % u32_mod) (between b to) ty (omega arith) low_write
        (omega arith))
      (write_bar_register-moves w moved high (to / u32_mod) to ty (omega arith) high_write ht)
