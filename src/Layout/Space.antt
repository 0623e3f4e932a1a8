-- ===== src/Layout/Space.antt =====
-- That the parts of the address space do not collide.
use nesbox.Base.{
  false, subst, ℕ_discrete, if◌then◌else◌, ℕ, zero, suc, ◌+◌, ◌-◌, ◌%◌, ◌^◌, ◌≤◌, ◌<◌, ◌≡◌, refl,
  ◌⊎◌, inl, inr, Bool, true, List, [], ◌∷◌, some, arith, leb, ltb, ◌==◌, ◌&&◌, min, All, u32_mod,
  Bool-cases, All-map,
}
use nesbox.Layout.{
  mmio_hole_start, mmio_hole_end, acpi_size, window_end, fits_above, mmio64_window, clamped,
  RamRegion, ram_regions, acpi_start, ram_top,
}
use nesbox.Bus as Pci
use nesbox.Bus.Windows.{GoodWindows}
use nesbox.Bus.Sizing.{WholeBlocks}

abbrev pub total : List RamRegion → ℕ
total [] = 0
total (r ∷ rs) = r.size + total rs

-- The regions of RAM make up the memory asked for, stay out of the device hole, and do not go past
-- `ram_top`.
pub ram_regions_lem :
    (mem_size : ℕ)
    → (total (ram_regions mem_size) ≡ mem_size)
      × All
          (λ r. (r.start + r.size ≤ mmio_hole_start) ⊎ (mmio_hole_end ≤ r.start))
          (ram_regions mem_size)
      × All (λ r. r.start + r.size ≤ ram_top mem_size) (ram_regions mem_size)
unfolding ram_regions ram_top
ram_regions_lem mem_size = elim (Bool-cases (leb mem_size mmio_hole_start)) [
  | inl small ↦ (
    rw small (omega arith),
    rw small (inl (ground arith), tt),
    rw (small, ram_top) (omega arith, tt),
  )
  | inr large ↦ (
    rw large (ground arith),
    rw large (inl (omega arith), (inr (omega arith), tt)),
    rw (large, ram_top) (ground arith, (omega arith, tt)),
  )
]

-- For a memory size from 64 KiB on, the ACPI block has a place within the memory and below the
-- device hole.
pub acpi_start-in_ram :
    (mem_size : ℕ)
    → acpi_size ≤ mem_size
    → (at : ℕ) × (acpi_start mem_size ≡ some at)
      × (at + acpi_size ≤ mem_size)
      × (at + acpi_size ≤ mmio_hole_start)
unfolding acpi_start
acpi_start-in_ram mem_size h =
    (min mem_size mmio_hole_start - acpi_size, ground arith, omega arith, omega arith)

-- The bus's window for a CPU with this many address bits, as the VMM hands it to `Bus::new`.
abbrev pub bus_window : ℕ → Pci.Mmio64Window
bus_window bits = Pci.mmio64_window (mmio64_window bits).start (mmio64_window bits).size

good : ℕ → Bool
good bits =
    let w = mmio64_window bits in
    leb mmio_hole_end w.start
    && (ltb w.start (window_end w)
        && (leb (window_end w) (2 ^ 62)
            && ((w.start % u32_mod == 0) && (window_end w % u32_mod == 0))))

-- All of the next `left` bit counts are good.
good_from : ℕ → ℕ → Bool
unfolding good
good_from bits zero = true
good_from bits (suc left) = if good bits then good_from (bits + 1) left else false

good_from-covers :
    (bits left wanted : ℕ)
    → good_from bits left ≡ true
    → bits ≤ wanted
    → wanted < bits + left
    → good wanted ≡ true
unfolding good_from
good_from-covers bits zero wanted all above below = absurd (omega arith)
good_from-covers bits (suc left) wanted all above below = elim (ℕ_discrete bits wanted) [
  | yes here ↦ subst (λ n. good n ≡ true) here (ground arith)
  | no elsewhere ↦
      good_from-covers (bits + 1) left wanted (ground arith) (omega arith) (omega arith)
]

good_34_to_62 : good_from 34 29 ≡ true
unfolding good_from mmio64_window
good_34_to_62 = refl

-- On a CPU with 34 to 62 address bits the 64-bit window is made of whole 4 GiB blocks above the
-- 32-bit window and below 2^62.
pub bus_window-GoodWindows :
    (bits : ℕ)
    → 34 ≤ bits
    → bits < 63
    → GoodWindows (bus_window bits) × WholeBlocks (bus_window bits)
unfolding Pci.mmio64_window good
bus_window-GoodWindows bits h0 h1 =
    let t = good_from-covers 34 29 bits good_34_to_62 h0 (omega arith) in
    (
      record { above = ground arith; ordered = ground arith; addressable = ground arith },
      record { start_whole = ground arith; end_whole = ground arith; end_below = ground arith },
    )

-- A guest whose RAM passes the `fits_above` check has all of it below the window.
pub fits_above-ram :
    (bits mem_size : ℕ)
    → fits_above (mmio64_window bits) (ram_top mem_size) ≡ true
    → All (λ r. r.start + r.size ≤ (mmio64_window bits).start) (ram_regions mem_size)
unfolding fits_above
fits_above-ram bits mem_size h =
    All-map (λ r. r.start + r.size ≤ ram_top mem_size)
      (λ r. r.start + r.size ≤ (mmio64_window bits).start) (λ r b. ground arith)
      (ram_regions mem_size) (ram_regions_lem mem_size).2

-- The check does not reject a CPU of at most 32 address bits: with up to 3 GiB of RAM it passes, and
-- the window it passes starts at the 32-bit one.
pub fits_above-32_bits :
    (bits mem_size : ℕ)
    → bits ≤ 32
    → mem_size ≤ mmio_hole_start
    → (fits_above (mmio64_window bits) (ram_top mem_size) ≡ true)
      × ((mmio64_window bits).start ≡ mmio_hole_start)
unfolding fits_above mmio64_window ram_top
fits_above-32_bits bits mem_size h0 h1 =
    let same : clamped bits ≡ 32 = ground arith in
    let top : ram_top mem_size ≡ mem_size = ground arith in
    (rw (same, top) (ground arith), rw same refl)
