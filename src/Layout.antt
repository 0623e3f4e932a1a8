-- ===== src/Layout.antt =====
-- The guest physical address space of vmm/src/layout.rs: RAM around the device hole, the ACPI block,
-- and the 64-bit PCI window at the top of what the CPU can address.
pub mod Space
mod Tests
use nesbox.Base.{
  ℕ, ◌+◌, ◌-◌, ◌/◌, ◌^◌, Bool, List, [], ◌∷◌, leb, if◌then◌else◌, min, max, ltb, Option, none, some,
}

abbrev pub mmio_hole_start : ℕ
mmio_hole_start = 0xC000_0000

abbrev pub mmio_hole_end : ℕ
mmio_hole_end = 0x1_0000_0000

abbrev pub pci_mmio64_max_size : ℕ
pci_mmio64_max_size = 0x10_0000_0000

abbrev pub acpi_size : ℕ
acpi_size = 0x1_0000

pub record Mmio64Window : Type 0 where
  pub start : ℕ
  pub size : ℕ

abbrev pub window_end : Mmio64Window → ℕ
window_end w = w.start + w.size

pub fits_above : Mmio64Window → ℕ → Bool
fits_above w ram_top = leb ram_top w.start

-- `phys_bits.clamp(32, 63)`
abbrev pub clamped : ℕ → ℕ
clamped phys_bits = max 32 (min phys_bits 63)

unfoldable pub mmio64_window : ℕ → Mmio64Window
mmio64_window phys_bits =
    let addressable = 2 ^ clamped phys_bits in
    let size = min pci_mmio64_max_size (addressable / 4) in
    record { start = addressable - size; size = size }

pub record RamRegion : Type 0 where
  pub start : ℕ
  pub size : ℕ

pub ram_regions : ℕ → List RamRegion
ram_regions mem_size =
    if leb mem_size mmio_hole_start
    then record { start = 0; size = mem_size } ∷ []
    else record { start = 0; size = mmio_hole_start }
      ∷ record { start = mmio_hole_end; size = mem_size - mmio_hole_start }
      ∷ []

-- `none` is the subtraction that would go below zero.
pub acpi_start : ℕ → Option ℕ
acpi_start mem_size =
    let low_ram_end = min mem_size mmio_hole_start in
    if ltb low_ram_end acpi_size then none else some (low_ram_end - acpi_size)

abbrev pub last_region : List RamRegion → Option RamRegion
last_region [] = none
last_region (r ∷ []) = some r
last_region (r ∷ s ∷ rs) = last_region (s ∷ rs)

pub ram_top : ℕ → ℕ
unfolding ram_regions
ram_top mem_size = elim (last_region (ram_regions mem_size)) [
  | some r ↦ r.start + r.size
  | none ↦ 0
]
