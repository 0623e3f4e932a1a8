-- ===== src/Layout/Tests.antt =====
-- The address space of a guest with 8 GiB of RAM on a CPU with 46 address bits.
use nesbox.Base.{◌≡◌, refl, true}
use nesbox.Layout.{fits_above, mmio64_window, ram_top}

fits : fits_above (mmio64_window 46) (ram_top 0x2_0000_0000) ≡ true
unfolding fits_above mmio64_window ram_top
fits = refl
