-- ===== src/Bus/Tests.antt =====
-- One device with a 32-bit BAR 0 of 4 KiB and a 64-bit BAR 2 of 4 GiB, on an empty bus.
use nesbox.Base.{
  ℕ, ◌+◌, ◌%◌, ◌^◌, ◌≤◌, ◌≡◌, refl, true, false, List, [], ◌∷◌, map, none, some, arith, ◌==◌,
  if◌then◌else◌, All,
}
use nesbox.Bus.{
  mem32, mem64, type_bits, Bar, Bdf, Device, Bus, Mmio64Window, mmio64_window, new_bus,
}
use nesbox.Bus.Alloc.{
  ok, fresh_bar, region_of, with_device, add_device, start_cursor, place_bars, place_bar,
  set_ioevent_registrar, register_doorbells, new_doorbells, is_power_of_two, top_of,
}
use nesbox.Bus.Windows.{GoodWindows, InWindows, Apart, AllApart}
use nesbox.Bus.Loop.{IsAligned, IsDeclared}
use nesbox.Bus.Added.{add_device-Placed}
use nesbox.Bus.Regions.{IsSynced, DistinctBdf}
use nesbox.Bus.Sync.{config_write-IsSynced}
use nesbox.Bus.Config.{
  bytes, ask_bar, config_read, read_slot, config_write, move_doorbells, moved_doorbells,
  bar_slot_for_offset, lookup, find_bar, find_low, read_bar_register, le_bytes,
}
use nesbox.Bus.Dispatch.{
  handle_pio_read, handle_pio_write, handle_mmio_read, handle_mmio_write, find_region,
}
use nesbox.Bus.Decode.{IsTarget, ecam_of, cam_of, pio-eq-ecam}

abbrev window : Mmio64Window
window = record { start = 0x3ff0_0000_0000; end = 0x4000_0000_0000 }

abbrev gpu : Device
gpu = record {
  bar_size = λ i. if i == 0 then 0x1000 else if i == 2 then 0x1_0000_0000 else 0;
  bar_type = λ i. if i == 2 then mem64 else mem32;
  doorbells = record { bar_idx = 0; offset = 0x80; fd = 5 } ∷ [];
}

abbrev empty : Bus
empty = record {
  devices = [];
  next_bdf = record { bus = 0; dev = 1; func = 0 };
  config_addr = 0;
  mmio_regions = [];
  ioevents = none;
  registered = [];
  mmio64 = window;
}

new_bus_test : new_bus (mmio64_window 0x3ff0_0000_0000 0x10_0000_0000) ≡ empty
unfolding new_bus mmio64_window
new_bus_test = refl

abbrev bar0 : Bar
bar0 = fresh_bar mem32 0 0x1000 0xC000_0000

abbrev bar2 : Bar
bar2 = fresh_bar mem64 2 0x1_0000_0000 0x3ff0_0000_0000

abbrev slot1 : Bdf
slot1 = record { bus = 0; dev = 1; func = 0 }

abbrev added : Bus
added = with_device empty gpu (bar0 ∷ bar2 ∷ [])

adds : add_device empty gpu ≡ ok (added, slot1)
unfolding add_device place_bars place_bar is_power_of_two start_cursor top_of
adds = refl

good : GoodWindows window
good = record { above = omega arith; ordered = omega arith; addressable = omega arith }

small : (i : ℕ) → gpu.bar_size i ≤ 2 ^ 62
small i = ground arith

add_device-Placed_example :
    (bars : List Bar) × (added ≡ with_device empty gpu bars)
    × All (IsDeclared window slot1 gpu) bars
    × All (InWindows window) (map (region_of slot1) bars)
    × All IsAligned (map (region_of slot1) bars)
    × AllApart (map (region_of slot1) bars)
    × All (λ r. All (Apart r) []) (map (region_of slot1) bars)
add_device-Placed_example = add_device-Placed empty added gpu slot1 good tt small adds

distinct : DistinctBdf added.devices
distinct = (tt, ((omega arith, tt), (tt, tt)), tt)

-- A write to the high half of BAR 2.
config_write-IsSynced_example :
    IsSynced (config_write added slot1 0x1c (0xf5 ∷ 0x3f ∷ 0 ∷ 0 ∷ [])).0
config_write-IsSynced_example =
    config_write-IsSynced added slot1 0x1c (0xf5 ∷ 0x3f ∷ 0 ∷ 0 ∷ []) add_device-IsSynced_again
      distinct
  where
    add_device-IsSynced_again : IsSynced added
    add_device-IsSynced_again = refl

target : IsTarget slot1 0x1c
target = record { on_bus = refl; dev_in = omega arith; func_in = omega arith; reg_in = omega arith }

abbrev addressed : Bus
addressed = record added { config_addr = cam_of slot1 0x1c }

pio-eq-ecam_example :
    (handle_pio_read addressed (0xCFC + 0x1c % 4) 4
      ≡ (true, handle_mmio_read addressed (ecam_of slot1 0x1c) 4))
    × (handle_pio_write addressed (0xCFC + 0x1c % 4) (1 ∷ [])
        ≡ (true, handle_mmio_write addressed (ecam_of slot1 0x1c) (1 ∷ [])))
pio-eq-ecam_example = pio-eq-ecam addressed slot1 0x1c 4 (1 ∷ []) target refl

type_bits_test : type_bits mem64 ≡ 0xc
unfolding type_bits
type_bits_test = refl

doorbell_test :
    register_doorbells (λ addr fd. true) slot1 (bar0 ∷ []) gpu.doorbells
    ≡ record { bdf = slot1; bar_idx = 0; addr = 0xC000_0080; fd = 5 } ∷ []
unfolding register_doorbells
doorbell_test = refl

registrar_test :
    (new_doorbells (set_ioevent_registrar empty (λ addr fd. false)) slot1 gpu (bar0 ∷ [])) ≡ []
unfolding set_ioevent_registrar new_doorbells register_doorbells
registrar_test = refl

-- Register 0x18 is the low half of BAR 2, with its type bits.
config_read_test : (config_read added slot1 0x18 4).1 ≡ bytes (0xc ∷ 0 ∷ 0 ∷ 0 ∷ [])
unfolding config_read lookup bar_slot_for_offset read_slot find_bar find_low le_bytes
    read_bar_register type_bits
config_read_test = refl

find_region_test : find_region added.devices added.mmio_regions 0xC000_0080 ≡ ask_bar slot1 0 0x80
unfolding find_region lookup
find_region_test = refl

move_doorbells_test :
    moved_doorbells
      (record added {
        ioevents = some (λ addr fd. true);
        registered = record { bdf = slot1; bar_idx = 0; addr = 0xC000_0080; fd = 5 } ∷ [];
      })
      slot1
      0
      0xC000_0000
      0xC100_0000
    ≡ record { bdf = slot1; bar_idx = 0; addr = 0xC100_0080; fd = 5 } ∷ []
unfolding moved_doorbells move_doorbells
move_doorbells_test = refl
