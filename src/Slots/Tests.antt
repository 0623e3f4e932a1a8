-- ===== src/Slots/Tests.antt =====
-- An allocator over a VM whose RAM has slots 0 and 1.
use nesbox.Base.{ℕ, ◌*◌, ◌≡◌, refl, true, false, [], ◌∷◌, none, some, arith}
use nesbox.Slots.{
  Registered, MemorySlots, done, set_region_failed, new_slots, unmap, slot_of, withdraw,
}
use nesbox.Slots.Numbers.{in_free, in_mapped, in_vm, IsSound}
use nesbox.Slots.Calls.{maps, run_call, run_call-IsSound}
use nesbox.Slots.Reservation.{unmap_failed}

abbrev ram : ℕ → Registered
ram slot = record {
  slot = slot;
  guest_addr = 0x1000_0000 * slot;
  host_addr = 0x7000_0000;
  size = 0x1000_0000;
}

-- One resource is mapped under slot 3, the window has slot 2, and slot 4 is free again.
abbrev slots : MemorySlots
slots = record {
  next_slot = 5;
  window =
      some (record {
        guest_base = 0x10_0000_0000;
        host_base = 0x7f00_0000_0000;
        size = 0x1_0000_0000;
      });
  mapped = (0x20_0000_0000, 3) ∷ [];
  free = 4 ∷ [];
  vm = ram 3 ∷ ram 2 ∷ ram 1 ∷ ram 0 ∷ [];
}

new_slots_test : (new_slots 2 (ram 1 ∷ ram 0 ∷ [])).next_slot ≡ 2
unfolding new_slots
new_slots_test = refl

sound : IsSound slots
unfolding in_mapped in_free in_vm
sound = record {
  once = λ x. ground arith;
  single = λ x. ground arith;
  backed = λ x. ground arith;
  fresh = λ x h. ground arith;
  counter = omega arith;
}

run_call-IsSound_example :
    IsSound (run_call slots (maps true 0x30_0000_0000 0x7e00_0000_0000 0x1000))
run_call-IsSound_example =
    run_call-IsSound slots (maps true 0x30_0000_0000 0x7e00_0000_0000 0x1000) sound (omega arith)
      (omega arith)

abbrev shut : MemorySlots
shut = record slots { window = none }

three : slot_of slots.mapped 0x20_0000_0000 ≡ some 3
unfolding slot_of
three = refl

unmap_failed_example :
    let t = unmap false slots 0x20_0000_0000 in
    (t.1 ≡ set_region_failed)
    × (in_mapped 3 t.0.mapped ≡ 0)
    × (in_free 3 t.0.free ≡ 0)
    × (in_vm 3 t.0.vm ≡ 1)
unmap_failed_example = unmap_failed slots 0x20_0000_0000 3 sound three

withdraw_test : withdraw true slots 0x10_0000_0000 0x1000 ≡ (some (0x7f00_0000_0000, 0x1000), done)
unfolding withdraw
withdraw_test = refl
