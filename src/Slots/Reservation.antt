-- ===== src/Slots/Reservation.antt =====
-- What the window's host addresses are worth, and what a failed unmap costs.
use nesbox.Base.{
  ℕ, ◌+◌, ◌-◌, ◌≤◌, ◌<◌, ◌≡◌, refl, ◌⊎◌, Bool, true, false, Option, none, some, arith, u64_mod,
}
use nesbox.Slots.{
  Window, MemorySlots, done, already_open, set_region_failed, host_addr, open_window, slot_of,
  unmap, set_region, unmap_registered, fetch_next, open_registered,
}
use nesbox.Slots.Numbers.{in_free, in_mapped, in_vm, IsSound, in_mapped-without_addr}

-- Through an open window of fewer than 2^64 bytes a range of guest addresses has a host address
-- exactly when all of it lies in the window, and then it is at the same offset in the reservation.
pub host_addr_iff :
    (s : MemorySlots) (w : Window) (guest_addr size : ℕ)
    → s.window ≡ some w
    → w.size < u64_mod
    → (w.guest_base ≤ guest_addr
        → guest_addr + size ≤ w.guest_base + w.size
        → host_addr s guest_addr size ≡ some (w.host_base + (guest_addr - w.guest_base)))
      × ((guest_addr < w.guest_base) ⊎ (w.guest_base + w.size < guest_addr + size)
          → host_addr s guest_addr size ≡ none)
unfolding host_addr
host_addr_iff s w guest_addr size e bound = rw e (λ h0 h1. ground arith, λ out. ground arith)

-- After a call that opens a window of fewer than 2^64 bytes, a second is refused and changes
-- nothing, and the window as a whole has the reservation's host address.
pub open_window_lem :
    (s : MemorySlots) (host guest_base size : ℕ)
    → s.window ≡ none
    → size < u64_mod
    → let t = open_window (some host) true s guest_base size in
      (t.1 ≡ done)
      × (host_addr t.0 guest_base size ≡ some host)
      × ((mmap : Option ℕ) (accepted : Bool) (base other : ℕ)
          → open_window mmap accepted t.0 base other ≡ (t.0, already_open))
unfolding open_window open_registered set_region host_addr fetch_next
open_window_lem s host guest_base size e bound =
    rw e (refl, ground arith, λ mmap accepted base other. refl)

-- When the VM refuses to drop the region of a live mapping, the mapping's record is dropped all
-- the same and its number is not given back: no mapping and no free entry has it, and the VM still
-- has one region under it.
pub unmap_failed :
    (s : MemorySlots) (guest_addr slot : ℕ)
    → IsSound s
    → slot_of s.mapped guest_addr ≡ some slot
    → let t = unmap false s guest_addr in
      (t.1 ≡ set_region_failed)
      × (in_mapped slot t.0.mapped ≡ 0)
      × (in_free slot t.0.free ≡ 0)
      × (in_vm slot t.0.vm ≡ 1)
unfolding unmap unmap_registered set_region
unmap_failed s guest_addr slot h e =
    let gone = in_mapped-without_addr slot guest_addr slot s.mapped e in
    rw (e, unmap)
      (
        refl,
        ground (arith, gone, h.once slot),
        ground (arith, gone, h.once slot),
        ground (arith, gone, h.single slot, h.backed slot),
      )
