-- ===== src/Slots.antt =====
-- The allocator of KVM memory slots of vmm/src/memslot.rs, and the one window of reserved host
-- addresses it places resources in. What the two system calls answer is an argument: whether
-- KVM_SET_USER_MEMORY_REGION took the region, and where mmap put the reservation, `none` for
-- MAP_FAILED. The regions KVM holds are part of the state.
pub mod Numbers
pub mod Calls
pub mod Reservation
mod Tests
use nesbox.Base.{
  ℕ, ◌+◌, ◌%◌, Bool, true, false, List, [], ◌∷◌, Option, none, some, ◌==◌, ltb, if◌then◌else◌,
  checked_sub, checked_add64, u32_mod, ◌>>=◌,
}

pub record Window : Type 0 where
  pub guest_base : ℕ
  pub host_base : ℕ
  pub size : ℕ

-- A region that the VM has under a slot number.
pub record Registered : Type 0 where
  pub slot : ℕ
  pub guest_addr : ℕ
  pub host_addr : ℕ
  pub size : ℕ

-- `mapped` is the map of guest addresses to slots; `free` has the last number pushed first.
pub record MemorySlots : Type 0 where
  pub next_slot : ℕ
  pub window : Option Window
  pub mapped : List (ℕ × ℕ)
  pub free : List ℕ
  pub vm : List Registered

pub data Outcome : Type 0 where
  done : Outcome
  already_open : Outcome
  reservation_failed : Outcome
  set_region_failed : Outcome
  already_mapped : Outcome
  not_mapped : Outcome
  not_inside : Outcome
  withdraw_failed : Outcome

pub new_slots : ℕ → List Registered → MemorySlots
new_slots first_free_slot vm = record {
  next_slot = first_free_slot;
  window = none;
  mapped = [];
  free = [];
  vm = vm;
}

pub without_slot : ℕ → List Registered → List Registered
without_slot slot [] = []
without_slot slot (r ∷ rs) =
    if r.slot == slot then without_slot slot rs else r ∷ without_slot slot rs

-- A size of zero removes the slot; a failed call changes nothing.
pub set_region : Bool → MemorySlots → Registered → MemorySlots × Bool
unfolding without_slot
set_region false s r = (s, false)
set_region true s r =
    let others = without_slot r.slot s.vm in
    (record s { vm = if r.size == 0 then others else r ∷ others }, true)

pub push_free : MemorySlots → ℕ → MemorySlots
push_free s slot = record s { free = slot ∷ s.free }

-- `fetch_add` on a 32-bit counter, which wraps.
pub fetch_next : MemorySlots → MemorySlots × ℕ
fetch_next s = (record s { next_slot = (s.next_slot + 1) % u32_mod }, s.next_slot)

pub take_from : List ℕ → MemorySlots → MemorySlots × ℕ
unfolding fetch_next
take_from [] s = fetch_next s
take_from (recycled ∷ rest) s = (record s { free = rest }, recycled)

pub take_slot : MemorySlots → MemorySlots × ℕ
unfolding take_from
take_slot s = take_from s.free s

pub open_registered : MemorySlots × Bool → Window → ℕ → MemorySlots × Outcome
unfolding push_free
open_registered (s, true) w slot = (record s { window = some w }, done)
open_registered (s, false) w slot = (push_free s slot, set_region_failed)

pub open_window : Option ℕ → Bool → MemorySlots → ℕ → ℕ → MemorySlots × Outcome
unfolding set_region fetch_next open_registered
open_window mmap accepted s guest_base size = elim s.window [
  | some w ↦ (s, already_open)
  | none ↦ elim mmap [
    | none ↦ (s, reservation_failed)
    | some host_base ↦
        let r = fetch_next s in
        open_registered
          (set_region accepted r.0
            (record { slot = r.1; guest_addr = guest_base; host_addr = host_base; size = size }))
          (record { guest_base = guest_base; host_base = host_base; size = size }) r.1
  ]
]

pub host_addr : MemorySlots → ℕ → ℕ → Option ℕ
host_addr s guest_addr size = s.window >>= λ w. checked_sub guest_addr w.guest_base >>= λ offset.
    checked_add64 offset size >>= λ end.
    if ltb w.size end then none else some (w.host_base + offset)

-- The range that is made unreadable again, with the answer of the fixed mmap.
pub withdraw : Bool → MemorySlots → ℕ → ℕ → Option (ℕ × ℕ) × Outcome
unfolding host_addr
withdraw remapped s guest_addr size = elim (host_addr s guest_addr size) [
  | none ↦ (none, not_inside)
  | some host ↦ if remapped then (some (host, size), done) else (none, withdraw_failed)
]

pub slot_of : List (ℕ × ℕ) → ℕ → Option ℕ
slot_of [] guest_addr = none
slot_of ((g, slot) ∷ ms) guest_addr = if g == guest_addr then some slot else slot_of ms guest_addr

pub without_addr : ℕ → List (ℕ × ℕ) → List (ℕ × ℕ)
without_addr guest_addr [] = []
without_addr guest_addr (m ∷ ms) =
    if m.0 == guest_addr then without_addr guest_addr ms else m ∷ without_addr guest_addr ms

pub map_registered : MemorySlots × Bool → ℕ → ℕ → MemorySlots × Outcome
unfolding push_free
map_registered (s, true) guest_addr slot =
    (record s { mapped = (guest_addr, slot) ∷ s.mapped }, done)
map_registered (s, false) guest_addr slot = (push_free s slot, set_region_failed)

pub map_region : Bool → MemorySlots → ℕ → ℕ → ℕ → MemorySlots × Outcome
unfolding slot_of take_slot set_region map_registered
map_region accepted s guest_addr host_addr size = elim (slot_of s.mapped guest_addr) [
  | some slot ↦ (s, already_mapped)
  | none ↦
      let r = take_slot s in
      map_registered
        (set_region accepted r.0
          (record { slot = r.1; guest_addr = guest_addr; host_addr = host_addr; size = size }))
        guest_addr r.1
]

pub unmap_registered : MemorySlots × Bool → ℕ → MemorySlots × Outcome
unfolding push_free
unmap_registered (s, true) slot = (push_free s slot, done)
unmap_registered (s, false) slot = (s, set_region_failed)

pub unmap : Bool → MemorySlots → ℕ → MemorySlots × Outcome
unfolding slot_of without_addr set_region unmap_registered
unmap accepted s guest_addr = elim (slot_of s.mapped guest_addr) [
  | none ↦ (s, not_mapped)
  | some slot ↦
      unmap_registered
        (set_region accepted (record s { mapped = without_addr guest_addr s.mapped })
          (record { slot = slot; guest_addr = guest_addr; host_addr = 0; size = 0 }))
        slot
]
