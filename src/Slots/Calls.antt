-- ===== src/Slots/Calls.antt =====
-- That every call keeps each slot number in one place, whatever the system calls answer.
use nesbox.Base.{
  ℕ, ◌+◌, ◌≤◌, ◌<◌, ◌≡◌, subst, inl, inr, Bool, true, false, ◌∷◌, Option, none, some, arith, ◌==◌,
  if◌then◌else◌, Bool-cases, Option-cases, u32_mod,
}
use nesbox.Slots.{
  Window, Registered, MemorySlots, without_slot, push_free, fetch_next, take_slot, slot_of,
  without_addr, set_region, open_registered, open_window, map_registered, map_region,
  unmap_registered, unmap,
}
use nesbox.Slots.Numbers.{
  one_if, in_free, in_mapped, in_vm, IsSound, IsUnused, in_vm-without_slot, in_mapped-without_addr,
  fetch_next-IsSound, take_slot-IsSound, push_free-IsSound,
}

-- What is registered under an unused number.
abbrev region : ℕ → ℕ → ℕ → ℕ → Registered
region slot guest_addr host_addr size = record {
  slot = slot;
  guest_addr = guest_addr;
  host_addr = host_addr;
  size = size;
}

-- The VM's regions once a nonempty one stands under an unused number.
in_vm-registered :
    (s : MemorySlots) (r : Registered) (x : ℕ)
    → IsUnused s r.slot
    → (in_vm x (r ∷ without_slot r.slot s.vm) ≡ one_if (r.slot == x) + in_vm x s.vm)
      × (one_if (r.slot == x) + in_vm x s.vm + in_free x s.free
          ≤ 1 + (if r.slot == x then 0 else in_vm x s.vm + in_free x s.free))
unfolding in_vm
in_vm-registered s r x u = elim (Bool-cases (r.slot == x)) [
  | inl e ↦
      let same : r.slot ≡ x = ground arith in
      let unused : in_vm x s.vm + in_free x s.free ≡ 0 =
        subst (λ n. in_vm n s.vm + in_free n s.free ≡ 0) same u.1 in
      (ground (arith, in_vm-without_slot x r.slot s.vm), ground arith)
  | inr e ↦ (ground (arith, in_vm-without_slot x r.slot s.vm), ground arith)
]

open_registered-IsSound :
    (accepted : Bool) (s : MemorySlots) (r : Registered) (w : Window)
    → 0 < r.size
    → IsSound s
    → IsUnused s r.slot
    → IsSound (open_registered (set_region accepted s r) w r.slot).0
unfolding open_registered set_region in_mapped
open_registered-IsSound false s r w pos h u = push_free-IsSound s r.slot h u
open_registered-IsSound true s r w pos h u = rw (no_size) (record {
  once = h.once;
  single = λ x. ground (arith, in_vm-registered s r x u, h.single x);
  backed = λ x. ground (arith, in_vm-registered s r x u, h.backed x);
  fresh = λ x le. ground (arith, in_vm-registered s r x u, h.fresh x);
  counter = h.counter;
})
  where
    no_size : (r.size == 0) ≡ false
    no_size = ground arith

map_registered-IsSound :
    (accepted : Bool) (s : MemorySlots) (r : Registered)
    → 0 < r.size
    → IsSound s
    → IsUnused s r.slot
    → IsSound (map_registered (set_region accepted s r) r.guest_addr r.slot).0
unfolding map_registered set_region in_mapped
map_registered-IsSound false s r pos h u = push_free-IsSound s r.slot h u
map_registered-IsSound true s r pos h u = rw no_size (record {
  once = λ x. ground (arith, in_vm-registered s r x u, h.backed x, h.once x);
  single = λ x. ground (arith, in_vm-registered s r x u, h.single x);
  backed = λ x. ground (arith, in_vm-registered s r x u, h.backed x);
  fresh = λ x le. ground (arith, in_vm-registered s r x u, h.fresh x);
  counter = h.counter;
})
  where
    no_size : (r.size == 0) ≡ false
    no_size = ground arith

unmap_registered-IsSound :
    (accepted : Bool) (s : MemorySlots) (guest_addr n : ℕ)
    → IsSound s
    → slot_of s.mapped guest_addr ≡ some n
    → IsSound
        (unmap_registered
          (set_region accepted
            (record s { mapped = without_addr guest_addr s.mapped })
            (region n guest_addr 0 0))
          n).0
unfolding unmap_registered set_region push_free in_free
unmap_registered-IsSound false s g n h e = record {
  once = λ x. ground (arith, in_mapped-without_addr x g n s.mapped e, h.once x);
  single = h.single;
  backed = λ x. ground (arith, in_mapped-without_addr x g n s.mapped e, h.backed x);
  fresh = h.fresh;
  counter = h.counter;
}
unmap_registered-IsSound true s g n h e =
    let live : (x : ℕ) → one_if (n == x) ≤ in_vm x s.vm =
      λ x. ground (arith, in_mapped-without_addr x g n s.mapped e, h.backed x) in
    record {
      once = λ x. ground (arith, in_mapped-without_addr x g n s.mapped e, h.once x);
      single = λ x. ground (arith, live x, h.single x, in_vm-without_slot x n s.vm);
      backed = λ x. ground (
        arith,
        in_mapped-without_addr x g n s.mapped e,
        h.backed x,
        h.single x,
        in_vm-without_slot x n s.vm,
      );
      fresh = λ x le. ground (arith, live x, h.fresh x, in_vm-without_slot x n s.vm);
      counter = h.counter;
    }

-- One call, with what the system calls it makes answer.
pub data Call : Type 0 where
  opens : Option ℕ → Bool → ℕ → ℕ → Call
  maps : Bool → ℕ → ℕ → ℕ → Call
  unmaps : Bool → ℕ → Call

pub run_call : MemorySlots → Call → MemorySlots
run_call s (opens mmap accepted guest_base size) = (open_window mmap accepted s guest_base size).0
run_call s (maps accepted guest_addr host_addr size) =
    (map_region accepted s guest_addr host_addr size).0
run_call s (unmaps accepted guest_addr) = (unmap accepted s guest_addr).0

-- The regions that are asked for are not empty.
abbrev pub HasSize : Call → Type 0
HasSize (opens mmap accepted guest_base size) = 0 < size
HasSize (maps accepted guest_addr host_addr size) = 0 < size
HasSize (unmaps accepted guest_addr) = Unit {0}

-- A call that asks for no empty region, made while numbers are left, keeps every number in one place:
-- whether or not the system calls succeed, no two live mappings share a slot, a free number has no
-- region in the VM, and each live mapping has one.
pub run_call-IsSound :
    (s : MemorySlots) (c : Call)
    → IsSound s
    → HasSize c
    → s.next_slot + 1 < u32_mod
    → IsSound (run_call s c)
unfolding run_call open_window map_region unmap
run_call-IsSound s (opens none accepted guest_base size) h pos room = elim (Option-cases s.window) [
  | inr (w, e) ↦ rw e (same (some w))
  | inl e ↦ rw e (same none)
]
  where
    same : (w : Option Window) → IsSound (record s { window = w })
    same w = record {
      once = h.once;
      single = h.single;
      backed = h.backed;
      fresh = h.fresh;
      counter = h.counter;
    }
run_call-IsSound s (opens (some host) accepted guest_base size) h pos room =
    elim (Option-cases s.window) [
      | inr (w, e) ↦ rw e (same (some w))
      | inl e ↦
          let shut = record s { window = none } in
          let t = fetch_next-IsSound shut (same none) room in
          rw e (
            open_registered-IsSound accepted (fetch_next shut).0
              (region (fetch_next shut).1 guest_base host size)
              (record { guest_base = guest_base; host_base = host; size = size }) pos t.0 t.1)
    ]
  where
    same : (w : Option Window) → IsSound (record s { window = w })
    same w = record {
      once = h.once;
      single = h.single;
      backed = h.backed;
      fresh = h.fresh;
      counter = h.counter;
    }
run_call-IsSound s (maps accepted guest_addr host_addr size) h pos room =
    elim (Option-cases (slot_of s.mapped guest_addr)) [
      | inl e ↦
          let t = take_slot-IsSound s h room in
          rw (e, run_call)
            (map_registered-IsSound accepted (take_slot s).0
              (region (take_slot s).1 guest_addr host_addr size) pos t.0 t.1)
      | inr (n, e) ↦ rw (e, run_call) h
    ]
run_call-IsSound s (unmaps accepted guest_addr) h pos room =
    elim (Option-cases (slot_of s.mapped guest_addr)) [
      | inl e ↦ rw (e, run_call) h
      | inr (n, e) ↦ rw (e, run_call) (unmap_registered-IsSound accepted s guest_addr n h e)
    ]
