-- ===== src/Slots/Numbers.antt =====
-- Where each slot number is: at live mappings, in the free list, with the VM, or not handed out.
use nesbox.Base.{
  ℕ, ◌+◌, ◌≤◌, ◌<◌, ◌≡◌, refl, ap, Bool, List, [], ◌∷◌, some, arith, ◌==◌, if◌then◌else◌, u32_mod,
}
use nesbox.Slots.{
  Registered, MemorySlots, without_slot, push_free, fetch_next, take_from, take_slot, slot_of,
  without_addr,
}

abbrev pub one_if : Bool → ℕ
one_if b = if b then 1 else 0

-- How often a number is in the free list.
unfoldable pub in_free : ℕ → List ℕ → ℕ
in_free x [] = 0
in_free x (y ∷ ys) = one_if (y == x) + in_free x ys

-- How many live mappings have it.
unfoldable pub in_mapped : ℕ → List (ℕ × ℕ) → ℕ
in_mapped x [] = 0
in_mapped x (m ∷ ms) = one_if (m.1 == x) + in_mapped x ms

-- How many regions the VM has under it.
unfoldable pub in_vm : ℕ → List Registered → ℕ
in_vm x [] = 0
in_vm x (r ∷ rs) = one_if (r.slot == x) + in_vm x rs

-- A number is at one live mapping or once in the free list; each live mapping has its region in the
-- VM, a free number has none, and no number has two; and the counter is past all of them.
pub record IsSound (s : MemorySlots) : Type 0 where
  pub once : (x : ℕ) → in_mapped x s.mapped + in_free x s.free ≤ 1
  pub single : (x : ℕ) → in_vm x s.vm + in_free x s.free ≤ 1
  pub backed : (x : ℕ) → in_mapped x s.mapped ≤ in_vm x s.vm
  pub fresh : (x : ℕ) → s.next_slot ≤ x → in_vm x s.vm + in_free x s.free ≡ 0
  pub counter : s.next_slot < u32_mod

-- The number is handed out, and nowhere yet.
abbrev pub IsUnused : MemorySlots → ℕ → Type 0
IsUnused s x = (x < s.next_slot) × (in_vm x s.vm + in_free x s.free ≡ 0)

pub in_vm-without_slot :
    (x n : ℕ) (rs : List Registered)
    → in_vm x (without_slot n rs) ≡ (if n == x then 0 else in_vm x rs)
unfolding in_vm without_slot
in_vm-without_slot x n [] = ground arith
in_vm-without_slot x n (r ∷ rs) = ground (arith, in_vm-without_slot x n rs)

pub in_mapped-without_addr-le :
    (x g : ℕ) (ms : List (ℕ × ℕ)) → in_mapped x (without_addr g ms) ≤ in_mapped x ms
unfolding in_mapped without_addr
in_mapped-without_addr-le x g [] = omega arith
in_mapped-without_addr-le x g (m ∷ ms) = ground (arith, in_mapped-without_addr-le x g ms)

pub in_mapped-without_addr :
    (x g n : ℕ) (ms : List (ℕ × ℕ))
    → slot_of ms g ≡ some n
    → in_mapped x (without_addr g ms) + one_if (n == x) ≤ in_mapped x ms
unfolding in_mapped without_addr slot_of
in_mapped-without_addr x g n [] e = absurd (grind arith)
in_mapped-without_addr x g n (m ∷ ms) e =
    ground (arith, in_mapped-without_addr x g n ms, in_mapped-without_addr-le x g ms)

pub fetch_next-IsSound :
    (s : MemorySlots)
    → IsSound s
    → s.next_slot + 1 < u32_mod
    → IsSound (fetch_next s).0 × IsUnused (fetch_next s).0 (fetch_next s).1
unfolding fetch_next
fetch_next-IsSound s h room = (
  record {
    once = h.once;
    single = h.single;
    backed = h.backed;
    fresh = λ x le. h.fresh x (omega arith);
    counter = omega arith;
  },
  (omega arith, h.fresh s.next_slot (omega arith)),
)

take_from-IsSound :
    (s : MemorySlots) (free : List ℕ)
    → s.free ≡ free
    → IsSound s
    → s.next_slot + 1 < u32_mod
    → IsSound (take_from free s).0 × IsUnused (take_from free s).0 (take_from free s).1
unfolding take_from in_free
take_from-IsSound s [] e h room = fetch_next-IsSound s h room
take_from-IsSound s (n ∷ rest) e h room =
    let free_lem : (x : ℕ) → in_free x s.free ≡ one_if (n == x) + in_free x rest =
      λ x. ap (in_free x) e in
    (
      record {
        once = λ x. ground (arith, h.once x, free_lem x);
        single = λ x. ground (arith, h.single x, free_lem x);
        backed = h.backed;
        fresh = λ x le. ground (arith, h.fresh x, free_lem x);
        counter = h.counter;
      },
      (ground (arith, h.fresh n, free_lem n), ground (arith, h.single n, free_lem n)),
    )

-- A number taken from the free list or from the counter is in use nowhere.
pub take_slot-IsSound :
    (s : MemorySlots)
    → IsSound s
    → s.next_slot + 1 < u32_mod
    → IsSound (take_slot s).0 × IsUnused (take_slot s).0 (take_slot s).1
unfolding take_slot
take_slot-IsSound s h room = take_from-IsSound s s.free refl h room

pub push_free-IsSound :
    (s : MemorySlots) (n : ℕ) → IsSound s → IsUnused s n → IsSound (push_free s n)
unfolding push_free in_free
push_free-IsSound s n h u = record {
  once = λ x. ground (arith, h.once x, h.backed x);
  single = λ x. ground (arith, h.single x);
  backed = h.backed;
  fresh = λ x le. ground (arith, h.fresh x);
  counter = h.counter;
}
