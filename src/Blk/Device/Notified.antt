-- ===== src/Blk/Device/Notified.antt =====
-- A notification, by the kernel's doorbell or by a write that reaches the device.
use nesbox.Base.{
  ℕ, zero, suc, ◌+◌, ◌-◌, ◌*◌, ◌/◌, ◌≤◌, ◌<◌, ◌≡◌, refl, ap, List, [], ◌∷◌, map, length, get_elem?,
  some, arith, min, max, Bool,
}
use nesbox.Blk.Disk.{Disk}
use nesbox.Blk.Device.{
  BlkDevice, Queue, kick, new_queues, new_device, notify, bar0_write, doorbells, off_notify,
  notify_mult, max_queues,
}

-- The queues are numbered on from `first`.
unfoldable pub NumberedFrom : ℕ → List Queue → Type 0
NumberedFrom first [] = Unit
NumberedFrom first (q ∷ qs) = (q.index ≡ first) × NumberedFrom (first + 1) qs

new_queues-NumberedFrom : (n first : ℕ) → NumberedFrom first (new_queues n first)
unfolding NumberedFrom new_queues
new_queues-NumberedFrom zero first = tt
new_queues-NumberedFrom (suc n) first = (refl, new_queues-NumberedFrom n (first + 1))

length-new_queues : (n first : ℕ) → length (new_queues n first) ≡ n
unfolding new_queues
length-new_queues zero first = refl
length-new_queues (suc n) first = ap suc (length-new_queues n (first + 1))

-- A new device has between one and eight queues, numbered from zero.
pub new_device-NumberedFrom :
    (disk : Disk) (read_only : Bool) (asked : ℕ) (built : List ℕ × ℕ)
    → let d = new_device disk read_only asked built in
      NumberedFrom 0 d.queues × (0 < length d.queues) × (length d.queues ≤ max_queues)
unfolding new_device
new_device-NumberedFrom disk read_only asked (cfg, msix_cap) =
    let n : ℕ = min (max asked 1) max_queues in
    (
      new_queues-NumberedFrom n 0,
      grind (arith, length-new_queues n 0),
      grind (arith, length-new_queues n 0),
    )

-- The doorbell of one queue.
abbrev bell : Queue → ℕ × ℕ
bell q = (off_notify + q.index * notify_mult, q.index)

doorbell-of :
    (qs : List Queue) (first i : ℕ) {offset index : ℕ}
    → NumberedFrom first qs
    → get_elem? (map bell qs) i ≡ some (offset, index)
    → (q : Queue) × (get_elem? qs i ≡ some q)
      × (q.index ≡ index)
      × (index ≡ first + i)
      × (offset ≡ off_notify + index * notify_mult)
      × (i < length qs)
unfolding NumberedFrom
doorbell-of [] first i h e = cc
doorbell-of (q ∷ qs) first zero h e =
    (q, refl, ground (arith, h.0, e), ground (arith, h.0, e), ground (arith, e), omega arith)
doorbell-of (q ∷ qs) first (suc i) h e =
    let r = doorbell-of qs (first + 1) i h.1 e in
    (r.0, r.1, r.2, omega (arith, r.3), r.4, omega (arith, r.5))

-- A write of any bytes to the offset of a doorbell that the kernel did not answer does what the kernel
-- would have done: it wakes the worker of that doorbell's queue, and no other, and changes nothing.
-- The device has its queues numbered from zero, and at most eight.
pub bar0_write-doorbells :
    (d : BlkDevice) (i : ℕ) (bytes : List ℕ) {offset index : ℕ}
    → NumberedFrom 0 d.queues
    → length d.queues ≤ max_queues
    → get_elem? (doorbells d) i ≡ some (offset, index)
    → bar0_write d offset bytes ≡ (d, kick index ∷ [])
unfolding doorbells bar0_write notify
bar0_write-doorbells d i bytes {offset} {index} numbered few found =
    rung (doorbell-of d.queues 0 i numbered found)
  where
    rung :
        (q : Queue) × (get_elem? d.queues i ≡ some q)
          × (q.index ≡ index)
          × (index ≡ 0 + i)
          × (offset ≡ off_notify + index * notify_mult)
          × (i < length d.queues)
        → bar0_write d offset bytes ≡ (d, kick index ∷ [])
    rung (q, at_i, own, number, place, below) =
        let slot : (offset - off_notify) / notify_mult ≡ i = omega arith in
        ground (arith, slot, at_i, own, ap (get_elem? d.queues) slot)
