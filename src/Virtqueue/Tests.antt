-- ===== src/Virtqueue/Tests.antt =====
-- A queue of two entries in a small guest memory, and the queue's functions run on it.
use nesbox.Base.{ℕ, ◌+◌, ◌*◌, ◌≡◌, refl, true, false, some, [], ◌∷◌, ◌==◌, if◌then◌else◌, arith}
use nesbox.Guest.Flat.{FlatMemory, flat_guest, flat_read, flat_write, flat_read_within}
use nesbox.Virtqueue.{
  Desc, QState, read_desc, collect_descs_with, has_avail, read_used_idx, set_avail_event,
  set_used_no_notify, set_queue_size, used_needs_interrupt, avail_wants_interrupt,
}
use nesbox.Virtqueue.Chain.{Chain, last, more, collect_descs_with-Chain}
use nesbox.Virtqueue.Indirect.{Leads, there, over, collect_descs_with-indirect_after_direct}
use nesbox.Virtqueue.Avail.{Offers, drain, taken, advance, drain_lem}
use nesbox.Virtqueue.Used.{UsedRing}
use nesbox.Virtqueue.Batch.{complete_all, complete_all_lem, Landed}

-- The descriptor table is at 0x100: entry 0 is a readable buffer that goes on at entry 1, a writable
-- one. A second table, at 0x180, starts with a buffer that goes on at an INDIRECT descriptor, whose
-- table is the first. The avail ring at 0x200 offers head 0 and says NO_INTERRUPT; the used ring is at
-- 0x300.
abbrev cells : ℕ → ℕ
cells a =
    if a == 0x101
    then 8
    else if a == 0x108
    then 16
    else if a == 0x10c
    then 1
    else if a == 0x10e
    then 1
    else if a == 0x111
    then 9
    else if a == 0x118
    then 8
    else if a == 0x11c
    then 2
    else if a == 0x18c
    then 1
    else if a == 0x18e
    then 1
    else if a == 0x191
    then 1
    else if a == 0x198
    then 32
    else if a == 0x19c
    then 4
    else if a == 0x200
    then 1
    else if a == 0x202
    then 1
    else 0

abbrev memory : FlatMemory
memory = record { size = 0x1000; cell = cells }

abbrev queue : QState
queue = record {
  desc = 0x100;
  avail = 0x200;
  used = 0x300;
  size = 2;
  enabled = true;
  last = 0;
  vec = 0;
  indirect = true;
  event_idx = false;
}

abbrev request : Desc
request = record { addr = 0x800; len = 16; flags = 1 }

abbrev answer : Desc
answer = record { addr = 0x900; len = 8; flags = 2 }

abbrev plain : Desc
plain = record { addr = 0; len = 0; flags = 1 }

abbrev pointer : Desc
pointer = record { addr = 0x100; len = 32; flags = 4 }

first_entry : read_desc flat_guest memory 0x100 0 ≡ some (request, 1)
unfolding read_desc flat_read
first_entry = refl

second_entry : read_desc flat_guest memory 0x100 1 ≡ some (answer, 0)
unfolding read_desc flat_read
second_entry = refl

plain_entry : read_desc flat_guest memory 0x180 0 ≡ some (plain, 1)
unfolding read_desc flat_read
plain_entry = refl

pointer_entry : read_desc flat_guest memory 0x180 1 ≡ some (pointer, 0)
unfolding read_desc flat_read
pointer_entry = refl

request-Chain : Chain flat_guest memory 0x100 2 0 (request ∷ answer ∷ [])
request-Chain =
    more request 1 first_entry refl refl (omega arith) (last answer 0 second_entry refl refl)

to_pointer : Leads flat_guest memory 0x180 2 pointer 0 (plain ∷ [])
to_pointer = over plain 1 plain_entry refl refl (omega arith) (there 0 pointer_entry refl)

collect_descs_with-Chain_example :
    collect_descs_with flat_guest memory 0x100 0 2 true ≡ request ∷ answer ∷ []
collect_descs_with-Chain_example =
    collect_descs_with-Chain flat_guest memory 0x100 0 2 true request-Chain (omega arith)
      (omega arith)

-- The two buffers behind the INDIRECT descriptor come to one.
collect_descs_with-indirect_after_direct_example :
    collect_descs_with flat_guest memory 0x180 0 2 true ≡ plain ∷ request ∷ []
collect_descs_with-indirect_after_direct_example =
    collect_descs_with-indirect_after_direct flat_guest memory 0x180 0 2 pointer request 1
      to_pointer (omega arith) (omega arith) first_entry refl (omega arith) (omega arith)

read_avail_idx : flat_read 2 memory 0x202 ≡ some 1
unfolding flat_read
read_avail_idx = refl

read_ring_0 : flat_read 2 memory 0x204 ≡ some 0
unfolding flat_read
read_ring_0 = refl

offers : Offers flat_guest memory queue (0 ∷ [])
offers = record {
  some_size = omega arith;
  placed = (omega arith, omega arith);
  no_wrap = omega arith;
  few = (omega arith, omega arith);
  index = read_avail_idx;
  entries = (read_ring_0, tt);
}

drain_lem_example :
    drain flat_guest 2 memory queue
    ≡ (taken flat_guest memory queue (0 ∷ []), advance flat_guest queue 1)
drain_lem_example = drain_lem flat_guest 2 memory queue (0 ∷ []) offers (omega arith)

used_ring : UsedRing flat_guest memory queue 0
unfolding flat_read
used_ring = record {
  some_size = omega arith;
  placed = omega arith;
  no_wrap = omega arith;
  index = refl;
  heads = λ i h. flat_read_within 4 memory (0x300 + 4 + i * 8) (omega arith);
  lens = λ i h. flat_read_within 4 memory (0x300 + 4 + i * 8 + 4) (omega arith);
}

complete_all_lem_example :
    UsedRing flat_guest (complete_all flat_guest memory queue ((0, 8) ∷ (1, 4) ∷ [])) queue 2
    × Landed flat_guest
        (complete_all flat_guest memory queue ((0, 8) ∷ (1, 4) ∷ []))
        queue
        0
        ((0, 8) ∷ (1, 4) ∷ [])
complete_all_lem_example =
    complete_all_lem flat_guest memory queue 0 ((0, 8) ∷ (1, 4) ∷ []) used_ring (omega arith) refl
      (omega arith) ((omega arith, omega arith), ((omega arith, omega arith), tt))

no_interrupt : used_needs_interrupt flat_guest memory queue 0 1 ≡ false
unfolding used_needs_interrupt avail_wants_interrupt flat_read
no_interrupt = refl

-- The rest of the queue's functions on the same memory.
has_avail_test : has_avail flat_guest memory queue ≡ true
unfolding has_avail flat_read
has_avail_test = refl

read_used_idx_test : read_used_idx flat_guest memory queue ≡ 0
unfolding read_used_idx flat_read
read_used_idx_test = refl

set_avail_event_test : flat_read 2 (set_avail_event flat_guest memory queue 7) 0x314 ≡ some 7
unfolding set_avail_event flat_read flat_write
set_avail_event_test = refl

set_used_no_notify_test :
    flat_read 2 (set_used_no_notify flat_guest memory queue true) 0x300 ≡ some 1
unfolding set_used_no_notify flat_read flat_write
set_used_no_notify_test = refl

set_queue_size_test : (set_queue_size queue 1024 256).size ≡ 256
unfolding set_queue_size
set_queue_size_test = refl
