-- ===== src/Virtqueue.antt =====
-- The split virtqueues of virtio-devices/src/common.rs: descriptor chains, the avail ring that the
-- driver fills, the used ring that the device fills, and the notification hints of both.
pub mod Walk
pub mod Chain
pub mod Indirect
pub mod Avail
pub mod Taken
pub mod Used
pub mod Batch
pub mod Event
mod Tests
use nesbox.Base.{
  ℕ, zero, suc, ◌+◌, ◌*◌, ◌/◌, ◌%◌, ◌≤◌, ◌<◌, ◌≡◌, Bool, true, false, not, ◌||◌, Option, none, some,
  List, [], ◌∷◌, ◌++◌, length, ltb, leb, ◌==◌, if◌then◌else◌, min, u16_mod, u32_mod, add64,
  checked_add64, wrapping_add16, wrapping_sub16, has_bit, ◌>>=◌,
}
use nesbox.Guest.{GuestMemory}

-- A descriptor as the queues report it: guest address, length, flags.
pub record Desc : Type 0 where
  pub addr : ℕ
  pub len : ℕ
  pub flags : ℕ

-- Bit numbers of VRING_DESC_F_NEXT, VRING_DESC_F_WRITE and VRING_DESC_F_INDIRECT.
abbrev pub desc_f_next : ℕ
desc_f_next = 0

abbrev pub desc_f_write : ℕ
desc_f_write = 1

abbrev pub desc_f_indirect : ℕ
desc_f_indirect = 2

abbrev pub vring_desc_size : ℕ
vring_desc_size = 16

pub record QState : Type 0 where
  pub desc : ℕ
  pub avail : ℕ
  pub used : ℕ
  pub size : ℕ
  pub enabled : Bool
  pub last : ℕ
  pub vec : ℕ
  pub indirect : Bool
  pub event_idx : Bool

unfoldable pub set_queue_size : QState → ℕ → ℕ → QState
set_queue_size q requested max =
    if ltb max requested then record q { size = max } else record q { size = requested }

-- What one round of the walk decides: to return, or to go on at another index.
pub data Round : Type 0 where
  stop : List Desc → Round
  go : List Desc → ℕ → Round

abbrev pub used_event_addr : QState → ℕ
used_event_addr q = add64 (add64 q.avail 4) (q.size * 2)

abbrev pub avail_event_addr : QState → ℕ
avail_event_addr q = add64 (add64 q.used 4) (q.size * 8)

pub vring_need_event : ℕ → ℕ → ℕ → Bool
vring_need_event event new old =
    ltb (wrapping_sub16 (wrapping_sub16 new event) 1) (wrapping_sub16 new old)

-- With `allow_indirect` false the walk returns at an INDIRECT descriptor.
abbrev pub refuse_indirect : Desc → List Desc → List Desc
refuse_indirect d out = out

module _ (g : GuestMemory) where
  open g use {Mem, read, write}

  -- The descriptor at `idx`, with its `next` field.
  unfoldable pub read_desc : Mem → ℕ → ℕ → Option (Desc × ℕ)
  read_desc m table idx = do
    base ← checked_add64 table (idx * vring_desc_size)
    addr ← read 8 m base
    len_at ← checked_add64 base 8
    len ← read 4 m len_at
    flags_at ← checked_add64 base 12
    flags ← read 2 m flags_at
    next_at ← checked_add64 base 14
    next ← read 2 m next_at
    some (record { addr = addr; len = len; flags = flags }, next)

  -- One round of the `for` loop. `follow` is what an INDIRECT descriptor does.
  unfoldable pub walk_round : (Desc → List Desc → List Desc) → Mem → ℕ → ℕ → ℕ → List Desc → Round
  walk_round follow m table max idx out = elim (read_desc m table idx) [
    | none ↦ stop out
    | some (d, next) ↦
        if has_bit d.flags desc_f_indirect
        then stop (follow d out)
        else if leb max (length (out ++ d ∷ []))
        then stop (out ++ d ∷ [])
        else if not (has_bit d.flags desc_f_next) || leb max next
        then stop (out ++ d ∷ [])
        else go (out ++ d ∷ []) next
  ]

  -- The `for` loop with its rounds left.
  unfoldable pub walk_rounds :
      (Desc → List Desc → List Desc) → Mem → ℕ → ℕ → ℕ → ℕ → List Desc → List Desc
  walk_rounds follow m table max zero idx out = out
  walk_rounds follow m table max (suc rounds) idx out =
      elim (walk_round follow m table max idx out) [
        | stop result ↦ result
        | go out' next ↦ walk_rounds follow m table max rounds next out'
      ]

  unfoldable pub walk_chain :
      (Desc → List Desc → List Desc) → Mem → ℕ → ℕ → ℕ → List Desc → List Desc
  walk_chain follow m table head max out =
      if leb max head then out else walk_rounds follow m table max max head out

  pub walk_indirect : Mem → ℕ → Desc → List Desc → List Desc
  walk_indirect m max d out =
      let entries = d.len / vring_desc_size in
      if entries == 0 then out else walk_chain refuse_indirect m d.addr 0 (min entries max) out

  unfoldable pub collect_descs_with : Mem → ℕ → ℕ → ℕ → Bool → List Desc
  collect_descs_with m desc_base head max allow_indirect =
      walk_chain (if allow_indirect then walk_indirect m max else refuse_indirect) m desc_base head
        max []

  pub collect_descs : Mem → ℕ → ℕ → ℕ → List Desc
  collect_descs m desc_base head max = collect_descs_with m desc_base head max false

  unfoldable pub has_avail : Mem → QState → Bool
  has_avail m q = elim (read 2 m (add64 q.avail 2)) [
    | some idx ↦ not (idx == q.last)
    | none ↦ false
  ]

  -- The entry at the slot of `last`, and the queue moved past it.
  unfoldable pub take_avail : Mem → QState → Option (ℕ × List Desc × QState)
  take_avail m q = do
    h ← read 2 m (add64 (add64 q.avail 4) (q.last % q.size * 2))
    let descs = collect_descs_with m q.desc h q.size q.indirect
    some (h, descs, record q { last = wrapping_add16 q.last 1 })

  -- The head and the chain taken, with the queue after it; `none` leaves the queue as it was.
  unfoldable pub pop_avail : Mem → QState → Option (ℕ × List Desc × QState)
  unfolding take_avail
  pop_avail m q =
      if (q.size == 0) || (q.avail == 0) || (q.desc == 0)
      then none
      else read 2 m (add64 q.avail 2) >>= λ idx. if idx == q.last then none else take_avail m q

  unfoldable pub read_used_idx : Mem → QState → ℕ
  read_used_idx m q =
      if (q.size == 0) || (q.used == 0)
      then 0
      else elim (read 2 m (add64 q.used 2)) [ some idx ↦ idx | none ↦ 0 ]

  -- The used index after the write, and guest memory after it.
  unfoldable pub push_used : Mem → QState → ℕ → ℕ → ℕ × Mem
  push_used m q head len =
      if (q.size == 0) || (q.used == 0)
      then (0, m)
      else let ua = add64 q.used 2 in
        let ui : ℕ = elim (read 2 m ua) [ some idx ↦ idx | none ↦ 0 ] in
        let ue = add64 (add64 q.used 4) (ui % q.size * 8) in
        let next = wrapping_add16 ui 1 in
        (next, write 2 (write 4 (write 4 m ue head) (add64 ue 4) len) ua next)

  unfoldable pub set_avail_event : Mem → QState → ℕ → Mem
  set_avail_event m q idx =
      if (q.used == 0) || (q.size == 0) then m else write 2 m (avail_event_addr q) idx

  -- Bit 0 of the avail ring's flags is VRING_AVAIL_F_NO_INTERRUPT.
  unfoldable pub avail_wants_interrupt : Mem → QState → Bool
  avail_wants_interrupt m q =
      if q.avail == 0
      then true
      else elim (read 2 m q.avail) [ some flags ↦ not (has_bit flags 0) | none ↦ true ]

  unfoldable pub used_needs_interrupt : Mem → QState → ℕ → ℕ → Bool
  used_needs_interrupt m q old new =
      if not q.event_idx then avail_wants_interrupt m q else elim (read 2 m (used_event_addr q)) [
        | some event ↦ vring_need_event event new old
        | none ↦ true
      ]

  -- VRING_USED_F_NO_NOTIFY is 1.
  unfoldable pub set_used_no_notify : Mem → QState → Bool → Mem
  set_used_no_notify m q suppress =
      if q.used == 0 then m else write 2 m q.used (if suppress then 1 else 0)
