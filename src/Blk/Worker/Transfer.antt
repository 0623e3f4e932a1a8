-- ===== src/Blk/Worker/Transfer.antt =====
-- The data of a request, from virtio-devices/src/blk/worker.rs: the segments the kernel reads, the
-- bounce buffer, and what a partial transfer leaves.
use nesbox.Base.{
  ℕ, zero, suc, ◌+◌, ◌-◌, ◌*◌, ◌^◌, ◌%◌, Bool, true, false, ◌&&◌, ◌||◌, not, Option, none, some,
  List, [], ◌∷◌, length, leb, ◌==◌, if◌then◌else◌, min, max, add64, ◌>>=◌,
}
use nesbox.Guest.{GuestMemory}
use nesbox.Blk.Disk.{IoVec, Disk, direct_ok, bounce_shape, sector_size}
use nesbox.Blk.Request.{Op, read, write, flush, get_id, discard, write_zeroes, Segment, Request}
use nesbox.Blk.Worker.{Slot, Job, readv, writev, flush_data, fallocate}

-- Drop `n` bytes from the front of a scatter-gather list.
unfoldable pub advance : List IoVec → ℕ → List IoVec
advance [] left = []
advance (v ∷ vs) left =
    if left == 0
    then v ∷ vs
    else if leb v.len left
    then advance vs (left - v.len)
    else record { base = v.base + left; len = v.len - left } ∷ vs

unfoldable pub is_transfer : Op → Bool
is_transfer read = true
is_transfer write = true
is_transfer op = false

unfoldable pub is_write : Op → Bool
is_write write = true
is_write op = false

unfoldable pub is_range : Op → Bool
is_range (discard sector sectors) = true
is_range (write_zeroes sector sectors unmap) = true
is_range op = false

-- FALLOC_FL_KEEP_SIZE with FALLOC_FL_PUNCH_HOLE or with FALLOC_FL_ZERO_RANGE
abbrev punch_hole_keep_size : ℕ
punch_hole_keep_size = 3

abbrev zero_range_keep_size : ℕ
zero_range_keep_size = 17

-- The job of a slot; `get_id` never reaches the engine.
unfoldable pub job_of : Slot → Option Job
job_of s = elim s.op [
  | read ↦ some (readv s.iovs s.offset)
  | write ↦ some (writev s.iovs s.offset)
  | flush ↦ some flush_data
  | discard sector sectors ↦
      some (fallocate punch_hole_keep_size (sector * sector_size) (sectors * sector_size))
  | write_zeroes sector sectors unmap ↦ some (
      fallocate (if unmap then punch_hole_keep_size else zero_range_keep_size)
        (sector * sector_size) (sectors * sector_size))
  | get_id ↦ none
]

-- What one turn of the zeroing loops writes at most.
abbrev pub zeroes_len : ℕ
zeroes_len = 4096

module _ (g : GuestMemory) where
  open g use {Mem, covers}

  -- The `while` loop of `zero_fill` with its turns left, from `at` on: whether every write went
  -- through, and the memory after.
  unfoldable pub zero_chunks : ℕ → Mem → ℕ → ℕ → ℕ → Bool × Mem
  zero_chunks zero m addr len at = (true, m)
  zero_chunks (suc fuel) m addr len at =
      if leb len at
      then (true, m)
      else let n = min (len - at) zeroes_len in
        let m' = g.write n m (add64 addr at) 0 in
        let rest = zero_chunks fuel m' addr len (at + n) in
        if covers m (add64 addr at) n then rest else (false, m')

  -- Zeroes for what lies beyond the first `skip` bytes; every turn of the inner loop moves `at` on,
  -- so the length of the segment is fuel enough.
  unfoldable pub zero_fill : Mem → ℕ → List Segment → Mem
  zero_fill m skip [] = m
  zero_fill m skip (s ∷ ss) =
      if leb s.len skip
      then zero_fill m (skip - s.len) ss
      else let r = zero_chunks s.len m s.addr s.len skip in
        let rest = zero_fill r.1 0 ss in if r.0 then rest else r.1

  -- What the window holds once `zero_from at` has zeroed its tail.
  unfoldable pub zero_from : (ℕ → ℕ → ℕ) → ℕ → ℕ → ℕ → ℕ
  zero_from window at from n = window from n % 256 ^ (at - from)

  -- The window's bytes from `at` on, copied to the segments; `false` where a segment refused.
  unfoldable pub copy_segments : Mem → (ℕ → ℕ → ℕ) → ℕ → List Segment → Bool × Mem
  copy_segments m window at [] = (true, m)
  copy_segments m window at (s ∷ ss) =
      let m' = g.write s.len m s.addr (window at s.len) in
      let rest = copy_segments m' window (at + s.len) ss in
      if covers m s.addr s.len then rest else (false, m')

  unfoldable pub copy_out : Mem → (ℕ → ℕ → ℕ) → Slot → Bool × Mem
  copy_out m window s = elim s.bounce [
    | none ↦ (false, m)
    | some b ↦ copy_segments m window b.skip s.segments
  ]

  -- The bytes of the segments, in order, for a staged write.
  unfoldable pub copy_in : Mem → List Segment → Option (List ℕ)
  copy_in m [] = some []
  copy_in m (s ∷ ss) = do bytes ← g.read s.len m s.addr; rest ← copy_in m ss; some (bytes ∷ rest)

  -- Host segments for the guest's pages: `host` is where guest memory is mapped.
  unfoldable pub iovs_for : Mem → (ℕ → ℕ) → List Segment → List IoVec
  iovs_for m host [] = []
  iovs_for m host (s ∷ ss) =
      let rest = iovs_for m host ss in
      if covers m s.addr s.len then record { base = host s.addr; len = s.len } ∷ rest else rest

  -- The data that staging has to copy into the buffer.
  unfoldable pub stage_data : Mem → Slot → Option (List ℕ)
  stage_data m s = if is_write s.op then copy_in m s.segments else some []

  -- The slot rebuilt around a bounce buffer; `none` is BLK_S_IOERR. `alloc len align` is the
  -- address of a fresh buffer, or `none`.
  unfoldable pub stage : Mem → (ℕ → ℕ → Option ℕ) → Disk → Slot → Option Slot
  stage m alloc disk s =
      let (align, head_pad, io_len) = bounce_shape disk s.offset s.total in
      if (not (head_pad == 0) || not (io_len == s.total)) && is_write s.op then none else do
        ptr ← alloc (max io_len 1) (max align 1)
        copied ← stage_data m s
        some (record s {
          offset = s.offset - head_pad;
          io_len = io_len;
          iovs = record { base = ptr; len = max io_len 1 } ∷ [];
          bounce =
              some (record { ptr = ptr; size = max io_len 1; skip = head_pad; data_in = copied });
          bounced = true;
        })

  abbrev pub slot_of : Request → ℕ → Slot
  slot_of r generation = record {
    generation = generation;
    head = r.head;
    op = r.op;
    status_addr = r.status_addr;
    segments = r.segments;
    iovs = [];
    bounce = none;
    offset = r.offset;
    done = 0;
    total = r.total;
    io_len = r.total;
    bounced = false;
  }

  unfoldable pub prepare : Mem → (ℕ → ℕ) → (ℕ → ℕ → Option ℕ) → Disk → ℕ → Request → Option Slot
  prepare m host alloc disk generation r =
      let slot = slot_of r generation in
      let iovs = iovs_for m host r.segments in
      if not (is_transfer r.op)
      then some slot
      else if not (length iovs == length r.segments)
      then none
      else if direct_ok disk r.offset iovs
      then some (record slot { iovs = iovs })
      else stage m alloc disk slot
