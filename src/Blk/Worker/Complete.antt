-- ===== src/Blk/Worker/Complete.antt =====
-- One completion, from virtio-devices/src/blk/worker.rs: the request is finished, or what is left of
-- it goes back to the engine.
use nesbox.Base.{
  ℕ, ◌+◌, ◌%◌, Bool, false, ◌&&◌, ◌||◌, not, Option, none, some, ◌∷◌, get_or, set, ltb, ◌==◌,
  if◌then◌else◌, u32_mod,
}
use nesbox.Guest.{GuestMemory}
use nesbox.Virtqueue.{QState}
use nesbox.Blk.Disk.{Disk}
use nesbox.Blk.Request.{Op, read, blk_s_ok, blk_s_ioerr, blk_s_unsupp}
use nesbox.Blk.Worker.{Bounce, Slot, Job, Engine, Outcome, moved, errno, Done, Worker, tell_free}
use nesbox.Blk.Worker.Transfer.{
  advance, is_transfer, is_range, job_of, zero_fill, zero_from, copy_out, stage,
}

abbrev pub eintr : ℕ
eintr = 4

abbrev pub eagain : ℕ
eagain = 11

abbrev pub einval : ℕ
einval = 22

abbrev pub eopnotsupp : ℕ
eopnotsupp = 95

-- What the code does with a completion of a slot it holds.
pub data Action : Type 0 where
  -- back to the engine, as the slot is now
  again : Slot → Action
  -- told to the guest with this status
  finished : ℕ → Action

-- The length that the used ring reports.
unfoldable pub used_len : Slot → ℕ → Op → ℕ
used_len s status read = if status == blk_s_ok then s.total % u32_mod + 1 else 1
used_len s status op = 1

-- A slot moved past the bytes of a completion.
abbrev pub progressed : Slot → ℕ → Slot
progressed s n = record s { done = s.done + n; offset = s.offset + n }

-- `discard_unsupported` is set by an unsupported range.
unfoldable pub refuses_range : Slot → Outcome → Bool
refuses_range s (moved n) = false
refuses_range s (errno err) = (err == eopnotsupp) && is_range s.op

-- A request that direct I/O refused, staged and tried once more.
unfoldable pub restaged : Option Slot → Action
restaged (some s') = again s'
restaged none = finished blk_s_ioerr

module _ (g : GuestMemory) where
  -- Whether a staged read reached the guest's pages.
  unfoldable pub copied : g.Mem → (ℕ → ℕ → ℕ) → Slot → Action × g.Mem
  copied m window s =
      let r = copy_out g m window s in (finished (if r.0 then blk_s_ok else blk_s_ioerr), r.1)

  -- A read whose file ended early: the rest is zeroes.
  unfoldable pub read_short : g.Mem → (ℕ → ℕ → ℕ) → Slot → Option Bounce → Action × g.Mem
  read_short m window s (some b) = copied m (zero_from g window s.done) s
  read_short m window s none = (finished blk_s_ok, zero_fill g m s.done s.segments)

  -- Nothing moved and no error, short of the end.
  unfoldable pub stopped_short : g.Mem → (ℕ → ℕ → ℕ) → Slot → Op → Action × g.Mem
  stopped_short m window s read = read_short m window s s.bounce
  stopped_short m window s op = (finished blk_s_ioerr, m)

  -- All of it moved.
  unfoldable pub moved_all : g.Mem → (ℕ → ℕ → ℕ) → Slot → Op → Option Bounce → Action × g.Mem
  moved_all m window s read (some b) = copied m window s
  moved_all m window s op bounce = (finished blk_s_ok, m)

  -- A transfer after `n` more bytes.
  unfoldable pub transferred : g.Mem → (ℕ → ℕ → ℕ) → Slot → ℕ → Action × g.Mem
  transferred m window s n =
      if ltb s.done s.io_len
      then if n == 0
        then stopped_short m window s s.op
        else (again (record s { iovs = advance s.iovs n }), m)
      else moved_all m window s s.op s.bounce

  unfoldable pub failed_with : g.Mem → (ℕ → ℕ → Option ℕ) → Disk → Slot → ℕ → Action
  failed_with m alloc disk s err =
      if (err == eintr) || (err == eagain)
      then again s
      else if (err == einval) && not s.bounced && (s.done == 0) && is_transfer s.op
      then restaged (stage g m alloc disk s)
      else if (err == eopnotsupp) && is_range s.op
      then finished blk_s_unsupp
      else finished blk_s_ioerr

  unfoldable pub act :
      g.Mem → (ℕ → ℕ → Option ℕ) → Disk → Slot → Outcome → (ℕ → ℕ → ℕ) → Action × g.Mem
  act m alloc disk s (errno err) window = (failed_with m alloc disk s err, m)
  act m alloc disk s (moved n) window =
      if not (is_transfer s.op)
      then (finished blk_s_ok, m)
      else transferred m window (progressed s n) n

module _ {g : GuestMemory} {e : Engine} where
  -- Whether the engine took the job; `get_id` has none, and the code does not come here with it.
  unfoldable pub submit_job : Worker g e → ℕ → Option Job → Bool × e.State
  submit_job w token none = (false, w.engine)
  submit_job w token (some job) = e.submit w.engine token job

  unfoldable pub submit : Worker g e → ℕ → Slot → Bool × Worker g e
  submit w token s = let r = submit_job w token (job_of s) in (r.0, record w { engine = r.1 })

  -- The worker, and how many used entries were pushed.
  unfoldable pub resubmit : Worker g e → QState → ℕ → Slot → Worker g e × ℕ
  resubmit w q token s =
      let r = submit w token s in
      if r.0
      then (record r.1 { slots = set r.1.slots token (some s) }, 0)
      else (tell_free r.1 q token s.status_addr blk_s_ioerr s.head 1, 1)

  unfoldable pub conclude : Worker g e → QState → ℕ → Slot → Action → Worker g e × ℕ
  conclude w q token s (again s') = resubmit w q token s'
  conclude w q token s (finished status) =
      (tell_free w q token s.status_addr status s.head (used_len s status s.op), 1)

  -- A slot taken out of the slab, under the queue's generation.
  unfoldable pub complete_slot :
      (ℕ → ℕ → Option ℕ) → Disk → Worker g e → QState → Done → ℕ → Slot → Worker g e × ℕ
  complete_slot alloc disk w q d token s =
      let w1 = record w { slots = set w.slots token none } in
      if not (s.generation == w.generation)
      then (record w1 { free = token ∷ w1.free }, 0)
      else let r = act g w.mem alloc disk s d.result d.window in
        conclude
          (record w1 {
            mem = r.1;
            discard_unsupported = w.discard_unsupported || refuses_range s d.result;
          })
          q token s r.0

  -- What the slab holds under the token.
  unfoldable pub complete_held :
      (ℕ → ℕ → Option ℕ) → Disk → Worker g e → QState → Done → ℕ → Option Slot → Worker g e × ℕ
  complete_held alloc disk w q d token none = (w, 0)
  complete_held alloc disk w q d token (some s) = complete_slot alloc disk w q d token s

  unfoldable pub complete : (ℕ → ℕ → Option ℕ) → Disk → Worker g e → QState → Done → Worker g e × ℕ
  complete alloc disk w q d =
      let token = d.token % u32_mod in
      complete_held alloc disk w q d token (get_or w.slots token none)
