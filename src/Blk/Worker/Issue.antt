-- ===== src/Blk/Worker/Issue.antt =====
-- A chain taken from the queue, from virtio-devices/src/blk/worker.rs: answered here, or issued.
use nesbox.Base.{
  ℕ, ◌+◌, ◌-◌, ◌^◌, ◌/◌, ◌%◌, Option, none, some, List, [], ◌∷◌, set, ◌==◌, if◌then◌else◌, min,
}
use nesbox.Guest.{GuestMemory}
use nesbox.Virtqueue.{Desc, QState, push_used}
use nesbox.Blk.Disk.{Disk}
use nesbox.Blk.Request.{
  get_id, Segment, Request, malformed, rejected, Parsed, request, failed, parse, blk_s_ok,
  blk_s_ioerr,
}
use nesbox.Blk.Worker.{Slot, Engine, Worker, tell, tell_free}
use nesbox.Blk.Worker.Transfer.{prepare}
use nesbox.Blk.Worker.Complete.{submit}

-- `DISK_ID`, 20 bytes, as a little-endian number: "nesbox-vda" and zeroes.
abbrev pub disk_id : ℕ
disk_id = 0x6164762d786f6273656e

abbrev pub disk_id_len : ℕ
disk_id_len = 20

module _ (g : GuestMemory) where
  -- Guest memory and the bytes written, `written` of them before.
  unfoldable pub write_id : g.Mem → ℕ → List Segment → g.Mem × ℕ
  write_id m written [] = (m, written)
  write_id m written (s ∷ ss) =
      let n = min s.len (disk_id_len - written) in
      let rest =
        write_id (g.write n m s.addr (disk_id / 256 ^ written % 256 ^ n)) (written + n) ss in
      if n == 0 then (m, written) else rest

module _ {g : GuestMemory} {e : Engine} where
  -- What `prepare` made of the request, for the token at hand.
  unfoldable pub issue_slot : Worker g e → QState → ℕ → Request → Option Slot → Worker g e × ℕ
  issue_slot w q token r none = (tell_free w q token r.status_addr blk_s_ioerr r.head 1, 1)
  issue_slot w q token r (some slot) =
      let sent = submit w token slot in
      if sent.0
      then (record sent.1 { slots = set w.slots token (some slot) }, 0)
      else (tell_free sent.1 q token r.status_addr blk_s_ioerr r.head 1, 1)

  -- `host` is where guest memory is mapped, `alloc` a fresh buffer; the free list comes last.
  unfoldable pub issue_from :
      (ℕ → ℕ) → (ℕ → ℕ → Option ℕ) → Disk → Worker g e → QState → Request → List ℕ → Worker g e × ℕ
  issue_from host alloc disk w q r [] = (tell w q r.status_addr blk_s_ioerr r.head 1, 1)
  issue_from host alloc disk w q r (token ∷ rest) =
      issue_slot (record w { free = rest }) q token r
        (prepare g w.mem host alloc disk w.generation r)

  unfoldable pub issue :
      (ℕ → ℕ) → (ℕ → ℕ → Option ℕ) → Disk → Worker g e → QState → Request → Worker g e × ℕ
  issue host alloc disk w q r = issue_from host alloc disk w q r w.free

  unfoldable pub answer_id : Worker g e → QState → Request → Worker g e
  answer_id w q r =
      let sent = write_id g w.mem 0 r.segments in
      tell (record w { mem = sent.0 }) q r.status_addr blk_s_ok r.head (sent.1 + 1)

  unfoldable pub start_parsed :
      (ℕ → ℕ) → (ℕ → ℕ → Option ℕ) → Disk → Worker g e → QState → ℕ → Parsed → Worker g e × ℕ
  start_parsed host alloc disk w q head (failed malformed) =
      let r = push_used g w.mem q head 0 in (record w { mem = r.1; used_idx = r.0 }, 1)
  start_parsed host alloc disk w q head (failed (rejected addr status)) =
      (tell w q addr status head 1, 1)
  start_parsed host alloc disk w q head (request r) = elim r.op [
    | get_id ↦ (answer_id w q r, 1)
    | _ ↦ issue host alloc disk w q r
  ]

  -- The worker, and how many used entries were pushed.
  unfoldable pub start :
      (ℕ → ℕ) → (ℕ → ℕ → Option ℕ) → Disk → Worker g e → QState → ℕ → List Desc → Worker g e × ℕ
  start host alloc disk w q head descs =
      start_parsed host alloc disk w q head (parse g w.mem disk head descs)
