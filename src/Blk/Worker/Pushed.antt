-- ===== src/Blk/Worker/Pushed.antt =====
-- The used entries that a worker puts in the ring while it takes requests.
use nesbox.Base.{
  ℕ, ◌+◌, ◌-◌, ◌^◌, ◌/◌, ◌%◌, ◌≡◌, arith, subst, Bool, Option, none, some, List, [], ◌∷◌, ◌||◌,
  ◌==◌, min, if-holds,
}
use nesbox.Guest.{GuestMemory}
use nesbox.Virtqueue.{Desc, QState, push_used, set_avail_event, set_used_no_notify}
use nesbox.Blk.Disk.{Disk}
use nesbox.Blk.Request.{
  Op, read, write, flush, get_id, discard, write_zeroes, Segment, Request, Parsed, request, failed,
  malformed, rejected, blk_s_ok, blk_s_ioerr, parse,
}
use nesbox.Blk.Worker.{Slot, Engine, Worker, tell, tell_free, suppress_notify, differs}
use nesbox.Blk.Worker.Complete.{submit}
use nesbox.Blk.Worker.Issue.{
  disk_id, disk_id_len, issue_slot, issue_from, issue, write_id, answer_id, start_parsed, start,
}

-- Guest memory comes from one state to another by writes and by so many `push_used`.
pub data Pushes (g : GuestMemory) (m : g.Mem) : ℕ → g.Mem → Type 0 where
  nothing : Pushes g m 0 m
  wrote : {n : ℕ} {m' : g.Mem} (w a v : ℕ) → Pushes g m n m' → Pushes g m n (g.write w m' a v)
  pushed :
      {n : ℕ} {m' : g.Mem} (q : QState) (head len : ℕ)
      → Pushes g m n m'
      → Pushes g m (n + 1) (push_used g m' q head len).1

recount : {g : GuestMemory} {m m' : g.Mem} (n k : ℕ) → n ≡ k → Pushes g m n m' → Pushes g m k m'
recount {g} {m} {m'} n k e h = subst (λ i. Pushes g m i m') e h

pub Pushes-trans :
    {g : GuestMemory} {m m' m'' : g.Mem} (n k : ℕ)
    → Pushes g m n m'
    → Pushes g m' k m''
    → Pushes g m (n + k) m''
Pushes-trans n _ first nothing = recount n (n + 0) (omega arith) first
Pushes-trans n k first (wrote w a v rest) = wrote w a v (Pushes-trans n k first rest)
Pushes-trans n _ first (pushed {n = k} q head len rest) =
    recount (n + k + 1) (n + (k + 1)) (omega arith)
      (pushed q head len (Pushes-trans n k first rest))

write_id-Pushes :
    {g : GuestMemory} (ss : List Segment) (m : g.Mem) (written : ℕ)
    → Pushes g m 0 (write_id g m written ss).0
unfolding write_id
write_id-Pushes [] m written = nothing
write_id-Pushes {g} (s ∷ ss) m written =
    let n = min s.len (disk_id_len - written) in
    let m' = g.write n m s.addr (disk_id / 256 ^ written % 256 ^ n) in
    if-holds (λ (r : g.Mem × ℕ). Pushes g m 0 r.0) (n == 0) (λ t. nothing)
      (λ t. Pushes-trans 0 0 (wrote _ _ _ nothing) (write_id-Pushes ss m' (written + n)))

module _ {g : GuestMemory} {e : Engine} where
  -- A step of the worker pushes as many entries as it says.
  unfoldable pub Tells : Worker g e → Worker g e × ℕ → Type 0
  Tells w r = Pushes g w.mem r.1 r.0.mem

  told :
      (w : Worker g e) (q : QState) (addr status head len : ℕ)
      → Tells w (tell w q addr status head len, 1)
  unfolding Tells tell
  told w q addr status head len = pushed q head len (wrote 1 addr status nothing)

  told_free :
      (w : Worker g e) (q : QState) (token addr status head len : ℕ)
      → Tells w (tell_free w q token addr status head len, 1)
  unfolding Tells tell tell_free
  told_free w q token addr status head len = pushed q head len (wrote 1 addr status nothing)

  module _ (host : ℕ → ℕ) (alloc : ℕ → ℕ → Option ℕ) (disk : Disk) where
    issue_slot-Tells :
        (w : Worker g e) (q : QState) (token : ℕ) (r : Request) (o : Option Slot)
        → Tells w (issue_slot w q token r o)
    unfolding issue_slot submit Tells
    issue_slot-Tells w q token r none = told_free w q token r.status_addr blk_s_ioerr r.head 1
    issue_slot-Tells w q token r (some s) =
        let w1 = (submit w token s).1 in
        if-holds (Tells w) (submit w token s).0 (λ k. nothing)
          (λ k. told_free w1 q token r.status_addr blk_s_ioerr r.head 1)

    issue_from-Tells :
        (w : Worker g e) (q : QState) (r : Request) (free : List ℕ)
        → Tells w (issue_from host alloc disk w q r free)
    unfolding issue_from Tells
    issue_from-Tells w q r [] = told w q r.status_addr blk_s_ioerr r.head 1
    issue_from-Tells w q r (token ∷ rest) = issue_slot-Tells (record w { free = rest }) q token r _

    pub start-Tells :
        (w : Worker g e) (q : QState) (head : ℕ) (descs : List Desc)
        → Tells w (start host alloc disk w q head descs)
    unfolding start start_parsed answer_id issue Tells tell
    start-Tells w q head descs = by_parsed (parse g w.mem disk head descs)
      where
        by_op :
            (r : Request) (op : Op)
            → Tells w (elim op [ get_id ↦ (answer_id w q r, 1) | _ ↦ issue host alloc disk w q r ])
        by_op r get_id = Pushes-trans 0 1 (write_id-Pushes r.segments w.mem 0) (
            told (record w { mem = (write_id g w.mem 0 r.segments).0 }) q r.status_addr blk_s_ok
              r.head _)
        by_op r read = issue_from-Tells w q r w.free
        by_op r write = issue_from-Tells w q r w.free
        by_op r flush = issue_from-Tells w q r w.free
        by_op r (discard a b) = issue_from-Tells w q r w.free
        by_op r (write_zeroes a b c) = issue_from-Tells w q r w.free

        by_parsed : (o : Parsed) → Tells w (start_parsed host alloc disk w q head o)
        by_parsed (failed malformed) = pushed q head 0 nothing
        by_parsed (failed (rejected addr status)) = told w q addr status head 1
        by_parsed (request r) = by_op r r.op

  pub suppress_notify-Pushes :
      (w : Worker g e) (q : QState) (on : Bool) → Pushes g w.mem 0 (suppress_notify w q on).mem
  unfolding suppress_notify set_avail_event set_used_no_notify
  suppress_notify-Pushes w q on =
      if-holds (λ (v : Worker g e). Pushes g w.mem 0 v.mem) q.event_idx
        (λ t.
          if-holds (λ (m : g.Mem). Pushes g w.mem 0 m) ((q.used == 0) || (q.size == 0))
            (λ u. nothing) (λ u. wrote _ _ _ nothing))
        (λ t.
          if-holds (λ (v : Worker g e). Pushes g w.mem 0 v.mem) (differs w.notify_suppressed on)
            (λ u.
              if-holds (λ (m : g.Mem). Pushes g w.mem 0 m) (q.used == 0) (λ k. nothing)
                (λ k. wrote _ _ _ nothing))
            (λ u. nothing))
