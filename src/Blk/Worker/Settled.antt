-- ===== src/Blk/Worker/Settled.antt =====
-- Every request that a worker takes is in flight until exactly one used entry is pushed for it.
use nesbox.Base.{
  ℕ, ◌+◌, ◌%◌, ◌≡◌, refl, ap, subst, arith, false, not, ◌||◌, Option, none, some, List, [], ◌∷◌,
  length, get_or, set, ◌==◌, u32_mod, if-holds,
}
use nesbox.Guest.{GuestMemory}
use nesbox.Virtqueue.{Desc, QState}
use nesbox.Blk.Disk.{Disk}
use nesbox.Blk.Request.{
  Op, read, write, flush, get_id, discard, write_zeroes, Request, Parsed, request, failed,
  malformed, rejected, blk_s_ok, blk_s_ioerr, parse,
}
use nesbox.Blk.Worker.{Slot, Engine, Worker, Done, in_flight, tell, tell_free}
use nesbox.Blk.Worker.Complete.{
  Action, again, finished, submit, resubmit, conclude, act, complete_slot, complete_held, complete,
  refuses_range,
}
use nesbox.Blk.Worker.Issue.{
  issue_slot, issue_from, issue, write_id, answer_id, start_parsed, start,
}
use nesbox.Blk.Worker.Slab.{
  IsPartition, IsSlab, take_slot-IsPartition, park_slot-IsPartition, pop-IsPartition,
  push-IsPartition,
}

module _ {g : GuestMemory} {e : Engine} where
  -- After a step that took `n` requests from the queue: the slab is well formed, and with the used
  -- entries pushed the requests in flight are `n` more.
  unfoldable pub Settles : Worker g e → ℕ → Worker g e × ℕ → Type 0
  Settles w n r = IsSlab r.0 × (in_flight r.0 + r.1 ≡ in_flight w + n) × (r.0.requests ≡ w.requests)

  -- The token of the request at hand is neither free nor in its slot.
  IsOut : ℕ → Worker g e → Type 0
  IsOut token w = IsPartition (token ∷ []) w.slots w.free w.depth

  parked :
      (w : Worker g e) (token : ℕ) (s : Slot)
      → IsOut token w
      → Settles w 0 (record w { slots = set w.slots token (some s) }, 0)
  unfolding Settles IsSlab IsOut in_flight
  parked w token s p = (park_slot-IsPartition token s p, omega arith, refl)

  told :
      (w : Worker g e) (q : QState) (token addr status head len : ℕ)
      → IsOut token w
      → Settles w 0 (tell_free w q token addr status head len, 1)
  unfolding Settles IsSlab IsOut in_flight tell_free tell
  told w q token addr status head len p = (push-IsPartition token p, omega (arith, p.whole), refl)

  resubmit-Settles :
      (w : Worker g e) (q : QState) (token : ℕ) (s : Slot)
      → IsOut token w
      → Settles w 0 (resubmit w q token s)
  unfolding resubmit IsOut submit in_flight Settles
  resubmit-Settles w q token s p =
      let w1 = (submit w token s).1 in
      if-holds (Settles w 0) (submit w token s).0 (λ h. parked w1 token s p)
        (λ h. told w1 q token s.status_addr blk_s_ioerr s.head 1 p)

  conclude-Settles :
      (w : Worker g e) (q : QState) (token : ℕ) (s : Slot) (a : Action)
      → IsOut token w
      → Settles w 0 (conclude w q token s a)
  unfolding conclude
  conclude-Settles w q token s (again s') p = resubmit-Settles w q token s' p
  conclude-Settles w q token s (finished status) p = told w q token s.status_addr status s.head _ p

  module _ (alloc : ℕ → ℕ → Option ℕ) (disk : Disk) where
    complete_slot-Settles :
        (w : Worker g e) (q : QState) (d : Done) (token : ℕ) (s : Slot)
        → IsSlab w
        → get_or w.slots token none ≡ some s
        → s.generation ≡ w.generation
        → Settles w 0 (complete_slot alloc disk w q d token s)
    unfolding complete_slot Settles IsOut IsSlab in_flight
    complete_slot-Settles w q d token s p h same =
        let current : not (s.generation == w.generation) ≡ false = ground (arith, same) in
        let r = act g w.mem alloc disk s d.result d.window in
        rw current (
          conclude-Settles
            (record w {
              slots = set w.slots token none;
              mem = r.1;
              discard_unsupported = w.discard_unsupported || refuses_range s d.result;
            })
            q token s r.0 (take_slot-IsPartition token p h))

    -- A completion of a request of this generation pushes its used entry or keeps it in flight; one
    -- for no request changes nothing. The slab stays well formed.
    pub complete-Settles :
        (w : Worker g e) (q : QState) (d : Done)
        → IsSlab w
        → ((s : Slot)
            → get_or w.slots (d.token % u32_mod) none ≡ some s
            → s.generation ≡ w.generation)
        → Settles w 0 (complete alloc disk w q d)
    unfolding complete complete_held Settles
    complete-Settles w q d p same = by_held (get_or w.slots (d.token % u32_mod) none) refl
      where
        by_held :
            (o : Option Slot)
            → get_or w.slots (d.token % u32_mod) none ≡ o
            → Settles w 0 (complete_held alloc disk w q d (d.token % u32_mod) o)
        by_held none h = (p, omega arith, refl)
        by_held (some s) h = complete_slot-Settles w q d (d.token % u32_mod) s p h (same s h)

    issue_slot-Settles :
        (w : Worker g e) (q : QState) (token : ℕ) (r : Request) (o : Option Slot)
        → IsOut token w
        → Settles w 0 (issue_slot w q token r o)
    unfolding issue_slot submit IsOut Settles in_flight
    issue_slot-Settles w q token r none p = told w q token r.status_addr blk_s_ioerr r.head 1 p
    issue_slot-Settles w q token r (some s) p =
        let w1 = (submit w token s).1 in
        if-holds (Settles w 0) (submit w token s).0 (λ k. parked w1 token s p)
          (λ k. told w1 q token r.status_addr blk_s_ioerr r.head 1 p)

    told_here :
        (w : Worker g e) (q : QState) (addr status head len : ℕ)
        → IsSlab w
        → Settles w 1 (tell w q addr status head len, 1)
    unfolding Settles IsSlab in_flight tell
    told_here w q addr status head len p = (p, refl, refl)

    issue-Settles :
        (host : ℕ → ℕ) (w : Worker g e) (q : QState) (r : Request)
        → IsSlab w
        → Settles w 1 (issue host alloc disk w q r)
    unfolding issue issue_from Settles IsSlab IsOut in_flight
    issue-Settles host w q r p = by_free w.free refl
      where
        by_free :
            (free : List ℕ) → w.free ≡ free → Settles w 1 (issue_from host alloc disk w q r free)
        by_free [] h = told_here w q r.status_addr blk_s_ioerr r.head 1 p
        by_free (token ∷ rest) h =
            let out = pop-IsPartition token (subst (λ f. IsPartition [] w.slots f w.depth) h p) in
            let s = issue_slot-Settles (record w { free = rest }) q token r _ out in
            (s.0, omega (arith, s.1, out.whole, ap length h), s.2)

    -- A chain that is started is answered with one used entry or in flight; the slab stays well
    -- formed.
    pub start-Settles :
        (host : ℕ → ℕ) (w : Worker g e) (q : QState) (head : ℕ) (descs : List Desc)
        → IsSlab w
        → Settles w 1 (start host alloc disk w q head descs)
    unfolding start start_parsed answer_id Settles IsSlab in_flight
    start-Settles host w q head descs p = by_parsed (parse g w.mem disk head descs)
      where
        by_op :
            (r : Request) (op : Op)
            → Settles w 1
                (elim op [ get_id ↦ (answer_id w q r, 1) | _ ↦ issue host alloc disk w q r ])
        by_op r get_id =
            told_here (record w { mem = (write_id g w.mem 0 r.segments).0 }) q r.status_addr
              blk_s_ok r.head _ p
        by_op r read = issue-Settles host w q r p
        by_op r write = issue-Settles host w q r p
        by_op r flush = issue-Settles host w q r p
        by_op r (discard a b) = issue-Settles host w q r p
        by_op r (write_zeroes a b c) = issue-Settles host w q r p

        by_parsed : (o : Parsed) → Settles w 1 (start_parsed host alloc disk w q head o)
        by_parsed (failed malformed) = (p, refl, refl)
        by_parsed (failed (rejected addr status)) = told_here w q addr status head 1 p
        by_parsed (request r) = by_op r r.op
