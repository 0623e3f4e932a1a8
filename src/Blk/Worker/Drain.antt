-- ===== src/Blk/Worker/Drain.antt =====
-- The loops of virtio-devices/src/blk/worker.rs: `drain`, and one turn of `run` after its wait.
use nesbox.Base.{
  ℕ, zero, suc, ◌+◌, ◌%◌, Bool, true, false, ◌&&◌, ◌||◌, not, Option, none, some, List, [], ◌∷◌,
  ltb, ◌==◌, if◌then◌else◌, u32_mod, ◌>>=◌,
}
use nesbox.Guest.{GuestMemory}
use nesbox.Virtqueue.{QState, pop_avail, has_avail, read_used_idx, used_needs_interrupt}
use nesbox.Blk.Disk.{Disk}
use nesbox.Blk.Worker.{Engine, Worker, Done, release, can_accept, suppress_notify, report}
use nesbox.Blk.Worker.Complete.{complete}
use nesbox.Blk.Worker.Issue.{start}

-- What the functions here run on and give back: the worker, its queue, the used entries so far.
pub record Progress (g : GuestMemory) (e : Engine) : Type 0 where
  pub worker : Worker g e
  pub queue : QState
  pub used : ℕ

module _ {g : GuestMemory} {e : Engine} where
  unfoldable pub hint : Bool → Progress g e → Progress g e
  hint on p = record p { worker = suppress_notify p.worker p.queue on }

  unfoldable pub complete_all :
      (ℕ → ℕ → Option ℕ) → Disk → Worker g e → QState → List Done → ℕ → Worker g e × ℕ
  complete_all alloc disk w q [] used = (w, used)
  complete_all alloc disk w q (d ∷ ds) used =
      let r = complete alloc disk w q d in complete_all alloc disk r.0 q ds (used + r.1)

  unfoldable pub release_all : Worker g e → List Done → Worker g e
  release_all w [] = w
  release_all w (d ∷ ds) = release_all (release w (d.token % u32_mod)) ds

  -- The interrupt decision at the end of a turn.
  unfoldable pub interrupts_for : ℕ → Progress g e → Bool
  interrupts_for batch_start p =
      ltb 0 p.used && used_needs_interrupt g p.worker.mem p.queue batch_start p.worker.used_idx

module _ {g : GuestMemory} {e : Engine} (host : ℕ → ℕ) (alloc : ℕ → ℕ → Option ℕ)
    (disk : Disk) where
  -- One turn of the inner loop; `none` leaves it.
  unfoldable pub take_one : Progress g e → Option (Progress g e)
  take_one p = if not (can_accept p.worker) then none else do
    (head, descs, q) ← pop_avail g p.worker.mem p.queue
    let w = record p.worker { requests = p.worker.requests + 1 }
    let r = start host alloc disk w q head descs
    some (record { worker = r.0; queue = q; used = p.used + r.1 })

  unfoldable pub take_all : ℕ → Progress g e → Progress g e
  take_all zero p = p
  take_all (suc turns) p = elim (take_one p) [ none ↦ p | some p' ↦ take_all turns p' ]

  -- `drain`, with the turns that its loops have left.
  unfoldable pub drain : ℕ → Progress g e → Progress g e
  drain zero p = p
  drain (suc turns) p =
      let p1 = take_all (suc turns) (hint true p) in
      let p2 = hint false p1 in
      let rest = drain turns p2 in
      if not (can_accept p1.worker)
      then p1
      else if has_avail g p2.worker.mem p2.queue
      then rest
      else record p2 { worker = report (record p2.worker { want_drain = false }) }

  -- The batch of a turn: its completions, then what the guest has offered.
  unfoldable pub batch : ℕ → Worker g e → QState → List Done → Progress g e
  batch turns w q completions =
      let r = complete_all alloc disk w q completions 0 in
      let p : Progress g e = record { worker = r.0; queue = q; used = r.1 } in
      if r.0.want_drain then drain turns p else p

  -- The turn: what `wait` reported, and whether the driver is interrupted.
  unfoldable pub turn : ℕ → Worker g e → QState → Bool → List Done → Progress g e × Bool
  turn turns w q kicked completions =
      let w1 = record w { want_drain = w.want_drain || kicked } in
      if not q.enabled || (q.desc == 0)
      then (
        record {
          worker = record (release_all w1 completions) { want_drain = false };
          queue = q;
          used = 0;
        },
        false,
      )
      else let start_idx = read_used_idx g w1.mem q in
        let p = batch turns w1 q completions in
        if interrupts_for start_idx p
        then (record p { worker = record p.worker { interrupts = p.worker.interrupts + 1 } }, true)
        else (p, false)
