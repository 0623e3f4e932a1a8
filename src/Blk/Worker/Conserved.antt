-- ===== src/Blk/Worker/Conserved.antt =====
-- What the loops of a worker keep: over a whole drain, the requests taken are the used entries
-- pushed and the requests that came to be in flight.
use nesbox.Base.{ℕ, ◌+◌, ◌≡◌, arith, Option}
use nesbox.Guest.{GuestMemory}
use nesbox.Blk.Disk.{Disk}
use nesbox.Blk.Worker.{Engine, Worker, in_flight}
use nesbox.Blk.Worker.Drain.{Progress}
use nesbox.Blk.Worker.Slab.{IsSlab}
use nesbox.Blk.Worker.Pushed.{Pushes, Pushes-trans}

module _ {g : GuestMemory} {e : Engine} where
  -- From one state of a loop to another, the slab stays well formed and every request taken is
  -- either among the used entries that `push_used` has put in guest memory or among those in flight.
  pub record IsBalanced (p p' : Progress g e) : Type 0 where
    pub slab : IsSlab p'.worker
    pub conserved :
        in_flight p'.worker + p'.used + p.worker.requests
        ≡ in_flight p.worker + p.used + p'.worker.requests
    pub pushes : (n : ℕ) × Pushes g p.worker.mem n p'.worker.mem × (p'.used ≡ p.used + n)

  after : (p p1 p2 : Progress g e) → IsBalanced p p1 → IsBalanced p1 p2 → IsBalanced p p2
  after p p1 p2 a b =
      let (n, first, counted) = a.pushes in
      let (k, second, counted') = b.pushes in
      record {
        slab = b.slab;
        conserved = omega (arith, a.conserved, b.conserved);
        pushes = (n + k, Pushes-trans n k first second, omega (arith, counted, counted'));
      }
