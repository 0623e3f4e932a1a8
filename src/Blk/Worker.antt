-- ===== src/Blk/Worker.antt =====
-- A queue's worker, from virtio-devices/src/blk/worker.rs: the slab of requests in flight and the
-- small operations on it. The engine (blk/engine.rs) is an interface, as it is for the worker.
pub mod Transfer
pub mod Complete
pub mod Issue
pub mod Drain
pub mod Slab
pub mod Segments
pub mod Zeroes
pub mod Pushed
pub mod Settled
pub mod Conserved
pub mod Carried
pub mod Ends
pub mod Resumed
pub mod Terminates
mod Tests
use nesbox.Base.{
  ℕ, zero, suc, ◌+◌, ◌-◌, ◌/◌, Bool, true, false, ◌&&◌, Option, none, some, List, [], ◌∷◌, length,
  get_or, set, replicate, ltb, ◌==◌, not, if◌then◌else◌, wrapping_add16,
}
use nesbox.Guest.{GuestMemory}
use nesbox.Virtqueue.{QState, push_used, set_avail_event, set_used_no_notify}
use nesbox.Blk.Disk.{IoVec}
use nesbox.Blk.Request.{Op, Segment}

-- A buffer for a staged request: its address, its size, where the request's own data starts, and
-- what staging copied in, a number for the bytes of each segment.
pub record Bounce : Type 0 where
  pub ptr : ℕ
  pub size : ℕ
  pub skip : ℕ
  pub data_in : List ℕ

pub record Slot : Type 0 where
  pub generation : ℕ
  pub head : ℕ
  pub op : Op
  pub status_addr : ℕ
  pub segments : List Segment
  pub iovs : List IoVec
  pub bounce : Option Bounce
  pub offset : ℕ
  pub done : ℕ
  pub total : ℕ
  pub io_len : ℕ
  pub bounced : Bool

pub data Job : Type 0 where
  readv : List IoVec → ℕ → Job
  writev : List IoVec → ℕ → Job
  flush_data : Job
  fallocate : ℕ → ℕ → ℕ → Job

-- `trait Engine`, as far as the worker relies on it outside `run`.
pub record Engine : Type 1 where
  pub State : Type 0
  pub room : State → ℕ
  -- whether the job was taken
  pub submit : State → ℕ → Job → Bool × State

-- What a completion reports: the bytes moved, or an errno.
pub data Outcome : Type 0 where
  moved : ℕ → Outcome
  errno : ℕ → Outcome

-- A completion, with what the bounce buffer holds then: `window at n` is the `n` bytes from `at` on.
pub record Done : Type 0 where
  pub token : ℕ
  pub result : Outcome
  pub window : ℕ → ℕ → ℕ

pub record Worker (g : GuestMemory) (e : Engine) : Type 0 where
  pub mem : g.Mem
  pub engine : e.State
  -- the queue's generation, which a reset of the device moves on
  pub generation : ℕ
  pub slots : List (Option Slot)
  pub free : List ℕ
  pub depth : ℕ
  pub want_drain : Bool
  pub used_idx : ℕ
  pub notify_suppressed : Bool
  pub discard_unsupported : Bool
  pub requests : ℕ
  pub interrupts : ℕ
  pub reported : ℕ

-- `(0..n).rev()`
pub descending : ℕ → List ℕ
descending zero = []
descending (suc n) = n ∷ descending n

abbrev report_every : ℕ
report_every = 4096

pub differs : Bool → Bool → Bool
differs a b = if a then not b else b

module _ {g : GuestMemory} {e : Engine} where
  pub new_worker : g.Mem → e.State → ℕ → ℕ → Worker g e
  new_worker m s generation depth = record {
    mem = m;
    engine = s;
    generation = generation;
    slots = replicate depth none;
    free = descending depth;
    depth = depth;
    want_drain = true;
    used_idx = 0;
    notify_suppressed = false;
    discard_unsupported = false;
    requests = 0;
    interrupts = 0;
    reported = 0;
  }

  -- `publish_in_flight`
  pub in_flight : Worker g e → ℕ
  in_flight w = w.depth - length w.free

  unfoldable pub release : Worker g e → ℕ → Worker g e
  release w token = elim (get_or w.slots token none) [
    | none ↦ w
    | some slot ↦ record w { slots = set w.slots token none; free = token ∷ w.free }
  ]

  pub can_accept : Worker g e → Bool
  can_accept w = not (length w.free == 0) && ltb 0 (e.room w.engine)

  -- `write_status`, then `push_used`: the guest is told how its request ended.
  pub tell : Worker g e → QState → ℕ → ℕ → ℕ → ℕ → Worker g e
  tell w q status_addr status head len =
      let m = g.write 1 w.mem status_addr status in
      let r = push_used g m q head len in record w { mem = r.1; used_idx = r.0 }

  -- `tell`, and the token goes back to the free list.
  pub tell_free : Worker g e → QState → ℕ → ℕ → ℕ → ℕ → ℕ → Worker g e
  tell_free w q token status_addr status head len =
      let w1 = tell w q status_addr status head len in record w1 { free = token ∷ w1.free }

  pub suppress_notify : Worker g e → QState → Bool → Worker g e
  suppress_notify w q on =
      if q.event_idx
      then record w {
        mem =
            set_avail_event g w.mem q
              (if on then wrapping_add16 (wrapping_add16 q.last (q.size / 2)) 1 else q.last);
        notify_suppressed = on;
      }
      else if differs w.notify_suppressed on
      then record w { mem = set_used_no_notify g w.mem q on; notify_suppressed = on }
      else w

  pub report : Worker g e → Worker g e
  report w =
      if ltb w.requests (w.reported + report_every) then w else record w { reported = w.requests }
