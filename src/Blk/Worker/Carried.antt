-- ===== src/Blk/Worker/Carried.antt =====
-- A completion that is not the end of a request leaves it the same request.
use nesbox.Base.{
  ℕ, ◌+◌, ◌≡◌, refl, inl, inr, not, ◌||◌, ◌&&◌, Option, none, some, ltb, ◌==◌, if-holds, if-cases,
  max, >>=-eq-some, subst,
}
use mathlib.Core.Option.{some_inj}
use nesbox.Guest.{GuestMemory}
use nesbox.Blk.Disk.{Disk, bounce_shape}
use nesbox.Blk.Request.{Op, read, write, flush, get_id, discard, write_zeroes}
use nesbox.Blk.Worker.{Slot, Bounce, Outcome, moved, errno}
use nesbox.Blk.Worker.Transfer.{is_transfer, is_range, stage, stage_data, is_write}
use nesbox.Blk.Worker.Complete.{
  Action, again, finished, progressed, copied, read_short, stopped_short, moved_all, transferred,
  restaged, failed_with, act,
}

-- The same request, however far its transfer is.
pub record IsSame (s s' : Slot) : Type 0 where
  pub generation : s'.generation ≡ s.generation
  pub head : s'.head ≡ s.head
  pub op : s'.op ≡ s.op
  pub status_addr : s'.status_addr ≡ s.status_addr
  pub segments : s'.segments ≡ s.segments
  pub total : s'.total ≡ s.total

unfoldable pub CarriesOn : Slot → Action → Type 0
CarriesOn s (again s') = IsSame s s'
CarriesOn s (finished status) = Unit

IsSame-self : (s : Slot) → IsSame s s
IsSame-self s = record {
  generation = refl;
  head = refl;
  op = refl;
  status_addr = refl;
  segments = refl;
  total = refl;
}

module _ (g : GuestMemory) where
  stage-IsSame :
      (m : g.Mem) (alloc : ℕ → ℕ → Option ℕ) (disk : Disk) (s : Slot) {s' : Slot}
      → stage g m alloc disk s ≡ some s'
      → IsSame s s'
  unfolding stage
  stage-IsSame m alloc disk s h =
      let (align, head_pad, io_len) = bounce_shape disk s.offset s.total in
      elim (if-cases ((not (head_pad == 0) || not (io_len == s.total)) && is_write s.op) h) [
        | inl t ↦ cc
        | inr t ↦
            let (ptr, _, f) = >>=-eq-some (alloc (max io_len 1) (max align 1)) _ t.1 in
            let (bytes, _, k) = >>=-eq-some (stage_data g m s) _ f in
            subst (IsSame s) (some_inj.0 k) (record {
              generation = refl;
              head = refl;
              op = refl;
              status_addr = refl;
              segments = refl;
              total = refl;
            })
      ]

  unfoldable pub CarriedBy : Slot → Action × g.Mem → Type 0
  CarriedBy s r = CarriesOn s r.0

  stopped_short-CarriesOn :
      (m : g.Mem) (window : ℕ → ℕ → ℕ) (s t : Slot) (op : Op)
      → CarriesOn s (stopped_short g m window t op).0
  unfolding stopped_short CarriesOn read_short copied
  stopped_short-CarriesOn m window s t read = by_bounce t.bounce
    where
      by_bounce : (o : Option Bounce) → CarriesOn s (read_short g m window t o).0
      by_bounce none = tt
      by_bounce (some b) = tt
  stopped_short-CarriesOn m window s t write = tt
  stopped_short-CarriesOn m window s t flush = tt
  stopped_short-CarriesOn m window s t get_id = tt
  stopped_short-CarriesOn m window s t (discard a b) = tt
  stopped_short-CarriesOn m window s t (write_zeroes a b c) = tt

  moved_all-CarriesOn :
      (m : g.Mem) (window : ℕ → ℕ → ℕ) (s t : Slot) (op : Op) (bounce : Option Bounce)
      → CarriesOn s (moved_all g m window t op bounce).0
  unfolding moved_all CarriesOn copied
  moved_all-CarriesOn m window s t read none = tt
  moved_all-CarriesOn m window s t read (some b) = tt
  moved_all-CarriesOn m window s t write bounce = tt
  moved_all-CarriesOn m window s t flush bounce = tt
  moved_all-CarriesOn m window s t get_id bounce = tt
  moved_all-CarriesOn m window s t (discard a b) bounce = tt
  moved_all-CarriesOn m window s t (write_zeroes a b c) bounce = tt

  transferred-CarriesOn :
      (m : g.Mem) (window : ℕ → ℕ → ℕ) (s : Slot) (n : ℕ)
      → CarriedBy s (transferred g m window (progressed s n) n)
  unfolding transferred CarriesOn CarriedBy
  transferred-CarriesOn m window s n =
      if-holds (CarriedBy s) (ltb (s.done + n) s.io_len)
        (λ e.
          if-holds (CarriedBy s) (n == 0)
            (λ f. stopped_short-CarriesOn m window s (progressed s n) s.op)
            (λ f. record {
              generation = refl;
              head = refl;
              op = refl;
              status_addr = refl;
              segments = refl;
              total = refl;
            }))
        (λ e. moved_all-CarriesOn m window s (progressed s n) s.op s.bounce)

  failed_with-CarriesOn :
      (m : g.Mem) (alloc : ℕ → ℕ → Option ℕ) (disk : Disk) (s : Slot) (err : ℕ)
      → CarriesOn s (failed_with g m alloc disk s err)
  unfolding failed_with CarriesOn restaged
  failed_with-CarriesOn m alloc disk s err =
      if-holds (CarriesOn s) ((err == 4) || (err == 11)) (λ e. IsSame-self s)
        (λ e.
          if-holds (CarriesOn s) ((err == 22) && not s.bounced && (s.done == 0) && is_transfer s.op)
            (λ f. again_staged (stage g m alloc disk s) refl)
            (λ f. if-holds (CarriesOn s) ((err == 95) && is_range s.op) (λ k. tt) (λ k. tt)))
    where
      again_staged : (o : Option Slot) → stage g m alloc disk s ≡ o → CarriesOn s (restaged o)
      again_staged none h = tt
      again_staged (some s') h = stage-IsSame m alloc disk s h

  pub act-CarriesOn :
      (m : g.Mem) (alloc : ℕ → ℕ → Option ℕ) (disk : Disk) (s : Slot) (r : Outcome)
      (window : ℕ → ℕ → ℕ)
      → CarriedBy s (act g m alloc disk s r window)
  unfolding act CarriedBy CarriesOn
  act-CarriesOn m alloc disk s (errno err) window = failed_with-CarriesOn m alloc disk s err
  act-CarriesOn m alloc disk s (moved n) window =
      if-holds (CarriedBy s) (not (is_transfer s.op)) (λ e. tt)
        (λ e. transferred-CarriesOn m window s n)
