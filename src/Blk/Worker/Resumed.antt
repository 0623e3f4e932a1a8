-- ===== src/Blk/Worker/Resumed.antt =====
-- A transfer that stopped part of the way goes on where it stopped, and cannot go on for ever.
use nesbox.Base.{
  ℕ, ◌+◌, ◌-◌, ◌<◌, ◌≡◌, refl, subst, arith, not, Option, none, some, drop, ltb, ◌==◌, if-holds,
}
use nesbox.Guest.{GuestMemory}
use nesbox.Blk.Disk.{Disk}
use nesbox.Blk.Request.{Op, read, write, flush, get_id, discard, write_zeroes}
use nesbox.Blk.Worker.{Slot, Bounce, moved}
use nesbox.Blk.Worker.Transfer.{is_transfer}
use nesbox.Blk.Worker.Complete.{
  Action, again, finished, progressed, copied, read_short, stopped_short, moved_all, transferred,
  act,
}
use nesbox.Blk.Worker.Segments.{addresses, addresses-advance}

-- A slot whose transfer has moved on by `n` bytes: what is left is what was left, without the first
-- `n`, in memory and in the file.
pub record IsResumed (n : ℕ) (s s' : Slot) : Type 0 where
  pub moves : 0 < n
  pub left : addresses s'.iovs ≡ drop n (addresses s.iovs)
  pub file_at : s'.offset ≡ s.offset + n
  pub whole : s'.io_len ≡ s.io_len
  pub shrinks : s'.io_len - s'.done < s.io_len - s.done

IsEnd : Action → Type 0
IsEnd (again s) = ⊥
IsEnd (finished status) = Unit

Resumes : ℕ → Slot → Action → Type 0
Resumes n s (again s') = IsResumed n s s'
Resumes n s (finished status) = Unit

end-Resumes : (n : ℕ) (s : Slot) (a : Action) → IsEnd a → Resumes n s a
unfolding IsEnd Resumes
end-Resumes n s (again s') h = absurd h
end-Resumes n s (finished status) h = tt

module _ (g : GuestMemory) where
  read_short-IsEnd :
      (m : g.Mem) (window : ℕ → ℕ → ℕ) (s : Slot) (o : Option Bounce)
      → IsEnd (read_short g m window s o).0
  unfolding read_short copied IsEnd
  read_short-IsEnd m window s none = tt
  read_short-IsEnd m window s (some b) = tt

  stopped_short-IsEnd :
      (m : g.Mem) (window : ℕ → ℕ → ℕ) (s : Slot) (op : Op)
      → IsEnd (stopped_short g m window s op).0
  unfolding stopped_short IsEnd
  stopped_short-IsEnd m window s read = read_short-IsEnd m window s s.bounce
  stopped_short-IsEnd m window s write = tt
  stopped_short-IsEnd m window s flush = tt
  stopped_short-IsEnd m window s get_id = tt
  stopped_short-IsEnd m window s (discard a b) = tt
  stopped_short-IsEnd m window s (write_zeroes a b c) = tt

  moved_all-IsEnd :
      (m : g.Mem) (window : ℕ → ℕ → ℕ) (s : Slot) (op : Op) (o : Option Bounce)
      → IsEnd (moved_all g m window s op o).0
  unfolding moved_all IsEnd copied
  moved_all-IsEnd m window s read none = tt
  moved_all-IsEnd m window s read (some b) = tt
  moved_all-IsEnd m window s write o = tt
  moved_all-IsEnd m window s flush o = tt
  moved_all-IsEnd m window s get_id o = tt
  moved_all-IsEnd m window s (discard a b) o = tt
  moved_all-IsEnd m window s (write_zeroes a b c) o = tt

  ResumesAt : ℕ → Slot → Action × g.Mem → Type 0
  ResumesAt n s r = Resumes n s r.0

  transferred-Resumes :
      (m : g.Mem) (window : ℕ → ℕ → ℕ) (s : Slot) (n : ℕ)
      → ResumesAt n s (transferred g m window (progressed s n) n)
  unfolding transferred Resumes ResumesAt
  transferred-Resumes m window s n =
      if-holds (ResumesAt n s) (ltb (s.done + n) s.io_len)
        (λ e.
          if-holds (ResumesAt n s) (n == 0)
            (λ f. end-Resumes n s _ (stopped_short-IsEnd m window (progressed s n) s.op))
            (λ f. record {
              moves = ground (arith, f);
              left = addresses-advance s.iovs n;
              file_at = refl;
              whole = refl;
              shrinks = ground (arith, e, f);
            }))
        (λ e. end-Resumes n s _ (moved_all-IsEnd m window (progressed s n) s.op s.bounce))

  act-Resumes :
      (m : g.Mem) (alloc : ℕ → ℕ → Option ℕ) (disk : Disk) (s : Slot) (n : ℕ) (window : ℕ → ℕ → ℕ)
      → ResumesAt n s (act g m alloc disk s (moved n) window)
  unfolding act Resumes ResumesAt
  act-Resumes m alloc disk s n window =
      if-holds (ResumesAt n s) (not (is_transfer s.op)) (λ e. tt)
        (λ e. transferred-Resumes m window s n)

  -- When a completion that reports `n` bytes sends the request back to the engine, `n` is positive,
  -- the scatter-gather list is the old one without its first `n` bytes, the file offset is `n`
  -- further on, and fewer bytes are left: a request goes back only finitely often.
  pub act-IsResumed :
      (m : g.Mem) (alloc : ℕ → ℕ → Option ℕ) (disk : Disk) (s : Slot) (n : ℕ) (window : ℕ → ℕ → ℕ)
      {s' : Slot}
      → (act g m alloc disk s (moved n) window).0 ≡ again s'
      → IsResumed n s s'
  unfolding Resumes ResumesAt
  act-IsResumed m alloc disk s n window h =
      subst (Resumes n s) h (act-Resumes m alloc disk s n window)
