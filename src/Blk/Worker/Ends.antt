-- ===== src/Blk/Worker/Ends.antt =====
-- What a completion comes to for the request it completes: told to the guest, or carried on.
use nesbox.Base.{
  ℕ, zero, suc, ◌+◌, ◌%◌, ◌<◌, ◌≡◌, ◌⊎◌, ◌∙◌, refl, ap, arith, inl, inr, false, not, ◌||◌, Option,
  none, some, List, [], ◌∷◌, length, get_or, set, length-set, Bool-cases, ==_iff, ◌==◌, u32_mod,
  if-holds, get_or-set_self,
}
use nesbox.Guest.{GuestMemory}
use nesbox.Virtqueue.{QState, push_used}
use nesbox.Blk.Disk.{Disk}
use nesbox.Blk.Request.{
  Op, read, write, flush, get_id, discard, write_zeroes, blk_s_ok, blk_s_ioerr,
}
use nesbox.Blk.Worker.{Slot, Engine, Done, Worker, tell_free, tell}
use nesbox.Blk.Worker.Carried.{IsSame, CarriesOn, CarriedBy, act-CarriesOn}
use nesbox.Blk.Worker.Complete.{
  Action, again, finished, used_len, act, submit, resubmit, conclude, complete_slot, complete,
  complete_held, refuses_range,
}

used_len-reported :
    (s : Slot) (status : ℕ) (op : Op)
    → (used_len s status op ≡ 1)
      ⊎ ((op ≡ read) × (status ≡ blk_s_ok) × (used_len s status op ≡ s.total % u32_mod + 1))
unfolding used_len
used_len-reported s status read = elim (Bool-cases (status == blk_s_ok)) [
  | inl e ↦ rw e (inr (refl, (==_iff status 0).0 e, refl))
  | inr e ↦ rw e (inl refl)
]
used_len-reported s status write = inl refl
used_len-reported s status flush = inl refl
used_len-reported s status get_id = inl refl
used_len-reported s status (discard a b) = inl refl
used_len-reported s status (write_zeroes a b c) = inl refl

get_or-some_lt :
    {A : Type 0} (xs : List (Option A)) (i : ℕ) {a : A} → get_or xs i none ≡ some a → i < length xs
get_or-some_lt [] i h = cc
get_or-some_lt (x ∷ xs) zero h = omega arith
get_or-some_lt (x ∷ xs) (suc i) h = omega (arith, get_or-some_lt xs i h)

module _ {g : GuestMemory} {e : Engine} where
  -- The guest was told: the used ring and the status are written for the head of the request, after
  -- whatever the completion wrote, and the reported length is one more than the data of a read that
  -- went well and 1 otherwise.
  pub record IsTold (q : QState) (s : Slot) (r : Worker g e × ℕ) : Type 0 where
    pub pushed : r.1 ≡ 1
    pub status : ℕ
    pub len : ℕ
    pub before : g.Mem
    pub written :
        (r.0.used_idx, r.0.mem) ≡ push_used g (g.write 1 before s.status_addr status) q s.head len
    pub reported : (len ≡ 1) ⊎ ((s.op ≡ read) × (status ≡ blk_s_ok) × (len ≡ s.total % u32_mod + 1))

  -- The request is still in its slot.
  pub record IsKept (token : ℕ) (s : Slot) (r : Worker g e × ℕ) : Type 0 where
    pub pushed : r.1 ≡ 0
    pub slot : Slot
    pub parked : get_or r.0.slots token none ≡ some slot
    pub same : IsSame s slot

  pub Ends : QState → ℕ → Slot → Worker g e × ℕ → Type 0
  Ends q token s r = IsTold q s r ⊎ (IsKept token s r)

  resubmit-Ends :
      (w : Worker g e) (q : QState) (token : ℕ) (s s' : Slot)
      → token < length w.slots
      → IsSame s s'
      → Ends q token s (resubmit w q token s')
  unfolding resubmit submit Ends tell_free tell
  resubmit-Ends w q token s s' lt same =
      if-holds (Ends q token s) (submit w token s').0
        (λ h. inr (record {
          pushed = refl;
          slot = s';
          parked = get_or-set_self w.slots token (some s') none lt;
          same = same;
        }))
        (λ h. inl (record {
          pushed = refl;
          status = blk_s_ioerr;
          len = 1;
          before = w.mem;
          written =
              ap (λ p. push_used g (g.write 1 w.mem p blk_s_ioerr) q s'.head 1) same.status_addr
              ∙ ap (λ h. push_used g (g.write 1 w.mem s.status_addr blk_s_ioerr) q h 1) same.head;
          reported = inl refl;
        }))

  conclude-Ends :
      (w : Worker g e) (q : QState) (token : ℕ) (s : Slot) (a : Action)
      → token < length w.slots
      → CarriesOn s a
      → Ends q token s (conclude w q token s a)
  unfolding conclude CarriesOn Ends tell_free tell
  conclude-Ends w q token s (again s') lt same = resubmit-Ends w q token s s' lt same
  conclude-Ends w q token s (finished status) lt h = inl (record {
    pushed = refl;
    status = status;
    len = used_len s status s.op;
    before = w.mem;
    written = refl;
    reported = used_len-reported s status s.op;
  })

  -- A completion of a request in flight, taken under the queue's present generation, ends in one of
  -- two ways: the guest is told of it under its own head and status address, or the same request is
  -- back in its slot.
  pub complete-Ends :
      (alloc : ℕ → ℕ → Option ℕ) (disk : Disk) (w : Worker g e) (q : QState) (d : Done) (s : Slot)
      → get_or w.slots (d.token % u32_mod) none ≡ some s
      → s.generation ≡ w.generation
      → Ends q (d.token % u32_mod) s (complete alloc disk w q d)
  unfolding complete complete_held complete_slot CarriedBy
  complete-Ends alloc disk w q d s h same =
      let token = d.token % u32_mod in
      let current : not (s.generation == w.generation) ≡ false = ground (arith, same) in
      let lt = get_or-some_lt w.slots token h in
      let r = act g w.mem alloc disk s d.result d.window in
      rw (h, current)
        (conclude-Ends
          (record w {
            slots = set w.slots token none;
            mem = r.1;
            discard_unsupported = w.discard_unsupported || refuses_range s d.result;
          })
          q token s r.0 (omega (arith, lt, length-set w.slots token none))
          (act-CarriesOn g w.mem alloc disk s d.result d.window))
