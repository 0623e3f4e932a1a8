-- ===== src/Virtqueue/Batch.antt =====
-- Completing a batch: several calls of `push_used` in a row, as the workers make them.
use native.Mathlib.Nat.{
  mod-mod_of_dvd, dvd_of_mod-eq-zero, add-mod, mod-lt, mod-eq_of_lt, mod-eq-sub-mod,
}
use nesbox.Base.{
  ℕ, zero, suc, ◌+◌, ◌-◌, ◌%◌, ◌≤◌, ◌<◌, ◌≡◌, ◌∙◌, sym, ap, subst, ◌≢◌, some, List, [], ◌∷◌, length,
  get_elem?, All, arith, u16_mod, u32_mod, wrapping_add16, dec_lt,
}
use nesbox.Guest.{GuestMemory}
use nesbox.Virtqueue.{QState, push_used}
use nesbox.Virtqueue.Used.{UsedRing, Holds, push_used-Completes}

round_the_ring : (size x t : ℕ) → x < size → 0 < t → t < size → (x + t) % size ≢ x
round_the_ring size x t hx ht hs = elim (dec_lt (x + t) size) [
  | yes p ↦ omega (arith, mod-eq_of_lt p)
  | no p ↦
      let a = mod-eq-sub-mod {n = x + t} {m = size} (omega arith) in
      let b : (x + t - size) % size ≡ x + t - size = mod-eq_of_lt (omega arith) in
      omega (arith, a, b)
]

-- Slots fewer than `size` steps apart are different, also where the index wraps at 2^16.
slots_apart :
    (size idx j : ℕ)
    → u16_mod % size ≡ 0
    → suc j < size
    → wrapping_add16 idx (suc j) % size ≢ idx % size
slots_apart size idx j hd hj =
    let a = mod-mod_of_dvd size (idx + suc j) (dvd_of_mod-eq-zero size hd) in
    let b = add-mod idx (suc j) size in
    let c = mod-eq_of_lt hj in
    let d = round_the_ring size (idx % size) (suc j) (mod-lt idx (omega arith)) (omega arith) hj in
    λ e. d (sym (ap (λ n. (idx % size + n) % size) c) ∙ sym b ∙ sym a ∙ e)

module _ (g : GuestMemory) where
  open g use {Mem}

  pub complete_all : Mem → QState → List (ℕ × ℕ) → Mem
  complete_all m q [] = m
  complete_all m q ((head, len) ∷ cs) = complete_all (push_used g m q head len).1 q cs

  abbrev pub Fits : ℕ × ℕ → Type 0
  Fits (head, len) = (head < u32_mod) × (len < u32_mod)

  complete_all-keeps :
      (m : Mem) (q : QState) (idx : ℕ) (cs : List (ℕ × ℕ)) (j h l : ℕ)
      → UsedRing g m q idx
      → idx < u16_mod
      → All Fits cs
      → ((k : ℕ) → k < length cs → j ≢ wrapping_add16 idx k % q.size)
      → Holds g m q j h l
      → Holds g (complete_all m q cs) q j h l
  unfolding complete_all
  complete_all-keeps m q idx [] j h l r hi f away held = held
  complete_all-keeps m q idx ((head, len) ∷ cs) j h l r hi f away held =
      let c = (push_used-Completes g m q idx head len r f.0.0 f.0.1).0 in
      complete_all-keeps (push_used g m q head len).1 q (wrapping_add16 idx 1) cs j h l c.ring
        (omega arith) f.1
        (λ k hk e. away (suc k) (omega arith) (e ∙ ap (λ n. n % q.size) (omega arith)))
        (c.others j h l (λ e. away 0 (omega arith) (e ∙ ap (λ n. n % q.size) (omega arith))) held)

  -- Every completion of a batch is the element of the slot that belongs to its index.
  abbrev pub Landed : Mem → QState → ℕ → List (ℕ × ℕ) → Type 0
  Landed m q idx cs =
      (k head len : ℕ)
      → get_elem? cs k ≡ some (head, len)
      → Holds g m q (wrapping_add16 idx k % q.size) head len

  Landed-cons :
      (m : Mem) (q : QState) (idx head len : ℕ) (cs : List (ℕ × ℕ))
      → idx < u16_mod
      → Holds g m q (idx % q.size) head len
      → Landed m q (wrapping_add16 idx 1) cs
      → Landed m q idx ((head, len) ∷ cs)
  Landed-cons m q idx head len cs hi here rest zero h l e =
      let back : idx ≡ wrapping_add16 idx 0 = omega arith in
      subst (λ i. Holds g m q (i % q.size) h l) back
        (ground (arith, here.0), ground (arith, here.1))
  Landed-cons m q idx head len cs hi here rest (suc k) h l e =
      let back : wrapping_add16 (wrapping_add16 idx 1) k ≡ wrapping_add16 idx (suc k) =
        omega arith in
      subst (λ i. Holds g m q (i % q.size) h l) back (rest k h l e)

  -- On a used ring in guest memory, a batch no larger than the queue leaves every one of its
  -- completions in the ring, where the index that belongs to it says, and the index past them all.
  -- The queue's size divides 2^16, as the sizes that a driver may choose do.
  pub complete_all_lem :
      (m : Mem) (q : QState) (idx : ℕ) (cs : List (ℕ × ℕ))
      → UsedRing g m q idx
      → idx < u16_mod
      → u16_mod % q.size ≡ 0
      → length cs ≤ q.size
      → All Fits cs
      → UsedRing g (complete_all m q cs) q (wrapping_add16 idx (length cs))
        × Landed (complete_all m q cs) q idx cs
  unfolding complete_all
  complete_all_lem m q idx [] r hi hd hl f =
      (subst (UsedRing g m q) (omega arith) r, λ k head len e. cc)
  complete_all_lem m q idx ((head, len) ∷ cs) r hi hd hl f =
      let m' = (push_used g m q head len).1 in
      let c = (push_used-Completes g m q idx head len r f.0.0 f.0.1).0 in
      let ih =
        complete_all_lem m' q (wrapping_add16 idx 1) cs c.ring (omega arith) hd (omega arith) f.1 in
      let first =
        complete_all-keeps m' q (wrapping_add16 idx 1) cs (idx % q.size) head len c.ring
          (omega arith) f.1
          (λ k hk e.
            slots_apart q.size idx k hd (omega arith)
              (sym (e ∙ ap (λ n. n % q.size) (omega arith))))
          c.element in
      (
        subst (UsedRing g (complete_all m' q cs) q) (omega arith) ih.0,
        Landed-cons (complete_all m' q cs) q idx head len cs hi first ih.1,
      )
