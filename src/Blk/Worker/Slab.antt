-- ===== src/Blk/Worker/Slab.antt =====
-- The slab of a worker: every token is free or names a request in flight, never both.
use nesbox.Base.{
  ℕ, zero, suc, ◌+◌, ◌<◌, ◌≡◌, ◌⊎◌, ◌∙◌, refl, ap, arith, inl, inr, Bool, true, false, Option, none,
  some, List, [], ◌∷◌, length, get_or, set, replicate, ltb, ◌==◌, if◌then◌else◌, get_or-set_self,
  get_or-set_ne, length-set, subst, Bool-cases, Option-cases, ==_iff,
}
use nesbox.Guest.{GuestMemory}
use nesbox.Blk.Worker.{Slot, Engine, Worker, descending, new_worker, release, in_flight}

unfoldable pub held : Option Slot → ℕ
held none = 0
held (some s) = 1

unfoldable pub busy : List (Option Slot) → ℕ
busy [] = 0
busy (o ∷ os) = held o + busy os

unfoldable pub count : ℕ → List ℕ → ℕ
count t [] = 0
count t (x ∷ xs) = if x == t then suc (count t xs) else count t xs

unfoldable pub one_if : Bool → ℕ
one_if true = 1
one_if false = 0

-- Every token below the depth is once in `out`, in the free list, or in its slot, and no other
-- token is anywhere.
pub record IsPartition (out : List ℕ) (slots : List (Option Slot)) (free : List ℕ) (depth : ℕ)
    : Type 0 where
  pub each :
      (t : ℕ) → count t out + count t free + held (get_or slots t none) ≡ one_if (ltb t depth)
  pub whole : length out + length free + busy slots ≡ depth
  pub sized : length slots ≡ depth

busy-set :
    (slots : List (Option Slot)) (t : ℕ) (o : Option Slot)
    → t < length slots
    → busy (set slots t o) + held (get_or slots t none) ≡ busy slots + held o
unfolding busy
busy-set [] t o h = absurd (omega arith)
busy-set (x ∷ xs) zero o h = omega arith
busy-set (x ∷ xs) (suc t) o h = omega (arith, busy-set xs t o (omega arith))

one_of :
    {out free : List ℕ} {slots : List (Option Slot)} {depth : ℕ} (t : ℕ)
    → IsPartition out slots free depth
    → 0 < count t out + count t free + held (get_or slots t none)
    → t < length slots
unfolding one_if
one_of t p h = ground (arith, p.each t, p.sized)

held-set :
    (slots : List (Option Slot)) (t u : ℕ) (o : Option Slot)
    → t < length slots
    → held (get_or (set slots t o) u none) ≡ (if t == u then held o else held (get_or slots u none))
held-set slots t u o h = elim (Bool-cases (t == u)) [
  | inl e ↦
      let same = (==_iff t u).0 e in
      rw e (
        ap held
          (subst (λ v. get_or (set slots t o) v none ≡ o) same (get_or-set_self slots t o none h)))
  | inr e ↦ rw e (ap held (get_or-set_ne slots o none (λ f. differs e f)))
]
  where
    differs : (t == u) ≡ false → t ≡ u → ⊥
    differs e f = ground arith

at :
    (slots : List (Option Slot)) (t u : ℕ)
    → (t == u) ≡ true
    → get_or slots t none ≡ get_or slots u none
at slots t u e = ap (λ v. get_or slots v none) ((==_iff t u).0 e)

-- A request leaves its slot.
pub take_slot-IsPartition :
    {free : List ℕ} {slots : List (Option Slot)} {depth : ℕ} (t : ℕ) {s : Slot}
    → IsPartition [] slots free depth
    → get_or slots t none ≡ some s
    → IsPartition (t ∷ []) (set slots t none) free depth
unfolding count held one_if
take_slot-IsPartition {free} {slots} {depth} t p e =
    let h1 : held (get_or slots t none) ≡ 1 = ap held e in
    let lt = one_of t p (omega (arith, h1)) in
    record {
      each = λ u. moved u h1 lt (Bool-cases (t == u));
      whole = omega (arith, busy-set slots t none lt, h1, p.whole);
      sized = length-set slots t none ∙ p.sized;
    }
  where
    moved :
        (u : ℕ)
        → held (get_or slots t none) ≡ 1
        → t < length slots
        → ((t == u) ≡ true) ⊎ ((t == u) ≡ false)
        → count u (t ∷ []) + count u free + held (get_or (set slots t none) u none)
          ≡ one_if (ltb u depth)
    moved u h1 lt (inl f) =
        rw (held-set slots t u none lt, f) (omega (arith, p.each u, h1, ap held (at slots t u f)))
    moved u h1 lt (inr f) = rw (held-set slots t u none lt, f) (p.each u)

-- A request takes the slot of a token that is out.
pub park_slot-IsPartition :
    {free : List ℕ} {slots : List (Option Slot)} {depth : ℕ} (t : ℕ) (s : Slot)
    → IsPartition (t ∷ []) slots free depth
    → IsPartition [] (set slots t (some s)) free depth
unfolding count held one_if
park_slot-IsPartition {free} {slots} {depth} t s p =
    let self : count t (t ∷ []) ≡ 1 = ground arith in
    let lt = one_of t p (omega (arith, self)) in
    let e1 : one_if (ltb t depth) ≡ 1 = ground (arith, p.sized) in
    record {
      each = λ u. moved u lt e1 self (Bool-cases (t == u));
      whole = omega (arith, busy-set slots t (some s) lt, p.each t, p.whole, e1, self);
      sized = length-set slots t (some s) ∙ p.sized;
    }
  where
    moved :
        (u : ℕ)
        → t < length slots
        → one_if (ltb t depth) ≡ 1
        → count t (t ∷ []) ≡ 1
        → ((t == u) ≡ true) ⊎ ((t == u) ≡ false)
        → count u [] + count u free + held (get_or (set slots t (some s)) u none)
          ≡ one_if (ltb u depth)
    moved u lt e1 self (inl f) =
        rw (held-set slots t u (some s) lt, f)
          (let c = ap (λ v. count v free) ((==_iff t u).0 f) in
            let b = ap (λ v. one_if (ltb v depth)) ((==_iff t u).0 f) in
            omega (arith, p.each t, e1, self, c, b))
    moved u lt e1 self (inr f) =
        rw (held-set slots t u (some s) lt, f)
          (let c : count u (t ∷ []) ≡ 0 = rw f refl in omega (arith, p.each u, c))

-- A token that is free comes out, and one that is out is free again.
pub pop-IsPartition :
    {free : List ℕ} {slots : List (Option Slot)} {depth : ℕ} (t : ℕ)
    → IsPartition [] slots (t ∷ free) depth
    → IsPartition (t ∷ []) slots free depth
unfolding count one_if
pop-IsPartition t p = record {
  each = λ u. ground (arith, p.each u);
  whole = omega (arith, p.whole);
  sized = p.sized;
}

pub push-IsPartition :
    {free : List ℕ} {slots : List (Option Slot)} {depth : ℕ} (t : ℕ)
    → IsPartition (t ∷ []) slots free depth
    → IsPartition [] slots (t ∷ free) depth
unfolding count one_if
push-IsPartition t p = record {
  each = λ u. ground (arith, p.each u);
  whole = omega (arith, p.whole);
  sized = p.sized;
}

count-descending : (n t : ℕ) → count t (descending n) ≡ one_if (ltb t n)
unfolding count descending one_if
count-descending zero t = ground arith
count-descending (suc n) t = ground (arith, count-descending n t)

length-descending : (n : ℕ) → length (descending n) ≡ n
unfolding descending
length-descending zero = refl
length-descending (suc n) = ap suc (length-descending n)

abbrev none_slot : Option Slot
none_slot = none

empty_slots : (n : ℕ) → (busy (replicate n none_slot) ≡ 0) × (length (replicate n (none_slot)) ≡ n)
unfolding busy held
empty_slots zero = (refl, refl)
empty_slots (suc n) = (omega (arith, (empty_slots n).0), ap suc (empty_slots n).1)

get_or-replicate : (n t : ℕ) → get_or (replicate n (none_slot)) t none ≡ none
get_or-replicate zero t = refl
get_or-replicate (suc n) zero = refl
get_or-replicate (suc n) (suc t) = get_or-replicate n t

module _ {g : GuestMemory} {e : Engine} where
  unfoldable pub IsSlab : Worker g e → Type 0
  IsSlab w = IsPartition [] w.slots w.free w.depth

  -- In a partition, the requests in flight are the slots in use.
  pub in_flight-eq-busy : (w : Worker g e) → IsSlab w → in_flight w ≡ busy w.slots
  unfolding IsSlab in_flight
  in_flight-eq-busy w p = omega (arith, p.whole)

  pub release-IsSlab : (w : Worker g e) (token : ℕ) → IsSlab w → IsSlab (release w token)
  unfolding IsSlab release
  release-IsSlab w token p = elim (Option-cases (get_or w.slots token none)) [
    | inl f ↦ rw (release, f) p
    | inr (s, f) ↦ rw (release, f) (push-IsPartition token (take_slot-IsPartition token p f))
  ]

-- A new worker's slab has every token free.
pub new_worker-IsSlab :
    (g : GuestMemory) (e : Engine) (m : g.Mem) (s : e.State) (generation depth : ℕ)
    → IsSlab (new_worker {g = g} {e = e} m s generation depth)
unfolding IsSlab new_worker count held one_if
new_worker-IsSlab g e m s generation depth = record {
  each = λ t. omega (arith, count-descending depth t, ap held (get_or-replicate depth t));
  whole = omega (arith, (empty_slots depth).0, length-descending depth);
  sized = (empty_slots depth).1;
}
