-- ===== src/Virtqueue/Avail.antt =====
-- The avail ring: what `pop_avail` takes, and that draining a queue takes all that was offered.
use nesbox.Base.{
  ℕ, zero, suc, ◌+◌, ◌*◌, ◌%◌, ◌<◌, ◌≡◌, ◌∙◌, ap, none, some, List, [], ◌∷◌, map, length, arith,
  u16_mod, u64_mod, add64, wrapping_add16,
}
use nesbox.Guest.{GuestMemory}
use nesbox.Virtqueue.{Desc, QState, collect_descs_with, take_avail, pop_avail}

module _ (g : GuestMemory) where
  open g use {Mem, read}

  -- The ring entries from the index `at` on hold these heads.
  abbrev pub Entries : Mem → QState → ℕ → List ℕ → Type 0
  Entries m q at [] = Unit {0}
  Entries m q at (h ∷ hs) =
      (read 2 m (q.avail + 4 + at % q.size * 2) ≡ some h) × Entries m q (wrapping_add16 at 1) hs

  -- A live queue in guest memory on which the driver has offered `hs` and the device taken none.
  pub record Offers (m : Mem) (q : QState) (hs : List ℕ) : Type 0 where
    pub some_size : 0 < q.size
    pub placed : (0 < q.avail) × (0 < q.desc)
    pub no_wrap : q.avail + 4 + q.size * 2 < u64_mod
    pub few : (length hs < u16_mod) × (q.last < u16_mod)
    pub index : read 2 m (q.avail + 2) ≡ some (wrapping_add16 q.last (length hs))
    pub entries : Entries m q q.last hs

  -- The workers' loop `while let Some((head, descs)) = pop_avail(..)`, on fuel.
  pub drain : ℕ → Mem → QState → List (ℕ × List Desc) × QState
  drain zero m q = ([], q)
  drain (suc fuel) m q = elim (pop_avail g m q) [
    | none ↦ ([], q)
    | some (h, descs, q') ↦ let (rest, q'') = drain fuel m q' in ((h, descs) ∷ rest, q'')
  ]

  -- Each head with the chain that it starts.
  abbrev pub taken : Mem → QState → List ℕ → List (ℕ × List Desc)
  taken m q hs = map (λ h. (h, collect_descs_with g m q.desc h q.size q.indirect)) hs

  abbrev pub advance : QState → ℕ → QState
  advance q n = record q { last = wrapping_add16 q.last n }

  pop_avail-nil : (m : Mem) (q : QState) → Offers m q [] → pop_avail g m q ≡ none
  unfolding pop_avail take_avail
  pop_avail-nil m q o = let a : add64 q.avail 2 ≡ q.avail + 2 = omega arith in ground (arith, a)

  pop_avail-cons :
      (m : Mem) (q : QState) (h : ℕ) (hs : List ℕ)
      → Offers m q (h ∷ hs)
      → pop_avail g m q ≡ some (h, collect_descs_with g m q.desc h q.size q.indirect, advance q 1)
  unfolding pop_avail take_avail
  pop_avail-cons m q h hs o =
      let a : add64 q.avail 2 ≡ q.avail + 2 = omega arith in
      let b : add64 (add64 q.avail 4) (q.last % q.size * 2) ≡ q.avail + 4 + q.last % q.size * 2 =
        omega arith in
      ground (arith, a, b)

  Offers-tail :
      (m : Mem) (q : QState) (h : ℕ) (hs : List ℕ) → Offers m q (h ∷ hs) → Offers m (advance q 1) hs
  Offers-tail m q h hs o = record {
    some_size = o.some_size;
    placed = o.placed;
    no_wrap = o.no_wrap;
    few = ground arith;
    index = o.index ∙ ap some (omega arith);
    entries = o.entries.1;
  }

  -- On a live queue in guest memory, with fuel for one look more than there are chains, draining
  -- takes exactly the offered heads, in order and each with its chain, and stops with the queue's
  -- index past them all.
  pub drain_lem :
      (fuel : ℕ) (m : Mem) (q : QState) (hs : List ℕ)
      → Offers m q hs
      → length hs < fuel
      → drain fuel m q ≡ (taken m q hs, advance q (length hs))
  unfolding drain
  drain_lem zero m q hs o hf = absurd (omega arith)
  drain_lem (suc fuel) m q [] o hf = rw (pop_avail-nil m q o, drain) (ground arith)
  drain_lem (suc fuel) m q (h ∷ hs) o hf =
      rw (pop_avail-cons m q h hs o, drain)
        (rw (drain_lem fuel m (advance q 1) hs (Offers-tail m q h hs o) (omega arith))
          (ap (λ n. (taken m q (h ∷ hs), record q { last = n })) (omega arith)))
