-- ===== src/Virtqueue/Indirect.antt =====
-- Chains that go through an INDIRECT descriptor.
use mathlib.Core.List.{append_assoc, append-nil}
use nesbox.Base.{
  ℕ, zero, suc, ◌+◌, ◌/◌, ◌≤◌, ◌<◌, ◌≡◌, true, false, some, List, [], ◌∷◌, ◌++◌, length,
  length-append, arith, min, has_bit,
}
use nesbox.Guest.{GuestMemory}
use nesbox.Virtqueue.{
  Desc, desc_f_next, desc_f_indirect, vring_desc_size, read_desc, walk_round, walk_rounds,
  walk_chain, refuse_indirect, walk_indirect, collect_descs_with,
}
use nesbox.Virtqueue.Chain.{Chain, walk_rounds-Chain}

module _ (g : GuestMemory) where
  open g use {Mem}

  -- Direct descriptors that lead to an INDIRECT one, `d`.
  pub data Leads (m : Mem) (table max : ℕ) (d : Desc) : ℕ → List Desc → Type 0 where
    there :
        {idx : ℕ} (next : ℕ)
        → read_desc g m table idx ≡ some (d, next)
        → has_bit d.flags desc_f_indirect ≡ true
        → Leads m table max d idx []
    over :
        {idx : ℕ} {ds : List Desc} (c : Desc) (next : ℕ)
        → read_desc g m table idx ≡ some (c, next)
        → has_bit c.flags desc_f_indirect ≡ false
        → has_bit c.flags desc_f_next ≡ true
        → next < max
        → Leads m table max d next ds
        → Leads m table max d idx (c ∷ ds)

  walk_rounds-Leads :
      (follow : Desc → List Desc → List Desc) (m : Mem) (table max rounds : ℕ) (d : Desc) {idx : ℕ}
      {ds : List Desc} (out : List Desc)
      → Leads m table max d idx ds
      → length ds < rounds
      → length out + length ds < max
      → walk_rounds g follow m table max rounds idx out ≡ follow d (out ++ ds)
  unfolding walk_rounds walk_round
  walk_rounds-Leads follow m table max zero d out c hr hm = absurd (omega arith)
  walk_rounds-Leads follow m table max (suc rounds) d out (there next e i) hr hm =
      ground (arith, append-nil out)
  walk_rounds-Leads follow m table max (suc rounds) d out (over {ds = rest} c next e i n h l) hr
        hm =
      ground (
        arith,
        length-append out (c ∷ []),
        append_assoc out (c ∷ []) rest,
        walk_rounds-Leads follow m table max rounds d (out ++ c ∷ []) l,
      )

  -- Where indirect descriptors are allowed, a well-formed chain behind one INDIRECT descriptor at
  -- the head is collected whole, if it fits the table that the descriptor names and the queue.
  pub collect_descs_with-indirect :
      (m : Mem) (desc_base head max : ℕ) (d : Desc) {ds : List Desc}
      → Leads m desc_base max d head []
      → head < max
      → 0 < d.len / vring_desc_size
      → Chain g m d.addr (min (d.len / vring_desc_size) max) 0 ds
      → length ds ≤ min (d.len / vring_desc_size) max
      → collect_descs_with g m desc_base head max true ≡ ds
  unfolding collect_descs_with walk_chain walk_indirect
  collect_descs_with-indirect m desc_base head max d l hh hn c hl =
      let n : ℕ = min (d.len / vring_desc_size) max in
      ground (
        arith,
        walk_rounds-Leads (walk_indirect g m max) m desc_base max max d [] l (omega arith)
            (omega arith),
        walk_rounds-Chain g refuse_indirect m d.addr n n [] c hl (omega arith),
      )

  walk_rounds-cut :
      (m : Mem) (table n : ℕ) (first : Desc) (next : ℕ) (out : List Desc)
      → read_desc g m table 0 ≡ some (first, next)
      → has_bit first.flags desc_f_indirect ≡ false
      → 0 < n
      → n ≤ length out + 1
      → walk_rounds g refuse_indirect m table n n 0 out ≡ out ++ first ∷ []
  unfolding walk_rounds walk_round
  walk_rounds-cut m table zero first next out e i hn ho = absurd (omega arith)
  walk_rounds-cut m table (suc n) first next out e i hn ho =
      ground (arith, length-append out (first ∷ []))

  -- After `n` direct descriptors, an indirect table of at most `n + 1` entries loses all but its
  -- first: the walk of the table compares its own length with the descriptors collected before it.
  pub collect_descs_with-indirect_after_direct :
      (m : Mem) (desc_base head max : ℕ) (d first : Desc) (next : ℕ) {ds : List Desc}
      → Leads m desc_base max d head ds
      → head < max
      → length ds < max
      → read_desc g m d.addr 0 ≡ some (first, next)
      → has_bit first.flags desc_f_indirect ≡ false
      → 0 < d.len / vring_desc_size
      → d.len / vring_desc_size ≤ length ds + 1
      → collect_descs_with g m desc_base head max true ≡ ds ++ first ∷ []
  unfolding collect_descs_with walk_chain walk_indirect
  collect_descs_with-indirect_after_direct m desc_base head max d first next {ds} l hh hd e i hn
        ht =
      let n : ℕ = min (d.len / vring_desc_size) max in
      ground (
        arith,
        walk_rounds-Leads (walk_indirect g m max) m desc_base max max d [] l hd (omega arith),
        walk_rounds-cut m d.addr n first next ds e i (omega arith) (omega arith),
      )
