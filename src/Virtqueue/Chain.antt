-- ===== src/Virtqueue/Chain.antt =====
-- Where the collected descriptors come from: a well-formed chain is collected whole, and nothing is
-- collected that is not an entry of the table.
use mathlib.Core.List.{append_assoc}
use nesbox.Base.{
  ℕ, zero, suc, ◌+◌, ◌≤◌, ◌<◌, ◌≡◌, inl, inr, Bool, true, false, some, List, [], ◌∷◌, ◌++◌, length,
  length-append, arith, leb, if◌then◌else◌, has_bit, Bool-cases, Option-cases, All, All-append,
}
use nesbox.Guest.{GuestMemory}
use nesbox.Virtqueue.{
  Desc, desc_f_next, desc_f_indirect, Round, stop, go, read_desc, walk_round, walk_rounds,
  walk_chain, refuse_indirect, walk_indirect, collect_descs_with, collect_descs,
}

module _ (g : GuestMemory) where
  open g use {Mem}

  -- A well-formed chain of direct descriptors, from the index `idx` on, as the driver lays it out.
  pub data Chain (m : Mem) (table max : ℕ) : ℕ → List Desc → Type 0 where
    last :
        {idx : ℕ} (d : Desc) (next : ℕ)
        → read_desc g m table idx ≡ some (d, next)
        → has_bit d.flags desc_f_indirect ≡ false
        → has_bit d.flags desc_f_next ≡ false
        → Chain m table max idx (d ∷ [])
    more :
        {idx : ℕ} {ds : List Desc} (d : Desc) (next : ℕ)
        → read_desc g m table idx ≡ some (d, next)
        → has_bit d.flags desc_f_indirect ≡ false
        → has_bit d.flags desc_f_next ≡ true
        → next < max
        → Chain m table max next ds
        → Chain m table max idx (d ∷ ds)

  Chain-length :
      (m : Mem) (table max : ℕ) {idx : ℕ} {ds : List Desc}
      → Chain m table max idx ds
      → 1 ≤ length ds
  Chain-length m table max (last d next e i n) = omega arith
  Chain-length m table max (more d next e i n h c) = omega arith

  -- The walk's loop collects a well-formed chain that its rounds and the table's length suffice for.
  pub walk_rounds-Chain :
      (follow : Desc → List Desc → List Desc) (m : Mem) (table max rounds : ℕ) {idx : ℕ}
      {ds : List Desc} (out : List Desc)
      → Chain m table max idx ds
      → length ds ≤ rounds
      → length out + length ds ≤ max
      → walk_rounds g follow m table max rounds idx out ≡ out ++ ds
  unfolding walk_rounds walk_round
  walk_rounds-Chain follow m table max zero out (last d next e i n) hr hm = absurd (omega arith)
  walk_rounds-Chain follow m table max zero out (more d next e i n h c) hr hm = absurd (omega arith)
  walk_rounds-Chain follow m table max (suc rounds) out (last d next e i n) hr hm = ground arith
  walk_rounds-Chain follow m table max (suc rounds) out (more {ds = rest} d next e i n h c) hr hm =
      ground (
        arith,
        length-append out (d ∷ []),
        Chain-length m table max c,
        append_assoc out (d ∷ []) rest,
        walk_rounds-Chain follow m table max rounds (out ++ d ∷ []) c,
      )

  -- A well-formed chain that is no longer than the queue is collected whole and in order, with
  -- indirect descriptors allowed or not.
  pub collect_descs_with-Chain :
      (m : Mem) (desc_base head max : ℕ) (allow_indirect : Bool) {ds : List Desc}
      → Chain m desc_base max head ds
      → head < max
      → length ds ≤ max
      → collect_descs_with g m desc_base head max allow_indirect ≡ ds
  unfolding collect_descs_with walk_chain
  collect_descs_with-Chain m desc_base head max allow c hh hl = ground (
    arith,
    walk_rounds-Chain (if allow then walk_indirect g m max else refuse_indirect) m desc_base max max
        [] c hl (omega arith),
  )

  -- The descriptor `d` is an entry of the table, below its length.
  abbrev pub IsEntry : Mem → ℕ → ℕ → Desc → Type 0
  IsEntry m table max d =
      (idx : ℕ) × (next : ℕ) × (idx < max) × (read_desc g m table idx ≡ some (d, next))

  abbrev Entries : Mem → ℕ → ℕ → Round → Type 0
  Entries m table max (stop out) = All (IsEntry m table max) out
  Entries m table max (go out next) = All (IsEntry m table max) out × (next < max)

  walk_round-Entries :
      (m : Mem) (table max idx : ℕ) (out : List Desc)
      → idx < max
      → All (IsEntry m table max) out
      → Entries m table max (walk_round g refuse_indirect m table max idx out)
  unfolding walk_round
  walk_round-Entries m table max idx out hi ho = elim (Option-cases (read_desc g m table idx)) [
    | inl e ↦ rw (e, Entries) ho
    | inr ((d, next), e) ↦
        let more = All-append (IsEntry m table max) out (d ∷ []) ho ((idx, next, hi, e), tt) in
        rw (e, Entries) (ground (arith, more))
  ]

  walk_rounds-Entries :
      (m : Mem) (table max rounds idx : ℕ) (out : List Desc)
      → idx < max
      → All (IsEntry m table max) out
      → All (IsEntry m table max) (walk_rounds g refuse_indirect m table max rounds idx out)
  unfolding walk_rounds
  walk_rounds-Entries m table max zero idx out hi ho = ho
  walk_rounds-Entries m table max (suc rounds) idx out hi ho =
      step (walk_round g refuse_indirect m table max idx out)
        (walk_round-Entries m table max idx out hi ho) (walk_rounds-Entries m table max rounds)
    where
      step :
          (r : Round)
          → Entries m table max r
          → ((idx : ℕ) (out : List Desc)
              → idx < max
              → All (IsEntry m table max) out
              → All
                  (IsEntry m table max)
                  (walk_rounds g refuse_indirect m table max rounds idx out))
          → All (IsEntry m table max) (elim r [
            | stop result ↦ result
            | go out' next ↦ walk_rounds g refuse_indirect m table max rounds next out'
          ])
      step (stop result) h ih = h
      step (go out' next) h ih = ih next out' h.1 h.0

  -- Whatever the tables hold, a walk without indirection collects entries of the table only.
  pub collect_descs-IsEntry :
      (m : Mem) (desc_base head max : ℕ)
      → All (IsEntry m desc_base max) (collect_descs g m desc_base head max)
  unfolding collect_descs collect_descs_with walk_chain
  collect_descs-IsEntry m desc_base head max = elim (Bool-cases (leb max head)) [
    | inl e ↦ rw e tt
    | inr e ↦ rw e (walk_rounds-Entries m desc_base max max head [] (ground arith) tt)
  ]
