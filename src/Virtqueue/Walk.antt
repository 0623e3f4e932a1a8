-- ===== src/Virtqueue/Walk.antt =====
-- What the descriptor walk collects, whatever the guest put into its tables.
use nesbox.Base.{
  ℕ, zero, suc, ◌/◌, ◌≤◌, ◌<◌, inl, inr, Bool, true, false, List, [], ◌∷◌, length, length-append,
  arith, min, Option-cases,
}
use nesbox.Guest.{GuestMemory}
use nesbox.Virtqueue.{
  Desc, vring_desc_size, Round, stop, go, read_desc, walk_round, walk_rounds, walk_chain,
  refuse_indirect, walk_indirect, collect_descs_with,
}

module _ (g : GuestMemory) where
  open g use {Mem}

  -- How many descriptors a round leaves, and that it goes on below the limit only.
  abbrev Fits : ℕ → Round → Type 0
  Fits limit (stop out) = length out ≤ limit
  Fits limit (go out next) = length out < limit

  walk_round-Fits :
      (follow : Desc → List Desc → List Desc) (m : Mem) (table max idx limit : ℕ) (out : List Desc)
      → ((d : Desc) → length (follow d out) ≤ limit)
      → length out < limit
      → max ≤ limit
      → Fits limit (walk_round g follow m table max idx out)
  unfolding walk_round
  walk_round-Fits follow m table max idx limit out hf ho hm =
      elim (Option-cases (read_desc g m table idx)) [
        | inl e ↦ rw (e, Fits) (omega arith)
        | inr ((d, next), e) ↦ rw (e, Fits) (ground (arith, hf d, length-append out (d ∷ [])))
      ]

  walk_rounds-length-le :
      (follow : Desc → List Desc → List Desc) (m : Mem) (table max limit : ℕ)
      → ((d : Desc) (out : List Desc) → length out < limit → length (follow d out) ≤ limit)
      → max ≤ limit
      → (rounds idx : ℕ) (out : List Desc) → length out < limit
      → length (walk_rounds g follow m table max rounds idx out) ≤ limit
  unfolding walk_rounds
  walk_rounds-length-le follow m table max limit hf hm zero idx out ho = omega arith
  walk_rounds-length-le follow m table max limit hf hm (suc rounds) idx out ho =
      step (walk_round g follow m table max idx out)
        (walk_round-Fits follow m table max idx limit out (λ d. hf d out ho) ho hm)
        (walk_rounds-length-le follow m table max limit hf hm rounds)
    where
      step :
          (r : Round)
          → Fits limit r
          → ((idx : ℕ) (out : List Desc)
              → length out < limit
              → length (walk_rounds g follow m table max rounds idx out) ≤ limit)
          → length (elim r [
            | stop result ↦ result
            | go out' next ↦ walk_rounds g follow m table max rounds next out'
          ])
            ≤ limit
      step (stop result) h ih = h
      step (go out' next) h ih = ih next out' h

  walk_indirect-length-le :
      (m : Mem) (max : ℕ) (d : Desc) (out : List Desc)
      → length out < max
      → length (walk_indirect g m max d out) ≤ max
  unfolding walk_indirect walk_chain
  walk_indirect-length-le m max d out h =
      let n : ℕ = min (d.len / vring_desc_size) max in
      ground (
        arith,
        walk_rounds-length-le refuse_indirect m d.addr n max (λ d out h. omega arith) (omega arith)
            n 0 out h,
      )

  -- No chain is longer than the queue, whether or not it goes through an indirect table.
  pub length-collect_descs_with-le :
      (m : Mem) (desc_base head max : ℕ) (allow_indirect : Bool)
      → length (collect_descs_with g m desc_base head max allow_indirect) ≤ max
  unfolding collect_descs_with walk_chain
  length-collect_descs_with-le m desc_base head max true = ground (
    arith,
    walk_rounds-length-le (walk_indirect g m max) m desc_base max max
        (λ d out h. walk_indirect-length-le m max d out h) (omega arith) max head [],
  )
  length-collect_descs_with-le m desc_base head max false = ground (
    arith,
    walk_rounds-length-le refuse_indirect m desc_base max max (λ d out h. omega arith) (omega arith)
        max head [],
  )
