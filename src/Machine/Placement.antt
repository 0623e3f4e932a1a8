-- ===== src/Machine/Placement.antt =====
-- Where the GPU worker goes.
use nesbox.Base.{
  ℕ, ◌≡◌, ◌⊎◌, inl, inr, refl, sym, ◌∙◌, ap, Bool, true, false, not, ◌&&◌, ◌||◌, List, [], ◌∷◌,
  ◌++◌, arith, Bool-cases,
}
use nesbox.Machine.{MachineConfig, is_empty, sort, dedup, contains, unpinned, io_cpus, worker_cpus}
use nesbox.Machine.Sorted.{contains-sort, contains-dedup}

contains-append :
    (c : ℕ) (xs ys : List ℕ) → contains (xs ++ ys) c ≡ (contains xs c || contains ys c)
unfolding contains
contains-append c [] ys = refl
contains-append c (x ∷ xs) ys = ground (arith, contains-append c xs ys)

contains-unpinned :
    (pins : List ℕ) (c : ℕ) (cs : List ℕ)
    → contains (unpinned pins cs) c ≡ (contains cs c && not (contains pins c))
unfolding unpinned contains
contains-unpinned pins c [] = refl
contains-unpinned pins c (x ∷ xs) = ground (arith, contains-unpinned pins c xs)

-- One of the CPUs that serve the guest, the I/O set's and the guest's own, with no vCPU pinned to it.
abbrev pub is_idle : MachineConfig → ℕ → Bool
is_idle m c = (contains (io_cpus m) c || contains m.cpu_affinity c) && not (contains m.vcpu_pins c)

contains_none : (xs : List ℕ) → is_empty xs ≡ true → (c : ℕ) → contains xs c ≡ false
unfolding is_empty contains
contains_none [] e c = refl
contains_none (x ∷ xs) e c = cc

-- The GPU worker's CPUs are exactly the idle ones, when there are any, and the I/O set if there are
-- none.
pub worker_cpus_lem :
    (m : MachineConfig)
    → ((c : ℕ) → contains (worker_cpus m) c ≡ is_idle m c)
      ⊎ (((c : ℕ) → is_idle m c ≡ false) × (worker_cpus m ≡ io_cpus m))
unfolding worker_cpus
worker_cpus_lem m = elim (Bool-cases (is_empty chosen)) [
  | inl e ↦ inr ((λ c. sym (in_chosen c) ∙ contains_none chosen e c), rw e refl)
  | inr e ↦ inl (λ c. rw e (in_chosen c))
]
  where
    chosen : List ℕ
    chosen = dedup (sort (unpinned m.vcpu_pins (io_cpus m ++ m.cpu_affinity)))

    in_chosen : (c : ℕ) → contains chosen c ≡ is_idle m c
    in_chosen c =
        contains-dedup c (sort (unpinned m.vcpu_pins (io_cpus m ++ m.cpu_affinity)))
        ∙ contains-sort c (unpinned m.vcpu_pins (io_cpus m ++ m.cpu_affinity))
        ∙ contains-unpinned m.vcpu_pins c (io_cpus m ++ m.cpu_affinity)
        ∙ ap (λ b. b && not (contains m.vcpu_pins c)) (contains-append c (io_cpus m) m.cpu_affinity)
