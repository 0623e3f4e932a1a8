-- ===== src/Machine/Accepted.antt =====
-- Which configurations are accepted.
use nesbox.Base.{
  ℕ, ◌%◌, ◌<◌, ◌≡◌, ◌⊎◌, ◌↔◌, inl, inr, refl, sym, ap, Bool, true, false, not, ◌||◌, Option, none,
  some, List, [], ◌∷◌, length, ◌==◌, if◌then◌else◌, arith, Bool-cases, ==_iff,
}
use nesbox.Machine.{
  MachineConfig, ℤ, pos, negsuc, HugePages, transparent, huge_2m, huge_1g, hugetlb_size, Refusal,
  pins_not_one_each, shared_pin, odd_threads, unpinned_siblings, unpinned_dedication,
  standard_vcpu_fd, standard_io_fd, lone_fd, partial_page, ensure, is_empty, is_some,
  above_standard, whole_pages, check_pins, validate, sort, dedup,
}
use nesbox.Machine.Sorted.{Distinct, length-dedup-sort_iff}

-- There are pins: one for each vCPU, and no CPU has two.
pub IsPinned : MachineConfig → Type 0
IsPinned m =
    (is_empty m.vcpu_pins ≡ false) × (length m.vcpu_pins ≡ m.vcpu_count) × Distinct m.vcpu_pins

-- The two descriptors are both there and above 2, or neither is there.
pub HasCgroups : Option ℤ → Option ℤ → Type 0
HasCgroups (some (pos v)) (some (pos i)) = (2 < v) × (2 < i)
HasCgroups none none = Unit
HasCgroups v i = ⊥

-- The memory is made of whole pages of the size asked for, in MiB.
pub InPages : MachineConfig → HugePages → Type 0
InPages m transparent = Unit
InPages m huge_2m = m.mem_size_mib % 2 ≡ 0
InPages m huge_1g = m.mem_size_mib % 1024 ≡ 0

-- What a machine must be like to be built as it is written down.
pub record IsPossible (m : MachineConfig) : Type 0 where
  pub pins : (m.vcpu_pins ≡ []) ⊎ IsPinned m
  pub threads : (m.threads_per_core ≡ 1) ⊎ ((m.threads_per_core ≡ 2) × IsPinned m)
  pub dedication : m.dedicated ≡ true → IsPinned m
  pub cgroups : HasCgroups m.vcpu_cgroup_fd m.io_cgroup_fd
  pub pages : InPages m m.hugepages

ensure_iff :
    (b : Bool) (why : Refusal) (rest : Option Refusal)
    → (ensure b why rest ≡ none) ↔ ((b ≡ true) × (rest ≡ none))
ensure_iff true why rest = ((λ h. (refl, h)), λ h. h.1)
ensure_iff false why rest = ((λ h. cc), λ h. cc)

is_empty_iff : (xs : List ℕ) → (is_empty xs ≡ true) ↔ (xs ≡ [])
unfolding is_empty
is_empty_iff [] = ((λ _. refl), λ _. refl)
is_empty_iff (x ∷ xs) = ((λ h. cc), λ h. cc)

pins_iff :
    (m : MachineConfig)
    → (((length m.vcpu_pins == m.vcpu_count) ≡ true)
        × ((length (dedup (sort m.vcpu_pins)) == length m.vcpu_pins) ≡ true))
      ↔ ((length m.vcpu_pins ≡ m.vcpu_count) × Distinct m.vcpu_pins)
pins_iff m = (
  (λ h. ((==_iff _ _).0 h.0, (length-dedup-sort_iff m.vcpu_pins).0 ((==_iff _ _).0 h.1))),
  λ h. ((==_iff _ _).1 h.0, (==_iff _ _).1 ((length-dedup-sort_iff m.vcpu_pins).1 h.1)),
)

check_pins_iff :
    (m : MachineConfig) (rest : Option Refusal)
    → (check_pins m rest ≡ none) ↔ (((m.vcpu_pins ≡ []) ⊎ IsPinned m) × (rest ≡ none))
unfolding check_pins IsPinned
check_pins_iff m rest = elim (Bool-cases (is_empty m.vcpu_pins)) [
  | inl e ↦ rw e ((λ h. (inl ((is_empty_iff m.vcpu_pins).0 e), h)), λ h. h.1)
  | inr e ↦ rw e (
    (λ h.
        let counted = (ensure_iff _ pins_not_one_each _).0 h in
        let told = (ensure_iff _ shared_pin rest).0 counted.1 in
        let sound = (pins_iff m).0 (counted.0, told.0) in (inr (refl, sound.0, sound.1), told.1)),
    λ h. elim h.0 [
      | inl none_there ↦ cc (sym e, (is_empty_iff m.vcpu_pins).1 none_there)
      | inr pinned ↦
          let told = (pins_iff m).1 (pinned.1, pinned.2) in
          (ensure_iff _ pins_not_one_each _).1
            (told.0, (ensure_iff _ shared_pin rest).1 (told.1, h.1))
    ],
  )
]

cgroups_iff :
    (v i : Option ℤ)
    → ((above_standard v ≡ true)
        × (above_standard i ≡ true)
        × ((if is_some v then is_some i else not (is_some i)) ≡ true))
      ↔ HasCgroups v i
unfolding HasCgroups above_standard is_some
cgroups_iff none none = ((λ _. tt), λ _. (refl, refl, refl))
cgroups_iff none (some i) = ((λ h. cc), λ h. absurd h)
cgroups_iff (some (pos v)) none = ((λ h. cc), λ h. absurd h)
cgroups_iff (some (negsuc v)) none = ((λ h. cc), λ h. absurd h)
cgroups_iff (some (pos v)) (some (pos i)) = (
  (λ h. (ground (arith, h.0), ground (arith, h.1))),
  λ h. (ground (arith, h.0), ground (arith, h.1), refl),
)
cgroups_iff (some (pos v)) (some (negsuc i)) = ((λ h. cc), λ h. absurd h)
cgroups_iff (some (negsuc v)) (some (pos i)) = ((λ h. cc), λ h. absurd h)
cgroups_iff (some (negsuc v)) (some (negsuc i)) = ((λ h. cc), λ h. absurd h)

pages_iff :
    (m : MachineConfig) (p : HugePages)
    → (whole_pages m.mem_size_mib (hugetlb_size p) ≡ true) ↔ InPages m p
unfolding InPages whole_pages hugetlb_size
pages_iff m transparent = ((λ _. tt), λ _. refl)
pages_iff m huge_2m = ==_iff (m.mem_size_mib % 2) 0
pages_iff m huge_1g = ==_iff (m.mem_size_mib % 1024) 0

module _ (m : MachineConfig) where
  pinned_of : (m.vcpu_pins ≡ []) ⊎ IsPinned m → not (is_empty m.vcpu_pins) ≡ true → IsPinned m
  pinned_of (inl e) h =
      let full = (is_empty_iff m.vcpu_pins).1 e in absurd (ground (arith, h, full))
  pinned_of (inr pinned) h = pinned

  there_of : IsPinned m → not (is_empty m.vcpu_pins) ≡ true
  unfolding IsPinned
  there_of pinned = ap not pinned.0

  threads_of :
      (m.vcpu_pins ≡ []) ⊎ IsPinned m
      → (((m.threads_per_core == 1) || (m.threads_per_core == 2)) ≡ true)
      → (((m.threads_per_core == 1) || not (is_empty m.vcpu_pins)) ≡ true)
      → (m.threads_per_core ≡ 1) ⊎ ((m.threads_per_core ≡ 2) × IsPinned m)
  threads_of pins odd siblings = elim (Bool-cases (m.threads_per_core == 1)) [
    | inl one ↦ inl (ground (arith, one))
    | inr more ↦ inr (ground (arith, odd, more), pinned_of pins (ground (arith, siblings, more)))
  ]

  odd_of :
      (m.threads_per_core ≡ 1) ⊎ ((m.threads_per_core ≡ 2) × IsPinned m)
      → (((m.threads_per_core == 1) || (m.threads_per_core == 2)) ≡ true)
        × (((m.threads_per_core == 1) || not (is_empty m.vcpu_pins)) ≡ true)
  odd_of (inl one) = (ground arith, ground arith)
  odd_of (inr (two, pinned)) = (ground arith, ground (arith, there_of pinned))

  dedication_of :
      (m.vcpu_pins ≡ []) ⊎ IsPinned m
      → (not m.dedicated || not (is_empty m.vcpu_pins)) ≡ true
      → m.dedicated ≡ true
      → IsPinned m
  dedication_of pins h e = pinned_of pins (ground (arith, h, e))

  dedicated_of :
      (m.dedicated ≡ true → IsPinned m) → (not m.dedicated || not (is_empty m.vcpu_pins)) ≡ true
  dedicated_of h = elim (Bool-cases m.dedicated) [
    | inl e ↦ ground (arith, there_of (h e))
    | inr e ↦ ground arith
  ]

  validate_back : IsPossible m → validate m ≡ none
  unfolding validate
  validate_back h =
      let tests = odd_of h.threads in
      let fds = (cgroups_iff m.vcpu_cgroup_fd m.io_cgroup_fd).1 h.cgroups in
      (check_pins_iff m _).1 (
        h.pins,
        (ensure_iff _ odd_threads _).1 (
          tests.0,
          (ensure_iff _ unpinned_siblings _).1 (
            tests.1,
            (ensure_iff _ unpinned_dedication _).1 (
              dedicated_of h.dedication,
              (ensure_iff _ standard_vcpu_fd _).1 (
                fds.0,
                (ensure_iff _ standard_io_fd _).1 (
                  fds.1,
                  (ensure_iff _ lone_fd _).1 (
                    fds.2,
                    (ensure_iff _ partial_page none).1 ((pages_iff m m.hugepages).1 h.pages, refl),
                  ),
                ),
              ),
            ),
          ),
        ),
      )

  validate_out : validate m ≡ none → IsPossible m
  unfolding validate
  validate_out h =
      let a = (check_pins_iff m _).0 h in
      let b = (ensure_iff _ odd_threads _).0 a.1 in
      let c = (ensure_iff _ unpinned_siblings _).0 b.1 in
      let d = (ensure_iff _ unpinned_dedication _).0 c.1 in
      let v = (ensure_iff _ standard_vcpu_fd _).0 d.1 in
      let i = (ensure_iff _ standard_io_fd _).0 v.1 in
      let l = (ensure_iff _ lone_fd _).0 i.1 in
      record {
        pins = a.0;
        threads = threads_of a.0 b.0 c.0;
        dedication = dedication_of a.0 d.0;
        cgroups = (cgroups_iff m.vcpu_cgroup_fd m.io_cgroup_fd).0 (v.0, i.0, l.0);
        pages = (pages_iff m m.hugepages).0 ((ensure_iff _ partial_page none).0 l.1).0;
      }

-- A configuration is accepted exactly when the machine is possible: each vCPU has a CPU of its own, if
-- any has; siblings and dedication come with such pins; the descriptors come together; and the memory
-- is whole pages.
pub validate_iff : (m : MachineConfig) → (validate m ≡ none) ↔ IsPossible m
validate_iff m = (validate_out m, validate_back m)
