-- ===== src/Machine.antt =====
-- The machine section of a configuration, from vmm/src/config.rs: what `MachineConfig::validate`
-- refuses, and where the threads that are not vCPUs go. The sort and the removal of repeats are the
-- standard library's.
pub mod Sorted
pub mod Accepted
pub mod Placement
mod Tests
use nesbox.Base.{
  ℕ, ◌+◌, ◌*◌, ◌/◌, ◌%◌, ◌^◌, Bool, true, false, ◌||◌, not, Option, none, some, List, [], ◌∷◌, ◌++◌,
  length, ltb, leb, ◌==◌, if◌then◌else◌,
}

-- An i32; `negsuc n` is -(n + 1).
pub data ℤ : Type 0 where
  pos : ℕ → ℤ
  negsuc : ℕ → ℤ

pub data HugePages : Type 0 where
  transparent huge_2m huge_1g : HugePages

pub hugetlb_size : HugePages → Option ℕ
hugetlb_size transparent = none
hugetlb_size huge_2m = some (2 * 2 ^ 20)
hugetlb_size huge_1g = some (2 ^ 30)

-- The fields that these functions read.
pub record MachineConfig : Type 0 where
  pub vcpu_count : ℕ
  pub mem_size_mib : ℕ
  pub cpu_affinity : List ℕ
  pub vcpu_pins : List ℕ
  pub threads_per_core : ℕ
  pub io_affinity : List ℕ
  pub dedicated : Bool
  pub vcpu_cgroup_fd : Option ℤ
  pub io_cgroup_fd : Option ℤ
  pub hugepages : HugePages

pub is_empty : List ℕ → Bool
is_empty [] = true
is_empty (x ∷ xs) = false

pub insert_sorted : ℕ → List ℕ → List ℕ
insert_sorted x [] = x ∷ []
insert_sorted x (y ∷ ys) = if leb x y then x ∷ y ∷ ys else y ∷ insert_sorted x ys

pub sort : List ℕ → List ℕ
sort [] = []
sort (x ∷ xs) = insert_sorted x (sort xs)

-- `dedup`, after an entry that is kept: the next goes if it is the same.
pub dedup_after : ℕ → List ℕ → List ℕ
dedup_after x [] = []
dedup_after x (y ∷ ys) =
    let same = dedup_after x ys in let new = y ∷ dedup_after y ys in if x == y then same else new

pub dedup : List ℕ → List ℕ
dedup [] = []
dedup (x ∷ xs) = x ∷ dedup_after x xs

-- Why a configuration is refused.
pub data Refusal : Type 0 where
  pins_not_one_each shared_pin odd_threads unpinned_siblings unpinned_dedication standard_vcpu_fd
        standard_io_fd lone_fd partial_page :
      Refusal

-- `ensure!`, with what comes after it.
abbrev pub ensure : Bool → Refusal → Option Refusal → Option Refusal
ensure holds why rest = if holds then rest else some why

-- A descriptor is none of stdin, stdout and stderr, if there is one.
pub above_standard : Option ℤ → Bool
above_standard none = true
above_standard (some (pos fd)) = ltb 2 fd
above_standard (some (negsuc fd)) = false

pub is_some : Option ℤ → Bool
is_some none = false
is_some (some fd) = true

pub whole_pages : ℕ → Option ℕ → Bool
whole_pages mem_size_mib none = true
whole_pages mem_size_mib (some page) = mem_size_mib % (page / 2 ^ 20) == 0

-- The checks of the pins, made only where there are any.
pub check_pins : MachineConfig → Option Refusal → Option Refusal
check_pins m rest =
    if is_empty m.vcpu_pins
    then rest
    else ensure (length m.vcpu_pins == m.vcpu_count) pins_not_one_each
        (ensure (length (dedup (sort m.vcpu_pins)) == length m.vcpu_pins) shared_pin rest)

-- `none` is `Ok`.
pub validate : MachineConfig → Option Refusal
validate m =
    let pinned = not (is_empty m.vcpu_pins) in
    check_pins m (
      ensure ((m.threads_per_core == 1) || (m.threads_per_core == 2)) odd_threads (
        ensure ((m.threads_per_core == 1) || pinned) unpinned_siblings (
          ensure (not m.dedicated || pinned) unpinned_dedication (
            ensure (above_standard m.vcpu_cgroup_fd) standard_vcpu_fd (
              ensure (above_standard m.io_cgroup_fd) standard_io_fd (
                ensure
                  (if is_some m.vcpu_cgroup_fd
                    then is_some m.io_cgroup_fd
                    else not (is_some m.io_cgroup_fd))
                  lone_fd
                  (ensure (whole_pages m.mem_size_mib (hugetlb_size m.hugepages)) partial_page
                    none)))))))

unfoldable pub io_cpus : MachineConfig → List ℕ
io_cpus m = if is_empty m.io_affinity then m.cpu_affinity else m.io_affinity

pub contains : List ℕ → ℕ → Bool
contains [] c = false
contains (x ∷ xs) c = (x == c) || contains xs c

-- Those that no vCPU is pinned to.
pub unpinned : List ℕ → List ℕ → List ℕ
unpinned pins [] = []
unpinned pins (c ∷ cs) = let rest = unpinned pins cs in if contains pins c then rest else c ∷ rest

pub worker_cpus : MachineConfig → List ℕ
worker_cpus m =
    let cpus = dedup (sort (unpinned m.vcpu_pins (io_cpus m ++ m.cpu_affinity))) in
    if is_empty cpus then io_cpus m else cpus
