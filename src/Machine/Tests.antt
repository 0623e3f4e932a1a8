-- ===== src/Machine/Tests.antt =====
-- A guest of two vCPUs on the two threads of a core, with huge pages and a partition.
use nesbox.Base.{◌≡◌, ◌↔◌, refl, true, none, some, [], ◌∷◌}
use nesbox.Machine.{
  MachineConfig, pos, negsuc, huge_2m, hugetlb_size, is_empty, insert_sorted, sort, dedup_after,
  dedup, above_standard, is_some, whole_pages, check_pins, validate, shared_pin, standard_io_fd,
  io_cpus, contains, unpinned, worker_cpus,
}
use nesbox.Machine.Accepted.{IsPossible, validate_iff}

machine : MachineConfig
machine = record {
  vcpu_count = 2;
  mem_size_mib = 4096;
  cpu_affinity = 2 ∷ 10 ∷ 3 ∷ 11 ∷ [];
  vcpu_pins = 10 ∷ 2 ∷ [];
  threads_per_core = 2;
  io_affinity = 0 ∷ 1 ∷ [];
  dedicated = true;
  vcpu_cgroup_fd = some (pos 7);
  io_cgroup_fd = some (pos 8);
  hugepages = huge_2m;
}

validate_iff_example : (validate machine ≡ none) ↔ IsPossible machine
validate_iff_example = validate_iff machine

accepted : validate machine ≡ none
unfolding validate machine check_pins is_empty sort insert_sorted dedup dedup_after above_standard
    is_some whole_pages hugetlb_size
accepted = refl

shared : validate (record machine { vcpu_pins = 2 ∷ 2 ∷ [] }) ≡ some shared_pin
unfolding validate machine check_pins is_empty sort insert_sorted dedup dedup_after
shared = refl

negative_fd : validate (record machine { io_cgroup_fd = some (negsuc 0) }) ≡ some standard_io_fd
unfolding validate machine check_pins is_empty sort insert_sorted dedup dedup_after above_standard
    is_some whole_pages hugetlb_size
negative_fd = refl

placed : worker_cpus machine ≡ 0 ∷ 1 ∷ 3 ∷ 11 ∷ []
unfolding worker_cpus machine io_cpus is_empty unpinned contains sort insert_sorted dedup
    dedup_after
placed = refl
