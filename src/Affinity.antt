-- ===== src/Affinity.antt =====
-- virtio-devices/src/affinity.rs: where the threads that are not vCPUs run. The process-wide cells
-- are a record, a set of CPUs is its membership test, and the system calls on the calling thread
-- come from a `Host`: `sched_setaffinity`, `sched_getaffinity` and the write to `cgroup.threads`.
-- The failures that the code only logs are dropped here as there.
mod Restored
mod Tests
use nesbox.Base.{
  ℕ, ◌+◌, Bool, false, ◌||◌, Option, none, some, List, [], ◌∷◌, ltb, ◌==◌, if◌then◌else◌,
}

abbrev pub CpuSet : Type 0
CpuSet = ℕ → Bool

pub record CgroupFds : Type 0 where
  pub vcpu : ℕ
  pub io : ℕ

-- `IO_CPUS` and `CGROUP_FDS`.
pub record Recorded : Type 0 where
  pub cpus : Option (List ℕ)
  pub fds : Option CgroupFds

-- `OnceLock::set`: a second call is ignored.
pub set_once : {A : Type 0} → Option A → A → Option A
set_once none x = some x
set_once (some old) x = some old

pub set_io_cpus : Recorded → List ℕ → Recorded
set_io_cpus r cpus = record r { cpus = set_once r.cpus cpus }

pub set_cgroup_fds : Recorded → CgroupFds → Recorded
set_cgroup_fds r fds = record r { fds = set_once r.fds fds }

pub io_cpus_of : Option (List ℕ) → List ℕ
io_cpus_of none = []
io_cpus_of (some cpus) = cpus

pub io_cpus : Recorded → List ℕ
io_cpus r = io_cpus_of r.cpus

-- The loop of `cpu_set`: the set so far and how many CPUs were named. `size` is `CPU_SETSIZE`.
pub name_cpus : ℕ → List ℕ → CpuSet → ℕ → CpuSet × ℕ
name_cpus size [] set named = (set, named)
name_cpus size (cpu ∷ cpus) set named =
    let taken = name_cpus size cpus (λ c. (c == cpu) || set c) (named + 1) in
    let dropped = name_cpus size cpus set named in if ltb cpu size then taken else dropped

pub cpu_set : ℕ → List ℕ → Option CpuSet
cpu_set size cpus =
    let r = name_cpus size cpus (λ c. false) 0 in if ltb 0 r.1 then some r.0 else none

-- The calling thread, as the host's kernel keeps it.
pub record Host : Type 1 where
  pub Thread : Type 0
  pub apply : Thread → CpuSet → Thread × Bool
  pub current : Thread → Option CpuSet
  pub join_cgroup : Thread → ℕ → Thread × Bool

module _ (h : Host) where
  pub leave_vcpu_cgroup : Option CgroupFds → h.Thread → h.Thread
  leave_vcpu_cgroup none t = t
  leave_vcpu_cgroup (some fds) t = (h.join_cgroup t fds.io).0

  -- The way out: into the I/O cgroup, if there is one, and onto the I/O CPUs.
  pub go_out : Option CgroupFds → CpuSet → h.Thread → h.Thread
  go_out none io t = (h.apply t io).0
  go_out (some fds) io t = (h.apply (h.join_cgroup t fds.io).0 io).0

  -- The way back: into the vCPU cgroup, and then onto the CPUs of before.
  pub come_back : Option CgroupFds → CpuSet → h.Thread → h.Thread
  come_back none saved t = (h.apply t saved).0
  come_back (some fds) saved t = (h.apply (h.join_cgroup t fds.vcpu).0 saved).0

  module _ {R : Type 0} (f : h.Thread → h.Thread × R) where
    pub run_saved : Option CgroupFds → CpuSet → h.Thread → Option CpuSet → h.Thread × R
    run_saved fds io t none = f t
    run_saved fds io t (some saved) = let r = f (go_out fds io t) in (come_back fds saved r.0, r.1)

    pub run_on : Option CgroupFds → h.Thread → Option CpuSet → h.Thread × R
    run_on fds t none = f t
    run_on fds t (some io) = run_saved fds io t (h.current t)

    pub with_io_affinity : ℕ → Recorded → h.Thread → h.Thread × R
    with_io_affinity size r t = run_on r.fds t (cpu_set size (io_cpus r))
