-- ===== src/Affinity/Restored.antt =====
-- A vCPU thread that steps out to start a worker: what the worker is born on, and where the thread
-- is afterwards.
use nesbox.Base.{ℕ, ◌≡◌, refl, ap, sym, subst, ◌∙◌, true, Option, none, some}
use nesbox.Affinity.{
  CpuSet, CgroupFds, Recorded, Host, cpu_set, io_cpus, go_out, come_back, run_saved, run_on,
  with_io_affinity,
}

-- What the code relies on of the kernel: a cgroup allows some CPUs, a thread runs on CPUs that its
-- cgroup allows, and it is given all the CPUs of a set that has one and holds allowed ones only.
pub record Kernel (h : Host) : Type 0 where
  pub affinity : h.Thread → CpuSet
  pub cgroup : h.Thread → ℕ
  pub allowed : ℕ → CpuSet
  pub current-affinity : (t : h.Thread) {s : CpuSet} → h.current t ≡ some s → affinity t ≡ s
  pub affinity-allowed : (t : h.Thread) (c : ℕ) → affinity t c ≡ true → allowed (cgroup t) c ≡ true
  pub affinity-apply :
      (t : h.Thread) (s : CpuSet) (c : ℕ)
      → s c ≡ true
      → ((c : ℕ) → s c ≡ true → allowed (cgroup t) c ≡ true)
      → affinity (h.apply t s).0 ≡ s
  pub cgroup-apply : (t : h.Thread) (s : CpuSet) → cgroup (h.apply t s).0 ≡ cgroup t
  pub cgroup-join_cgroup :
      (t : h.Thread) (fd : ℕ) → (h.join_cgroup t fd).1 ≡ true → cgroup (h.join_cgroup t fd).0 ≡ fd

module _ (h : Host) (k : Kernel h) where
  -- In the same cgroup and on the same CPUs as before.
  unfoldable pub IsHome : h.Thread → h.Thread → Type 0
  IsHome before after = (k.cgroup after ≡ k.cgroup before) × (k.affinity after ≡ k.affinity before)

  -- With a partition, the thread is in the vCPU cgroup and can join it again.
  unfoldable pub IsVcpu : h.Thread → Option CgroupFds → Type 0
  IsVcpu t none = Unit
  IsVcpu t (some fds) =
      (k.cgroup t ≡ fds.vcpu) × ((t' : h.Thread) → (h.join_cgroup t' fds.vcpu).1 ≡ true)

  -- A thread that is in its old cgroup gets its old CPUs again.
  apply-IsHome :
      (t x : h.Thread) (c : ℕ)
      → k.affinity t c ≡ true
      → k.cgroup x ≡ k.cgroup t
      → IsHome t (h.apply x (k.affinity t)).0
  unfolding IsHome
  apply-IsHome t x c on same = (
    k.cgroup-apply x (k.affinity t) ∙ same,
    k.affinity-apply x (k.affinity t) c on
        λ d has. subst (λ g. k.allowed g d ≡ true) (sym same) (k.affinity-allowed t d has),
  )

  cgroup-go_out-none : (io : CpuSet) (t : h.Thread) → k.cgroup (go_out h none io t) ≡ k.cgroup t
  unfolding go_out
  cgroup-go_out-none io t = k.cgroup-apply t io

  come_back-IsHome :
      (fds : Option CgroupFds) (t x : h.Thread) (c : ℕ)
      → k.affinity t c ≡ true
      → IsVcpu t fds
      → (fds ≡ none → k.cgroup x ≡ k.cgroup t)
      → IsHome t (come_back h fds (k.affinity t) x)
  unfolding come_back IsVcpu
  come_back-IsHome none t x c on vcpu same = apply-IsHome t x c on (same refl)
  come_back-IsHome (some fds) t x c on vcpu same =
      apply-IsHome t (h.join_cgroup x fds.vcpu).0 c on
        (k.cgroup-join_cgroup x fds.vcpu (vcpu.1 x) ∙ sym vcpu.0)

  module _ {R : Type 0} (f : h.Thread → h.Thread × R)
      (keeps : (t : h.Thread) → IsHome t (f t).0) where
    run_saved-IsHome :
        (fds : Option CgroupFds) (io : CpuSet) (t : h.Thread) (c : ℕ) (saved : Option CpuSet)
        → h.current t ≡ saved
        → k.affinity t c ≡ true
        → IsVcpu t fds
        → IsHome t (run_saved h f fds io t saved).0
    unfolding run_saved IsHome
    run_saved-IsHome fds io t c none read on vcpu = keeps t
    run_saved-IsHome fds io t c (some saved) read on vcpu =
        subst (λ s. IsHome t (come_back h fds s (f (go_out h fds io t)).0))
          (k.current-affinity t read)
          (come_back-IsHome fds t (f (go_out h fds io t)).0 c on vcpu λ e.
            (keeps (go_out h fds io t)).0
            ∙ subst (λ d. k.cgroup (go_out h d io t) ≡ k.cgroup t) (sym e)
                (cgroup-go_out-none io t))

    run_on-IsHome :
        (fds : Option CgroupFds) (t : h.Thread) (c : ℕ) (io : Option CpuSet)
        → k.affinity t c ≡ true
        → IsVcpu t fds
        → IsHome t (run_on h f fds t io).0
    unfolding run_on
    run_on-IsHome fds t c none on vcpu = keeps t
    run_on-IsHome fds t c (some io) on vcpu = run_saved-IsHome fds io t c (h.current t) refl on vcpu

    -- A thread that runs on some CPU and, where there is a partition, is in the vCPU cgroup and
    -- able to join it again, is after `with_io_affinity` in the cgroup and on the CPUs of before,
    -- whatever the other system calls answer, if the step that it ran moves no thread itself.
    pub with_io_affinity-IsHome :
        (size : ℕ) (r : Recorded) (t : h.Thread) (c : ℕ)
        → k.affinity t c ≡ true
        → IsVcpu t r.fds
        → IsHome t (with_io_affinity h f size r t).0
    unfolding with_io_affinity
    with_io_affinity-IsHome size r t c on vcpu =
        run_on-IsHome r.fds t c (cpu_set size (io_cpus r)) on vcpu

  -- Where there is a partition, the thread can join the I/O cgroup; and that, or else the cgroup
  -- that it is in, allows the I/O CPUs.
  unfoldable pub IsOut : h.Thread → Option CgroupFds → CpuSet → Type 0
  IsOut t none io = (d : ℕ) → io d ≡ true → k.allowed (k.cgroup t) d ≡ true
  IsOut t (some fds) io =
      ((h.join_cgroup t fds.io).1 ≡ true) × ((d : ℕ) → io d ≡ true → k.allowed fds.io d ≡ true)

  affinity-go_out :
      (fds : Option CgroupFds) (io : CpuSet) (t : h.Thread) (c : ℕ)
      → io c ≡ true
      → IsOut t fds io
      → k.affinity (go_out h fds io t) ≡ io
  unfolding go_out IsOut
  affinity-go_out none io t c on out = k.affinity-apply t io c on out
  affinity-go_out (some fds) io t c on out =
      k.affinity-apply (h.join_cgroup t fds.io).0 io c on λ d has.
        subst (λ g. k.allowed g d ≡ true) (sym (k.cgroup-join_cgroup t fds.io out.0)) (out.1 d has)

  -- The step ran on a thread that was on the CPUs `io`, and its result is what the call returns.
  pub RanOn : {R : Type 0} → (h.Thread → h.Thread × R) → CpuSet → R → Type 0
  RanOn f io result = (x : h.Thread) × (k.affinity x ≡ io) × (result ≡ (f x).1)

  module _ {R : Type 0} (f : h.Thread → h.Thread × R) where
    -- When there is a set of I/O CPUs, the thread's own can be read, the thread can join the I/O
    -- cgroup, where there is one, and the I/O CPUs are allowed there, the step runs while the
    -- thread is on exactly the I/O CPUs.
    pub with_io_affinity-RanOn :
        (size : ℕ) (r : Recorded) (t : h.Thread) {io saved : CpuSet} (c : ℕ)
        → cpu_set size (io_cpus r) ≡ some io
        → h.current t ≡ some saved
        → io c ≡ true
        → IsOut t r.fds io
        → RanOn f io (with_io_affinity h f size r t).1
    unfolding with_io_affinity RanOn run_on run_saved
    with_io_affinity-RanOn size r t {io} {saved} c named read on out = (
      go_out h r.fds io t,
      affinity-go_out r.fds io t c on out,
      ap (λ s. (run_on h f r.fds t s).1) named ∙ ap (λ s. (run_saved h f r.fds io t s).1) read,
    )
