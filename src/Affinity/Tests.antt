-- ===== src/Affinity/Tests.antt =====
-- A thread of a partition whose vCPU cgroup has the CPUs below 4 and whose I/O cgroup has the others.
use nesbox.Base.{
  ℕ, ◌≡◌, refl, Bool, true, false, ◌&&◌, ◌||◌, none, some, [], ◌∷◌, ltb, leb, ◌==◌, if◌then◌else◌,
}
use nesbox.Affinity.{
  CpuSet, Recorded, Host, set_io_cpus, set_cgroup_fds, leave_vcpu_cgroup, io_cpus, cpu_set,
  name_cpus, set_once, io_cpus_of, with_io_affinity,
}
use nesbox.Affinity.Restored.{Kernel, IsHome, IsVcpu, IsOut, with_io_affinity-IsHome}
use mathlib.Core.Path.{fun_ext}
use mathlib.Core.Option.{some_inj}
use nesbox.Base.{arith}

abbrev allowed_in : ℕ → CpuSet
allowed_in g = if g == 1 then (λ c. ltb c 4) else (λ c. leb 4 c)

abbrev seen : CpuSet × ℕ → CpuSet
seen t = λ c. t.0 c && allowed_in t.1 c

abbrev host : Host
host = record {
  Thread = CpuSet × ℕ;
  apply = λ t s. ((s, t.1), true);
  current = λ t. some (seen t);
  join_cgroup = λ t fd. ((t.0, fd), true);
}

both_right : (a b : Bool) → (a && b) ≡ true → b ≡ true
both_right true b e = e
both_right false b e = ground (arith, e)

both_kept : (a b : Bool) → (a ≡ true → b ≡ true) → (a && b) ≡ a
both_kept true b h = h refl
both_kept false b h = refl

abbrev kernel : Kernel host
kernel = record {
  affinity = seen;
  cgroup = λ t. t.1;
  allowed = allowed_in;
  current-affinity = λ t e. some_inj.0 e;
  affinity-allowed = λ t c e. both_right (t.0 c) (allowed_in t.1 c) e;
  affinity-apply = λ t s c on within. fun_ext λ d. both_kept (s d) (allowed_in t.1 d) (within d);
  cgroup-apply = λ t s. refl;
  cgroup-join_cgroup = λ t fd e. refl;
}

abbrev cells : Recorded
cells =
    set_cgroup_fds
      (set_io_cpus (set_io_cpus (record { cpus = none; fds = none }) (6 ∷ 5000 ∷ [])) (1 ∷ []))
      (record { vcpu = 1; io = 2 })

first_set_stays : io_cpus cells ≡ 6 ∷ 5000 ∷ []
unfolding io_cpus io_cpus_of set_io_cpus set_cgroup_fds set_once
first_set_stays = refl

past_the_set : cpu_set 1024 (5000 ∷ []) ≡ none
unfolding cpu_set name_cpus
past_the_set = refl

left_vcpu : (leave_vcpu_cgroup host cells.fds ((λ c. c == 3), 1)).1 ≡ 2
unfolding leave_vcpu_cgroup set_io_cpus set_cgroup_fds set_once
left_vcpu = refl

abbrev pinned : CpuSet × ℕ
pinned = ((λ c. c == 3), 1)

abbrev watched : CpuSet × ℕ → (CpuSet × ℕ) × Bool
watched t = (t, seen t 6)

pinned-IsVcpu : IsVcpu host kernel pinned cells.fds
unfolding IsVcpu set_io_cpus set_cgroup_fds set_once
pinned-IsVcpu = (refl, λ t. refl)

watched-IsHome : (t : CpuSet × ℕ) → IsHome host kernel t (watched t).0
unfolding IsHome
watched-IsHome t = (refl, refl)

pinned-IsOut : IsOut host kernel pinned cells.fds (λ c. (c == 6) || false)
unfolding IsOut set_io_cpus set_cgroup_fds set_once
pinned-IsOut = (refl, λ d e. grind arith)

named : cpu_set 1024 (io_cpus cells) ≡ some (λ c. (c == 6) || false)
unfolding cpu_set name_cpus io_cpus io_cpus_of set_io_cpus set_cgroup_fds set_once
named = refl

with_io_affinity-IsHome_example :
    IsHome host kernel pinned (with_io_affinity host watched 1024 cells pinned).0
with_io_affinity-IsHome_example =
    with_io_affinity-IsHome host kernel watched watched-IsHome 1024 cells pinned 3 refl
      pinned-IsVcpu
