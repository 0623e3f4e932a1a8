-- ===== src/Cpuid/Topology.antt =====
-- What a guest makes of the topology leaves: where each of its CPUs is.
use native.Mathlib.Nat.{pow-suc}
use nesbox.Base.{
  ℕ, zero, suc, ◌+◌, ◌-◌, ◌*◌, ◌/◌, ◌%◌, ◌^◌, ◌<◌, ◌≡◌, ◌≢◌, ◌⊎◌, refl, ◌∙◌, ap, Bool, true, false,
  List, [], ◌∷◌, ◌++◌, ◌==◌, arith, if-holds, inl, inr, All, min, max,
}
use nesbox.Cpuid.{
  CpuId, Reg, eax, ecx, edx, set, get, Write, set_all, Vendor, amd, intel, other, digits, Shape,
  shape_of, leaf_1, extended_leaf, shared_eax, share_all, subleaves, patch_cache_sharing,
  amd_leaves, patch_vendor, patch_topology,
}
use nesbox.Cpuid.Leaves.{HasRoom, last_of, get-set_all, get-set_apart}

lt-pow-digits : (n x : ℕ) → x < 2 ^ n → x < 2 ^ digits n x
unfolding digits
lt-pow-digits zero x h = h
lt-pow-digits (suc n) x h =
    if-holds (λ (d : ℕ). x < 2 ^ d) (x == 0) (λ e. ground arith)
      λ e.
        rw (pow_up (digits n (x / 2)))
          (omega (arith, lt-pow-digits n (x / 2) (omega (arith, pow-suc 2 n))))
  where
    pow_up : (k : ℕ) → 2 ^ (k + 1) ≡ 2 * 2 ^ k
    pow_up k = let e : k + 1 ≡ suc k = omega arith in rw e (omega (arith, pow-suc 2 k))

module _ (f i : ℕ) (r : Reg) where
  set_all_apart :
      (c : CpuId) (ws : List Write)
      → All (λ (w : Write). w.function ≢ f) ws
      → get (set_all c ws) f i r ≡ get c f i r
  unfolding set_all
  set_all_apart c [] h = refl
  set_all_apart c (w ∷ ws) h =
      set_all_apart (set c w.function w.index w.reg w.value) ws h.1
      ∙ get-set_apart c w.function w.index f i w.reg r w.value h.0

  share_all_apart :
      (s : Shape) (is_intel : Bool) (leaf : ℕ) (subs : List (ℕ × ℕ)) (c : CpuId)
      → leaf ≢ f
      → get (share_all s is_intel leaf subs c) f i r ≡ get c f i r
  unfolding share_all
  share_all_apart s is_intel leaf [] c apart = refl
  share_all_apart s is_intel leaf ((index, old) ∷ rest) c apart =
      share_all_apart s is_intel leaf rest _ apart
      ∙ if-holds (λ (d : CpuId). get d f i r ≡ get c f i r) (old % 32 == 0) (λ _. refl)
          (λ _. get-set_apart c leaf index f i eax r (shared_eax s is_intel old) apart)

  -- The leaves of caches and of AMD are above all others, but for leaf 4.
  patched_apart :
      (c : CpuId) (s : Shape) (vcpu_id : ℕ) (vendor : Vendor)
      → 4 ≢ f
      → f < 0x8000_0000
      → get (patch_vendor (patch_cache_sharing c s vendor) s vcpu_id vendor) f i r ≡ get c f i r
  unfolding patch_vendor patch_cache_sharing amd_leaves
  patched_apart c s vcpu_id amd apart below =
      set_all_apart (patch_cache_sharing c s amd)
        (amd_leaves (patch_cache_sharing c s amd) s vcpu_id) (omega arith)
      ∙ share_all_apart s false 0x8000_001d (subleaves c.entries 0x8000_001d) c (omega arith)
  patched_apart c s vcpu_id intel apart below =
      share_all_apart s true 4 (subleaves c.entries 4) c apart
  patched_apart c s vcpu_id other apart below = refl

-- The two extended topology leaves.
abbrev pub IsTopology : ℕ → Type 0
IsTopology leaf = (leaf ≡ 0xb) ⊎ (leaf ≡ 0x1f)

-- What a guest makes of such a leaf: its package, its core in that and its thread in the core, and
-- the types of the levels up to the one that ends the enumeration.
pub record Place : Type 0 where
  pub socket : ℕ
  pub core : ℕ
  pub thread : ℕ
  pub levels : ℕ × ℕ × ℕ

pub enumerate : CpuId → ℕ → Place
enumerate c leaf = record {
  socket = get c leaf 1 edx / 2 ^ get c leaf 1 eax;
  core = get c leaf 0 edx / 2 ^ get c leaf 0 eax;
  thread = get c leaf 0 edx % 2 ^ get c leaf 0 eax;
  levels = (get c leaf 0 ecx / 256, get c leaf 1 ecx / 256, get c leaf 2 ecx / 256);
}

abbrev told : Shape → ℕ → Place
told s vcpu_id = record {
  socket = vcpu_id / 2 ^ s.package_shift;
  core = vcpu_id / 2 ^ s.thread_width;
  thread = vcpu_id % 2 ^ s.thread_width;
  levels = (1, 2, 0);
}

module _ (c : CpuId) (vcpu_id vcpu_count threads_per_core : ℕ) (vendor : Vendor)
    (room : HasRoom 26 c) where
  abbrev shape : Shape
  shape = shape_of vcpu_count threads_per_core

  abbrev writes : List Write
  writes =
      leaf_1 c shape vcpu_id
      ++ (extended_leaf shape vcpu_id 0xb ++ extended_leaf shape vcpu_id 0x1f)

  -- A register of a topology leaf after the patch.
  get-patch_topology :
      (leaf i : ℕ) (r : Reg)
      → IsTopology leaf
      → get (patch_topology c vcpu_id vcpu_count threads_per_core vendor) leaf i r
        ≡ last_of writes leaf i r (get c leaf i r)
  unfolding patch_topology leaf_1 extended_leaf
  get-patch_topology leaf i r which =
      patched_apart leaf i r (set_all c writes) shape vcpu_id vendor (grind arith) (grind arith)
      ∙ get-set_all c writes leaf i r room

  enumerate-patch_topology_b :
      enumerate (patch_topology c vcpu_id vcpu_count threads_per_core vendor) 0xb
      ≡ told shape vcpu_id
  unfolding enumerate leaf_1 extended_leaf
  enumerate-patch_topology_b = simp (
    get-patch_topology 0xb 1 edx (inl refl),
    get-patch_topology 0xb 1 eax (inl refl),
    get-patch_topology 0xb 0 edx (inl refl),
    get-patch_topology 0xb 0 eax (inl refl),
    get-patch_topology 0xb 0 ecx (inl refl),
    get-patch_topology 0xb 1 ecx (inl refl),
    get-patch_topology 0xb 2 ecx (inl refl),
  )

  enumerate-patch_topology_1f :
      enumerate (patch_topology c vcpu_id vcpu_count threads_per_core vendor) 0x1f
      ≡ told shape vcpu_id
  unfolding enumerate leaf_1 extended_leaf
  enumerate-patch_topology_1f = simp (
    get-patch_topology 0x1f 1 edx (inr refl),
    get-patch_topology 0x1f 1 eax (inr refl),
    get-patch_topology 0x1f 0 edx (inr refl),
    get-patch_topology 0x1f 0 eax (inr refl),
    get-patch_topology 0x1f 0 ecx (inr refl),
    get-patch_topology 0x1f 1 ecx (inr refl),
    get-patch_topology 0x1f 2 ecx (inr refl),
  )

  enumerate-patch_topology :
      (leaf : ℕ)
      → IsTopology leaf
      → enumerate (patch_topology c vcpu_id vcpu_count threads_per_core vendor) leaf
        ≡ told shape vcpu_id
  enumerate-patch_topology leaf (inl e) =
      ap (enumerate (patch_topology c vcpu_id vcpu_count threads_per_core vendor)) e
      ∙ enumerate-patch_topology_b
  enumerate-patch_topology leaf (inr e) =
      ap (enumerate (patch_topology c vcpu_id vcpu_count threads_per_core vendor)) e
      ∙ enumerate-patch_topology_1f

-- How many threads a core is said to have: one or two.
abbrev pub threads_of : ℕ → ℕ
threads_of threads_per_core = min (max threads_per_core 1) 2

digits_zero : digits 32 0 ≡ 0
unfolding digits
digits_zero = refl

digits_one : digits 32 1 ≡ 1
unfolding digits
digits_one = refl

one_or_two : (t : ℕ) → (threads_of t ≡ 1) ⊎ (threads_of t ≡ 2)
one_or_two t = grind arith

pow-thread_width : (n t : ℕ) → 2 ^ (shape_of n t).thread_width ≡ threads_of t
unfolding shape_of
pow-thread_width n t = elim (one_or_two t) [
  | inl e ↦ rw e (rw digits_zero refl)
  | inr e ↦ rw e (rw digits_one refl)
]

pow_add : (a b : ℕ) → 2 ^ (a + b) ≡ 2 ^ a * 2 ^ b
pow_add zero b = let e : 0 + b ≡ b = omega arith in rw e (omega arith)
pow_add (suc a) b =
    let e : suc a + b ≡ suc (a + b) = omega arith in
    rw e (grind (arith, pow-suc 2 (a + b), pow-suc 2 a, pow_add a b))

-- Cores of one thread, or of two, are enough for all the CPUs.
lt-package : (n t v : ℕ) → n < 256 → v < max n 1 → v < 2 ^ (shape_of n t).package_shift
unfolding shape_of
lt-package n t v small inside =
    rw (pow_add (shape_of n t).thread_width (digits 32 ((shape_of n t).cores - 1))) (
      rw (pow-thread_width n t) (elim (one_or_two t) [
        | inl e ↦ rw e (omega (arith, lt-pow-digits 32 ((max n 1 + 1 - 1) / 1 - 1) (grind arith)))
        | inr e ↦ rw e (omega (arith, lt-pow-digits 32 ((max n 1 + 2 - 1) / 2 - 1) (grind arith)))
      ]))

-- For each of up to 255 CPUs, with one thread to a core or two, both extended topology leaves tell
-- the guest that the CPU is in the one package, in the core and on the thread that its number says,
-- and after threads and cores they end; if the table has room for 26 more entries.
pub patch_topology-enumerate :
    (c : CpuId) (v n t leaf : ℕ) (vendor : Vendor)
    → HasRoom 26 c
    → IsTopology leaf
    → n < 256
    → v < max n 1
    → enumerate (patch_topology c v n t vendor) leaf ≡ record {
      socket = 0;
      core = v / threads_of t;
      thread = v % threads_of t;
      levels = (1, 2, 0);
    }
patch_topology-enumerate c v n t leaf vendor room which small inside =
    enumerate-patch_topology c v n t vendor room leaf which
    ∙ simp (pow-thread_width n t, one_package)
  where
    one_package : v / 2 ^ (shape_of n t).package_shift ≡ 0
    one_package = grind (arith, lt-package n t v small inside)
