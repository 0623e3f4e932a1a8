-- ===== src/Cpuid.antt =====
-- What the guest is told of its CPUs: vmm/src/cpuid.rs. A table of CPUID entries has a most that it
-- holds, and a push beyond that is refused, as the table of the kvm-bindings crate does.
pub mod Leaves
pub mod Topology
mod Tests
use nesbox.Base.{
  ℕ, zero, suc, ◌+◌, ◌-◌, ◌*◌, ◌/◌, ◌%◌, ◌^◌, Bool, true, false, ◌&&◌, Option, none, some, List, [],
  ◌∷◌, ◌++◌, length, ltb, leb, ◌==◌, if◌then◌else◌, set_bit, min, max,
}

pub data Vendor : Type 0 where
  amd intel other : Vendor

pub record Entry : Type 0 where
  pub function : ℕ
  pub index : ℕ
  pub flags : ℕ
  pub eax : ℕ
  pub ebx : ℕ
  pub ecx : ℕ
  pub edx : ℕ

pub record CpuId : Type 0 where
  pub entries : List Entry
  pub most : ℕ

pub data Reg : Type 0 where
  eax ebx ecx edx : Reg

abbrev pub same_reg : Reg → Reg → Bool
same_reg eax eax = true
same_reg ebx ebx = true
same_reg ecx ecx = true
same_reg edx edx = true
same_reg r s = false

pub read_reg : Reg → Entry → ℕ
read_reg eax e = e.eax
read_reg ebx e = e.ebx
read_reg ecx e = e.ecx
read_reg edx e = e.edx

pub write_reg : Reg → ℕ → Entry → Entry
write_reg eax v e = record e { eax = v }
write_reg ebx v e = record e { ebx = v }
write_reg ecx v e = record e { ecx = v }
write_reg edx v e = record e { edx = v }

abbrev pub is_at : ℕ → ℕ → Entry → Bool
is_at function index e = (e.function == function) && (e.index == index)

pub find : List Entry → ℕ → ℕ → Option Entry
find [] function index = none
find (e ∷ es) function index = if is_at function index e then some e else find es function index

-- The bytes of EBX, EDX and ECX of leaf 0 as numbers: "AuthenticAMD" and "GenuineIntel".
pub vendor_from : Option Entry → Vendor
vendor_from none = other
vendor_from (some e) =
    if (e.ebx == 0x68747541) && (e.edx == 0x69746e65) && (e.ecx == 0x444d4163)
    then amd
    else if (e.ebx == 0x756e6547) && (e.edx == 0x49656e69) && (e.ecx == 0x6c65746e)
    then intel
    else other

-- The first entry of a function, whatever its index.
pub find_function : List Entry → ℕ → Option Entry
find_function [] function = none
find_function (e ∷ es) function =
    if e.function == function then some e else find_function es function

pub vendor_of : CpuId → Vendor
vendor_of c = vendor_from (find_function c.entries 0)

-- The first entry of that function and index with the register written.
pub replace : List Entry → ℕ → ℕ → Reg → ℕ → Option (List Entry)
replace [] function index reg value = none
replace (e ∷ es) function index reg value =
    let rest = replace es function index reg value in
    if is_at function index e
    then some (write_reg reg value e ∷ es)
    else elim rest [ none ↦ none | some es' ↦ some (e ∷ es') ]

pub blank : ℕ → ℕ → Entry
blank function index = record {
  function = function;
  index = index;
  flags = 1;
  eax = 0;
  ebx = 0;
  ecx = 0;
  edx = 0;
}

-- An entry that is not there is pushed, unless the table is full.
pub push : CpuId → Entry → CpuId
push c e = if ltb (length c.entries) c.most then record c { entries = c.entries ++ e ∷ [] } else c

pub set_found : CpuId → ℕ → ℕ → Reg → ℕ → Option (List Entry) → CpuId
set_found c function index reg value (some es) = record c { entries = es }
set_found c function index reg value none = push c (write_reg reg value (blank function index))

pub set : CpuId → ℕ → ℕ → Reg → ℕ → CpuId
set c function index reg value =
    set_found c function index reg value (replace c.entries function index reg value)

pub get_found : Reg → Option Entry → ℕ
get_found reg none = 0
get_found reg (some e) = read_reg reg e

pub get : CpuId → ℕ → ℕ → Reg → ℕ
get c function index reg = get_found reg (find c.entries function index)

-- Calls of `set` in a row.
pub record Write : Type 0 where
  pub function : ℕ
  pub index : ℕ
  pub reg : Reg
  pub value : ℕ

pub set_all : CpuId → List Write → CpuId
set_all c [] = c
set_all c (w ∷ ws) = set_all (set c w.function w.index w.reg w.value) ws

-- `x` with its `width` bits from `at` on replaced by the lowest of `v`.
abbrev pub with_bits : ℕ → ℕ → ℕ → ℕ → ℕ
with_bits x at width v =
    x / 2 ^ (at + width) * 2 ^ (at + width) + v % 2 ^ width * 2 ^ at + x % 2 ^ at

-- `level_type << 8 | level`
abbrev pub topology_level : ℕ → ℕ → ℕ
topology_level level level_type = level_type * 256 + level

-- `u32::BITS - x.leading_zeros()`: how many binary digits `x` has; the first argument bounds them.
pub digits : ℕ → ℕ → ℕ
digits zero x = 0
digits (suc n) x = let more = digits n (x / 2) + 1 in if x == 0 then 0 else more

-- What `patch_topology` works out first.
pub record Shape : Type 0 where
  pub logical : ℕ
  pub threads : ℕ
  pub cores : ℕ
  pub thread_width : ℕ
  pub package_shift : ℕ

pub shape_of : ℕ → ℕ → Shape
shape_of vcpu_count threads_per_core =
    let logical = max vcpu_count 1 in
    let threads = min (max threads_per_core 1) 2 in
    let cores = (logical + threads - 1) / threads in
    let thread_width = digits 32 (threads - 1) in
    record {
      logical = logical;
      threads = threads;
      cores = cores;
      thread_width = thread_width;
      package_shift = thread_width + digits 32 (cores - 1);
    }

pub leaf_1 : CpuId → Shape → ℕ → List Write
leaf_1 c s vcpu_id =
    record {
      function = 1;
      index = 0;
      reg = ebx;
      value = with_bits (with_bits (get c 1 0 ebx) 16 8 s.logical) 24 8 vcpu_id;
    }
    ∷ record { function = 1; index = 0; reg = edx; value = set_bit (get c 1 0 edx) 28 }
    ∷ []

abbrev pub level : ℕ → ℕ → ℕ → ℕ → ℕ → ℕ → List Write
level leaf n width count level_type id =
    record { function = leaf; index = n; reg = eax; value = width }
    ∷ record { function = leaf; index = n; reg = ebx; value = count }
    ∷ record { function = leaf; index = n; reg = ecx; value = topology_level n level_type }
    ∷ record { function = leaf; index = n; reg = edx; value = id }
    ∷ []

-- Subleaves 0, 1 and 2 of an extended topology leaf: threads, cores, and the end.
pub extended_leaf : Shape → ℕ → ℕ → List Write
extended_leaf s vcpu_id leaf =
    level leaf 0 s.thread_width s.threads 1 vcpu_id
    ++ (level leaf 1 s.package_shift s.logical 2 vcpu_id ++ level leaf 2 0 0 0 vcpu_id)

-- The subleaves of a function, with their EAX.
pub subleaves : List Entry → ℕ → List (ℕ × ℕ)
subleaves [] leaf = []
subleaves (e ∷ es) leaf =
    let rest = subleaves es leaf in if e.function == leaf then (e.index, e.eax) ∷ rest else rest

pub shared_eax : Shape → Bool → ℕ → ℕ
shared_eax s is_intel old =
    let sharing = if leb 3 (old / 32 % 8) then s.logical else s.threads in
    let shared = with_bits old 14 12 (sharing - 1) in
    if is_intel then with_bits shared 26 6 (s.cores - 1) else shared

-- A subleaf of type 0 is no cache.
pub share_all : Shape → Bool → ℕ → List (ℕ × ℕ) → CpuId → CpuId
share_all s is_intel leaf [] c = c
share_all s is_intel leaf ((index, old) ∷ rest) c =
    share_all s is_intel leaf rest
      (if old % 32 == 0 then c else set c leaf index eax (shared_eax s is_intel old))

pub patch_cache_sharing : CpuId → Shape → Vendor → CpuId
patch_cache_sharing c s amd = share_all s false 0x8000_001d (subleaves c.entries 0x8000_001d) c
patch_cache_sharing c s intel = share_all s true 4 (subleaves c.entries 4) c
patch_cache_sharing c s other = c

-- The value of the first write is read where it is made.
pub amd_leaves : CpuId → Shape → ℕ → List Write
amd_leaves c s vcpu_id =
    record {
      function = 0x8000_0008;
      index = 0;
      reg = ecx;
      value = with_bits (get c 0x8000_0008 0 ecx) 0 8 (s.logical - 1);
    }
    ∷ record { function = 0x8000_001e; index = 0; reg = eax; value = vcpu_id }
    ∷ record {
      function = 0x8000_001e;
      index = 0;
      reg = ebx;
      value = (s.threads - 1) * 256 + vcpu_id / 2 ^ s.thread_width % 256;
    }
    ∷ record { function = 0x8000_001e; index = 0; reg = ecx; value = 0 }
    ∷ record { function = 0x8000_001e; index = 0; reg = edx; value = 0 }
    ∷ []

pub patch_vendor : CpuId → Shape → ℕ → Vendor → CpuId
patch_vendor c s vcpu_id amd = set_all c (amd_leaves c s vcpu_id)
patch_vendor c s vcpu_id v = c

pub patch_topology : CpuId → ℕ → ℕ → ℕ → Vendor → CpuId
patch_topology c vcpu_id vcpu_count threads_per_core vendor =
    let s = shape_of vcpu_count threads_per_core in
    let told =
      set_all c
        (leaf_1 c s vcpu_id ++ (extended_leaf s vcpu_id 0xb ++ extended_leaf s vcpu_id 0x1f)) in
    patch_vendor (patch_cache_sharing told s vendor) s vcpu_id vendor

-- `KVM_CPUID_SIGNATURE`, `KVM_CPUID_FEATURES` and bit 0, `KVM_HINTS_REALTIME`.
pub advertise_dedicated : CpuId → CpuId × Bool
advertise_dedicated c =
    if ltb (get c 0x4000_0000 0 eax) 0x4000_0001
    then (c, false)
    else (set c 0x4000_0001 0 edx (set_bit (get c 0x4000_0001 0 edx) 0), true)
