-- ===== src/Cpuid/Tests.antt =====
-- A table like a host's: a vendor, leaf 1, one cache leaf, and KVM's.
use nesbox.Base.{ℕ, ◌+◌, ◌≤◌, ◌≡◌, refl, [], ◌∷◌, length, inr, arith, set_bit, ◌/◌, ◌%◌, ◌^◌}
use nesbox.Cpuid.{
  CpuId, Entry, amd, eax, ebx, edx, vendor_of, vendor_from, find_function, find, replace, blank,
  push, set, set_found, get, get_found, read_reg, write_reg, set_all, digits, shape_of, leaf_1,
  extended_leaf, subleaves, shared_eax, share_all, patch_cache_sharing, amd_leaves, patch_vendor,
  patch_topology, advertise_dedicated,
}
use nesbox.Cpuid.Topology.{enumerate, patch_topology-enumerate}

abbrev entry : ℕ → ℕ → ℕ → ℕ → ℕ → ℕ → Entry
entry f i a b c d = record {
  function = f;
  index = i;
  flags = 0;
  eax = a;
  ebx = b;
  ecx = c;
  edx = d;
}

host : CpuId
host = record {
  entries =
      entry 0 0 16 0x68747541 0x444d4163 0x69746e65
      ∷ entry 1 0 0 0x0820_0800 0 0
      ∷ entry 0x8000_001d 0 0x0000_4121 0 0 0
      ∷ entry 0x8000_001d 3 0x0003_c163 0 0 0
      ∷ entry 0x4000_0000 0 0x4000_0001 0 0 0
      ∷ [];
  most = 80;
}

room : length host.entries + 26 ≤ host.most
unfolding host
room = omega arith

patch_topology-enumerate_example :
    enumerate (patch_topology host 5 7 2 amd) 0x1f
    ≡ record { socket = 0; core = 5 / 2; thread = 5 % 2; levels = (1, 2, 0) }
patch_topology-enumerate_example =
    patch_topology-enumerate host 5 7 2 0x1f amd room (inr refl) (omega arith) (omega arith)

vendor_found : vendor_of host ≡ amd
unfolding vendor_of vendor_from find_function host
vendor_found = refl

-- The initial APIC id and the count of leaf 1, and the flag that makes them be read.
leaf_1_told :
    (get (patch_topology host 5 7 1 amd) 1 0 ebx ≡ 0x0507_0800)
    × (get (patch_topology host 5 7 1 amd) 1 0 edx ≡ 2 ^ 28)
unfolding patch_topology host shape_of digits leaf_1 extended_leaf set_all set set_found replace
    push blank write_reg get get_found find read_reg patch_vendor patch_cache_sharing share_all
    subleaves shared_eax amd_leaves set_bit
leaf_1_told = (refl, refl)

-- A low cache is the core's own, and the last is everyone's.
caches_told :
    (get (patch_topology host 5 7 2 amd) 0x8000_001d 0 eax ≡ 0x0000_4121)
    × (get (patch_topology host 5 7 2 amd) 0x8000_001d 3 eax ≡ 0x0001_8163)
unfolding patch_topology host shape_of digits leaf_1 extended_leaf set_all set set_found replace
    push blank write_reg get get_found find read_reg patch_vendor patch_cache_sharing share_all
    subleaves shared_eax amd_leaves set_bit
caches_told = (refl, refl)

dedicated : get (advertise_dedicated host).0 0x4000_0001 0 edx ≡ 1
unfolding advertise_dedicated host set set_found replace push blank write_reg get get_found find
    read_reg set_bit
dedicated = refl
