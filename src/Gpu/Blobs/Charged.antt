-- ===== src/Gpu/Blobs/Charged.antt =====
-- The window quota charges exactly the blob resources that the guest can reach.
use nesbox.Base.{
  ℕ, ◌+◌, ◌≤◌, ◌<◌, ◌≡◌, ◌⊎◌, refl, ap, arith, inl, inr, Bool, true, false, ◌||◌, not, Option, none,
  some, List, [], ◌∷◌, ltb, ◌==◌, if◌then◌else◌, u32_mod, u64_mod, saturating_add64, if-holds,
  if-cases,
}
use mathlib.Core.Option.{some_inj}
use nesbox.Gpu.Protocol.Responses.{GpuResponse}
use nesbox.Window.{WindowQuota, try_map, charge, refuse, release, publish}
use nesbox.Window.Accounting.{try_map-cases}
use nesbox.Gpu.Blobs.{
  VirtioGpuResource, Blobs, Host, find_resource, insert_resource, remove_resource, is_mapped,
  made_visible, mapped_as, map_charged, map_answered, unmapped,
}

-- What a resource occupies of the window.
unfoldable pub bytes_of : VirtioGpuResource → ℕ
bytes_of r = if is_mapped r then r.size else 0

unfoldable pub one_of : VirtioGpuResource → ℕ
one_of r = if is_mapped r then 1 else 0

-- A quantity summed over the resources.
unfoldable pub total : (VirtioGpuResource → ℕ) → List (ℕ × VirtioGpuResource) → ℕ
total f [] = 0
total f (r ∷ rs) = f r.1 + total f rs

pub total-insert_new :
    (f : VirtioGpuResource → ℕ) (rs : List (ℕ × VirtioGpuResource)) (id : ℕ)
    (new : VirtioGpuResource)
    → find_resource rs id ≡ none
    → total f (insert_resource rs id new) ≡ total f rs + f new
unfolding total find_resource insert_resource
total-insert_new f [] id new h = omega arith
total-insert_new f (r ∷ rs) id new h = elim (if-cases (r.0 == id) h) [
  | inl t ↦ cc
  | inr t ↦ rw t.0 (omega (arith, total-insert_new f rs id new t.1))
]

pub total-insert_old :
    (f : VirtioGpuResource → ℕ) (rs : List (ℕ × VirtioGpuResource)) (id : ℕ)
    (new : VirtioGpuResource) {old : VirtioGpuResource}
    → find_resource rs id ≡ some old
    → total f (insert_resource rs id new) + f old ≡ total f rs + f new
unfolding total find_resource insert_resource
total-insert_old f [] id new h = cc
total-insert_old f (r ∷ rs) id new {old} h = elim (if-cases (r.0 == id) h) [
  | inl t ↦ rw t.0 (omega (arith, ap f (some_inj.0 t.1)))
  | inr t ↦ rw t.0 (omega (arith, total-insert_old f rs id new t.1))
]

pub total-remove :
    (f : VirtioGpuResource → ℕ) (rs : List (ℕ × VirtioGpuResource)) (id : ℕ)
    {old : VirtioGpuResource}
    → find_resource rs id ≡ some old
    → total f (remove_resource rs id) + f old ≡ total f rs
unfolding total find_resource remove_resource
total-remove f [] id h = cc
total-remove f (r ∷ rs) id {old} h = elim (if-cases (r.0 == id) h) [
  | inl t ↦ rw t.0 (omega (arith, ap f (some_inj.0 t.1)))
  | inr t ↦ rw t.0 (omega (arith, total-remove f rs id t.1))
]

-- The quota's numbers are those of the mapped resources, within the limits that are set.
pub record IsCharged (s : Blobs) : Type 0 where
  pub used_total : s.window.used ≡ total bytes_of s.resources
  pub mappings_total : s.window.mappings ≡ total one_of s.resources
  pub under_limit : s.window.used ≤ s.window.limit_bytes
  pub under_count : s.window.mappings ≤ s.window.max_mappings
  pub bytes_limit : (0 < s.window.limit_bytes) × (s.window.limit_bytes + 1 < u64_mod)
  pub count_limit : (0 < s.window.max_mappings) × (s.window.max_mappings < u32_mod)

unfoldable pub Holds : Blobs × GpuResponse → Type 0
Holds r = IsCharged r.0

pub weights :
    (r : VirtioGpuResource) (offset : ℕ) (placed : Bool)
    → (bytes_of (mapped_as r offset placed) ≡ r.size)
      × (one_of (mapped_as r offset placed) ≡ 1)
      × (bytes_of (unmapped r) ≡ 0)
      × (one_of (unmapped r) ≡ 0)
unfolding bytes_of one_of is_mapped
weights r offset placed = (refl, refl, refl, refl)

pub weightless : (r : VirtioGpuResource) → is_mapped r ≡ false → (bytes_of r ≡ 0) × (one_of r ≡ 0)
unfolding bytes_of one_of
weightless r h = rw h (refl, refl)

pub weighted : (r : VirtioGpuResource) → is_mapped r ≡ true → (bytes_of r ≡ r.size) × (one_of r ≡ 1)
unfolding bytes_of one_of
weighted r h = rw h (refl, refl)

-- A charge that was granted is in the numbers, whatever its call does next: the mapping is made, or
-- the charge is given back.
record IsGranted (s : Blobs) (size : ℕ) (w : WindowQuota) : Type 0 where
  used : w.used ≡ s.window.used + size
  mappings : w.mappings ≡ s.window.mappings + 1
  used_fits : w.used ≤ w.limit_bytes
  mappings_fit : w.mappings ≤ w.max_mappings
  limits : (w.limit_bytes ≡ s.window.limit_bytes) × (w.max_mappings ≡ s.window.max_mappings)

given_back :
    (s : Blobs) (size : ℕ) (w : WindowQuota)
    → IsCharged s
    → IsGranted s size w
    → IsCharged (record s { window = release w size })
unfolding release publish
given_back s size w c a = record {
  used_total = omega (arith, a.used, c.used_total);
  mappings_total = omega (arith, a.mappings, c.mappings_total);
  under_limit = omega (arith, a.used, a.limits.0, c.under_limit);
  under_count = omega (arith, a.mappings, a.limits.1, c.under_count);
  bytes_limit =
      (omega (arith, a.limits.0, c.bytes_limit.0), omega (arith, a.limits.0, c.bytes_limit.1));
  count_limit =
      (omega (arith, a.limits.1, c.count_limit.0), omega (arith, a.limits.1, c.count_limit.1));
}

made :
    (s : Blobs) (id : ℕ) (r : VirtioGpuResource) (offset : ℕ) (placed : Bool) (w : WindowQuota)
    → IsCharged s
    → IsGranted s r.size w
    → find_resource s.resources id ≡ some r
    → is_mapped r ≡ false
    → IsCharged (record {
      resources = insert_resource s.resources id (mapped_as r offset placed);
      window = w;
    })
made s id r offset placed w c a f free =
    let m = mapped_as r offset placed in
    let k = weights r offset placed in
    let z = weightless r free in
    record {
      used_total =
          omega
            (arith, a.used, c.used_total, total-insert_old bytes_of s.resources id m f, k.0, z.0);
      mappings_total = omega (
        arith,
        a.mappings,
        c.mappings_total,
        total-insert_old one_of s.resources id m f,
        k.1,
        z.1,
      );
      under_limit = a.used_fits;
      under_count = a.mappings_fit;
      bytes_limit =
          (omega (arith, a.limits.0, c.bytes_limit.0), omega (arith, a.limits.0, c.bytes_limit.1));
      count_limit =
          (omega (arith, a.limits.1, c.count_limit.0), omega (arith, a.limits.1, c.count_limit.1));
    }

charge-IsGranted :
    (s : Blobs) (size : ℕ)
    → IsCharged s
    → (s.window.limit_bytes ≡ 0) ⊎ (saturating_add64 s.window.used size ≤ s.window.limit_bytes)
    → (s.window.max_mappings ≡ 0) ⊎ (s.window.mappings < s.window.max_mappings)
    → IsGranted s size (charge s.window size)
unfolding charge publish
charge-IsGranted s size c fits room = record {
  used = ground (arith, c.bytes_limit, fits);
  mappings = ground (arith, c.count_limit, room);
  used_fits = ground (arith, c.bytes_limit, fits);
  mappings_fit = ground (arith, c.count_limit, room);
  limits = (refl, refl);
}

map_charged-Holds :
    (s : Blobs) (id : ℕ) (r : VirtioGpuResource) (region_size offset : ℕ) (h : Host)
    (w : WindowQuota) (info : Option ℕ)
    → IsCharged s
    → IsGranted s r.size w
    → find_resource s.resources id ≡ some r
    → is_mapped r ≡ false
    → Holds (map_charged s id r region_size offset h w info)
unfolding map_charged Holds
map_charged-Holds s id r region_size offset h w none c a f free = given_back s r.size w c a
map_charged-Holds s id r region_size offset h w (some info) c a f free =
    if-holds Holds (ltb region_size (saturating_add64 offset r.size) || not (made_visible r h))
      (λ e. given_back s r.size w c a) (λ e. made s id r offset h.placed w c a f free)

pub map_free-Holds :
    (s : Blobs) (id : ℕ) (r : VirtioGpuResource) (region_size offset : ℕ) (h : Host)
    → IsCharged s
    → find_resource s.resources id ≡ some r
    → is_mapped r ≡ false
    → Holds (map_answered s id r region_size offset h (try_map s.window r.size))
unfolding map_answered Holds refuse publish
map_free-Holds s id r region_size offset h c f free = elim (try_map-cases s.window r.size) [
  | inl (why, e) ↦ rw e (record {
    used_total = c.used_total;
    mappings_total = c.mappings_total;
    under_limit = c.under_limit;
    under_count = c.under_count;
    bytes_limit = c.bytes_limit;
    count_limit = c.count_limit;
  })
  | inr (e, fits, room) ↦ rw e (
      map_charged-Holds s id r region_size offset h (charge s.window r.size) h.map_info c
        (charge-IsGranted s r.size c fits room) f free)
]
