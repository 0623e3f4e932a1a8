-- ===== src/Gpu/Blobs/Quota.antt =====
-- Over a session of creating, mapping, unmapping and dropping resources, nothing leaks from the
-- window quota.
use nesbox.Base.{
  ℕ, ◌≡◌, refl, arith, inl, inr, false, ◌||◌, ◌&&◌, not, Option, none, some, List, [], ◌∷◌,
  if◌then◌else◌, Bool-cases, if-holds,
}
use nesbox.Gpu.Protocol.Responses.{GpuResponse}
use nesbox.Window.{release, publish}
use nesbox.Gpu.Blobs.{
  VirtioGpuResource, new_resource, Blobs, Host, find_resource, remove_resource, is_mapped,
  resource_create_blob, map_found, resource_map_blob, unmapped, unmap_found, resource_unmap_blob,
  unref_found, unref_resource, has_any_enabled,
}
use nesbox.Gpu.Blobs.Charged.{
  bytes_of, one_of, total-insert_new, total-insert_old, total-remove, IsCharged, Holds, weights,
  weighted, weightless, map_free-Holds,
}

create-Holds :
    (s : Blobs) (id size : ℕ) (h : Host)
    → IsCharged s
    → find_resource s.resources id ≡ none
    → Holds (resource_create_blob s id size h)
unfolding resource_create_blob Holds bytes_of one_of new_resource is_mapped
create-Holds s id size h c f =
    if-holds Holds h.renderer
      (λ e. record {
        used_total =
            omega
              (arith, c.used_total, total-insert_new bytes_of s.resources id (new_resource size) f);
        mappings_total =
            omega (
              arith,
              c.mappings_total,
              total-insert_new one_of s.resources id (new_resource size) f,
            );
        under_limit = c.under_limit;
        under_count = c.under_count;
        bytes_limit = c.bytes_limit;
        count_limit = c.count_limit;
      })
      (λ e. c)

map-Holds :
    (s : Blobs) (id region_size offset : ℕ) (h : Host)
    → IsCharged s
    → Holds (resource_map_blob s id region_size offset h)
unfolding resource_map_blob map_found Holds
map-Holds s id region_size offset h c = by_found (find_resource s.resources id) refl
  where
    by_found :
        (o : Option VirtioGpuResource)
        → find_resource s.resources id ≡ o
        → Holds (map_found s id region_size offset h o)
    by_found none f = c
    by_found (some r) f =
        if-holds Holds (is_mapped r) (λ e. c)
          (λ e. map_free-Holds s id r region_size offset h c f e)

unmap-Holds : (s : Blobs) (id : ℕ) (h : Host) → IsCharged s → Holds (resource_unmap_blob s id h)
unfolding resource_unmap_blob unmap_found Holds release publish
unmap-Holds s id h c = by_found (find_resource s.resources id) refl
  where
    by_found :
        (o : Option VirtioGpuResource)
        → find_resource s.resources id ≡ o
        → Holds (unmap_found s id h o)
    by_found none f = c
    by_found (some r) f =
        if-holds Holds (not (is_mapped r) || not h.withdrawn) (λ e. c)
          (λ e.
            let m = weighted r (ground (arith, e)) in
            let k = weights r 0 false in
            let b = total-insert_old bytes_of s.resources id (unmapped r) f in
            let n = total-insert_old one_of s.resources id (unmapped r) f in
            record {
              used_total = omega (arith, c.used_total, b, m.0, k.2);
              mappings_total = omega (arith, c.mappings_total, n, m.1, k.3);
              under_limit = omega (arith, c.under_limit);
              under_count = omega (arith, c.under_count);
              bytes_limit = c.bytes_limit;
              count_limit = c.count_limit;
            })

unref-Holds : (s : Blobs) (id : ℕ) (h : Host) → IsCharged s → Holds (unref_resource s id h)
unfolding unref_resource unref_found Holds release publish
unref-Holds s id h c = by_found (find_resource s.resources id) refl
  where
    gone :
        (r : VirtioGpuResource)
        → find_resource s.resources id ≡ some r
        → IsCharged (record {
          resources = remove_resource s.resources id;
          window = if is_mapped r then release s.window r.size else s.window;
        })
    gone r f =
        let b = total-remove bytes_of s.resources id f in
        let n = total-remove one_of s.resources id f in
        elim (Bool-cases (is_mapped r)) [
          | inl m ↦
              let k = weighted r m in
              rw m (record {
                used_total = omega (arith, c.used_total, b, k.0);
                mappings_total = omega (arith, c.mappings_total, n, k.1);
                under_limit = omega (arith, c.under_limit);
                under_count = omega (arith, c.under_count);
                bytes_limit = c.bytes_limit;
                count_limit = c.count_limit;
              })
          | inr m ↦
              let k = weightless r m in
              rw m (record {
                used_total = omega (arith, c.used_total, b, k.0);
                mappings_total = omega (arith, c.mappings_total, n, k.1);
                under_limit = c.under_limit;
                under_count = c.under_count;
                bytes_limit = c.bytes_limit;
                count_limit = c.count_limit;
              })
        ]

    by_found :
        (o : Option VirtioGpuResource)
        → find_resource s.resources id ≡ o
        → Holds (unref_found s id h o)
    by_found none f = c
    by_found (some r) f =
        if-holds Holds (has_any_enabled r.scanouts || (is_mapped r && not h.withdrawn)) (λ e. c)
          (λ e. gone r f)

-- A call of the guest on its resources, with what the host does in it.
pub data Call : Type 0 where
  create_blob : ℕ → ℕ → Host → Call
  map_blob : ℕ → ℕ → ℕ → Host → Call
  unmap_blob : ℕ → Host → Call
  unref : ℕ → Host → Call

pub call : Blobs → Call → Blobs × GpuResponse
call s (create_blob id size h) = resource_create_blob s id size h
call s (map_blob id region_size offset h) = resource_map_blob s id region_size offset h
call s (unmap_blob id h) = resource_unmap_blob s id h
call s (unref id h) = unref_resource s id h

pub call_all : Blobs → List Call → Blobs
call_all s [] = s
call_all s (c ∷ cs) = call_all (call s c).0 cs

-- The renderer makes a resource under a new id only.
unfoldable pub NewId : Blobs → Call → Type 0
NewId s (create_blob id size h) = find_resource s.resources id ≡ none
NewId s (map_blob id region_size offset h) = Unit
NewId s (unmap_blob id h) = Unit
NewId s (unref id h) = Unit

unfoldable pub NewIds : Blobs → List Call → Type 0
NewIds s [] = Unit
NewIds s (c ∷ cs) = NewId s c × NewIds (call s c).0 cs

call-IsCharged : (s : Blobs) (k : Call) → NewId s k → IsCharged s → IsCharged (call s k).0
unfolding call NewId Holds
call-IsCharged s (create_blob id size h) n c = create-Holds s id size h c n
call-IsCharged s (map_blob id region_size offset h) n c = map-Holds s id region_size offset h c
call-IsCharged s (unmap_blob id h) n c = unmap-Holds s id h c
call-IsCharged s (unref id h) n c = unref-Holds s id h c

-- Over any session in which ids are not used twice at a time, and whatever the host answers to each
-- call, the quota counts exactly the resources mapped into the window and their bytes, and stays
-- within its limits, where limits are set.
pub call_all-IsCharged :
    (s : Blobs) (cs : List Call) → NewIds s cs → IsCharged s → IsCharged (call_all s cs)
unfolding call_all NewIds
call_all-IsCharged s [] n c = c
call_all-IsCharged s (k ∷ cs) n c =
    call_all-IsCharged (call s k).0 cs n.1 (call-IsCharged s k n.0 c)
