-- ===== src/Gpu/Blobs.antt =====
-- Blob resources and the host-visible window, from virtio-devices/src/gpu/virtio_gpu.rs. The answers
-- of the renderer and of the memory slots are arguments.
pub mod Charged
pub mod Quota
use nesbox.Base.{
  ℕ, Bool, true, false, ◌&&◌, ◌||◌, not, Option, none, some, List, [], ◌∷◌, ltb, ◌==◌,
  if◌then◌else◌, saturating_add64, set_bit, clear_bit,
}
use nesbox.Gpu.Protocol.Responses.{
  GpuResponse, ok_no_data, ok_map_info, ok_resource_plane_info, err_unspec, err_invalid_resource_id,
}
use nesbox.Window.{WindowQuota, Answer, granted, refused, try_map, release}

-- The bitmap of enabled scanouts.
abbrev pub enable : ℕ → ℕ → ℕ
enable scanouts id = set_bit scanouts id

abbrev pub disable : ℕ → ℕ → ℕ
disable scanouts id = clear_bit scanouts id

abbrev pub has_any_enabled : ℕ → Bool
has_any_enabled scanouts = not (scanouts == 0)

pub record VirtioGpuResource : Type 0 where
  pub scanouts : ℕ
  pub size : ℕ
  pub shmem_offset : Option ℕ
  pub rutabaga_external_mapping : Bool
  pub placed : Bool

unfoldable pub new_resource : ℕ → VirtioGpuResource
new_resource size = record {
  scanouts = 0;
  size = size;
  shmem_offset = none;
  rutabaga_external_mapping = false;
  placed = false;
}

-- The part of the device that these calls change.
pub record Blobs : Type 0 where
  pub resources : List (ℕ × VirtioGpuResource)
  pub window : WindowQuota

-- What the host does in one call: the masked `map_info`, whether the resource could be placed, the
-- size of the renderer's own mapping, whether its slot could be made, whether the mapping could be
-- taken from the guest, whether the renderer made or dropped the resource, the error if it did not,
-- and its description of the resource's planes.
pub record Host : Type 0 where
  pub map_info : Option ℕ
  pub placed : Bool
  pub mapping : Option ℕ
  pub published : Bool
  pub withdrawn : Bool
  pub renderer : Bool
  pub error : GpuResponse
  pub query : Option (ℕ × List (ℕ × ℕ))

-- What a created resource is answered with: the renderer's description of its planes, if it has one.
unfoldable pub result_from_query : Option (ℕ × List (ℕ × ℕ)) → GpuResponse
result_from_query none = ok_no_data
result_from_query (some (modifier, planes)) = ok_resource_plane_info modifier planes

unfoldable pub find_resource : List (ℕ × VirtioGpuResource) → ℕ → Option VirtioGpuResource
find_resource [] id = none
find_resource (r ∷ rs) id = if r.0 == id then some r.1 else find_resource rs id

unfoldable pub insert_resource :
    List (ℕ × VirtioGpuResource) → ℕ → VirtioGpuResource → List (ℕ × VirtioGpuResource)
insert_resource [] id new = (id, new) ∷ []
insert_resource (r ∷ rs) id new =
    if r.0 == id then (id, new) ∷ rs else r ∷ insert_resource rs id new

pub remove_resource : List (ℕ × VirtioGpuResource) → ℕ → List (ℕ × VirtioGpuResource)
remove_resource [] id = []
remove_resource (r ∷ rs) id = if r.0 == id then rs else r ∷ remove_resource rs id

-- `mapped_at` is `some` exactly then.
pub is_mapped : VirtioGpuResource → Bool
is_mapped r = elim r.shmem_offset [ none ↦ false | some offset ↦ true ]

-- `resource_create_blob`, once the renderer has answered.
pub resource_create_blob : Blobs → ℕ → ℕ → Host → Blobs × GpuResponse
resource_create_blob s id size h =
    if h.renderer
    then (
      record s { resources = insert_resource s.resources id (new_resource size) },
      result_from_query h.query,
    )
    else (s, h.error)

-- Whether the guest can reach the resource now: placed in the window, or by a slot of its own.
unfoldable pub made_visible : VirtioGpuResource → Host → Bool
made_visible r h =
    h.placed || elim h.mapping [ none ↦ false | some size ↦ not (ltb size r.size) && h.published ]

abbrev pub mapped_as : VirtioGpuResource → ℕ → Bool → VirtioGpuResource
mapped_as r offset placed = record r {
  shmem_offset = some offset;
  rutabaga_external_mapping = not placed;
  placed = placed;
}

-- After the charge; every failure gives it back.
pub map_charged :
    Blobs → ℕ → VirtioGpuResource → ℕ → ℕ → Host → WindowQuota → Option ℕ → Blobs × GpuResponse
map_charged s id r region_size offset h w none =
    (record s { window = release w r.size }, err_unspec)
map_charged s id r region_size offset h w (some info) =
    if ltb region_size (saturating_add64 offset r.size) || not (made_visible r h)
    then (record s { window = release w r.size }, err_unspec)
    else (
      record {
        resources = insert_resource s.resources id (mapped_as r offset h.placed);
        window = w;
      },
      ok_map_info info,
    )

pub map_answered :
    Blobs → ℕ → VirtioGpuResource → ℕ → ℕ → Host → WindowQuota × Answer → Blobs × GpuResponse
map_answered s id r region_size offset h (w, refused why) = (record s { window = w }, err_unspec)
map_answered s id r region_size offset h (w, granted) =
    map_charged s id r region_size offset h w h.map_info

pub map_found : Blobs → ℕ → ℕ → ℕ → Host → Option VirtioGpuResource → Blobs × GpuResponse
map_found s id region_size offset h none = (s, err_invalid_resource_id)
map_found s id region_size offset h (some r) =
    if is_mapped r
    then (s, err_unspec)
    else map_answered s id r region_size offset h (try_map s.window r.size)

pub resource_map_blob : Blobs → ℕ → ℕ → ℕ → Host → Blobs × GpuResponse
resource_map_blob s id region_size offset h =
    map_found s id region_size offset h (find_resource s.resources id)

abbrev pub unmapped : VirtioGpuResource → VirtioGpuResource
unmapped r = record r { shmem_offset = none; rutabaga_external_mapping = false; placed = false }

pub unmap_found : Blobs → ℕ → Host → Option VirtioGpuResource → Blobs × GpuResponse
unmap_found s id h none = (s, err_invalid_resource_id)
unmap_found s id h (some r) = if not (is_mapped r) || not h.withdrawn then (s, err_unspec) else (
  record {
    resources = insert_resource s.resources id (unmapped r);
    window = release s.window r.size;
  },
  ok_no_data,
)

pub resource_unmap_blob : Blobs → ℕ → Host → Blobs × GpuResponse
resource_unmap_blob s id h = unmap_found s id h (find_resource s.resources id)

-- A mapped resource that cannot be taken from the guest is kept.
pub unref_found : Blobs → ℕ → Host → Option VirtioGpuResource → Blobs × GpuResponse
unref_found s id h none = (s, err_invalid_resource_id)
unref_found s id h (some r) =
    if has_any_enabled r.scanouts || (is_mapped r && not h.withdrawn) then (s, err_unspec) else (
      record {
        resources = remove_resource s.resources id;
        window = if is_mapped r then release s.window r.size else s.window;
      },
      (if h.renderer then ok_no_data else h.error),
    )

pub unref_resource : Blobs → ℕ → Host → Blobs × GpuResponse
unref_resource s id h = unref_found s id h (find_resource s.resources id)
