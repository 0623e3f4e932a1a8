-- ===== src/Gpu/Scanouts.antt =====
-- Scanouts and displays, from virtio-devices/src/gpu/virtio_gpu.rs: which resource each of the 16
-- scanouts shows, kept there and in a bitmap of each resource.
pub mod Shown
use nesbox.Base.{ℕ, true, Option, none, some, List, map, ◌==◌, if◌then◌else◌, get_elem?, set}
use nesbox.Gpu.Blobs.{VirtioGpuResource, enable, disable, find_resource, insert_resource}
use nesbox.Gpu.Protocol.Responses.{
  GpuResponse, ok_no_data, ok_display_info, ok_edid, err_invalid_scanout_id,
  err_invalid_resource_id,
}

-- A display: its size, and the EDID that is made of it.
pub record Display : Type 0 where
  pub width : ℕ
  pub height : ℕ
  pub edid_bytes : List ℕ

pub record Screens : Type 0 where
  pub scanouts : List (Option ℕ)
  pub resources : List (ℕ × VirtioGpuResource)
  pub displays : List Display

unfoldable pub display_info : Screens → GpuResponse
display_info s = ok_display_info (map (λ (d : Display). (d.width, d.height, true)) s.displays)

unfoldable pub edid_of : Option Display → GpuResponse
edid_of none = err_invalid_scanout_id
edid_of (some d) = ok_edid d.edid_bytes

unfoldable pub get_edid : Screens → ℕ → GpuResponse
get_edid s scanout_id = edid_of (get_elem? s.displays scanout_id)

-- The old resource no longer has the scanout in its bitmap, if it is there.
pub detach : List (ℕ × VirtioGpuResource) → ℕ → Option ℕ → List (ℕ × VirtioGpuResource)
detach rs scanout_id none = rs
detach rs scanout_id (some old) = elim (find_resource rs old) [
  | none ↦ rs
  | some r ↦ insert_resource rs old (record r { scanouts = disable r.scanouts scanout_id })
]

pub show : Screens → ℕ → ℕ → Option VirtioGpuResource → Screens × GpuResponse
show s scanout_id resource_id none = (s, err_invalid_resource_id)
show s scanout_id resource_id (some r) = (
  record s {
    scanouts = set s.scanouts scanout_id (some resource_id);
    resources =
        insert_resource s.resources resource_id
          (record r { scanouts = enable r.scanouts scanout_id });
  },
  ok_no_data,
)

pub set_found : Screens → ℕ → ℕ → Option (Option ℕ) → Screens × GpuResponse
set_found s scanout_id resource_id none = (s, err_invalid_scanout_id)
set_found s scanout_id resource_id (some old) =
    let rs = detach s.resources scanout_id old in
    if resource_id == 0
    then (record s { scanouts = set s.scanouts scanout_id none; resources = rs }, ok_no_data)
    else show (record s { resources = rs }) scanout_id resource_id (find_resource rs resource_id)

pub set_scanout : Screens → ℕ → ℕ → Screens × GpuResponse
set_scanout s scanout_id resource_id =
    set_found s scanout_id resource_id (get_elem? s.scanouts scanout_id)

unfoldable pub flush_resource : Screens → ℕ → GpuResponse
flush_resource s resource_id =
    if resource_id == 0 then ok_no_data else elim (find_resource s.resources resource_id) [
      | none ↦ err_invalid_resource_id
      | some r ↦ ok_no_data
    ]
