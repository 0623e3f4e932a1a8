-- ===== src/Gpu/Dispatch.antt =====
-- What the worker makes of a command, `process_gpu_command` of virtio-devices/src/gpu/worker.rs: the
-- call of the device that it comes to, and what it reserves on the host for the guest's lists.
pub mod Reserved
pub mod Attached
mod Tests
use nesbox.Base.{
  ℕ, zero, suc, ◌+◌, ◌*◌, ◌/◌, Bool, true, ◌&&◌, Option, none, some, List, [], ◌∷◌, take, drop, ltb,
  ◌==◌, if◌then◌else◌, checked_add64, checked_mul64, ◌>>=◌,
}
use nesbox.Transport.{from_le_bytes}
use nesbox.Gpu.Chains.{Reader, read_exact, reader_available_bytes}
use nesbox.Gpu.Protocol.{
  CtrlHdr, Kind, GpuCommand, get_display_info, get_edid, resource_create_2d, resource_unref,
  set_scanout, set_scanout_blob, resource_flush, transfer_to_host_2d, resource_attach_backing,
  resource_detach_backing, get_capset_info, get_capset, ctx_create, ctx_destroy,
  ctx_attach_resource, ctx_detach_resource, resource_create_3d, transfer_to_host_3d,
  transfer_from_host_3d, cmd_submit_3d, resource_create_blob, resource_map_blob,
  resource_unmap_blob, update_cursor, move_cursor, resource_assign_uuid,
}
use nesbox.Gpu.Protocol.Responses.{GpuResponse, ok_no_data, err_unspec, err_invalid_parameter}

-- The renderer's own types.
pub record Rect : Type 0 where
  pub x : ℕ
  pub y : ℕ
  pub width : ℕ
  pub height : ℕ

pub record Create3d : Type 0 where
  pub target : ℕ
  pub format : ℕ
  pub bind : ℕ
  pub width : ℕ
  pub height : ℕ
  pub depth : ℕ
  pub array_size : ℕ
  pub last_level : ℕ
  pub nr_samples : ℕ
  pub flags : ℕ

-- `new_2d` is the renderer's, of a rectangle and an offset.
pub data Transfer : Type 0 where
  new_2d : Rect → ℕ → Transfer
  new_3d : (x y z w h d level stride layer_stride offset : ℕ) → Transfer

pub record CreateBlob : Type 0 where
  pub blob_mem : ℕ
  pub blob_flags : ℕ
  pub blob_id : ℕ
  pub size : ℕ

-- The calls of `VirtioGpu`. A context's name is left as its bytes; a backing is a list of addresses
-- and lengths.
pub data Call : Type 0 where
  display_info : Call
  edid : ℕ → Call
  create_3d : ℕ → Create3d → Call
  unref_resource : ℕ → Call
  scanout : (scanout_id resource_id width height : ℕ) → Call
  flush_resource : ℕ → Rect → Call
  transfer_write : ℕ → ℕ → Transfer → Call
  transfer_read : ℕ → ℕ → Transfer → Call
  attach_backing : ℕ → List (ℕ × ℕ) → Call
  detach_backing : ℕ → Call
  assign_uuid : ℕ → Call
  capset_info : ℕ → Call
  capset : ℕ → ℕ → Call
  create_context : ℕ → ℕ → List ℕ → Call
  destroy_context : ℕ → Call
  context_attach_resource : ℕ → ℕ → Call
  context_detach_resource : ℕ → ℕ → Call
  submit_command : ℕ → List ℕ → List ℕ → Call
  create_blob : ℕ → ℕ → CreateBlob → List (ℕ × ℕ) → Call
  map_blob : ℕ → ℕ → Call
  unmap_blob : ℕ → Call

-- An answer at once, or a call; and the bytes of the vectors sized before it.
pub data Action : Type 0 where
  answered : GpuResponse → Action
  called : Call → Action

pub record Dispatched : Type 0 where
  pub reserved : ℕ
  pub action : Action

-- The field of four or eight bytes at an offset of a struct.
pub word : List ℕ → ℕ → ℕ
word body at = from_le_bytes (take 4 (drop at body))

pub double : List ℕ → ℕ → ℕ
double body at = from_le_bytes (take 8 (drop at body))

abbrev pub rect_of : List ℕ → Rect
rect_of b = record { x = word b 0; y = word b 4; width = word b 8; height = word b 12 }

abbrev pub transfer_of : List ℕ → Transfer
transfer_of b =
    new_3d (word b 0) (word b 4) (word b 8) (word b 12) (word b 16) (word b 20) (word b 36)
      (word b 40) (word b 44) (double b 24)

abbrev pub create_3d_of : List ℕ → Create3d
create_3d_of b = record {
  target = word b 4;
  format = word b 8;
  bind = word b 12;
  width = word b 16;
  height = word b 20;
  depth = word b 24;
  array_size = word b 28;
  last_level = word b 32;
  nr_samples = word b 36;
  flags = word b 40;
}

abbrev pub mem_entry_size : ℕ
mem_entry_size = 16

abbrev pub at_once : GpuResponse → Dispatched
at_once response = record { reserved = 0; action = answered response }

abbrev pub calls : Call → Dispatched
calls c = record { reserved = 0; action = called c }

-- Entries of `virtio_gpu_mem_entry`, until one cannot be read.
pub read_entries : ℕ → Reader → Option (List (ℕ × ℕ))
read_entries zero r = some []
read_entries (suc n) r = read_exact r mem_entry_size >>= λ (bytes, r').
    read_entries n r' >>= λ es. some ((double bytes 0, word bytes 8) ∷ es)

pub read_fences : ℕ → Reader → Option (List ℕ × Reader)
read_fences zero r = some ([], r)
read_fences (suc n) r = read_exact r 8 >>= λ (bytes, r').
    read_fences n r' >>= λ (ids, r''). some (double bytes 0 ∷ ids, r'')

-- The vector for the entries is sized by their number.
pub with_entries : ℕ → (List (ℕ × ℕ) → Call) → Option (List (ℕ × ℕ)) → Dispatched
with_entries n c none = record { reserved = 16 * n; action = answered err_unspec }
with_entries n c (some es) = record { reserved = 16 * n; action = called (c es) }

-- The code makes the comparison with what the chain carries twice.
pub attach : Reader → ℕ → ℕ → Dispatched
attach r resource_id nr_entries =
    if reader_available_bytes r == 0
    then at_once err_unspec
    else if ltb (reader_available_bytes r / mem_entry_size) nr_entries
    then at_once err_unspec
    else with_entries nr_entries (attach_backing resource_id) (read_entries nr_entries r)

abbrev pub claimed : ℕ → ℕ → Option ℕ
claimed fences size = checked_mul64 fences 8 >>= λ n. checked_add64 n size

-- `claimed.is_none_or(|n| n > available)`
pub exceeds : ℕ → Option ℕ → Bool
exceeds available none = true
exceeds available (some n) = ltb available n

pub submit_buffer : CtrlHdr → ℕ → ℕ → List ℕ → Option (List ℕ × Reader) → Dispatched
submit_buffer h fences size ids none = record {
  reserved = 8 * fences + size;
  action = answered err_invalid_parameter;
}
submit_buffer h fences size ids (some (bytes, r)) = record {
  reserved = 8 * fences + size;
  action = called (submit_command h.ctx_id bytes ids);
}

pub submit_fences : CtrlHdr → ℕ → ℕ → Option (List ℕ × Reader) → Dispatched
submit_fences h fences size none = record { reserved = 8 * fences; action = answered err_unspec }
submit_fences h fences size (some (ids, r)) = submit_buffer h fences size ids (read_exact r size)

pub submit_3d : Reader → CtrlHdr → ℕ → ℕ → Dispatched
submit_3d r h fences size =
    if reader_available_bytes r == 0
    then at_once ok_no_data
    else if exceeds (reader_available_bytes r) (claimed fences size)
    then at_once err_invalid_parameter
    else submit_fences h fences size (read_fences fences r)

pub create_blob_with : Reader → CtrlHdr → ℕ → CreateBlob → ℕ → Dispatched
create_blob_with r h resource_id blob nr_entries =
    if reader_available_bytes r == 0 && ltb 0 nr_entries
    then at_once err_unspec
    else with_entries nr_entries (create_blob h.ctx_id resource_id blob) (read_entries nr_entries r)

-- The two numbers are the renderer's for a texture of two dimensions that is drawn to.
module _ (pipe_texture_2d pipe_bind_render_target : ℕ) where
  pub dispatch : CtrlHdr → Kind → List ℕ → Reader → Dispatched
  dispatch h get_display_info b r = calls display_info
  dispatch h get_edid b r = calls (edid (word b 0))
  dispatch h resource_create_2d b r = calls (
      create_3d (word b 0) (record {
        target = pipe_texture_2d;
        format = word b 4;
        bind = pipe_bind_render_target;
        width = word b 8;
        height = word b 12;
        depth = 1;
        array_size = 1;
        last_level = 0;
        nr_samples = 0;
        flags = 0;
      }))
  dispatch h resource_unref b r = calls (unref_resource (word b 0))
  dispatch h set_scanout b r = calls (scanout (word b 16) (word b 20) (word b 8) (word b 12))
  dispatch h set_scanout_blob b r = at_once err_unspec
  dispatch h resource_flush b r = calls (flush_resource (word b 16) (rect_of b))
  dispatch h transfer_to_host_2d b r =
      calls (transfer_write 0 (word b 24) (new_2d (rect_of b) (double b 16)))
  dispatch h resource_attach_backing b r = attach r (word b 0) (word b 4)
  dispatch h resource_detach_backing b r = calls (detach_backing (word b 0))
  dispatch h get_capset_info b r = calls (capset_info (word b 0))
  dispatch h get_capset b r = calls (capset (word b 0) (word b 4))
  dispatch h ctx_create b r = calls (create_context h.ctx_id (word b 4) (take 64 (drop 8 b)))
  dispatch h ctx_destroy b r = calls (destroy_context h.ctx_id)
  dispatch h ctx_attach_resource b r = calls (context_attach_resource h.ctx_id (word b 0))
  dispatch h ctx_detach_resource b r = calls (context_detach_resource h.ctx_id (word b 0))
  dispatch h resource_create_3d b r = calls (create_3d (word b 0) (create_3d_of b))
  dispatch h transfer_to_host_3d b r = calls (transfer_write h.ctx_id (word b 32) (transfer_of b))
  dispatch h transfer_from_host_3d b r = calls (transfer_read h.ctx_id (word b 32) (transfer_of b))
  dispatch h cmd_submit_3d b r = submit_3d r h (word b 4) (word b 0)
  dispatch h resource_create_blob b r =
      create_blob_with r h (word b 0)
        (record {
          blob_mem = word b 4;
          blob_flags = word b 8;
          blob_id = double b 16;
          size = double b 24;
        })
        (word b 12)
  dispatch h resource_map_blob b r = calls (map_blob (word b 0) (double b 8))
  dispatch h resource_unmap_blob b r = calls (unmap_blob (word b 0))
  dispatch h update_cursor b r = at_once ok_no_data
  dispatch h move_cursor b r = at_once ok_no_data
  dispatch h resource_assign_uuid b r = calls (assign_uuid (word b 0))

  pub process_gpu_command : CtrlHdr → GpuCommand → Reader → Dispatched
  process_gpu_command h c r = dispatch h c.kind c.body r
