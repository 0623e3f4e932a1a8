-- ===== src/Gpu/Protocol.antt =====
-- The commands of the control queue, from virtio-devices/src/gpu/protocol.rs. The
-- structs that follow a command's header are kept as their bytes.
pub mod Responses
pub mod Decoding
pub mod Encoding
use nesbox.Base.{
  ℕ, ◌+◌, Option, none, some, List, [], ◌∷◌, ◌++◌, take, drop, ◌==◌, if◌then◌else◌, get_or,
}
use nesbox.Transport.{from_le_bytes, write_val}
use nesbox.Gpu.Chains.{Reader, read_exact}

pub record CtrlHdr : Type 0 where
  pub type : ℕ
  pub flags : ℕ
  pub fence_id : ℕ
  pub ctx_id : ℕ
  pub ring_idx : ℕ

-- The 24 bytes of a header, least significant first; the last three are padding.
pub hdr_bytes : CtrlHdr → List ℕ
hdr_bytes h =
    write_val 4 h.type
    ++ (write_val 4 h.flags
        ++ (write_val 8 h.fence_id ++ (write_val 4 h.ctx_id ++ h.ring_idx ∷ 0 ∷ 0 ∷ 0 ∷ [])))

pub hdr_of : List ℕ → CtrlHdr
hdr_of bytes = record {
  type = from_le_bytes (take 4 bytes);
  flags = from_le_bytes (take 4 (drop 4 bytes));
  fence_id = from_le_bytes (take 8 (drop 8 bytes));
  ctx_id = from_le_bytes (take 4 (drop 16 bytes));
  ring_idx = get_or bytes 20 0;
}

pub data Kind : Type 0 where
  get_display_info get_edid resource_create_2d resource_unref set_scanout set_scanout_blob
        resource_flush transfer_to_host_2d resource_attach_backing resource_detach_backing
        get_capset_info get_capset ctx_create ctx_destroy ctx_attach_resource ctx_detach_resource
        resource_create_3d transfer_to_host_3d transfer_from_host_3d cmd_submit_3d
        resource_create_blob resource_map_blob resource_unmap_blob update_cursor move_cursor
        resource_assign_uuid :
      Kind

-- A `GpuCommand`: its variant, and the bytes of the struct in it.
pub record GpuCommand : Type 0 where
  pub kind : Kind
  pub body : List ℕ

-- The command types, and the sizes of the structs.
unfoldable pub type_of : Kind → ℕ
type_of get_display_info = 0x100
type_of get_edid = 0x10a
type_of resource_create_2d = 0x101
type_of resource_unref = 0x102
type_of set_scanout = 0x103
type_of set_scanout_blob = 0x10d
type_of resource_flush = 0x104
type_of transfer_to_host_2d = 0x105
type_of resource_attach_backing = 0x106
type_of resource_detach_backing = 0x107
type_of get_capset_info = 0x108
type_of get_capset = 0x109
type_of ctx_create = 0x200
type_of ctx_destroy = 0x201
type_of ctx_attach_resource = 0x202
type_of ctx_detach_resource = 0x203
type_of resource_create_3d = 0x204
type_of transfer_to_host_3d = 0x205
type_of transfer_from_host_3d = 0x206
type_of cmd_submit_3d = 0x207
type_of resource_create_blob = 0x10c
type_of resource_map_blob = 0x208
type_of resource_unmap_blob = 0x209
type_of update_cursor = 0x300
type_of move_cursor = 0x301
type_of resource_assign_uuid = 0x10b

unfoldable pub body_size : Kind → ℕ
body_size get_display_info = 0
body_size get_edid = 8
body_size resource_create_2d = 16
body_size resource_unref = 8
body_size set_scanout = 24
body_size set_scanout_blob = 72
body_size resource_flush = 24
body_size transfer_to_host_2d = 32
body_size resource_attach_backing = 8
body_size resource_detach_backing = 8
body_size get_capset_info = 8
body_size get_capset = 8
body_size ctx_create = 72
body_size ctx_destroy = 0
body_size ctx_attach_resource = 8
body_size ctx_detach_resource = 8
body_size resource_create_3d = 48
body_size transfer_to_host_3d = 48
body_size transfer_from_host_3d = 48
body_size cmd_submit_3d = 8
body_size resource_create_blob = 32
body_size resource_map_blob = 16
body_size resource_unmap_blob = 8
body_size update_cursor = 32
body_size move_cursor = 32
body_size resource_assign_uuid = 8

unfoldable pub kind_of : ℕ → Option Kind
kind_of c =
    if c == 0x100
    then some get_display_info
    else if c == 0x10a
    then some get_edid
    else if c == 0x101
    then some resource_create_2d
    else if c == 0x102
    then some resource_unref
    else if c == 0x103
    then some set_scanout
    else if c == 0x10d
    then some set_scanout_blob
    else if c == 0x104
    then some resource_flush
    else if c == 0x105
    then some transfer_to_host_2d
    else if c == 0x106
    then some resource_attach_backing
    else if c == 0x107
    then some resource_detach_backing
    else if c == 0x108
    then some get_capset_info
    else if c == 0x109
    then some get_capset
    else if c == 0x200
    then some ctx_create
    else if c == 0x201
    then some ctx_destroy
    else if c == 0x202
    then some ctx_attach_resource
    else if c == 0x203
    then some ctx_detach_resource
    else if c == 0x204
    then some resource_create_3d
    else if c == 0x205
    then some transfer_to_host_3d
    else if c == 0x206
    then some transfer_from_host_3d
    else if c == 0x207
    then some cmd_submit_3d
    else if c == 0x10c
    then some resource_create_blob
    else if c == 0x208
    then some resource_map_blob
    else if c == 0x209
    then some resource_unmap_blob
    else if c == 0x300
    then some update_cursor
    else if c == 0x301
    then some move_cursor
    else if c == 0x10b
    then some resource_assign_uuid
    else none

-- The bucket of a command.
unfoldable pub bucket : Kind → ℕ
bucket get_display_info = 0
bucket get_edid = 1
bucket resource_create_2d = 2
bucket resource_unref = 3
bucket set_scanout = 4
bucket set_scanout_blob = 5
bucket resource_flush = 6
bucket transfer_to_host_2d = 7
bucket resource_attach_backing = 8
bucket resource_detach_backing = 9
bucket get_capset_info = 10
bucket get_capset = 11
bucket ctx_create = 12
bucket ctx_destroy = 13
bucket ctx_attach_resource = 14
bucket ctx_detach_resource = 15
bucket resource_create_3d = 16
bucket transfer_to_host_3d = 17
bucket transfer_from_host_3d = 18
bucket cmd_submit_3d = 19
bucket resource_create_blob = 20
bucket resource_map_blob = 21
bucket resource_unmap_blob = 22
bucket update_cursor = 23
bucket move_cursor = 24
bucket resource_assign_uuid = 25

pub data Decoded : Type 0 where
  decoded : CtrlHdr → GpuCommand → Reader → Decoded
  invalid_type : ℕ → Decoded
  io_error : Decoded

pub decode_body : CtrlHdr → Kind → Option (List ℕ × Reader) → Decoded
decode_body h k none = io_error
decode_body h k (some (bytes, r)) = decoded h (record { kind = k; body = bytes }) r

pub decode_kind : CtrlHdr → Reader → Option Kind → Decoded
decode_kind h r none = invalid_type h.type
decode_kind h r (some k) = decode_body h k (read_exact r (body_size k))

pub decode_header : Option (List ℕ × Reader) → Decoded
decode_header none = io_error
decode_header (some (bytes, r)) = let h = hdr_of bytes in decode_kind h r (kind_of h.type)

pub decode : Reader → Decoded
decode r = decode_header (read_exact r 24)
