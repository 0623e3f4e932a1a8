-- ===== src/Gpu/Control/Tests.antt =====
-- A command that asks for a fence, answered over a flat memory, and a chain that cannot be read.
use nesbox.Base.{
  some, ℕ, get_or, ◌+◌, ◌-◌, ◌≡◌, refl, arith, true, none, List, [], ◌∷◌, ◌++◌, replicate, length,
}
use nesbox.Transport.{write_val}
use nesbox.Guest.Flat.{FlatMemory, flat_guest}
use nesbox.Gpu.Fences.{global, FenceState}
use nesbox.Gpu.Protocol.{
  CtrlHdr, hdr_bytes, GpuCommand, type_of, body_size, resource_create_2d, update_cursor, bucket,
  decode, decoded,
}
use nesbox.Gpu.Chains.{Writer}
use nesbox.Gpu.Protocol.Responses.{
  response_chunks, ok_display_info, size_of, write_whole, write_chunks, encode_chunks, encode,
  get_type, pmodes, words, plane_bytes, chunks, ok_no_data, ok_resource_plane_info,
}
use nesbox.Gpu.Protocol.Decoding.{decode-hdr_bytes}
use nesbox.Gpu.Protocol.Encoding.{Tells, response_chunks-Tells}
use nesbox.Gpu.Control.{Commands, Taken}

abbrev header : CtrlHdr
header = record { type = 0x101; flags = 1; fence_id = 5; ctx_id = 0; ring_idx = 0 }

abbrev command : GpuCommand
command = record { kind = resource_create_2d; body = replicate 16 7 }

decode-hdr_bytes_example :
    let buf = hdr_bytes header ++ (command.body ++ 9 ∷ []) in
    decode (record { buf = buf; position = 0 })
    ≡ decoded header command (record { buf = buf; position = 40 })
unfolding type_of body_size
decode-hdr_bytes_example =
    decode-hdr_bytes header command (9 ∷ [])
      (record {
        type_fits = omega arith;
        flags_fit = omega arith;
        fence_fits = omega arith;
        ctx_fits = omega arith;
      })
      refl refl

response_chunks-Tells_example :
    Tells
      (ok_resource_plane_info 3 ((640, 0) ∷ []))
      header
      72
      (plane_bytes (record header { type = 0x11ff }) 3 ((640, 0) ∷ []) ∷ [])
unfolding response_chunks chunks get_type
response_chunks-Tells_example =
    response_chunks-Tells (ok_resource_plane_info 3 ((640, 0) ∷ [])) header 72
      (record {
        type_fits = omega arith;
        flags_fit = omega arith;
        fence_fits = omega arith;
        ctx_fits = omega arith;
      })
      refl

modes : length (pmodes 16 ((640, 480, true) ∷ [])) ≡ 384
unfolding pmodes write_val
modes = refl

buckets : bucket update_cursor ≡ 23
unfolding bucket
buckets = refl

strides : words 2 (258 ∷ []) ≡ 2 ∷ 1 ∷ 0 ∷ 0 ∷ 0 ∷ 0 ∷ 0 ∷ 0 ∷ []
unfolding words write_val
strides = refl

-- At 0x100 a request for the displays, with fence 6.
abbrev memory : FlatMemory
memory = record {
  size = 0x1000;
  cell = λ a. get_or (0 ∷ 1 ∷ 0 ∷ 0 ∷ 1 ∷ 0 ∷ 0 ∷ 0 ∷ 6 ∷ []) (a - 0x100) 0;
}

sizes : size_of ((1 ∷ 2 ∷ []) ∷ (3 ∷ []) ∷ []) ≡ 3
unfolding size_of
sizes = refl

abbrev no_room : Writer
no_room = record { segments = []; write_pos = 0; bytes_written = 0; total_len = 0 }

partial : (write_whole flat_guest 3 (memory, some (2, no_room))).1 ≡ none
unfolding write_whole
partial = refl

too_many :
    (encode flat_guest memory no_room (ok_display_info (replicate 17 (640, 480, true))) header).1
    ≡ none
unfolding encode encode_chunks response_chunks chunks
too_many = refl

stopped : (write_chunks flat_guest (memory, none) ((1 ∷ []) ∷ [])).1 ≡ none
unfolding write_chunks
stopped = refl

abbrev willing : Commands flat_guest
willing = record {
  State = ℕ;
  process_gpu_command = λ m s h c r. (m, s + 1, ok_no_data);
  create_fence = λ s h. (s, none);
}

abbrev waits : FenceState
waits = record {
  descs = record { ring = global; fence_id = 5; desc_index = 2; len = 24 } ∷ [];
  completed_fences = [];
}

-- That request; then a chain without descriptors.
abbrev taken : List Taken
taken =
    record {
      signals = (global, 5) ∷ [];
      desc_index = 3;
      descs =
          record { addr = 0x100; len = 24; flags = 0 }
          ∷ record { addr = 0x200; len = 64; flags = 2 }
          ∷ [];
    }
    ∷ record { signals = []; desc_index = 4; descs = [] }
    ∷ []
