-- ===== src/Gpu/Dispatch/Tests.antt =====
-- Commands that size a vector: one that attaches a backing, and one that creates a blob.
use nesbox.Base.{ℕ, ◌≡◌, refl, arith, List, [], ◌∷◌, ◌++◌, replicate}
use nesbox.Transport.{write_val, from_le_bytes}
use nesbox.Gpu.Chains.{Reader}
use nesbox.Gpu.Protocol.{
  CtrlHdr, GpuCommand, resource_attach_backing, resource_create_blob, transfer_to_host_3d,
}
use nesbox.Gpu.Dispatch.{
  word, double, called, attach_backing, process_gpu_command, transfer_write, new_3d, dispatch,
}
use nesbox.Gpu.Dispatch.Reserved.{Bound, process_gpu_command-Bound}
use nesbox.Gpu.Dispatch.Attached.{entries_bytes, FitsEntry, process_gpu_command-entries_bytes}

abbrev header : CtrlHdr
header = record { type = 0x106; flags = 0; fence_id = 0; ctx_id = 3; ring_idx = 0 }

abbrev entries : List (ℕ × ℕ)
entries = (0x1_0000_0000, 4096) ∷ (0x3000, 8192) ∷ []

process_gpu_command-entries_bytes_example :
    process_gpu_command 2 2 header
      (record { kind = resource_attach_backing; body = write_val 4 7 ++ write_val 4 2 })
      (record { buf = (1 ∷ []) ++ (entries_bytes entries ++ 5 ∷ []); position = 1 })
    ≡ record { reserved = 32; action = called (attach_backing 7 entries) }
unfolding FitsEntry
process_gpu_command-entries_bytes_example =
    process_gpu_command-entries_bytes 2 2 header 7 (0x1_0000_0000, 4096) ((0x3000, 8192) ∷ [])
      (1 ∷ []) (5 ∷ []) (omega arith) (omega arith)
      ((omega arith, omega arith), ((omega arith, omega arith), tt))

-- It claims 2 ^ 32 - 1 entries, in a chain that has one byte more.
abbrev greedy : GpuCommand
greedy = record {
  kind = resource_create_blob;
  body = replicate 12 0 ++ (write_val 4 0xffff_ffff ++ replicate 16 0);
}

abbrev one_byte : Reader
one_byte = record { buf = 0 ∷ []; position = 0 }

process_gpu_command-Bound_example :
    Bound greedy.kind greedy.body one_byte (process_gpu_command 2 2 header greedy one_byte).reserved
process_gpu_command-Bound_example = process_gpu_command-Bound 2 2 header greedy one_byte

transfers :
    dispatch 2 2 header transfer_to_host_3d
      (1 ∷ replicate 23 0 ++ 9 ∷ replicate 7 0 ++ 4 ∷ replicate 15 0)
      one_byte
    ≡ record { reserved = 0; action = called (transfer_write 3 4 (new_3d 1 0 0 0 0 0 0 0 0 9)) }
unfolding dispatch word double from_le_bytes
transfers = refl
