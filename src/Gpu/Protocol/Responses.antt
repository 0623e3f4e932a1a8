-- ===== src/Gpu/Protocol/Responses.antt =====
-- The responses of the control queue and how they are written, from
-- virtio-devices/src/gpu/protocol.rs.
use nesbox.Base.{
  ℕ, zero, suc, ◌+◌, Bool, Option, none, some, List, [], ◌∷◌, ◌++◌, length, replicate, ltb, leb,
  ◌==◌, if◌then◌else◌, padded, map,
}
use nesbox.Transport.{write_val}
use nesbox.Guest.{GuestMemory}
use nesbox.Gpu.Chains.{Writer, writer_available_bytes}
use nesbox.Gpu.Chains
use nesbox.Gpu.Protocol.{CtrlHdr, hdr_bytes}

pub data GpuResponse : Type 0 where
  ok_no_data : GpuResponse
  ok_display_info : List (ℕ × ℕ × Bool) → GpuResponse
  ok_edid : List ℕ → GpuResponse
  ok_capset_info : ℕ → ℕ → ℕ → GpuResponse
  ok_capset : List ℕ → GpuResponse
  ok_resource_plane_info : ℕ → List (ℕ × ℕ) → GpuResponse
  ok_resource_uuid : List ℕ → GpuResponse
  ok_map_info : ℕ → GpuResponse
  err_unspec err_rutabaga err_out_of_memory err_invalid_scanout_id err_invalid_resource_id
        err_invalid_context_id err_invalid_parameter :
      GpuResponse

unfoldable pub get_type : GpuResponse → ℕ
get_type ok_no_data = 0x1100
get_type (ok_display_info info) = 0x1101
get_type (ok_edid blob) = 0x1104
get_type (ok_capset_info capset_id version size) = 0x1102
get_type (ok_capset bytes) = 0x1103
get_type (ok_resource_plane_info format_modifier planes) = 0x11ff
get_type (ok_resource_uuid uuid) = 0x1105
get_type (ok_map_info map_info) = 0x1106
get_type err_unspec = 0x1200
get_type err_rutabaga = 0x1200
get_type err_out_of_memory = 0x1201
get_type err_invalid_scanout_id = 0x1202
get_type err_invalid_resource_id = 0x1203
get_type err_invalid_context_id = 0x1204
get_type err_invalid_parameter = 0x1205

-- `virtio_gpu_display_one`, for as many as there are, of `n`.
unfoldable pub pmodes : ℕ → List (ℕ × ℕ × Bool) → List ℕ
pmodes zero info = []
pmodes (suc n) [] = replicate 24 0 ++ pmodes n []
pmodes (suc n) ((width, height, enabled) ∷ info) =
    replicate 8 0
    ++ (write_val 4 width
        ++ (write_val 4 height
            ++ (write_val 4 (if enabled then 1 else 0) ++ (replicate 4 0 ++ pmodes n info))))

-- Numbers of four bytes, as many as there are, of `n`.
unfoldable pub words : ℕ → List ℕ → List ℕ
words zero vs = []
words (suc n) [] = replicate 4 0 ++ words n []
words (suc n) (v ∷ vs) = write_val 4 v ++ words n vs

unfoldable pub plane_bytes : CtrlHdr → ℕ → List (ℕ × ℕ) → List ℕ
plane_bytes h format_modifier planes =
    hdr_bytes h
    ++ (write_val 4 (length planes)
        ++ (write_val 4 0
            ++ (write_val 8 format_modifier
                ++ (words 4 (map (λ (p : ℕ × ℕ). p.0) planes)
                    ++ words 4 (map (λ (p : ℕ × ℕ). p.1) planes)))))

-- What `encode` writes, one list of bytes for each write; `none` is a response that is too large.
-- `available` is the room of the writer.
unfoldable pub chunks : GpuResponse → CtrlHdr → ℕ → Option (List (List ℕ))
chunks (ok_display_info info) h available =
    if ltb 16 (length info) then none else some ((hdr_bytes h ++ pmodes 16 info) ∷ [])
chunks (ok_edid blob) h available =
    if ltb 1024 (length blob)
    then none
    else some (
        (hdr_bytes h ++ (write_val 4 (length blob) ++ (write_val 4 0 ++ padded 0 blob 0 1024)))
        ∷ [])
chunks (ok_capset_info capset_id version size) h available = some (
    (hdr_bytes h
      ++ (write_val 4 capset_id ++ (write_val 4 version ++ (write_val 4 size ++ write_val 4 0))))
    ∷ [])
chunks (ok_capset bytes) h available = some (hdr_bytes h ∷ bytes ∷ [])
chunks (ok_resource_plane_info format_modifier planes) h available =
    if ltb 4 (length planes)
    then none
    else if leb 72 available
    then some (plane_bytes h format_modifier planes ∷ [])
    else some (hdr_bytes (record h { type = 0x1100 }) ∷ [])
chunks (ok_resource_uuid uuid) h available = some ((hdr_bytes h ++ uuid) ∷ [])
chunks (ok_map_info map_info) h available =
    some ((hdr_bytes h ++ (write_val 4 map_info ++ write_val 4 0)) ∷ [])
chunks response h available = some (hdr_bytes h ∷ [])

-- The same with the header of the response, which has its type.
unfoldable pub response_chunks : GpuResponse → CtrlHdr → ℕ → Option (List (List ℕ))
response_chunks response h available =
    chunks response (record h { type = get_type response }) available

-- How many bytes are written in all.
unfoldable pub size_of : List (List ℕ) → ℕ
size_of [] = 0
size_of (c ∷ cs) = length c + size_of cs

module _ (g : GuestMemory) where
  open g use {Mem}

  -- `write_all`: a write that is not whole is followed by one of nothing, which is the error.
  unfoldable pub write_whole : ℕ → Mem × Option (ℕ × Writer) → Mem × Option Writer
  write_whole n (m, none) = (m, none)
  write_whole n (m, some (wrote, w)) = (m, (if wrote == n then some w else none))

  unfoldable pub write_chunks : Mem × Option Writer → List (List ℕ) → Mem × Option Writer
  write_chunks (m, w) [] = (m, w)
  write_chunks (m, none) (c ∷ cs) = (m, none)
  write_chunks (m, some w) (c ∷ cs) =
      write_chunks (write_whole (length c) (Chains.write g m w c)) cs

  unfoldable pub encode_chunks : Mem → Writer → Option (List (List ℕ)) → Mem × Option ℕ
  encode_chunks m w none = (m, none)
  encode_chunks m w (some cs) =
      let r = write_chunks (m, some w) cs in
      (r.0, elim r.1 [ none ↦ none | some w' ↦ some (size_of cs) ])

  -- The memory after, and the length of the response if it was written.
  unfoldable pub encode : Mem → Writer → GpuResponse → CtrlHdr → Mem × Option ℕ
  encode m w response h = encode_chunks m w (response_chunks response h (writer_available_bytes w))
