-- ===== src/Gpu/Dispatch/Reserved.antt =====
-- What a command makes the host reserve.
use nesbox.Base.{
  ℕ, ◌+◌, ◌*◌, ◌/◌, ◌≤◌, ◌≡◌, refl, false, ◌&&◌, Option, none, some, List, ltb, ◌==◌, if◌then◌else◌,
  arith, if-holds,
}
use nesbox.Gpu.Chains.{Reader, read_exact, reader_available_bytes}
use nesbox.Gpu.Protocol.{
  CtrlHdr, Kind, GpuCommand, cmd_submit_3d, resource_attach_backing, resource_create_blob,
}
use nesbox.Gpu.Dispatch.{
  Dispatched, CreateBlob, Call, word, mem_entry_size, read_entries, read_fences, with_entries,
  attach, claimed, exceeds, submit_buffer, submit_fences, submit_3d, create_blob_with, dispatch,
  process_gpu_command, attach_backing, create_blob,
}

reserved-with_entries :
    (n : ℕ) (c : List (ℕ × ℕ) → Call) (es : Option (List (ℕ × ℕ)))
    → (with_entries n c es).reserved ≡ 16 * n
unfolding with_entries
reserved-with_entries n c none = refl
reserved-with_entries n c (some es) = refl

reserved-attach : (r : Reader) (id n : ℕ) → (attach r id n).reserved ≤ reader_available_bytes r
unfolding attach
reserved-attach r id n =
    if-holds (λ (d : Dispatched). d.reserved ≤ reader_available_bytes r)
      (reader_available_bytes r == 0) (λ e. omega arith)
      (λ e.
        if-holds (λ (d : Dispatched). d.reserved ≤ reader_available_bytes r)
          (ltb (reader_available_bytes r / mem_entry_size) n) (λ e'. omega arith)
          (λ e'.
            rw (reserved-with_entries n (attach_backing id) (read_entries n r))
              (ground (arith, e'))))

-- A claim that does not exceed what is there is the sum, without overflow.
claim-le :
    (available fences size : ℕ)
    → exceeds available (claimed fences size) ≡ false
    → 8 * fences + size ≤ available
unfolding exceeds
claim-le available fences size h = ground (arith, h)

reserved-submit_fences :
    (h : CtrlHdr) (fences size : ℕ) (ids : Option (List ℕ × Reader))
    → (submit_fences h fences size ids).reserved ≤ 8 * fences + size
unfolding submit_fences submit_buffer
reserved-submit_fences h fences size none = omega arith
reserved-submit_fences h fences size (some (ids, r)) = buffer (read_exact r size)
  where
    buffer :
        (b : Option (List ℕ × Reader))
        → (submit_buffer h fences size ids b).reserved ≤ 8 * fences + size
    buffer none = omega arith
    buffer (some (bytes, r')) = omega arith

reserved-submit_3d :
    (r : Reader) (h : CtrlHdr) (fences size : ℕ)
    → (submit_3d r h fences size).reserved ≤ reader_available_bytes r
unfolding submit_3d
reserved-submit_3d r h fences size =
    if-holds (λ (d : Dispatched). d.reserved ≤ reader_available_bytes r)
      (reader_available_bytes r == 0) (λ e. omega arith)
      (λ e.
        if-holds (λ (d : Dispatched). d.reserved ≤ reader_available_bytes r)
          (exceeds (reader_available_bytes r) (claimed fences size)) (λ e'. omega arith)
          (λ e'. omega (
            arith,
            claim-le (reader_available_bytes r) fences size e',
            reserved-submit_fences h fences size (read_fences fences r),
          )))

reserved-create_blob_with :
    (r : Reader) (h : CtrlHdr) (id : ℕ) (blob : CreateBlob) (n : ℕ)
    → (create_blob_with r h id blob n).reserved
      ≡ (if reader_available_bytes r == 0 then 0 else 16 * n)
unfolding create_blob_with
reserved-create_blob_with r h id blob n =
    if-holds
      (λ (d : Dispatched). d.reserved ≡ (if reader_available_bytes r == 0 then 0 else 16 * n))
      (reader_available_bytes r == 0 && ltb 0 n) (λ e. ground (arith, e))
      (λ e.
        rw (reserved-with_entries n (create_blob h.ctx_id id blob) (read_entries n r))
          (ground (arith, e)))

-- What each kind of command reserves, where `n` bytes are reserved.
pub Bound : Kind → List ℕ → Reader → ℕ → Type 0
Bound resource_create_blob b r n = n ≡ (if reader_available_bytes r == 0 then 0 else 16 * word b 12)
Bound resource_attach_backing b r n = n ≤ reader_available_bytes r
Bound cmd_submit_3d b r n = n ≤ reader_available_bytes r
Bound k b r n = n ≡ 0

-- Of the vectors that a command makes the host size before the guest's list is read, `ATTACH_BACKING`
-- and `SUBMIT_3D` reserve at most as many bytes as the chain still carries, and the others none; but
-- `RESOURCE_CREATE_BLOB` reserves 16 bytes for every entry that the guest claims, as soon as the
-- chain carries anything more.
pub process_gpu_command-Bound :
    (texture target : ℕ) (h : CtrlHdr) (c : GpuCommand) (r : Reader)
    → Bound c.kind c.body r (process_gpu_command texture target h c r).reserved
unfolding process_gpu_command Bound dispatch
process_gpu_command-Bound texture target h c r = by_kind c.kind
  where
    by_kind : (k : Kind) → Bound k c.body r (dispatch texture target h k c.body r).reserved
    by_kind resource_attach_backing = reserved-attach r (word c.body 0) (word c.body 4)
    by_kind cmd_submit_3d = reserved-submit_3d r h (word c.body 4) (word c.body 0)
    by_kind resource_create_blob = reserved-create_blob_with r h (word c.body 0) _ (word c.body 12)
    by_kind _ = refl
