-- ===== src/Gpu/Control.antt =====
-- The control queue of the GPU: `process_ctl_queue` of virtio-devices/src/gpu/worker.rs. What a
-- command does beside the fences, and whether the renderer makes a fence, are parameters; what the
-- fence handler does meanwhile, on its own thread, is a list of the fences that have signalled before
-- each chain.
pub mod Accounted
mod Tests
use nesbox.Base.{
  ℕ, ◌+◌, Bool, true, false, Option, none, some, List, [], ◌∷◌, ◌++◌, ◌==◌, if◌then◌else◌, has_bit,
}
use nesbox.Guest.{GuestMemory}
use nesbox.Virtqueue.{Desc}
use nesbox.Gpu.Chains.{
  Reader, Writer, Opened, reader, refused, read_exact, new_reader, new_writer,
  writer_available_bytes,
}
use nesbox.Gpu.Fences.{
  VirtioGpuRing, FenceDescriptor, FenceState, ring_of, process_fence, complete_fence,
  retire_context_fences,
}
use nesbox.Gpu.Protocol.{
  CtrlHdr, hdr_of, Kind, ctx_destroy, GpuCommand, Decoded, decoded, invalid_type, io_error, decode,
}
use nesbox.Gpu.Protocol.Responses.{GpuResponse, ok_no_data, err_unspec, encode}

-- The rest of the device: `State` is the renderer's and the resources'.
pub record Commands (g : GuestMemory) : Type 1 where
  pub State : Type 0
  -- `process_gpu_command`, with the guest memory that it may write; the fences are the model's
  pub process_gpu_command :
      g.Mem → State → CtrlHdr → GpuCommand → Reader → g.Mem × State × GpuResponse
  -- `create_fence`: the error, if it fails
  pub create_fence : State → CtrlHdr → State × Option GpuResponse

-- A chain taken from the control queue, and the fences that have signalled by then.
pub record Taken : Type 0 where
  pub signals : List (VirtioGpuRing × ℕ)
  pub desc_index : ℕ
  pub descs : List Desc

abbrev pub is_fenced : CtrlHdr → Bool
is_fenced h = has_bit h.flags 0

-- The header of a response to a command without a fence.
abbrev pub unfenced : CtrlHdr
unfenced = record { type = 0; flags = 0; fence_id = 0; ctx_id = 0; ring_idx = 0 }

abbrev pub len_of : Option ℕ → ℕ
len_of none = 0
len_of (some l) = l

-- The header of a command that could not be decoded, where there was room for one.
abbrev pub peeked : Option (List ℕ × Reader) → Option CtrlHdr
peeked none = none
peeked (some (bytes, r)) = some (hdr_of bytes)

module _ {g : GuestMemory} (c : Commands g) where
  -- `completed` are the chains to be put in the used ring at the end, with the bytes written, and
  -- `retired` those that were put there meanwhile, by the fence handler or with their context.
  pub record Control : Type 0 where
    pub mem : g.Mem
    pub state : c.State
    pub fences : FenceState
    pub completed : List (ℕ × ℕ)
    pub retired : List FenceDescriptor

  -- The handler, for each fence in turn.
  pub signal_all : Control → List (VirtioGpuRing × ℕ) → Control
  signal_all s [] = s
  signal_all s ((ring, id) ∷ rest) =
      let r = complete_fence s.fences ring id in
      signal_all (record s { fences = r.0; retired = s.retired ++ r.1 }) rest

  pub complete : Control → ℕ → ℕ → Control
  complete s index len = record s { completed = s.completed ++ (index, len) ∷ [] }

  -- The end of a turn for a command with a fence that was made.
  pub await : Control → ℕ → CtrlHdr → ℕ → Control
  await s index h len =
      let r = process_fence s.fences (record {
        ring = ring_of (has_bit h.flags 1) h.ctx_id h.ring_idx;
        fence_id = h.fence_id;
        desc_index = index;
        len = len;
      }) in
      if r.1 then complete (record s { fences = r.0 }) index len else record s { fences = r.0 }

  -- The response goes into guest memory, with the fence's fields.
  pub respond : Control → Writer → GpuResponse → CtrlHdr → Control × ℕ
  respond s w response h =
      let r = encode g s.mem w response h in (record s { mem = r.0 }, len_of r.1)

  pub respond_made :
      Control → ℕ → Writer → CtrlHdr → GpuResponse → c.State × Option GpuResponse → Control
  respond_made s index w h response (state, none) =
      let r = respond (record s { state = state }) w response h in await r.0 index h r.1
  respond_made s index w h response (state, some error) =
      let r = respond (record s { state = state }) w error h in complete r.0 index r.1

  -- The header is there if it could be read.
  pub respond_to : Control → ℕ → Writer → Option CtrlHdr → GpuResponse → Control
  respond_to s index w none response =
      let r = respond s w response unfenced in complete r.0 index r.1
  respond_to s index w (some h) response =
      let plain = respond s w response unfenced in
      if is_fenced h
      then respond_made s index w h response (c.create_fence s.state h)
      else complete plain.0 index plain.1

  -- A response without room for any of it is not written.
  pub answer_chain : Control → ℕ → Writer → Option CtrlHdr → GpuResponse → Control
  answer_chain s index w h response =
      if writer_available_bytes w == 0 then complete s index 0 else respond_to s index w h response

  -- What a command does to the fences: `destroy_context`, once the renderer has destroyed the
  -- context, which is when it answers so, retires those that wait on it.
  pub retire : Control → CtrlHdr → Kind → GpuResponse → Control
  retire s h ctx_destroy ok_no_data =
      let r = retire_context_fences s.fences h.ctx_id in
      record s { fences = r.0; retired = s.retired ++ r.1 }
  retire s h kind response = s

  pub run_decoded : Control → ℕ → Writer → Reader → Decoded → Control
  run_decoded s index w r (decoded h cmd r') =
      let done = c.process_gpu_command s.mem s.state h cmd r' in
      let s' = retire (record s { mem = done.0; state = done.1 }) h cmd.kind done.2 in
      answer_chain s' index w (some h) done.2
  run_decoded s index w r (invalid_type t) =
      answer_chain s index w (peeked (read_exact r 24)) err_unspec
  run_decoded s index w r io_error = answer_chain s index w (peeked (read_exact r 24)) err_unspec

  pub run_opened : Control → ℕ → Opened → Option Writer → Control
  run_opened s index (refused why) w = complete s index 0
  run_opened s index (reader r) none = complete s index 0
  run_opened s index (reader r) (some w) = run_decoded s index w r (decode r)

  -- One turn of the loop.
  pub run_chain : Control → Taken → Control
  run_chain s t =
      let s' = signal_all s t.signals in
      run_opened s' t.desc_index (new_reader g s'.mem t.descs) (new_writer t.descs)

  pub run_chains : Control → List Taken → Control
  run_chains s [] = s
  run_chains s (t ∷ ts) = run_chains (run_chain s t) ts

  -- The chains that the queue gives until it is empty; then what is completed goes to the used ring
  -- at once, if there is any.
  pub process_ctl_queue : g.Mem → c.State → FenceState → List Taken → Control × Bool
  process_ctl_queue m state fences taken =
      let s =
        run_chains
          (record { mem = m; state = state; fences = fences; completed = []; retired = [] })
          taken in
      (s, elim s.completed [ [] ↦ false | _ ∷ _ ↦ true ])
