-- ===== src/Gpu/Fences.antt =====
-- Fences, from virtio-devices/src/gpu/virtio_gpu.rs: the descriptors that wait for one, and the
-- handler that the renderer calls when one has signalled.
pub mod Settled
pub mod Answered
use nesbox.Base.{
  ℕ, ◌+◌, Bool, true, false, ◌&&◌, List, [], ◌∷◌, ◌++◌, leb, ◌==◌, if◌then◌else◌, max,
}

pub data VirtioGpuRing : Type 0 where
  global : VirtioGpuRing
  context_specific : ℕ → ℕ → VirtioGpuRing

-- The derived equality of rings.
pub same_ring : VirtioGpuRing → VirtioGpuRing → Bool
same_ring global global = true
same_ring global (context_specific ctx_id ring_idx) = false
same_ring (context_specific ctx_id ring_idx) global = false
same_ring (context_specific c r) (context_specific c' r') = (c == c') && (r == r')

-- A descriptor that waits; the time it began is not modelled.
pub record FenceDescriptor : Type 0 where
  pub ring : VirtioGpuRing
  pub fence_id : ℕ
  pub desc_index : ℕ
  pub len : ℕ

pub record FenceState : Type 0 where
  pub descs : List FenceDescriptor
  pub completed_fences : List (VirtioGpuRing × ℕ)

-- `completed_fences.get(&ring)`, or 0
unfoldable pub completed_id : List (VirtioGpuRing × ℕ) → VirtioGpuRing → ℕ
completed_id [] ring = 0
completed_id (f ∷ fs) ring = if same_ring f.0 ring then f.1 else completed_id fs ring

-- The entry of a ring raised to at least `id`.
pub raise_completed : List (VirtioGpuRing × ℕ) → VirtioGpuRing → ℕ → List (VirtioGpuRing × ℕ)
raise_completed [] ring id = (ring, max 0 id) ∷ []
raise_completed (f ∷ fs) ring id =
    if same_ring f.0 ring then (f.0, max f.1 id) ∷ fs else f ∷ raise_completed fs ring id

-- The state after, and whether the fence has signalled already.
unfoldable pub process_fence : FenceState → FenceDescriptor → FenceState × Bool
process_fence s d =
    if leb d.fence_id (completed_id s.completed_fences d.ring)
    then (s, true)
    else (record s { descs = s.descs ++ d ∷ [] }, false)

-- Whether a descriptor waited for a fence of this ring up to `id`.
pub is_signalled : VirtioGpuRing → ℕ → FenceDescriptor → Bool
is_signalled ring id d = same_ring d.ring ring && leb d.fence_id id

-- `extract_if`: what is taken out, and what stays.
pub extract_if :
    (FenceDescriptor → Bool) → List FenceDescriptor → List FenceDescriptor × List FenceDescriptor
extract_if test [] = ([], [])
extract_if test (d ∷ ds) =
    let rest = extract_if test ds in if test d then (d ∷ rest.0, rest.1) else (rest.0, d ∷ rest.1)

-- The ring that a completed fence names: VIRTIO_GPU_FLAG_INFO_RING_IDX in its flags selects it.
unfoldable pub ring_of : Bool → ℕ → ℕ → VirtioGpuRing
ring_of has_ring_idx ctx_id ring_idx =
    if has_ring_idx then context_specific ctx_id ring_idx else global

-- The handler: the state after, and the descriptors that it completes on the control queue.
unfoldable pub complete_fence : FenceState → VirtioGpuRing → ℕ → FenceState × List FenceDescriptor
complete_fence s ring id =
    let parts = extract_if (is_signalled ring id) s.descs in
    (
      record { descs = parts.1; completed_fences = raise_completed s.completed_fences ring id },
      parts.0,
    )

-- Whether a ring is one of a context's.
pub of_context : ℕ → VirtioGpuRing → Bool
of_context ctx_id global = false
of_context ctx_id (context_specific c ring_idx) = c == ctx_id

-- `completed_fences.retain`: the timelines of a context are forgotten.
pub forget_timelines : ℕ → List (VirtioGpuRing × ℕ) → List (VirtioGpuRing × ℕ)
forget_timelines ctx_id [] = []
forget_timelines ctx_id (f ∷ fs) =
    if of_context ctx_id f.0 then forget_timelines ctx_id fs else f ∷ forget_timelines ctx_id fs

abbrev pub is_orphaned : ℕ → FenceDescriptor → Bool
is_orphaned ctx_id d = of_context ctx_id d.ring

-- The state after, and the descriptors that are completed at once since no fence will.
unfoldable pub retire_context_fences : FenceState → ℕ → FenceState × List FenceDescriptor
retire_context_fences s ctx_id =
    let parts = extract_if (is_orphaned ctx_id) s.descs in
    (
      record { descs = parts.1; completed_fences = forget_timelines ctx_id s.completed_fences },
      parts.0,
    )
