-- ===== src/Gpu/Fences/Settled.antt =====
-- No descriptor waits for a fence that has signalled, and each is answered once.
use nesbox.Base.{
  ℕ, ◌<◌, ◌≡◌, ◌∙◌, refl, sym, ap, arith, inl, inr, Bool, true, false, List, [], ◌∷◌, All, All-map,
  if◌then◌else◌, max, Bool-cases,
}
use nesbox.Gpu.Fences.{
  VirtioGpuRing, global, context_specific, same_ring, FenceDescriptor, FenceState, completed_id,
  raise_completed, is_signalled, extract_if, complete_fence, of_context, forget_timelines,
  is_orphaned, retire_context_fences,
}

same_ring-eq : (a b : VirtioGpuRing) → same_ring a b ≡ true → a ≡ b
unfolding same_ring
same_ring-eq global global h = refl
same_ring-eq global (context_specific c r) h = cc
same_ring-eq (context_specific c r) global h = cc
same_ring-eq (context_specific c r) (context_specific c' r') h =
    let e1 : c ≡ c' = ground (arith, h) in
    let e2 : r ≡ r' = ground (arith, h) in
    ap (λ x. context_specific x r) e1 ∙ ap (context_specific c') e2

same_ring_self : (a : VirtioGpuRing) → same_ring a a ≡ true
unfolding same_ring
same_ring_self global = refl
same_ring_self (context_specific c r) = ground arith

same_ring_comm : (a b : VirtioGpuRing) → same_ring a b ≡ false → same_ring b a ≡ false
same_ring_comm a b h = elim (Bool-cases (same_ring b a)) [
  | inl e ↦
      let same = ap (λ x. same_ring x b) (sym (same_ring-eq b a e)) ∙ same_ring_self b in
      absurd (true_false (sym same ∙ h))
  | inr e ↦ e
]
  where
    true_false : true ≡ false → ⊥
    true_false e = cc

-- Raising one ring's entry gives it the greater id, and leaves the other rings alone.
completed_id-raise_completed :
    (fs : List (VirtioGpuRing × ℕ)) (ring other : VirtioGpuRing) (id : ℕ)
    → completed_id (raise_completed fs ring id) other
      ≡ (if same_ring ring other then max (completed_id fs other) id else completed_id fs other)
unfolding completed_id raise_completed
completed_id-raise_completed [] ring other id = refl
completed_id-raise_completed (f ∷ fs) ring other id = elim (Bool-cases (same_ring f.0 ring)) [
  | inl e ↦
      let at : same_ring ring other ≡ same_ring f.0 other =
        ap (λ r. same_ring r other) (sym (same_ring-eq f.0 ring e)) in
      rw (e, at) (by_other f.0 f.1)
  | inr e ↦ elim (Bool-cases (same_ring f.0 other)) [
    | inl o ↦
        let at : other ≡ f.0 = sym (same_ring-eq f.0 other o) in
        rw (e, o, ap (same_ring ring) at ∙ same_ring_comm f.0 ring e) refl
    | inr o ↦ rw (e, o) (completed_id-raise_completed fs ring other id)
  ]
]
  where
    by_other :
        (r : VirtioGpuRing) (n : ℕ)
        → (if same_ring r other then max n id else completed_id fs other) ≡ (
            if same_ring r other
            then max (if same_ring r other then n else completed_id fs other) id
            else (if same_ring r other then n else completed_id fs other))
    by_other r n = elim (Bool-cases (same_ring r other)) [ inl e ↦ rw e refl | inr e ↦ rw e refl ]

-- It waits for what has not signalled.
unfoldable pub Waits : FenceState → FenceDescriptor → Type 0
Waits s d = completed_id s.completed_fences d.ring < d.fence_id

unfoldable pub IsSettled : FenceState → Type 0
IsSettled s = All (Waits s) s.descs

-- What is left after an extraction kept its own property and fails the test.
extract_if-All :
    (test : FenceDescriptor → Bool) (P : FenceDescriptor → Type 0) (ds : List FenceDescriptor)
    → All P ds
    → All (λ d. P d × (test d ≡ false)) (extract_if test ds).1
unfolding extract_if
extract_if-All test P [] h = tt
extract_if-All test P (d ∷ ds) h = elim (Bool-cases (test d)) [
  | inl e ↦ rw e (extract_if-All test P ds h.1)
  | inr e ↦ rw e ((h.0, e), extract_if-All test P ds h.1)
]

pub complete_fence-IsSettled :
    (s : FenceState) (ring : VirtioGpuRing) (id : ℕ)
    → IsSettled s
    → IsSettled (complete_fence s ring id).0
unfolding complete_fence IsSettled Waits is_signalled
complete_fence-IsSettled s ring id h =
    let after = (complete_fence s ring id).0 in
    All-map (λ d. Waits s d × (is_signalled ring id d ≡ false)) (Waits after)
      (λ d w. still d w.0 w.1) after.descs
      (extract_if-All (is_signalled ring id) (Waits s) s.descs h)
  where
    above :
        (d : FenceDescriptor)
        → completed_id s.completed_fences d.ring < d.fence_id
        → same_ring d.ring ring ≡ true
        → is_signalled ring id d ≡ false
        → max (completed_id s.completed_fences d.ring) id < d.fence_id
    above d w e f = ground (arith, e, f)

    still :
        (d : FenceDescriptor)
        → completed_id s.completed_fences d.ring < d.fence_id
        → is_signalled ring id d ≡ false
        → completed_id (raise_completed s.completed_fences ring id) d.ring < d.fence_id
    still d w f =
        rw (completed_id-raise_completed s.completed_fences ring d.ring id)
          (elim (Bool-cases (same_ring ring d.ring)) [
            | inl e ↦ rw e (
                above d w
                  (ap (same_ring d.ring) (same_ring-eq ring d.ring e) ∙ same_ring_self d.ring) f)
            | inr e ↦ rw e w
          ])

-- The timelines of other contexts stay.
completed_id-forget_timelines :
    (fs : List (VirtioGpuRing × ℕ)) (ctx_id : ℕ) (ring : VirtioGpuRing)
    → of_context ctx_id ring ≡ false
    → completed_id (forget_timelines ctx_id fs) ring ≡ completed_id fs ring
unfolding completed_id forget_timelines
completed_id-forget_timelines [] ctx_id ring h = refl
completed_id-forget_timelines (f ∷ fs) ctx_id ring h = elim (Bool-cases (of_context ctx_id f.0)) [
  | inl gone ↦
      let apart : same_ring f.0 ring ≡ false = elim (Bool-cases (same_ring f.0 ring)) [
        | inl same ↦
            absurd (clash (sym gone ∙ ap (of_context ctx_id) (same_ring-eq f.0 ring same) ∙ h))
        | inr other ↦ other
      ] in
      rw (gone, apart) (completed_id-forget_timelines fs ctx_id ring h)
  | inr kept ↦ elim (Bool-cases (same_ring f.0 ring)) [
    | inl same ↦ rw (kept, same) refl
    | inr other ↦ rw (kept, other) (completed_id-forget_timelines fs ctx_id ring h)
  ]
]
  where
    clash : true ≡ false → ⊥
    clash e = cc

pub retire_context_fences-IsSettled :
    (s : FenceState) (ctx_id : ℕ) → IsSettled s → IsSettled (retire_context_fences s ctx_id).0
unfolding retire_context_fences IsSettled Waits
retire_context_fences-IsSettled s ctx_id h =
    let after = (retire_context_fences s ctx_id).0 in
    All-map (λ d. Waits s d × (is_orphaned ctx_id d ≡ false)) (Waits after)
      (λ d w. rw (completed_id-forget_timelines s.completed_fences ctx_id d.ring w.1) w.0)
      after.descs (extract_if-All (is_orphaned ctx_id) (Waits s) s.descs h)
