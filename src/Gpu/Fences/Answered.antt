-- ===== src/Gpu/Fences/Answered.antt =====
-- Every descriptor that waits on a fence is answered once.
use nesbox.Base.{
  ℕ, ◌+◌, ◌≡◌, refl, arith, inl, inr, Bool, List, [], ◌∷◌, ◌++◌, All-append, leb, if◌then◌else◌,
  Bool-cases, if-holds,
}
use nesbox.Gpu.Fences.{
  VirtioGpuRing, FenceDescriptor, FenceState, completed_id, process_fence, is_signalled, extract_if,
  complete_fence,
}
use nesbox.Gpu.Fences.Settled.{Waits, IsSettled, complete_fence-IsSettled}

-- A fence that the guest asks for, or one that the renderer reports.
pub data Event : Type 0 where
  asked : FenceDescriptor → Event
  signalled : VirtioGpuRing → ℕ → Event

-- The fences, and the descriptors answered so far.
pub record Ledger : Type 0 where
  pub fences : FenceState
  pub answered : List FenceDescriptor

pub answer : Ledger → FenceDescriptor → FenceState × Bool → Ledger
answer l d (s, already) = record {
  fences = s;
  answered = if already then l.answered ++ d ∷ [] else l.answered;
}

pub happen : Ledger → Event → Ledger
happen l (asked d) = answer l d (process_fence l.fences d)
happen l (signalled ring id) =
    let r = complete_fence l.fences ring id in record { fences = r.0; answered = l.answered ++ r.1 }

pub happen_all : Ledger → List Event → Ledger
happen_all l [] = l
happen_all l (e ∷ es) = happen_all (happen l e) es

-- How many descriptors of a list pass a test, and how many that were asked for.
unfoldable pub tally : (FenceDescriptor → Bool) → List FenceDescriptor → ℕ
tally test [] = 0
tally test (d ∷ ds) = (if test d then 1 else 0) + tally test ds

pub requested : (FenceDescriptor → Bool) → List Event → ℕ
requested test [] = 0
requested test (asked d ∷ es) = (if test d then 1 else 0) + requested test es
requested test (signalled ring id ∷ es) = requested test es

-- What holds of the fences after some events: none waits that has signalled, and every descriptor
-- waits or was answered, once.
pub record IsFair (test : FenceDescriptor → Bool) (l l' : Ledger) (n : ℕ) : Type 0 where
  pub settled : IsSettled l'.fences
  pub accounted :
      tally test l'.fences.descs + tally test l'.answered
      ≡ tally test l.fences.descs + tally test l.answered + n

pub tally-append :
    (test : FenceDescriptor → Bool) (xs ys : List FenceDescriptor)
    → tally test (xs ++ ys) ≡ tally test xs + tally test ys
unfolding tally
tally-append test [] ys = omega arith
tally-append test (x ∷ xs) ys = omega (arith, tally-append test xs ys)

pub tally-extract_if :
    (test take : FenceDescriptor → Bool) (ds : List FenceDescriptor)
    → tally test (extract_if take ds).0 + tally test (extract_if take ds).1 ≡ tally test ds
unfolding tally extract_if
tally-extract_if test take [] = refl
tally-extract_if test take (d ∷ ds) = elim (Bool-cases (take d)) [
  | inl e ↦ rw e (omega (arith, tally-extract_if test take ds))
  | inr e ↦ rw e (omega (arith, tally-extract_if test take ds))
]

pub asked-IsFair :
    (test : FenceDescriptor → Bool) (l : Ledger) (d : FenceDescriptor)
    → IsSettled l.fences
    → IsFair test l (answer l d (process_fence l.fences d)) (if test d then 1 else 0)
unfolding answer process_fence IsSettled Waits tally
asked-IsFair test l d h =
    if-holds (λ r. IsFair test l (answer l d r) (if test d then 1 else 0))
      (leb d.fence_id (completed_id l.fences.completed_fences d.ring))
      (λ e. record {
        settled = h;
        accounted = omega (arith, tally-append test l.answered (d ∷ []));
      })
      (λ e. record {
        settled = All-append (Waits l.fences) l.fences.descs (d ∷ []) h (ground (arith, e), tt);
        accounted = omega (arith, tally-append test l.fences.descs (d ∷ []));
      })

signalled-IsFair :
    (test : FenceDescriptor → Bool) (l : Ledger) (ring : VirtioGpuRing) (id : ℕ)
    → IsSettled l.fences
    → IsFair test l (happen l (signalled ring id)) 0
unfolding happen complete_fence
signalled-IsFair test l ring id h =
    let parts = extract_if (is_signalled ring id) l.fences.descs in
    record {
      settled = complete_fence-IsSettled l.fences ring id h;
      accounted = omega (
        arith,
        tally-append test l.answered parts.0,
        tally-extract_if test (is_signalled ring id) l.fences.descs,
      );
    }

-- Over any order of requests and completions, no descriptor is left waiting for a fence that has
-- signalled, and of the descriptors asked for, chosen by any test, each one waits or was answered
-- and none twice.
pub happen_all-IsFair :
    (test : FenceDescriptor → Bool) (l : Ledger) (events : List Event)
    → IsSettled l.fences
    → IsFair test l (happen_all l events) (requested test events)
unfolding happen_all requested happen
happen_all-IsFair test l [] h = record { settled = h; accounted = omega arith }
happen_all-IsFair test l (asked d ∷ es) h =
    let a = asked-IsFair test l d h in
    let r = happen_all-IsFair test (happen l (asked d)) es a.settled in
    record { settled = r.settled; accounted = omega (arith, a.accounted, r.accounted) }
happen_all-IsFair test l (signalled ring id ∷ es) h =
    let a = signalled-IsFair test l ring id h in
    let r = happen_all-IsFair test (happen l (signalled ring id)) es a.settled in
    record { settled = r.settled; accounted = omega (arith, a.accounted, r.accounted) }
