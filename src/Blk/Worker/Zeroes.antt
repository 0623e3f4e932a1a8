-- ===== src/Blk/Worker/Zeroes.antt =====
-- What the end of a short read leaves in the guest's pages.
use nesbox.Base.{
  ℕ, zero, suc, ◌+◌, ◌-◌, ◌≤◌, ◌≡◌, ◌∙◌, refl, sym, ap, arith, inl, inr, true, List, [], ◌∷◌, ◌++◌,
  All, All-map, drop, leb, min, add64, Bool-cases, leb→le,
}
use mathlib.Core.List.{append_assoc}
use nesbox.Guest.{GuestMemory}
use nesbox.Blk.Disk.{IoVec}
use nesbox.Blk.Request.{Segment}
use nesbox.Blk.Worker.Transfer.{zero_chunks, zero_fill, zeroes_len}
use nesbox.Guest.Spans.{span, length-span, drop-append_past, drop-span, span-append}
use nesbox.Blk.Worker.Segments.{addresses}

pub guest_addresses : List Segment → List ℕ
guest_addresses [] = []
guest_addresses (s ∷ ss) = span s.addr s.len ++ guest_addresses ss

addresses-append : (us vs : List IoVec) → addresses (us ++ vs) ≡ addresses us ++ addresses vs
unfolding addresses
addresses-append [] vs = refl
addresses-append (u ∷ us) vs =
    ap (λ r. span u.base u.len ++ r) (addresses-append us vs)
    ∙ sym (append_assoc (span u.base u.len) (addresses us) (addresses vs))

module _ (g : GuestMemory) where
  open g use {Mem, covers}

  -- Every run of the list set to zero.
  pub zero_runs : Mem → List IoVec → Mem
  zero_runs m [] = m
  zero_runs m (r ∷ rs) = zero_runs (g.write r.len m r.base 0) rs

  -- Memory in which exactly the bytes at these addresses were set to zero, in order, by runs.
  pub record IsZeroed (m : Mem) (at : List ℕ) (m' : Mem) : Type 0 where
    pub runs : List IoVec
    pub written : m' ≡ zero_runs m runs
    pub exact : addresses runs ≡ at

  -- A segment that lies in guest memory.
  abbrev pub Holds : Mem → Segment → Type 0
  Holds m s = covers m s.addr s.len ≡ true

  chunks-IsZeroed :
      (fuel : ℕ) (m : Mem) (s : Segment) (at : ℕ)
      → Holds m s
      → s.len ≤ fuel + at
      → at ≤ s.len
      → (zero_chunks g fuel m s.addr s.len at).0 ≡ true
        × IsZeroed m (span (s.addr + at) (s.len - at)) (zero_chunks g fuel m s.addr s.len at).1
  unfolding zero_chunks addresses span zero_runs
  chunks-IsZeroed zero m s at h f b = (
    refl,
    record { runs = []; written = refl; exact = ap (span (s.addr + at)) {x = 0} (omega arith) },
  )
  chunks-IsZeroed (suc fuel) m s at h f b = elim (Bool-cases (leb s.len at)) [
    | inl e ↦ rw e (
      refl,
      record {
        runs = [];
        written = refl;
        exact = ap (span (s.addr + at)) {x = 0} (ground (arith, e));
      },
    )
    | inr e ↦
        let n = min (s.len - at) zeroes_len in
        let a : add64 s.addr at ≡ s.addr + at = ground (arith, e, g.covers-le m s.addr s.len h) in
        let c : covers m (s.addr + at) n ≡ true =
          g.covers-part m s.addr s.len at n h (ground (arith, e)) (ground (arith, e)) in
        let m' = g.write n m (s.addr + at) 0 in
        let r =
          chunks-IsZeroed fuel m' s (at + n) (g.covers-write n m (s.addr + at) 0 s.addr s.len ∙ h)
            (ground (arith, e)) (ground (arith, e)) in
        rw (e, a, c)
          (
            r.0,
            record {
              runs = record { base = s.addr + at; len = n } ∷ r.1.runs;
              written = r.1.written;
              exact =
                  ap (λ x. span (s.addr + at) n ++ x)
                    (r.1.exact
                      ∙ ap (λ b. span b (s.len - (at + n))) {y = s.addr + at + n} (omega arith))
                  ∙ span-append (s.addr + at) n (s.len - (at + n))
                  ∙ ap (span (s.addr + at)) (ground (arith, e));
            },
          )
  ]

  zero_runs-append :
      (m : Mem) (rs qs : List IoVec) → zero_runs m (rs ++ qs) ≡ zero_runs (zero_runs m rs) qs
  unfolding zero_runs
  zero_runs-append m [] qs = refl
  zero_runs-append m (r ∷ rs) qs = zero_runs-append (g.write r.len m r.base 0) rs qs

  then-IsZeroed :
      {m m1 m2 : Mem} (xs ys : List ℕ)
      → IsZeroed m xs m1
      → IsZeroed m1 ys m2
      → IsZeroed m (xs ++ ys) m2
  then-IsZeroed {m} xs ys a b = record {
    runs = a.runs ++ b.runs;
    written =
        b.written ∙ ap (λ x. zero_runs x b.runs) a.written ∙ sym (zero_runs-append m a.runs b.runs);
    exact =
        addresses-append a.runs b.runs
        ∙ ap (λ x. x ++ addresses b.runs) a.exact
        ∙ ap (λ y. xs ++ y) b.exact;
  }

  covers-zero_runs :
      (m : Mem) (rs : List IoVec) (a n : ℕ) → covers (zero_runs m rs) a n ≡ covers m a n
  unfolding zero_runs
  covers-zero_runs m [] a n = refl
  covers-zero_runs m (r ∷ rs) a n =
      covers-zero_runs (g.write r.len m r.base 0) rs a n ∙ g.covers-write r.len m r.base 0 a n

  held_after :
      (m : Mem) {xs : List ℕ} {m' : Mem}
      → IsZeroed m xs m'
      → (ss : List Segment) → All (Holds m) ss
      → All (Holds m') ss
  held_after m {xs} {m'} z ss h =
      All-map (Holds m) (Holds m')
        (λ s c.
          ap (λ k. covers k s.addr s.len) z.written ∙ covers-zero_runs m z.runs s.addr s.len ∙ c)
        ss h

  -- For segments that guest memory holds, `zero_fill` sets to zero exactly the bytes of the segments
  -- after the first `skip`, in order, and writes nothing else.
  pub zero_fill-IsZeroed :
      (m : Mem) (skip : ℕ) (ss : List Segment)
      → All (Holds m) ss
      → IsZeroed m (drop skip (guest_addresses ss)) (zero_fill g m skip ss)
  unfolding zero_fill guest_addresses addresses zero_runs
  zero_fill-IsZeroed m zero [] h = record { runs = []; written = refl; exact = refl }
  zero_fill-IsZeroed m (suc skip) [] h = record { runs = []; written = refl; exact = refl }
  zero_fill-IsZeroed m skip (s ∷ ss) h = elim (Bool-cases (leb s.len skip)) [
    | inl e ↦
        let len = length-span s.addr s.len in
        let past =
          drop-append_past (span s.addr s.len) (guest_addresses ss) skip
            (omega (arith, len, leb→le s.len skip e)) in
        let rest = zero_fill-IsZeroed m (skip - s.len) ss h.1 in
        rw e (record {
          runs = rest.runs;
          written = rest.written;
          exact = rest.exact ∙ ap (λ k. drop (skip - k) (guest_addresses ss)) (sym len) ∙ sym past;
        })
    | inr e ↦
        let c = chunks-IsZeroed s.len m s skip h.0 (omega arith) (ground (arith, e)) in
        let at = drop-span s.addr s.len skip (guest_addresses ss) (ground (arith, e)) in
        let r = (zero_chunks g s.len m s.addr s.len skip).1 in
        let all =
          then-IsZeroed (span (s.addr + skip) (s.len - skip)) (guest_addresses ss) c.1
            (zero_fill-IsZeroed r 0 ss (held_after m c.1 ss h.1)) in
        rw (e, c.0, at) all
  ]
