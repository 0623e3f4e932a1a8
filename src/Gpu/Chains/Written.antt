-- ===== src/Gpu/Chains/Written.antt =====
-- Where a writer puts its bytes.
use nesbox.Base.{
  ℕ, zero, suc, ◌+◌, ◌-◌, ◌≤◌, ◌<◌, ◌≡◌, ◌∙◌, refl, sym, ap, subst, arith, inl, inr, Bool, true,
  List, [], ◌∷◌, ◌++◌, All, All-map, length, take, drop, leb, ◌==◌, min, add64, Bool-cases, leb→le,
}
use mathlib.Core.List.{append_assoc}
use nesbox.Guest.{GuestMemory}
use nesbox.Guest.Spans.{span, length-span, drop-append_past, drop-span, span-append}
use nesbox.Gpu.Chains.{Segment, number, write_slice, write_segments}

unfoldable pub segment_addresses : List Segment → List ℕ
segment_addresses [] = []
segment_addresses (s ∷ ss) = span s.addr s.len ++ segment_addresses ss

-- Addresses with the bytes that go there.
unfoldable pub zip : List ℕ → List ℕ → List (ℕ × ℕ)
zip [] bs = []
zip (a ∷ as') [] = []
zip (a ∷ as') (b ∷ bs) = (a, b) ∷ zip as' bs

zip-nil : (xs : List ℕ) → zip xs [] ≡ []
unfolding zip
zip-nil [] = refl
zip-nil (x ∷ xs) = refl

zip-append :
    (xs ys bs : List ℕ)
    → zip (xs ++ ys) bs ≡ zip xs (take (length xs) bs) ++ zip ys (drop (length xs) bs)
unfolding zip
zip-append [] ys bs = refl
zip-append (x ∷ xs) ys [] = sym (zip-nil ys)
zip-append (x ∷ xs) ys (b ∷ bs) = ap (λ r. (x, b) ∷ r) (zip-append xs ys bs)

drop_all : (bs : List ℕ) → drop (length bs) bs ≡ []
drop_all [] = refl
drop_all (b ∷ bs) = drop_all bs

length-take : (n : ℕ) (bs : List ℕ) → n ≤ length bs → length (take n bs) ≡ n
length-take zero bs h = refl
length-take (suc n) [] h = omega arith
length-take (suc n) (b ∷ bs) h = ap suc (length-take n bs (omega arith))

length-append_pairs : (xs ys : List (ℕ × ℕ)) → length (xs ++ ys) ≡ length xs + length ys
length-append_pairs [] ys = omega arith
length-append_pairs (x ∷ xs) ys = omega (arith, length-append_pairs xs ys)

length-zip-span : (a : ℕ) (bs : List ℕ) → length (zip (span a (length bs)) bs) ≡ length bs
unfolding zip span
length-zip-span a [] = refl
length-zip-span a (b ∷ bs) = ap suc (length-zip-span (a + 1) bs)

-- A run of bytes placed at an address.
pub record Run : Type 0 where
  pub base : ℕ
  pub bytes : List ℕ

pub pairs : List Run → List (ℕ × ℕ)
pairs [] = []
pairs (r ∷ rs) = zip (span r.base (length r.bytes)) r.bytes ++ pairs rs

zip_first :
    (a n : ℕ) (rest bs : List ℕ)
    → n ≤ length bs
    → zip (span a n ++ rest) bs
      ≡ zip (span a (length (take n bs))) (take n bs) ++ zip rest (drop n bs)
zip_first a n rest bs h =
    zip-append (span a n) rest bs
    ∙ ap (λ k. zip (span a n) (take k bs) ++ zip rest (drop k bs)) (length-span a n)
    ∙ ap (λ k. zip (span a k) (take n bs) ++ zip rest (drop n bs)) (sym (length-take n bs h))

-- No bytes are left for what follows.
zip_none : (xs ys bs : List ℕ) → zip xs (drop (length bs) bs) ≡ zip ys (drop (length bs) bs)
zip_none xs ys bs =
    ap (zip xs) (drop_all bs) ∙ zip-nil xs ∙ sym (zip-nil ys) ∙ ap (zip ys) (sym (drop_all bs))

-- What the first `n` bytes are placed at, and what is left for the rest.
abbrev placed_first : ℕ → List ℕ → List ℕ → ℕ → List (ℕ × ℕ)
placed_first a rest bs n = zip (span a (length (take n bs))) (take n bs) ++ zip rest (drop n bs)

-- The part of a segment from `skip` on takes the next bytes, and what follows it the rest.
zip_segment :
    (addr len skip : ℕ) (rest bs : List ℕ)
    → skip < len
    → zip (drop skip (span addr len ++ rest)) bs
      ≡ placed_first (addr + skip) rest bs (min (len - skip) (length bs))
zip_segment addr len skip rest bs h =
    let a = addr + skip in
    let n = len - skip in
    let l = length bs in
    ap (λ x. zip x bs) (drop-span addr len skip rest (omega arith)) ∙ elim (Bool-cases (leb n l)) [
      | inl e ↦
          zip_first a n rest bs (leb→le n l e) ∙ ap (placed_first a rest bs) (ground (arith, e))
      | inr e ↦
          ap (λ k. zip (span a k ++ rest) bs) {y = l + (n - l)} (ground (arith, e))
          ∙ ap (λ x. zip (x ++ rest) bs) (sym (span-append a l (n - l)))
          ∙ ap (λ x. zip x bs) (append_assoc (span a l) (span (a + l) (n - l)) rest)
          ∙ zip_first a l (span (a + l) (n - l) ++ rest) bs (omega arith)
          ∙ ap (λ x. zip (span a (length (take l bs))) (take l bs) ++ x)
              (zip_none (span (a + l) (n - l) ++ rest) rest bs)
          ∙ ap (placed_first a rest bs) (ground (arith, e))
    ]

empty : (bs : List ℕ) → (length bs == 0) ≡ true → bs ≡ []
empty [] h = refl
empty (b ∷ bs) h = absurd (nonzero (length bs) h)
  where
    nonzero : (n : ℕ) → (suc n == 0) ≡ true → ⊥
    nonzero n h = ground arith

module _ (g : GuestMemory) where
  open g use {Mem, covers}

  pub write_runs : Mem → List Run → Mem
  write_runs m [] = m
  write_runs m (r ∷ rs) = write_runs (write_slice g m r.base r.bytes) rs

  -- The writes went through, and put exactly these bytes at these addresses, in order.
  pub record IsSent (m : Mem) (placed : List (ℕ × ℕ)) (r : Bool × Mem × ℕ) : Type 0 where
    pub succeeded : r.0 ≡ true
    pub runs : List Run
    pub written : r.1 ≡ write_runs m runs
    pub exact : pairs runs ≡ placed
    pub counted : r.2 ≡ length placed

  unfoldable pub Holds : Mem → Segment → Type 0
  Holds m s = covers m s.addr s.len ≡ true

  as_placed :
      {m : Mem} {xs ys : List (ℕ × ℕ)} {r : Bool × Mem × ℕ}
      → xs ≡ ys
      → IsSent m xs r
      → IsSent m ys r
  as_placed {m} {r = r} e s = subst (λ x. IsSent m x r) e s

  nothing : (m : Mem) → IsSent m [] (true, m, 0)
  unfolding write_runs pairs
  nothing m = record { succeeded = refl; runs = []; written = refl; exact = refl; counted = refl }

  -- A segment is still held after a write.
  still_held :
      (m : Mem) (at : ℕ) (bytes : List ℕ) (ss : List Segment)
      → All (Holds m) ss
      → All (Holds (write_slice g m at bytes)) ss
  unfolding Holds write_slice
  still_held m at bytes ss h =
      All-map (Holds m) (Holds (write_slice g m at bytes))
        (λ s c. g.covers-write (length bytes) m at (number bytes) s.addr s.len ∙ c) ss h

  -- One run, and then what the rest of the loop did.
  then-IsSent :
      (m : Mem) (at : ℕ) (bytes : List ℕ) {placed : List (ℕ × ℕ)} {r : Bool × Mem × ℕ}
      → IsSent (write_slice g m at bytes) placed r
      → IsSent m (zip (span at (length bytes)) bytes ++ placed) (r.0, r.1, length bytes + r.2)
  unfolding write_runs pairs
  then-IsSent m at bytes {placed} s = record {
    succeeded = s.succeeded;
    runs = record { base = at; bytes = bytes } ∷ s.runs;
    written = s.written;
    exact = ap (λ x. zip (span at (length bytes)) bytes ++ x) s.exact;
    counted = omega (
      arith,
      s.counted,
      length-append_pairs (zip (span at (length bytes)) bytes) placed,
      length-zip-span at bytes,
    );
  }

  -- When guest memory holds the segments, the loop of a write puts the bytes, in order and as many
  -- as there is room for, at the addresses of the segments after the first `skip`, and nothing else.
  pub write_segments-IsSent :
      (m : Mem) (ss : List Segment) (skip : ℕ) (bs : List ℕ)
      → All (Holds m) ss
      → IsSent m (zip (drop skip (segment_addresses ss)) bs) (write_segments g m ss skip bs)
  unfolding write_segments segment_addresses Holds zip
  write_segments-IsSent m [] zero bs h = nothing m
  write_segments-IsSent m [] (suc skip) bs h = nothing m
  write_segments-IsSent m (s ∷ ss) skip bs h = elim (Bool-cases (length bs == 0)) [
    | inl z ↦
        let none_left = ap (zip (drop skip (segment_addresses (s ∷ ss)))) (empty bs z) in
        rw z (
          as_placed (sym (none_left ∙ zip-nil (drop skip (segment_addresses (s ∷ ss)))))
            (nothing m))
    | inr z ↦ elim (Bool-cases (leb s.len skip)) [
      | inl e ↦
          let len = length-span s.addr s.len in
          let past =
            drop-append_past (span s.addr s.len) (segment_addresses ss) skip
              (omega (arith, len, leb→le s.len skip e)) in
          let skipped = past ∙ ap (λ k. drop (skip - k) (segment_addresses ss)) len in
          rw (z, e)
            (as_placed (ap (λ x. zip x bs) (sym skipped))
              (write_segments-IsSent m ss (skip - s.len) bs h.1))
      | inr e ↦
          let n = min (s.len - skip) (length bs) in
          let held =
            g.covers-part m s.addr s.len skip n h.0 (ground (arith, e, z)) (ground (arith, e)) in
          let at : add64 s.addr skip ≡ s.addr + skip =
            ground (arith, e, g.covers-le m s.addr s.len h.0) in
          let taken = length-take n bs (omega arith) in
          let rest =
            write_segments-IsSent (write_slice g m (s.addr + skip) (take n bs)) ss 0 (drop n bs)
              (still_held m (s.addr + skip) (take n bs) ss h.1) in
          let all =
            as_placed
              (sym (zip_segment s.addr s.len skip (segment_addresses ss) bs (ground (arith, e))))
              (then-IsSent m (s.addr + skip) (take n bs) rest) in
          let r = write_segments g (write_slice g m (s.addr + skip) (take n bs)) ss 0 (drop n bs) in
          let goal = zip (drop skip (segment_addresses (s ∷ ss))) bs in
          rw (z, e, at, held) (subst (λ k. IsSent m goal (r.0, r.1, k + r.2)) taken all)
    ]
  ]
