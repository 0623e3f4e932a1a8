-- ===== src/Virtqueue/Used.antt =====
-- The used ring: what `push_used` publishes to the driver.
use nesbox.Base.{
  ℕ, ◌+◌, ◌*◌, ◌%◌, ◌≤◌, ◌<◌, ◌≡◌, refl, ◌∙◌, ◌≢◌, ◌⊎◌, some, arith, u16_mod, u32_mod, u64_mod,
  add64, wrapping_add16, ℕ_discrete,
}
use nesbox.Guest.{GuestMemory}
use nesbox.Virtqueue.{QState, push_used}

-- Where the ring holds the element of slot `i`.
abbrev pub elem_addr : QState → ℕ → ℕ
elem_addr q i = q.used + 4 + i * 8

module _ (g : GuestMemory) where
  open g use {Mem, read, write, read-write_self, read-write_apart, read-lt}

  -- A used ring that lies in guest memory and whose index is `idx`.
  pub record UsedRing (m : Mem) (q : QState) (idx : ℕ) : Type 0 where
    pub some_size : 0 < q.size
    pub placed : 0 < q.used
    pub no_wrap : q.used + 4 + q.size * 8 < u64_mod
    pub index : read 2 m (q.used + 2) ≡ some idx
    pub heads : (i : ℕ) → i < q.size → (x : ℕ) × (read 4 m (elem_addr q i) ≡ some x)
    pub lens : (i : ℕ) → i < q.size → (x : ℕ) × (read 4 m (elem_addr q i + 4) ≡ some x)

  -- With a ring in guest memory the writes of `push_used` go where they are meant to.
  push_used-eq :
      (m : Mem) (q : QState) (idx head len : ℕ)
      → UsedRing m q idx
      → push_used g m q head len ≡ (
        wrapping_add16 idx 1,
        write 2
            (write 4
              (write 4 m (elem_addr q (idx % q.size)) head)
              (elem_addr q (idx % q.size) + 4)
              len)
            (q.used + 2)
            (wrapping_add16 idx 1),
      )
  unfolding push_used
  push_used-eq m q idx head len r =
      let ua : add64 q.used 2 ≡ q.used + 2 = omega arith in
      let ue : add64 (add64 q.used 4) (idx % q.size * 8) ≡ elem_addr q (idx % q.size) =
        omega arith in
      let le : add64 (elem_addr q (idx % q.size)) 4 ≡ elem_addr q (idx % q.size) + 4 =
        omega arith in
      ground (arith, ua, ue, le)

  -- Guest memory once slot `i` holds `head` and `len` and the index is `next`.
  abbrev published : Mem → QState → ℕ → ℕ → ℕ → ℕ → Mem
  published m q i head len next =
      write 2 (write 4 (write 4 m (elem_addr q i) head) (elem_addr q i + 4) len) (q.used + 2) next

  read-published_apart :
      (k : ℕ) (m : Mem) (q : QState) (i head len next b : ℕ)
      → (elem_addr q i + 8 ≤ b) ⊎ (b + k ≤ elem_addr q i)
      → (q.used + 4 ≤ b) ⊎ (b + k ≤ q.used + 2)
      → read k (published m q i head len next) b ≡ read k m b
  read-published_apart k m q i head len next b he hi =
      read-write_apart 2 k _ (q.used + 2) b next (omega arith)
      ∙ read-write_apart 4 k _ (elem_addr q i + 4) b len (omega arith)
      ∙ read-write_apart 4 k m (elem_addr q i) b head (omega arith)

  module _ (m : Mem) (q : QState) (idx i head len next : ℕ) (r : UsedRing m q idx) (hi : i < q.size)
      (hh : head < u32_mod) (hl : len < u32_mod) (hn : next < u16_mod) where
    published-index : read 2 (published m q i head len next) (q.used + 2) ≡ some next
    published-index =
        read-write_self 2 _ (q.used + 2) next
          (read-write_apart 4 2 _ (elem_addr q i + 4) (q.used + 2) len (omega arith)
            ∙ read-write_apart 4 2 m (elem_addr q i) (q.used + 2) head (omega arith)
            ∙ r.index)
          hn

    published-head : read 4 (published m q i head len next) (elem_addr q i) ≡ some head
    published-head =
        read-write_apart 2 4 _ (q.used + 2) (elem_addr q i) next (omega arith)
        ∙ read-write_apart 4 4 _ (elem_addr q i + 4) (elem_addr q i) len (omega arith)
        ∙ read-write_self 4 m (elem_addr q i) head (r.heads i hi).1 hh

    published-len : read 4 (published m q i head len next) (elem_addr q i + 4) ≡ some len
    published-len =
        read-write_apart 2 4 _ (q.used + 2) (elem_addr q i + 4) next (omega arith)
        ∙ read-write_self 4 _ (elem_addr q i + 4) len
            (read-write_apart 4 4 m (elem_addr q i) (elem_addr q i + 4) head (omega arith)
              ∙ (r.lens i hi).1)
            hl

  -- The element of slot `i`, as the driver reads it.
  abbrev pub Holds : Mem → QState → ℕ → ℕ → ℕ → Type 0
  Holds m q i head len =
      (read 4 m (elem_addr q i) ≡ some head) × (read 4 m (elem_addr q i + 4) ≡ some len)

  published-Holds_other :
      (m : Mem) (q : QState) (i j head len next h l : ℕ)
      → j ≢ i
      → Holds m q j h l
      → Holds (published m q i head len next) q j h l
  published-Holds_other m q i j head len next h l ne (a, b) = (
    read-published_apart 4 m q i head len next (elem_addr q j) (omega arith) (omega arith) ∙ a,
    read-published_apart 4 m q i head len next (elem_addr q j + 4) (omega arith) (omega arith) ∙ b,
  )

  published-UsedRing :
      (m : Mem) (q : QState) (idx i head len next : ℕ)
      → UsedRing m q idx
      → i < q.size
      → head < u32_mod
      → len < u32_mod
      → next < u16_mod
      → UsedRing (published m q i head len next) q next
  published-UsedRing m q idx i head len next r hi hh hl hn = record {
    some_size = r.some_size;
    placed = r.placed;
    no_wrap = r.no_wrap;
    index = published-index m q idx i head len next r hi hh hl hn;
    heads = λ j hj. heads j hj (ℕ_discrete j i);
    lens = λ j hj. lens j hj (ℕ_discrete j i);
  }
    where
      after : Mem
      after = published m q i head len next

      kept : (j : ℕ) (hj : j < q.size) → j ≢ i → Holds after q j (r.heads j hj).0 (r.lens j hj).0
      kept j hj ne =
          published-Holds_other m q i j head len next _ _ ne ((r.heads j hj).1, (r.lens j hj).1)

      heads : (j : ℕ) → j < q.size → Dec (j ≡ i) → (x : ℕ) × (read 4 after (elem_addr q j) ≡ some x)
      heads j hj (yes e) = (head, rw e (published-head m q idx i head len next r hi hh hl hn))
      heads j hj (no ne) = ((r.heads j hj).0, (kept j hj ne).0)

      lens :
          (j : ℕ) → j < q.size → Dec (j ≡ i) → (x : ℕ) × (read 4 after (elem_addr q j + 4) ≡ some x)
      lens j hj (yes e) = (len, rw e (published-len m q idx i head len next r hi hh hl hn))
      lens j hj (no ne) = ((r.lens j hj).0, (kept j hj ne).1)

  -- What one completion leaves: the ring with its index one further, the element where the old index
  -- says, and every other element as it was.
  pub record Completes (m after : Mem) (q : QState) (idx head len : ℕ) : Type 0 where
    pub ring : UsedRing after q (wrapping_add16 idx 1)
    pub element : Holds after q (idx % q.size) head len
    pub others : (j h l : ℕ) → j ≢ idx % q.size → Holds m q j h l → Holds after q j h l

  -- `push_used` on a used ring in guest memory writes the element where the old index says, moves
  -- the index on by one, keeps every other element, and returns the new index.
  pub push_used-Completes :
      (m : Mem) (q : QState) (idx head len : ℕ)
      → UsedRing m q idx
      → head < u32_mod
      → len < u32_mod
      → Completes m (push_used g m q head len).1 q idx head len
        × ((push_used g m q head len).0 ≡ wrapping_add16 idx 1)
  push_used-Completes m q idx head len r hh hl = rw (push_used-eq m q idx head len r) (
    record {
      ring = published-UsedRing m q idx slot head len next r hi hh hl (omega arith);
      element = (
        published-head m q idx slot head len next r hi hh hl (omega arith),
        published-len m q idx slot head len next r hi hh hl (omega arith),
      );
      others = λ j h l ne. published-Holds_other m q slot j head len next h l ne;
    },
    refl,
  )
    where
      slot : ℕ
      slot = idx % q.size

      next : ℕ
      next = wrapping_add16 idx 1

      hi : slot < q.size
      hi = let n = r.some_size in omega arith
