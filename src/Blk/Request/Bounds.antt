-- ===== src/Blk/Request/Bounds.antt =====
-- What holds of every request that `parse` lets through: its segments, its size, its place on disk.
use nesbox.Base.{
  ℕ, ◌+◌, ◌-◌, ◌*◌, ◌≤◌, ◌<◌, ◌≡◌, refl, ap, subst, arith, inl, inr, Bool, true, false, not, ◌||◌,
  Option, none, some, List, [], ◌∷◌, All, ltb, ◌==◌, u64_mod, if-cases, if-holds, >>=-eq-some,
  ◌>>=◌, add64, has_bit,
}
use mathlib.Core.Option.{some_inj}
use nesbox.Guest.{GuestMemory}
use nesbox.Virtqueue.{Desc, desc_f_write}
use nesbox.Blk.Disk.{Disk, len_bytes, sector_size}
use nesbox.Blk.Request.{
  Op, read, write, flush, get_id, discard, write_zeroes, Segment, Request, Parsed, request, failed,
  Decided, issue, refuse, split_last, decide_transfer, decide_range, range_segment,
  read_discard_segment, collect_segments, decide_kind, parse_kind, conclude, rejected, read_request,
  parse_chain, parse, blk_s_ioerr, blk_t_discard, max_request_bytes,
}

pub sum_len : List Segment → ℕ
sum_len [] = 0
sum_len (s ∷ ss) = s.len + sum_len ss

-- Where an operation may go: a transfer at `offset` of `total` bytes, a range at its own sectors.
pub InRange : Disk → Op → ℕ → ℕ → Type 0
InRange disk read offset total = offset + total ≤ len_bytes disk
InRange disk write offset total = (offset + total ≤ len_bytes disk) × (disk.read_only ≡ false)
InRange disk flush offset total = Unit
InRange disk get_id offset total = Unit
InRange disk (discard start count) offset total =
    ((start + count) * sector_size ≤ len_bytes disk) × (disk.read_only ≡ false)
InRange disk (write_zeroes start count unmap) offset total =
    ((start + count) * sector_size ≤ len_bytes disk) × (disk.read_only ≡ false)

-- The decision allows no operation outside the disk.
DecidedIn : Disk → ℕ → Decided → Type 0
DecidedIn disk total (refuse status) = Unit
DecidedIn disk total (issue op offset) = InRange disk op offset total

decide_transfer-DecidedIn :
    (disk : Disk) (is_write : Bool) (sector total : ℕ)
    → len_bytes disk < u64_mod - 1
    → DecidedIn disk total (decide_transfer disk is_write sector total)
unfolding decide_transfer DecidedIn InRange
decide_transfer-DecidedIn disk is_write sector total small = ground arith

decide_range-DecidedIn :
    (disk : Disk) (is_discard : Bool) (seg : ℕ × ℕ × ℕ) (total : ℕ)
    → len_bytes disk < u64_mod - 1
    → disk.read_only ≡ false
    → DecidedIn disk total (decide_range disk is_discard seg)
unfolding decide_range DecidedIn InRange
decide_range-DecidedIn disk is_discard (start, count, flags) total small w = ground arith

module _ (g : GuestMemory) (m : g.Mem) where
  decide_kind-DecidedIn :
      (disk : Disk) (kind sector : ℕ) (segments : List Segment) (total : ℕ)
      → len_bytes disk < u64_mod - 1
      → DecidedIn disk total (decide_kind g m disk kind sector segments total)
  unfolding decide_kind DecidedIn InRange
  decide_kind-DecidedIn disk kind sector segments total small =
      let P = DecidedIn disk total in
      if-holds P ((kind == 0) || (kind == 1))
        (λ e. decide_transfer-DecidedIn disk (kind == 1) sector total small)
        (λ e.
          if-holds P (kind == 4) (λ f. tt)
            (λ f.
              if-holds P (kind == 8) (λ k. tt)
                (λ k.
                  if-holds P ((kind == 11) || (kind == 13))
                    (λ r.
                      if-holds P disk.read_only (λ w. tt)
                        (λ w.
                          ranged w
                            (range_segment segments >>= λ s. read_discard_segment g m s.addr)))
                    (λ r. tt))))
    where
      ranged :
          disk.read_only ≡ false
          → (seg : Option (ℕ × ℕ × ℕ))
          → DecidedIn disk total (elim seg [
            | none ↦ refuse blk_s_ioerr
            | some s ↦ decide_range disk (kind == blk_t_discard) s
          ])
      ranged w none = tt
      ranged w (some s) = decide_range-DecidedIn disk (kind == blk_t_discard) s total small w

  -- A segment is not empty and lies in guest memory.
  pub Backed : Segment → Type 0
  Backed s = (0 < s.len) × (g.covers m s.addr s.len ≡ true)

  -- The segments that the loop keeps are backed, and the sum is theirs, within the bound.
  record Collected (total : ℕ) (kept : List Segment × ℕ) : Type 0 where
    backed : All Backed kept.0
    summed : kept.1 ≡ total + sum_len kept.0
    small : kept.1 ≤ max_request_bytes

  collect_segments-Collected :
      (ds : List Desc) (total : ℕ)
      → total ≤ max_request_bytes
      → {kept : List Segment × ℕ} → collect_segments g m ds total ≡ some kept
      → Collected total kept
  unfolding collect_segments sum_len Backed
  collect_segments-Collected [] total h e =
      subst (Collected total) (some_inj.0 e)
        (record { backed = tt; summed = omega arith; small = h })
  collect_segments-Collected (d ∷ ds) total h e = elim (if-cases (d.len == 0) e) [
    | inl t ↦ collect_segments-Collected ds total h t.1
    | inr t ↦ elim (if-cases (not (g.covers m d.addr d.len)) t.1) [
      | inl u ↦ cc
      | inr u ↦ elim (if-cases (ltb max_request_bytes (total + d.len)) u.1) [
        | inl v ↦ cc
        | inr v ↦
            let (kept, c, f) = >>=-eq-some (collect_segments g m ds (total + d.len)) _ v.1 in
            let rest = collect_segments-Collected ds (total + d.len) (ground (arith, v.0)) c in
            subst (Collected total) (some_inj.0 f) (record {
              backed = ((ground (arith, t.0), ground (arith, u.0)), rest.backed);
              summed = omega (arith, rest.summed);
              small = rest.small;
            })
      ]
    ]
  ]

  -- What a caller may rely on in a request: every segment is guest memory, the total is theirs and
  -- within the bound, and the operation stays on the disk and respects read-only.
  pub record IsBounded (disk : Disk) (r : Request) : Type 0 where
    pub backed : All Backed r.segments
    pub summed : r.total ≡ sum_len r.segments
    pub small : r.total ≤ max_request_bytes
    pub in_range : InRange disk r.op r.offset r.total

  ParsedIn : Disk → Parsed → Type 0
  ParsedIn disk (failed e) = Unit
  ParsedIn disk (request r) = IsBounded disk r

  parse_kind-ParsedIn :
      (disk : Disk) (head status_addr kind sector : ℕ) (kept : List Segment × ℕ)
      → len_bytes disk < u64_mod - 1
      → Collected 0 kept
      → ParsedIn disk (parse_kind g m disk head status_addr kind sector kept)
  unfolding parse_kind conclude ParsedIn DecidedIn
  parse_kind-ParsedIn disk head status_addr kind sector (segments, total) small c =
      after (decide_kind g m disk kind sector segments total)
        (decide_kind-DecidedIn disk kind sector segments total small)
    where
      after :
          (d : Decided)
          → DecidedIn disk total d
          → ParsedIn disk (conclude head status_addr segments total d)
      after (refuse status) h = tt
      after (issue op offset) h = record {
        backed = c.backed;
        summed = omega (arith, c.summed);
        small = c.small;
        in_range = h;
      }

  read_request-Collected :
      (header : Desc) (ds : List Desc) {kind sector : ℕ} {segments : List Segment} {total : ℕ}
      → read_request g m header ds ≡ some (kind, sector, segments, total)
      → Collected 0 (segments, total)
  unfolding read_request
  read_request-Collected header ds e = elim (if-cases (ltb header.len 16) e) [
    | inl t ↦ cc
    | inr t ↦
        let (kind, _, e1) = >>=-eq-some (g.read 4 m header.addr) _ t.1 in
        let (sector, _, e2) = >>=-eq-some (g.read 8 m (add64 header.addr 8)) _ e1 in
        let (kept, c, e3) = >>=-eq-some (collect_segments g m ds 0) _ e2 in
        let same = some_inj.0 e3 in
        subst (Collected 0) (ap (λ q. (q.2, q.3)) same)
          (collect_segments-Collected ds 0 (omega arith) c)
  ]

  parse_chain-ParsedIn :
      (disk : Disk) (head : ℕ) (header : Desc) (chain : List Desc × Desc)
      → len_bytes disk < u64_mod - 1
      → ParsedIn disk (parse_chain g m disk head header chain)
  unfolding parse_chain ParsedIn
  parse_chain-ParsedIn disk head header (data_descs, status) small =
      if-holds (ParsedIn disk) (ltb status.len 1 || not (has_bit status.flags desc_f_write))
        (λ e. tt) (λ e. after (read_request g m header data_descs) refl)
    where
      after :
          (o : Option (ℕ × ℕ × List Segment × ℕ))
          → read_request g m header data_descs ≡ o
          → ParsedIn disk (elim o [
            | none ↦ failed (rejected status.addr blk_s_ioerr)
            | some (kind, sector, segments, total) ↦
                parse_kind g m disk head status.addr kind sector (segments, total)
          ])
      after none e = tt
      after (some (kind, sector, segments, total)) e =
          parse_kind-ParsedIn disk head status.addr kind sector (segments, total) small
            (read_request-Collected header data_descs e)

  parse-ParsedIn :
      (disk : Disk) (head : ℕ) (descs : List Desc)
      → len_bytes disk < u64_mod - 1
      → ParsedIn disk (parse g m disk head descs)
  unfolding parse ParsedIn
  parse-ParsedIn disk head [] small = tt
  parse-ParsedIn disk head (d ∷ []) small = tt
  parse-ParsedIn disk head (header ∷ d ∷ ds) small =
      parse_chain-ParsedIn disk head header (split_last d ds) small

  -- On a disk of less than 2^64 - 1 bytes, every request that `parse` lets through is bounded: its
  -- segments are not empty and lie in guest memory, their lengths sum to its total, which is at
  -- most 128 MiB, and a read, write, discard or write-zeroes ends within the disk, the last three
  -- only where the disk is not read-only.
  pub parse-IsBounded :
      (disk : Disk) (head : ℕ) (descs : List Desc) {r : Request}
      → len_bytes disk < u64_mod - 1
      → parse g m disk head descs ≡ request r
      → IsBounded disk r
  unfolding ParsedIn
  parse-IsBounded disk head descs small e =
      subst (ParsedIn disk) e (parse-ParsedIn disk head descs small)
