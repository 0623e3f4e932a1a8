-- ===== src/Blk/Request/Accepted.antt =====
-- Every read and write that a well-behaved driver submits becomes the request it asked for.
use nesbox.Base.{
  ℕ, ◌+◌, ◌-◌, ◌*◌, ◌≤◌, ◌<◌, ◌≡◌, ◌∙◌, refl, ap, arith, inl, inr, Bool, true, false, not, ◌||◌,
  some, List, [], ◌∷◌, ◌++◌, All, ltb, ◌==◌, if◌then◌else◌, u64_mod, add64, has_bit, Bool-cases,
  ==_iff,
}
use nesbox.Guest.{GuestMemory}
use nesbox.Virtqueue.{Desc, desc_f_write}
use nesbox.Blk.Disk.{Disk, len_bytes, sector_size}
use nesbox.Blk.Request.{
  read, write, Segment, Request, request, issue, split_last, decide_transfer, collect_segments,
  decide_kind, parse_kind, conclude, read_request, parse_chain, parse, max_request_bytes, blk_t_in,
  blk_t_out,
}

-- The segments of the descriptors that are not empty, and the bytes of all.
pub kept : List Desc → List Segment
kept [] = []
kept (d ∷ ds) = if d.len == 0 then kept ds else record { addr = d.addr; len = d.len } ∷ kept ds

unfoldable pub desc_bytes : List Desc → ℕ
desc_bytes [] = 0
desc_bytes (d ∷ ds) = d.len + desc_bytes ds

split_last-append :
    (d : Desc) (ds : List Desc) (s : Desc) → split_last d (ds ++ s ∷ []) ≡ (d ∷ ds, s)
unfolding split_last
split_last-append d [] s = refl
split_last-append d (e ∷ es) s = ap (λ r. (d ∷ r.0, r.1)) (split_last-append e es s)

unfoldable pub kind_of : Bool → ℕ
kind_of is_write = if is_write then blk_t_out else blk_t_in

-- The request that such a chain asks for.
pub asked : ℕ → Bool → ℕ → List Desc → Desc → Request
asked head is_write sector ds s = record {
  head = head;
  op = if is_write then write else read;
  offset = sector * sector_size;
  segments = kept ds;
  total = desc_bytes ds;
  status_addr = s.addr;
}

module _ (g : GuestMemory) (m : g.Mem) where
  -- A chain that asks for a transfer of the disk: header, data in guest memory, status.
  pub record IsTransfer (disk : Disk) (is_write : Bool) (sector : ℕ) (header : Desc)
      (ds : List Desc) (s : Desc) : Type 0 where
    pub header_long : 16 ≤ header.len
    pub kind_read : g.read 4 m header.addr ≡ some (kind_of is_write)
    pub sector_read : g.read 8 m (add64 header.addr 8) ≡ some sector
    pub covered : All (λ d. g.covers m d.addr d.len ≡ true) ds
    pub bounded : desc_bytes ds ≤ max_request_bytes
    pub on_disk : sector * sector_size + desc_bytes ds ≤ len_bytes disk
    pub may_write : is_write ≡ true → disk.read_only ≡ false
    pub has_room : 1 ≤ s.len
    pub writable : has_bit s.flags desc_f_write ≡ true

  collect_segments-eq-kept :
      (ds : List Desc) (total : ℕ)
      → All (λ d. g.covers m d.addr d.len ≡ true) ds
      → total + desc_bytes ds ≤ max_request_bytes
      → collect_segments g m ds total ≡ some (kept ds, total + desc_bytes ds)
  unfolding collect_segments kept desc_bytes
  collect_segments-eq-kept [] total h b = ap (λ n. some ([], n)) (omega arith)
  collect_segments-eq-kept (d ∷ ds) total h b = elim (Bool-cases (d.len == 0)) [
    | inl e ↦
        let rest = collect_segments-eq-kept ds total h.1 (omega arith) in
        rw (e, rest) (ap (λ n. some (kept ds, n)) (omega (arith, (==_iff d.len 0).0 e)))
    | inr e ↦
        let rest = collect_segments-eq-kept ds (total + d.len) h.1 (omega arith) in
        let le : ltb max_request_bytes (total + d.len) ≡ false = ground arith in
        rw (e, h.0, le, rest)
          (ap (λ n. some (record { addr = d.addr; len = d.len } ∷ kept ds, n)) (omega arith))
  ]

  read_request-eq :
      (disk : Disk) (is_write : Bool) (sector : ℕ) (header : Desc) (ds : List Desc) (s : Desc)
      → IsTransfer disk is_write sector header ds s
      → read_request g m header ds ≡ some (kind_of is_write, sector, kept ds, desc_bytes ds)
  unfolding read_request
  read_request-eq disk is_write sector header ds s h =
      let long : ltb header.len 16 ≡ false = ground (arith, h.header_long) in
      let c = collect_segments-eq-kept ds 0 h.covered (omega (arith, h.bounded)) in
      rw (long, h.kind_read, h.sector_read, c)
        (ap (λ n. some (kind_of is_write, sector, kept ds, n)) (omega arith))

  decide_transfer-eq-issue :
      (disk : Disk) (is_write : Bool) (sector : ℕ) (header : Desc) (ds : List Desc) (s : Desc)
      → len_bytes disk < u64_mod - 1
      → IsTransfer disk is_write sector header ds s
      → decide_transfer disk is_write sector (desc_bytes ds)
        ≡ issue (if is_write then write else read) (sector * sector_size)
  unfolding decide_transfer
  decide_transfer-eq-issue disk true sector header ds s small h =
      ground (arith, h.may_write refl, h.on_disk)
  decide_transfer-eq-issue disk false sector header ds s small h = ground (arith, h.on_disk)

  decide_kind-kind_of :
      (disk : Disk) (is_write : Bool) (sector : ℕ) (segments : List Segment) (total : ℕ)
      → decide_kind g m disk (kind_of is_write) sector segments total
        ≡ decide_transfer disk is_write sector total
  unfolding decide_kind kind_of
  decide_kind-kind_of disk true sector segments total = refl
  decide_kind-kind_of disk false sector segments total = refl

  parse_kind-transfer :
      (disk : Disk) (head : ℕ) (is_write : Bool) (sector : ℕ) (header : Desc) (ds : List Desc)
      (s : Desc)
      → len_bytes disk < u64_mod - 1
      → IsTransfer disk is_write sector header ds s
      → parse_kind g m disk head s.addr (kind_of is_write) sector (kept ds, desc_bytes ds)
        ≡ request (asked head is_write sector ds s)
  unfolding parse_kind conclude asked
  parse_kind-transfer disk head is_write sector header ds s small h =
      ap (conclude head s.addr (kept ds) (desc_bytes ds)) (
        decide_kind-kind_of disk is_write sector (kept ds) (desc_bytes ds)
        ∙ decide_transfer-eq-issue disk is_write sector header ds s small h)

  parse_chain-transfer :
      (disk : Disk) (head : ℕ) (is_write : Bool) (sector : ℕ) (header : Desc) (ds : List Desc)
      (s : Desc)
      → len_bytes disk < u64_mod - 1
      → IsTransfer disk is_write sector header ds s
      → parse_chain g m disk head header (ds, s) ≡ request (asked head is_write sector ds s)
  unfolding parse_chain
  parse_chain-transfer disk head is_write sector header ds s small h =
      let room : (ltb s.len 1 || not (has_bit s.flags desc_f_write)) ≡ false =
        ground (arith, h.has_room, h.writable) in
      rw (room, read_request-eq disk is_write sector header ds s h)
        (parse_kind-transfer disk head is_write sector header ds s small h)

  -- A chain with a header, data in guest memory of at most 128 MiB that ends within the disk, and a
  -- status descriptor, is parsed to the very read or write it asks for: under its head, at its byte
  -- offset, over its data in order without the empty segments. A write needs a disk that takes
  -- writes, and the disk has less than 2^64 - 1 bytes.
  pub parse-transfer :
      (disk : Disk) (head : ℕ) (is_write : Bool) (sector : ℕ) (header : Desc) (ds : List Desc)
      (s : Desc)
      → len_bytes disk < u64_mod - 1
      → IsTransfer disk is_write sector header ds s
      → parse g m disk head (header ∷ ds ++ s ∷ []) ≡ request (asked head is_write sector ds s)
  unfolding parse split_last
  parse-transfer disk head is_write sector header [] s small h =
      parse_chain-transfer disk head is_write sector header [] s small h
  parse-transfer disk head is_write sector header (d ∷ ds) s small h =
      rw (split_last-append d ds s)
        (parse_chain-transfer disk head is_write sector header (d ∷ ds) s small h)
