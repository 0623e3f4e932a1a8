-- ===== src/Blk/Request.antt =====
-- Turning a descriptor chain into a request, from virtio-devices/src/blk/request.rs.
pub mod Bounds
pub mod Errors
pub mod Accepted
use nesbox.Base.{
  ℕ, ◌+◌, ◌*◌, ◌^◌, Bool, not, ◌&&◌, ◌||◌, Option, none, some, List, [], ◌∷◌, ltb, ◌==◌,
  if◌then◌else◌, add64, saturating_add64, checked_mul64, has_bit, ◌>>=◌,
}
use nesbox.Guest.{GuestMemory}
use nesbox.Virtqueue.{Desc, desc_f_write}
use nesbox.Blk.Disk.{Disk, len_bytes, sector_size}

abbrev pub blk_t_in : ℕ
blk_t_in = 0

abbrev pub blk_t_out : ℕ
blk_t_out = 1

abbrev pub blk_t_flush : ℕ
blk_t_flush = 4

abbrev pub blk_t_get_id : ℕ
blk_t_get_id = 8

abbrev pub blk_t_discard : ℕ
blk_t_discard = 11

abbrev pub blk_t_write_zeroes : ℕ
blk_t_write_zeroes = 13

abbrev pub blk_s_ok : ℕ
blk_s_ok = 0

abbrev pub blk_s_ioerr : ℕ
blk_s_ioerr = 1

abbrev pub blk_s_unsupp : ℕ
blk_s_unsupp = 2

abbrev pub discard_seg_size : ℕ
discard_seg_size = 16

abbrev pub max_request_bytes : ℕ
max_request_bytes = 128 * 2 ^ 20

pub data Op : Type 0 where
  read : Op
  write : Op
  flush : Op
  get_id : Op
  discard : ℕ → ℕ → Op
  write_zeroes : ℕ → ℕ → Bool → Op

-- A data segment: guest address and length.
pub record Segment : Type 0 where
  pub addr : ℕ
  pub len : ℕ

pub record Request : Type 0 where
  pub head : ℕ
  pub op : Op
  pub offset : ℕ
  pub segments : List Segment
  pub total : ℕ
  pub status_addr : ℕ

pub data ParseError : Type 0 where
  malformed : ParseError
  rejected : ℕ → ℕ → ParseError

pub data Parsed : Type 0 where
  request : Request → Parsed
  failed : ParseError → Parsed

-- What the kind of a request comes to: an operation with its file offset, or a status.
pub data Decided : Type 0 where
  issue : Op → ℕ → Decided
  refuse : ℕ → Decided

-- The descriptors between the header and the status, and the status: `descs` has at least one.
pub split_last : Desc → List Desc → List Desc × Desc
split_last d [] = ([], d)
split_last d (e ∷ es) = let rest = split_last e es in (d ∷ rest.0, rest.1)

-- The kinds Read and Write.
pub decide_transfer : Disk → Bool → ℕ → ℕ → Decided
decide_transfer disk is_write sector total =
    if is_write && disk.read_only
    then refuse blk_s_ioerr
    else elim (checked_mul64 sector sector_size) [
      | none ↦ refuse blk_s_ioerr
      | some offset ↦
          if ltb (len_bytes disk) (saturating_add64 offset total)
          then refuse blk_s_ioerr
          else issue (if is_write then write else read) offset
    ]

-- The kinds Discard and WriteZeroes, once their segment is read: sector, count and flags.
pub decide_range : Disk → Bool → ℕ × ℕ × ℕ → Decided
decide_range disk is_discard (start, count, flags) = elim (checked_mul64 start sector_size) [
  | none ↦ refuse blk_s_ioerr
  | some byte_off ↦
      if ltb (len_bytes disk) (saturating_add64 byte_off (count * sector_size))
      then refuse blk_s_ioerr
      else if is_discard
      then if flags == 0 then issue (discard start count) byte_off else refuse blk_s_unsupp
      else issue (write_zeroes start count (has_bit flags 0)) byte_off
]

-- The one segment that such a request may have.
unfoldable pub range_segment : List Segment → Option Segment
range_segment (s ∷ []) = if ltb s.len discard_seg_size then none else some s
range_segment segments = none

-- What a decision comes to: the request, or the rejection at the status address.
unfoldable pub conclude : ℕ → ℕ → List Segment → ℕ → Decided → Parsed
conclude head status_addr segments total (refuse status) = failed (rejected status_addr status)
conclude head status_addr segments total (issue op offset) = request (record {
  head = head;
  op = op;
  offset = offset;
  segments = segments;
  total = total;
  status_addr = status_addr;
})

module _ (g : GuestMemory) where
  open g use {Mem, covers}

  unfoldable pub read_discard_segment : Mem → ℕ → Option (ℕ × ℕ × ℕ)
  read_discard_segment m addr = do
    sector ← g.read 8 m addr
    count ← g.read 4 m (add64 addr 8)
    flags ← g.read 4 m (add64 addr 12)
    some (sector, count, flags)

  -- The loop over the data descriptors, with the bytes so far; `none` is the rejection.
  pub collect_segments : Mem → List Desc → ℕ → Option (List Segment × ℕ)
  collect_segments m [] total = some ([], total)
  collect_segments m (d ∷ ds) total =
      if d.len == 0
      then collect_segments m ds total
      else if not (covers m d.addr d.len)
      then none
      else if ltb max_request_bytes (total + d.len)
      then none
      else collect_segments m ds (total + d.len) >>= λ (segments, sum).
          some (record { addr = d.addr; len = d.len } ∷ segments, sum)

  pub decide_kind : Mem → Disk → ℕ → ℕ → List Segment → ℕ → Decided
  decide_kind m disk kind sector segments total =
      if (kind == blk_t_in) || (kind == blk_t_out)
      then decide_transfer disk (kind == blk_t_out) sector total
      else if kind == blk_t_flush
      then issue flush 0
      else if kind == blk_t_get_id
      then issue get_id 0
      else if (kind == blk_t_discard) || (kind == blk_t_write_zeroes)
      then if disk.read_only
        then refuse blk_s_ioerr
        else elim (range_segment segments >>= λ s. read_discard_segment m s.addr) [
          | none ↦ refuse blk_s_ioerr
          | some seg ↦ decide_range disk (kind == blk_t_discard) seg
        ]
      else refuse blk_s_unsupp

  -- The body once the segments are known.
  pub parse_kind : Mem → Disk → ℕ → ℕ → ℕ → ℕ → List Segment × ℕ → Parsed
  parse_kind m disk head status_addr kind sector (segments, total) =
      conclude head status_addr segments total (decide_kind m disk kind sector segments total)

  -- What is read before the kind is looked at: kind, sector, segments and their sum.
  pub read_request : Mem → Desc → List Desc → Option (ℕ × ℕ × List Segment × ℕ)
  read_request m header data_descs = if ltb header.len 16 then none else do
    kind ← g.read 4 m header.addr
    sector ← g.read 8 m (add64 header.addr 8)
    (segments, total) ← collect_segments m data_descs 0
    some (kind, sector, segments, total)

  pub parse_chain : Mem → Disk → ℕ → Desc → List Desc × Desc → Parsed
  parse_chain m disk head header (data_descs, status) =
      if ltb status.len 1 || not (has_bit status.flags desc_f_write)
      then failed malformed
      else elim (read_request m header data_descs) [
        | none ↦ failed (rejected status.addr blk_s_ioerr)
        | some (kind, sector, segments, total) ↦
            parse_kind m disk head status.addr kind sector (segments, total)
      ]

  unfoldable pub parse : Mem → Disk → ℕ → List Desc → Parsed
  parse m disk head [] = failed malformed
  parse m disk head (d ∷ []) = failed malformed
  parse m disk head (header ∷ d ∷ ds) = parse_chain m disk head header (split_last d ds)
