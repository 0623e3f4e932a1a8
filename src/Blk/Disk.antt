-- ===== src/Blk/Disk.antt =====
-- The backing file, from virtio-devices/src/blk/disk.rs: how it is opened, and what direct I/O asks
-- of a transfer. The answers of the kernel (the probe, the open, the size) are arguments.
pub mod Windows
use nesbox.Base.{
  ℕ, ◌+◌, ◌-◌, ◌*◌, ◌/◌, ◌%◌, Bool, true, false, ◌&&◌, Option, none, some, List, [], ◌∷◌, ltb, ◌==◌,
  if◌then◌else◌, min, max, ◌>>=◌,
}

abbrev pub sector_size : ℕ
sector_size = 512

abbrev pub max_block_size : ℕ
max_block_size = 4096

pub data CacheMode : Type 0 where
  auto : CacheMode
  direct : CacheMode
  writeback : CacheMode

unfoldable pub from_flag : Option Bool → CacheMode
from_flag none = auto
from_flag (some true) = direct
from_flag (some false) = writeback

pub record DioAlign : Type 0 where
  pub mem : ℕ
  pub offset : ℕ

pub record Disk : Type 0 where
  pub read_only : Bool
  pub sectors : ℕ
  pub block_size : ℕ
  pub dio : Option DioAlign

-- A segment of host memory: `base()` and `len()`.
pub record IoVec : Type 0 where
  pub base : ℕ
  pub len : ℕ

-- `probe_dio`, with what `statx` reports: whether the mask has the field, and the two alignments.
unfoldable pub probe_dio : Option (Bool × ℕ × ℕ) → Option DioAlign
probe_dio none = none
probe_dio (some (masked, mem, offset)) =
    if masked
    then if mem == 0
      then none
      else if offset == 0
      then none
      else some (record { mem = mem; offset = offset })
    else none

-- Whether the file is opened direct, and at which alignment; `none` refuses to start.
unfoldable pub choose : CacheMode → Option DioAlign → Option (Option DioAlign)
choose writeback probe = some none
choose auto none = some none
choose auto (some a) = some (if ltb max_block_size a.offset then none else some a)
choose direct none = none
choose direct (some a) = if ltb max_block_size a.offset then none else some (some a)

-- `a.offset.clamp(SECTOR_SIZE, MAX_BLOCK_SIZE)`
unfoldable pub block_size_of : Option DioAlign → ℕ
block_size_of none = sector_size
block_size_of (some a) = min max_block_size (max sector_size a.offset)

-- The size in bytes is `none` where the file cannot be sized.
unfoldable pub disk_of : Bool → Option ℕ → Option DioAlign → Option Disk
disk_of ro size a = size >>= λ bytes.
    if bytes / sector_size == 0
    then none
    else some (record {
      read_only = ro;
      sectors = bytes / sector_size;
      block_size = block_size_of a;
      dio = a;
    })

-- `opens d` is whether the file opens, with `O_DIRECT` when `d` is true. Only `auto` falls back.
unfoldable pub open_chosen :
    CacheMode → (Bool → Bool) → Bool → Option ℕ → Option DioAlign → Option Disk
open_chosen mode opens ro size none = if opens false then disk_of ro size none else none
open_chosen auto opens ro size (some a) =
    if opens true
    then disk_of ro size (some a)
    else if opens false
    then disk_of ro size none
    else none
open_chosen mode opens ro size (some a) = if opens true then disk_of ro size (some a) else none

unfoldable pub open_disk :
    CacheMode → Option DioAlign → (Bool → Bool) → Bool → Option ℕ → Option Disk
open_disk mode probe opens ro size = choose mode probe >>= λ a. open_chosen mode opens ro size a

unfoldable pub len_bytes : Disk → ℕ
len_bytes d = d.sectors * sector_size

unfoldable pub all_aligned : DioAlign → List IoVec → Bool
all_aligned a [] = true
all_aligned a (v ∷ vs) = (v.base % a.mem == 0) && (v.len % a.offset == 0) && all_aligned a vs

unfoldable pub direct_ok : Disk → ℕ → List IoVec → Bool
direct_ok d offset iovs = elim d.dio [
  | none ↦ true
  | some a ↦ (offset % a.offset == 0) && all_aligned a iovs
]

-- `x.next_multiple_of(a)`
unfoldable pub next_multiple_of : ℕ → ℕ → ℕ
next_multiple_of x a = if x % a == 0 then x else x + (a - x % a)

-- The alignment, the bytes before the request's own data, and the whole length.
unfoldable pub bounce_shape : Disk → ℕ → ℕ → ℕ × ℕ × ℕ
bounce_shape d offset len = elim d.dio [
  | none ↦ (1, 0, len)
  | some a ↦
      let head = offset % a.offset in
      (max a.mem a.offset, head, next_multiple_of (len + head) a.offset)
]

unfoldable pub offset_align : Disk → ℕ
offset_align d = elim d.dio [ none ↦ 1 | some a ↦ a.offset ]
