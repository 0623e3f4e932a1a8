-- ===== src/Blk/Tests.antt =====
-- A disk of 8 sectors and one read of its second sector.
use nesbox.Base.{
  ℕ, ◌-◌, ◌<◌, u64_mod, ◌≡◌, refl, arith, true, false, none, some, List, [], ◌∷◌, ◌==◌,
  if◌then◌else◌,
}
use nesbox.Guest.Flat.{FlatMemory, flat_guest, flat_read, flat_covers}
use nesbox.Virtqueue.{Desc}
use nesbox.Blk.Disk.{
  auto, DioAlign, Disk, from_flag, probe_dio, offset_align, choose, open_disk, open_chosen, disk_of,
  block_size_of, len_bytes, bounce_shape, writeback, next_multiple_of,
}
use nesbox.Blk.Request.{parse, range_segment, read_discard_segment, request}
use nesbox.Blk.Request.Bounds.{IsBounded, parse-IsBounded}
use nesbox.Blk.Request.Errors.{Reports, parse-Reports}
use nesbox.Blk.Request.Accepted.{IsTransfer, asked, kind_of, desc_bytes, parse-transfer}

-- The header of the read is at 0x100. The descriptor table at 0x200 has one entry, which is no
-- request; the avail ring at 0x300 offers it.
abbrev cells : ℕ → ℕ
cells a = if a == 0x108 then 1 else if a == 0x208 then 4 else if a == 0x302 then 1 else 0

abbrev memory : FlatMemory
memory = record { size = 0x2000; cell = cells }

abbrev align : DioAlign
align = record { mem = 512; offset = 4096 }

abbrev disk : Disk
disk = record { read_only = true; sectors = 16; block_size = 4096; dio = some align }

abbrev header : Desc
header = record { addr = 0x100; len = 16; flags = 0 }

abbrev page : Desc
page = record { addr = 0x400; len = 512; flags = 2 }

abbrev status : Desc
status = record { addr = 0x180; len = 1; flags = 2 }

abbrev descs : List Desc
descs = header ∷ page ∷ status ∷ []

small : len_bytes disk < u64_mod - 1
unfolding len_bytes
small = omega arith

transfer : IsTransfer flat_guest memory disk false 1 header (page ∷ []) status
unfolding flat_read flat_covers kind_of desc_bytes len_bytes
transfer = record {
  header_long = omega arith;
  kind_read = refl;
  sector_read = refl;
  covered = (refl, tt);
  bounded = omega arith;
  on_disk = omega arith;
  may_write = λ e. cc;
  has_room = omega arith;
  writable = refl;
}

parse-transfer_example :
    parse flat_guest memory disk 5 descs ≡ request (asked 5 false 1 (page ∷ []) status)
parse-transfer_example =
    parse-transfer flat_guest memory disk 5 false 1 header (page ∷ []) status small transfer

parse-IsBounded_example : IsBounded flat_guest memory disk (asked 5 false 1 (page ∷ []) status)
parse-IsBounded_example =
    parse-IsBounded flat_guest memory disk 5 descs small parse-transfer_example

parse-Reports_example : Reports 5 descs (parse flat_guest memory disk 5 descs)
parse-Reports_example = parse-Reports flat_guest memory disk 5 descs

window : bounce_shape disk 512 512 ≡ (4096, 512, 4096)
unfolding bounce_shape next_multiple_of
window = refl

opened : open_disk auto (some align) (λ d. true) true (some 8292) ≡ some disk
unfolding open_disk choose open_chosen disk_of block_size_of
opened = refl

flags : from_flag (some false) ≡ writeback
unfolding from_flag
flags = refl

probed : probe_dio (some (true, 512, 4096)) ≡ some align
unfolding probe_dio
probed = refl

aligned : offset_align disk ≡ 4096
unfolding offset_align
aligned = refl

short_segment : range_segment (record { addr = 0x100; len = 8 } ∷ []) ≡ none
unfolding range_segment
short_segment = refl

discard_segment : read_discard_segment flat_guest memory 0x108 ≡ some (1, 0, 0)
unfolding read_discard_segment flat_read
discard_segment = refl
