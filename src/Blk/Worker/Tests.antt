-- ===== src/Blk/Worker/Tests.antt =====
-- A worker of depth 2 on an engine that takes every job.
use nesbox.Base.{
  drop, ℕ, zero, suc, ◌+◌, ◌-◌, ◌%◌, ◌≡◌, refl, ltb, arith, true, false, Option, none, some, [],
  ◌∷◌, ◌==◌, if◌then◌else◌, u32_mod, get_or,
}
use nesbox.Guest.Flat.{FlatMemory, flat_guest, flat_read, flat_write, flat_covers}
use nesbox.Virtqueue.{
  QState, push_used, pop_avail, take_avail, collect_descs_with, walk_chain, walk_rounds, walk_round,
  read_desc, has_avail, read_used_idx, set_used_no_notify, used_needs_interrupt,
  avail_wants_interrupt,
}
use nesbox.Blk.Disk.{Disk, direct_ok, all_aligned, bounce_shape, next_multiple_of}
use nesbox.Blk.Request.{read, Request, parse}
use nesbox.Blk.Worker.{
  Slot, Engine, Worker, Done, moved, errno, readv, new_worker, descending, can_accept,
  suppress_notify, differs, report, release,
}
use nesbox.Blk.Worker.Complete.{submit_job, refuses_range, again, act, transferred, complete}
use nesbox.Blk.Worker.Issue.{start, start_parsed, write_id}
use nesbox.Blk.Worker.Drain.{
  Progress, take_one, take_all, drain, hint, turn, batch, interrupts_for, complete_all, release_all,
}
use nesbox.Blk.Worker.Slab.{IsSlab, busy, count, held, one_if}
use nesbox.Blk.Worker.Ends.{Ends, complete-Ends}
use nesbox.Blk.Worker.Resumed.{IsResumed, act-IsResumed}
use nesbox.Blk.Worker.Transfer.{
  zero_fill, advance, is_transfer, prepare, iovs_for, stage, stage_data, is_write, is_range,
  copy_in, copy_out, copy_segments, zero_from, job_of,
}
use nesbox.Blk.Worker.Zeroes.{IsZeroed, guest_addresses, zero_fill-IsZeroed}
use nesbox.Blk.Worker.Terminates.{IsSteady, offered, take_all-stops}

-- The descriptor table at 0x200 has one entry, which is no request; the avail ring at 0x300 offers it.
abbrev cells : ℕ → ℕ
cells a = if a == 0x208 then 4 else if a == 0x302 then 1 else 0

abbrev memory : FlatMemory
memory = record { size = 0x2000; cell = cells }

abbrev disk : Disk
disk = record { read_only = true; sectors = 16; block_size = 512; dio = none }

abbrev queue : QState
queue = record {
  desc = 0x200;
  avail = 0x300;
  used = 0x380;
  size = 4;
  enabled = true;
  last = 0;
  vec = 1;
  indirect = false;
  event_idx = false;
}

abbrev engine : Engine
engine = record { State = ℕ; room = λ n. n; submit = λ n token job. (true, n - 1) }

abbrev host : ℕ → ℕ
host a = a + 0x10000

abbrev alloc : ℕ → ℕ → Option ℕ
alloc len align = some 0x100000

abbrev idle : Worker flat_guest engine
idle = new_worker memory 4 1 2

-- Half of a read of one sector is done.
abbrev half_read : Slot
half_read = record {
  generation = 1;
  head = 3;
  op = read;
  status_addr = 0x180;
  segments = record { addr = 0x400; len = 512 } ∷ [];
  iovs = record { base = 0x10400; len = 512 } ∷ [];
  bounce = none;
  offset = 512;
  done = 0;
  total = 512;
  io_len = 512;
  bounced = false;
}

abbrev working : Worker flat_guest engine
working = record {
  mem = memory;
  engine = 3;
  generation = 1;
  slots = some half_read ∷ none ∷ [];
  free = 1 ∷ [];
  depth = 2;
  want_drain = false;
  used_idx = 0;
  notify_suppressed = false;
  discard_unsupported = false;
  requests = 1;
  interrupts = 0;
  reported = 0;
}

abbrev half_done : Done
half_done = record { token = 0; result = moved 256; window = λ a n. 0 }

working-IsSlab : IsSlab working
unfolding IsSlab count held one_if busy
working-IsSlab = record { each = each; whole = refl; sized = refl }
  where
    each :
        (t : ℕ)
        → count t [] + count t (1 ∷ []) + held (get_or working.slots t none) ≡ one_if (ltb t 2)
    each zero = refl
    each (suc zero) = refl
    each (suc (suc t)) = ground arith

complete-Ends_example :
    Ends queue (0 % u32_mod) half_read (complete alloc disk working queue half_done)
complete-Ends_example = complete-Ends alloc disk working queue half_done half_read refl refl

zero_fill-IsZeroed_example :
    IsZeroed flat_guest memory
      (drop 256 (guest_addresses half_read.segments))
      (zero_fill flat_guest memory 256 half_read.segments)
unfolding flat_covers
zero_fill-IsZeroed_example = zero_fill-IsZeroed flat_guest memory 256 half_read.segments (refl, tt)

abbrev other_half : Slot
other_half = record half_read {
  iovs = record { base = 0x10500; len = 256 } ∷ [];
  offset = 768;
  done = 256;
}

sent_back : (act flat_guest memory alloc disk half_read (moved 256) (λ a n. 0)).0 ≡ again other_half
unfolding act transferred is_transfer advance
sent_back = refl

act-IsResumed_example : IsResumed 256 half_read other_half
act-IsResumed_example =
    act-IsResumed flat_guest memory alloc disk half_read 256 (λ a n. 0) sent_back

abbrev before : Progress flat_guest engine
before = record { worker = idle; queue = queue; used = 0 }

steady : IsSteady host alloc disk 1 before
unfolding IsSteady take_all take_one can_accept pop_avail take_avail collect_descs_with walk_chain
    walk_rounds walk_round read_desc start start_parsed parse push_used flat_read flat_write
    new_worker descending
steady zero = refl
steady (suc zero) = refl
steady (suc (suc n)) = refl

take_all-stops_example : take_one host alloc disk (take_all host alloc disk 1 before) ≡ none
unfolding offered
take_all-stops_example =
    take_all-stops host alloc disk 1 1 before (omega arith) (omega arith) steady (omega arith)

-- A disk that wants blocks of 4096 bytes, and a read of one sector of it: staged in one block.
abbrev wide_disk : Disk
wide_disk = record {
  read_only = false;
  sectors = 16;
  block_size = 4096;
  dio = some (record { mem = 512; offset = 4096 });
}

abbrev sector_read : Request
sector_read = record {
  head = 3;
  op = read;
  offset = 512;
  segments = record { addr = 0x400; len = 512 } ∷ [];
  total = 512;
  status_addr = 0x180;
}

abbrev staged_read : Slot
staged_read = record half_read {
  iovs = record { base = 0x100000; len = 4096 } ∷ [];
  bounce = some (record { ptr = 0x100000; size = 4096; skip = 512; data_in = [] });
  offset = 0;
  io_len = 4096;
  bounced = true;
}

staged : prepare flat_guest memory host alloc wide_disk 1 sector_read ≡ some staged_read
unfolding prepare iovs_for is_transfer direct_ok all_aligned stage stage_data is_write bounce_shape
    next_multiple_of flat_covers
staged = refl

copied_in : copy_in flat_guest memory (record { addr = 0x208; len = 4 } ∷ []) ≡ some (4 ∷ [])
unfolding copy_in flat_read
copied_in = refl

handed_over : job_of staged_read ≡ some (readv staged_read.iovs 0)
unfolding job_of
handed_over = refl

copied_out : (copy_out flat_guest memory (zero_from flat_guest (λ a n. 7) 600) staged_read).0 ≡ true
unfolding copy_out copy_segments zero_from flat_covers
copied_out = refl

not_a_range : refuses_range half_read (errno 95) ≡ false
unfolding refuses_range is_range
not_a_range = refl

no_job : submit_job idle 0 none ≡ (false, 4)
unfolding submit_job new_worker
no_job = refl

told_already : suppress_notify idle queue false ≡ idle
unfolding suppress_notify differs new_worker
told_already = refl

serial_number : (write_id flat_guest memory 0 (record { addr = 0x600; len = 64 } ∷ [])).1 ≡ 20
unfolding write_id
serial_number = refl

abbrev gone : QState
gone = record queue { enabled = false }

given_back : (turn host alloc disk 8 working gone true (half_done ∷ [])).0.worker.free ≡ 0 ∷ 1 ∷ []
unfolding turn release_all release
given_back = refl

one_interrupt : (turn host alloc disk 8 idle queue true []).1 ≡ true
unfolding turn batch interrupts_for complete_all drain hint suppress_notify differs report take_all
    take_one can_accept pop_avail take_avail has_avail read_used_idx set_used_no_notify
    used_needs_interrupt avail_wants_interrupt collect_descs_with walk_chain walk_rounds walk_round
    read_desc start start_parsed parse push_used flat_read flat_write new_worker descending
one_interrupt = refl
