-- ===== src/Vram.antt =====
-- The count of a guest's device memory of virtio-devices/src/gpu/vram.rs: the reading of a command
-- stream, and the charges that move from pending to live to released. The hash maps are association
-- lists, and the counters of the metrics surface that the accountant sets are `gauges`.
pub mod Stream
pub mod Ledger
pub mod Charges
pub mod Counted
pub mod Covered
pub mod Repeated
mod Tests
use nesbox.Base.{
  ℕ, zero, suc, ◌+◌, ◌*◌, ◌%◌, List, [], ◌∷◌, ◌++◌, Option, none, some, ◌==◌, ltb, ◌||◌,
  if◌then◌else◌, not, length, take, drop, saturating_add64, has_bit,
}

abbrev pub ccmd_hdr_len : ℕ
ccmd_hdr_len = 16

abbrev pub ccmd_align : ℕ
ccmd_align = 8

abbrev pub amdgpu_ccmd_gem_new : ℕ
amdgpu_ccmd_gem_new = 2

abbrev pub gem_new_min_len : ℕ
gem_new_min_len = 44

abbrev pub le_value : List ℕ → ℕ
le_value [] = 0
le_value (b ∷ bs) = b + 256 * le_value bs

-- `rd_u32` and `rd_u64`: so many bytes at an offset, when they are all there.
pub rd : ℕ → List ℕ → ℕ → Option ℕ
rd width b off =
    let bytes = take width (drop off b) in
    if length bytes == width then some (le_value bytes) else none

pub data Malformed : Type 0 where
  truncated_cmd : Malformed
  truncated_len : Malformed
  bad_record_length : Malformed
  gem_new_too_short : Malformed
  gem_new_fields : Malformed
  trailing_bytes : Malformed

-- What the walk has found so far: `over` is the request, the charge before it and the limit.
pub record Scan : Type 0 where
  pub proposed : List (ℕ × ℕ)
  pub proposed_gtt : ℕ
  pub tentative : ℕ
  pub over : Option (ℕ × ℕ × ℕ)
  pub over_count : ℕ

-- A device-memory buffer is proposed, past the limit or not.
pub propose : ℕ → ℕ → ℕ → Scan → Scan
propose limit blob_id size acc =
    let after = saturating_add64 acc.tentative size in
    let past = ltb limit after in
    record acc {
      proposed = acc.proposed ++ (blob_id, size) ∷ [];
      tentative = after;
      over = elim acc.over [
        | some n ↦ some n
        | none ↦ if past then some (size, acc.tentative, limit) else none
      ];
      over_count = if past then acc.over_count + 1 else acc.over_count;
    }

pub count_buffer : ℕ → ℕ → ℕ → ℕ → Scan → Scan
unfolding propose
count_buffer limit blob_id size heap acc =
    if has_bit heap 2
    then propose limit blob_id size acc
    else if has_bit heap 1
    then record acc { proposed_gtt = saturating_add64 acc.proposed_gtt size }
    else acc

-- One round of the loop: the loop ends, the stream is refused, or a record of this length is passed.
pub data Round : Type 0 where
  finish : Round
  refuse : Malformed → Round
  next : ℕ → Scan → Round

pub gem_new : ℕ → List ℕ → ℕ → Scan → Round
unfolding rd count_buffer
gem_new limit rec len acc =
    if ltb len gem_new_min_len then refuse gem_new_too_short else elim (rd 8 rec 16) [
      | none ↦ refuse gem_new_fields
      | some blob_id ↦ elim (rd 8 rec 24) [
        | none ↦ refuse gem_new_fields
        | some size ↦ elim (rd 4 rec 40) [
          | none ↦ refuse gem_new_fields
          | some heap ↦ next len (count_buffer limit blob_id size heap acc)
        ]
      ]
    ]

pub read_record : ℕ → List ℕ → ℕ → ℕ → Scan → Round
unfolding gem_new
read_record limit rec cmd len acc =
    if ltb len ccmd_hdr_len || ltb (length rec) len || not (len % ccmd_align == 0)
    then refuse bad_record_length
    else if cmd == amdgpu_ccmd_gem_new
    then gem_new limit rec len acc
    else next len acc

pub round : ℕ → List ℕ → Scan → Round
unfolding rd read_record
round limit rec acc = if ltb (length rec) ccmd_hdr_len then finish else elim (rd 4 rec 0) [
  | none ↦ refuse truncated_cmd
  | some cmd ↦ elim (rd 4 rec 4) [
    | none ↦ refuse truncated_len
    | some len ↦ read_record limit rec cmd len acc
  ]
]

pub data Scanned : Type 0 where
  parsed : Scan → Scanned
  malformed : Malformed → Scanned
  out_of_fuel : Scanned

-- The loop over what is left of the stream, and the check that nothing is left after it.
pub scan : ℕ → ℕ → List ℕ → Scan → Scanned
unfolding round
scan zero limit rest acc = out_of_fuel
scan (suc fuel) limit rest acc = elim (round limit rest acc) [
  | finish ↦ if length rest == 0 then parsed acc else malformed trailing_bytes
  | refuse why ↦ malformed why
  | next len acc ↦ scan fuel limit (drop len rest) acc
]

-- Every record is at least a header long, so a round per byte and one more are enough.
pub scan_stream : ℕ → ℕ → List ℕ → Scanned
unfolding scan
scan_stream limit charged commands =
    scan (suc (length commands)) limit commands
      (record { proposed = []; proposed_gtt = 0; tentative = charged; over = none; over_count = 0 })
