-- ===== src/Gpu/Chains.antt =====
-- Readers and writers over descriptor chains, from virtio-devices/src/gpu/descriptor_utils.rs. A number
-- read from guest memory stands for its bytes, least significant first.
pub mod Written
pub mod Readable
pub mod Contents
use nesbox.Base.{
  ℕ, ◌+◌, ◌-◌, ◌*◌, ◌^◌, Bool, true, false, Option, none, some, List, [], ◌∷◌, ◌++◌, length, take,
  drop, ltb, leb, ◌==◌, if◌then◌else◌, min, add64, checked_add64, has_bit, ◌>>=◌,
}
use nesbox.Guest.{GuestMemory}
use nesbox.Virtqueue.{Desc, desc_f_write}
use nesbox.Bus.Config.{le_bytes}

abbrev pub max_readable_bytes : ℕ
max_readable_bytes = 64 * 2 ^ 20

abbrev pub is_write_only : Desc → Bool
is_write_only d = has_bit d.flags desc_f_write

pub data ChainError : Type 0 where
  descriptor_chain_overflow : ChainError
  descriptor_chain_too_long : ℕ → ChainError
  guest_memory : ChainError

-- The copied bytes of the readable descriptors, and how many are consumed.
pub record Reader : Type 0 where
  pub buf : List ℕ
  pub position : ℕ

pub data Opened : Type 0 where
  reader : Reader → Opened
  refused : ChainError → Opened

-- One turn of the loop of `Reader::new`: an error, or the bytes and the total so far.
pub data Turn : Type 0 where
  stopped : ChainError → Turn
  copied : List ℕ → ℕ → Turn

-- What the copy of a descriptor comes to.
pub copied_next : Desc → List ℕ → ℕ → Option ℕ → Turn
copied_next d bytes total none = stopped guest_memory
copied_next d bytes total (some v) = copied (bytes ++ le_bytes d.len v) total

-- The number that bytes spell.
unfoldable pub number : List ℕ → ℕ
number [] = 0
number (b ∷ bs) = b + 256 * number bs

unfoldable pub read_exact : Reader → ℕ → Option (List ℕ × Reader)
read_exact r n =
    if ltb (length r.buf - r.position) n
    then none
    else some (take n (drop r.position r.buf), record r { position = r.position + n })

-- An object of `n` bytes; where there are not enough, the reader is not used again.
unfoldable pub read_obj : Reader → ℕ → Option (ℕ × Reader)
read_obj r n = read_exact r n >>= λ (bytes, r'). some (number bytes, r')

-- The position is put back.
unfoldable pub peek_obj : Reader → ℕ → Option ℕ
peek_obj r n = read_obj r n >>= λ (v, r'). some v

abbrev pub reader_available_bytes : Reader → ℕ
reader_available_bytes r = length r.buf - r.position

abbrev pub bytes_read : Reader → ℕ
bytes_read r = r.position

-- A segment of guest memory that may be written.
pub record Segment : Type 0 where
  pub addr : ℕ
  pub len : ℕ

pub record Writer : Type 0 where
  pub segments : List Segment
  pub write_pos : ℕ
  pub bytes_written : ℕ
  pub total_len : ℕ

-- `skip_while(|d| !is_write_only(d))`
unfoldable pub writable_from : List Desc → List Desc
writable_from [] = []
writable_from (d ∷ ds) = if is_write_only d then d ∷ ds else writable_from ds

unfoldable pub segments_of : List Desc → List Segment
segments_of [] = []
segments_of (d ∷ ds) = record { addr = d.addr; len = d.len } ∷ segments_of ds

-- The sum of the lengths; `none` is the overflow.
unfoldable pub total_of : List Desc → ℕ → Option ℕ
total_of [] total = some total
total_of (d ∷ ds) total = checked_add64 total d.len >>= λ t. total_of ds t

unfoldable pub new_writer : List Desc → Option Writer
new_writer chain = total_of (writable_from chain) 0 >>= λ total. some (record {
  segments = segments_of (writable_from chain);
  write_pos = 0;
  bytes_written = 0;
  total_len = total;
})

abbrev pub writer_available_bytes : Writer → ℕ
writer_available_bytes w = w.total_len - w.write_pos

module _ (g : GuestMemory) where
  open g use {Mem, covers}

  -- The descriptor's bytes behind those so far, once the total is known.
  pub read_next : Mem → Desc → List ℕ → Option ℕ → Turn
  read_next m d bytes none = stopped descriptor_chain_overflow
  read_next m d bytes (some total) =
      if ltb max_readable_bytes total
      then stopped (descriptor_chain_too_long total)
      else copied_next d bytes total (g.read d.len m d.addr)

  -- The loop of `Reader::new`, with the bytes and the total so far.
  pub read_chain : Mem → List Desc → List ℕ → ℕ → Opened
  read_chain m [] bytes total = reader (record { buf = bytes; position = 0 })
  read_chain m (d ∷ ds) bytes total =
      if is_write_only d
      then reader (record { buf = bytes; position = 0 })
      else elim (read_next m d bytes (checked_add64 total d.len)) [
        | stopped error ↦ refused error
        | copied bytes' total' ↦ read_chain m ds bytes' total'
      ]

  pub new_reader : Mem → List Desc → Opened
  new_reader m chain = read_chain m chain [] 0

  -- `write_slice`
  pub write_slice : Mem → ℕ → List ℕ → Mem
  write_slice m addr bytes = g.write (length bytes) m addr (number bytes)

  -- The loop of `write`: whether every write went through, memory after, and the bytes placed.
  unfoldable pub write_segments : Mem → List Segment → ℕ → List ℕ → Bool × Mem × ℕ
  write_segments m [] skip bytes = (true, m, 0)
  write_segments m (s ∷ ss) skip bytes =
      let past = write_segments m ss (skip - s.len) bytes in
      let n = min (s.len - skip) (length bytes) in
      let at = add64 s.addr skip in
      let m' = write_slice m at (take n bytes) in
      let rest = write_segments m' ss 0 (drop n bytes) in
      if length bytes == 0
      then (true, m, 0)
      else if leb s.len skip
      then past
      else if covers m at n
      then (rest.0, rest.1, n + rest.2)
      else (false, m', 0)

  -- The writer and memory after it, and the bytes written; `none` is the error.
  unfoldable pub write : Mem → Writer → List ℕ → Mem × Option (ℕ × Writer)
  write m w bytes =
      let r = write_segments m w.segments w.write_pos bytes in
      (
        r.1,
        (if r.0
            then some (
              r.2,
              record w { write_pos = w.write_pos + r.2; bytes_written = w.bytes_written + r.2 },
            )
            else none),
      )
