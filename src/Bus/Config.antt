-- ===== src/Bus/Config.antt =====
-- Configuration space: BAR registers are answered by the bus, everything else by the device.
use Prim.Native.Nat.{bit_or}
use nesbox.Base.{
  ℕ, zero, suc, ◌+◌, ◌-◌, ◌*◌, ◌/◌, ◌%◌, Bool, true, false, not, ◌&&◌, Option, none, some, List, [],
  ◌∷◌, ◌++◌, length, take, drop, get_or, replicate, ltb, leb, ◌==◌, if◌then◌else◌, u32_mod, u64_mod,
  add64, align_down,
}
use nesbox.Bus.{
  type_bits, is_64bit, Bar, Bdf, same_bdf, RegisteredDoorbell, Entry, Region, Bus, Mmio64Window,
}
use nesbox.Bus.Alloc.{window_start, window_end}

-- What an access comes to: bytes that the bus itself answers with, a call of the device's own
-- handler (the configuration space at an offset, or a BAR at an offset), or nobody.
pub data Reply : Type 0 where
  bytes : List ℕ → Reply
  ask_config : Bdf → ℕ → Reply
  ask_bar : Bdf → ℕ → ℕ → Reply
  nobody : Reply

-- The BAR register that a configuration offset belongs to.
unfoldable pub bar_slot_for_offset : ℕ → Option ℕ
bar_slot_for_offset offset =
    if leb 0x10 offset && leb offset 0x27 then some ((offset - 0x10) / 4) else none

-- Which register of a BAR: its own, or the high half one further.
pub data Half : Type 0 where
  low high : Half

unfoldable pub find_low : List Bar → ℕ → Option Bar
find_low [] slot = none
find_low (b ∷ bs) slot = if b.bar_idx == slot then some b else find_low bs slot

unfoldable pub find_high : List Bar → ℕ → Option Bar
find_high [] slot = none
find_high (b ∷ bs) slot =
    if is_64bit b.bar_type && (b.bar_idx + 1 == slot) then some b else find_high bs slot

-- `find_bar`: the register's own BAR first, then a 64-bit BAR one register earlier.
unfoldable pub find_bar : List Bar → ℕ → Option (Bar × Half)
find_bar bars slot = elim (find_low bars slot) [
  | some b ↦ some (b, low)
  | none ↦ elim (find_high bars slot) [ some b ↦ some (b, high) | none ↦ none ]
]

-- The low four bits of a register cleared, `x & !0xF`.
abbrev pub without_flags : ℕ → ℕ
without_flags x = x / 16 * 16

-- `!(size - 1)` on u64, for a power of two
abbrev pub size_mask : ℕ → ℕ
size_mask size = u64_mod - size

-- `x | bits` for `bits` below 16
abbrev pub or_low_nibble : ℕ → ℕ → ℕ
or_low_nibble x bits = x / 16 * 16 + bit_or (x % 16) bits

-- A BAR register as it reads, and the BAR after the read.
unfoldable pub read_bar_register : Bar → Half → ℕ × Bar
read_bar_register b high =
    if b.probing_hi
    then (size_mask b.size / u32_mod % u32_mod, record b { probing_hi = false })
    else (b.addr / u32_mod % u32_mod, b)
read_bar_register b low =
    if b.probing_lo
    then (without_flags (size_mask b.size % u32_mod), record b { probing_lo = false })
    else (or_low_nibble (b.addr % u32_mod) (type_bits b.bar_type), b)

-- The address that a write of `raw` to one half of a BAR asks for.
unfoldable pub requested : Bar → Half → ℕ → ℕ
requested b high raw = align_down (b.addr % u32_mod + raw * u32_mod) b.size
requested b low raw = align_down (b.addr / u32_mod * u32_mod + without_flags raw) b.size

unfoldable pub probed : Bar → Half → Bar
probed b high = record b { probing_hi = true }
probed b low = record b { probing_lo = true }

-- What a full-width write to a BAR register does to the BAR: it starts a size probe, moves the BAR,
-- or is ignored because it asks for an address outside the window or for the address it has.
unfoldable pub write_bar_register : Mmio64Window → Bar → Half → ℕ → Bar
write_bar_register w b half raw =
    let to = requested b half raw in
    if raw == 0xFFFF_FFFF
    then probed b half
    else if leb (window_start w b.bar_type) to && ltb to (window_end w b.bar_type)
    then record b { addr = to }
    else b

unfoldable pub lookup : List Entry → Bdf → Option Entry
lookup [] bdf = none
lookup (e ∷ es) bdf = if same_bdf e.bdf bdf then some e else lookup es bdf

-- The bars with the one at index `idx` replaced, and the devices with one device's bars replaced.
unfoldable pub put_bar : List Bar → Bar → List Bar
put_bar [] b = []
put_bar (x ∷ xs) b = if x.bar_idx == b.bar_idx then b ∷ xs else x ∷ put_bar xs b

unfoldable pub put_bars : List Entry → Bdf → Bar → List Entry
put_bars [] bdf b = []
put_bars (e ∷ es) bdf b =
    if same_bdf e.bdf bdf then record e { bars = put_bar e.bars b } ∷ es else e ∷ put_bars es bdf b

-- The `for region in mmio.iter_mut()` loop
unfoldable pub move_regions : List Region → Bdf → ℕ → ℕ → List Region
move_regions [] bdf idx to = []
move_regions (r ∷ rs) bdf idx to =
    (if same_bdf r.bdf bdf && (r.bar_idx == idx) then record r { base = to } else r)
    ∷ move_regions rs bdf idx to

-- Where a doorbell of a BAR that moves should be: at its offset within the BAR.
abbrev pub followed : RegisteredDoorbell → ℕ → ℕ → ℕ
followed e old_base new_base = add64 new_base (e.addr - old_base)

-- `move_doorbells_from`: a doorbell whose new address the kernel refuses keeps its entry.
unfoldable pub move_doorbells :
    (ℕ → ℕ → Bool) → List RegisteredDoorbell → Bdf → ℕ → ℕ → ℕ → List RegisteredDoorbell
move_doorbells accepts [] bdf idx old_base new_base = []
move_doorbells accepts (e ∷ es) bdf idx old_base new_base =
    (if same_bdf e.bdf bdf
        && (e.bar_idx == idx)
        && not (followed e old_base new_base == e.addr)
        && accepts (followed e old_base new_base) e.fd
      then record e { addr = followed e old_base new_base }
      else e)
    ∷ move_doorbells accepts es bdf idx old_base new_base

unfoldable pub moved_doorbells : Bus → Bdf → ℕ → ℕ → ℕ → List RegisteredDoorbell
moved_doorbells b bdf idx old_base new_base = elim b.ioevents [
  | none ↦ b.registered
  | some accepts ↦ move_doorbells accepts b.registered bdf idx old_base new_base
]

-- The bus with one BAR of a device replaced, and, if that moved it, its region and its doorbells.
unfoldable pub replace_bar : Bus → Bdf → Bar → Bar → Bus
replace_bar b bdf old new =
    let devices = put_bars b.devices bdf new in
    if old.addr == new.addr then record b { devices = devices } else record b {
      devices = devices;
      mmio_regions = move_regions b.mmio_regions bdf new.bar_idx new.addr;
      registered = moved_doorbells b bdf new.bar_idx old.addr new.addr;
    }

-- A little-endian u32 from the first four bytes, and its bytes.
abbrev pub u32_of : List ℕ → ℕ
u32_of d = get_or d 0 0 + 256 * (get_or d 1 0 + 256 * (get_or d 2 0 + 256 * get_or d 3 0))

unfoldable pub le_bytes : ℕ → ℕ → List ℕ
le_bytes zero v = []
le_bytes (suc n) v = v % 256 ∷ le_bytes n (v / 256)

-- The `n` bytes from `from` on, with zeros after the end of `xs`.
abbrev pub window_of : List ℕ → ℕ → ℕ → List ℕ
window_of xs from n = let got = take n (drop from xs) in got ++ replicate (n - length got) 0

-- The synthetic host bridge at 0:0:0.
abbrev pub host_bridge : List ℕ
host_bridge =
    0x86
    ∷ 0x80
    ∷ 0x37
    ∷ 0x12
    ∷ 0x06
    ∷ 0x00
    ∷ 0x00
    ∷ 0x00
    ∷ 0x02
    ∷ 0x00
    ∷ 0x00
    ∷ 0x06
    ∷ replicate 52 0

abbrev pub root : Bdf
root = record { bus = 0; dev = 0; func = 0 }

-- `config_read` of `n` bytes: the bus after it, and the reply.
unfoldable pub read_slot : Bus → Entry → ℕ → ℕ → ℕ → Bus × Reply
read_slot b e slot offset n = elim (find_bar e.bars slot) [
  | none ↦ (b, bytes (replicate n 0))
  | some (bar, half) ↦
      let (value, bar') = read_bar_register bar half in
      (
        record b { devices = put_bars b.devices e.bdf bar' },
        bytes (window_of (le_bytes 4 value) (offset % 4) n),
      )
]

unfoldable pub config_read : Bus → Bdf → ℕ → ℕ → Bus × Reply
config_read b bdf offset n =
    if same_bdf bdf root
    then (b, bytes (window_of host_bridge offset n))
    else elim (lookup b.devices bdf) [
      | none ↦ (b, nobody)
      | some e ↦ elim (bar_slot_for_offset offset) [
        | none ↦ (b, ask_config bdf offset)
        | some slot ↦ read_slot b e slot offset n
      ]
    ]

unfoldable pub write_slot : Bus → Bdf → Entry → ℕ → List ℕ → Bus
write_slot b bdf e slot d = elim (find_bar e.bars slot) [
  | none ↦ b
  | some (bar, half) ↦
      if ltb (length d) 4
      then b
      else replace_bar b bdf bar (write_bar_register b.mmio64 bar half (u32_of d))
]

-- `config_write`, and the device call that it makes, if any.
unfoldable pub config_write : Bus → Bdf → ℕ → List ℕ → Bus × Reply
config_write b bdf offset d = elim (lookup b.devices bdf) [
  | none ↦ (b, nobody)
  | some e ↦ elim (bar_slot_for_offset offset) [
    | none ↦ (b, ask_config bdf offset)
    | some slot ↦ (write_slot b bdf e slot d, nobody)
  ]
]
