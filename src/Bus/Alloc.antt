-- ===== src/Bus/Alloc.antt =====
-- `Bus::add_device_arc`: the BDF, the bump allocator over both windows, and the doorbells.
use nesbox.Base.{
  ℕ, zero, suc, ◌+◌, ◌-◌, ◌%◌, ◌^◌, ◌≡◌, refl, Bool, false, not, ◌&&◌, ◌||◌, Option, none, some,
  List, [], ◌∷◌, ◌++◌, map, ltb, leb, ◌==◌, if◌then◌else◌, max, u64_mod, add64, align_down,
}
use nesbox.Bus.{
  BarType, mem32, mem64, is_64bit, Bar, Bdf, Device, Doorbell, RegisteredDoorbell, Region, Bus,
  Mmio64Window, mmio_window_start, mmio_window_end,
}

pub data AddError : Type 0 where
  bus_full : AddError
  not_power_of_two : ℕ → AddError
  exhausted : ℕ → AddError
  bar5_64bit : AddError

-- What the code returns: an error, or a value.
pub data Result {κ} (Value : Type κ) : Type κ where
  err : AddError → Result Value
  ok : Value → Result Value

-- The `?` operator: an error ends the function.
infixl 5 ◌>>=◌
abbrev pub ◌>>=◌ {κ μ} :
    {Found : Type κ} {Value : Type μ} → Result Found → (Found → Result Value) → Result Value
err why >>= rest = err why
ok found >>= rest = rest found

-- A chain that succeeds has succeeded at its first step.
pub >>=-eq-ok {κ μ} :
    {Found : Type κ} {Value : Type μ} (first : Result Found) (rest : Found → Result Value)
    {b : Value}
    → (first >>= rest) ≡ ok b
    → (found : Found) × (first ≡ ok found) × (rest found ≡ ok b)
>>=-eq-ok (err why) rest e = cc
>>=-eq-ok (ok found) rest e = (found, refl, e)

-- `n.is_power_of_two()` on u64: one of 2^0 .. 2^63
pub power_below : ℕ → ℕ → Bool
power_below zero n = false
power_below (suc k) n = (n == 2 ^ k) || power_below k n

unfoldable pub is_power_of_two : ℕ → Bool
unfolding power_below
is_power_of_two n = power_below 64 n

-- The end of the last region whose base lies in the window, or the window's start.
unfoldable pub top_of : ℕ → ℕ → List Region → ℕ
top_of lo hi [] = lo
top_of lo hi (r ∷ rs) =
    if leb lo r.base && ltb r.base hi
    then max (r.base + r.size) (top_of lo hi rs)
    else top_of lo hi rs

-- Where the next BAR of each kind may go, and the BARs placed so far.
pub record Cursor : Type 0 where
  pub next32 : ℕ
  pub next64 : ℕ
  pub bars : List Bar

abbrev pub next_of : BarType → Cursor → ℕ
next_of mem32 c = c.next32
next_of mem64 c = c.next64

abbrev pub window_start : Mmio64Window → BarType → ℕ
window_start w mem32 = mmio_window_start
window_start w mem64 = w.start

abbrev pub window_end : Mmio64Window → BarType → ℕ
window_end w mem32 = mmio_window_end
window_end w mem64 = w.end

abbrev pub push_bar : Cursor → Bar → Cursor
push_bar c b = elim b.bar_type [
  | mem32 ↦ record c { next32 = b.addr + b.size; bars = c.bars ++ b ∷ [] }
  | mem64 ↦ record c { next64 = b.addr + b.size; bars = c.bars ++ b ∷ [] }
]

abbrev pub fresh_bar : BarType → ℕ → ℕ → ℕ → Bar
fresh_bar ty idx size addr = record {
  bar_idx = idx;
  addr = addr;
  size = size;
  bar_type = ty;
  probing_lo = false;
  probing_hi = false;
}

-- One BAR of `size` bytes, which is not zero.
unfoldable pub place_bar : Mmio64Window → BarType → ℕ → ℕ → Cursor → Result Cursor
place_bar w ty idx size c =
    let aligned = align_down ((next_of ty c + size - 1) % u64_mod) size in
    if not (is_power_of_two size)
    then err (not_power_of_two idx)
    else if ltb (window_end w ty) (add64 aligned size)
    then err (exhausted idx)
    else if is_64bit ty && idx == 5
    then err bar5_64bit
    else ok (push_bar c (fresh_bar ty idx size aligned))

-- The `while bar_idx < 6` loop. Every round moves `idx` on, so six rounds of fuel reach its end.
unfoldable pub place_bars : Mmio64Window → Device → ℕ → ℕ → Cursor → Result Cursor
place_bars w d zero idx c = ok c
place_bars w d (suc fuel) idx c =
    let skip = place_bars w d fuel (idx + 1) c in
    let place = place_bar w (d.bar_type idx) idx (d.bar_size idx) c >>= λ c'.
    place_bars w d fuel (idx + (if is_64bit (d.bar_type idx) then 2 else 1)) c' in
    if leb 6 idx then ok c else if d.bar_size idx == 0 then skip else place

unfoldable pub start_cursor : Bus → Cursor
start_cursor b = record {
  next32 = max (top_of mmio_window_start mmio_window_end b.mmio_regions) mmio_window_start;
  next64 = max (top_of b.mmio64.start b.mmio64.end b.mmio_regions) b.mmio64.start;
  bars = [];
}

abbrev pub next_slot : Bdf → Bdf
next_slot a =
    if ltb a.dev 31
    then record { bus = a.bus; dev = a.dev + 1; func = 0 }
    else record { bus = a.bus + 1; dev = 0; func = 0 }

abbrev pub region_of : Bdf → Bar → Region
region_of bdf b = record { base = b.addr; size = b.size; bdf = bdf; bar_idx = b.bar_idx }

abbrev pub find_base : ℕ → List Bar → Option ℕ
find_base idx [] = none
find_base idx (b ∷ bs) = if b.bar_idx == idx then some b.addr else find_base idx bs

-- `register_doorbells`: those whose BAR exists and that the kernel takes.
unfoldable pub register_doorbells :
    (ℕ → ℕ → Bool) → Bdf → List Bar → List Doorbell → List RegisteredDoorbell
register_doorbells accepts bdf bars [] = []
register_doorbells accepts bdf bars (door ∷ doors) = elim (find_base door.bar_idx bars) [
  | none ↦ register_doorbells accepts bdf bars doors
  | some base ↦
      if accepts (add64 base door.offset) door.fd
      then record { bdf = bdf; bar_idx = door.bar_idx; addr = add64 base door.offset; fd = door.fd }
        ∷ register_doorbells accepts bdf bars doors
      else register_doorbells accepts bdf bars doors
]

unfoldable pub new_doorbells : Bus → Bdf → Device → List Bar → List RegisteredDoorbell
new_doorbells b bdf d bars = elim b.ioevents [
  | none ↦ []
  | some accepts ↦ register_doorbells accepts bdf bars d.doorbells
]

abbrev pub with_device : Bus → Device → List Bar → Bus
with_device b d bars = record b {
  devices = b.devices ++ record { bdf = b.next_bdf; device = d; bars = bars } ∷ [];
  next_bdf = next_slot b.next_bdf;
  mmio_regions = b.mmio_regions ++ map (region_of b.next_bdf) bars;
  registered = b.registered ++ new_doorbells b b.next_bdf d bars;
}

-- The bus with the device, and the BDF that it got; an error leaves the bus as it was.
unfoldable pub add_device : Bus → Device → Result (Bus × Bdf)
add_device b d =
    if ltb 0 b.next_bdf.bus || ltb 31 b.next_bdf.dev
    then err bus_full
    else place_bars b.mmio64 d 6 0 (start_cursor b) >>= λ c. ok (with_device b d c.bars, b.next_bdf)

unfoldable pub set_ioevent_registrar : Bus → (ℕ → ℕ → Bool) → Bus
set_ioevent_registrar b accepts = record b { ioevents = some accepts }
