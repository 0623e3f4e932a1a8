-- ===== src/Bus/Dispatch.antt =====
-- Port and memory accesses: CONFIG_ADDRESS and CONFIG_DATA, the ECAM window, and the BAR regions.
use nesbox.Base.{
  ℕ, ◌+◌, ◌-◌, ◌*◌, ◌/◌, ◌%◌, ◌^◌, Bool, true, false, ◌&&◌, none, some, List, [], ◌∷◌, length,
  replicate, ltb, leb, ◌==◌, if◌then◌else◌, add64, has_bit,
}
use nesbox.Bus.{Bdf, Entry, Region, Bus, ecam_base, ecam_size}
use nesbox.Bus.Config.{
  Reply, bytes, ask_bar, nobody, config_read, config_write, lookup, u32_of, le_bytes, window_of,
}

-- The BDF and the register of a CONFIG_ADDRESS value, with the byte lane of the port.
unfoldable pub cam_bdf : ℕ → Bdf
cam_bdf addr = record {
  bus = addr / 2 ^ 16 % 256;
  dev = addr / 2 ^ 11 % 32;
  func = addr / 2 ^ 8 % 8;
}

unfoldable pub cam_reg : ℕ → ℕ → ℕ
cam_reg addr port = addr % 256 / 4 * 4 + (port - 0xCFC)

abbrev pub in_ports : ℕ → ℕ → ℕ → Bool
in_ports lo hi port = leb lo port && leb port hi

-- Whether the port is the bus's, the bus after the write, and what was asked of a device.
unfoldable pub handle_pio_write : Bus → ℕ → List ℕ → Bool × (Bus × Reply)
handle_pio_write b port d =
    if in_ports 0xCF8 0xCFB port
    then (true, ((if length d == 4 then record b { config_addr = u32_of d } else b), nobody))
    else if in_ports 0xCFC 0xCFF port
    then if has_bit b.config_addr 31
      then (true, config_write b (cam_bdf b.config_addr) (cam_reg b.config_addr port) d)
      else (true, (b, nobody))
    else (false, (b, nobody))

-- `data.fill(0xFF)` where nobody answers
abbrev pub or_ones : Reply → ℕ → Reply
or_ones nobody n = bytes (replicate n 0xFF)
or_ones reply n = reply

abbrev pub answered : Bus × Reply → ℕ → Bus × Reply
answered r n = (r.0, or_ones r.1 n)

unfoldable pub handle_pio_read : Bus → ℕ → ℕ → Bool × (Bus × Reply)
handle_pio_read b port n =
    if in_ports 0xCF8 0xCFB port
    then (true, (b, bytes (window_of (le_bytes 4 b.config_addr) (port - 0xCF8) n)))
    else if in_ports 0xCFC 0xCFF port
    then if has_bit b.config_addr 31
      then (true, answered (config_read b (cam_bdf b.config_addr) (cam_reg b.config_addr port) n) n)
      else (true, (b, bytes (replicate n 0xFF)))
    else (false, (b, nobody))

unfoldable pub ecam_bdf : ℕ → Bdf
ecam_bdf addr =
    let off = addr - ecam_base in
    record { bus = off / 2 ^ 20 % 256; dev = off / 2 ^ 15 % 32; func = off / 2 ^ 12 % 8 }

unfoldable pub ecam_reg : ℕ → ℕ
ecam_reg addr = (addr - ecam_base) % 0x1000

abbrev pub in_ecam : ℕ → Bool
in_ecam addr = leb ecam_base addr && ltb addr (ecam_base + ecam_size)

-- The first region that holds the address and whose device is there.
unfoldable pub find_region : List Entry → List Region → ℕ → Reply
find_region devices [] addr = nobody
find_region devices (r ∷ rs) addr =
    if leb r.base addr && ltb addr (add64 r.base r.size)
    then elim (lookup devices r.bdf) [
      | some e ↦ ask_bar r.bdf r.bar_idx (addr - r.base)
      | none ↦ find_region devices rs addr
    ]
    else find_region devices rs addr

-- The device's own `write_bar` says whether it took the write.
unfoldable pub handle_mmio_write : Bus → ℕ → List ℕ → Bus × Reply
handle_mmio_write b addr d =
    if in_ecam addr
    then if ltb (ecam_reg addr) 0x100
      then config_write b (ecam_bdf addr) (ecam_reg addr) d
      else (b, bytes [])
    else (b, find_region b.devices b.mmio_regions addr)

unfoldable pub handle_mmio_read : Bus → ℕ → ℕ → Bus × Reply
handle_mmio_read b addr n =
    if in_ecam addr
    then if leb 0x100 (ecam_reg addr)
      then (b, bytes (replicate n 0))
      else answered (config_read b (ecam_bdf addr) (ecam_reg addr) n) n
    else (b, find_region b.devices b.mmio_regions addr)
