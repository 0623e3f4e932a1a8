-- ===== src/Bus/Decode.antt =====
-- The two ways into configuration space name the same registers.
use nesbox.Base.{ℕ, ◌+◌, ◌*◌, ◌/◌, ◌%◌, ◌^◌, ◌<◌, ◌≡◌, true, List, arith, has_bit}
use nesbox.Bus.{Bdf, Bus, ecam_base}
use nesbox.Bus.Dispatch.{
  cam_bdf, cam_reg, ecam_bdf, ecam_reg, in_ecam, handle_pio_read, handle_pio_write,
  handle_mmio_read, handle_mmio_write,
}

-- A device and function of bus 0 and a register of its first 256 bytes.
pub record IsTarget (a : Bdf) (reg : ℕ) : Type 0 where
  pub on_bus : a.bus ≡ 0
  pub dev_in : a.dev < 32
  pub func_in : a.func < 8
  pub reg_in : reg < 256

-- The address that the guest forms for a register under ECAM, and the CONFIG_ADDRESS value under CAM1.
abbrev pub ecam_of : Bdf → ℕ → ℕ
ecam_of a reg = ecam_base + a.bus * 2 ^ 20 + a.dev * 2 ^ 15 + a.func * 2 ^ 12 + reg

abbrev pub cam_of : Bdf → ℕ → ℕ
cam_of a reg = 2 ^ 31 + a.bus * 2 ^ 16 + a.dev * 2 ^ 11 + a.func * 2 ^ 8 + reg / 4 * 4

-- For a device and function of bus 0 and a register of the first 256 bytes, both mechanisms decode
-- to the device and the register that the guest encoded.
pub decode_lem :
    (a : Bdf) (reg : ℕ)
    → IsTarget a reg
    → (in_ecam (ecam_of a reg) ≡ true)
      × (ecam_bdf (ecam_of a reg) ≡ a)
      × (ecam_reg (ecam_of a reg) ≡ reg)
      × (has_bit (cam_of a reg) 31 ≡ true)
      × (cam_bdf (cam_of a reg) ≡ a)
      × (cam_reg (cam_of a reg) (0xCFC + reg % 4) ≡ reg)
unfolding ecam_bdf ecam_reg cam_bdf cam_reg
decode_lem a reg t =
    (ground arith, ground arith, omega arith, ground arith, ground arith, omega arith)

-- When CONFIG_ADDRESS names a register of a device on bus 0, an access to it comes to the same
-- through the ports and through memory: the same answer and the same bus after it.
pub pio-eq-ecam :
    (b : Bus) (a : Bdf) (reg n : ℕ) (d : List ℕ)
    → IsTarget a reg
    → b.config_addr ≡ cam_of a reg
    → (handle_pio_read b (0xCFC + reg % 4) n ≡ (true, handle_mmio_read b (ecam_of a reg) n))
      × (handle_pio_write b (0xCFC + reg % 4) d ≡ (true, handle_mmio_write b (ecam_of a reg) d))
unfolding handle_pio_read handle_mmio_read handle_pio_write handle_mmio_write
pio-eq-ecam b a reg n d t h =
    let l = decode_lem a reg t in
    let same : ecam_bdf (ecam_of a reg) ≡ cam_bdf b.config_addr = ground (arith, l.1, l.4) in
    let reg_same : cam_reg b.config_addr (0xCFC + reg % 4) ≡ reg = ground (arith, l.5) in
    let on : has_bit b.config_addr 31 ≡ true = ground (arith, l.3) in
    (ground (arith, same, reg_same, on, l.2), ground (arith, same, reg_same, on, l.2))
