-- ===== src/Serial.antt =====
-- The 16550A UART of vmm/src/serial.rs. What the code writes to standard output is given back: its
-- errors are dropped there.
pub mod Output
pub mod Buffer
mod Tests
use nesbox.Base.{
  ℕ, ◌+◌, ◌-◌, ◌*◌, ◌/◌, ◌%◌, Bool, ◌&&◌, ◌||◌, List, [], ◌∷◌, ◌++◌, length, replicate, leb, ◌==◌,
  if◌then◌else◌, has_bit,
}

abbrev pub com1_base : ℕ
com1_base = 0x3f8

abbrev pub com1_last : ℕ
com1_last = 0x3ff

pub record Uart : Type 0 where
  pub ier : ℕ
  pub lcr : ℕ
  pub mcr : ℕ
  pub scr : ℕ
  pub divisor : ℕ
  pub out : List ℕ

pub new_uart : Uart
new_uart = record { ier = 0; lcr = 3; mcr = 8; scr = 0; divisor = 12; out = [] }

pub handles : ℕ → Bool
handles port = leb com1_base port && leb port com1_last

-- LCR_DLAB is bit 7.
abbrev pub dlab : Uart → Bool
dlab u = has_bit u.lcr 7

-- `flush`: the device after it, and the bytes that went out.
pub flush : Uart → Uart × List ℕ
flush u = (record u { out = [] }, u.out)

-- A byte for the transmitter; 10 is the line feed.
pub transmit : Uart → ℕ → Uart × List ℕ
transmit u byte =
    let u1 = record u { out = u.out ++ byte ∷ [] } in
    if (byte == 10) || leb 256 (length u1.out) then flush u1 else (u1, [])

pub write_register : Uart → ℕ → ℕ → Uart × List ℕ
write_register u reg byte =
    if reg == 0
    then if dlab u
      then (record u { divisor = u.divisor / 256 * 256 + byte }, [])
      else transmit u byte
    else if reg == 1
    then if dlab u
      then (record u { divisor = u.divisor % 256 + byte * 256 }, [])
      else (record u { ier = byte % 16 }, [])
    else if reg == 3
    then (record u { lcr = byte }, [])
    else if reg == 4
    then (record u { mcr = byte }, [])
    else if reg == 7
    then (record u { scr = byte }, [])
    else (u, [])

unfoldable pub write : Uart → ℕ → List ℕ → Uart × List ℕ
write u port [] = (u, [])
write u port (byte ∷ bytes) = write_register u (port - com1_base) byte

pub register : Uart → ℕ → ℕ
register u reg =
    if reg == 0
    then if dlab u then u.divisor % 256 else 0
    else if reg == 1
    then if dlab u then u.divisor / 256 % 256 else u.ier
    else if reg == 2
    then 1
    else if reg == 3
    then u.lcr
    else if reg == 4
    then u.mcr
    else if reg == 5
    then 0x60
    else if reg == 6
    then 0xb0
    else if reg == 7
    then u.scr
    else 0

-- The bytes of an access of `n` bytes.
pub spread : ℕ → ℕ → List ℕ
spread val n = if n == 0 then [] else val ∷ replicate (n - 1) 0

-- The device after the read and what went out, then what is read.
pub read : Uart → ℕ → ℕ → (Uart × List ℕ) × List ℕ
read u port n =
    let reg = port - com1_base in
    ((if reg == 5 then flush u else (u, [])), spread (register u reg) n)
