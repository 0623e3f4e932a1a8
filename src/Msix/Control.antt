-- ===== src/Msix/Control.antt =====
-- The configuration space of a virtio device, as common.rs serves it: reads, and writes to the
-- message control of its MSI-X capability.
use nesbox.Base.{
  ℕ, ◌+◌, ◌-◌, ◌*◌, ◌/◌, ◌%◌, ◌≤◌, ◌<◌, ◌≡◌, ◌⊎◌, inl, inr, refl, ◌∙◌, ap, Bool, ◌||◌, List, [],
  ◌∷◌, length, get_or, set, ltb, leb, ◌==◌, if◌then◌else◌, has_bit, padded, arith, get_or-set_self,
  get_or-set_ne, length-set, if-holds, ℕ_discrete, subst,
}

unfoldable pub read_cfg_space : List ℕ → ℕ → ℕ → List ℕ
read_cfg_space cfg offset n = padded 0xff cfg offset n

-- `MSIX_MSG_CTL`
abbrev pub msix_msg_ctl : ℕ
msix_msg_ctl = 2

-- The writable bits 14 and 15 are the two highest of the high byte: lane 1. Lane 0 has none.
unfoldable pub control_byte : ℕ → ℕ → ℕ → ℕ
control_byte lane old byte = if lane == 0 then old else old % 64 + byte / 64 * 64

-- One byte of a write, at `off`; `ctl` is where the message control is.
unfoldable pub write_control_byte : List ℕ → ℕ → ℕ → ℕ → List ℕ
write_control_byte cfg ctl off byte =
    if ltb off ctl || leb (ctl + 2) off
    then cfg
    else set cfg off (control_byte (off - ctl) (get_or cfg off 0) byte)

unfoldable pub write_control_bytes : List ℕ → ℕ → ℕ → List ℕ → List ℕ
write_control_bytes cfg ctl off [] = cfg
write_control_bytes cfg ctl off (byte ∷ bytes) =
    write_control_bytes (write_control_byte cfg ctl off byte) ctl (off + 1) bytes

unfoldable pub write_msix_control : List ℕ → ℕ → ℕ → List ℕ → List ℕ
write_msix_control cfg msix_cap offset bytes =
    write_control_bytes cfg (msix_cap + msix_msg_ctl) offset bytes

unfoldable pub msix_enabled : List ℕ → ℕ → Bool
msix_enabled cfg msix_cap = has_bit (get_or cfg (msix_cap + msix_msg_ctl + 1) 0) 7

-- One byte of the configuration space, before and after: kept, but for the two highest bits of the
-- message control's high byte.
abbrev pub KeptAt : ℕ → List ℕ → List ℕ → ℕ → Type 0
KeptAt ctl before after i =
    (get_or after i 0 % 64 ≡ get_or before i 0 % 64)
    × ((i ≡ ctl + 1) ⊎ (get_or after i 0 ≡ get_or before i 0))

set_control-KeptAt :
    (cfg : List ℕ) (ctl off byte i : ℕ)
    → ctl ≤ off
    → off < ctl + 2
    → off < length cfg
    → KeptAt ctl cfg (set cfg off (control_byte (off - ctl) (get_or cfg off 0) byte)) i
unfolding control_byte
set_control-KeptAt cfg ctl off byte i above below fits = elim (ℕ_discrete off i) [
  | yes p ↦ subst (λ j. KeptAt ctl cfg (set cfg off new) j) p (at_off (ℕ_discrete off ctl))
  | no n ↦
      let kept = get_or-set_ne cfg {i = off} {j = i} new 0 n in
      (ap (λ (b : ℕ). b % 64) kept, inr kept)
]
  where
    new : ℕ
    new = control_byte (off - ctl) (get_or cfg off 0) byte

    self : get_or (set cfg off new) off 0 ≡ new
    self = get_or-set_self cfg off new 0 fits

    at_off : Dec (off ≡ ctl) → KeptAt ctl cfg (set cfg off new) off
    at_off (yes p) = ground (arith, self)
    at_off (no n) = ground (arith, self)

write_control_byte-KeptAt :
    (cfg : List ℕ) (ctl off byte i : ℕ)
    → ctl + 2 ≤ length cfg
    → KeptAt ctl cfg (write_control_byte cfg ctl off byte) i
unfolding write_control_byte
write_control_byte-KeptAt cfg ctl off byte i fits =
    if-holds (λ c. KeptAt ctl cfg c i) (ltb off ctl || leb (ctl + 2) off) (λ _. (refl, inr refl))
      λ e. set_control-KeptAt cfg ctl off byte i (ground arith) (ground arith) (ground arith)

length-write_control_byte :
    (cfg : List ℕ) (ctl off byte : ℕ) → length (write_control_byte cfg ctl off byte) ≡ length cfg
unfolding write_control_byte
length-write_control_byte cfg ctl off byte =
    if-holds (λ (c : List ℕ). length c ≡ length cfg) (ltb off ctl || leb (ctl + 2) off) (λ _. refl)
      λ _. length-set cfg off (control_byte (off - ctl) (get_or cfg off 0) byte)

KeptAt-trans : (ctl i : ℕ) (a b c : List ℕ) → KeptAt ctl a b i → KeptAt ctl b c i → KeptAt ctl a c i
KeptAt-trans ctl i a b c (low, inl e) (low', rest) = (low' ∙ low, inl e)
KeptAt-trans ctl i a b c (low, inr kept) (low', inl e) = (low' ∙ low, inl e)
KeptAt-trans ctl i a b c (low, inr kept) (low', inr kept') = (low' ∙ low, inr (kept' ∙ kept))

write_control_bytes-KeptAt :
    (cfg : List ℕ) (ctl off i : ℕ) (bytes : List ℕ)
    → ctl + 2 ≤ length cfg
    → KeptAt ctl cfg (write_control_bytes cfg ctl off bytes) i
unfolding write_control_bytes
write_control_bytes-KeptAt cfg ctl off i [] fits = (refl, inr refl)
write_control_bytes-KeptAt cfg ctl off i (byte ∷ bytes) fits =
    let next = write_control_byte cfg ctl off byte in
    KeptAt-trans ctl i cfg next (write_control_bytes next ctl (off + 1) bytes)
      (write_control_byte-KeptAt cfg ctl off byte i fits)
      (write_control_bytes-KeptAt next ctl (off + 1) i bytes
        (omega (arith, length-write_control_byte cfg ctl off byte)))

-- A write of any bytes anywhere to the configuration space leaves every byte of it as it was, but
-- for the two highest bits of the message control, if the MSI-X capability lies in the space.
pub write_msix_control-KeptAt :
    (cfg : List ℕ) (msix_cap offset : ℕ) (bytes : List ℕ) (i : ℕ)
    → msix_cap + msix_msg_ctl + 2 ≤ length cfg
    → KeptAt (msix_cap + msix_msg_ctl) cfg (write_msix_control cfg msix_cap offset bytes) i
unfolding write_msix_control
write_msix_control-KeptAt cfg msix_cap offset bytes i fits =
    write_control_bytes-KeptAt cfg (msix_cap + msix_msg_ctl) offset i bytes fits
