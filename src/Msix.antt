-- ===== src/Msix.antt =====
-- The MSI-X table of virtio-devices/src/common.rs (`MsixTable`) and the writable bits of its message
-- control. What a call does outside the table is a list of effects, in order: routes programmed
-- through the `MsiRouter`, and eventfds signalled.
pub mod Delivery
pub mod Control
pub mod Contents
mod Tests
use nesbox.Base.{
  ℕ, zero, suc, ◌+◌, ◌-◌, ◌*◌, ◌/◌, ◌%◌, Bool, true, false, not, ◌&&◌, ◌||◌, none, some, List, [],
  ◌∷◌, ◌++◌, length, get_elem?, get_or, set, take, drop, leb, ◌==◌, if◌then◌else◌, u32_mod,
  test_bit, set_bit, clear_bit, replicate, padded,
}

-- `VIRTQ_MSI_NO_VECTOR`
abbrev pub no_vector : ℕ
no_vector = 0xffff

pub data Effect : Type 0 where
  -- `router.set_msi_route(gsi, addr, data)`
  route : ℕ → ℕ → ℕ → Effect
  -- a write to the eventfd of the vector that has this GSI
  signal : ℕ → Effect
  -- a write to the eventfd of the INTx line
  raise_intx : Effect

-- `vectors` holds the GSI of each `MsiVector`. `routed` and `intx` say whether `bind` has been called.
pub record MsixTable : Type 0 where
  pub entries : List (List ℕ)
  pub pba : ℕ
  pub enabled : Bool
  pub vectors : List ℕ
  pub routed : Bool
  pub intx : Bool

unfoldable pub new_table : ℕ → MsixTable
new_table n = record {
  entries = replicate n (replicate 16 0);
  pba = 0;
  enabled = false;
  vectors = [];
  routed = false;
  intx = false;
}

pub bind : MsixTable → List ℕ → MsixTable
bind t gsis = record t { vectors = gsis; routed = true; intx = true }

-- The entry with `bytes` copied over it from `so` on, as far as the entry's 16 bytes go.
pub splice : List ℕ → ℕ → List ℕ → List ℕ
splice entry so bytes =
    let fit = take (16 - so) bytes in take so entry ++ (fit ++ drop (so + length fit) entry)

abbrev byte : List ℕ → ℕ → ℕ
byte entry i = get_or entry i 0

-- Four bytes, least significant first, as a u32.
abbrev u32_at : List ℕ → ℕ → ℕ
u32_at e i = byte e i + 256 * (byte e (i + 1) + 256 * (byte e (i + 2) + 256 * byte e (i + 3)))

-- Bit 0 of byte 12, vector control, is the mask bit.
abbrev pub entry_masked : List ℕ → Bool
entry_masked entry = get_or entry 12 0 % 2 == 1

pub masked : MsixTable → ℕ → Bool
masked t idx = elim (get_elem? t.entries idx) [ some e ↦ entry_masked e | none ↦ false ]

pub program_route : MsixTable → ℕ → List ℕ → List Effect
program_route t ei e =
    let addr = u32_at e 0 + u32_at e 4 * u32_mod in
    if (addr == 0) || not t.routed
    then []
    else elim (get_elem? t.vectors ei) [ some gsi ↦ route gsi addr (u32_at e 8) ∷ [] | none ↦ [] ]

-- The table after a write to entry `ei`, which held `old`; whether a pending interrupt is to be
-- delivered now; and the effects.
pub write_entry : MsixTable → ℕ → ℕ → List ℕ → List ℕ → MsixTable × Bool × List Effect
write_entry t ei so bytes old =
    let new = splice old so bytes in
    let deliver_now = entry_masked old && not (entry_masked new) && test_bit t.pba ei in
    (
      record t {
        entries = set t.entries ei new;
        pba = if deliver_now then clear_bit t.pba ei else t.pba;
      },
      deliver_now,
      program_route t ei new,
    )

unfoldable pub write : MsixTable → ℕ → List ℕ → MsixTable × Bool × List Effect
write t offset bytes = elim (get_elem? t.entries (offset / 16)) [
  | none ↦ (t, false, [])
  | some old ↦ write_entry t (offset / 16) (offset % 16) bytes old
]

pub trigger : MsixTable → ℕ → MsixTable × List Effect
unfolding masked
trigger t vector =
    if not t.enabled || vector == no_vector
    then (t, if t.intx then raise_intx ∷ [] else [])
    else if leb (length t.entries) vector
    then (t, [])
    else if masked t vector
    then (record t { pba = set_bit t.pba vector }, [])
    else (t, elim (get_elem? t.vectors vector) [ some gsi ↦ signal gsi ∷ [] | none ↦ [] ])

pub trigger_unmasked : MsixTable → ℕ → List Effect
trigger_unmasked t idx = elim (get_elem? t.vectors idx) [ some gsi ↦ signal gsi ∷ [] | none ↦ [] ]

-- `get_or` beyond the last entry is the empty list, which reads as zeros.
unfoldable pub read : MsixTable → ℕ → ℕ → List ℕ
read t offset n = padded 0 (get_or t.entries (offset / 16) []) (offset % 16) n

-- The eight bytes of the bit array, least significant first.
unfoldable pub pba_bytes : ℕ → ℕ → List ℕ
pba_bytes zero pba = []
pba_bytes (suc n) pba = pba % 256 ∷ pba_bytes n (pba / 256)

unfoldable pub read_pba : MsixTable → ℕ → ℕ → List ℕ
read_pba t offset n = padded 0 (pba_bytes 8 t.pba) offset n

-- What a write to the eventfd that `call_fd` names would be.
pub call_fd : MsixTable → ℕ → List Effect
call_fd t vector =
    if not t.enabled || vector == no_vector
    then if t.intx then raise_intx ∷ [] else []
    else elim (get_elem? t.vectors vector) [ some gsi ↦ signal gsi ∷ [] | none ↦ [] ]
