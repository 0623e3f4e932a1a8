-- ===== src/PciConfig.antt =====
-- The builder of a device's configuration space of pci/src/config.rs. The 256 bytes are a function of
-- the index; the assertions of the code, which keep every write within them, are `none`.
pub mod Capabilities
mod Tests
use nesbox.Base.{
  ℕ, ◌+◌, ◌*◌, ◌/◌, ◌%◌, List, [], ◌∷◌, ◌++◌, Option, none, some, ◌==◌, ltb, leb, not, ◌&&◌,
  if◌then◌else◌, length, replicate, u32_mod,
}
use nesbox.Transport.{write_val}

abbrev pub first_cap : ℕ
first_cap = 0x40

abbrev pub cap_max : ℕ
cap_max = 0x100

abbrev pub cap_list_head : ℕ
cap_list_head = 0x34

pub record PciConfig : Type 0 where
  pub space : ℕ → ℕ
  pub last_cap_offset : Option ℕ
  pub next_cap_start : ℕ

-- `data[at..at + n].copy_from_slice(..)`
unfoldable pub put : (ℕ → ℕ) → ℕ → List ℕ → ℕ → ℕ
put c at [] i = c i
put c at (b ∷ bs) i = if i == at then b else put c (at + 1) bs i

-- `(offset + 3) & !3`
abbrev pub next_dword : ℕ → ℕ
next_dword offset = (offset + 3) / 4 * 4

unfoldable pub new_config : ℕ → ℕ → ℕ → ℕ → ℕ → ℕ → PciConfig
unfolding put
new_config vendor device revision class_code subsystem_vendor subsystem_id =
    let ids = put (λ i. 0) 0 (write_val 2 vendor ++ write_val 2 device) in
    let command = put ids 4 (write_val 2 0x0006 ++ write_val 2 0x0010) in
    let class = put command 8 (revision ∷ write_val 3 class_code) in
    let header = put class 0x0e (0 ∷ []) in
    record {
      space = put header 0x2c (write_val 2 subsystem_vendor ++ write_val 2 subsystem_id);
      last_cap_offset = none;
      next_cap_start = first_cap;
    }

unfoldable pub set_irq_pin : PciConfig → ℕ → PciConfig
unfolding put
set_irq_pin c pin = record c { space = put c.space 0x3d (pin ∷ []) }

unfoldable pub set_irq_line : PciConfig → ℕ → PciConfig
unfolding put
set_irq_line c line = record c { space = put c.space 0x3c (line ∷ []) }

unfoldable pub set_bar_mem : PciConfig → ℕ → Option PciConfig
unfolding put
set_bar_mem c bar_idx =
    if ltb bar_idx 6
    then some (record c { space = put c.space (0x10 + bar_idx * 4) (replicate 4 0) })
    else none

pub set_bar_mem64 : PciConfig → ℕ → Option PciConfig
unfolding put
set_bar_mem64 c bar_idx =
    if ltb bar_idx 5
    then some (record c { space = put c.space (0x10 + bar_idx * 4) (replicate 8 0) })
    else none

-- Where the pointer to the next capability to be added is.
abbrev pub link_of : Option ℕ → ℕ
link_of none = cap_list_head
link_of (some prev) = prev + 1

-- The capability written, with an empty next pointer, and the pointer to it patched.
unfoldable pub linked : PciConfig → ℕ → List ℕ → PciConfig
unfolding put
linked c cap_id payload =
    let start = c.next_cap_start in
    record {
      space =
          put (put c.space start (cap_id ∷ 0 ∷ payload)) (link_of c.last_cap_offset) (start ∷ []);
      last_cap_offset = some start;
      next_cap_start = next_dword (start + (2 + length payload));
    }

unfoldable pub add_cap : PciConfig → ℕ → List ℕ → Option (PciConfig × ℕ)
unfolding linked
add_cap c cap_id payload =
    if not (leb first_cap c.next_cap_start && ltb c.next_cap_start cap_max)
    then none
    else if ltb cap_max (c.next_cap_start + (2 + length payload))
    then none
    else some (linked c cap_id payload, c.next_cap_start)

unfoldable pub add_virtio_cap : PciConfig → ℕ → ℕ → ℕ → ℕ → Option (PciConfig × ℕ)
unfolding add_cap
add_virtio_cap c cfg_type bar_idx offset size =
    add_cap c 0x09 (0x10 ∷ cfg_type ∷ bar_idx ∷ 0 ∷ 0 ∷ 0 ∷ write_val 4 offset ++ write_val 4 size)

unfoldable pub add_virtio_notify_cap : PciConfig → ℕ → ℕ → ℕ → ℕ → Option (PciConfig × ℕ)
unfolding add_cap
add_virtio_notify_cap c bar_idx offset size multiplier = add_cap c 0x09 (
    0x14 ∷ 2 ∷ bar_idx ∷ 0 ∷ 0 ∷ 0 ∷ write_val 4 offset
    ++ write_val 4 size
    ++ write_val 4 multiplier)

pub add_virtio_shm_cap : PciConfig → ℕ → ℕ → ℕ → ℕ → Option (PciConfig × ℕ)
unfolding add_cap
add_virtio_shm_cap c shmid bar_idx offset size = add_cap c 0x09 (
    24 ∷ 8 ∷ bar_idx ∷ shmid ∷ 0 ∷ 0 ∷ write_val 4 (offset % u32_mod)
    ++ write_val 4 (size % u32_mod)
    ++ write_val 4 (offset / u32_mod)
    ++ write_val 4 (size / u32_mod))

unfoldable pub add_msix_cap : PciConfig → ℕ → ℕ → ℕ → Option (PciConfig × ℕ)
unfolding add_cap
add_msix_cap c table_size table_off pba_off =
    add_cap c 0x11 (write_val 2 table_size ++ write_val 4 table_off ++ write_val 4 pba_off)

unfoldable pub add_pcie_cap : PciConfig → ℕ → Option (PciConfig × ℕ)
unfolding add_cap
add_pcie_cap c device_type =
    add_cap c 0x10 (write_val 2 (2 + device_type % 16 * 16) ++ replicate 56 0)
