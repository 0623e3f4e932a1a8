-- ===== src/Blk/Device/Tests.antt =====
-- A device of two queues on a disk of 1 GiB.
use nesbox.Base.{
  ℕ, ◌≤◌, ◌≡◌, refl, true, false, Option, none, some, List, [], ◌∷◌, length, take, drop, replicate,
  get_elem?, ◌^◌, arith,
}
use nesbox.Virtqueue.{set_queue_size}
use nesbox.Blk.Disk.{Disk}
use nesbox.Transport.{parse_write, from_le_bytes, write_val, field_of, com_read, com_read_at}
use nesbox.PciConfig.{
  new_config, set_bar_mem, set_irq_pin, set_irq_line, add_virtio_cap, add_virtio_notify_cap,
  add_msix_cap, add_pcie_cap, add_cap, linked, put,
}
use nesbox.Msix.{new_table, read_pba, pba_bytes}
use nesbox.Msix.Control.{
  read_cfg_space, write_msix_control, write_control_bytes, write_control_byte, control_byte,
  msix_enabled,
}
use nesbox.Blk.Device.{
  BlkDevice, kick, new_device, new_queues, fresh_queue, offered, device_config, bytes_of,
  build_pci_config, com_read_bytes, view_of, selected_queue, notify_off, com_write, com_write_at,
  write_selected, write_queue, bar0_read, read_isr, bar0_write, read_config, write_config, read_bar,
  write_bar, bar_size, stop_all, doorbells,
}
use nesbox.Blk.Device.Served.{IsServed, IsLimited, access_all, access_all-IsServed, writes, reads}
use nesbox.Blk.Device.Notified.{NumberedFrom, bar0_write-doorbells}

abbrev disk : Disk
disk = record { read_only = false; sectors = 2 ^ 21; block_size = 4096; dio = none }

device : BlkDevice
device = new_device disk false 2 (replicate 256 0, 0x80)

device-IsServed : IsServed (offered false 2) device
unfolding device new_device new_queues IsLimited fresh_queue
device-IsServed = (refl, ((omega arith, λ e. cc, λ e. cc), ((omega arith, λ e. cc, λ e. cc), tt)))

device-NumberedFrom : NumberedFrom 0 device.queues
unfolding device new_device new_queues NumberedFrom
device-NumberedFrom = (refl, (refl, tt))

access_all-IsServed_example : IsServed (offered false 2) (
    access_all device
      (writes 0x18 (0xff ∷ 0xff ∷ []) ∷ writes 0x14 (4 ∷ []) ∷ reads 0x100 (0 ∷ []) ∷ []))
access_all-IsServed_example =
    access_all-IsServed (offered false 2) device
      (writes 0x18 (0xff ∷ 0xff ∷ []) ∷ writes 0x14 (4 ∷ []) ∷ reads 0x100 (0 ∷ []) ∷ [])
      device-IsServed

device_few : length device.queues ≤ 8
unfolding device new_device new_queues
device_few = omega arith

device_bell : get_elem? (doorbells device) 1 ≡ some (0x304, 1)
unfolding device new_device new_queues doorbells
device_bell = refl

bar0_write-doorbells_example : bar0_write device 0x304 (1 ∷ 0 ∷ []) ≡ (device, kick 1 ∷ [])
bar0_write-doorbells_example =
    bar0_write-doorbells device 1 (1 ∷ 0 ∷ []) device-NumberedFrom device_few device_bell

-- The shape of what `build_pci_config` gives: the vendor and the device, the size, and where the
-- MSI-X capability is.
abbrev outline : Option (List ℕ × ℕ) → List ℕ
outline none = []
outline (some (cfg, msix_cap)) = length cfg ∷ msix_cap ∷ take 4 cfg

built : outline build_pci_config ≡ 256 ∷ 0x84 ∷ 0xf4 ∷ 0x1a ∷ 0x42 ∷ 0x10 ∷ []
unfolding build_pci_config bytes_of new_config set_bar_mem set_irq_pin set_irq_line add_virtio_cap
    add_virtio_notify_cap add_msix_cap add_pcie_cap add_cap linked put write_val
built = refl

config_bytes :
    drop 8 (take 24 (device_config device))
    ≡ 0 ∷ 0 ∷ 0x10 ∷ 0 ∷ 0xfe ∷ 0 ∷ 0 ∷ 0 ∷ 0 ∷ 0 ∷ 0 ∷ 0 ∷ 0 ∷ 0x10 ∷ 0 ∷ 0 ∷ []
unfolding device_config device new_device new_queues write_val
config_bytes = refl

config_length : length (device_config device) ≡ 60
unfolding device_config device new_device new_queues write_val
config_length = refl

abbrev selected : BlkDevice
selected = (bar0_write (bar0_write device 0x16 (1 ∷ 0 ∷ [])).0 0x18 (0x40 ∷ 0 ∷ [])).0

read_back : (bar0_read selected 0x18 (0 ∷ 0 ∷ [])).1 ≡ 0x40 ∷ 0 ∷ []
unfolding device new_device new_queues fresh_queue bar0_read bar0_write com_read_bytes com_read
    com_read_at view_of selected_queue notify_off com_write com_write_at write_selected write_queue
    set_queue_size parse_write from_le_bytes field_of write_val
read_back = refl

isr_read : (bar0_read device 0x100 (7 ∷ 9 ∷ [])).1 ≡ 0 ∷ 9 ∷ []
unfolding device new_device bar0_read read_isr
isr_read = refl

pending_read : (bar0_read device 0x500 (7 ∷ 9 ∷ [])).1 ≡ 0 ∷ 0 ∷ []
unfolding device new_device bar0_read read_pba pba_bytes new_table
pending_read = refl

enabled_by_guest : (write_config device 0x83 (0xff ∷ [])).msix.enabled ≡ true
unfolding device new_device write_config write_msix_control write_control_bytes write_control_byte
    control_byte msix_enabled
enabled_by_guest = refl

only_two_bits : read_config (write_config device 0x82 (0xff ∷ 0xff ∷ [])) 0x82 2 ≡ 0 ∷ 0xc0 ∷ []
unfolding device new_device write_config read_config read_cfg_space write_msix_control
    write_control_bytes write_control_byte control_byte msix_enabled
only_two_bits = refl

other_bars :
    ((read_bar device 1 0 []).1 ≡ none) × ((write_bar device 1 0 []).1 ≡ false) × (bar_size 1 ≡ 0)
unfolding read_bar write_bar bar_size
other_bars = (refl, refl, refl)

all_woken : stop_all device ≡ kick 0 ∷ kick 1 ∷ []
unfolding stop_all device new_device new_queues
all_woken = refl

offers : (offered true 1 ≡ 0x1_3000_0066) × (offered false 2 ≡ 0x1_3000_7246)
unfolding offered
offers = (refl, refl)
