-- ===== src/Bus.antt =====
-- The PCI bus of pci/src/lib.rs: its state, BAR allocation when a device is added, configuration
-- space with the BAR registers intercepted, and the dispatch of port and memory accesses.
-- A device is what it declares (`bar_size`, `bar_type`, `doorbells`); its own registers are not part
-- of the bus, so an access that the bus hands on is an outcome that names the device and the offset.
pub mod Alloc
pub mod Config
pub mod Dispatch
pub mod Windows
pub mod Placement
pub mod Loop
pub mod Added
pub mod Regions
pub mod Sync
pub mod Sizing
pub mod Decode
mod Tests
use nesbox.Base.{ℕ, ◌+◌, Bool, true, false, ◌&&◌, Option, none, List, [], ◌==◌}

abbrev pub mmio_window_start : ℕ
mmio_window_start = 0xC000_0000

abbrev pub mmio_window_end : ℕ
mmio_window_end = 0xE000_0000

abbrev pub ecam_base : ℕ
ecam_base = 0xE000_0000

abbrev pub ecam_size : ℕ
ecam_size = 0x10_0000

pub record Mmio64Window : Type 0 where
  pub start : ℕ
  pub end : ℕ

unfoldable pub mmio64_window : ℕ → ℕ → Mmio64Window
mmio64_window start size = record { start = start; end = start + size }

pub data BarType : Type 0 where
  mem32 mem64 : BarType

pub type_bits : BarType → ℕ
type_bits mem32 = 0x0
type_bits mem64 = 0xc

abbrev pub is_64bit : BarType → Bool
is_64bit mem32 = false
is_64bit mem64 = true

-- `fd` stands for the eventfd.
pub record Doorbell : Type 0 where
  pub bar_idx : ℕ
  pub offset : ℕ
  pub fd : ℕ

pub record Bdf : Type 0 where
  pub bus : ℕ
  pub dev : ℕ
  pub func : ℕ

abbrev pub same_bdf : Bdf → Bdf → Bool
same_bdf a b = (a.bus == b.bus) && ((a.dev == b.dev) && (a.func == b.func))

pub record Device : Type 0 where
  pub bar_size : ℕ → ℕ
  pub bar_type : ℕ → BarType
  pub doorbells : List Doorbell

pub record Bar : Type 0 where
  pub bar_idx : ℕ
  pub addr : ℕ
  pub size : ℕ
  pub bar_type : BarType
  pub probing_lo : Bool
  pub probing_hi : Bool

pub record RegisteredDoorbell : Type 0 where
  pub bdf : Bdf
  pub bar_idx : ℕ
  pub addr : ℕ
  pub fd : ℕ

pub record Entry : Type 0 where
  pub bdf : Bdf
  pub device : Device
  pub bars : List Bar

-- One row of the flat index of MMIO regions.
pub record Region : Type 0 where
  pub base : ℕ
  pub size : ℕ
  pub bdf : Bdf
  pub bar_idx : ℕ

-- `devices` is the HashMap, in order of insertion. `ioevents` is the registrar, if one was set: its
-- answer to `register(addr, fd)`, which is KVM's.
pub record Bus : Type 0 where
  pub devices : List Entry
  pub next_bdf : Bdf
  pub config_addr : ℕ
  pub mmio_regions : List Region
  pub ioevents : Option (ℕ → ℕ → Bool)
  pub registered : List RegisteredDoorbell
  pub mmio64 : Mmio64Window

pub new_bus : Mmio64Window → Bus
new_bus w = record {
  devices = [];
  next_bdf = record { bus = 0; dev = 1; func = 0 };
  config_addr = 0;
  mmio_regions = [];
  ioevents = none;
  registered = [];
  mmio64 = w;
}
