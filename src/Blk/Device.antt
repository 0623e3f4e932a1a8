-- ===== src/Blk/Device.antt =====
-- The block device as the guest sees it, from virtio-devices/src/blk/mod.rs: its common
-- configuration, BAR 0 and configuration space. What a write does outside the device's own state is
-- a list of acts, in order. The workers' threads are Blk/Worker.
pub mod Served
pub mod Notified
mod Tests
use nesbox.Base.{
  ℕ, zero, suc, ◌+◌, ◌-◌, ◌*◌, ◌/◌, ◌%◌, ◌^◌, Bool, true, false, ◌&&◌, ◌||◌, not, Option, none,
  some, List, [], ◌∷◌, ◌++◌, map, length, get_elem?, set, replicate, ltb, leb, ◌==◌, if◌then◌else◌,
  ◌>>=◌, has_bit, u32_mod, u64_mod, padded, min, max,
}
use nesbox.Virtqueue.{QState, set_queue_size}
use nesbox.Transport.{
  ComCfg, Field, QueueView, field_of, parse_write, write_val, write_queue_addr,
  write_driver_feature, com_read, device_feat_sel, driver_feat_sel, driver_feat, msix_config,
  status, queue_sel, queue_size, queue_msix, queue_enable,
}
use nesbox.PciConfig.{
  PciConfig, new_config, set_bar_mem, set_irq_pin, set_irq_line, add_virtio_cap,
  add_virtio_notify_cap, add_msix_cap, add_pcie_cap,
}
use nesbox.Msix.{Effect, MsixTable, new_table, no_vector, trigger_unmasked}
use nesbox.Msix
use nesbox.Msix.Control.{read_cfg_space, write_msix_control, msix_enabled}
use nesbox.Blk.Disk.{Disk}

-- `OFF_ISR` and the offsets of the other parts of BAR 0; the common configuration is at 0.
abbrev pub off_isr : ℕ
off_isr = 0x100

abbrev pub off_device : ℕ
off_device = 0x200

abbrev pub off_notify : ℕ
off_notify = 0x300

abbrev pub off_msix_table : ℕ
off_msix_table = 0x400

abbrev pub off_msix_pba : ℕ
off_msix_pba = 0x500

abbrev pub bar0_size : ℕ
bar0_size = 0x1000

abbrev pub notify_mult : ℕ
notify_mult = 4

-- `QUEUE_SIZE`
abbrev pub max_size : ℕ
max_size = 256

abbrev pub max_queues : ℕ
max_queues = 8

-- A queue as the device holds it; `in_flight` is the worker's to set.
pub record Queue : Type 0 where
  pub index : ℕ
  pub queue : QState
  pub generation : ℕ

pub record BlkDevice : Type 0 where
  pub common : ComCfg
  pub qs : ℕ
  pub cfg_vec : ℕ
  pub cfg : List ℕ
  pub msix_cap : ℕ
  pub isr : ℕ
  pub msix : MsixTable
  pub queues : List Queue
  pub disk : Disk
  pub features : ℕ

pub data Act : Type 0 where
  -- `wait_for_in_flight`
  wait : Act
  -- a write to the eventfd of a queue's worker
  kick : ℕ → Act
  interrupt : Effect → Act

pub fresh_queue : QState
fresh_queue = record {
  desc = 0;
  avail = 0;
  used = 0;
  size = max_size;
  enabled = false;
  last = 0;
  vec = no_vector;
  indirect = false;
  event_idx = false;
}

-- Bits 32, 28, 29, 1, 2 and 6; then 5, or 9, 13 and 14; and 12.
unfoldable pub offered : Bool → ℕ → ℕ
offered read_only num_queues =
    2 ^ 32
    + 2 ^ 28
    + 2 ^ 29
    + 2
    + 4
    + 64
    + (if read_only then 2 ^ 5 else 2 ^ 9 + 2 ^ 13 + 2 ^ 14)
    + (if ltb 1 num_queues then 2 ^ 12 else 0)

pub new_queues : ℕ → ℕ → List Queue
new_queues zero index = []
new_queues (suc n) index =
    record { index = index; queue = fresh_queue; generation = 0 } ∷ new_queues n (index + 1)

unfoldable pub bytes_of : (ℕ → ℕ) → ℕ → ℕ → List ℕ
bytes_of space zero at = []
bytes_of space (suc n) at = space at ∷ bytes_of space n (at + 1)

pub build_pci_config : Option (List ℕ × ℕ)
build_pci_config = do
  c ← set_bar_mem (new_config 0x1af4 0x1042 0x01 0x01_0000 0x1af4 0x0002) 0
  config ← add_virtio_cap (set_irq_line (set_irq_pin c 1) 10) 1 0 0 0x38
  notify ← add_virtio_notify_cap config.0 0 off_notify 0x100 notify_mult
  isr ← add_virtio_cap notify.0 3 0 off_isr 1
  own ← add_virtio_cap isr.0 4 0 off_device 0x3c
  msix ← add_msix_cap own.0 max_queues off_msix_table off_msix_pba
  whole ← add_pcie_cap msix.0 9
  some (bytes_of whole.0.space 256 0, msix.1)

-- `BlkDevice::new`, with the disk opened and the configuration space built.
pub new_device : Disk → Bool → ℕ → List ℕ × ℕ → BlkDevice
new_device disk read_only asked (cfg, msix_cap) =
    let num_queues = min (max asked 1) max_queues in
    record {
      common = record { dfs = 0; dff = 0; df = 0; st = 0 };
      qs = 0;
      cfg_vec = no_vector;
      cfg = cfg;
      msix_cap = msix_cap;
      isr = 0;
      msix = new_table (max_queues + 1);
      queues = new_queues num_queues 0;
      disk = disk;
      features = offered read_only num_queues;
    }

pub device_config : BlkDevice → List ℕ
device_config d =
    write_val 8 d.disk.sectors
    ++ write_val 4 (2 ^ 20)
    ++ write_val 4 (max_size - 2)
    ++ write_val 4 0
    ++ write_val 4 d.disk.block_size
    ++ replicate 10 0
    ++ write_val 2 (length d.queues)
    ++ (if d.disk.read_only
        then replicate 24 0
        else write_val 4 (2 ^ 21)
          ++ write_val 4 1
          ++ write_val 4 (d.disk.block_size / 512)
          ++ write_val 4 (2 ^ 21)
          ++ write_val 4 1
          ++ 1 ∷ 0 ∷ 0 ∷ 0 ∷ [])

-- `QState::default()` where no queue is selected.
pub selected_queue : Option Queue → QState
selected_queue none = record fresh_queue { size = 0; vec = 0 }
selected_queue (some selected) = selected.queue

pub notify_off : ℕ → Option Queue → ℕ
notify_off qs none = 0
notify_off qs (some selected) = qs

pub view_of : ℕ → Option Queue → QueueView
view_of qs selected =
    let q = selected_queue selected in
    record {
      qsel = qs;
      qsize = q.size;
      qvec = q.vec;
      qen = if q.enabled then 1 else 0;
      qnoff = notify_off qs selected;
      qdlo = q.desc % u32_mod;
      qdhi = q.desc / u32_mod;
      qalo = q.avail % u32_mod;
      qahi = q.avail / u32_mod;
      qulo = q.used % u32_mod;
      quhi = q.used / u32_mod;
    }

pub com_read_bytes : BlkDevice → ℕ → ℕ → List ℕ
com_read_bytes d off n = write_val n (
    com_read d.common off d.features (length d.queues) d.cfg_vec
      (view_of d.qs (get_elem? d.queues d.qs)))

-- `common.df & features` has bit `k`.
pub negotiated : BlkDevice → ℕ → Bool
negotiated d k = has_bit d.common.df k && has_bit d.features k

pub latch : Bool → Bool → Queue → Queue
latch indirect event_idx q = record q {
  queue = record q.queue { indirect = indirect; event_idx = event_idx };
}

pub reset_queue : Queue → Queue
reset_queue q = record q { queue = fresh_queue; generation = (q.generation + 1) % u64_mod }

-- A write to the status register. A reset waits for the requests in flight.
pub write_status : BlkDevice → ℕ → BlkDevice × List Act
write_status d v1 =
    let latched = map (latch (negotiated d 28) (negotiated d 29)) d.queues in
    let written = record d.common { st = v1 } in
    if v1 == 0
    then (record d { common = written; queues = map reset_queue latched }, wait ∷ [])
    else (record d { common = written; queues = latched }, [])

-- A write to a register of one queue.
pub write_queue : Field → QState → ℕ → ℕ → ℕ → QState
write_queue queue_size q off v3 v2 = set_queue_size q v2 max_size
write_queue queue_msix q off v3 v2 = record q { vec = v2 }
write_queue queue_enable q off v3 v2 = record q { enabled = not (v2 == 0) }
write_queue f q off v3 v2 = write_queue_addr q off v3

pub write_selected : Field → BlkDevice → ℕ → ℕ → ℕ → BlkDevice
write_selected f d off v3 v2 = elim (get_elem? d.queues d.qs) [
  | none ↦ d
  | some q ↦ record d {
    queues = set d.queues d.qs (record q { queue = write_queue f q.queue off v3 v2 });
  }
]

-- The arguments after the offset are the value as a u32, a u16 and a u8.
pub com_write_at : Field → BlkDevice → ℕ → ℕ → ℕ → ℕ → BlkDevice × List Act
com_write_at device_feat_sel d off v3 v2 v1 =
    (record d { common = record d.common { dfs = v3 } }, [])
com_write_at driver_feat_sel d off v3 v2 v1 =
    (record d { common = record d.common { dff = v3 } }, [])
com_write_at driver_feat d off v3 v2 v1 =
    (record d { common = write_driver_feature d.common v3 }, [])
com_write_at msix_config d off v3 v2 v1 = (record d { cfg_vec = v2 }, [])
com_write_at status d off v3 v2 v1 = write_status d v1
com_write_at queue_sel d off v3 v2 v1 = (record d { qs = v2 }, [])
com_write_at f d off v3 v2 v1 = (write_selected f d off v3 v2, [])

pub com_write : BlkDevice → ℕ → List ℕ → BlkDevice × List Act
com_write d off bytes = let v = parse_write bytes in com_write_at (field_of off) d off v.0 v.1 v.2

-- `buffer` is what the caller handed in: a read of the ISR register fills one byte of it.
pub read_isr : BlkDevice → List ℕ → BlkDevice × List ℕ
read_isr d [] = (d, [])
read_isr d (b ∷ buffer) = (record d { isr = 0 }, d.isr ∷ buffer)

pub bar0_read : BlkDevice → ℕ → List ℕ → BlkDevice × List ℕ
bar0_read d o buffer =
    let n = length buffer in
    if ltb o off_isr
    then (d, com_read_bytes d o n)
    else if ltb o off_device
    then read_isr d buffer
    else if ltb o off_notify
    then (d, padded 0 (device_config d) (o - off_device) n)
    else if ltb o off_msix_table
    then (d, replicate n 0)
    else if ltb o off_msix_pba
    then (d, Msix.read d.msix (o - off_msix_table) n)
    else if ltb o bar0_size
    then (d, Msix.read_pba d.msix (o - off_msix_pba) n)
    else (d, replicate n 0)

pub notify : BlkDevice → ℕ → List Act
notify d index = elim (get_elem? d.queues index) [ none ↦ [] | some q ↦ kick q.index ∷ [] ]

-- The bytes of a write to the MSI-X table go to it; a pending interrupt that it lets through is
-- delivered.
pub write_table : BlkDevice → ℕ → List ℕ → BlkDevice × List Act
write_table d at bytes =
    let r = Msix.write d.msix at bytes in
    (
      record d { msix = r.0 },
      map interrupt (r.2 ++ (if r.1 then trigger_unmasked r.0 (at / 16) else [])),
    )

pub bar0_write : BlkDevice → ℕ → List ℕ → BlkDevice × List Act
bar0_write d o bytes =
    if ltb o off_isr
    then com_write d o bytes
    else if ltb o off_notify
    then (d, [])
    else if ltb o off_msix_table
    then (d, notify d ((o - off_notify) / notify_mult))
    else if ltb o off_msix_pba
    then write_table d (o - off_msix_table) bytes
    else (d, [])

pub read_config : BlkDevice → ℕ → ℕ → List ℕ
read_config d o n = read_cfg_space d.cfg o n

pub write_config : BlkDevice → ℕ → List ℕ → BlkDevice
write_config d o bytes =
    let cfg = write_msix_control d.cfg d.msix_cap o bytes in
    record d { cfg = cfg; msix = record d.msix { enabled = msix_enabled cfg d.msix_cap } }

-- The device after a read of a BAR, and the buffer if the device answers.
pub read_bar : BlkDevice → ℕ → ℕ → List ℕ → BlkDevice × Option (List ℕ)
read_bar d bi o buffer =
    if bi == 0 then (let r = bar0_read d o buffer in (r.0, some r.1)) else (d, none)

pub write_bar : BlkDevice → ℕ → ℕ → List ℕ → (BlkDevice × List Act) × Bool
write_bar d bi o bytes = if bi == 0 then (bar0_write d o bytes, true) else ((d, []), false)

pub bar_size : ℕ → ℕ
bar_size bi = if bi == 0 then bar0_size else 0

-- A doorbell of BAR 0: its offset, and the queue whose eventfd the kernel signals there.
pub doorbells : BlkDevice → List (ℕ × ℕ)
doorbells d = map (λ (q : Queue). (off_notify + q.index * notify_mult, q.index)) d.queues

-- `Drop`: every worker is woken, to see that it is to stop.
pub stop_all : BlkDevice → List Act
stop_all d = map (λ (q : Queue). kick q.index) d.queues
