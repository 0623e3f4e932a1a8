-- ===== src/Transport.antt =====
-- The virtio-pci common configuration of virtio-devices/src/common.rs: queue addresses and feature
-- words, which a driver writes and reads 32 bits at a time.
pub mod Words
mod Tests
use nesbox.Base.{
  ℕ, ◌+◌, ◌*◌, ◌/◌, ◌%◌, List, [], ◌∷◌, ◌==◌, if◌then◌else◌, u8_mod, u16_mod, u32_mod, take, zero,
  suc,
}
use nesbox.Virtqueue.{QState}

pub record ComCfg : Type 0 where
  pub dfs : ℕ
  pub dff : ℕ
  pub df : ℕ
  pub st : ℕ

-- The offsets of the common configuration's fields.
pub data Field : Type 0 where
  device_feat_sel device_feat driver_feat_sel driver_feat msix_config num_queues status queue_sel
        queue_size queue_msix queue_enable queue_notify_off queue_desc_lo queue_desc_hi
        queue_avail_lo queue_avail_hi queue_used_lo queue_used_hi unknown :
      Field

unfoldable pub field_of : ℕ → Field
field_of off =
    if off == 0x00
    then device_feat_sel
    else if off == 0x04
    then device_feat
    else if off == 0x08
    then driver_feat_sel
    else if off == 0x0c
    then driver_feat
    else if off == 0x10
    then msix_config
    else if off == 0x12
    then num_queues
    else if off == 0x14
    then status
    else if off == 0x16
    then queue_sel
    else if off == 0x18
    then queue_size
    else if off == 0x1a
    then queue_msix
    else if off == 0x1c
    then queue_enable
    else if off == 0x1e
    then queue_notify_off
    else if off == 0x20
    then queue_desc_lo
    else if off == 0x24
    then queue_desc_hi
    else if off == 0x28
    then queue_avail_lo
    else if off == 0x2c
    then queue_avail_hi
    else if off == 0x30
    then queue_used_lo
    else if off == 0x34
    then queue_used_hi
    else unknown

-- `(x & 0xFFFF_FFFF_0000_0000) | v` and `(x & 0x0000_0000_FFFF_FFFF) | (v << 32)` for a u64 `x` and
-- a u32 `v`.
abbrev pub with_low : ℕ → ℕ → ℕ
with_low x v = x / u32_mod * u32_mod + v

abbrev pub with_high : ℕ → ℕ → ℕ
with_high x v = v * u32_mod + x % u32_mod

-- The value of up to eight bytes, least significant first.
unfoldable pub from_le_bytes : List ℕ → ℕ
from_le_bytes [] = 0
from_le_bytes (b ∷ bs) = b + 256 * from_le_bytes bs

-- A write of any width, as a u32, a u16 and a u8.
unfoldable pub parse_write : List ℕ → ℕ × ℕ × ℕ
unfolding from_le_bytes
parse_write bytes = let v = from_le_bytes (take 8 bytes) in (v % u32_mod, v % u16_mod, v % u8_mod)

-- The `n` bytes that `write_val` fills: those of the value, then zeros.
unfoldable pub write_val : ℕ → ℕ → List ℕ
write_val zero v = []
write_val (suc n) v = v % 256 ∷ write_val n (v / 256)

pub write_queue_addr_at : Field → QState → ℕ → QState
write_queue_addr_at queue_desc_lo q v = record q { desc = with_low q.desc v }
write_queue_addr_at queue_desc_hi q v = record q { desc = with_high q.desc v }
write_queue_addr_at queue_avail_lo q v = record q { avail = with_low q.avail v }
write_queue_addr_at queue_avail_hi q v = record q { avail = with_high q.avail v }
write_queue_addr_at queue_used_lo q v = record q { used = with_low q.used v }
write_queue_addr_at queue_used_hi q v = record q { used = with_high q.used v }
write_queue_addr_at f q v = q

pub write_queue_addr : QState → ℕ → ℕ → QState
unfolding field_of write_queue_addr_at
write_queue_addr q off v = write_queue_addr_at (field_of off) q v

pub write_driver_feature : ComCfg → ℕ → ComCfg
write_driver_feature cfg value =
    if cfg.dff == 0
    then record cfg { df = with_low cfg.df value }
    else if cfg.dff == 1
    then record cfg { df = with_high cfg.df value }
    else cfg

-- Word `sel` of a 64-bit feature set: the device has no features above word 1.
pub feature_word : ℕ → ℕ → ℕ
feature_word sel features =
    if sel == 0 then features % u32_mod else if sel == 1 then features / u32_mod else 0

-- What the device hands to `com_read` beside the common state.
pub record QueueView : Type 0 where
  pub qsel : ℕ
  pub qsize : ℕ
  pub qvec : ℕ
  pub qen : ℕ
  pub qnoff : ℕ
  pub qdlo : ℕ
  pub qdhi : ℕ
  pub qalo : ℕ
  pub qahi : ℕ
  pub qulo : ℕ
  pub quhi : ℕ

unfoldable pub com_read_at : Field → ComCfg → ℕ → ℕ → ℕ → QueueView → ℕ
unfolding feature_word
com_read_at device_feat_sel cfg features queues vec v = cfg.dfs
com_read_at device_feat cfg features queues vec v = feature_word cfg.dfs features
com_read_at driver_feat_sel cfg features queues vec v = cfg.dff
com_read_at driver_feat cfg features queues vec v = feature_word cfg.dff cfg.df
com_read_at msix_config cfg features queues vec v = vec
com_read_at num_queues cfg features queues vec v = queues
com_read_at status cfg features queues vec v = cfg.st
com_read_at queue_sel cfg features queues vec v = v.qsel
com_read_at queue_size cfg features queues vec v = v.qsize
com_read_at queue_msix cfg features queues vec v = v.qvec
com_read_at queue_enable cfg features queues vec v = v.qen
com_read_at queue_notify_off cfg features queues vec v = v.qnoff
com_read_at queue_desc_lo cfg features queues vec v = v.qdlo
com_read_at queue_desc_hi cfg features queues vec v = v.qdhi
com_read_at queue_avail_lo cfg features queues vec v = v.qalo
com_read_at queue_avail_hi cfg features queues vec v = v.qahi
com_read_at queue_used_lo cfg features queues vec v = v.qulo
com_read_at queue_used_hi cfg features queues vec v = v.quhi
com_read_at unknown cfg features queues vec v = 0

unfoldable pub com_read : ComCfg → ℕ → ℕ → ℕ → ℕ → QueueView → ℕ
unfolding field_of com_read_at
com_read cfg off features queues vec v = com_read_at (field_of off) cfg features queues vec v
