-- ===== src/Transport/Words.antt =====
-- What a driver that goes through the 32-bit halves gets: the 64-bit value that it meant.
use native.Mathlib.Nat.{pow-suc}
use nesbox.Base.{
  ℕ, zero, suc, ◌+◌, ◌*◌, ◌/◌, ◌^◌, ◌<◌, ◌≡◌, refl, List, [], ◌∷◌, arith, u32_mod, u64_mod,
}
use nesbox.Virtqueue.{QState}
use nesbox.Transport.{
  ComCfg, QueueView, from_le_bytes, write_val, write_queue_addr, write_queue_addr_at,
  write_driver_feature, com_read, Field, field_of, queue_desc_lo,
}

-- The two writes to a queue address, in either order, set it to the value that they spell and
-- touch no other field.
pub write_queue_addr_halves :
    (q : QState) (lo hi : ℕ)
    → lo < u32_mod
    → q.desc < u64_mod
    → (write_queue_addr (write_queue_addr q 0x20 lo) 0x24 hi
        ≡ record q { desc = hi * u32_mod + lo })
      × (write_queue_addr (write_queue_addr q 0x24 hi) 0x20 lo
          ≡ record q { desc = hi * u32_mod + lo })
      × (write_queue_addr (write_queue_addr q 0x28 lo) 0x2c hi
          ≡ record q { avail = hi * u32_mod + lo })
      × (write_queue_addr (write_queue_addr q 0x2c hi) 0x28 lo
          ≡ record q { avail = hi * u32_mod + lo })
      × (write_queue_addr (write_queue_addr q 0x30 lo) 0x34 hi
          ≡ record q { used = hi * u32_mod + lo })
      × (write_queue_addr (write_queue_addr q 0x34 hi) 0x30 lo
          ≡ record q { used = hi * u32_mod + lo })
unfolding write_queue_addr
write_queue_addr_halves q lo hi hl hq =
    (ground arith, ground arith, ground arith, ground arith, ground arith, ground arith)

-- Selecting a word and writing it, as a driver does for each word in turn.
pub select_and_write : ComCfg → List ℕ → ℕ → ComCfg
select_and_write cfg [] sel = cfg
select_and_write cfg (w ∷ ws) sel =
    select_and_write (write_driver_feature (record cfg { dff = sel }) w) ws (suc sel)

-- Words above the first two change nothing.
select_and_write_above :
    (cfg : ComCfg) (ws : List ℕ) (sel : ℕ) → 1 < sel → (select_and_write cfg ws sel).df ≡ cfg.df
unfolding select_and_write write_driver_feature
select_and_write_above cfg [] sel h = refl
select_and_write_above cfg (w ∷ ws) sel h = ground (
  arith,
  select_and_write_above (write_driver_feature (record cfg { dff = sel }) w) ws (suc sel)
      (omega arith),
)

-- A driver that writes every word of the feature space from word 0 on, as many as it likes, leaves
-- the features that its first two words spell, and reads those two words back.
pub select_and_write_lem :
    (cfg : ComCfg) (lo hi : ℕ) (rest : List ℕ) (features queues vec : ℕ) (v : QueueView)
    → lo < u32_mod
    → hi < u32_mod
    → let after = select_and_write cfg (lo ∷ hi ∷ rest) 0 in
      (after.df ≡ hi * u32_mod + lo)
      × (com_read (record after { dff = 0 }) 0x0c features queues vec v ≡ lo)
      × (com_read (record after { dff = 1 }) 0x0c features queues vec v ≡ hi)
unfolding select_and_write write_driver_feature com_read
select_and_write_lem cfg lo hi rest features queues vec v hl hh =
    let high : ComCfg =
      write_driver_feature (record (write_driver_feature (record cfg { dff = 0 }) lo) { dff = 1 })
        hi in
    let e = select_and_write_above high rest 2 (omega arith) in
    (omega (arith, e), omega (arith, e), omega (arith, e))

-- A value that fits in `n` bytes is read back from the `n` bytes that it is written to.
pub from_le_bytes-write_val : (n v : ℕ) → v < 256 ^ n → from_le_bytes (write_val n v) ≡ v
unfolding from_le_bytes write_val
from_le_bytes-write_val zero v h = omega arith
from_le_bytes-write_val (suc n) v h =
    let bound : v < 256 ^ n * 256 = rw (← pow-suc) h in
    omega (arith, from_le_bytes-write_val n (v / 256) (omega (arith, bound)))

-- A write to a queue address touches nothing else of the queue.
unfoldable pub KeepsQueue : QState → QState → Type 0
KeepsQueue before after =
    (after.size ≡ before.size)
    × (after.enabled ≡ before.enabled)
    × (after.vec ≡ before.vec)
    × (after.indirect ≡ before.indirect)
    × (after.event_idx ≡ before.event_idx)

write_queue_addr_at-KeepsQueue :
    (f : Field) (q : QState) (v : ℕ) → KeepsQueue q (write_queue_addr_at f q v)
unfolding KeepsQueue write_queue_addr_at
write_queue_addr_at-KeepsQueue queue_desc_lo q v = (refl, refl, refl, refl, refl)
write_queue_addr_at-KeepsQueue _ q v = (refl, refl, refl, refl, refl)

pub write_queue_addr-KeepsQueue : (q : QState) (off v : ℕ) → KeepsQueue q (write_queue_addr q off v)
unfolding write_queue_addr
write_queue_addr-KeepsQueue q off v = write_queue_addr_at-KeepsQueue (field_of off) q v
