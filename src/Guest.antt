-- ===== src/Guest.antt =====
-- Guest memory as the devices see it: the part of the vm-memory crate (`GuestMemoryMmap`) that
-- virtio-devices/src calls, as an interface. Integers are little-endian, as every caller reads and
-- writes them; `w` is a width in bytes. The child module is one memory that meets the interface.
pub mod Flat
pub mod Spans
use nesbox.Base.{ℕ, ◌+◌, ◌^◌, ◌≤◌, ◌<◌, ◌≡◌, ◌⊎◌, Bool, true, Option, some}

pub record GuestMemory : Type 1 where
  pub Mem : Type 0
  -- `mem.read_obj(GuestAddress(a))`, `none` for an address outside guest memory
  pub read : ℕ → Mem → ℕ → Option ℕ
  -- the memory after `mem.write_obj(v, GuestAddress(a))`; the callers drop the result
  pub write : ℕ → Mem → ℕ → ℕ → Mem
  -- `mem.get_slice(GuestAddress(a), len).is_ok()`
  pub covers : Mem → ℕ → ℕ → Bool
  -- An object of `w` bytes is a number below `256 ^ w`.
  pub read-lt : (w : ℕ) (m : Mem) (a : ℕ) {v : ℕ} → read w m a ≡ some v → v < 256 ^ w
  -- What is written where it can be read is read back.
  pub read-write_self :
      (w : ℕ) (m : Mem) (a v : ℕ) {x : ℕ}
      → read w m a ≡ some x
      → v < 256 ^ w
      → read w (write w m a v) a ≡ some v
  -- A write leaves the bytes beside it alone.
  pub read-write_apart :
      (w k : ℕ) (m : Mem) (a b v : ℕ)
      → (a + w ≤ b) ⊎ (b + k ≤ a)
      → read k (write w m a v) b ≡ read k m b
  -- What guest memory covers ends within the address space, covers all its parts, and is not
  -- changed by a write.
  pub covers-le : (m : Mem) (a n : ℕ) → covers m a n ≡ true → a + n ≤ 2 ^ 64
  pub covers-part :
      (m : Mem) (a n at k : ℕ)
      → covers m a n ≡ true
      → 0 < k
      → at + k ≤ n
      → covers m (a + at) k ≡ true
  pub covers-write : (w : ℕ) (m : Mem) (a v b n : ℕ) → covers (write w m a v) b n ≡ covers m b n
