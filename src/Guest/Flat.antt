-- ===== src/Guest/Flat.antt =====
-- One region of guest memory from address 0, byte by byte: a memory that meets the interface.
use native.Mathlib.Nat.{pow-suc}
use nesbox.Base.{
  ℕ, zero, suc, ◌+◌, ◌*◌, ◌/◌, ◌%◌, ◌^◌, ◌≤◌, ◌<◌, ◌≡◌, refl, ◌⊎◌, inl, inr, Bool, true, ◌&&◌,
  if-holds, Option, none, some, arith, leb, ◌==◌, if◌then◌else◌,
}
use nesbox.Guest.{GuestMemory}

pub record FlatMemory : Type 0 where
  pub size : ℕ
  pub cell : ℕ → ℕ

update : (ℕ → ℕ) → ℕ → ℕ → ℕ → ℕ
update c a v b = if a == b then v else c b

-- The number that the `w` bytes from `a` on spell, least significant first.
load : ℕ → (ℕ → ℕ) → ℕ → ℕ
load zero c a = 0
load (suc w) c a = c a % 256 + 256 * load w c (a + 1)

store : ℕ → (ℕ → ℕ) → ℕ → ℕ → ℕ → ℕ
store zero c a v = c
store (suc w) c a v = store w (update c a (v % 256)) (a + 1) (v / 256)

load-lt : (w : ℕ) (c : ℕ → ℕ) (a : ℕ) → load w c a < 256 ^ w
unfolding load
load-lt zero c a = omega arith
load-lt (suc w) c a = rw (pow-suc) (omega (arith, load-lt w c (a + 1)))

store_apart : (w : ℕ) (c : ℕ → ℕ) (a v b : ℕ) → (a + w ≤ b) ⊎ (b < a) → store w c a v b ≡ c b
unfolding store update
store_apart zero c a v b h = refl
store_apart (suc w) c a v b (inl h) =
    ground (arith, store_apart w (update c a (v % 256)) (a + 1) (v / 256) b (inl (omega arith)))
store_apart (suc w) c a v b (inr h) =
    ground (arith, store_apart w (update c a (v % 256)) (a + 1) (v / 256) b (inr (omega arith)))

load-store_self : (w : ℕ) (c : ℕ → ℕ) (a v : ℕ) → v < 256 ^ w → load w (store w c a v) a ≡ v
unfolding load store update
load-store_self zero c a v h = omega arith
load-store_self (suc w) c a v h =
    let bound : v < 256 ^ w * 256 = rw (← pow-suc) h in
    ground (
      arith,
      store_apart w (update c a (v % 256)) (a + 1) (v / 256) a (inr (omega arith)),
      load-store_self w (update c a (v % 256)) (a + 1) (v / 256) (omega (arith, bound)),
    )

load-store_apart :
    (w k : ℕ) (c : ℕ → ℕ) (a b v : ℕ)
    → (a + w ≤ b) ⊎ (b + k ≤ a)
    → load k (store w c a v) b ≡ load k c b
unfolding load
load-store_apart w zero c a b v h = refl
load-store_apart w (suc k) c a b v (inl h) =
    omega
      (arith, store_apart w c a v b (inl h), load-store_apart w k c a (b + 1) v (inl (omega arith)))
load-store_apart w (suc k) c a b v (inr h) = omega (
  arith,
  store_apart w c a v b (inr (omega arith)),
  load-store_apart w k c a (b + 1) v (inr (omega arith)),
)

abbrev pub in_range : FlatMemory → ℕ → ℕ → Bool
in_range m a w = leb (a + w) m.size

unfoldable pub flat_read : ℕ → FlatMemory → ℕ → Option ℕ
unfolding load
flat_read w m a = if in_range m a w then some (load w m.cell a) else none

unfoldable pub flat_write : ℕ → FlatMemory → ℕ → ℕ → FlatMemory
unfolding store update
flat_write w m a v = if in_range m a w then record m { cell = store w m.cell a v } else m

pub flat_read-lt : (w : ℕ) (m : FlatMemory) (a : ℕ) {v : ℕ} → flat_read w m a ≡ some v → v < 256 ^ w
unfolding flat_read
flat_read-lt w m a h = ground (arith, load-lt w m.cell a)

pub flat_read-write_self :
    (w : ℕ) (m : FlatMemory) (a v : ℕ) {x : ℕ}
    → flat_read w m a ≡ some x
    → v < 256 ^ w
    → flat_read w (flat_write w m a v) a ≡ some v
unfolding flat_read flat_write
flat_read-write_self w m a v h b = ground (arith, load-store_self w m.cell a v b)

pub flat_read-write_apart :
    (w k : ℕ) (m : FlatMemory) (a b v : ℕ)
    → (a + w ≤ b) ⊎ (b + k ≤ a)
    → flat_read k (flat_write w m a v) b ≡ flat_read k m b
unfolding flat_read flat_write
flat_read-write_apart w k m a b v h = ground (arith, load-store_apart w k m.cell a b v h)

-- What lies within the memory is read.
pub flat_read_within :
    (w : ℕ) (m : FlatMemory) (a : ℕ) → a + w ≤ m.size → (x : ℕ) × (flat_read w m a ≡ some x)
unfolding flat_read
flat_read_within w m a h = (load w m.cell a, ground arith)

unfoldable pub flat_covers : FlatMemory → ℕ → ℕ → Bool
flat_covers m a n = leb (a + n) m.size && leb (a + n) (2 ^ 64)

pub flat_covers-le : (m : FlatMemory) (a n : ℕ) → flat_covers m a n ≡ true → a + n ≤ 2 ^ 64
unfolding flat_covers
flat_covers-le m a n h = ground (arith, h)

pub flat_covers-part :
    (m : FlatMemory) (a n at k : ℕ)
    → flat_covers m a n ≡ true
    → 0 < k
    → at + k ≤ n
    → flat_covers m (a + at) k ≡ true
unfolding flat_covers
flat_covers-part m a n at k h p b = ground (arith, h)

pub flat_covers-write :
    (w : ℕ) (m : FlatMemory) (a v b n : ℕ)
    → flat_covers (flat_write w m a v) b n ≡ flat_covers m b n
unfolding flat_covers flat_write
flat_covers-write w m a v b n =
    if-holds (λ r. flat_covers r b n ≡ flat_covers m b n) (in_range m a w) (λ e. refl) (λ e. refl)

abbrev pub flat_guest : GuestMemory
flat_guest = record {
  Mem = FlatMemory;
  read = flat_read;
  write = flat_write;
  covers = flat_covers;
  read-lt = flat_read-lt;
  read-write_self = flat_read-write_self;
  read-write_apart = flat_read-write_apart;
  covers-le = flat_covers-le;
  covers-part = flat_covers-part;
  covers-write = flat_covers-write;
}
