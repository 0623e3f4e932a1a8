-- ===== src/Blk/Disk/Windows.antt =====
-- What direct I/O needs of a disk that was opened and of a bounce buffer.
use native.Mathlib.Nat.{div-add-mod, mul-mod_right, mod-lt}
use mathlib.Core.Option.{some_inj}
use nesbox.Base.{
  ℕ, ◌+◌, ◌-◌, ◌*◌, ◌/◌, ◌%◌, ◌≤◌, ◌<◌, ◌≡◌, ◌≢◌, ◌∙◌, refl, sym, ap, subst, arith, Bool, true,
  false, Option, none, some, ltb, ◌==◌, if◌then◌else◌, >>=-eq-some, if-cases, inl, inr,
}
use nesbox.Blk.Disk.{
  CacheMode, auto, direct, writeback, DioAlign, Disk, sector_size, max_block_size, choose,
  block_size_of, disk_of, open_chosen, open_disk, next_multiple_of, bounce_shape, len_bytes,
}

dvd-mod : (x a q : ℕ) → x ≡ a * q → x % a ≡ 0
dvd-mod x a q h = ap (λ n. n % a) h ∙ mul-mod_right a q

-- The next multiple is the least one that is not below.
next_multiple_of-bounds :
    (x a : ℕ)
    → 0 < a
    → (x ≤ next_multiple_of x a) × (next_multiple_of x a < x + a) × (next_multiple_of x a % a ≡ 0)
unfolding next_multiple_of
next_multiple_of-bounds x a h =
    let m = mod-lt x h in
    let d = div-add-mod x a in
    let up : (x + (a - x % a)) % a ≡ 0 =
      dvd-mod (x + (a - x % a)) a (x / a + 1) (omega (arith, m, d)) in
    (ground (arith, m), ground (arith, m), ground (arith, up))

-- What the bounce buffer of a transfer is for: a window of whole blocks around it, no wider than
-- that takes, whose address can be a multiple of both alignments.
pub record IsWindow (a : DioAlign) (offset len : ℕ) (shape : ℕ × ℕ × ℕ) : Type 0 where
  pub before : shape.1 ≤ offset
  pub starts_aligned : (offset - shape.1) % a.offset ≡ 0
  pub length_aligned : shape.2 % a.offset ≡ 0
  pub holds_data : shape.1 + len ≤ shape.2
  pub least : shape.2 < shape.1 + len + a.offset
  pub head_short : shape.1 < a.offset
  pub aligned_both : (a.mem ≤ shape.0) × (a.offset ≤ shape.0)

-- On a disk opened for direct I/O with a positive alignment, the bounce buffer of a transfer is a
-- window of whole blocks: it starts at an aligned file offset less than one block before the
-- transfer, holds the whole transfer, and ends less than one block after it.
pub bounce_shape-IsWindow :
    (d : Disk) {a : DioAlign} (offset len : ℕ)
    → d.dio ≡ some a
    → 0 < a.offset
    → IsWindow a offset len (bounce_shape d offset len)
unfolding bounce_shape
bounce_shape-IsWindow d {a} offset len h pos = rw h (
    let m = mod-lt offset pos in
    let e = div-add-mod offset a.offset in
    let n = next_multiple_of-bounds (len + offset % a.offset) a.offset pos in
    record {
      before = omega (arith, e);
      starts_aligned =
          dvd-mod (offset - offset % a.offset) a.offset (offset / a.offset) (omega (arith, e));
      length_aligned = n.2;
      holds_data = omega (arith, n.0);
      least = omega (arith, n.1);
      head_short = m;
      aligned_both = (omega arith, omega arith);
    })

-- A disk that the device can serve, as `open` promises it.
pub record IsUsable (mode : CacheMode) (bytes : ℕ) (d : Disk) : Type 0 where
  pub holds_sector : 0 < d.sectors
  pub fits_file : len_bytes d ≤ bytes
  pub whole_sectors : bytes < len_bytes d + sector_size
  pub block_from : sector_size ≤ d.block_size
  pub block_to : d.block_size ≤ max_block_size
  pub block_covers : (a : DioAlign) → d.dio ≡ some a → a.offset ≤ d.block_size
  pub direct_kept : mode ≡ direct → d.dio ≢ none
  pub buffered_kept : mode ≡ writeback → d.dio ≡ none

record Suits (mode : CacheMode) (a : Option DioAlign) : Type 0 where
  small : (x : DioAlign) → a ≡ some x → x.offset ≤ max_block_size
  is_direct : mode ≡ direct → a ≢ none
  is_buffered : mode ≡ writeback → a ≡ none

Suits-none : (mode : CacheMode) → mode ≢ direct → Suits mode none
Suits-none mode h = record {
  small = λ x e. cc;
  is_direct = λ e. absurd (h e);
  is_buffered = λ e. refl;
}

Suits-some :
    (mode : CacheMode) (a : DioAlign)
    → mode ≢ writeback
    → a.offset ≤ max_block_size
    → Suits mode (some a)
Suits-some mode a h le = record {
  small = λ x e. ground (arith, e);
  is_direct = λ e f. cc;
  is_buffered = λ e. absurd (h e);
}

Suits-auto :
    (x : DioAlign) {b : Bool}
    → ltb max_block_size x.offset ≡ b
    → Suits auto (if b then none else some x)
Suits-auto x {b = true} h = Suits-none auto (λ e. cc)
Suits-auto x {b = false} h = Suits-some auto x (λ e. cc) (ground arith)

choose-Suits :
    (mode : CacheMode) (probe : Option DioAlign) {a : Option DioAlign}
    → choose mode probe ≡ some a
    → Suits mode a
unfolding choose
choose-Suits writeback probe h =
    subst (Suits writeback) (some_inj.0 h) (Suits-none writeback (λ e. cc))
choose-Suits auto none h = subst (Suits auto) (some_inj.0 h) (Suits-none auto (λ e. cc))
choose-Suits auto (some x) h = subst (Suits auto) (some_inj.0 h) (Suits-auto x refl)
choose-Suits direct none h = cc
choose-Suits direct (some x) h = elim (if-cases (ltb max_block_size x.offset) h) [
  | inl t ↦ cc
  | inr t ↦
      subst (Suits direct) (some_inj.0 t.1) (Suits-some direct x (λ f. cc) (ground (arith, t.0)))
]

abbrev offset_of : DioAlign → ℕ
offset_of x = x.offset

block_size-bounds :
    (a : Option DioAlign)
    → (sector_size ≤ block_size_of a)
      × (block_size_of a ≤ max_block_size)
      × ((x : DioAlign) → a ≡ some x → x.offset ≤ max_block_size → x.offset ≤ block_size_of a)
unfolding block_size_of
block_size-bounds none = (omega arith, omega arith, λ x e. cc)
block_size-bounds (some y) = (
  omega arith,
  omega arith,
  λ x e le.
      let same : x.offset ≡ y.offset = ap offset_of (sym (some_inj.0 e)) in ground (arith, same),
)

abbrev opened : Bool → ℕ → Option DioAlign → Disk
opened ro bytes a = record {
  read_only = ro;
  sectors = bytes / sector_size;
  block_size = block_size_of a;
  dio = a;
}

disk_of-IsUsable :
    (mode : CacheMode) (ro : Bool) (bytes : ℕ) {a : Option DioAlign} {d : Disk}
    → Suits mode a
    → disk_of ro (some bytes) a ≡ some d
    → IsUsable mode bytes d × (d.read_only ≡ ro)
unfolding disk_of len_bytes
disk_of-IsUsable mode ro bytes {a} {d} s h = elim (if-cases (bytes / sector_size == 0) h) [
  | inl t ↦ cc
  | inr t ↦
      let b = block_size-bounds a in
      subst (λ d. IsUsable mode bytes d × (d.read_only ≡ ro)) (some_inj.0 t.1)
        (
          record {
            holds_sector = ground (arith, t.0);
            fits_file = omega arith;
            whole_sectors = omega arith;
            block_from = b.0;
            block_to = b.1;
            block_covers = λ x f. b.2 x f (s.small x f);
            direct_kept = s.is_direct;
            buffered_kept = s.is_buffered;
          },
          refl,
        )
]

open_chosen-IsUsable :
    (mode : CacheMode) (opens : Bool → Bool) (ro : Bool) (bytes : ℕ) (a : Option DioAlign)
    → Suits mode a
    → {d : Disk} → open_chosen mode opens ro (some bytes) a ≡ some d
    → IsUsable mode bytes d × (d.read_only ≡ ro)
unfolding open_chosen
open_chosen-IsUsable mode opens ro bytes none s h = elim (if-cases (opens false) h) [
  | inl t ↦ disk_of-IsUsable mode ro bytes s t.1
  | inr t ↦ cc
]
open_chosen-IsUsable auto opens ro bytes (some a) s h = elim (if-cases (opens true) h) [
  | inl t ↦ disk_of-IsUsable auto ro bytes s t.1
  | inr t ↦ elim (if-cases (opens false) t.1) [
    | inl u ↦ disk_of-IsUsable auto ro bytes (Suits-none auto (λ e. cc)) u.1
    | inr u ↦ cc
  ]
]
open_chosen-IsUsable direct opens ro bytes (some a) s h = elim (if-cases (opens true) h) [
  | inl t ↦ disk_of-IsUsable direct ro bytes s t.1
  | inr t ↦ cc
]
open_chosen-IsUsable writeback opens ro bytes (some a) s h = elim (if-cases (opens true) h) [
  | inl t ↦ disk_of-IsUsable writeback ro bytes s t.1
  | inr t ↦ cc
]

-- An opened disk holds at least one sector and exactly the whole sectors of its file, and its block
-- size is between a sector and 4096 bytes, and no less than what direct I/O needs. A disk asked for
-- as direct is direct, and one asked for as buffered is buffered.
pub open_disk-IsUsable :
    (mode : CacheMode) (probe : Option DioAlign) (opens : Bool → Bool) (ro : Bool) (bytes : ℕ)
    {d : Disk}
    → open_disk mode probe opens ro (some bytes) ≡ some d
    → IsUsable mode bytes d × (d.read_only ≡ ro)
unfolding open_disk
open_disk-IsUsable mode probe opens ro bytes h =
    let (a, e, f) = >>=-eq-some (choose mode probe) _ h in
    open_chosen-IsUsable mode opens ro bytes a (choose-Suits mode probe e) f
