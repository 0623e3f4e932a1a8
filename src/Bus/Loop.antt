-- ===== src/Bus/Loop.antt =====
-- The loop of `add_device` over the BARs of a new device, and the invariant that it keeps.
use mathlib.Core.List.{map-append}
use native.Mathlib.Nat.{le_trans}
use nesbox.Base.{
  ℕ, zero, suc, ◌+◌, ◌%◌, ◌^◌, ◌≤◌, ◌<◌, ◌≡◌, refl, sym, subst, inl, inr, List, [], ◌∷◌, ◌++◌, map,
  arith, leb, ◌==◌, if◌then◌else◌, All, All-map, All-append, Bool-cases,
}
use nesbox.Bus.{
  BarType, mem32, mem64, is_64bit, Bar, Bdf, Device, Region, Mmio64Window, mmio_window_start,
}
use nesbox.Bus.Alloc.{
  ok, >>=-eq-ok, Cursor, next_of, window_end, push_bar, fresh_bar, place_bar, place_bars, region_of,
}
use nesbox.Bus.Windows.{GoodWindows, Within, InWindows, Apart, AllApart, AllApart-snoc, Below}
use nesbox.Bus.Placement.{place_bar-Placed}

pub Below-mono :
    (w : Mmio64Window) (ty : BarType) (m n : ℕ) (rs : List Region)
    → m ≤ n
    → All (Below w ty m) rs
    → All (Below w ty n) rs
Below-mono w ty m n rs h = All-map (Below w ty m) (Below w ty n) (λ r b i. le_trans (b i) h) rs

-- A region at or above the mark of its window meets none that lies below it or in the other window.
Apart-of_Below :
    (w : Mmio64Window) (ty : BarType) (mark : ℕ) (n r : Region)
    → GoodWindows w
    → Within w ty n
    → mark ≤ n.base
    → InWindows w r
    → Below w ty mark r
    → Apart n r
Apart-of_Below w mem32 mark n r gw hn hm (inl i) b = let e = b i in inr (omega arith)
Apart-of_Below w mem32 mark n r gw hn hm (inr i) b = inl (omega arith)
Apart-of_Below w mem64 mark n r gw hn hm (inl i) b = inr (omega arith)
Apart-of_Below w mem64 mark n r gw hn hm (inr i) b = let e = b i in inr (omega arith)

module _ (w : Mmio64Window) (gw : GoodWindows w) (ty : BarType) (mark : ℕ) (n : Region)
    (hn : Within w ty n) (hm : mark ≤ n.base) where
  All-Apart-of_Below :
      (rs : List Region) → All (InWindows w) rs → All (Below w ty mark) rs → All (Apart n) rs
  All-Apart-of_Below [] i b = tt
  All-Apart-of_Below (r ∷ rs) i b =
      (Apart-of_Below w ty mark n r gw hn hm i.0 b.0, All-Apart-of_Below rs i.1 b.1)

abbrev pub IsAligned : Region → Type 0
IsAligned r = r.base % r.size ≡ 0

abbrev pub regions : Bdf → Cursor → List Region
regions bdf c = map (region_of bdf) c.bars

-- A BAR is of the type and the size that its device declares, in the window of that type.
abbrev pub IsDeclared : Mmio64Window → Bdf → Device → Bar → Type 0
IsDeclared w bdf d b =
    (b.bar_type ≡ d.bar_type b.bar_idx)
    × (b.size ≡ d.bar_size b.bar_idx)
    × Within w (d.bar_type b.bar_idx) (region_of bdf b)

-- The invariant: both cursors are past every region of their window, old and new.
pub record Inv (w : Mmio64Window) (bdf : Bdf) (old : List Region) (d : Device) (c : Cursor)
    : Type 0 where
  pub low32 : c.next32 ≤ 2 ^ 62
  pub low64 : c.next64 ≤ 2 ^ 62
  pub start32 : mmio_window_start ≤ c.next32
  pub start64 : w.start ≤ c.next64
  pub old32 : All (Below w mem32 c.next32) old
  pub old64 : All (Below w mem64 c.next64) old
  pub new32 : All (Below w mem32 c.next32) (regions bdf c)
  pub new64 : All (Below w mem64 c.next64) (regions bdf c)
  pub within : All (InWindows w) (regions bdf c)
  pub aligned : All IsAligned (regions bdf c)
  pub apart : AllApart (regions bdf c)
  pub off : All (λ r. All (Apart r) old) (regions bdf c)
  pub declared : All (IsDeclared w bdf d) c.bars

module _ (w : Mmio64Window) (gw : GoodWindows w) (bdf : Bdf) (old : List Region)
    (ho : All (InWindows w) old) where
  push_regions :
      (c : Cursor) (b : Bar) → regions bdf (push_bar c b) ≡ regions bdf c ++ region_of bdf b ∷ []
  push_regions c b =
      let e : (push_bar c b).bars ≡ c.bars ++ b ∷ [] = ground arith in
      rw e (map-append (region_of bdf) c.bars (b ∷ []))

  snoc :
      (P : Region → Type 0) (c : Cursor) (b : Bar)
      → All P (regions bdf c)
      → P (region_of bdf b)
      → All P (regions bdf (push_bar c b))
  snoc P c b h n =
      rw (push_regions c b) (All-append P (regions bdf c) (region_of bdf b ∷ []) h (n, tt))

  push_bar-Inv :
      (d : Device) (ty : BarType) (idx size addr : ℕ) (c : Cursor)
      → d.bar_type idx ≡ ty
      → d.bar_size idx ≡ size
      → Inv w bdf old d c
      → 0 < size
      → next_of ty c ≤ addr
      → addr + size ≤ window_end w ty
      → addr % size ≡ 0
      → Inv w bdf old d (push_bar c (fresh_bar ty idx size addr))
  push_bar-Inv d mem32 idx size addr c typed sized v h0 hl hw ha =
      let b = fresh_bar mem32 idx size addr in
      let n = region_of bdf b in
      let inside : Within w mem32 n = omega arith in
      record {
        low32 = omega arith;
        low64 = v.low64;
        start32 = omega arith;
        start64 = v.start64;
        old32 = Below-mono w mem32 c.next32 (addr + size) old (omega arith) v.old32;
        old64 = v.old64;
        new32 =
            snoc (Below w mem32 (addr + size)) c b
              (Below-mono w mem32 c.next32 (addr + size) (regions bdf c) (omega arith) v.new32)
              (λ i. omega arith);
        new64 = snoc (Below w mem64 c.next64) c b v.new64 (λ i. absurd (omega arith));
        within = snoc (InWindows w) c b v.within (inl inside);
        aligned = snoc IsAligned c b v.aligned ha;
        apart = rw (push_regions c b) (
            AllApart-snoc (regions bdf c) n v.apart (
              All-Apart-of_Below w gw mem32 c.next32 n inside hl (regions bdf c) v.within v.new32));
        off =
            snoc (λ r. All (Apart r) old) c b v.off
              (All-Apart-of_Below w gw mem32 c.next32 n inside hl old ho v.old32);
        declared =
            All-append (IsDeclared w bdf d) c.bars (b ∷ []) v.declared
              ((sym typed, sym sized, subst (λ t. Within w t n) (sym typed) inside), tt);
      }
  push_bar-Inv d mem64 idx size addr c typed sized v h0 hl hw ha =
      let b = fresh_bar mem64 idx size addr in
      let n = region_of bdf b in
      let inside : Within w mem64 n = omega arith in
      record {
        low32 = v.low32;
        low64 = omega arith;
        start32 = v.start32;
        start64 = omega arith;
        old32 = v.old32;
        old64 = Below-mono w mem64 c.next64 (addr + size) old (omega arith) v.old64;
        new32 = snoc (Below w mem32 c.next32) c b v.new32 (λ i. absurd (omega arith));
        new64 =
            snoc (Below w mem64 (addr + size)) c b
              (Below-mono w mem64 c.next64 (addr + size) (regions bdf c) (omega arith) v.new64)
              (λ i. omega arith);
        within = snoc (InWindows w) c b v.within (inr inside);
        aligned = snoc IsAligned c b v.aligned ha;
        apart = rw (push_regions c b) (
            AllApart-snoc (regions bdf c) n v.apart (
              All-Apart-of_Below w gw mem64 c.next64 n inside hl (regions bdf c) v.within v.new64));
        off =
            snoc (λ r. All (Apart r) old) c b v.off
              (All-Apart-of_Below w gw mem64 c.next64 n inside hl old ho v.old64);
        declared =
            All-append (IsDeclared w bdf d) c.bars (b ∷ []) v.declared
              ((sym typed, sym sized, subst (λ t. Within w t n) (sym typed) inside), tt);
      }

  module _ (d : Device) (hs : (i : ℕ) → d.bar_size i ≤ 2 ^ 62) where
    place_bar-Inv :
        (idx : ℕ) (c c' : Cursor)
        → Inv w bdf old d c
        → 0 < d.bar_size idx
        → place_bar w (d.bar_type idx) idx (d.bar_size idx) c ≡ ok c'
        → Inv w bdf old d c'
    place_bar-Inv idx c c' v h0 e =
        let p =
          place_bar-Placed w (d.bar_type idx) idx (d.bar_size idx) c c' h0 (hs idx)
            (low (d.bar_type idx)) e in
        subst (Inv w bdf old d) (sym p.1)
          (push_bar-Inv d (d.bar_type idx) idx (d.bar_size idx) p.0 c refl refl v h0 p.2 p.3 p.4)
      where
        low : (ty : BarType) → next_of ty c ≤ 2 ^ 62
        low mem32 = v.low32
        low mem64 = v.low64

    pub place_bars-Inv :
        (fuel idx : ℕ) (c c' : Cursor)
        → Inv w bdf old d c
        → place_bars w d fuel idx c ≡ ok c'
        → Inv w bdf old d c'
    unfolding place_bars
    place_bars-Inv zero idx c c' v e = subst (Inv w bdf old d) (ground arith) v
    place_bars-Inv (suc fuel) idx c c' v e = elim (Bool-cases (leb 6 idx)) [
      | inl done ↦ subst (Inv w bdf old d) (ground (arith, done)) v
      | inr more ↦ elim (Bool-cases (d.bar_size idx == 0)) [
        | inl unused ↦ place_bars-Inv fuel (idx + 1) c c' v (ground arith)
        | inr used ↦
            let width : ℕ = if is_64bit (d.bar_type idx) then 2 else 1 in
            let r =
              >>=-eq-ok (place_bar w (d.bar_type idx) idx (d.bar_size idx) c)
                (λ a. place_bars w d fuel (idx + width) a) {b = c'} (ground (arith, more, used)) in
            place_bars-Inv fuel (idx + width) r.0 c' (place_bar-Inv idx c r.0 v (ground arith) r.1)
              r.2
      ]
    ]
