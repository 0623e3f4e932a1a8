-- ===== src/Bus/Windows.antt =====
-- Regions, the two windows that BARs are placed in, and what it takes for regions not to collide.
use native.Mathlib.Nat.{le_trans}
use nesbox.Base.{ℕ, ◌+◌, ◌^◌, ◌≤◌, ◌<◌, ◌⊎◌, List, [], ◌∷◌, ◌++◌, arith, All, All-map}
use nesbox.Bus.{Region, Mmio64Window, BarType, mem32, mem64, mmio_window_end}
use nesbox.Bus.Alloc.{top_of, window_start, window_end}

-- The 64-bit window lies above the 32-bit one and within 62 bits of address.
pub record GoodWindows (w : Mmio64Window) : Type 0 where
  pub above : mmio_window_end ≤ w.start
  pub ordered : w.start < w.end
  pub addressable : w.end ≤ 2 ^ 62

-- The region lies in the window of this kind of BAR, with some of it.
abbrev pub Within : Mmio64Window → BarType → Region → Type 0
Within w ty r = (window_start w ty ≤ r.base) × (r.base + r.size ≤ window_end w ty) × (0 < r.size)

abbrev pub InWindows : Mmio64Window → Region → Type 0
InWindows w r = Within w mem32 r ⊎ Within w mem64 r

-- Two regions have no address in common.
abbrev pub Apart : Region → Region → Type 0
Apart r s = (r.base + r.size ≤ s.base) ⊎ (s.base + s.size ≤ r.base)

abbrev pub AllApart : List Region → Type 0
AllApart [] = Unit {0}
AllApart (r ∷ rs) = All (Apart r) rs × AllApart rs

pub AllApart-snoc :
    (rs : List Region) (n : Region) → AllApart rs → All (Apart n) rs → AllApart (rs ++ n ∷ [])
AllApart-snoc [] n a h = (tt, tt)
AllApart-snoc (r ∷ rs) n a h = (All-snoc rs a.0, AllApart-snoc rs n a.1 h.1)
  where
    All-snoc : (xs : List Region) → All (Apart r) xs → All (Apart r) (xs ++ n ∷ [])
    All-snoc [] b = (ground arith, tt)
    All-snoc (x ∷ xs) b = (b.0, All-snoc xs b.1)

-- The end of the window that the high-water mark is of, or of the highest region in it.
abbrev pub top : Mmio64Window → BarType → List Region → ℕ
top w ty rs = top_of (window_start w ty) (window_end w ty) rs

pub start-le-top :
    (w : Mmio64Window) (ty : BarType) (rs : List Region) → window_start w ty ≤ top w ty rs
unfolding top_of
start-le-top w ty [] = omega arith
start-le-top w ty (r ∷ rs) = ground (arith, start-le-top w ty rs)

pub top-le-end :
    (w : Mmio64Window) (ty : BarType) (rs : List Region)
    → GoodWindows w
    → All (InWindows w) rs
    → top w ty rs ≤ window_end w ty
unfolding top_of
top-le-end w mem32 [] gw h = omega arith
top-le-end w mem64 [] gw h = omega arith
top-le-end w mem32 (r ∷ rs) gw h = ground (arith, top-le-end w mem32 rs gw h.1, h.0)
top-le-end w mem64 (r ∷ rs) gw h = ground (arith, top-le-end w mem64 rs gw h.1, h.0)

-- A region that lies below the mark of its window.
abbrev pub Below : Mmio64Window → BarType → ℕ → Region → Type 0
Below w ty mark r = Within w ty r → r.base + r.size ≤ mark

pub top-Below :
    (w : Mmio64Window) (ty : BarType) (rs : List Region) → All (Below w ty (top w ty rs)) rs
unfolding top_of
top-Below w ty [] = tt
top-Below w ty (r ∷ rs) = (
  λ h. ground arith,
  All-map (Below w ty (top w ty rs)) (Below w ty (top w ty (r ∷ rs)))
      (λ x b h. le_trans (b h) (grows w ty r rs)) rs (top-Below w ty rs),
)
  where
    grows :
        (w : Mmio64Window) (ty : BarType) (r : Region) (rs : List Region)
        → top w ty rs ≤ top w ty (r ∷ rs)
    grows w ty r rs = ground arith
