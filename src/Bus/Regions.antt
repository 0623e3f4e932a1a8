-- ===== src/Bus/Regions.antt =====
-- The regions that a list of devices calls for, and how moving a region follows replacing a BAR.
use mathlib.Core.List.{append_assoc}
use nesbox.Base.{
  ℕ, ◌≡◌, refl, sym, subst, ◌≢◌, inl, inr, true, false, some, List, [], ◌∷◌, ◌++◌, map, arith, ◌==◌,
  All, Bool-cases,
}
use nesbox.Bus.{Bar, Bdf, same_bdf, Entry, Region, Bus}
use nesbox.Bus.Alloc.{region_of}
use nesbox.Bus.Config.{find_low, lookup, put_bar, put_bars, move_regions}

-- The regions that the devices' BARs call for.
abbrev pub all_regions : List Entry → List Region
all_regions [] = []
all_regions (e ∷ es) = map (region_of e.bdf) e.bars ++ all_regions es

abbrev pub IsSynced : Bus → Type 0
IsSynced b = b.mmio_regions ≡ all_regions b.devices

pub same_bdf-eq : (a b : Bdf) → same_bdf a b ≡ true → a ≡ b
same_bdf-eq a b h = ground arith

pub same_bdf_self : (a : Bdf) → same_bdf a a ≡ true
same_bdf_self a = ground arith

pub all_regions-append :
    (xs ys : List Entry) → all_regions (xs ++ ys) ≡ all_regions xs ++ all_regions ys
all_regions-append [] ys = refl
all_regions-append (e ∷ es) ys =
    rw (all_regions-append es ys)
      (sym (append_assoc (map (region_of e.bdf) e.bars) (all_regions es) (all_regions ys)))

move_regions-append :
    (xs ys : List Region) (bdf : Bdf) (idx to : ℕ)
    → move_regions (xs ++ ys) bdf idx to ≡ move_regions xs bdf idx to ++ move_regions ys bdf idx to
unfolding move_regions
move_regions-append [] ys bdf idx to = refl
move_regions-append (x ∷ xs) ys bdf idx to = rw (move_regions-append xs ys bdf idx to)

-- BDFs and BAR indices each name one thing.
abbrev pub FreshBdf : Bdf → List Entry → Type 0
FreshBdf a es = All (λ e. same_bdf e.bdf a ≡ false) es

abbrev pub FreshIdx : ℕ → List Bar → Type 0
FreshIdx idx bs = All (λ b. b.bar_idx ≢ idx) bs

abbrev pub DistinctIdx : List Bar → Type 0
DistinctIdx [] = Unit {0}
DistinctIdx (b ∷ bs) = FreshIdx b.bar_idx bs × DistinctIdx bs

abbrev pub DistinctBdf : List Entry → Type 0
DistinctBdf [] = Unit {0}
DistinctBdf (e ∷ es) = FreshBdf e.bdf es × DistinctIdx e.bars × DistinctBdf es

move_regions-other :
    (a bdf : Bdf) (bs : List Bar) (idx to : ℕ)
    → same_bdf a bdf ≡ false
    → move_regions (map (region_of a) bs) bdf idx to ≡ map (region_of a) bs
unfolding move_regions
move_regions-other a bdf [] idx to h = refl
move_regions-other a bdf (b ∷ bs) idx to h = rw (h, move_regions-other a bdf bs idx to h)

move_regions-fresh :
    (bdf : Bdf) (bs : List Bar) (idx to : ℕ)
    → FreshIdx idx bs
    → move_regions (map (region_of bdf) bs) bdf idx to ≡ map (region_of bdf) bs
unfolding move_regions
move_regions-fresh bdf [] idx to h = refl
move_regions-fresh bdf (b ∷ bs) idx to h = ground (arith, h.0, move_regions-fresh bdf bs idx to h.1)

-- Within one device: moving the region of a BAR is replacing the BAR.
move_regions-put_bar :
    (bdf : Bdf) (bs : List Bar) (old new : Bar)
    → DistinctIdx bs
    → find_low bs new.bar_idx ≡ some old
    → new.size ≡ old.size
    → move_regions (map (region_of bdf) bs) bdf new.bar_idx new.addr
      ≡ map (region_of bdf) (put_bar bs new)
unfolding move_regions put_bar find_low
move_regions-put_bar bdf [] old new d f s = cc
move_regions-put_bar bdf (b ∷ bs) old new d f s = elim (Bool-cases (b.bar_idx == new.bar_idx)) [
  | inl here ↦
      let same = same_bdf_self bdf in
      let i : b.bar_idx ≡ new.bar_idx = ground arith in
      let o : b ≡ old = ground (arith, here) in
      let fresh =
        move_regions-fresh bdf bs new.bar_idx new.addr (subst (λ n. FreshIdx n bs) i d.0) in
      ground (arith, here, same, fresh, s, o)
  | inr there ↦
      let ih = move_regions-put_bar bdf bs old new d.1 (ground (arith, there)) s in
      ground (arith, there, ih)
]

move_regions-FreshBdf :
    (es : List Entry) (bdf : Bdf) (idx to : ℕ)
    → FreshBdf bdf es
    → move_regions (all_regions es) bdf idx to ≡ all_regions es
unfolding move_regions
move_regions-FreshBdf [] bdf idx to h = refl
move_regions-FreshBdf (e ∷ es) bdf idx to h = rw (
  move_regions-append (map (region_of e.bdf) e.bars) (all_regions es) bdf idx to,
  move_regions-other e.bdf bdf e.bars idx to h.0,
  move_regions-FreshBdf es bdf idx to h.1,
)

-- The same over all devices.
pub move_regions-put_bars :
    (es : List Entry) (e : Entry) (bdf : Bdf) (old new : Bar)
    → DistinctBdf es
    → lookup es bdf ≡ some e
    → find_low e.bars new.bar_idx ≡ some old
    → new.size ≡ old.size
    → move_regions (all_regions es) bdf new.bar_idx new.addr ≡ all_regions (put_bars es bdf new)
unfolding lookup put_bars
move_regions-put_bars [] e bdf old new d l f s = cc
move_regions-put_bars (x ∷ es) e bdf old new d l f s = elim (Bool-cases (same_bdf x.bdf bdf)) [
  | inl here ↦
      let a = same_bdf-eq x.bdf bdf here in
      let f' = subst (λ o. find_low o.bars new.bar_idx ≡ some old) (sym (entry here)) f in
      let own =
        subst
          (λ o.
            move_regions (map (region_of x.bdf) x.bars) o new.bar_idx new.addr
            ≡ map (region_of x.bdf) (put_bar x.bars new))
          a (move_regions-put_bar x.bdf x.bars old new d.1 f' s) in
      let rest =
        move_regions-FreshBdf es bdf new.bar_idx new.addr (subst (λ o. FreshBdf o es) a d.0) in
      rw (
        move_regions-append (map (region_of x.bdf) x.bars) (all_regions es) bdf new.bar_idx
            new.addr,
        here,
        own,
        rest,
      )
  | inr there ↦
      let own = move_regions-other x.bdf bdf x.bars new.bar_idx new.addr there in
      let rest = move_regions-put_bars es e bdf old new d.2 (ground (arith, there)) f s in
      rw (
        move_regions-append (map (region_of x.bdf) x.bars) (all_regions es) bdf new.bar_idx
            new.addr,
        there,
        own,
        rest,
      )
]
  where
    entry : same_bdf x.bdf bdf ≡ true → x ≡ e
    entry here = ground (arith, here)
