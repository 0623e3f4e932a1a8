-- ===== src/Bus/Added.antt =====
-- What `add_device` establishes for the regions of a new device.
use nesbox.Base.{
  ℕ, ◌^◌, ◌≤◌, ◌≡◌, sym, subst, inl, inr, ◌||◌, List, map, arith, ltb, All, All-append, Bool-cases,
}
use nesbox.Bus.{mem32, mem64, Bar, Bdf, Device, Region, Bus, Mmio64Window}
use nesbox.Bus.Alloc.{
  ok, >>=-eq-ok, Cursor, place_bars, start_cursor, region_of, with_device, add_device,
}
use nesbox.Bus.Windows.{GoodWindows, InWindows, Apart, AllApart, top, top-le-end, top-Below}
use nesbox.Bus.Loop.{IsAligned, IsDeclared, Inv, place_bars-Inv, Below-mono}

pub add_device-inversion :
    (b b' : Bus) (d : Device) (bdf : Bdf)
    → add_device b d ≡ ok (b', bdf)
    → (c : Cursor) × (place_bars b.mmio64 d 6 0 (start_cursor b) ≡ ok c)
      × (b' ≡ with_device b d c.bars)
      × (bdf ≡ b.next_bdf)
unfolding add_device
add_device-inversion b b' d bdf e =
    elim (Bool-cases (ltb 0 b.next_bdf.bus || ltb 31 b.next_bdf.dev)) [
      | inl full ↦ ground (arith, full)
      | inr room ↦
          let r =
            >>=-eq-ok {Value = Bus × Bdf} (place_bars b.mmio64 d 6 0 (start_cursor b))
              (λ c. ok (with_device b d c.bars, b.next_bdf)) {b = (b', bdf)}
              (ground (arith, room)) in
          (r.0, r.1, ground (arith, r.2), ground (arith, r.2))
    ]

start_cursor-Inv :
    (b : Bus) (bdf : Bdf) (d : Device)
    → GoodWindows b.mmio64
    → All (InWindows b.mmio64) b.mmio_regions
    → Inv b.mmio64 bdf b.mmio_regions d (start_cursor b)
unfolding start_cursor
start_cursor-Inv b bdf d gw h =
    let w : Mmio64Window = b.mmio64 in
    let rs : List Region = b.mmio_regions in
    let t32 = top-le-end w mem32 rs gw h in
    let t64 = top-le-end w mem64 rs gw h in
    record {
      low32 = omega (arith, t32);
      low64 = omega (arith, t64);
      start32 = omega arith;
      start64 = omega arith;
      old32 = Below-mono w mem32 (top w mem32 rs) _ rs (omega arith) (top-Below w mem32 rs);
      old64 = Below-mono w mem64 (top w mem64 rs) _ rs (omega arith) (top-Below w mem64 rs);
      new32 = tt;
      new64 = tt;
      within = tt;
      aligned = tt;
      apart = tt;
      off = tt;
      declared = tt;
    }

-- Every region lies in one of the windows that the bus decodes.
abbrev pub IsPlaced : Bus → Type 0
IsPlaced b = All (InWindows b.mmio64) b.mmio_regions

-- Adding a device, wherever in the windows the guest has moved the BARs that were there: each new
-- BAR has the type and the size that the device declares for its index, lies in the window of that
-- type, is naturally aligned, and overlaps neither another BAR of the device nor any region that the
-- bus had before. The 64-bit window lies above the 32-bit one and below 2^62, and no BAR is larger
-- than that.
pub add_device-Placed :
    (b b' : Bus) (d : Device) (bdf : Bdf)
    → GoodWindows b.mmio64
    → IsPlaced b
    → ((i : ℕ) → d.bar_size i ≤ 2 ^ 62)
    → add_device b d ≡ ok (b', bdf)
    → (bars : List Bar) × (b' ≡ with_device b d bars)
      × All (IsDeclared b.mmio64 bdf d) bars
      × All (InWindows b.mmio64) (map (region_of bdf) bars)
      × All IsAligned (map (region_of bdf) bars)
      × AllApart (map (region_of bdf) bars)
      × All (λ r. All (Apart r) b.mmio_regions) (map (region_of bdf) bars)
unfolding add_device
add_device-Placed b b' d bdf gw hp hs e =
    let v = add_device-inversion b b' d bdf e in
    let i =
      place_bars-Inv b.mmio64 gw bdf b.mmio_regions hp d hs 6 0 (start_cursor b) v.0
        (start_cursor-Inv b bdf d gw hp) v.1 in
    (v.0.bars, v.2, i.declared, i.within, i.aligned, i.apart, i.off)

-- Adding a device whose BARs are of at most 2^62 bytes keeps every region of the bus inside the
-- windows, if the 64-bit window lies above the 32-bit one and below 2^62.
pub add_device-IsPlaced :
    (b b' : Bus) (d : Device) (bdf : Bdf)
    → GoodWindows b.mmio64
    → IsPlaced b
    → ((i : ℕ) → d.bar_size i ≤ 2 ^ 62)
    → add_device b d ≡ ok (b', bdf)
    → IsPlaced b'
add_device-IsPlaced b b' d bdf gw hp hs e =
    let v = add_device-inversion b b' d bdf e in
    let p = add_device-Placed b b' d bdf gw hp hs e in
    subst IsPlaced (sym p.1) (
      All-append (InWindows b.mmio64) b.mmio_regions (map (region_of b.next_bdf) p.0) hp
        (subst (λ a. All (InWindows b.mmio64) (map (region_of a) p.0)) v.3 p.3))
