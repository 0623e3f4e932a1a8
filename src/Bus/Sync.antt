-- ===== src/Bus/Sync.antt =====
-- The flat index of MMIO regions and the BARs of the devices say the same, whatever the guest does.
use mathlib.Core.List.{append-nil}
use nesbox.Base.{
  ℕ, ◌+◌, ◌≡◌, refl, sym, subst, ap, ◌∙◌, ◌≢◌, inl, inr, ◌&&◌, some, List, [], ◌∷◌, ◌++◌, map,
  arith, ltb, ◌==◌, length, Bool-cases, Option-cases,
}
use nesbox.Bus.{Bar, Bdf, same_bdf, is_64bit, Device, Entry, Bus, Mmio64Window}
use nesbox.Bus.Alloc.{ok, region_of, add_device}
use nesbox.Bus.Added.{add_device-inversion}
use nesbox.Bus.Regions.{
  all_regions, IsSynced, FreshIdx, DistinctIdx, DistinctBdf, all_regions-append,
  move_regions-put_bars,
}
use nesbox.Bus.Config.{
  Half, low, high, bar_slot_for_offset, u32_of, find_low, find_high, find_bar, write_bar_register,
  probed, lookup, put_bar, put_bars, move_regions, replace_bar, write_slot, config_write,
}

-- Adding a device keeps the index of regions equal to the regions of the devices' BARs.
pub add_device-IsSynced :
    (b b' : Bus) (d : Device) (bdf : Bdf) → IsSynced b → add_device b d ≡ ok (b', bdf) → IsSynced b'
add_device-IsSynced b b' d bdf h e =
    let v = add_device-inversion b b' d bdf e in
    let new : Entry = record { bdf = b.next_bdf; device = d; bars = v.0.bars } in
    subst IsSynced (sym v.2) (
      rw (h, all_regions-append b.devices (new ∷ []))
        (ap (◌++◌ (all_regions b.devices)) (sym (append-nil _))))

find_low-bar_idx :
    (bs : List Bar) (slot : ℕ) {b : Bar} → find_low bs slot ≡ some b → b.bar_idx ≡ slot
unfolding find_low
find_low-bar_idx [] slot h = cc
find_low-bar_idx (x ∷ xs) slot {b} h = elim (Bool-cases (x.bar_idx == slot)) [
  | inl here ↦ ground (arith, here)
  | inr there ↦ find_low-bar_idx xs slot {b = b} (ground (arith, there))
]

find_low-FreshIdx :
    (bs : List Bar) (slot idx : ℕ) {b : Bar}
    → find_high bs slot ≡ some b
    → FreshIdx idx bs
    → b.bar_idx ≢ idx
unfolding find_high
find_low-FreshIdx [] slot idx h f = cc
find_low-FreshIdx (x ∷ xs) slot idx {b} h f =
    ground (arith, f.0, λ (e : find_high xs slot ≡ some b). find_low-FreshIdx xs slot idx e f.1)

find_low-find_high :
    (bs : List Bar) (slot : ℕ) {b : Bar}
    → DistinctIdx bs
    → find_high bs slot ≡ some b
    → find_low bs b.bar_idx ≡ some b
unfolding find_low find_high
find_low-find_high [] slot d h = cc
find_low-find_high (x ∷ xs) slot {b} d h =
    elim (Bool-cases (is_64bit x.bar_type && (x.bar_idx + 1 == slot))) [
      | inl here ↦ ground (arith, here)
      | inr there ↦
          let rest : find_high xs slot ≡ some b = ground (arith, there) in
          let ne = find_low-FreshIdx xs slot x.bar_idx rest d.0 in
          let ih = find_low-find_high xs slot d.1 rest in ground (arith, ne, ih)
    ]

-- The BAR that a register belongs to is the one at its own index.
find_bar-find_low :
    (bs : List Bar) (slot : ℕ) {b : Bar} {half : Half}
    → DistinctIdx bs
    → find_bar bs slot ≡ some (b, half)
    → find_low bs b.bar_idx ≡ some b
unfolding find_bar
find_bar-find_low bs slot {b} d h = elim (Option-cases (find_low bs slot)) [
  | inl e ↦ elim (Option-cases (find_high bs slot)) [
    | inl f ↦ ground (arith, e, f)
    | inr (c, f) ↦
        let same : c ≡ b = ground (arith, e, f) in
        subst (λ o. find_low bs o.bar_idx ≡ some o) same (find_low-find_high bs slot d f)
  ]
  | inr (c, e) ↦
      let same : c ≡ b = ground (arith, e) in
      let i = find_low-bar_idx bs slot e in
      subst (λ o. find_low bs o.bar_idx ≡ some o) same
        (subst (λ n. find_low bs n ≡ some c) (sym i) e)
]

put_bar-regions :
    (bdf : Bdf) (bs : List Bar) (old new : Bar)
    → find_low bs new.bar_idx ≡ some old
    → (new.addr ≡ old.addr) × (new.size ≡ old.size)
    → map (region_of bdf) (put_bar bs new) ≡ map (region_of bdf) bs
unfolding put_bar find_low
put_bar-regions bdf [] old new f s = refl
put_bar-regions bdf (b ∷ bs) old new f s = elim (Bool-cases (b.bar_idx == new.bar_idx)) [
  | inl here ↦ let o : b ≡ old = ground (arith, here) in ground (arith, here, o)
  | inr there ↦
      let ih = put_bar-regions bdf bs old new (ground (arith, there)) s in ground (arith, there, ih)
]

put_bars-regions :
    (es : List Entry) (e : Entry) (bdf : Bdf) (old new : Bar)
    → lookup es bdf ≡ some e
    → find_low e.bars new.bar_idx ≡ some old
    → (new.addr ≡ old.addr) × (new.size ≡ old.size)
    → all_regions (put_bars es bdf new) ≡ all_regions es
unfolding lookup put_bars
put_bars-regions [] e bdf old new l f s = refl
put_bars-regions (x ∷ es) e bdf old new l f s = elim (Bool-cases (same_bdf x.bdf bdf)) [
  | inl here ↦
      let same : e ≡ x = ground (arith, here) in
      let f' = subst (λ o. find_low o.bars new.bar_idx ≡ some old) same f in
      rw (here, put_bar-regions x.bdf x.bars old new f' s)
  | inr there ↦
      let ih = put_bars-regions es e bdf old new (ground (arith, there)) f s in rw (there, ih)
]

replace_bar-IsSynced :
    (b : Bus) (e : Entry) (bdf : Bdf) (old new : Bar)
    → IsSynced b
    → DistinctBdf b.devices
    → lookup b.devices bdf ≡ some e
    → find_low e.bars new.bar_idx ≡ some old
    → new.size ≡ old.size
    → IsSynced (replace_bar b bdf old new)
unfolding replace_bar
replace_bar-IsSynced b e bdf old new h d l f s = elim (Bool-cases (old.addr == new.addr)) [
  | inl still ↦
      let r = put_bars-regions b.devices e bdf old new l f (ground arith, s) in rw still (h ∙ sym r)
  | inr moved ↦
      let r = move_regions-put_bars b.devices e bdf old new d l f s in
      rw moved (ap (λ rs. move_regions rs bdf new.bar_idx new.addr) h ∙ r)
]

-- A write to a BAR register keeps the BAR's index and size.
write_bar_register-keeps :
    (w : Mmio64Window) (b : Bar) (half : Half) (raw : ℕ)
    → ((write_bar_register w b half raw).bar_idx ≡ b.bar_idx)
      × ((write_bar_register w b half raw).size ≡ b.size)
unfolding write_bar_register probed
write_bar_register-keeps w b low raw = (ground arith, ground arith)
write_bar_register-keeps w b high raw = (ground arith, ground arith)

lookup-Distinct :
    (es : List Entry) (bdf : Bdf) {e : Entry}
    → DistinctBdf es
    → lookup es bdf ≡ some e
    → DistinctIdx e.bars
unfolding lookup
lookup-Distinct [] bdf d l = cc
lookup-Distinct (x ∷ es) bdf {e} d l = elim (Bool-cases (same_bdf x.bdf bdf)) [
  | inl here ↦ let same : x ≡ e = ground (arith, here) in subst (λ o. DistinctIdx o.bars) same d.1
  | inr there ↦ lookup-Distinct es bdf {e = e} d.2 (ground (arith, there))
]

write_slot-IsSynced :
    (b : Bus) (bdf : Bdf) (e : Entry) (slot : ℕ) (d : List ℕ)
    → IsSynced b
    → DistinctBdf b.devices
    → lookup b.devices bdf ≡ some e
    → IsSynced (write_slot b bdf e slot d)
unfolding write_slot
write_slot-IsSynced b bdf e slot d h u l = elim (Option-cases (find_bar e.bars slot)) [
  | inl f ↦ rw (f, write_slot) h
  | inr ((bar, half), f) ↦ elim (Bool-cases (ltb (length d) 4)) [
    | inl short ↦ rw (f, write_slot, short) h
    | inr full ↦
        let new = write_bar_register b.mmio64 bar half (u32_of d) in
        let k = write_bar_register-keeps b.mmio64 bar half (u32_of d) in
        let own = find_bar-find_low e.bars slot (lookup-Distinct b.devices bdf u l) f in
        rw (f, write_slot, full)
          (replace_bar-IsSynced b e bdf bar new h u l
            (subst (λ i. find_low e.bars i ≡ some bar) (sym k.0) own) k.1)
  ]
]

-- Whatever a guest writes to configuration space, the index of regions goes on naming exactly the
-- BARs of the devices, at the addresses that those BARs hold. The devices have different BDFs, and
-- the BARs of each different indices.
pub config_write-IsSynced :
    (b : Bus) (bdf : Bdf) (offset : ℕ) (d : List ℕ)
    → IsSynced b
    → DistinctBdf b.devices
    → IsSynced (config_write b bdf offset d).0
unfolding config_write
config_write-IsSynced b bdf offset d h u = elim (Option-cases (lookup b.devices bdf)) [
  | inl e ↦ rw (e, config_write) h
  | inr (entry, e) ↦ elim (Option-cases (bar_slot_for_offset offset)) [
    | inl s ↦ rw (e, s, config_write) h
    | inr (slot, s) ↦ rw (e, s, config_write) (write_slot-IsSynced b bdf entry slot d h u e)
  ]
]
