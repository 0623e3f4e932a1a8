-- ===== src/Msix/Delivery.antt =====
-- No interrupt is lost behind a mask: it waits in the Pending Bit Array until the write that unmasks
-- its entry.
use nesbox.Base.{
  get_elem?-set_self, get_elem?-set_ne, ℕ, ◌+◌, ◌*◌, ◌/◌, ◌%◌, ◌<◌, ◌≡◌, ◌≢◌, ◌⊎◌, inl, inr, Bool,
  true, false, not, ◌&&◌, some, List, [], ◌∷◌, length, get_elem?, arith, test_bit, set_bit,
  test_bit-set_bit_self, test_bit-clear_bit_self, test_bit-set_bit_ne, test_bit-clear_bit_ne,
  Bool-cases,
}
use nesbox.Msix.{
  signal, MsixTable, splice, entry_masked, masked, write_entry, write, trigger, no_vector,
}

abbrev pub pending : MsixTable → ℕ → Bool
pending t idx = test_bit t.pba idx

-- An enabled table with a host vector for every entry.
pub record IsBound (t : MsixTable) : Type 0 where
  pub on : t.enabled ≡ true
  pub vector : (idx : ℕ) → idx < length t.entries → (gsi : ℕ) × (get_elem? t.vectors idx ≡ some gsi)

trigger-masked :
    (t : MsixTable) (idx : ℕ)
    → t.enabled ≡ true
    → idx < length t.entries
    → idx ≢ no_vector
    → masked t idx ≡ true
    → trigger t idx ≡ (record t { pba = set_bit t.pba idx }, [])
unfolding trigger
trigger-masked t idx on hi hn m = ground arith

-- A trigger of an entry of an enabled table with a host vector for each entry is either signalled
-- on the vector's eventfd with the table unchanged, or recorded as pending with no other entry's
-- pending bit moved, the latter exactly when the entry is masked.
pub trigger_lem :
    (t : MsixTable) (idx : ℕ)
    → IsBound t
    → idx < length t.entries
    → idx ≢ no_vector
    → ((masked t idx ≡ false)
        × ((gsi : ℕ) × (get_elem? t.vectors idx ≡ some gsi)
            × (trigger t idx ≡ (t, signal gsi ∷ []))))
      ⊎ ((masked t idx ≡ true)
          × ((trigger t idx).1 ≡ [])
          × (pending (trigger t idx).0 idx ≡ true)
          × ((j : ℕ) → j ≢ idx → pending (trigger t idx).0 j ≡ pending t j))
unfolding trigger
trigger_lem t idx b hi hn = elim (Bool-cases (masked t idx)) [
  | inl m ↦
      let e = trigger-masked t idx b.on hi hn m in
      inr (
        m,
        rw e,
        rw e (test_bit-set_bit_self t.pba idx),
        λ j h. rw e (test_bit-set_bit_ne t.pba idx j h),
      )
  | inr m ↦
      inl (m, ((b.vector idx hi).0, (b.vector idx hi).1, ground (arith, b.on, b.vector idx hi)))
]

write-write_entry :
    (t : MsixTable) (idx so : ℕ) (bytes : List ℕ) {old : List ℕ}
    → get_elem? t.entries idx ≡ some old
    → so < 16
    → write t (idx * 16 + so) bytes ≡ write_entry t idx so bytes old
unfolding write
write-write_entry t idx so bytes h hs =
    let d : (idx * 16 + so) / 16 ≡ idx = omega arith in
    let r : (idx * 16 + so) % 16 ≡ so = omega arith in ground (arith, d, r)

module _ (t : MsixTable) (idx so : ℕ) (bytes : List ℕ) {old : List ℕ}
    (h : get_elem? t.entries idx ≡ some old) where
  masked_before : masked t idx ≡ entry_masked old
  unfolding masked
  masked_before = rw (h, masked)

  masked_after : masked (write_entry t idx so bytes old).0 idx ≡ entry_masked (splice old so bytes)
  unfolding masked write_entry
  masked_after = rw (get_elem?-set_self t.entries idx (splice old so bytes) h, masked)

  write_entry-Delivers :
      ((write_entry t idx so bytes old).1
        ≡ (masked t idx && not (masked (write_entry t idx so bytes old).0 idx) && pending t idx))
      × (pending (write_entry t idx so bytes old).0 idx
          ≡ (pending t idx && not (write_entry t idx so bytes old).1))
  unfolding write_entry
  write_entry-Delivers =
      let gone = test_bit-clear_bit_self t.pba idx in
      (
        ground (arith, masked_before, masked_after),
        ground (arith, gone, masked_before, masked_after),
      )

  write_entry-others :
      (j : ℕ)
      → j ≢ idx
      → (get_elem? (write_entry t idx so bytes old).0.entries j ≡ get_elem? t.entries j)
        × (masked (write_entry t idx so bytes old).0 j ≡ masked t j)
        × (pending (write_entry t idx so bytes old).0 j ≡ pending t j)
  unfolding write_entry masked
  write_entry-others j ne = (
    get_elem?-set_ne t.entries idx j (splice old so bytes) ne,
    rw (get_elem?-set_ne t.entries idx j (splice old so bytes) ne, masked),
    ground (arith, test_bit-clear_bit_ne t.pba idx j ne),
  )

-- A write at byte `so` of entry `idx`, as a whole: the interrupt is to be delivered now exactly
-- when it was pending behind a mask that the write took off; it then stops being pending, and
-- otherwise stays as it was; and the other entries keep their bytes, their masks and their pending
-- bits.
pub write_lem :
    (t : MsixTable) (idx so : ℕ) (bytes : List ℕ) {old : List ℕ}
    → get_elem? t.entries idx ≡ some old
    → so < 16
    → let t' = (write t (idx * 16 + so) bytes).0 in
      let deliver_now = (write t (idx * 16 + so) bytes).1 in
      (deliver_now ≡ (masked t idx && not (masked t' idx) && pending t idx))
      × (pending t' idx ≡ (pending t idx && not deliver_now))
      × ((j : ℕ)
          → j ≢ idx
          → (get_elem? t'.entries j ≡ get_elem? t.entries j)
            × (masked t' j ≡ masked t j)
            × (pending t' j ≡ pending t j))
write_lem t idx so bytes h hs = rw (write-write_entry t idx so bytes h hs) (
    let d = write_entry-Delivers t idx so bytes h in
    (d.0, d.1, write_entry-others t idx so bytes h))
