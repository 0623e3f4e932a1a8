-- ===== src/Msix/Contents.antt =====
-- What the guest reads of the table, and which eventfd an interrupt goes to.
use nesbox.Base.{
  ℕ, zero, suc, ◌+◌, ◌-◌, ◌/◌, ◌%◌, ◌≤◌, ◌<◌, ◌≡◌, refl, sym, ◌⊎◌, inl, inr, ap, Bool-cases, true,
  some, List, [], ◌∷◌, ◌++◌, length, get_elem?, get_or, set, take, drop, padded, arith, ℕ_discrete,
}
use nesbox.Msix.{MsixTable, splice, write_entry, write, read, trigger, masked, call_fd, no_vector}

module _ {ℓ} {A : Type ℓ} where
  take-append : (xs ys : List A) → take (length xs) (xs ++ ys) ≡ xs
  take-append [] ys = refl
  take-append (x ∷ xs) ys = ap (λ r. x ∷ r) (take-append xs ys)

  drop-append : (xs ys : List A) (n : ℕ) → n ≡ length xs → drop n (xs ++ ys) ≡ ys
  drop-append [] ys zero e = refl
  drop-append [] ys (suc n) e = absurd (omega arith)
  drop-append (x ∷ xs) ys zero e = absurd (omega arith)
  drop-append (x ∷ xs) ys (suc n) e = drop-append xs ys n (omega arith)

  take_whole : (n : ℕ) (xs : List A) → length xs ≤ n → take n xs ≡ xs
  take_whole zero [] h = refl
  take_whole zero (x ∷ xs) h = absurd (omega arith)
  take_whole (suc n) [] h = refl
  take_whole (suc n) (x ∷ xs) h = ap (λ r. x ∷ r) (take_whole n xs (omega arith))

  length-take : (n : ℕ) (xs : List A) → n ≤ length xs → length (take n xs) ≡ n
  length-take zero [] h = refl
  length-take zero (x ∷ xs) h = refl
  length-take (suc n) [] h = absurd (omega arith)
  length-take (suc n) (x ∷ xs) h = ap suc (length-take n xs (omega arith))

append_nil : (xs : List ℕ) → xs ++ [] ≡ xs
append_nil [] = refl
append_nil (x ∷ xs) = ap (λ r. x ∷ r) (append_nil xs)

-- Bytes that were copied over an entry are read back where they were put.
padded-splice :
    (entry : List ℕ) (so : ℕ) (bytes : List ℕ)
    → so + length bytes ≤ 16
    → so ≤ length entry
    → padded 0 (splice entry so bytes) so (length bytes) ≡ bytes
unfolding splice
padded-splice entry so bytes fits inside =
    rw (take_whole (16 - so) bytes (omega arith))
      (rw dropped (rw (take-append bytes rest) (rw none_left (append_nil bytes))))
  where
    rest : List ℕ
    rest = drop (so + length bytes) entry

    dropped : drop so (take so entry ++ (bytes ++ rest)) ≡ bytes ++ rest
    dropped = drop-append (take so entry) (bytes ++ rest) so (sym (length-take so entry inside))

    none_left : length bytes - length bytes ≡ 0
    none_left = omega arith

written :
    (t : MsixTable) (offset : ℕ) (bytes : List ℕ) {entry : List ℕ}
    → get_elem? t.entries (offset / 16) ≡ some entry
    → (write t offset bytes).0.entries
      ≡ set t.entries (offset / 16) (splice entry (offset % 16) bytes)
unfolding write write_entry
written t offset bytes found = rw (found, write)

-- Bytes that a guest writes within one entry of the table, it reads back there.
pub read-write :
    (t : MsixTable) (offset : ℕ) (bytes entry : List ℕ)
    → get_elem? t.entries (offset / 16) ≡ some entry
    → length entry ≡ 16
    → offset % 16 + length bytes ≤ 16
    → read (write t offset bytes).0 offset (length bytes) ≡ bytes
unfolding read
read-write t offset bytes entry found full fits = rw (written t offset bytes found) (
    rw (get_or-set_found t.entries (offset / 16) (splice entry (offset % 16) bytes) found)
      (padded-splice entry (offset % 16) bytes fits (omega arith)))
  where
    get_or-set_found :
        (xs : List (List ℕ)) (i : ℕ) (v : List ℕ) {x : List ℕ}
        → get_elem? xs i ≡ some x
        → get_or (set xs i v) i [] ≡ v
    get_or-set_found [] i v h = cc
    get_or-set_found (x ∷ xs) zero v h = refl
    get_or-set_found (x ∷ xs) (suc i) v h = get_or-set_found xs i v h

-- A trigger signals the eventfd that `call_fd` names for its vector and changes nothing, or else the
-- table is enabled, the entry is masked, and nothing is signalled. The vector is one of the table's or
-- none.
pub trigger-call_fd :
    (t : MsixTable) (vector : ℕ)
    → (vector < length t.entries) ⊎ (vector ≡ no_vector)
    → (trigger t vector ≡ (t, call_fd t vector))
      ⊎ ((t.enabled ≡ true) × (masked t vector ≡ true) × ((trigger t vector).1 ≡ []))
unfolding trigger call_fd
trigger-call_fd t vector known = elim (Bool-cases (masked t vector)) [
  | inl m ↦ elim (Bool-cases t.enabled) [
    | inl on ↦ elim (ℕ_discrete vector no_vector) [
      | yes p ↦ inl (ground arith)
      | no n ↦ inr (on, m, ground arith)
    ]
    | inr off ↦ inl (ground arith)
  ]
  | inr m ↦ inl (ground arith)
]
