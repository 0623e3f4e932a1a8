-- ===== src/Machine/Sorted.antt =====
-- Sorting and removing repeats: what is in the result, and when nothing was removed.
use nesbox.Base.{
  ℕ, suc, ◌≤◌, ◌<◌, ◌≡◌, ◌≢◌, ◌↔◌, refl, sym, ◌∙◌, ap, Bool, true, false, ◌||◌, List, [], ◌∷◌,
  length, leb, ltb, ◌==◌, if◌then◌else◌, All, All-map, arith, if-holds, if-cases, Bool-cases, inl,
  inr,
}
use nesbox.Machine.{insert_sorted, sort, dedup_after, dedup, contains}

contains-insert_sorted :
    (x c : ℕ) (ys : List ℕ) → contains (insert_sorted x ys) c ≡ ((x == c) || contains ys c)
unfolding contains insert_sorted
contains-insert_sorted x c [] = refl
contains-insert_sorted x c (y ∷ ys) = ground (arith, contains-insert_sorted x c ys)

pub contains-sort : (c : ℕ) (xs : List ℕ) → contains (sort xs) c ≡ contains xs c
unfolding contains sort
contains-sort c [] = refl
contains-sort c (x ∷ xs) =
    contains-insert_sorted x c (sort xs) ∙ ap (λ b. (x == c) || b) (contains-sort c xs)

contains-dedup_after :
    (x c : ℕ) (ys : List ℕ)
    → ((x == c) || contains (dedup_after x ys) c) ≡ ((x == c) || contains ys c)
unfolding contains dedup_after
contains-dedup_after x c [] = refl
contains-dedup_after x c (y ∷ ys) =
    ground (arith, contains-dedup_after x c ys, contains-dedup_after y c ys)

pub contains-dedup : (c : ℕ) (xs : List ℕ) → contains (dedup xs) c ≡ contains xs c
unfolding contains dedup
contains-dedup c [] = refl
contains-dedup c (x ∷ xs) = contains-dedup_after x c xs

-- No entry comes twice.
pub Distinct : List ℕ → Type 0
Distinct [] = Unit
Distinct (x ∷ xs) = All (λ (y : ℕ). x ≢ y) xs × Distinct xs

-- Each entry is below the next.
Increasing : ℕ → List ℕ → Type 0
Increasing x [] = Unit
Increasing x (y ∷ ys) = (x < y) × Increasing y ys

-- No entry is above the next.
Rising : ℕ → List ℕ → Type 0
Rising x [] = Unit
Rising x (y ∷ ys) = (x ≤ y) × Rising y ys

IsSorted : List ℕ → Type 0
IsSorted [] = Unit
IsSorted (x ∷ xs) = Rising x xs

Rising-insert_sorted : (x y : ℕ) (ys : List ℕ) → x ≤ y → Rising x ys → Rising x (insert_sorted y ys)
unfolding Rising insert_sorted
Rising-insert_sorted x y [] le h = (le, tt)
Rising-insert_sorted x y (z ∷ zs) le h =
    if-holds (Rising x) (leb y z) (λ e. (le, (ground arith, h.1)))
      λ e. (h.0, Rising-insert_sorted z y zs (ground arith) h.1)

insert_sorted-IsSorted : (x : ℕ) (ys : List ℕ) → IsSorted ys → IsSorted (insert_sorted x ys)
unfolding IsSorted insert_sorted Rising
insert_sorted-IsSorted x [] h = tt
insert_sorted-IsSorted x (y ∷ ys) h =
    if-holds IsSorted (leb x y) (λ e. (ground arith, h))
      λ e. Rising-insert_sorted y x ys (ground arith) h

sort-IsSorted : (xs : List ℕ) → IsSorted (sort xs)
unfolding sort IsSorted
sort-IsSorted [] = tt
sort-IsSorted (x ∷ xs) = insert_sorted-IsSorted x (sort xs) (sort-IsSorted xs)

length-insert_sorted : (x : ℕ) (ys : List ℕ) → length (insert_sorted x ys) ≡ suc (length ys)
unfolding insert_sorted
length-insert_sorted x [] = refl
length-insert_sorted x (y ∷ ys) = ground (arith, length-insert_sorted x ys)

length-sort : (xs : List ℕ) → length (sort xs) ≡ length xs
unfolding sort
length-sort [] = refl
length-sort (x ∷ xs) = length-insert_sorted x (sort xs) ∙ ap suc (length-sort xs)

length-dedup_after-le : (x : ℕ) (ys : List ℕ) → length (dedup_after x ys) ≤ length ys
unfolding dedup_after
length-dedup_after-le x [] = omega arith
length-dedup_after-le x (y ∷ ys) =
    ground (arith, length-dedup_after-le x ys, length-dedup_after-le y ys)

-- Of entries in order nothing is removed exactly when each is below the next.
length-dedup_after-Increasing :
    (x : ℕ) (ys : List ℕ) → Rising x ys → length (dedup_after x ys) ≡ length ys → Increasing x ys
unfolding dedup_after Rising Increasing
length-dedup_after-Increasing x [] up h = tt
length-dedup_after-Increasing x (y ∷ ys) up h = elim (if-cases (x == y) (split h)) [
  | inl t ↦ absurd (omega (arith, t.1, length-dedup_after-le x ys))
  | inr t ↦
      (ground (arith, t.0, up.0), length-dedup_after-Increasing y ys up.1 (omega (arith, t.1)))
]
  where
    split :
        length (if x == y then dedup_after x ys else y ∷ dedup_after y ys) ≡ suc (length ys)
        → (if x == y then length (dedup_after x ys) else suc (length (dedup_after y ys)))
          ≡ suc (length ys)
    split e = ground (arith, e)

Increasing-length-dedup_after :
    (x : ℕ) (ys : List ℕ) → Increasing x ys → length (dedup_after x ys) ≡ length ys
unfolding dedup_after Increasing
Increasing-length-dedup_after x [] h = refl
Increasing-length-dedup_after x (y ∷ ys) h =
    ground (arith, h.0, Increasing-length-dedup_after y ys h.1)

Increasing-All : (x : ℕ) (ys : List ℕ) → Increasing x ys → All (λ (y : ℕ). x < y) ys
unfolding Increasing
Increasing-All x [] h = tt
Increasing-All x (y ∷ ys) h = (
  h.0,
  All-map (λ z. y < z) (λ z. x < z) (λ z lt. omega (arith, h.0)) ys (Increasing-All y ys h.1),
)

Increasing-Distinct : (x : ℕ) (ys : List ℕ) → Increasing x ys → Distinct (x ∷ ys)
unfolding Increasing Distinct
Increasing-Distinct x [] h = (tt, tt)
Increasing-Distinct x (y ∷ ys) h = (
  All-map (λ z. x < z) (λ z. x ≢ z) (λ z lt e. absurd (omega arith)) (y ∷ ys)
      (Increasing-All x (y ∷ ys) h),
  Increasing-Distinct y ys h.1,
)

Distinct-Increasing : (x : ℕ) (ys : List ℕ) → Rising x ys → Distinct (x ∷ ys) → Increasing x ys
unfolding Increasing Distinct Rising
Distinct-Increasing x [] up h = tt
Distinct-Increasing x (y ∷ ys) up h = (lt, Distinct-Increasing y ys up.1 h.1)
  where
    lt : x < y
    lt = elim (Bool-cases (ltb x y)) [
      | inl e ↦ ground arith
      | inr e ↦ absurd (h.0.0 (ground (arith, up.0, e)))
    ]

module _ (P : ℕ → Type 0) where
  All-insert_sorted : (x : ℕ) (ys : List ℕ) → P x → All P ys → All P (insert_sorted x ys)
  unfolding insert_sorted
  All-insert_sorted x [] hx h = (hx, tt)
  All-insert_sorted x (y ∷ ys) hx h =
      if-holds (All P) (leb x y) (λ _. (hx, h)) (λ _. (h.0, All-insert_sorted x ys hx h.1))

  All-insert_sorted_back : (x : ℕ) (ys : List ℕ) → All P (insert_sorted x ys) → P x × All P ys
  unfolding insert_sorted
  All-insert_sorted_back x [] h = h
  All-insert_sorted_back x (y ∷ ys) h = split (leb x y) (All-insert_sorted_back x ys) h
    where
      split :
          (b : Bool)
          → (All P (insert_sorted x ys) → P x × All P ys)
          → All P (if b then x ∷ y ∷ ys else y ∷ insert_sorted x ys)
          → P x × All P (y ∷ ys)
      split true back g = g
      split false back g = let r = back g.1 in (r.0, (g.0, r.1))

  All-sort : (xs : List ℕ) → All P xs → All P (sort xs)
  unfolding sort
  All-sort [] h = tt
  All-sort (x ∷ xs) h = All-insert_sorted x (sort xs) h.0 (All-sort xs h.1)

  All-sort_back : (xs : List ℕ) → All P (sort xs) → All P xs
  unfolding sort
  All-sort_back [] h = tt
  All-sort_back (x ∷ xs) h =
      let r = All-insert_sorted_back x (sort xs) h in (r.0, All-sort_back xs r.1)

insert_sorted-Distinct :
    (x : ℕ) (ys : List ℕ) → All (λ (y : ℕ). x ≢ y) ys → Distinct ys → Distinct (insert_sorted x ys)
unfolding Distinct insert_sorted
insert_sorted-Distinct x [] apart h = (tt, tt)
insert_sorted-Distinct x (y ∷ ys) apart h =
    if-holds Distinct (leb x y) (λ _. (apart, h))
      λ _. (
        All-insert_sorted (λ z. y ≢ z) x ys (λ e. apart.0 (sym e)) h.0,
        insert_sorted-Distinct x ys apart.1 h.1,
      )

insert_sorted-Distinct_back :
    (x : ℕ) (ys : List ℕ) → Distinct (insert_sorted x ys) → All (λ (y : ℕ). x ≢ y) ys × Distinct ys
unfolding Distinct insert_sorted
insert_sorted-Distinct_back x [] h = (tt, tt)
insert_sorted-Distinct_back x (y ∷ ys) h = split (leb x y) (insert_sorted-Distinct_back x ys) h
  where
    split :
        (b : Bool)
        → (Distinct (insert_sorted x ys) → All (λ (y : ℕ). x ≢ y) ys × Distinct ys)
        → Distinct (if b then x ∷ y ∷ ys else y ∷ insert_sorted x ys)
        → All (λ (z : ℕ). x ≢ z) (y ∷ ys) × Distinct (y ∷ ys)
    split true back g = g
    split false back g =
        let above = All-insert_sorted_back (λ z. y ≢ z) x ys g.0 in
        let rest = back g.1 in (((λ e. above.0 (sym e)), rest.0), (above.1, rest.1))

sort-Distinct : (xs : List ℕ) → Distinct xs → Distinct (sort xs)
unfolding Distinct sort
sort-Distinct [] h = tt
sort-Distinct (x ∷ xs) h =
    insert_sorted-Distinct x (sort xs) (All-sort (λ y. x ≢ y) xs h.0) (sort-Distinct xs h.1)

sort-Distinct_back : (xs : List ℕ) → Distinct (sort xs) → Distinct xs
unfolding Distinct sort
sort-Distinct_back [] h = tt
sort-Distinct_back (x ∷ xs) h =
    let r = insert_sorted-Distinct_back x (sort xs) h in
    (All-sort_back (λ y. x ≢ y) xs r.0, sort-Distinct_back xs r.1)

-- Entries in order lose none to `dedup` exactly when they are distinct.
length-dedup_iff : (ys : List ℕ) → IsSorted ys → (length (dedup ys) ≡ length ys) ↔ Distinct ys
unfolding dedup IsSorted Distinct
length-dedup_iff [] up = ((λ _. tt), λ _. refl)
length-dedup_iff (y ∷ ys) up = (
  (λ h. Increasing-Distinct y ys (length-dedup_after-Increasing y ys up (omega (arith, h)))),
  λ h. ap suc (Increasing-length-dedup_after y ys (Distinct-Increasing y ys up h)),
)

-- Sorted, and without repeats, a list is as long as it was exactly when no entry came twice.
pub length-dedup-sort_iff : (xs : List ℕ) → (length (dedup (sort xs)) ≡ length xs) ↔ Distinct xs
length-dedup-sort_iff xs = (
  (λ h.
      sort-Distinct_back xs
        ((length-dedup_iff (sort xs) (sort-IsSorted xs)).0 (h ∙ sym (length-sort xs)))),
  λ h. (length-dedup_iff (sort xs) (sort-IsSorted xs)).1 (sort-Distinct xs h) ∙ length-sort xs,
)
