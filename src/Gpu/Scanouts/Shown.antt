-- ===== src/Gpu/Scanouts/Shown.antt =====
-- A resource has only the scanouts in its bitmap that show it.
use mathlib.Core.Option.{some_inj}
use nesbox.Base.{
  ℕ, ◌≡◌, ◌≢◌, ◌⊎◌, ◌∙◌, refl, sym, ap, arith, inl, inr, Bool, true, false, Option, none, some,
  List, [], ◌∷◌, ◌==◌, if◌then◌else◌, get_elem?, set, test_bit, test_bit-set_bit_ne,
  test_bit-clear_bit_self, test_bit-clear_bit_ne, get_elem?-set_self, get_elem?-set_ne, if-holds,
  Bool-cases, Option-cases,
}
use nesbox.Gpu.Blobs.{VirtioGpuResource, enable, disable, find_resource, insert_resource}
use nesbox.Gpu.Protocol.Responses.{GpuResponse, err_invalid_resource_id}
use nesbox.Gpu.Scanouts.{Screens, detach, show, set_found, set_scanout}

-- Whether the bitmap of a resource has a scanout.
abbrev pub has_scanout : Option VirtioGpuResource → ℕ → Bool
has_scanout none k = false
has_scanout (some r) k = test_bit r.scanouts k

-- Where a resource has a scanout in its bitmap, that scanout shows the resource.
unfoldable pub IsShown : List (Option ℕ) → List (ℕ × VirtioGpuResource) → Type 0
IsShown scanouts rs =
    (id k : ℕ) → has_scanout (find_resource rs id) k ≡ true → get_elem? scanouts k ≡ some (some id)

find_resource-insert_resource :
    (rs : List (ℕ × VirtioGpuResource)) (id : ℕ) (new : VirtioGpuResource) (other : ℕ)
    → find_resource (insert_resource rs id new) other
      ≡ (if id == other then some new else find_resource rs other)
unfolding find_resource insert_resource
find_resource-insert_resource [] id new other = refl
find_resource-insert_resource (r ∷ rs) id new other = elim (Bool-cases (r.0 == id)) [
  | inl e ↦ elim (Bool-cases (id == other)) [
    | inl o ↦ rw (e, o) refl
    | inr o ↦ let apart : (r.0 == other) ≡ false = ground (arith, e, o) in rw (e, o, apart) refl
  ]
  | inr e ↦ elim (Bool-cases (r.0 == other)) [
    | inl o ↦ let apart : (id == other) ≡ false = ground (arith, e, o) in rw (e, o, apart) refl
    | inr o ↦ rw (e, o) (find_resource-insert_resource rs id new other)
  ]
]

-- What a resource's bitmap has after one resource is put.
has_scanout-insert_resource :
    (rs : List (ℕ × VirtioGpuResource)) (id : ℕ) (new : VirtioGpuResource) (other k : ℕ)
    → has_scanout (find_resource (insert_resource rs id new) other) k ≡ true
    → ((other ≡ id) × (test_bit new.scanouts k ≡ true))
      ⊎ ((other ≢ id) × (has_scanout (find_resource rs other) k ≡ true))
has_scanout-insert_resource rs id new other k h =
    split (Bool-cases (id == other))
      (ap (λ o. has_scanout o k) (sym (find_resource-insert_resource rs id new other)) ∙ h)
  where
    split :
        ((id == other) ≡ true) ⊎ ((id == other) ≡ false)
        → has_scanout (if id == other then some new else find_resource rs other) k ≡ true
        → ((other ≡ id) × (test_bit new.scanouts k ≡ true))
          ⊎ ((other ≢ id) × (has_scanout (find_resource rs other) k ≡ true))
    split (inl e) t = inl (
      ground (arith, e),
      ap (λ b. has_scanout (if b then some new else find_resource rs other) k) (sym e) ∙ t,
    )
    split (inr e) t = inr (
      (λ same. ground (arith, e, same)),
      ap (λ b. has_scanout (if b then some new else find_resource rs other) k) (sym e) ∙ t,
    )

-- A resource that the scanout no longer shows does not have it.
Freed : List (Option ℕ) → List (ℕ × VirtioGpuResource) → ℕ → Type 0
Freed scanouts rs scanout_id =
    (id k : ℕ)
    → has_scanout (find_resource rs id) k ≡ true
    → (k ≢ scanout_id) × (get_elem? scanouts k ≡ some (some id))

detach-Freed :
    (scanouts : List (Option ℕ)) (rs : List (ℕ × VirtioGpuResource)) (scanout_id : ℕ)
    (old : Option ℕ)
    → IsShown scanouts rs
    → get_elem? scanouts scanout_id ≡ some old
    → Freed scanouts (detach rs scanout_id old) scanout_id
unfolding detach IsShown Freed
detach-Freed scanouts rs scanout_id none h at id k t =
    ((λ e. nothing (sym (h id k t) ∙ ap (get_elem? scanouts) e ∙ at)), h id k t)
  where
    nothing : ◌≡◌ {A = Option (Option ℕ)} (some (some id)) (some none) → ⊥
    nothing e = cc
detach-Freed scanouts rs scanout_id (some old) h at id k t = by_old (find_resource rs old) refl t
  where
    is_old : has_scanout (find_resource rs id) k ≡ true → k ≡ scanout_id → id ≡ old
    is_old u e = some_inj.0 (some_inj.0 (sym (h id k u) ∙ ap (get_elem? scanouts) e ∙ at))

    off :
        (r : VirtioGpuResource) → test_bit (disable r.scanouts scanout_id) k ≡ true → k ≢ scanout_id
    off r u e = clash (
        sym u
        ∙ ap (test_bit (disable r.scanouts scanout_id)) e
        ∙ test_bit-clear_bit_self r.scanouts scanout_id)
      where
        clash : true ≡ false → ⊥
        clash e = cc

    by_old :
        (found : Option VirtioGpuResource)
        → find_resource rs old ≡ found
        → has_scanout
            (find_resource
              (elim found [
                | none ↦ rs
                | some r ↦
                    insert_resource rs old (record r { scanouts = disable r.scanouts scanout_id })
              ])
              id)
            k
          ≡ true
        → (k ≢ scanout_id) × (get_elem? scanouts k ≡ some (some id))
    by_old none e u = (
      (λ same. clash (
          sym u
          ∙ ap (λ i. has_scanout (find_resource rs i) k) (is_old u same)
          ∙ ap (λ o. has_scanout o k) e)),
      h id k u,
    )
      where
        clash : true ≡ false → ⊥
        clash e = cc
    by_old (some r) e u = elim (has_scanout-insert_resource rs old _ id k u) [
      | inl (same, bit) ↦
          let apart = off r bit in
          (
            apart,
            h id k (
                ap (λ i. has_scanout (find_resource rs i) k) same
                ∙ ap (λ o. has_scanout o k) e
                ∙ sym (test_bit-clear_bit_ne r.scanouts scanout_id k apart)
                ∙ bit),
          )
      | inr (apart, bit) ↦ ((λ same. apart (is_old bit same)), h id k bit)
    ]

-- The scanout is put, to a resource that has it from now on.
show-IsShown :
    (s : Screens) (scanout_id resource_id : ℕ) {old : Option ℕ} (found : Option VirtioGpuResource)
    → get_elem? s.scanouts scanout_id ≡ some old
    → Freed s.scanouts s.resources scanout_id
    → find_resource s.resources resource_id ≡ found
    → IsShown
        (show s scanout_id resource_id found).0.scanouts
        (show s scanout_id resource_id found).0.resources
unfolding show IsShown Freed
show-IsShown s scanout_id resource_id none at freed e id k t = (freed id k t).1
show-IsShown s scanout_id resource_id (some r) at freed e id k t =
    elim (has_scanout-insert_resource s.resources resource_id _ id k t) [
      | inl (same, bit) ↦ at_scanout same bit (Bool-cases (k == scanout_id))
      | inr (apart, bit) ↦
          get_elem?-set_ne s.scanouts scanout_id k (some resource_id) (freed id k bit).0
          ∙ (freed id k bit).1
    ]
  where
    at_scanout :
        id ≡ resource_id
        → test_bit (enable r.scanouts scanout_id) k ≡ true
        → ((k == scanout_id) ≡ true) ⊎ ((k == scanout_id) ≡ false)
        → get_elem? (set s.scanouts scanout_id (some resource_id)) k ≡ some (some id)
    at_scanout same bit (inl there) =
        let here : k ≡ scanout_id = ground (arith, there) in
        ap (get_elem? (set s.scanouts scanout_id (some resource_id))) here
        ∙ get_elem?-set_self s.scanouts scanout_id (some resource_id) at
        ∙ ap (λ i. some (some i)) (sym same)
    at_scanout same bit (inr elsewhere) =
        let apart : k ≢ scanout_id = λ e. ground (arith, e, elsewhere) in
        let had =
          ap (λ i. has_scanout (find_resource s.resources i) k) same
          ∙ ap (λ o. has_scanout o k) e
          ∙ sym (test_bit-set_bit_ne r.scanouts scanout_id k apart)
          ∙ bit in
        get_elem?-set_ne s.scanouts scanout_id k (some resource_id) apart ∙ (freed id k had).1

at_entry :
    (s : Screens) (scanout_id resource_id : ℕ)
    → IsShown s.scanouts s.resources
    → (entry : Option (Option ℕ)) → get_elem? s.scanouts scanout_id ≡ entry
    → IsShown
        (set_found s scanout_id resource_id entry).0.scanouts
        (set_found s scanout_id resource_id entry).0.resources
unfolding set_found Freed IsShown
at_entry s scanout_id resource_id h none e = h
at_entry s scanout_id resource_id h (some old) e =
    let rs = detach s.resources scanout_id old in
    let freed = detach-Freed s.scanouts s.resources scanout_id old h e in
    if-holds (λ (r : Screens × GpuResponse). IsShown r.0.scanouts r.0.resources) (resource_id == 0)
      (λ t id k bit.
        get_elem?-set_ne s.scanouts scanout_id k none (freed id k bit).0 ∙ (freed id k bit).1)
      (λ t.
        show-IsShown (record s { resources = rs }) scanout_id resource_id
          (find_resource rs resource_id) e freed refl)

-- Whatever a scanout is set to, and whether or not the call fails, a resource has only the scanouts
-- in its bitmap that show it, if that was so before.
pub set_scanout-IsShown :
    (s : Screens) (scanout_id resource_id : ℕ)
    → IsShown s.scanouts s.resources
    → IsShown
        (set_scanout s scanout_id resource_id).0.scanouts
        (set_scanout s scanout_id resource_id).0.resources
unfolding set_scanout
set_scanout-IsShown s scanout_id resource_id h =
    at_entry s scanout_id resource_id h (get_elem? s.scanouts scanout_id) refl

detach-none :
    (rs : List (ℕ × VirtioGpuResource)) (scanout_id old id : ℕ)
    → find_resource rs id ≡ none
    → find_resource (detach rs scanout_id (some old)) id ≡ none
unfolding detach
detach-none rs scanout_id old id e = elim (Option-cases (find_resource rs old)) [
  | inl f ↦ rw (f, detach) e
  | inr (r, f) ↦
      let other : (old == id) ≡ false = elim (Bool-cases (old == id)) [
        | inl same ↦ absurd (clash (sym f ∙ ap (find_resource rs) (equal same) ∙ e))
        | inr apart ↦ apart
      ] in
      rw (f, detach) (find_resource-insert_resource rs old _ id ∙ rw other e)
]
  where
    clash : {r : VirtioGpuResource} → some r ≡ none → ⊥
    clash c = cc

    equal : (old == id) ≡ true → old ≡ id
    equal same = ground (arith, same)

-- Where a scanout that shows a resource is set to one that does not exist, the call fails and the
-- scanout goes on showing the old resource, but the old resource's bitmap no longer has the scanout.
-- Before, a resource had only the scanouts in its bitmap that showed it.
pub set_scanout-has_scanout :
    (s : Screens) (scanout_id resource_id old : ℕ)
    → IsShown s.scanouts s.resources
    → get_elem? s.scanouts scanout_id ≡ some (some old)
    → (resource_id == 0) ≡ false
    → find_resource s.resources resource_id ≡ none
    → let r = set_scanout s scanout_id resource_id in
      (r.1 ≡ err_invalid_resource_id)
      × (get_elem? r.0.scanouts scanout_id ≡ some (some old))
      × (has_scanout (find_resource r.0.resources old) scanout_id ≡ false)
unfolding set_scanout set_found show Freed
set_scanout-has_scanout s scanout_id resource_id old h at other missing =
    let rs = detach s.resources scanout_id (some old) in
    rw (at, other, detach-none s.resources scanout_id old resource_id missing)
      (
        refl,
        at,
        elim (Bool-cases (has_scanout (find_resource rs old) scanout_id)) [
          | inl e ↦ absurd (
              (detach-Freed s.scanouts s.resources scanout_id (some old) h at old scanout_id e).0
                refl)
          | inr e ↦ e
        ],
      )
