-- ===== src/Interrupt/Table.antt =====
-- What the table that KVM is given makes of an interrupt line.
use nesbox.Base.{
  ℕ, zero, suc, ◌+◌, ◌-◌, ◌*◌, ◌/◌, ◌%◌, ◌^◌, ◌≤◌, ◌<◌, ◌≡◌, ◌∙◌, refl, ap, arith, inl, inr, true,
  false, ◌&&◌, List, [], ◌∷◌, ◌++◌, map, ltb, leb, ◌==◌, if◌then◌else◌, u32_mod, Bool-cases,
}
use nesbox.Interrupt.{
  Irqchip, pic_master, pic_slave, ioapic, Target, chip_pin, msi, Entry, MsiRoute, State, legacy_gsi,
  legacy_from, legacy_entries, msi_entry, table_of,
}

-- What a line does: it drives a pin, or sends a message to an address.
pub data Effect : Type 0 where
  pin : Irqchip → ℕ → Effect
  message : ℕ → ℕ → Effect

-- How KVM reads an entry.
pub effect_of : Target → Effect
effect_of (chip_pin chip n) = pin chip n
effect_of (msi low high word) = message (low + u32_mod * high) word

pub effects : List Entry → ℕ → List Effect
effects [] gsi = []
effects (e ∷ es) gsi = if e.gsi == gsi then effect_of e.target ∷ effects es gsi else effects es gsi

-- The wiring of a PC: 24 pins of the IO-APIC, the first 16 of them also on the two PICs.
pub wired : ℕ → List Effect
wired gsi =
    if ltb gsi 8
    then pin ioapic gsi ∷ pin pic_master gsi ∷ []
    else if ltb gsi 16
    then pin ioapic gsi ∷ pin pic_slave (gsi - 8) ∷ []
    else if ltb gsi 24
    then pin ioapic gsi ∷ []
    else []

-- The messages of the routes of a line.
pub sent : List (ℕ × MsiRoute) → ℕ → List Effect
sent [] gsi = []
sent (r ∷ rs) gsi = if r.0 == gsi then message r.1.addr r.1.data_word ∷ sent rs gsi else sent rs gsi

-- Every line does what it is wired to and sends the messages of its routes, and nothing else.
unfoldable pub Carries : List (ℕ × MsiRoute) → List Entry → Type 0
Carries rs table = (gsi : ℕ) → effects table gsi ≡ wired gsi ++ sent rs gsi

effects-append :
    (es fs : List Entry) (gsi : ℕ) → effects (es ++ fs) gsi ≡ effects es gsi ++ effects fs gsi
unfolding effects
effects-append [] fs gsi = refl
effects-append (e ∷ es) fs gsi = elim (Bool-cases (e.gsi == gsi)) [
  | inl t ↦ rw t (ap (λ l. effect_of e.target ∷ l) (effects-append es fs gsi))
  | inr t ↦ rw t (effects-append es fs gsi)
]

effects-msi_entry :
    (rs : List (ℕ × MsiRoute)) (gsi : ℕ) → effects (map msi_entry rs) gsi ≡ sent rs gsi
unfolding effects sent msi_entry effect_of
effects-msi_entry [] gsi = refl
effects-msi_entry ((key, r) ∷ rs) gsi =
    let whole : r.addr % u32_mod + u32_mod * (r.addr / 2 ^ 32) ≡ r.addr = omega arith in
    elim (Bool-cases (key == gsi)) [
      | inl t ↦ rw (t, whole) (ap (λ l. message r.addr r.data_word ∷ l) (effects-msi_entry rs gsi))
      | inr t ↦ rw t (effects-msi_entry rs gsi)
    ]

effects-legacy_gsi_self : (gsi : ℕ) → gsi < 24 → effects (legacy_gsi gsi) gsi ≡ wired gsi
unfolding effects effect_of legacy_gsi wired
effects-legacy_gsi_self gsi h = elim (Bool-cases (ltb gsi 8)) [
  | inl t ↦
      let below : ltb gsi 16 ≡ true = ground (arith, t) in
      let same : (gsi == gsi) ≡ true = ground arith in
      let at : gsi % 8 ≡ gsi = ground (arith, t) in rw (t, below, same, at) refl
  | inr t ↦ elim (Bool-cases (ltb gsi 16)) [
    | inl u ↦
        let same : (gsi == gsi) ≡ true = ground arith in
        let at : gsi % 8 ≡ gsi - 8 = ground (arith, t, u) in rw (t, u, same, at) refl
    | inr u ↦
        let same : (gsi == gsi) ≡ true = ground arith in
        let last : ltb gsi 24 ≡ true = ground (arith, h) in rw (t, u, same, last) refl
  ]
]

effects-legacy_gsi_apart : (k gsi : ℕ) → (k == gsi) ≡ false → effects (legacy_gsi k) gsi ≡ []
unfolding effects legacy_gsi
effects-legacy_gsi_apart k gsi h = elim (Bool-cases (ltb k 16)) [
  | inl t ↦ rw (t, h) refl
  | inr t ↦ rw (t, h) refl
]

effects-legacy_from :
    (turns start gsi : ℕ)
    → start + turns ≤ 24
    → effects (legacy_from turns start) gsi
      ≡ (if leb start gsi && ltb gsi (start + turns) then wired gsi else [])
unfolding legacy_from effects
effects-legacy_from zero start gsi h =
    let out : (leb start gsi && ltb gsi (start + 0)) ≡ false = ground arith in rw out refl
effects-legacy_from (suc turns) start gsi h =
    effects-append (legacy_gsi start) (legacy_from turns (start + 1)) gsi
    ∙ ap (λ l. effects (legacy_gsi start) gsi ++ l)
        (effects-legacy_from turns (start + 1) gsi (omega arith))
    ∙ elim (Bool-cases (start == gsi)) [
      | inl t ↦
          let same : start ≡ gsi = ground (arith, t) in
          let past : (leb (start + 1) gsi && ltb gsi (start + 1 + turns)) ≡ false =
            ground (arith, same) in
          let in_range : (leb start gsi && ltb gsi (start + suc turns)) ≡ true =
            ground (arith, same) in
          rw (past, in_range)
            (append_nil (effects (legacy_gsi start) gsi)
              ∙ ap (λ k. effects (legacy_gsi k) gsi) same
              ∙ effects-legacy_gsi_self gsi (omega (arith, same, h)))
      | inr t ↦
          let range : (leb (start + 1) gsi && ltb gsi (start + 1 + turns))
              ≡ (leb start gsi && ltb gsi (start + suc turns)) =
            ground (arith, t) in
          rw (effects-legacy_gsi_apart start gsi t, range) refl
    ]
  where
    append_nil : (l : List Effect) → l ++ [] ≡ l
    append_nil [] = refl
    append_nil (x ∷ xs) = ap (λ r. x ∷ r) (append_nil xs)

effects-legacy_entries : (gsi : ℕ) → effects legacy_entries gsi ≡ wired gsi
unfolding legacy_entries wired
effects-legacy_entries gsi =
    effects-legacy_from 24 0 gsi (omega arith) ∙ elim (Bool-cases (ltb gsi 24)) [
      | inl t ↦ let low : leb 0 gsi ≡ true = ground arith in rw (low, t) refl
      | inr t ↦
          let a : ltb gsi 8 ≡ false = ground (arith, t) in
          let b : ltb gsi 16 ≡ false = ground (arith, t) in
          let low : leb 0 gsi ≡ true = ground arith in rw (low, t, a, b) refl
    ]

pub table_of-Carries : (s : State) → Carries s.routes (table_of s)
unfolding table_of Carries
table_of-Carries s gsi =
    effects-append legacy_entries (map msi_entry s.routes) gsi
    ∙ ap (λ l. l ++ effects (map msi_entry s.routes) gsi) (effects-legacy_entries gsi)
    ∙ ap (λ l. wired gsi ++ l) (effects-msi_entry s.routes gsi)
