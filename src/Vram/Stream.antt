-- ===== src/Vram/Stream.antt =====
-- What the walk over a command stream accepts and counts.
use mathlib.Core.Option.{some-ne-none}
use nesbox.Base.{
  ℕ, zero, suc, ◌+◌, ◌-◌, ◌≤◌, ◌<◌, ◌≡◌, ◌≢◌, refl, sym, ◌∙◌, ◌⊎◌, inl, inr, List, [], ◌∷◌, ◌++◌,
  none, arith, ◌==◌, ltb, ◌||◌, not, length, drop, saturating_add64, has_bit, Bool-cases, u64_mod,
  Option-cases, ◌%◌,
}
use nesbox.Vram.{
  rd, Scan, propose, count_buffer, Round, finish, refuse, next, gem_new, read_record, round,
  Scanned, parsed, malformed, out_of_fuel, scan, scan_stream,
}

-- What the bytes of the proposed buffers come to.
abbrev pub total : List (ℕ × ℕ) → ℕ
total [] = 0
total (p ∷ ps) = p.1 + total ps

-- The running charge is what was charged before and what is proposed, and the limit is reported as
-- passed exactly when the running charge is past it.
pub record IsTallied (limit charged : ℕ) (acc : Scan) : Type 0 where
  pub tally : acc.tentative ≡ saturating_add64 charged (total acc.proposed)
  pub told :
      (acc.over ≡ none) × (acc.tentative ≤ limit) ⊎ (acc.over ≢ none) × (limit < acc.tentative)

total-append : (ps : List (ℕ × ℕ)) (p : ℕ × ℕ) → total (ps ++ p ∷ []) ≡ total ps + p.1
total-append [] p = omega arith
total-append (q ∷ ps) p = ground (arith, total-append ps p)

propose-IsTallied :
    (limit charged blob_id size : ℕ) (acc : Scan)
    → IsTallied limit charged acc
    → IsTallied limit charged (propose limit blob_id size acc)
unfolding propose
propose-IsTallied limit charged blob_id size acc h = record {
  tally = ground (arith, h.tally, total-append acc.proposed (blob_id, size));
  told = elim (Option-cases acc.over) [
    | inl e ↦ elim (Bool-cases (ltb limit (saturating_add64 acc.tentative size))) [
      | inl past ↦ rw (e, past) (inr (some-ne-none _, ground arith))
      | inr fits ↦ rw (e, fits) (inl (refl, ground arith))
    ]
    | inr (n, e) ↦ elim h.told [
      | inl (unset, le) ↦ absurd (some-ne-none n (sym e ∙ unset))
      | inr (set, lt) ↦ rw e (inr (some-ne-none n, ground (arith, h.tally)))
    ]
  ];
}

count_buffer-IsTallied :
    (limit charged blob_id size heap : ℕ) (acc : Scan)
    → IsTallied limit charged acc
    → IsTallied limit charged (count_buffer limit blob_id size heap acc)
unfolding count_buffer
count_buffer-IsTallied limit charged blob_id size heap acc h = elim (Bool-cases (has_bit heap 2)) [
  | inl vram ↦ rw vram (propose-IsTallied limit charged blob_id size acc h)
  | inr other ↦ elim (Bool-cases (has_bit heap 1)) [
    | inl gtt ↦ rw (other, gtt) (record { tally = h.tally; told = h.told })
    | inr neither ↦ rw (other, neither) h
  ]
]

-- What a round that goes on has done.
abbrev Goes : ℕ → ℕ → List ℕ → Round → Type 0
Goes limit charged rest finish = length rest < 16
Goes limit charged rest (refuse why) = Unit {0}
Goes limit charged rest (next len acc) =
    (16 ≤ len) × (len ≤ length rest) × (len % 8 ≡ 0) × IsTallied limit charged acc

gem_new-Goes :
    (limit charged : ℕ) (rest : List ℕ) (len : ℕ) (acc : Scan)
    → (16 ≤ len) × (len ≤ length rest) × (len % 8 ≡ 0)
    → IsTallied limit charged acc
    → Goes limit charged rest (gem_new limit rest len acc)
unfolding gem_new
gem_new-Goes limit charged rest len acc (a, b, c) h = elim (Bool-cases (ltb len 44)) [
  | inl e ↦ rw e tt
  | inr e ↦ elim (Option-cases (rd 8 rest 16)) [
    | inl f ↦ rw (e, f) tt
    | inr (blob_id, f) ↦ elim (Option-cases (rd 8 rest 24)) [
      | inl g ↦ rw (e, f, g) tt
      | inr (size, g) ↦ elim (Option-cases (rd 4 rest 40)) [
        | inl i ↦ rw (e, f, g, i) tt
        | inr (heap, i) ↦
            rw (e, f, g, i) (a, b, c, count_buffer-IsTallied limit charged blob_id size heap acc h)
      ]
    ]
  ]
]

read_record-Goes :
    (limit charged : ℕ) (rest : List ℕ) (cmd len : ℕ) (acc : Scan)
    → IsTallied limit charged acc
    → Goes limit charged rest (read_record limit rest cmd len acc)
unfolding read_record
read_record-Goes limit charged rest cmd len acc h =
    elim (Bool-cases (ltb len 16 || ltb (length rest) len || not (len % 8 == 0))) [
      | inl e ↦ rw e tt
      | inr e ↦
          let fits : (16 ≤ len) × (len ≤ length rest) × (len % 8 ≡ 0) =
            (ground arith, ground arith, ground arith) in
          elim (Bool-cases (cmd == 2)) [
            | inl c ↦ rw (e, c) (gem_new-Goes limit charged rest len acc fits h)
            | inr c ↦ rw (e, c) (fits.0, fits.1, fits.2, h)
          ]
    ]

round-Goes :
    (limit charged : ℕ) (rest : List ℕ) (acc : Scan)
    → IsTallied limit charged acc
    → Goes limit charged rest (round limit rest acc)
unfolding round
round-Goes limit charged rest acc h = elim (Bool-cases (ltb (length rest) 16)) [
  | inl e ↦ rw e (ground arith)
  | inr e ↦ elim (Option-cases (rd 4 rest 0)) [
    | inl f ↦ rw (e, f) tt
    | inr (cmd, f) ↦ elim (Option-cases (rd 4 rest 4)) [
      | inl g ↦ rw (e, f, g) tt
      | inr (len, g) ↦ rw (e, f, g) (read_record-Goes limit charged rest cmd len acc h)
    ]
  ]
]

-- How the walk may end over what is left of the stream.
abbrev pub Ends : ℕ → ℕ → List ℕ → Scanned → Type 0
Ends limit charged rest (parsed acc) = (length rest % 8 ≡ 0) × IsTallied limit charged acc
Ends limit charged rest (malformed why) = Unit {0}
Ends limit charged rest out_of_fuel = zero ≡ 1

length-drop : (n : ℕ) (xs : List ℕ) → length (drop n xs) ≡ length xs - n
length-drop zero xs = omega arith
length-drop (suc n) [] = omega arith
length-drop (suc n) (x ∷ xs) = ground (arith, length-drop n xs)

scan-Ends :
    (fuel limit charged : ℕ) (rest : List ℕ) (acc : Scan)
    → length rest < fuel
    → IsTallied limit charged acc
    → Ends limit charged rest (scan fuel limit rest acc)
unfolding scan
scan-Ends zero limit charged rest acc enough h = absurd (omega arith)
scan-Ends (suc fuel) limit charged rest acc enough h =
    after (round limit rest acc) refl (round-Goes limit charged rest acc h)
      (λ len acc2. scan-Ends fuel limit charged (drop len rest) acc2)
  where
    after :
        (r : Round)
        → round limit rest acc ≡ r
        → Goes limit charged rest r
        → ((len : ℕ) (acc2 : Scan)
            → length (drop len rest) < fuel
            → IsTallied limit charged acc2
            → Ends limit charged (drop len rest) (scan fuel limit (drop len rest) acc2))
        → Ends limit charged rest (scan (suc fuel) limit rest acc)
    after finish e g further = elim (Bool-cases (length rest == 0)) [
      | inl f ↦ rw (scan, e, f) (ground arith, h)
      | inr f ↦ rw (scan, e, f) tt
    ]
    after (refuse why) e g further = rw (scan, e) tt
    after (next len acc2) e g further =
        let left = length-drop len rest in
        rw (scan, e)
          (whole (scan fuel limit (drop len rest) acc2) (further len acc2 (omega arith) g.3))
      where
        whole : (t : Scanned) → Ends limit charged (drop len rest) t → Ends limit charged rest t
        whole (parsed acc3) (m, t) = (let left = length-drop len rest in omega arith, t)
        whole (malformed why) m = tt
        whole out_of_fuel m = m

-- From a charge within a limit below 2^64, the walk over a command stream comes to an end. When it
-- accepts the stream, the stream's length is a multiple of 8, the running charge is what was
-- charged and what the proposed buffers come to, held at 2^64 - 1, and the limit is reported as
-- passed exactly when that is past it.
pub scan_stream-Ends :
    (limit charged : ℕ) (commands : List ℕ)
    → charged ≤ limit
    → limit < u64_mod
    → Ends limit charged commands (scan_stream limit charged commands)
unfolding scan_stream
scan_stream-Ends limit charged commands h bound =
    scan-Ends (suc (length commands)) limit charged commands
      (record { proposed = []; proposed_gtt = 0; tentative = charged; over = none; over_count = 0 })
      (omega arith) (record { tally = ground arith; told = inl (refl, h) })
