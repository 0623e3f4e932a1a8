-- ===== src/Blk/Worker/Terminates.antt =====
-- The inner loop of a drain ends: it takes what the driver has offered and no more.
use nesbox.Base.{
  ℕ, zero, suc, ◌+◌, ◌-◌, ◌%◌, ◌≤◌, ◌<◌, ◌≡◌, ◌∙◌, refl, sym, ap, arith, inl, inr, false, not,
  Option, none, some, ◌==◌, u16_mod, add64, wrapping_add16, if-cases, Option-cases, >>=-eq-some,
}
use mathlib.Core.Option.{some_inj}
use nesbox.Guest.{GuestMemory}
use nesbox.Virtqueue.{pop_avail}
use nesbox.Virtqueue.Taken.{pop_avail-some}
use nesbox.Blk.Disk.{Disk}
use nesbox.Blk.Worker.{Engine, can_accept}
use nesbox.Blk.Worker.Drain.{Progress, take_one, take_all}

differ : (a b : ℕ) → a ≡ b → (a == b) ≡ false → ⊥
differ a b e f = ground arith

offered_next :
    (v last turns : ℕ)
    → v < u16_mod
    → last < u16_mod
    → (v ≡ last → ⊥)
    → (v + u16_mod - last) % u16_mod ≤ suc turns
    → (v + u16_mod - wrapping_add16 last 1) % u16_mod ≤ turns
offered_next v last turns hv hl ne few = ground (arith, ne)

module _ {g : GuestMemory} {e : Engine} (host : ℕ → ℕ) (alloc : ℕ → ℕ → Option ℕ)
    (disk : Disk) where
  -- The driver has published `v`, and that stays so for as long as the loop runs.
  unfoldable pub IsSteady : ℕ → Progress g e → Type 0
  IsSteady v p =
      (n : ℕ) → g.read 2 (take_all host alloc disk n p).worker.mem (add64 p.queue.avail 2) ≡ some v

  -- What the driver has published and the device has not taken.
  unfoldable pub offered : ℕ → Progress g e → ℕ
  offered v p = (v + u16_mod - p.queue.last) % u16_mod

  take_one-moves :
      (p : Progress g e) {p' : Progress g e} (v : ℕ)
      → g.read 2 p.worker.mem (add64 p.queue.avail 2) ≡ some v
      → take_one host alloc disk p ≡ some p'
      → ((v == p.queue.last) ≡ false)
        × (p'.queue ≡ record p.queue { last = wrapping_add16 p.queue.last 1 })
  unfolding take_one
  take_one-moves p {p'} v hv h = elim (if-cases (not (can_accept p.worker)) h) [
    | inl t ↦ cc
    | inr t ↦
        let ((head, descs, q), a, f) = >>=-eq-some (pop_avail g p.worker.mem p.queue) _ t.1 in
        let s = pop_avail-some g p.worker.mem p.queue hv a in
        (s.0, sym (ap (λ r. r.queue) (some_inj.0 f)) ∙ s.1)
  ]

  IsSteady-after :
      (v : ℕ) (p p' : Progress g e)
      → IsSteady v p
      → take_one host alloc disk p ≡ some p'
      → p'.queue.avail ≡ p.queue.avail
      → IsSteady v p'
  unfolding take_all IsSteady
  IsSteady-after v p p' st h a n =
      let step : take_all host alloc disk (suc n) p ≡ take_all host alloc disk n p' =
        ap (λ o. elim o [ none ↦ p | some r ↦ take_all host alloc disk n r ]) h in
      ap (λ r. g.read 2 r.worker.mem (add64 p'.queue.avail 2)) (sym step)
      ∙ ap (λ b. g.read 2 (take_all host alloc disk (suc n) p).worker.mem (add64 b 2)) a
      ∙ st (suc n)

  -- While the index that the driver published stays put, the inner loop of a drain stops by itself
  -- after at most as many turns as there are chains on offer, fewer than 2^16.
  pub take_all-stops :
      (v turns : ℕ) (p : Progress g e)
      → v < u16_mod
      → p.queue.last < u16_mod
      → IsSteady v p
      → offered v p ≤ turns
      → take_one host alloc disk (take_all host alloc disk turns p) ≡ none
  unfolding take_all IsSteady offered
  take_all-stops v zero p hv hl st few = elim (Option-cases (take_one host alloc disk p)) [
    | inl h ↦ h
    | inr (p', h) ↦
        let m = take_one-moves p v (st 0) h in
        let same : v ≡ p.queue.last = omega arith in absurd (differ v p.queue.last same m.0)
  ]
  take_all-stops v (suc turns) p hv hl st few =
      by_turn (take_one host alloc disk p) refl (λ p'. take_all-stops v turns p' hv)
    where
      by_turn :
          (o : Option (Progress g e))
          → take_one host alloc disk p ≡ o
          → ((p' : Progress g e)
              → p'.queue.last < u16_mod
              → IsSteady v p'
              → offered v p' ≤ turns
              → take_one host alloc disk (take_all host alloc disk turns p') ≡ none)
          → take_one host alloc disk
              (elim o [ none ↦ p | some p' ↦ take_all host alloc disk turns p' ])
            ≡ none
      by_turn none h go = h
      by_turn (some p') h go =
          let m = take_one-moves p v (st 0) h in
          let last : p'.queue.last ≡ wrapping_add16 p.queue.last 1 = ap (λ q. q.last) m.1 in
          let same_ring : p'.queue.avail ≡ p.queue.avail = ap (λ q. q.avail) m.1 in
          let other : (v ≡ p.queue.last) → ⊥ = λ f. differ v p.queue.last f m.0 in
          let few' : offered v p' ≤ turns =
            rw last (offered_next v p.queue.last turns hv hl other few) in
          go p' (omega (arith, last)) (IsSteady-after v p p' st h same_ring) few'
