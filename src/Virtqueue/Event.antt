-- ===== src/Virtqueue/Event.antt =====
-- Notification suppression: the index window of EVENT_IDX and the flags that it replaces.
use nesbox.Base.{
  ℕ, ◌<◌, ◌≡◌, ◌↔◌, ◌≢◌, ◌⊎◌, inl, inr, true, false, some, arith, u16_mod, wrapping_add16,
  wrapping_sub16, has_bit, Bool-cases, Option-cases,
}
use nesbox.Guest.{GuestMemory}
use nesbox.Virtqueue.{
  QState, vring_need_event, used_needs_interrupt, avail_wants_interrupt, used_event_addr,
}

-- The other side wants a notification exactly when the index that it named is one of the `n`
-- indices old, old + 1, ..., old + n - 1 (modulo 2^16) that a batch of `n` entries passed.
pub vring_need_event_iff :
    (event old n : ℕ)
    → event < u16_mod
    → old < u16_mod
    → n < u16_mod
    → (vring_need_event event (wrapping_add16 old n) old ≡ true)
      ↔ ((k : ℕ) × (k < n) × (event ≡ wrapping_add16 old k))
unfolding vring_need_event
vring_need_event_iff event old n he ho hn =
    (λ h. (wrapping_sub16 event old, ground arith, ground arith), λ (k, hk, e). ground arith)

module _ (g : GuestMemory) where
  open g use {Mem, read, write, read-write_self, read-write_apart}

  -- An interrupt is left out only where the driver can be seen not to want it: with EVENT_IDX, its
  -- `used_event` was read and is none of the indices just published; without, the avail ring's flags
  -- were read and NO_INTERRUPT is set in them.
  pub used_needs_interrupt-false :
      (m : Mem) (q : QState) (old n : ℕ)
      → old < u16_mod
      → n < u16_mod
      → used_needs_interrupt g m q old (wrapping_add16 old n) ≡ false
      → (event : ℕ) × (((q.event_idx ≡ true)
            × (read 2 m (used_event_addr q) ≡ some event)
            × ((k : ℕ) → k < n → event ≢ wrapping_add16 old k))
          ⊎ ((q.event_idx ≡ false) × (read 2 m q.avail ≡ some event) × (has_bit event 0 ≡ true)))
  unfolding used_needs_interrupt avail_wants_interrupt
  used_needs_interrupt-false m q old n ho hn h = elim (Bool-cases q.event_idx) [
    | inl on ↦ elim (Option-cases (read 2 m (used_event_addr q))) [
      | inl e ↦ ground arith
      | inr (event, e) ↦ (event, inl (on, e, λ k hk at. absurd (missed event on e k hk at)))
    ]
    | inr off ↦ elim (Option-cases (read 2 m q.avail)) [
      | inl e ↦ ground arith
      | inr (flags, e) ↦ (flags, inr (off, e, ground arith))
    ]
  ]
    where
      missed :
          (event : ℕ)
          → q.event_idx ≡ true
          → read 2 m (used_event_addr q) ≡ some event
          → (k : ℕ) → k < n
          → event ≡ wrapping_add16 old k
          → ⊥
      missed event on e k hk at =
          let passed : vring_need_event event (wrapping_add16 old n) old ≡ true =
            (vring_need_event_iff event old n (ground arith) ho hn).1 (k, hk, at) in
          ground (arith, passed)
