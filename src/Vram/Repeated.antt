-- ===== src/Vram/Repeated.antt =====
-- What a context's end and a repeated blob id do to the total.
use nesbox.Base.{
  ℕ, ◌+◌, ◌<◌, ◌≡◌, ◌≢◌, refl, inl, inr, true, List, [], ◌∷◌, arith, ◌==◌, min, Bool-cases, u64_mod,
  All,
}
use nesbox.Vram.Ledger.{
  Pending, Live, Gauges, VramAccountant, publish, forget_context, retain_pending, retain_live,
  raise_pending, charge_all, remove_pending, insert_live, claimed, claim_blob, remove_live,
  released, release_resource, new_accountant,
}
use nesbox.Vram.Charges.{ledger, retain_pending-bytes, retain_live-bytes}
use nesbox.Vram.Covered.{IsCovered}

retain_pending-others :
    (ctx_id : ℕ) (ps : List Pending) → All (λ p. p.ctx ≢ ctx_id) (retain_pending ctx_id ps).0
unfolding retain_pending
retain_pending-others ctx_id [] = tt
retain_pending-others ctx_id (p ∷ ps) = elim (Bool-cases (p.ctx == ctx_id)) [
  | inl e ↦ rw (retain_pending, e) (retain_pending-others ctx_id ps)
  | inr e ↦ rw (retain_pending, e) ((λ f. ground arith), retain_pending-others ctx_id ps)
]

retain_live-others :
    (ctx_id : ℕ) (ls : List Live) → All (λ l. l.charge.ctx_id ≢ ctx_id) (retain_live ctx_id ls).0
unfolding retain_live
retain_live-others ctx_id [] = tt
retain_live-others ctx_id (l ∷ ls) = elim (Bool-cases (l.charge.ctx_id == ctx_id)) [
  | inl e ↦ rw (retain_live, e) (retain_live-others ctx_id ls)
  | inr e ↦ rw (retain_live, e) ((λ f. ground arith), retain_live-others ctx_id ls)
]

-- When a context goes away, no charge of it is left, pending or live, and the total falls by
-- exactly what the ledger lost, if it covered the ledger before.
pub forget_context_lem :
    (v : VramAccountant) (ctx_id : ℕ)
    → IsCovered v
    → let t = forget_context v ctx_id in
      All (λ p. p.ctx ≢ ctx_id) t.pending
      × All (λ l. l.charge.ctx_id ≢ ctx_id) t.live
      × (t.charged + ledger v ≡ v.charged + ledger t)
unfolding forget_context publish
forget_context_lem v ctx_id h =
    let p = retain_pending-bytes ctx_id v.pending in
    let l = retain_live-bytes ctx_id v.live in
    (
      retain_pending-others ctx_id v.pending,
      retain_live-others ctx_id v.live,
      ground (arith, p, l, h.covered),
    )

-- Two buffers with one blob id in a context of a new accountant, of fewer than 2^64 bytes
-- together, are both charged: after the blob is claimed and its resource released, no charge is
-- held and the smaller is still counted.
pub repeated_blob :
    (limit ctx_id blob_id resource_id x y : ℕ) (gauges : Gauges)
    → x + y < u64_mod
    → let v = charge_all ctx_id ((blob_id, x) ∷ (blob_id, y) ∷ []) (new_accountant limit gauges) in
      let t = release_resource (claim_blob v ctx_id blob_id resource_id) resource_id in
      (ledger t ≡ 0) × (t.charged ≡ min x y)
unfolding charge_all new_accountant raise_pending claim_blob remove_pending claimed insert_live
    release_resource remove_live released publish
repeated_blob limit ctx_id blob_id resource_id x y gauges h =
    let c : (ctx_id == ctx_id) ≡ true = ground arith in
    let b : (blob_id == blob_id) ≡ true = ground arith in
    let r : (resource_id == resource_id) ≡ true = ground arith in
    (rw (c, b) (rw (c, b) (rw r refl)), rw (c, b) (rw (c, b) (rw r (ground arith))))
