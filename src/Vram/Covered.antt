-- ===== src/Vram/Covered.antt =====
-- That the total charged covers the charges held, through every operation.
use nesbox.Base.{
  ℕ, ◌+◌, ◌%◌, ◌≤◌, ◌<◌, ◌≡◌, refl, sym, subst, inl, inr, List, Option, none, some, arith, ◌==◌,
  leb, saturating_add64, Bool-cases, u64_mod,
}
use nesbox.Vram.{Scan, Scanned, parsed, malformed, out_of_fuel, scan_stream}
use nesbox.Vram.Stream.{total}
use nesbox.Vram.Ledger.{
  Charge, Pending, Live, VramAccountant, publish, note_context, forget_context, charge_all, settle,
  report_peak, observed, observe_submit, remove_pending, claimed, claim_blob, remove_live, released,
  release_resource, known, watermark_step,
}
use nesbox.Vram.Charges.{
  pending_bytes, live_bytes, ledger, charge_all-le, retain_pending-bytes, retain_live-bytes,
  PendingTaken, LiveTaken, remove_pending-Taken, remove_live-Taken, insert_live-le,
}

-- Every charge held is in the total, the peak is past the total, and what is published is the truth.
pub record IsCovered (v : VramAccountant) : Type 0 where
  pub covered : ledger v ≤ v.charged
  pub in_range : v.charged < u64_mod
  pub under_peak : v.charged ≤ v.peak
  pub published :
      (v.gauges.vram_bytes ≡ v.charged)
      × (v.gauges.vram_peak_bytes ≡ v.peak)
      × (v.gauges.vram_over_budget ≡ v.over_budget)
      × (v.gauges.gtt_bytes ≡ v.gtt_charged)

-- What the device tells the accountant.
pub data Event : Type 0 where
  context_made : ℕ → ℕ → Event
  context_gone : ℕ → Event
  submitted : ℕ → List ℕ → Event
  blob_made : ℕ → ℕ → ℕ → Event
  unreferenced : ℕ → Event

pub handle : VramAccountant → Event → VramAccountant
handle v (context_made ctx_id context_init) = note_context v ctx_id context_init
handle v (context_gone ctx_id) = forget_context v ctx_id
handle v (submitted ctx_id commands) = (observe_submit v ctx_id commands).0
handle v (blob_made ctx_id blob_id resource_id) = claim_blob v ctx_id blob_id resource_id
handle v (unreferenced resource_id) = release_resource v resource_id

-- A submission does not take the total past what 64 bits hold.
abbrev pub HasRoom : VramAccountant → Event → Type 0
HasRoom v (submitted ctx_id commands) =
    (acc : Scan)
    → scan_stream v.limit v.charged commands ≡ parsed acc
    → v.charged + total acc.proposed < u64_mod
HasRoom v e = Unit {0}

note_context-IsCovered :
    (v : VramAccountant) (ctx_id init : ℕ) → IsCovered v → IsCovered (note_context v ctx_id init)
unfolding note_context
note_context-IsCovered v ctx_id init h = elim (Bool-cases (init % 256 == 6)) [
  | inl e ↦ rw e (record {
    covered = h.covered;
    in_range = h.in_range;
    under_peak = h.under_peak;
    published = h.published;
  })
  | inr e ↦ rw e h
]

forget_context-IsCovered :
    (v : VramAccountant) (ctx_id : ℕ) → IsCovered v → IsCovered (forget_context v ctx_id)
unfolding forget_context publish
forget_context-IsCovered v ctx_id h =
    let p = retain_pending-bytes ctx_id v.pending in
    let l = retain_live-bytes ctx_id v.live in
    record {
      covered = ground (arith, p, l, h.covered);
      in_range = ground (arith, h.in_range);
      under_peak = ground (arith, h.under_peak);
      published = (refl, refl, refl, refl);
    }

report_peak-IsCovered : (v : VramAccountant) → IsCovered v → IsCovered (report_peak v)
unfolding report_peak
report_peak-IsCovered v h =
    elim (Bool-cases (leb (saturating_add64 v.reported_peak (watermark_step v.limit)) v.peak)) [
      | inl e ↦ rw e (record {
        covered = h.covered;
        in_range = h.in_range;
        under_peak = h.under_peak;
        published = h.published;
      })
      | inr e ↦ rw e h
    ]

settle-IsCovered :
    (v : VramAccountant) (ctx_id : ℕ) (acc : Scan)
    → IsCovered v
    → v.charged + total acc.proposed < u64_mod
    → IsCovered (settle v ctx_id acc)
unfolding settle publish
settle-IsCovered v ctx_id acc h room =
    let all = charge_all-le ctx_id acc.proposed v room in
    report_peak-IsCovered _ (record {
      covered =
          subst
            (λ ls.
              pending_bytes (charge_all ctx_id acc.proposed v).pending + live_bytes ls
              ≤ (charge_all ctx_id acc.proposed v).charged)
            (sym all.2) (ground (arith, all.0, all.1, h.covered));
      in_range = ground (arith, all.0);
      under_peak = ground arith;
      published = (refl, refl, refl, refl);
    })

claimed-IsCovered :
    (v : VramAccountant) (resource_id : ℕ) (o : Option (Charge × List Pending))
    → PendingTaken v.pending o
    → IsCovered v
    → IsCovered (claimed v resource_id o)
unfolding claimed
claimed-IsCovered v resource_id none t h = h
claimed-IsCovered v resource_id (some (c, rest)) t h = record {
  covered = ground (arith, insert_live-le resource_id c v.live, h.covered, t);
  in_range = h.in_range;
  under_peak = h.under_peak;
  published = h.published;
}

released-IsCovered :
    (v : VramAccountant) (o : Option (Charge × List Live))
    → LiveTaken v.live o
    → IsCovered v
    → IsCovered (released v o)
unfolding released publish
released-IsCovered v none t h = h
released-IsCovered v (some (c, rest)) t h = record {
  covered = ground (arith, h.covered, t);
  in_range = ground (arith, h.in_range);
  under_peak = ground (arith, h.under_peak);
  published = (refl, refl, refl, refl);
}

observed-IsCovered :
    (v : VramAccountant) (ctx_id : ℕ) (t : Scanned)
    → IsCovered v
    → ((acc : Scan) → t ≡ parsed acc → v.charged + total acc.proposed < u64_mod)
    → IsCovered (observed v ctx_id t).0
unfolding observed
observed-IsCovered v ctx_id (parsed acc) h room = settle-IsCovered v ctx_id acc h (room acc refl)
observed-IsCovered v ctx_id (malformed why) h room = h
observed-IsCovered v ctx_id out_of_fuel h room = h

-- Whatever the device reports, the charges held stay within the total, the total within the peak, and
-- the published gauges are the accountant's numbers, as long as no submission takes the total past
-- what 64 bits hold.
pub handle-IsCovered :
    (v : VramAccountant) (e : Event) → IsCovered v → HasRoom v e → IsCovered (handle v e)
unfolding handle observe_submit claim_blob release_resource
handle-IsCovered v (context_made ctx_id init) h room = note_context-IsCovered v ctx_id init h
handle-IsCovered v (context_gone ctx_id) h room = forget_context-IsCovered v ctx_id h
handle-IsCovered v (submitted ctx_id commands) h room =
    elim (Bool-cases (known ctx_id v.drm_contexts)) [
      | inl e ↦
          rw (handle, e)
            (observed-IsCovered v ctx_id (scan_stream v.limit v.charged commands) h room)
      | inr e ↦ rw (handle, e) h
    ]
handle-IsCovered v (blob_made ctx_id blob_id resource_id) h room =
    claimed-IsCovered v resource_id (remove_pending ctx_id blob_id v.pending)
      (remove_pending-Taken ctx_id blob_id v.pending) h
handle-IsCovered v (unreferenced resource_id) h room =
    released-IsCovered v (remove_live resource_id v.live) (remove_live-Taken resource_id v.live) h
