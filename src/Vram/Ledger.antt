-- ===== src/Vram/Ledger.antt =====
-- The accountant's ledger and its operations, from virtio-devices/src/gpu/vram.rs.
use nesbox.Base.{
  ℕ, ◌+◌, ◌-◌, ◌/◌, ◌%◌, Bool, false, List, [], ◌∷◌, Option, none, some, ◌==◌, ltb, leb, ◌||◌, ◌&&◌,
  if◌then◌else◌, min, max, saturating_add64, add64,
}
use nesbox.Vram.{Malformed, Scan, Scanned, parsed, malformed, out_of_fuel, scan_stream}

pub record Charge : Type 0 where
  pub bytes : ℕ
  pub ctx_id : ℕ

-- A charge before a resource has its buffer: the context and the blob id are its key.
pub record Pending : Type 0 where
  pub ctx : ℕ
  pub blob_id : ℕ
  pub charge : Charge

-- A charge that the guest can free by its resource id.
pub record Live : Type 0 where
  pub resource_id : ℕ
  pub charge : Charge

-- The counters of the metrics surface that the accountant sets.
pub record Gauges : Type 0 where
  pub vram_bytes : ℕ
  pub vram_peak_bytes : ℕ
  pub vram_over_budget : ℕ
  pub gtt_bytes : ℕ

pub record VramAccountant : Type 0 where
  pub limit : ℕ
  pub charged : ℕ
  pub pending : List Pending
  pub live : List Live
  pub drm_contexts : List ℕ
  pub gtt_charged : ℕ
  pub peak : ℕ
  pub over_budget : ℕ
  pub reported_peak : ℕ
  pub gauges : Gauges

pub data Notice : Type 0 where
  over_limit : ℕ → ℕ → ℕ → Notice
  malformed_stream : Malformed → Notice

unfoldable pub watermark_step : ℕ → ℕ
watermark_step limit = max 4194304 (min (limit / 8) 67108864)

unfoldable pub new_accountant : ℕ → Gauges → VramAccountant
new_accountant limit_bytes gauges = record {
  limit = limit_bytes;
  charged = 0;
  pending = [];
  live = [];
  drm_contexts = [];
  gtt_charged = 0;
  peak = 0;
  over_budget = 0;
  reported_peak = 0;
  gauges = gauges;
}

unfoldable pub publish : VramAccountant → VramAccountant
publish v = record v {
  gauges = record {
    vram_bytes = v.charged;
    vram_peak_bytes = v.peak;
    vram_over_budget = v.over_budget;
    gtt_bytes = v.gtt_charged;
  };
}

pub known : ℕ → List ℕ → Bool
known x [] = false
known x (y ∷ ys) = x == y || known x ys

pub without : ℕ → List ℕ → List ℕ
without x [] = []
without x (y ∷ ys) = if x == y then without x ys else y ∷ without x ys

-- 6 is the capset whose contexts send command streams, in the low byte of `context_init`.
unfoldable pub note_context : VramAccountant → ℕ → ℕ → VramAccountant
unfolding known
note_context v ctx_id context_init =
    if context_init % 256 == 6
    then record v {
      drm_contexts =
          if known ctx_id v.drm_contexts then v.drm_contexts else ctx_id ∷ v.drm_contexts;
    }
    else v

-- `retain` on the pending charges: those of other contexts, and the bytes of this one's.
unfoldable pub retain_pending : ℕ → List Pending → List Pending × ℕ
retain_pending ctx_id [] = ([], 0)
retain_pending ctx_id (p ∷ ps) =
    let rest = retain_pending ctx_id ps in
    if p.ctx == ctx_id then (rest.0, p.charge.bytes + rest.1) else (p ∷ rest.0, rest.1)

-- `retain` on the live charges.
unfoldable pub retain_live : ℕ → List Live → List Live × ℕ
retain_live ctx_id [] = ([], 0)
retain_live ctx_id (l ∷ ls) =
    let rest = retain_live ctx_id ls in
    if l.charge.ctx_id == ctx_id then (rest.0, l.charge.bytes + rest.1) else (l ∷ rest.0, rest.1)

unfoldable pub forget_context : VramAccountant → ℕ → VramAccountant
unfolding retain_pending retain_live publish without
forget_context v ctx_id =
    let p = retain_pending ctx_id v.pending in
    let l = retain_live ctx_id v.live in
    let freed = p.1 + l.1 in
    let u = publish (record v {
      pending = p.0;
      live = l.0;
      charged = if ltb 0 freed then v.charged - freed else v.charged;
    }) in
    record u { drm_contexts = without ctx_id v.drm_contexts }

-- The entry of the key, made when there is none, raised to the larger of its charge and the new one.
unfoldable pub raise_pending : ℕ → ℕ → ℕ → List Pending → List Pending
raise_pending ctx_id blob_id bytes [] =
    record {
      ctx = ctx_id;
      blob_id = blob_id;
      charge = record { bytes = max 0 bytes; ctx_id = ctx_id };
    }
    ∷ []
raise_pending ctx_id blob_id bytes (p ∷ ps) =
    let rest = raise_pending ctx_id blob_id bytes ps in
    if p.ctx == ctx_id && p.blob_id == blob_id
    then record p { charge = record { bytes = max p.charge.bytes bytes; ctx_id = p.charge.ctx_id } }
      ∷ ps
    else p ∷ rest

unfoldable pub charge_all : ℕ → List (ℕ × ℕ) → VramAccountant → VramAccountant
unfolding raise_pending
charge_all ctx_id [] v = v
charge_all ctx_id ((blob_id, bytes) ∷ ps) v = charge_all ctx_id ps (record v {
  pending = raise_pending ctx_id blob_id bytes v.pending;
  charged = saturating_add64 v.charged bytes;
})

unfoldable pub report_peak : VramAccountant → VramAccountant
unfolding watermark_step
report_peak v =
    let step = watermark_step v.limit in
    if leb (saturating_add64 v.reported_peak step) v.peak
    then record v { reported_peak = v.peak - v.peak % step }
    else v

unfoldable pub settle : VramAccountant → ℕ → Scan → VramAccountant
unfolding charge_all publish report_peak
settle v ctx_id acc =
    let u = charge_all ctx_id acc.proposed v in
    report_peak (
      publish (record u {
        gtt_charged = saturating_add64 v.gtt_charged acc.proposed_gtt;
        over_budget = add64 v.over_budget acc.over_count;
        peak = max v.peak u.charged;
      }))

abbrev pub notice_of : Option (ℕ × ℕ × ℕ) → Option Notice
notice_of none = none
notice_of (some (requested, charged, limit)) = some (over_limit requested charged limit)

-- What the end of the walk does to the accountant; it never runs out of fuel.
unfoldable pub observed : VramAccountant → ℕ → Scanned → VramAccountant × Option Notice
unfolding settle
observed v ctx_id (parsed acc) = (settle v ctx_id acc, notice_of acc.over)
observed v ctx_id (malformed why) = (v, some (malformed_stream why))
observed v ctx_id out_of_fuel = (v, none)

unfoldable pub observe_submit : VramAccountant → ℕ → List ℕ → VramAccountant × Option Notice
unfolding known observed
observe_submit v ctx_id commands =
    if known ctx_id v.drm_contexts
    then observed v ctx_id (scan_stream v.limit v.charged commands)
    else (v, none)

unfoldable pub remove_pending : ℕ → ℕ → List Pending → Option (Charge × List Pending)
remove_pending ctx_id blob_id [] = none
remove_pending ctx_id blob_id (p ∷ ps) =
    if p.ctx == ctx_id && p.blob_id == blob_id
    then some (p.charge, ps)
    else elim (remove_pending ctx_id blob_id ps) [ none ↦ none | some r ↦ some (r.0, p ∷ r.1) ]

unfoldable pub insert_live : ℕ → Charge → List Live → List Live
insert_live resource_id charge [] = record { resource_id = resource_id; charge = charge } ∷ []
insert_live resource_id charge (l ∷ ls) =
    let rest = insert_live resource_id charge ls in
    if l.resource_id == resource_id
    then record { resource_id = resource_id; charge = charge } ∷ ls
    else l ∷ rest

unfoldable pub claimed : VramAccountant → ℕ → Option (Charge × List Pending) → VramAccountant
unfolding insert_live
claimed v resource_id none = v
claimed v resource_id (some (charge, pending)) = record v {
  pending = pending;
  live = insert_live resource_id charge v.live;
}

unfoldable pub claim_blob : VramAccountant → ℕ → ℕ → ℕ → VramAccountant
unfolding remove_pending claimed
claim_blob v ctx_id blob_id resource_id =
    claimed v resource_id (remove_pending ctx_id blob_id v.pending)

unfoldable pub remove_live : ℕ → List Live → Option (Charge × List Live)
remove_live resource_id [] = none
remove_live resource_id (l ∷ ls) =
    if l.resource_id == resource_id
    then some (l.charge, ls)
    else elim (remove_live resource_id ls) [ none ↦ none | some r ↦ some (r.0, l ∷ r.1) ]

unfoldable pub released : VramAccountant → Option (Charge × List Live) → VramAccountant
unfolding publish
released v none = v
released v (some (charge, live)) =
    publish (record v { live = live; charged = v.charged - charge.bytes })

unfoldable pub release_resource : VramAccountant → ℕ → VramAccountant
unfolding remove_live released
release_resource v resource_id = released v (remove_live resource_id v.live)
