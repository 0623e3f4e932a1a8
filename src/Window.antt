-- ===== src/Window.antt =====
-- The quota on a guest's host-visible window of virtio-devices/src/gpu/window.rs, and the gauges that
-- it publishes. A release sees the size that the mapping was charged for.
pub mod Accounting
mod Tests
use nesbox.Base.{
  ℕ, ◌+◌, ◌-◌, ◌%◌, ◌≡◌, Bool, true, false, leb, ltb, ◌==◌, not, ◌&&◌, if◌then◌else◌, max,
  saturating_add64, u32_mod, u64_mod,
}

-- The four gauges of the device's counters that the quota sets.
pub record Gauges : Type 0 where
  pub window_bytes : ℕ
  pub window_peak_bytes : ℕ
  pub window_mappings : ℕ
  pub window_refusals : ℕ

-- A limit of 0 means unbounded.
pub record WindowQuota : Type 0 where
  pub limit_bytes : ℕ
  pub max_mappings : ℕ
  pub used : ℕ
  pub mappings : ℕ
  pub peak : ℕ
  pub refusals : ℕ
  pub gauges : Gauges

pub data Refused : Type 0 where
  bytes : ℕ → ℕ → ℕ → Refused
  count : ℕ → ℕ → Refused

pub data Answer : Type 0 where
  granted : Answer
  refused : Refused → Answer

unfoldable pub publish : WindowQuota → WindowQuota
publish q = record q {
  gauges = record {
    window_bytes = q.used;
    window_peak_bytes = q.peak;
    window_mappings = q.mappings;
    window_refusals = q.refusals;
  };
}

pub new_quota : ℕ → ℕ → Gauges → WindowQuota
new_quota limit_bytes max_mappings gauges = record {
  limit_bytes = limit_bytes;
  max_mappings = max_mappings;
  used = 0;
  mappings = 0;
  peak = 0;
  refusals = 0;
  gauges = gauges;
}

unfoldable pub refuse : WindowQuota → WindowQuota
unfolding publish
refuse q = publish (record q { refusals = (q.refusals + 1) % u64_mod })

unfoldable pub charge : WindowQuota → ℕ → WindowQuota
unfolding publish
charge q size =
    let used = saturating_add64 q.used size in
    publish
      (record q { used = used; mappings = (q.mappings + 1) % u32_mod; peak = max q.peak used })

pub try_map : WindowQuota → ℕ → WindowQuota × Answer
unfolding refuse charge
try_map q size =
    if not (q.limit_bytes == 0) && ltb q.limit_bytes (saturating_add64 q.used size)
    then (refuse q, refused (bytes size q.used q.limit_bytes))
    else if not (q.max_mappings == 0) && leb q.max_mappings q.mappings
    then (refuse q, refused (count q.mappings q.max_mappings))
    else (charge q size, granted)

unfoldable pub release : WindowQuota → ℕ → WindowQuota
unfolding publish
release q size = publish (record q { used = q.used - size; mappings = q.mappings - 1 })
