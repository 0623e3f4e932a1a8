-- ===== src/Window/Tests.antt =====
-- A quota of 100 bytes and any number of mappings, from the start.
use nesbox.Base.{◌≡◌, refl, inl, [], arith}
use nesbox.Window.{new_quota}
use nesbox.Window.Accounting.{Session, IsBalanced}

abbrev start : Session
start = record {
  quota = record {
    limit_bytes = 100;
    max_mappings = 0;
    used = 0;
    mappings = 0;
    peak = 0;
    refusals = 0;
    gauges = record {
      window_bytes = 0;
      window_peak_bytes = 0;
      window_mappings = 0;
      window_refusals = 0;
    };
  };
  live = [];
}

new_quota_test : new_quota 100 0 start.quota.gauges ≡ start.quota
unfolding new_quota
new_quota_test = refl

balanced : IsBalanced start
balanced = record {
  used_sum = refl;
  mappings_length = refl;
  under_limit = omega arith;
  under_count = inl refl;
  under_peak = omega arith;
  peak_under = omega arith;
  limit_set = (omega arith, omega arith);
}
