-- ===== src/Window/Accounting.antt =====
-- What the quota's numbers mean over any sequence of mappings and releases.
use mathlib.Core.Option.{some-injective, none-ne-some}
use nesbox.Base.{
  ℕ, zero, suc, ◌+◌, ◌≤◌, ◌<◌, ◌≡◌, refl, sym, ap, subst, ◌∙◌, ◌⊎◌, inl, inr, List, [], ◌∷◌, Option,
  none, some, arith, leb, ltb, ◌==◌, not, ◌&&◌, saturating_add64, Bool-cases, Option-cases, length,
  u64_mod, u32_mod,
}
use nesbox.Window.{
  WindowQuota, Refused, bytes, count, Answer, granted, refused, publish, refuse, charge, try_map,
  release,
}

abbrev pub sum : List ℕ → ℕ
sum [] = 0
sum (n ∷ ns) = n + sum ns

-- What the guest does: a mapping of some size is asked for, or the live mapping at some place in the
-- list of them is released.
pub data Request : Type 0 where
  ask : ℕ → Request
  give_back : ℕ → Request

-- The mapping at a place, and the others.
abbrev pub taken : List ℕ → ℕ → Option (ℕ × List ℕ)
taken [] i = none
taken (n ∷ ns) zero = some (n, ns)
taken (n ∷ ns) (suc i) = elim (taken ns i) [ none ↦ none | some p ↦ some (p.0, n ∷ p.1) ]

-- The quota and the sizes of the live mappings.
pub record Session : Type 0 where
  pub quota : WindowQuota
  pub live : List ℕ

abbrev answered : Session → ℕ → WindowQuota × Answer → Session
answered s size (q, granted) = record { quota = q; live = size ∷ s.live }
answered s size (q, refused why) = record { quota = q; live = s.live }

abbrev returned : Session → Option (ℕ × List ℕ) → Session
returned s none = s
returned s (some (size, live)) = record { quota = release s.quota size; live = live }

pub serve : Session → Request → Session
serve s (ask size) = answered s size (try_map s.quota size)
serve s (give_back i) = returned s (taken s.live i)

pub serve_all : Session → List Request → Session
serve_all s [] = s
serve_all s (r ∷ rs) = serve_all (serve s r) rs

-- The numbers agree with the live mappings, stay under the limits that are set, and what is published
-- is what the quota holds.
pub record IsBalanced (s : Session) : Type 0 where
  pub used_sum : s.quota.used ≡ sum s.live
  pub mappings_length : s.quota.mappings ≡ length s.live
  pub under_limit : s.quota.used ≤ s.quota.limit_bytes
  pub under_count : (s.quota.max_mappings ≡ 0) ⊎ (s.quota.mappings ≤ s.quota.max_mappings)
  pub under_peak : s.quota.used ≤ s.quota.peak
  pub peak_under : s.quota.peak ≤ s.quota.limit_bytes
  pub limit_set : (0 < s.quota.limit_bytes) × (s.quota.limit_bytes + 1 < u64_mod)

taken_lem :
    (ns : List ℕ) (i : ℕ) (p : ℕ × List ℕ)
    → taken ns i ≡ some p
    → (sum ns ≡ p.0 + sum p.1) × (length ns ≡ suc (length p.1))
taken_lem [] i p e = absurd (grind arith)
taken_lem (n ∷ ns) zero p e =
    subst (λ q. (n + sum ns ≡ q.0 + sum q.1) × (suc (length ns) ≡ suc (length q.1)))
      (some-injective (n, ns) p e) (refl, refl)
taken_lem (n ∷ ns) (suc i) p e = elim (Option-cases (taken ns i)) [
  | inl out ↦ absurd (none-ne-some p (sym (ap step out) ∙ e))
  | inr (q, found) ↦
      let t = taken_lem ns i q found in
      subst (λ r. (n + sum ns ≡ r.0 + sum r.1) × (suc (length ns) ≡ suc (length r.1)))
        (some-injective (q.0, n ∷ q.1) p (sym (ap step found) ∙ e)) (omega arith, omega arith)
]
  where
    step : Option (ℕ × List ℕ) → Option (ℕ × List ℕ)
    step o = elim o [ none ↦ none | some p ↦ some (p.0, n ∷ p.1) ]

-- A request is refused, which changes only the refusals and the gauges, or charged within the limits.
pub try_map-cases :
    (q : WindowQuota) (size : ℕ)
    → ((why : Refused) × (try_map q size ≡ (refuse q, refused why)))
      ⊎ ((try_map q size ≡ (charge q size, granted))
          × ((q.limit_bytes ≡ 0) ⊎ (saturating_add64 q.used size ≤ q.limit_bytes))
          × ((q.max_mappings ≡ 0) ⊎ (q.mappings < q.max_mappings)))
unfolding try_map
try_map-cases q size =
    elim (Bool-cases
      (not (q.limit_bytes == 0) && ltb q.limit_bytes (saturating_add64 q.used size))) [
        | inl over ↦ rw over (inl (bytes size q.used q.limit_bytes, refl))
        | inr fits ↦
            elim (Bool-cases (not (q.max_mappings == 0) && leb q.max_mappings q.mappings)) [
              | inl over ↦ rw (fits, over) (inl (count q.mappings q.max_mappings, refl))
              | inr room ↦ rw (fits, room) (inr (refl, ground arith, ground arith))
            ]
      ]

pub try_map-IsBalanced :
    (s : Session) (size : ℕ)
    → IsBalanced s
    → s.quota.mappings + 1 < u32_mod
    → IsBalanced (serve s (ask size))
unfolding serve charge refuse publish
try_map-IsBalanced s size b room = elim (try_map-cases s.quota size) [
  | inl (why, e) ↦ rw e (record {
    used_sum = b.used_sum;
    mappings_length = b.mappings_length;
    under_limit = b.under_limit;
    under_count = b.under_count;
    under_peak = b.under_peak;
    peak_under = b.peak_under;
    limit_set = b.limit_set;
  })
  | inr (e, bytes_fit, count_fits) ↦ rw e (record {
    used_sum = ground (arith, b);
    mappings_length = ground (arith, b);
    under_limit = ground (arith, b);
    under_count = ground (arith, b);
    under_peak = ground (arith, b);
    peak_under = ground (arith, b);
    limit_set = b.limit_set;
  })
]

pub release-IsBalanced : (s : Session) (i : ℕ) → IsBalanced s → IsBalanced (serve s (give_back i))
unfolding serve release publish
release-IsBalanced s i b = elim (Option-cases (taken s.live i)) [
  | inl e ↦ rw e b
  | inr (p, e) ↦
      let t = taken_lem s.live i p e in
      rw e (record {
        used_sum = ground (arith, b);
        mappings_length = ground (arith, b);
        under_limit = ground (arith, b);
        under_count = ground (arith, b);
        under_peak = ground (arith, b);
        peak_under = b.peak_under;
        limit_set = b.limit_set;
      })
]

serve-mappings-le : (s : Session) (r : Request) → (serve s r).quota.mappings ≤ s.quota.mappings + 1
unfolding serve charge refuse publish release
serve-mappings-le s (ask size) = elim (try_map-cases s.quota size) [
  | inl (why, e) ↦ rw e (omega arith)
  | inr (e, bytes_fit, count_fits) ↦ rw e (omega arith)
]
serve-mappings-le s (give_back i) = elim (Option-cases (taken s.live i)) [
  | inl e ↦ rw e (omega arith)
  | inr (p, e) ↦ rw e (omega arith)
]

serve-IsBalanced :
    (s : Session) (r : Request)
    → IsBalanced s
    → s.quota.mappings + 1 < u32_mod
    → IsBalanced (serve s r)
serve-IsBalanced s (ask size) b room = try_map-IsBalanced s size b room
serve-IsBalanced s (give_back i) b room = release-IsBalanced s i b

-- Whatever a guest asks for and releases, in fewer than 2^32 requests with a byte limit set, the bytes
-- charged are the sum of the live mappings and stay under that limit, as the peak does, and the count
-- is their number and stays under its own limit where there is one.
pub serve_all-IsBalanced :
    (s : Session) (rs : List Request)
    → IsBalanced s
    → s.quota.mappings + length rs < u32_mod
    → IsBalanced (serve_all s rs)
unfolding serve_all
serve_all-IsBalanced s [] b room = b
serve_all-IsBalanced s (r ∷ rs) b room =
    let more = serve-mappings-le s r in
    serve_all-IsBalanced (serve s r) rs (serve-IsBalanced s r b (omega arith)) (omega arith)
