-- ===== src/Virtqueue/Taken.antt =====
-- What `pop_avail` does to the queue when it gives a chain.
use nesbox.Base.{
  ℕ, ◌*◌, ◌%◌, ◌≡◌, ◌∙◌, sym, ap, inl, inr, false, ◌||◌, some, List, ◌==◌, add64, wrapping_add16,
  if-cases, >>=-eq-some,
}
use mathlib.Core.Option.{some_inj}
use nesbox.Guest.{GuestMemory}
use nesbox.Virtqueue.{Desc, QState, take_avail, pop_avail}

module _ (g : GuestMemory) where
  -- A queue that gives a chain has one on offer, and moves on by one.
  pub pop_avail-some :
      (m : g.Mem) (q : QState) {head : ℕ} {descs : List Desc} {q' : QState} {v : ℕ}
      → g.read 2 m (add64 q.avail 2) ≡ some v
      → pop_avail g m q ≡ some (head, descs, q')
      → ((v == q.last) ≡ false) × (q' ≡ record q { last = wrapping_add16 q.last 1 })
  unfolding pop_avail take_avail
  pop_avail-some m q {v} hv h =
      elim (if-cases ((q.size == 0) || (q.avail == 0) || (q.desc == 0)) h) [
        | inl t ↦ cc
        | inr t ↦
            let (idx, a, f) = >>=-eq-some (g.read 2 m (add64 q.avail 2)) _ t.1 in
            let same = some_inj.0 (sym hv ∙ a) in
            elim (if-cases (idx == q.last) f) [
              | inl u ↦ cc
              | inr u ↦
                  let (head, _, k) =
                    >>=-eq-some (g.read 2 m (add64 (add64 q.avail 4) (q.last % q.size * 2))) _
                      u.1 in
                  (ap (λ n. n == q.last) same ∙ u.0, sym (ap (λ r. r.2) (some_inj.0 k)))
            ]
      ]
