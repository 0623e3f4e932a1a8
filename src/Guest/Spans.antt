-- ===== src/Guest/Spans.antt =====
-- Runs of guest addresses.
use nesbox.Base.{
  ℕ, zero, suc, ◌+◌, ◌-◌, ◌≤◌, ◌≡◌, ◌∙◌, refl, ap, arith, List, [], ◌∷◌, ◌++◌, length, drop,
}

-- The `n` addresses from `base` on.
unfoldable pub span : ℕ → ℕ → List ℕ
span base zero = []
span base (suc n) = base ∷ span (base + 1) n

pub length-span : (base n : ℕ) → length (span base n) ≡ n
unfolding span
length-span base zero = refl
length-span base (suc n) = ap suc (length-span (base + 1) n)

pub drop-append_past :
    (xs ys : List ℕ) (n : ℕ) → length xs ≤ n → drop n (xs ++ ys) ≡ drop (n - length xs) ys
drop-append_past [] ys n h = ap (λ k. drop k ys) (omega arith)
drop-append_past (x ∷ xs) ys zero h = absurd (omega arith)
drop-append_past (x ∷ xs) ys (suc n) h =
    drop-append_past xs ys n (omega arith) ∙ ap (λ k. drop k ys) (omega arith)

pub drop-span :
    (base len n : ℕ) (ys : List ℕ)
    → n ≤ len
    → drop n (span base len ++ ys) ≡ span (base + n) (len - n) ++ ys
unfolding span
drop-span base len zero ys h =
    ap (λ b. b ++ ys) (ap (λ b. span b len) (omega arith) ∙ ap (span (base + 0)) (omega arith))
drop-span base zero (suc n) ys h = absurd (omega arith)
drop-span base (suc len) (suc n) ys h =
    drop-span (base + 1) len n ys (omega arith)
    ∙ ap (λ b. b ++ ys)
        (ap (λ b. span b (len - n)) (omega arith) ∙ ap (span (base + suc n)) (omega arith))

pub span-append : (a n k : ℕ) → span a n ++ span (a + n) k ≡ span a (n + k)
unfolding span
span-append a zero k = ap (λ b. span b k) (omega arith) ∙ ap (span a) (omega arith)
span-append a (suc n) k =
    ap (λ r. a ∷ r) (ap (λ b. span (a + 1) n ++ span b k) (omega arith) ∙ span-append (a + 1) n k)
    ∙ ap (span a) {x = suc (n + k)} (omega arith)
