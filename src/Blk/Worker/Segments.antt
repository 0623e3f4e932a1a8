-- ===== src/Blk/Worker/Segments.antt =====
-- A partial transfer resumes where it stopped: scatter-gather lists as the bytes they name.
use nesbox.Base.{
  ℕ, zero, suc, ◌-◌, ◌≡◌, ◌∙◌, refl, sym, ap, arith, List, [], ◌∷◌, ◌++◌, drop, leb, ◌==◌, ==_iff,
  if-holds, leb→le,
}
use nesbox.Guest.Spans.{span, length-span, drop-append_past, drop-span}
use nesbox.Blk.Disk.{IoVec}
use nesbox.Blk.Worker.Transfer.{advance}

-- The addresses of a scatter-gather list, in order.
unfoldable pub addresses : List IoVec → List ℕ
addresses [] = []
addresses (v ∷ vs) = span v.base v.len ++ addresses vs

-- Advancing a scatter-gather list by `n` bytes leaves exactly the addresses after the first `n`, in
-- the same order.
pub addresses-advance : (vs : List IoVec) (n : ℕ) → addresses (advance vs n) ≡ drop n (addresses vs)
unfolding addresses advance
addresses-advance [] zero = refl
addresses-advance [] (suc n) = refl
addresses-advance (v ∷ vs) n =
    if-holds (λ r. addresses r ≡ drop n (span v.base v.len ++ addresses vs)) (n == 0)
      (λ e. ap (λ k. drop k (addresses (v ∷ vs))) (sym ((==_iff n 0).0 e)))
      (λ e.
        if-holds (λ r. addresses r ≡ drop n (span v.base v.len ++ addresses vs)) (leb v.len n)
          (λ f.
            let len = length-span v.base v.len in
            addresses-advance vs (n - v.len)
            ∙ ap (λ k. drop (n - k) (addresses vs)) (sym len)
            ∙ sym (
                drop-append_past (span v.base v.len) (addresses vs) n
                  (omega (arith, len, leb→le v.len n f))))
          (λ f. sym (drop-span v.base v.len n (addresses vs) (ground (arith, f)))))
