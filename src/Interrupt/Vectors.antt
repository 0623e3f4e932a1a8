-- ===== src/Interrupt/Vectors.antt =====
-- The numbers of the MSI vectors are fresh.
use nesbox.Base.{
  ℕ, zero, suc, ◌+◌, ◌≤◌, ◌<◌, ◌≡◌, refl, ap, arith, Bool, true, false, Option, none, some, List,
  [], ◌∷◌, length,
}
use nesbox.Interrupt.{IrqManager, allocate_msi_vector, allocate_msi_vectors, vectors_after}

pub counted : ℕ → ℕ → List ℕ
counted zero first = []
counted (suc n) first = first ∷ counted n (first + 1)

-- What a call came to: all the vectors, numbered on from the next number, or none of them; the
-- numbers that it used up are never given again.
pub Numbers : IrqManager → List Bool → IrqManager × Option (List ℕ) → Type 0
Numbers m answers (m', none) =
    (m.state.next_gsi < m'.state.next_gsi) × (m'.state.next_gsi ≤ m.state.next_gsi + length answers)
Numbers m answers (m', some gsis) =
    (gsis ≡ counted (length answers) m.state.next_gsi)
    × (m'.state.next_gsi ≡ m.state.next_gsi + length answers)

-- A call for MSI vectors gives one new number for each, counting on from the next number, and moves
-- that past them. A call that fails gives none, and the numbers up to its failure are used up.
pub allocate_msi_vectors-Numbers :
    (m : IrqManager) (answers : List Bool) → Numbers m answers (allocate_msi_vectors m answers)
unfolding allocate_msi_vectors Numbers counted vectors_after allocate_msi_vector
allocate_msi_vectors-Numbers m [] = (refl, omega arith)
allocate_msi_vectors-Numbers m (wired ∷ answers) =
    joined wired (allocate_msi_vectors next answers) (allocate_msi_vectors-Numbers next answers)
  where
    next : IrqManager
    next = (allocate_msi_vector m true).0

    joined :
        (wired : Bool) (rest : IrqManager × Option (List ℕ))
        → Numbers (allocate_msi_vector m true).0 answers rest
        → Numbers m (wired ∷ answers) (vectors_after (allocate_msi_vector m wired) rest)
    joined true (m', none) h = (omega (arith, h.0), omega (arith, h.1))
    joined true (m', some gsis) h = (ap (λ x. m.state.next_gsi ∷ x) h.0, omega (arith, h.1))
    joined false rest h = (omega arith, omega arith)
