-- ===== src/Gpu/Chains/Readable.antt =====
-- What a reader holds: the readable half of its chain, and never more than its limit.
use nesbox.Base.{
  ℕ, zero, suc, ◌+◌, ◌/◌, ◌≤◌, ◌<◌, ◌≡◌, ◌∙◌, refl, sym, ap, subst, arith, inl, inr, false, Option,
  none, some, List, [], ◌∷◌, length, length-append, ltb, if◌then◌else◌, u64_mod, checked_add64,
  Bool-cases, if-holds,
}
use nesbox.Guest.{GuestMemory}
use nesbox.Virtqueue.{Desc}
use nesbox.Bus.Config.{le_bytes}
use nesbox.Gpu.Chains.{
  is_write_only, ChainError, descriptor_chain_overflow, descriptor_chain_too_long, guest_memory,
  Opened, reader, refused, Turn, stopped, copied, copied_next, read_next, read_chain, new_reader,
  max_readable_bytes,
}

-- The lengths of the descriptors before the first writable one.
pub readable_len : List Desc → ℕ
readable_len [] = 0
readable_len (d ∷ ds) = if is_write_only d then 0 else d.len + readable_len ds

-- A reader holds as many bytes as the readable half claims, within the limit, and has consumed none;
-- a chain is too long only where it claims more than the limit.
unfoldable pub Opens : List Desc → Opened → Type 0
Opens chain (reader r) =
    (length r.buf ≡ readable_len chain) × (length r.buf ≤ max_readable_bytes) × (r.position ≡ 0)
Opens chain (refused descriptor_chain_overflow) = u64_mod ≤ readable_len chain
Opens chain (refused (descriptor_chain_too_long n)) =
    (max_readable_bytes < n) × (n ≤ readable_len chain)
Opens chain (refused guest_memory) = Unit

pub length-le_bytes : (n v : ℕ) → length (le_bytes n v) ≡ n
unfolding le_bytes
length-le_bytes zero v = refl
length-le_bytes (suc n) v = ap suc (length-le_bytes n (v / 256))

module _ (g : GuestMemory) where
  -- The same of the loop, with the bytes so far.
  OpensFrom : ℕ → List Desc → Opened → Type 0
  OpensFrom total chain (reader r) =
      (length r.buf ≡ total + readable_len chain)
      × (length r.buf ≤ max_readable_bytes)
      × (r.position ≡ 0)
  OpensFrom total chain (refused descriptor_chain_overflow) = u64_mod ≤ total + readable_len chain
  OpensFrom total chain (refused (descriptor_chain_too_long n)) =
      (max_readable_bytes < n) × (n ≤ total + readable_len chain)
  OpensFrom total chain (refused guest_memory) = Unit

  from_next :
      (total : ℕ) (d : Desc) (ds : List Desc)
      → is_write_only d ≡ false
      → (o : Opened) → OpensFrom (total + d.len) ds o
      → OpensFrom total (d ∷ ds) o
  unfolding OpensFrom readable_len
  from_next total d ds w (reader r) h = (ground (arith, w, h.0), h.1, h.2)
  from_next total d ds w (refused descriptor_chain_overflow) h = ground (arith, w, h)
  from_next total d ds w (refused (descriptor_chain_too_long n)) h = (h.0, ground (arith, w, h.1))
  from_next total d ds w (refused guest_memory) h = tt

  -- One turn: the bytes are the total, within the limit.
  Turns : ℕ → Turn → Type 0
  Turns total (stopped descriptor_chain_overflow) = u64_mod ≤ total
  Turns total (stopped (descriptor_chain_too_long n)) = (max_readable_bytes < n) × (n ≡ total)
  Turns total (stopped guest_memory) = Unit
  Turns total (copied bytes n) = (length bytes ≡ total) × (n ≡ total) × (n ≤ max_readable_bytes)

  copied_next-Turns :
      (d : Desc) (bytes : List ℕ) (total : ℕ) (v : Option ℕ)
      → length bytes + d.len ≡ total
      → total ≤ max_readable_bytes
      → Turns total (copied_next d bytes total v)
  unfolding copied_next Turns
  copied_next-Turns d bytes total none e b = tt
  copied_next-Turns d bytes total (some v) e b =
      (omega (arith, e, length-append bytes (le_bytes d.len v), length-le_bytes d.len v), refl, b)

  read_next-Turns :
      (m : g.Mem) (d : Desc) (bytes : List ℕ) (total : ℕ)
      → length bytes ≡ total
      → Turns (total + d.len) (read_next g m d bytes (checked_add64 total d.len))
  unfolding read_next Turns
  read_next-Turns m d bytes total e = elim (Bool-cases (ltb (total + d.len) u64_mod)) [
    | inl h ↦ rw h (
        if-holds (Turns (total + d.len)) (ltb max_readable_bytes (total + d.len))
          (λ f. (ground (arith, f), refl))
          (λ f.
            copied_next-Turns d bytes (total + d.len) (g.read d.len m d.addr) (omega (arith, e))
              (ground (arith, f))))
    | inr h ↦ rw h (ground (arith, h))
  ]

  error-Opens :
      (total : ℕ) (ds : List Desc) (error : ChainError)
      → Turns total (stopped error)
      → OpensFrom total ds (refused error)
  unfolding OpensFrom Turns
  error-Opens total ds descriptor_chain_overflow h = omega arith
  error-Opens total ds (descriptor_chain_too_long n) h = (h.0, omega (arith, h.1))
  error-Opens total ds guest_memory h = tt

  read_chain-OpensFrom :
      (m : g.Mem) (chain : List Desc) (bytes : List ℕ) (total : ℕ)
      → length bytes ≡ total
      → total ≤ max_readable_bytes
      → OpensFrom total chain (read_chain g m chain bytes total)
  unfolding read_chain OpensFrom readable_len Turns
  read_chain-OpensFrom m [] bytes total e b = (omega (arith, e), omega (arith, e), refl)
  read_chain-OpensFrom m (d ∷ ds) bytes total e b =
      if-holds (OpensFrom total (d ∷ ds)) (is_write_only d)
        (λ w. (ground (arith, w, e), omega (arith, e), refl))
        (λ w. from_next total d ds w _ (
          by_turn (read_next g m d bytes (checked_add64 total d.len))
            (read_next-Turns m d bytes total e) (λ bytes' n. read_chain-OpensFrom m ds bytes' n)))
    where
      by_turn :
          (t : Turn)
          → Turns (total + d.len) t
          → ((bytes' : List ℕ) (n : ℕ)
              → length bytes' ≡ n
              → n ≤ max_readable_bytes
              → OpensFrom n ds (read_chain g m ds bytes' n))
          → OpensFrom (total + d.len) ds (elim t [
            | stopped error ↦ refused error
            | copied bytes' n ↦ read_chain g m ds bytes' n
          ])
      by_turn (stopped error) h go = error-Opens (total + d.len) ds error h
      by_turn (copied bytes' n) h go =
          subst (λ k. OpensFrom k ds (read_chain g m ds bytes' n)) h.1
            (go bytes' n (h.0 ∙ sym h.1) h.2)

  plain : (chain : List Desc) (o : Opened) → OpensFrom 0 chain o → Opens chain o
  unfolding OpensFrom Opens
  plain chain (reader r) h = (omega (arith, h.0), h.1, h.2)
  plain chain (refused descriptor_chain_overflow) h = omega (arith, h)
  plain chain (refused (descriptor_chain_too_long n)) h = (h.0, omega (arith, h.1))
  plain chain (refused guest_memory) h = tt

  -- The sizes: a reader that is opened holds exactly as many bytes as the readable half of its chain claims, at
  -- most 64 MiB, and has consumed none of them. The chain is refused as too long only where it
  -- claims more than that, and as overflowing only where it claims 2^64 bytes.
  pub new_reader-Opens : (m : g.Mem) (chain : List Desc) → Opens chain (new_reader g m chain)
  unfolding new_reader
  new_reader-Opens m chain =
      plain chain (new_reader g m chain) (read_chain-OpensFrom m chain [] 0 refl (omega arith))
