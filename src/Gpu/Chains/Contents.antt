-- ===== src/Gpu/Chains/Contents.antt =====
-- What a reader holds is what guest memory holds in the readable half of its chain.
use mathlib.Core.List.{append_assoc}
use native.Mathlib.Nat.{pow-suc}
use nesbox.Base.{
  ℕ, zero, suc, ◌*◌, ◌/◌, ◌^◌, ◌≤◌, ◌<◌, ◌≡◌, ◌⊎◌, ◌∙◌, refl, sym, ap, subst, arith, inl, inr,
  false, true, Bool, Option, none, some, List, [], ◌∷◌, ◌++◌, length, ltb, if◌then◌else◌, u64_mod,
  checked_add64, if-holds,
}
use nesbox.Guest.{GuestMemory}
use nesbox.Virtqueue.{Desc}
use nesbox.Bus.Config.{le_bytes}
use nesbox.Gpu.Chains.{
  is_write_only, descriptor_chain_overflow, descriptor_chain_too_long, guest_memory, number, Opened,
  reader, refused, Turn, stopped, copied, copied_next, read_next, read_chain, new_reader,
  max_readable_bytes,
}
use nesbox.Gpu.Chains.Readable.{readable_len, Opens, new_reader-Opens, length-le_bytes}

-- The descriptors before the first writable one.
pub readable : List Desc → List Desc
readable [] = []
readable (d ∷ ds) = if is_write_only d then [] else d ∷ readable ds

number-le_bytes : (n v : ℕ) → v < 256 ^ n → number (le_bytes n v) ≡ v
unfolding number le_bytes
number-le_bytes zero v h = omega arith
number-le_bytes (suc n) v h =
    let bound : v < 256 ^ n * 256 = rw (← pow-suc) h in
    omega (arith, number-le_bytes n (v / 256) (omega (arith, bound)))

append_nil : (xs : List ℕ) → xs ≡ xs ++ []
append_nil [] = refl
append_nil (x ∷ xs) = ap (λ l. x ∷ l) (append_nil xs)

module _ (g : GuestMemory) (m : g.Mem) where
  -- The bytes are those of the descriptors in turn, as guest memory has them.
  pub Carries : List Desc → List ℕ → Type 0
  Carries [] buf = buf ≡ []
  Carries (d ∷ ds) buf =
      (xs : List ℕ) × (ys : List ℕ) × (buf ≡ xs ++ ys)
      × (length xs ≡ d.len)
      × (g.read d.len m d.addr ≡ some (number xs))
      × Carries ds ys

  -- One of the descriptors is not in guest memory.
  pub Fails : List Desc → Type 0
  Fails [] = ⊥
  Fails (d ∷ ds) = (g.read d.len m d.addr ≡ none) ⊎ Fails ds

  -- The same of the loop, behind the bytes so far.
  Continues : List ℕ → List Desc → Opened → Type 0
  Continues bytes ds (reader r) = (more : List ℕ) × (r.buf ≡ bytes ++ more) × Carries ds more
  Continues bytes ds (refused guest_memory) = Fails ds
  Continues bytes ds (refused why) = Unit

  Copies : Desc → List ℕ → Turn → Type 0
  Copies d bytes (stopped guest_memory) = g.read d.len m d.addr ≡ none
  Copies d bytes (stopped why) = Unit
  Copies d bytes (copied bytes' n) =
      (xs : List ℕ) × (bytes' ≡ bytes ++ xs)
      × (length xs ≡ d.len)
      × (g.read d.len m d.addr ≡ some (number xs))

  copied_next-Copies :
      (d : Desc) (bytes : List ℕ) (total : ℕ) (v : Option ℕ)
      → g.read d.len m d.addr ≡ v
      → Copies d bytes (copied_next d bytes total v)
  unfolding copied_next Copies
  copied_next-Copies d bytes total none e = e
  copied_next-Copies d bytes total (some v) e = (
    le_bytes d.len v,
    refl,
    length-le_bytes d.len v,
    e ∙ ap some (sym (number-le_bytes d.len v (g.read-lt d.len m d.addr e))),
  )

  read_next-Copies :
      (d : Desc) (bytes : List ℕ) (total : Option ℕ) → Copies d bytes (read_next g m d bytes total)
  unfolding read_next Copies
  read_next-Copies d bytes none = tt
  read_next-Copies d bytes (some total) =
      if-holds (Copies d bytes) (ltb max_readable_bytes total) (λ t. tt)
        (λ t. copied_next-Copies d bytes total (g.read d.len m d.addr) refl)

  behind :
      (d : Desc) (ds : List Desc) (bytes xs : List ℕ)
      → length xs ≡ d.len
      → g.read d.len m d.addr ≡ some (number xs)
      → (o : Opened) → Continues (bytes ++ xs) ds o
      → Continues bytes (d ∷ ds) o
  unfolding Continues Carries Fails
  behind d ds bytes xs sized held (reader r) (more, e, rest) =
      (xs ++ more, e ∙ append_assoc bytes xs more, (xs, more, refl, sized, held, rest))
  behind d ds bytes xs sized held (refused descriptor_chain_overflow) h = tt
  behind d ds bytes xs sized held (refused (descriptor_chain_too_long n)) h = tt
  behind d ds bytes xs sized held (refused guest_memory) h = inr h

  read_chain-Continues :
      (chain : List Desc) (bytes : List ℕ) (total : ℕ)
      → Continues bytes (readable chain) (read_chain g m chain bytes total)
  unfolding read_chain readable Continues Carries Fails Copies
  read_chain-Continues [] bytes total = ([], append_nil bytes, refl)
  read_chain-Continues (d ∷ ds) bytes total =
      if-both (is_write_only d) _ _ ([], append_nil bytes, refl)
        (by_turn (read_next g m d bytes (checked_add64 total d.len))
          (read_next-Copies d bytes (checked_add64 total d.len))
          (λ bytes' n. read_chain-Continues ds bytes' n))
    where
      if-both :
          (w : Bool) (o o' : Opened)
          → Continues bytes [] o
          → Continues bytes (d ∷ readable ds) o'
          → Continues bytes (if w then [] else d ∷ readable ds) (if w then o else o')
      if-both true o o' a b = a
      if-both false o o' a b = b

      by_turn :
          (t : Turn)
          → Copies d bytes t
          → ((bytes' : List ℕ) (n : ℕ)
              → Continues bytes' (readable ds) (read_chain g m ds bytes' n))
          → Continues bytes (d ∷ readable ds) (elim t [
            | stopped error ↦ refused error
            | copied bytes' n ↦ read_chain g m ds bytes' n
          ])
      by_turn (stopped descriptor_chain_overflow) h go = tt
      by_turn (stopped (descriptor_chain_too_long n)) h go = tt
      by_turn (stopped guest_memory) h go = inl h
      by_turn (copied bytes' n) (xs, e, sized, held) go =
          behind d (readable ds) bytes xs sized held (read_chain g m ds bytes' n)
            (subst (λ b. Continues b (readable ds) (read_chain g m ds bytes' n)) e (go bytes' n))

  -- What the outcome says of the chain and of guest memory.
  pub Reads : List Desc → Opened → Type 0
  Reads chain (reader r) =
      Carries (readable chain) r.buf
      × (length r.buf ≡ readable_len chain)
      × (length r.buf ≤ max_readable_bytes)
      × (r.position ≡ 0)
  Reads chain (refused descriptor_chain_overflow) = u64_mod ≤ readable_len chain
  Reads chain (refused (descriptor_chain_too_long n)) =
      (max_readable_bytes < n) × (n ≤ readable_len chain)
  Reads chain (refused guest_memory) = Fails (readable chain)

  both :
      (chain : List Desc) (o : Opened)
      → Opens chain o
      → Continues [] (readable chain) o
      → Reads chain o
  unfolding Opens Continues Reads
  both chain (reader r) h (more, e, c) = (subst (Carries (readable chain)) (sym e) c, h.0, h.1, h.2)
  both chain (refused descriptor_chain_overflow) h c = h
  both chain (refused (descriptor_chain_too_long n)) h c = h
  both chain (refused guest_memory) h c = c

  -- A reader that is opened holds the bytes of the readable half of its chain, descriptor by
  -- descriptor as guest memory has them, as many as it claims and at most 64 MiB, and has consumed
  -- none. The chain is refused as too long only where it claims more than that, as overflowing only
  -- where it claims 2^64 bytes, and for guest memory only where a readable descriptor is not in it.
  pub new_reader-Reads : (chain : List Desc) → Reads chain (new_reader g m chain)
  unfolding new_reader
  new_reader-Reads chain =
      both chain (new_reader g m chain) (new_reader-Opens g m chain)
        (read_chain-Continues chain [] 0)
