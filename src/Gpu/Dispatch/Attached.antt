-- ===== src/Gpu/Dispatch/Attached.antt =====
-- A resource's backing, from the guest's list to the call.
use mathlib.Core.List.{append_assoc}
use nesbox.Base.{
  ℕ, ◌+◌, ◌*◌, ◌-◌, ◌/◌, ◌<◌, ◌≡◌, refl, sym, ◌∙◌, ap, subst, false, some, List, [], ◌∷◌, ◌++◌,
  length, All, ltb, ◌==◌, u32_mod, u64_mod, arith, length-append,
}
use nesbox.Transport.{from_le_bytes, write_val}
use nesbox.Gpu.Chains.{Reader, read_exact}
use nesbox.Gpu.Protocol.{CtrlHdr, resource_attach_backing}
use nesbox.Gpu.Protocol.Decoding.{read_exact_at}
use nesbox.Gpu.Dispatch.{
  called, attach_backing, word, double, read_entries, with_entries, attach, dispatch,
  process_gpu_command,
}

-- A `virtio_gpu_mem_entry`: its address, its length and padding.
pub entry_bytes : ℕ × ℕ → List ℕ
entry_bytes e = write_val 8 e.0 ++ (write_val 4 e.1 ++ 0 ∷ 0 ∷ 0 ∷ 0 ∷ [])

pub entries_bytes : List (ℕ × ℕ) → List ℕ
entries_bytes [] = []
entries_bytes (e ∷ es) = entry_bytes e ++ entries_bytes es

unfoldable pub FitsEntry : ℕ × ℕ → Type 0
FitsEntry e = (e.0 < u64_mod) × (e.1 < u32_mod)

entry_path : (e : ℕ × ℕ) (a l : ℕ) → a ≡ e.0 → l ≡ e.1 → ◌≡◌ {A = ℕ × ℕ} (a, l) e
entry_path e a l p q = λ i. (p i, q i)

read-entry_bytes :
    (e : ℕ × ℕ) → FitsEntry e → ◌≡◌ {A = ℕ × ℕ} (double (entry_bytes e) 0, word (entry_bytes e) 8) e
unfolding entry_bytes FitsEntry double word from_le_bytes write_val
read-entry_bytes e fits = entry_path e _ _ (omega (arith, fits)) (omega (arith, fits))

length-entry_bytes : (e : ℕ × ℕ) → length (entry_bytes e) ≡ 16
unfolding entry_bytes write_val
length-entry_bytes e = refl

length-entries_bytes : (es : List (ℕ × ℕ)) → length (entries_bytes es) ≡ 16 * length es
unfolding entries_bytes
length-entries_bytes [] = refl
length-entries_bytes (e ∷ es) = omega (
  arith,
  length-append (entry_bytes e) (entries_bytes es),
  length-entry_bytes e,
  length-entries_bytes es,
)

-- The bytes that are there are read, wherever the buffer has them.
read_exact_in :
    (buf pre xs rest : List ℕ) (p n : ℕ)
    → buf ≡ pre ++ (xs ++ rest)
    → length pre ≡ p
    → length xs ≡ n
    → read_exact (record { buf = buf; position = p }) n
      ≡ some (xs, record { buf = buf; position = p + n })
read_exact_in buf pre xs rest p n there at sized =
    subst
      (λ b.
        read_exact (record { buf = b; position = p }) n
        ≡ some (xs, record { buf = b; position = p + n }))
      (sym there) (read_exact_at pre xs rest p n at sized)

read_entries-entries_bytes :
    (es : List (ℕ × ℕ)) (buf pre rest : List ℕ) (p : ℕ)
    → buf ≡ pre ++ (entries_bytes es ++ rest)
    → length pre ≡ p
    → All FitsEntry es
    → read_entries (length es) (record { buf = buf; position = p }) ≡ some es
unfolding read_entries entries_bytes
read_entries-entries_bytes [] buf pre rest p there at fits = refl
read_entries-entries_bytes (e ∷ es) buf pre rest p there at fits =
    let first : buf ≡ pre ++ (entry_bytes e ++ (entries_bytes es ++ rest)) =
      there ∙ ap (λ l. pre ++ l) (append_assoc (entry_bytes e) (entries_bytes es) rest) in
    let later =
      read_entries-entries_bytes es buf (pre ++ entry_bytes e) rest (p + 16)
        (first ∙ sym (append_assoc pre (entry_bytes e) (entries_bytes es ++ rest)))
        (omega (arith, length-append pre (entry_bytes e), length-entry_bytes e, at)) fits.1 in
    rw
      (read_exact_in buf pre (entry_bytes e) (entries_bytes es ++ rest) p 16 first at
        (length-entry_bytes e))
      (rw later (ap (λ e'. some (e' ∷ es)) (read-entry_bytes e fits.0)))

attach-entries_bytes :
    (id : ℕ) (e : ℕ × ℕ) (es : List (ℕ × ℕ)) (pre rest : List ℕ)
    → All FitsEntry (e ∷ es)
    → let n = length (e ∷ es) in
      attach (record { buf = pre ++ (entries_bytes (e ∷ es) ++ rest); position = length pre }) id n
      ≡ record { reserved = 16 * n; action = called (attach_backing id (e ∷ es)) }
unfolding attach with_entries
attach-entries_bytes id e es pre rest fits =
    let n = length (e ∷ es) in
    let buf = pre ++ (entries_bytes (e ∷ es) ++ rest) in
    let there : length buf ≡ length pre + 16 * n + length rest = omega (
      arith,
      length-append pre (entries_bytes (e ∷ es) ++ rest),
      length-append (entries_bytes (e ∷ es)) rest,
      length-entries_bytes (e ∷ es),
    ) in
    let some_left : (length buf - length pre == 0) ≡ false = ground (arith, there) in
    let enough : ltb ((length buf - length pre) / 16) n ≡ false = ground (arith, there) in
    rw some_left (
      rw enough (
        ap (with_entries n (attach_backing id))
          (read_entries-entries_bytes (e ∷ es) buf pre rest (length pre) refl refl fits)))

-- A driver that attaches a backing of one entry or more, in a chain that carries the entries behind
-- the command, has exactly these entries attached to exactly that resource, if the numbers fit in
-- their words; 16 bytes are reserved for each.
pub process_gpu_command-entries_bytes :
    (texture target : ℕ) (h : CtrlHdr) (id : ℕ) (e : ℕ × ℕ) (es : List (ℕ × ℕ)) (pre rest : List ℕ)
    → id < u32_mod
    → length (e ∷ es) < u32_mod
    → All FitsEntry (e ∷ es)
    → process_gpu_command texture target h
        (record {
          kind = resource_attach_backing;
          body = write_val 4 id ++ write_val 4 (length (e ∷ es));
        })
        (record { buf = pre ++ (entries_bytes (e ∷ es) ++ rest); position = length pre })
      ≡ record { reserved = 16 * length (e ∷ es); action = called (attach_backing id (e ∷ es)) }
unfolding process_gpu_command dispatch word from_le_bytes write_val
process_gpu_command-entries_bytes texture target h id e es pre rest id_fits count_fits fits =
    let r : Reader = record {
      buf = pre ++ (entries_bytes (e ∷ es) ++ rest);
      position = length pre;
    } in
    let body = write_val 4 id ++ write_val 4 (length (e ∷ es)) in
    let id_read : word body 0 ≡ id = omega (arith, id_fits) in
    let count_read : word body 4 ≡ length (e ∷ es) = omega (arith, count_fits) in
    ap (λ i. attach r i (word body 4)) id_read
    ∙ ap (attach r id) count_read
    ∙ attach-entries_bytes id e es pre rest fits
