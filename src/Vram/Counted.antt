-- ===== src/Vram/Counted.antt =====
-- The walk over a command stream that a driver has written.
use mathlib.Core.List.{append_assoc}
use nesbox.Base.{
  ℕ, zero, suc, ◌+◌, ◌/◌, ◌%◌, ◌≤◌, ◌<◌, ◌≡◌, ◌≢◌, ◌∙◌, refl, sym, ap, subst, arith, inl, inr,
  false, not, ◌||◌, none, some, List, [], ◌∷◌, ◌++◌, length, length-append, drop, ltb, ◌==◌,
  if◌then◌else◌, has_bit, u32_mod, u64_mod, All, Bool-cases,
}
use nesbox.Transport.{write_val}
use nesbox.Vram.{
  rd, Scan, propose, count_buffer, next, gem_new, read_record, round, Scanned, parsed, scan,
  scan_stream,
}
use nesbox.Vram.Stream.{IsTallied, Ends, scan_stream-Ends}

-- A record of the stream: a buffer object, with its alignment and flags, or any other command; the
-- tag stands for the rest of the header, and `more` are the bytes behind.
pub data Command : Type 0 where
  new_buffer : (tag blob_id size alignment heap flags : ℕ) → List ℕ → Command
  other : (cmd tag : ℕ) → List ℕ → Command

pub command_bytes : Command → List ℕ
command_bytes (new_buffer tag blob_id size alignment heap flags more) =
    write_val 4 2
    ++ (write_val 4 (48 + length more)
        ++ (write_val 8 tag
            ++ (write_val 8 blob_id
                ++ (write_val 8 size
                    ++ (write_val 8 alignment
                        ++ (write_val 4 heap ++ (write_val 4 flags ++ more)))))))
command_bytes (other cmd tag more) =
    write_val 4 cmd ++ (write_val 4 (16 + length more) ++ (write_val 8 tag ++ more))

pub stream_bytes : List Command → List ℕ
stream_bytes [] = []
stream_bytes (c ∷ cs) = command_bytes c ++ stream_bytes cs

-- The numbers fit in their words, and the record is whole groups of eight bytes.
unfoldable pub FitsCommand : Command → Type 0
FitsCommand (new_buffer tag blob_id size alignment heap flags more) =
    (blob_id < u64_mod)
    × (size < u64_mod)
    × (heap < u32_mod)
    × (48 + length more < u32_mod)
    × (length more % 8 ≡ 0)
FitsCommand (other cmd tag more) =
    (cmd < u32_mod) × (cmd ≢ 2) × (16 + length more < u32_mod) × (length more % 8 ≡ 0)

-- The buffers of device memory, the heap whose bit has the value 4, in order.
pub in_vram : List Command → List (ℕ × ℕ)
in_vram [] = []
in_vram (new_buffer tag blob_id size alignment heap flags more ∷ cs) =
    if heap / 4 % 2 == 1 then (blob_id, size) ∷ in_vram cs else in_vram cs
in_vram (other cmd tag more ∷ cs) = in_vram cs

-- What a record adds, and how long it is.
count : ℕ → Command → Scan → Scan
count limit (new_buffer tag blob_id size alignment heap flags more) acc =
    count_buffer limit blob_id size heap acc
count limit (other cmd tag more) acc = acc

command_len : Command → ℕ
command_len (new_buffer tag blob_id size alignment heap flags more) = 48 + length more
command_len (other cmd tag more) = 16 + length more

length-command_bytes : (c : Command) → length (command_bytes c) ≡ command_len c
unfolding command_bytes write_val command_len
length-command_bytes (new_buffer tag blob_id size alignment heap flags more) = omega arith
length-command_bytes (other cmd tag more) = omega arith

drop-length-append : (xs ys : List ℕ) → drop (length xs) (xs ++ ys) ≡ ys
drop-length-append [] ys = refl
drop-length-append (x ∷ xs) ys = drop-length-append xs ys

record-well_formed :
    (n len : ℕ) (rest : List ℕ)
    → n ≡ len + length rest
    → 16 ≤ len
    → len % 8 ≡ 0
    → (ltb n 16 ≡ false) × ((ltb len 16 || ltb n len || not (len % 8 == 0)) ≡ false)
record-well_formed n len rest sized header whole =
    (ground (arith, sized, header), ground (arith, sized, header, whole))

length-command_bytes-append :
    (c : Command) (rest : List ℕ) → length (command_bytes c ++ rest) ≡ command_len c + length rest
length-command_bytes-append c rest =
    omega (arith, length-append (command_bytes c) rest, length-command_bytes c)

module _ (tag blob_id size alignment heap flags : ℕ) (more rest : List ℕ) where
  record_bytes : List ℕ
  record_bytes = command_bytes (new_buffer tag blob_id size alignment heap flags more) ++ rest

  rd_cmd : rd 4 record_bytes 0 ≡ some 2
  unfolding record_bytes rd command_bytes write_val
  rd_cmd = refl

  rd_len : 48 + length more < u32_mod → rd 4 record_bytes 4 ≡ some (48 + length more)
  unfolding record_bytes rd command_bytes write_val
  rd_len h = ap some (omega (arith, h))

  rd_blob_id : blob_id < u64_mod → rd 8 record_bytes 16 ≡ some blob_id
  unfolding record_bytes rd command_bytes write_val
  rd_blob_id h = ap some (omega (arith, h))

  rd_size : size < u64_mod → rd 8 record_bytes 24 ≡ some size
  unfolding record_bytes rd command_bytes write_val
  rd_size h = ap some (omega (arith, h))

  rd_heap : heap < u32_mod → rd 4 record_bytes 40 ≡ some heap
  unfolding record_bytes rd command_bytes write_val
  rd_heap h = ap some (omega (arith, h))

module _ (cmd tag : ℕ) (more rest : List ℕ) where
  other_bytes : List ℕ
  other_bytes = command_bytes (other cmd tag more) ++ rest

  rd_other_cmd : cmd < u32_mod → rd 4 other_bytes 0 ≡ some cmd
  unfolding other_bytes rd command_bytes write_val
  rd_other_cmd h = ap some (omega (arith, h))

  rd_other_len : 16 + length more < u32_mod → rd 4 other_bytes 4 ≡ some (16 + length more)
  unfolding other_bytes rd command_bytes write_val
  rd_other_len h = ap some (omega (arith, h))

round-command_bytes :
    (limit : ℕ) (c : Command) (rest : List ℕ) (acc : Scan)
    → FitsCommand c
    → round limit (command_bytes c ++ rest) acc ≡ next (command_len c) (count limit c acc)
unfolding round read_record gem_new FitsCommand count command_len record_bytes other_bytes
round-command_bytes limit (new_buffer tag blob_id size alignment heap flags more) rest acc
      (id_fits, size_fits, heap_fits, len_fits, whole) =
    let c : Command = new_buffer tag blob_id size alignment heap flags more in
    let formed =
      record-well_formed (length (command_bytes c ++ rest)) (48 + length more) rest
        (length-command_bytes-append c rest) (omega arith) (omega (arith, whole)) in
    let roomy : ltb (48 + length more) 44 ≡ false = ground arith in
    rw
      (
        formed.0,
        rd_cmd tag blob_id size alignment heap flags more rest,
        rd_len tag blob_id size alignment heap flags more rest len_fits,
        formed.1,
        roomy,
        rd_blob_id tag blob_id size alignment heap flags more rest id_fits,
        rd_size tag blob_id size alignment heap flags more rest size_fits,
        rd_heap tag blob_id size alignment heap flags more rest heap_fits,
      )
      refl
round-command_bytes limit (other cmd tag more) rest acc (cmd_fits, not_new, len_fits, whole) =
    let c : Command = other cmd tag more in
    let formed =
      record-well_formed (length (command_bytes c ++ rest)) (16 + length more) rest
        (length-command_bytes-append c rest) (omega arith) (omega (arith, whole)) in
    let apart : (cmd == 2) ≡ false = ground (arith, not_new) in
    rw
      (
        formed.0,
        rd_other_cmd cmd tag more rest cmd_fits,
        rd_other_len cmd tag more rest len_fits,
        formed.1,
        apart,
      )
      refl

append_nil : (xs : List (ℕ × ℕ)) → xs ≡ xs ++ []
append_nil [] = refl
append_nil (x ∷ xs) = ap (λ l. x ∷ l) (append_nil xs)

proposed-count :
    (limit : ℕ) (c : Command) (acc : Scan)
    → (count limit c acc).proposed ≡ acc.proposed ++ in_vram (c ∷ [])
unfolding count in_vram count_buffer propose
proposed-count limit (new_buffer tag blob_id size alignment heap flags more) acc =
    elim (Bool-cases (heap / 4 % 2 == 1)) [
      | inl t ↦ rw t refl
      | inr t ↦ elim (Bool-cases (has_bit heap 1)) [
        | inl u ↦ rw (t, u) (append_nil acc.proposed)
        | inr u ↦ rw (t, u) (append_nil acc.proposed)
      ]
    ]
proposed-count limit (other cmd tag more) acc = append_nil acc.proposed

in_vram-cons : (c : Command) (cs : List Command) → in_vram (c ∷ cs) ≡ in_vram (c ∷ []) ++ in_vram cs
unfolding in_vram
in_vram-cons (new_buffer tag blob_id size alignment heap flags more) cs =
    elim (Bool-cases (heap / 4 % 2 == 1)) [ inl t ↦ rw t refl | inr t ↦ rw t refl ]
in_vram-cons (other cmd tag more) cs = refl

command_len-positive : (c : Command) → 16 ≤ command_len c
unfolding command_len
command_len-positive (new_buffer tag blob_id size alignment heap flags more) = omega arith
command_len-positive (other cmd tag more) = omega arith

scan-next :
    (fuel limit : ℕ) (rest : List ℕ) (acc acc' : Scan) (len : ℕ)
    → round limit rest acc ≡ next len acc'
    → scan (suc fuel) limit rest acc ≡ scan fuel limit (drop len rest) acc'
unfolding scan
scan-next fuel limit rest acc acc' len e = rw (scan, e) refl

drop-command_bytes :
    (c : Command) (rest : List ℕ) → drop (command_len c) (command_bytes c ++ rest) ≡ rest
drop-command_bytes c rest =
    ap (λ n. drop n (command_bytes c ++ rest)) (sym (length-command_bytes c))
    ∙ drop-length-append (command_bytes c) rest

-- The walk accepts the rest of the stream, and proposes its buffers behind those so far.
Accepts : ℕ → List Command → Scan → Scanned → Type 0
Accepts limit cs acc t =
    (end : Scan) × (t ≡ parsed end) × (end.proposed ≡ acc.proposed ++ in_vram cs)

scan-Accepts :
    (limit : ℕ) (cs : List Command) (fuel : ℕ) (acc : Scan)
    → All FitsCommand cs
    → length (stream_bytes cs) < fuel
    → Accepts limit cs acc (scan fuel limit (stream_bytes cs) acc)
unfolding Accepts stream_bytes scan round in_vram
scan-Accepts limit cs zero acc fits enough = absurd (omega arith)
scan-Accepts limit [] (suc fuel) acc fits enough = (acc, refl, append_nil acc.proposed)
scan-Accepts limit (c ∷ cs) (suc fuel) acc fits enough =
    let acc' = count limit c acc in
    let long = length-command_bytes-append c (stream_bytes cs) in
    let (end, e, found) =
      scan-Accepts limit cs fuel acc' fits.1
        (omega (arith, enough, long, command_len-positive c)) in
    (
      end,
      scan-next fuel limit (command_bytes c ++ stream_bytes cs) acc acc' (command_len c)
            (round-command_bytes limit c (stream_bytes cs) acc fits.0)
          ∙ ap (λ rest. scan fuel limit rest acc') (drop-command_bytes c (stream_bytes cs))
          ∙ e,
      found
          ∙ ap (λ l. l ++ in_vram cs) (proposed-count limit c acc)
          ∙ append_assoc acc.proposed (in_vram (c ∷ [])) (in_vram cs)
          ∙ ap (λ l. acc.proposed ++ l) (sym (in_vram-cons c cs)),
    )

-- A stream that a driver has written, record by record, is accepted, and the buffers proposed are
-- exactly those that it asks for in device memory, in order, with their ids and sizes; the running
-- charge is what was charged before and what they come to, held at 2^64 - 1, and the limit is
-- reported as passed exactly when that is past it. The charge is within a limit below 2^64, and the
-- numbers of each record fit in their words.
pub scan_stream-stream_bytes :
    (limit charged : ℕ) (cs : List Command)
    → charged ≤ limit
    → limit < u64_mod
    → All FitsCommand cs
    → (end : Scan) × (scan_stream limit charged (stream_bytes cs) ≡ parsed end)
      × (end.proposed ≡ in_vram cs)
      × IsTallied limit charged end
unfolding scan_stream Accepts
scan_stream-stream_bytes limit charged cs within bound fits =
    let (end, e, found) =
      scan-Accepts limit cs (suc (length (stream_bytes cs)))
        (record {
          proposed = [];
          proposed_gtt = 0;
          tentative = charged;
          over = none;
          over_count = 0;
        })
        fits (omega arith) in
    (
      end,
      e,
      found,
      (subst (Ends limit charged (stream_bytes cs)) e
          (scan_stream-Ends limit charged (stream_bytes cs) within bound)).1,
    )
