-- ===== src/Gpu/Protocol/Decoding.antt =====
-- What a driver encodes, `decode` gives back.
use nesbox.Base.{
  ℕ, ◌+◌, ◌-◌, ◌<◌, ◌≡◌, refl, ◌∙◌, ap, false, some, List, [], ◌∷◌, ◌++◌, length, take, drop, ltb,
  u32_mod, u64_mod, arith, length-append,
}
use nesbox.Transport.{from_le_bytes, write_val}
use nesbox.Gpu.Chains.{Reader, read_exact}
use nesbox.Gpu.Protocol.{
  CtrlHdr, hdr_bytes, hdr_of, Kind, GpuCommand, type_of, body_size, kind_of, decoded, decode_body,
  decode_kind, decode_header, decode, get_display_info, get_edid, resource_create_2d,
  resource_unref, set_scanout, set_scanout_blob, resource_flush, transfer_to_host_2d,
  resource_attach_backing, resource_detach_backing, get_capset_info, get_capset, ctx_create,
  ctx_destroy, ctx_attach_resource, ctx_detach_resource, resource_create_3d, transfer_to_host_3d,
  transfer_from_host_3d, cmd_submit_3d, resource_create_blob, resource_map_blob,
  resource_unmap_blob, update_cursor, move_cursor, resource_assign_uuid,
}

-- The fields of a header fit in its words.
pub record Fits (h : CtrlHdr) : Type 0 where
  pub type_fits : h.type < u32_mod
  pub flags_fit : h.flags < u32_mod
  pub fence_fits : h.fence_id < u64_mod
  pub ctx_fits : h.ctx_id < u32_mod

hdr_path :
    (h : CtrlHdr) (t f n c : ℕ)
    → t ≡ h.type
    → f ≡ h.flags
    → n ≡ h.fence_id
    → c ≡ h.ctx_id
    → ◌≡◌ {A = CtrlHdr}
        (record { type = t; flags = f; fence_id = n; ctx_id = c; ring_idx = h.ring_idx })
        h
hdr_path h t f n c p q r s =
    λ i. record { type = p i; flags = q i; fence_id = r i; ctx_id = s i; ring_idx = h.ring_idx }

-- A header is read back from its bytes, whatever follows them.
pub hdr_of-hdr_bytes : (h : CtrlHdr) (rest : List ℕ) → Fits h → hdr_of (hdr_bytes h ++ rest) ≡ h
unfolding hdr_of hdr_bytes from_le_bytes write_val
hdr_of-hdr_bytes h rest fits =
    hdr_path h _ _ _ _ (omega (arith, fits.type_fits)) (omega (arith, fits.flags_fit))
      (omega (arith, fits.fence_fits)) (omega (arith, fits.ctx_fits))

kind_of-type_of : (k : Kind) → kind_of (type_of k) ≡ some k
unfolding kind_of type_of
kind_of-type_of get_display_info = refl
kind_of-type_of get_edid = refl
kind_of-type_of resource_create_2d = refl
kind_of-type_of resource_unref = refl
kind_of-type_of set_scanout = refl
kind_of-type_of set_scanout_blob = refl
kind_of-type_of resource_flush = refl
kind_of-type_of transfer_to_host_2d = refl
kind_of-type_of resource_attach_backing = refl
kind_of-type_of resource_detach_backing = refl
kind_of-type_of get_capset_info = refl
kind_of-type_of get_capset = refl
kind_of-type_of ctx_create = refl
kind_of-type_of ctx_destroy = refl
kind_of-type_of ctx_attach_resource = refl
kind_of-type_of ctx_detach_resource = refl
kind_of-type_of resource_create_3d = refl
kind_of-type_of transfer_to_host_3d = refl
kind_of-type_of transfer_from_host_3d = refl
kind_of-type_of cmd_submit_3d = refl
kind_of-type_of resource_create_blob = refl
kind_of-type_of resource_map_blob = refl
kind_of-type_of resource_unmap_blob = refl
kind_of-type_of update_cursor = refl
kind_of-type_of move_cursor = refl
kind_of-type_of resource_assign_uuid = refl

module _ {ℓ} {A : Type ℓ} where
  take-length-append : (xs ys : List A) → take (length xs) (xs ++ ys) ≡ xs
  take-length-append [] ys = refl
  take-length-append (x ∷ xs) ys = ap (λ r. x ∷ r) (take-length-append xs ys)

  drop-length-append : (xs ys : List A) → drop (length xs) (xs ++ ys) ≡ ys
  drop-length-append [] ys = refl
  drop-length-append (x ∷ xs) ys = drop-length-append xs ys

-- A reader that stands before some bytes reads them.
read_exact-append :
    (pre xs rest : List ℕ)
    → read_exact (record { buf = pre ++ (xs ++ rest); position = length pre }) (length xs)
      ≡ some (xs, record { buf = pre ++ (xs ++ rest); position = length pre + length xs })
unfolding read_exact
read_exact-append pre xs rest =
    rw enough (rw (drop-length-append pre (xs ++ rest)) (rw (take-length-append xs rest) refl))
  where
    enough : ltb (length (pre ++ (xs ++ rest)) - length pre) (length xs) ≡ false
    enough = ground (arith, length-append pre (xs ++ rest), length-append xs rest)

length-hdr_bytes : (h : CtrlHdr) → length (hdr_bytes h) ≡ 24
unfolding hdr_bytes write_val
length-hdr_bytes h = refl

-- The same at positions and sizes that are known.
pub read_exact_at :
    (pre xs rest : List ℕ) (p n : ℕ)
    → length pre ≡ p
    → length xs ≡ n
    → read_exact (record { buf = pre ++ (xs ++ rest); position = p }) n
      ≡ some (xs, record { buf = pre ++ (xs ++ rest); position = p + n })
read_exact_at pre xs rest p n at sized = rw (← at) (rw (← sized) (read_exact-append pre xs rest))

pub hdr_of-hdr_bytes_alone : (h : CtrlHdr) → Fits h → hdr_of (hdr_bytes h) ≡ h
unfolding hdr_bytes write_val
hdr_of-hdr_bytes_alone h fits = hdr_of-hdr_bytes h [] fits

-- A command that a driver writes as its header and its struct, followed by anything, is decoded to
-- that header and that command, with the reader behind them. The header names the command, its fields
-- fit in their words, and the struct has its size.
pub decode-hdr_bytes :
    (h : CtrlHdr) (c : GpuCommand) (rest : List ℕ)
    → Fits h
    → h.type ≡ type_of c.kind
    → length c.body ≡ body_size c.kind
    → let buf = hdr_bytes h ++ (c.body ++ rest) in
      decode (record { buf = buf; position = 0 })
      ≡ decoded h c (record { buf = buf; position = 24 + body_size c.kind })
unfolding decode decode_header decode_kind decode_body
decode-hdr_bytes h c rest fits names sized =
    ap decode_header
      (read_exact_at [] (hdr_bytes h) (c.body ++ rest) 0 24 refl (length-hdr_bytes h))
    ∙ ap (λ (h' : CtrlHdr). decode_kind h' behind (kind_of h'.type)) (hdr_of-hdr_bytes_alone h fits)
    ∙ ap (decode_kind h behind) (ap kind_of names ∙ kind_of-type_of c.kind)
    ∙ ap (decode_body h c.kind)
        (read_exact_at (hdr_bytes h) c.body rest 24 (body_size c.kind) (length-hdr_bytes h) sized)
  where
    behind : Reader
    behind = record { buf = hdr_bytes h ++ (c.body ++ rest); position = 24 }
