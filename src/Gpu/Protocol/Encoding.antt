-- ===== src/Gpu/Protocol/Encoding.antt =====
-- What the guest finds at the start of a response.
use mathlib.Core.Option.{some_inj}
use nesbox.Base.{
  ℕ, ◌<◌, ◌/◌, ◌%◌, ◌==◌, ◌∙◌, ap, ◌≡◌, Option, ◌⊎◌, inl, inr, refl, subst, Bool, true, false, none,
  some, List, [], ◌∷◌, ◌++◌, length, ltb, leb, if◌then◌else◌, arith, u32_mod,
}
use nesbox.Gpu.Protocol.{CtrlHdr, hdr_bytes, hdr_of}
use nesbox.Gpu.Protocol.Responses.{
  GpuResponse, get_type, response_chunks, chunks, err_unspec, err_rutabaga, err_out_of_memory,
  err_invalid_scanout_id, err_invalid_resource_id, err_invalid_context_id, err_invalid_parameter,
  plane_bytes, ok_no_data, ok_display_info, ok_edid, ok_capset_info, ok_capset,
  ok_resource_plane_info, ok_resource_uuid, ok_map_info,
}
use nesbox.Gpu.Protocol.Decoding.{Fits, hdr_of-hdr_bytes, hdr_of-hdr_bytes_alone}

get_type-lt : (r : GpuResponse) → get_type r < u32_mod
unfolding get_type
get_type-lt ok_no_data = omega arith
get_type-lt _ = omega arith

typed : GpuResponse → CtrlHdr → CtrlHdr
typed r h = record h { type = get_type r }

typed-Fits : (r : GpuResponse) (h : CtrlHdr) → Fits h → Fits (typed r h)
unfolding typed
typed-Fits r h fits = record {
  type_fits = get_type-lt r;
  flags_fit = fits.flags_fit;
  fence_fits = fits.fence_fits;
  ctx_fits = fits.ctx_fits;
}

plain-Fits : (h : CtrlHdr) → Fits h → Fits (record h { type = 0x1100 })
plain-Fits h fits = record {
  type_fits = omega arith;
  flags_fit = fits.flags_fit;
  fence_fits = fits.fence_fits;
  ctx_fits = fits.ctx_fits;
}

abbrev pub first : List (List ℕ) → List ℕ
first [] = []
first (c ∷ cs) = c

-- Where a response stands in the virtio specification's table of response types: the successes, in
-- order, and the errors. The description of planes is a type of its own, at the end of the range of
-- the successes; an error of the renderer is reported as an unspecified one.
pub data Meaning : Type 0 where
  success : ℕ → Meaning
  failure : ℕ → Meaning

pub meaning : GpuResponse → Meaning
meaning ok_no_data = success 0
meaning (ok_display_info info) = success 1
meaning (ok_capset_info capset_id version size) = success 2
meaning (ok_capset bytes) = success 3
meaning (ok_edid blob) = success 4
meaning (ok_resource_uuid uuid) = success 5
meaning (ok_map_info map_info) = success 6
meaning (ok_resource_plane_info format_modifier planes) = success 255
meaning err_unspec = failure 0
meaning err_rutabaga = failure 0
meaning err_out_of_memory = failure 1
meaning err_invalid_scanout_id = failure 2
meaning err_invalid_resource_id = failure 3
meaning err_invalid_context_id = failure 4
meaning err_invalid_parameter = failure 5

-- What a driver makes of a type that it reads.
pub read_meaning : ℕ → Option Meaning
read_meaning t =
    if t / 256 == 0x11
    then some (success (t % 256))
    else if t / 256 == 0x12
    then some (failure (t % 256))
    else none

read_meaning-get_type : (r : GpuResponse) → read_meaning (get_type r) ≡ some (meaning r)
unfolding read_meaning get_type meaning
read_meaning-get_type ok_no_data = refl
read_meaning-get_type (ok_display_info info) = refl
read_meaning-get_type (ok_capset_info a b c) = refl
read_meaning-get_type (ok_capset bytes) = refl
read_meaning-get_type (ok_edid blob) = refl
read_meaning-get_type (ok_resource_uuid uuid) = refl
read_meaning-get_type (ok_map_info i) = refl
read_meaning-get_type (ok_resource_plane_info m planes) = refl
read_meaning-get_type err_unspec = refl
read_meaning-get_type err_rutabaga = refl
read_meaning-get_type err_out_of_memory = refl
read_meaning-get_type err_invalid_scanout_id = refl
read_meaning-get_type err_invalid_resource_id = refl
read_meaning-get_type err_invalid_context_id = refl
read_meaning-get_type err_invalid_parameter = refl

-- What the guest reads at the start of a response: what it means, under the fence of the command; or,
-- where a description of planes has no room, that it succeeded with no more to say.
pub Tells : GpuResponse → CtrlHdr → ℕ → List (List ℕ) → Type 0
Tells r h available cs =
    let read = hdr_of (first cs) in
    (record read { type = 0 } ≡ record h { type = 0 })
    × ((read_meaning read.type ≡ some (meaning r))
        ⊎ ((read_meaning read.type ≡ some (success 0))
            × (meaning r ≡ success 255)
            × (available < 72)))

-- The header that the guest reads: the response's type, with the fence of the command; or, where a
-- description of planes has no room, that there is no more to say.
pub Answers : GpuResponse → CtrlHdr → ℕ → List (List ℕ) → Type 0
Answers r h available cs =
    (hdr_of (first cs) ≡ record h { type = get_type r })
    ⊎ ((hdr_of (first cs) ≡ record h { type = 0x1100 })
        × (meaning r ≡ success 255)
        × (available < 72))

module _ (r : GpuResponse) (h : CtrlHdr) (available : ℕ) (fits : Fits h) where
  whole :
      (rest : List ℕ) (cs : List (List ℕ))
      → Answers r h available ((hdr_bytes (typed r h) ++ rest) ∷ cs)
  unfolding Answers typed
  whole rest cs = inl (hdr_of-hdr_bytes (typed r h) rest (typed-Fits r h fits))

  alone : (cs : List (List ℕ)) → Answers r h available (hdr_bytes (typed r h) ∷ cs)
  unfolding Answers typed
  alone cs = inl (hdr_of-hdr_bytes_alone (typed r h) (typed-Fits r h fits))

  plain :
      meaning r ≡ success 255
      → available < 72
      → Answers r h available (hdr_bytes (record h { type = 0x1100 }) ∷ [])
  unfolding Answers
  plain planes short =
      inr (hdr_of-hdr_bytes_alone (record h { type = 0x1100 }) (plain-Fits h fits), planes, short)

  answers_of :
      {cs : List (List ℕ)} (cs' : List (List ℕ))
      → Answers r h available cs'
      → some cs' ≡ some cs
      → Answers r h available cs
  answers_of cs' a e = subst (Answers r h available) (some_inj.0 e) a

  answers_unless :
      {cs : List (List ℕ)} (large : Bool) (cs' : List (List ℕ))
      → Answers r h available cs'
      → (if large then none else some cs') ≡ some cs
      → Answers r h available cs
  answers_unless true cs' a e = cc
  answers_unless false cs' a e = answers_of cs' a e

chunks-Answers :
    (r : GpuResponse) (h : CtrlHdr) (available : ℕ) {cs : List (List ℕ)}
    → Fits h
    → chunks r (record h { type = get_type r }) available ≡ some cs
    → Answers r h available cs
unfolding chunks typed plane_bytes meaning
chunks-Answers (ok_display_info info) h available fits e =
    answers_unless (ok_display_info info) h available fits (ltb 16 (length info)) _
      (whole (ok_display_info info) h available fits _ []) e
chunks-Answers (ok_edid blob) h available fits e =
    answers_unless (ok_edid blob) h available fits (ltb 1024 (length blob)) _
      (whole (ok_edid blob) h available fits _ []) e
chunks-Answers (ok_resource_plane_info m planes) h available {cs} fits e =
    roomy (ltb 4 (length planes)) (leb 72 available) refl e
  where
    r : GpuResponse
    r = ok_resource_plane_info m planes

    roomy :
        (large room : Bool)
        → leb 72 available ≡ room
        → (if large
            then none
            else if room
            then some (plane_bytes (record h { type = get_type r }) m planes ∷ [])
            else some (hdr_bytes (record h { type = 0x1100 }) ∷ []))
          ≡ some cs
        → Answers r h available cs
    roomy true room test e = cc
    roomy false true test e = answers_of r h available fits _ (whole r h available fits _ []) e
    roomy false false test e =
        answers_of r h available fits _ (plain r h available fits refl (ground (arith, test))) e
chunks-Answers (ok_capset bytes) h available fits e =
    answers_of (ok_capset bytes) h available fits _
      (alone (ok_capset bytes) h available fits (bytes ∷ [])) e
chunks-Answers (ok_capset_info a b c) h available fits e =
    answers_of (ok_capset_info a b c) h available fits _
      (whole (ok_capset_info a b c) h available fits _ []) e
chunks-Answers (ok_resource_uuid uuid) h available fits e =
    answers_of (ok_resource_uuid uuid) h available fits _
      (whole (ok_resource_uuid uuid) h available fits _ []) e
chunks-Answers (ok_map_info i) h available fits e =
    answers_of (ok_map_info i) h available fits _ (whole (ok_map_info i) h available fits _ []) e
chunks-Answers r h available fits e =
    answers_of r h available fits _ (alone r h available fits []) e

-- Every response that is encoded begins with a header that the guest reads as what the response means
-- in the specification's table of types, with the flags, the fence, the context and the ring that it
-- was given, if these fit in their words; only planes that have no room are told as a success
-- without contents.
pub response_chunks-Tells :
    (r : GpuResponse) (h : CtrlHdr) (available : ℕ) {cs : List (List ℕ)}
    → Fits h
    → response_chunks r h available ≡ some cs
    → Tells r h available cs
unfolding response_chunks Tells Answers read_meaning
response_chunks-Tells r h available fits e = elim (chunks-Answers r h available fits e) [
  | inl as_typed ↦ (
    ap (λ (c : CtrlHdr). record c { type = 0 }) as_typed,
    inl (ap (λ (c : CtrlHdr). read_meaning c.type) as_typed ∙ read_meaning-get_type r),
  )
  | inr (as_plain, planes, short) ↦ (
    ap (λ (c : CtrlHdr). record c { type = 0 }) as_plain,
    inr (ap (λ (c : CtrlHdr). read_meaning c.type) as_plain, planes, short),
  )
]
