-- ===== src/Gpu/Tests.antt =====
-- A window with room for one page, and a chain of a command and its answer.
use nesbox.Base.{
  ℕ, zero, suc, ◌≡◌, refl, ap, sym, ◌∙◌, arith, Bool, true, false, none, some, List, [], ◌∷◌, drop,
  get_elem?, test_bit, ◌==◌, if◌then◌else◌,
}
use nesbox.Guest.Flat.{FlatMemory, flat_guest, flat_covers}
use nesbox.Guest.Spans.{span}
use nesbox.Virtqueue.{Desc}
use nesbox.Window.{WindowQuota}
use nesbox.Gpu.Blobs.{result_from_query, Blobs, Host, new_resource, made_visible, find_resource}
use nesbox.Gpu.Blobs.Charged.{IsCharged, total}
use nesbox.Gpu.Blobs.Quota.{
  Call, create_blob, map_blob, unref, call_all, NewIds, NewId, call_all-IsCharged,
}
use nesbox.Gpu.Protocol.Responses.{
  err_rutabaga, ok_resource_plane_info, ok_display_info, ok_edid, err_invalid_scanout_id,
  err_invalid_resource_id,
}
use nesbox.Gpu.Scanouts.{Screens, set_scanout, display_info, get_edid, edid_of, flush_resource}
use nesbox.Gpu.Scanouts.Shown.{IsShown, has_scanout, set_scanout-IsShown, set_scanout-has_scanout}
use nesbox.Gpu.Fences.{context_specific, ring_of}
use nesbox.Gpu.Chains.{
  Segment, number, new_writer, writable_from, segments_of, total_of, read_obj, read_exact, peek_obj,
  new_reader, write, write_segments,
}
use nesbox.Gpu.Chains.Written.{IsSent, Holds, zip, segment_addresses, write_segments-IsSent}
use nesbox.Gpu.Chains.Contents.{Reads, new_reader-Reads}

abbrev window : WindowQuota
window = record {
  limit_bytes = 8192;
  max_mappings = 2;
  used = 0;
  mappings = 0;
  peak = 0;
  refusals = 0;
  gauges = record {
    window_bytes = 0;
    window_peak_bytes = 0;
    window_mappings = 0;
    window_refusals = 0;
  };
}

abbrev willing : Host
willing = record {
  map_info = some 1;
  placed = false;
  mapping = some 4096;
  published = true;
  withdrawn = true;
  renderer = true;
  error = err_rutabaga;
  query = none;
}

abbrev fresh : Blobs
fresh = record { resources = []; window = window }

abbrev session : List Call
session = create_blob 7 4096 willing ∷ map_blob 7 0x10000 0x1000 willing ∷ unref 7 willing ∷ []

call_all-IsCharged_example : IsCharged (call_all fresh session)
unfolding NewIds NewId total find_resource
call_all-IsCharged_example =
    call_all-IsCharged fresh session (refl, (tt, (tt, tt)))
      (record {
        used_total = refl;
        mappings_total = refl;
        under_limit = omega arith;
        under_count = omega arith;
        bytes_limit = (omega arith, omega arith);
        count_limit = (omega arith, omega arith);
      })

rings : ring_of true 3 1 ≡ context_specific 3 1
unfolding ring_of
rings = refl

abbrev memory : FlatMemory
memory = record { size = 0x1000; cell = λ a. 0 }

abbrev segments : List Segment
segments = record { addr = 0x100; len = 2 } ∷ record { addr = 0x200; len = 4 } ∷ []

write_segments-IsSent_example :
    IsSent flat_guest memory
      (zip (drop 1 (segment_addresses segments)) (7 ∷ 8 ∷ 9 ∷ []))
      (write_segments flat_guest memory segments 1 (7 ∷ 8 ∷ 9 ∷ []))
unfolding flat_covers Holds
write_segments-IsSent_example =
    write_segments-IsSent flat_guest memory segments 1 (7 ∷ 8 ∷ 9 ∷ []) (refl, (refl, tt))

placed :
    zip (drop 1 (segment_addresses segments)) (7 ∷ 8 ∷ 9 ∷ [])
    ≡ (0x101, 7) ∷ (0x200, 8) ∷ (0x201, 9) ∷ []
unfolding zip segment_addresses span
placed = refl

abbrev chain : List Desc
chain =
    record { addr = 0x300; len = 8; flags = 1 } ∷ record { addr = 0x400; len = 16; flags = 2 } ∷ []

new_reader-Reads_example : Reads flat_guest memory chain (new_reader flat_guest memory chain)
new_reader-Reads_example = new_reader-Reads flat_guest memory chain

room :
    new_writer chain
    ≡ some (record {
      segments = record { addr = 0x400; len = 16 } ∷ [];
      write_pos = 0;
      bytes_written = 0;
      total_len = 16;
    })
unfolding new_writer writable_from segments_of total_of
room = refl

peeked : peek_obj (record { buf = 1 ∷ 2 ∷ 3 ∷ []; position = 1 }) 2 ≡ some 770
unfolding peek_obj read_obj read_exact number
peeked = refl

written :
    (write flat_guest memory
      (record { segments = segments; write_pos = 0; bytes_written = 0; total_len = 6 })
      []).1
    ≡ some (0, record { segments = segments; write_pos = 0; bytes_written = 0; total_len = 6 })
unfolding write write_segments
written = refl

planes : result_from_query (some (3, (640, 0) ∷ [])) ≡ ok_resource_plane_info 3 ((640, 0) ∷ [])
unfolding result_from_query
planes = refl

visible : made_visible (new_resource 4096) willing ≡ true
unfolding made_visible new_resource
visible = refl

-- The first of two scanouts shows resource 7.
abbrev screens : Screens
screens = record {
  scanouts = some 7 ∷ none ∷ [];
  resources = (7, record (new_resource 4096) { scanouts = 1 }) ∷ [];
  displays = record { width = 640; height = 480; edid_bytes = 1 ∷ [] } ∷ [];
}

no_bits : (k : ℕ) → test_bit 0 k ≡ false
unfolding test_bit
no_bits zero = refl
no_bits (suc k) = no_bits k

screens-IsShown : IsShown screens.scanouts screens.resources
unfolding IsShown find_resource new_resource test_bit
screens-IsShown id k h = by_id (7 == id) refl k h
  where
    by_id :
        (is_it : Bool)
        → (7 == id) ≡ is_it
        → (k : ℕ)
        → has_scanout (if is_it then some (record (new_resource 4096) { scanouts = 1 }) else none) k
          ≡ true
        → get_elem? screens.scanouts k ≡ some (some id)
    by_id true e zero h = let same : 7 ≡ id = ground (arith, e) in ap (λ i. some (some i)) same
    by_id true e (suc k) h = absurd (clash (sym (no_bits k) ∙ h))
      where
        clash : false ≡ true → ⊥
        clash c = cc
    by_id false e k h = cc

set_scanout-IsShown_example :
    IsShown (set_scanout screens 1 7).0.scanouts (set_scanout screens 1 7).0.resources
set_scanout-IsShown_example = set_scanout-IsShown screens 1 7 screens-IsShown

set_scanout-has_scanout_example :
    let r = set_scanout screens 0 9 in
    (r.1 ≡ err_invalid_resource_id)
    × (get_elem? r.0.scanouts 0 ≡ some (some 7))
    × (has_scanout (find_resource r.0.resources 7) 0 ≡ false)
unfolding find_resource
set_scanout-has_scanout_example =
    set_scanout-has_scanout screens 0 9 7 screens-IsShown refl refl refl

shown : display_info screens ≡ ok_display_info ((640, 480, true) ∷ [])
unfolding display_info
shown = refl

edids : (get_edid screens 0 ≡ ok_edid (1 ∷ [])) × (get_edid screens 1 ≡ err_invalid_scanout_id)
unfolding get_edid edid_of
edids = (refl, refl)

flushed : flush_resource screens 9 ≡ err_invalid_resource_id
unfolding flush_resource find_resource
flushed = refl
