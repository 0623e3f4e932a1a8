-- ===== src/Vram/Tests.antt =====
-- One context that asks for a buffer of device memory, and gives it back.
use nesbox.Base.{ℕ, ◌≡◌, refl, List, [], ◌∷◌, ◌++◌, some, replicate, arith}
use nesbox.Vram.{Scan, parsed, scan_stream}
use nesbox.Vram.Stream.{IsTallied}
use nesbox.Vram.Counted.{
  Command, new_buffer, other, stream_bytes, in_vram, FitsCommand, scan_stream-stream_bytes,
}
use nesbox.Vram.Ledger.{Gauges, VramAccountant, observe_submit, watermark_step, note_context}
use nesbox.Vram.Covered.{IsCovered, blob_made, handle, handle-IsCovered}

-- A GEM_NEW record of 48 bytes: blob 7, 4096 bytes, preferred heap VRAM.
abbrev gem : List ℕ
gem =
    2 ∷ 0 ∷ 0 ∷ 0 ∷ 48 ∷ 0 ∷ 0 ∷ 0 ∷ replicate 8 0
    ++ 7 ∷ replicate 7 0
    ++ 0 ∷ 16 ∷ replicate 6 0
    ++ replicate 8 0
    ++ 4 ∷ replicate 7 0

abbrev zero_gauges : Gauges
zero_gauges = record { vram_bytes = 0; vram_peak_bytes = 0; vram_over_budget = 0; gtt_bytes = 0 }

abbrev accountant : VramAccountant
accountant = record {
  limit = 1000;
  charged = 4096;
  pending = record { ctx = 1; blob_id = 3; charge = record { bytes = 4096; ctx_id = 1 } } ∷ [];
  live = [];
  drm_contexts = 1 ∷ [];
  gtt_charged = 0;
  peak = 4096;
  over_budget = 0;
  reported_peak = 0;
  gauges = record {
    vram_bytes = 4096;
    vram_peak_bytes = 4096;
    vram_over_budget = 0;
    gtt_bytes = 0;
  };
}

scan_gem :
    scan_stream 1000 0 gem
    ≡ parsed (record {
      proposed = (7, 4096) ∷ [];
      proposed_gtt = 0;
      tentative = 4096;
      over = some (4096, 0, 1000);
      over_count = 1;
    })
unfolding scan_stream
scan_gem = refl

-- The same record, and a command of another kind.
abbrev written : List Command
written = new_buffer 0 7 4096 0 4 0 [] ∷ other 5 9 (replicate 8 1) ∷ []

scan_stream-stream_bytes_example :
    (end : Scan) × (scan_stream 1000 0 (stream_bytes written) ≡ parsed end)
    × (end.proposed ≡ in_vram written)
    × IsTallied 1000 0 end
unfolding FitsCommand
scan_stream-stream_bytes_example =
    scan_stream-stream_bytes 1000 0 written (omega arith) (omega arith) (
      (omega arith, omega arith, omega arith, omega arith, refl),
      ((omega arith, (λ e. absurd (omega (arith, e))), omega arith, refl), tt),
    )

covered : IsCovered accountant
covered = record {
  covered = omega arith;
  in_range = omega arith;
  under_peak = omega arith;
  published = (refl, refl, refl, refl);
}

handle-IsCovered_example : IsCovered (handle accountant (blob_made 1 3 9))
handle-IsCovered_example = handle-IsCovered accountant (blob_made 1 3 9) covered tt

watermark_step_test : watermark_step 0x1_0000_0000 ≡ 67108864
unfolding watermark_step
watermark_step_test = refl

submitted_test : (observe_submit accountant 1 gem).0.charged ≡ 8192
unfolding observe_submit scan_stream
submitted_test = refl

note_context_test : (note_context accountant 2 0x106).drm_contexts ≡ 2 ∷ 1 ∷ []
unfolding note_context
note_context_test = refl
