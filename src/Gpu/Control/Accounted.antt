-- ===== src/Gpu/Control/Accounted.antt =====
-- Every chain taken from the control queue is answered once, or waits for its fence.
use nesbox.Base.{ℕ, ◌+◌, ◌≡◌, Bool, List, [], ◌∷◌, if◌then◌else◌, has_bit}
use nesbox.Guest.{GuestMemory}
use nesbox.Gpu.Fences.{FenceDescriptor, ring_of}
use nesbox.Gpu.Fences.Settled.{IsSettled}
use nesbox.Gpu.Fences.Answered.{tally}
use nesbox.Gpu.Protocol.{CtrlHdr}
use nesbox.Gpu.Control.{Commands, Taken, Control}

-- How many chains with an index that passes a test are completed, or were taken.
pub done_with : (ℕ → Bool) → List (ℕ × ℕ) → ℕ
done_with test [] = 0
done_with test ((index, len) ∷ rest) = (if test index then 1 else 0) + done_with test rest

pub taken_with : (ℕ → Bool) → List Taken → ℕ
taken_with test [] = 0
taken_with test (t ∷ ts) = (if test t.desc_index then 1 else 0) + taken_with test ts

module _ {g : GuestMemory} (c : Commands g) (test : ℕ → Bool) where
  abbrev pub with_index : FenceDescriptor → Bool
  with_index d = test d.desc_index

  -- The chains that pass the test: completed, waiting for a fence, or retired by the handler.
  pub held : Control c → ℕ
  held s = done_with test s.completed + tally with_index s.fences.descs + tally with_index s.retired

  -- No chain waits for a fence that has signalled, and `n` more chains are held.
  pub record IsAccounted (s s' : Control c) (n : ℕ) : Type 0 where
    pub settled : IsSettled s'.fences
    pub accounted : held s' ≡ held s + n

  one : ℕ → ℕ
  one index = if test index then 1 else 0

  -- The end of a turn with a fence.
  fenced : ℕ → CtrlHdr → ℕ → FenceDescriptor
  fenced index h len = record {
    ring = ring_of (has_bit h.flags 1) h.ctx_id h.ring_idx;
    fence_id = h.fence_id;
    desc_index = index;
    len = len;
  }
