-- ===== src/Vram/Charges.antt =====
-- That no charge is lost or invented while it moves through the ledger.
use nesbox.Base.{
  ℕ, ◌+◌, ◌≤◌, ◌<◌, ◌≡◌, refl, inl, inr, List, [], ◌∷◌, Option, none, some, arith, ◌==◌, ◌&&◌,
  saturating_add64, Bool-cases, u64_mod,
}
use nesbox.Vram.Stream.{total}
use nesbox.Vram.Ledger.{
  Charge, Pending, Live, VramAccountant, retain_pending, retain_live, raise_pending, charge_all,
  remove_pending, insert_live, remove_live,
}

abbrev pub pending_bytes : List Pending → ℕ
pending_bytes [] = 0
pending_bytes (p ∷ ps) = p.charge.bytes + pending_bytes ps

abbrev pub live_bytes : List Live → ℕ
live_bytes [] = 0
live_bytes (l ∷ ls) = l.charge.bytes + live_bytes ls

-- The charges the accountant holds.
abbrev pub ledger : VramAccountant → ℕ
ledger v = pending_bytes v.pending + live_bytes v.live

pub raise_pending-le :
    (ctx_id blob_id bytes : ℕ) (ps : List Pending)
    → (pending_bytes ps ≤ pending_bytes (raise_pending ctx_id blob_id bytes ps))
      × (pending_bytes (raise_pending ctx_id blob_id bytes ps) ≤ pending_bytes ps + bytes)
unfolding raise_pending
raise_pending-le ctx_id blob_id bytes [] = ground arith
raise_pending-le ctx_id blob_id bytes (p ∷ ps) =
    ground (arith, raise_pending-le ctx_id blob_id bytes ps)

pub charge_all-le :
    (ctx_id : ℕ) (ps : List (ℕ × ℕ)) (v : VramAccountant)
    → v.charged + total ps < u64_mod
    → ((charge_all ctx_id ps v).charged ≡ v.charged + total ps)
      × (pending_bytes (charge_all ctx_id ps v).pending ≤ pending_bytes v.pending + total ps)
      × ((charge_all ctx_id ps v).live ≡ v.live)
unfolding charge_all
charge_all-le ctx_id [] v room = (omega arith, omega arith, refl)
charge_all-le ctx_id ((blob_id, bytes) ∷ ps) v room =
    let next = record v {
      pending = raise_pending ctx_id blob_id bytes v.pending;
      charged = saturating_add64 v.charged bytes;
    } in
    let one = raise_pending-le ctx_id blob_id bytes v.pending in
    let more = charge_all-le ctx_id ps next (omega arith) in (omega arith, omega arith, more.2)

pub retain_pending-bytes :
    (ctx_id : ℕ) (ps : List Pending)
    → pending_bytes (retain_pending ctx_id ps).0 + (retain_pending ctx_id ps).1 ≡ pending_bytes ps
unfolding retain_pending
retain_pending-bytes ctx_id [] = refl
retain_pending-bytes ctx_id (p ∷ ps) = ground (arith, retain_pending-bytes ctx_id ps)

pub retain_live-bytes :
    (ctx_id : ℕ) (ls : List Live)
    → live_bytes (retain_live ctx_id ls).0 + (retain_live ctx_id ls).1 ≡ live_bytes ls
unfolding retain_live
retain_live-bytes ctx_id [] = refl
retain_live-bytes ctx_id (l ∷ ls) = ground (arith, retain_live-bytes ctx_id ls)

-- What a removal gives: a charge, and the rest, which lacks its bytes.
abbrev pub PendingTaken : List Pending → Option (Charge × List Pending) → Type 0
PendingTaken ps none = Unit {0}
PendingTaken ps (some (c, rest)) = c.bytes + pending_bytes rest ≡ pending_bytes ps

abbrev pub LiveTaken : List Live → Option (Charge × List Live) → Type 0
LiveTaken ls none = Unit {0}
LiveTaken ls (some (c, rest)) = c.bytes + live_bytes rest ≡ live_bytes ls

pub remove_pending-Taken :
    (ctx_id blob_id : ℕ) (ps : List Pending) → PendingTaken ps (remove_pending ctx_id blob_id ps)
unfolding remove_pending
remove_pending-Taken ctx_id blob_id [] = tt
remove_pending-Taken ctx_id blob_id (p ∷ ps) =
    elim (Bool-cases (p.ctx == ctx_id && p.blob_id == blob_id)) [
      | inl e ↦ rw e refl
      | inr e ↦
          rw e (more (remove_pending ctx_id blob_id ps) (remove_pending-Taken ctx_id blob_id ps))
    ]
  where
    more :
        (o : Option (Charge × List Pending))
        → PendingTaken ps o
        → PendingTaken (p ∷ ps) (elim o [ none ↦ none | some r ↦ some (r.0, p ∷ r.1) ])
    more none h = tt
    more (some (c, rest)) h = omega arith

pub remove_live-Taken :
    (resource_id : ℕ) (ls : List Live) → LiveTaken ls (remove_live resource_id ls)
unfolding remove_live
remove_live-Taken resource_id [] = tt
remove_live-Taken resource_id (l ∷ ls) = elim (Bool-cases (l.resource_id == resource_id)) [
  | inl e ↦ rw e refl
  | inr e ↦ rw e (more (remove_live resource_id ls) (remove_live-Taken resource_id ls))
]
  where
    more :
        (o : Option (Charge × List Live))
        → LiveTaken ls o
        → LiveTaken (l ∷ ls) (elim o [ none ↦ none | some r ↦ some (r.0, l ∷ r.1) ])
    more none h = tt
    more (some (c, rest)) h = omega arith

pub insert_live-le :
    (resource_id : ℕ) (c : Charge) (ls : List Live)
    → live_bytes (insert_live resource_id c ls) ≤ c.bytes + live_bytes ls
unfolding insert_live
insert_live-le resource_id c [] = omega arith
insert_live-le resource_id c (l ∷ ls) = ground (arith, insert_live-le resource_id c ls)
