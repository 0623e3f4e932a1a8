-- ===== src/Blk/Request/Errors.antt =====
-- Where a request that fails is reported, and which requests cannot fail.
use nesbox.Base.{
  ℕ, suc, ◌-◌, ◌≤◌, ◌≡◌, ◌⊎◌, ◌∙◌, refl, sym, subst, arith, inl, inr, Bool, true, not, ◌||◌, Option,
  none, some, List, [], ◌∷◌, length, get_elem?, ltb, ◌==◌, has_bit, if-holds, ◌>>=◌,
}
use mathlib.Core.Option.{some_inj}
use nesbox.Guest.{GuestMemory}
use nesbox.Virtqueue.{Desc, desc_f_write}
use nesbox.Blk.Disk.{Disk}
use nesbox.Blk.Request.{
  Segment, Parsed, malformed, rejected, request, failed, Decided, issue, refuse, split_last,
  decide_transfer, decide_range, range_segment, read_discard_segment, decide_kind, parse_kind,
  conclude, read_request, parse_chain, parse, blk_s_ioerr, blk_s_unsupp, blk_t_discard,
}

-- The descriptor that takes the status: the last of at least two, writable, of at least one byte.
pub record IsStatus (descs : List Desc) (d : Desc) : Type 0 where
  pub two : 2 ≤ length descs
  pub at_end : get_elem? descs (length descs - 1) ≡ some d
  pub has_room : 1 ≤ d.len
  pub writable : has_bit d.flags desc_f_write ≡ true

pub IsFailure : ℕ → Type 0
IsFailure status = (status ≡ blk_s_ioerr) ⊎ (status ≡ blk_s_unsupp)

-- What the outcome says of the place for the status.
pub Reports : ℕ → List Desc → Parsed → Type 0
Reports head descs (failed malformed) = (d : Desc) → IsStatus descs d → ⊥
Reports head descs (failed (rejected addr status)) =
    (d : Desc) × IsStatus descs d × (addr ≡ d.addr) × IsFailure status
Reports head descs (request r) =
    (d : Desc) × IsStatus descs d × (r.status_addr ≡ d.addr) × (r.head ≡ head)

split_last-at_end :
    (d : Desc) (ds : List Desc) → get_elem? (d ∷ ds) (length ds) ≡ some (split_last d ds).1
unfolding split_last
split_last-at_end d [] = refl
split_last-at_end d (e ∷ es) = split_last-at_end e es

FailsWell : Decided → Type 0
FailsWell (refuse status) = IsFailure status
FailsWell (issue op offset) = Unit

ioerr : IsFailure blk_s_ioerr
unfolding IsFailure
ioerr = inl refl

decide_transfer-FailsWell :
    (disk : Disk) (is_write : Bool) (sector total : ℕ)
    → FailsWell (decide_transfer disk is_write sector total)
unfolding decide_transfer FailsWell IsFailure
decide_transfer-FailsWell disk is_write sector total = ground arith

decide_range-FailsWell :
    (disk : Disk) (is_discard : Bool) (seg : ℕ × ℕ × ℕ)
    → FailsWell (decide_range disk is_discard seg)
unfolding decide_range FailsWell IsFailure
decide_range-FailsWell disk is_discard (start, count, flags) = ground arith

module _ (g : GuestMemory) (m : g.Mem) where
  decide_kind-FailsWell :
      (disk : Disk) (kind sector : ℕ) (segments : List Segment) (total : ℕ)
      → FailsWell (decide_kind g m disk kind sector segments total)
  unfolding decide_kind FailsWell IsFailure
  decide_kind-FailsWell disk kind sector segments total =
      if-holds FailsWell ((kind == 0) || (kind == 1))
        (λ e. decide_transfer-FailsWell disk (kind == 1) sector total)
        (λ e.
          if-holds FailsWell (kind == 4) (λ f. tt)
            (λ f.
              if-holds FailsWell (kind == 8) (λ k. tt)
                (λ k.
                  if-holds FailsWell ((kind == 11) || (kind == 13))
                    (λ r.
                      if-holds FailsWell disk.read_only (λ w. inl refl)
                        (λ w.
                          ranged (range_segment segments >>= λ s. read_discard_segment g m s.addr)))
                    (λ r. inr refl))))
    where
      ranged :
          (seg : Option (ℕ × ℕ × ℕ))
          → FailsWell (elim seg [
            | none ↦ refuse blk_s_ioerr
            | some s ↦ decide_range disk (kind == blk_t_discard) s
          ])
      ranged none = inl refl
      ranged (some s) = decide_range-FailsWell disk (kind == blk_t_discard) s

  parse_kind-Reports :
      (disk : Disk) (head : ℕ) (descs : List Desc) (d : Desc) (kind sector : ℕ)
      (kept : List Segment × ℕ)
      → IsStatus descs d
      → Reports head descs (parse_kind g m disk head d.addr kind sector kept)
  unfolding parse_kind conclude Reports FailsWell
  parse_kind-Reports disk head descs d kind sector (segments, total) h =
      after (decide_kind g m disk kind sector segments total)
        (decide_kind-FailsWell disk kind sector segments total)
    where
      after :
          (c : Decided) → FailsWell c → Reports head descs (conclude head d.addr segments total c)
      after (refuse status) f = (d, h, refl, f)
      after (issue op offset) f = (d, h, refl, refl)

  no_room :
      (d : Desc)
      → (ltb d.len 1 || not (has_bit d.flags desc_f_write)) ≡ true
      → 1 ≤ d.len
      → has_bit d.flags desc_f_write ≡ true
      → ⊥
  no_room d e room w = ground (arith, e, room, w)

  parse_chain-Reports :
      (disk : Disk) (head : ℕ) (header : Desc) (ds descs : List Desc) (d : Desc)
      → 2 ≤ length descs
      → get_elem? descs (length descs - 1) ≡ some d
      → Reports head descs (parse_chain g m disk head header (ds, d))
  unfolding parse_chain Reports
  parse_chain-Reports disk head header ds descs d two at_end =
      if-holds (Reports head descs) (ltb d.len 1 || not (has_bit d.flags desc_f_write))
        (λ e c s.
          let same = some_inj.0 (sym s.at_end ∙ at_end) in
          no_room d e (subst (λ x. 1 ≤ x.len) same s.has_room)
            (subst (λ x. has_bit x.flags desc_f_write ≡ true) same s.writable))
        (λ e.
          after
            (record {
              two = two;
              at_end = at_end;
              has_room = ground (arith, e);
              writable = ground (arith, e);
            })
            (read_request g m header ds))
    where
      after :
          IsStatus descs d
          → (o : Option (ℕ × ℕ × List Segment × ℕ))
          → Reports head descs (elim o [
            | none ↦ failed (rejected d.addr blk_s_ioerr)
            | some (kind, sector, segments, total) ↦
                parse_kind g m disk head d.addr kind sector (segments, total)
          ])
      after h none = (d, h, refl, ioerr)
      after h (some (kind, sector, segments, total)) =
          parse_kind-Reports disk head descs d kind sector (segments, total) h

  -- Whatever the chain, its outcome is reported where the guest asked for it. The chain is malformed
  -- exactly when it has no status descriptor, the last of at least two, writable and not empty; every
  -- other outcome, a rejection with one of the two error statuses or a request under the head given,
  -- carries the address of that descriptor.
  pub parse-Reports :
      (disk : Disk) (head : ℕ) (descs : List Desc) → Reports head descs (parse g m disk head descs)
  unfolding parse Reports
  parse-Reports disk head [] = λ d s. omega (arith, s.two)
  parse-Reports disk head (d ∷ []) = λ d s. omega (arith, s.two)
  parse-Reports disk head (header ∷ d ∷ ds) =
      parse_chain-Reports disk head header (split_last d ds).0 (header ∷ d ∷ ds) (split_last d ds).1
        (omega arith)
        (subst (λ n. get_elem? (header ∷ d ∷ ds) n ≡ some (split_last d ds).1) {x = suc (length ds)}
          (omega arith) (split_last-at_end d ds))
