-- ===== src/Msix/Tests.antt =====
-- A table of two entries: bound to two vectors, its first entry masked with an interrupt pending.
use nesbox.Base.{
  ℕ, zero, suc, ◌*◌, ◌+◌, ◌<◌, ◌≡◌, ◌≢◌, refl, true, not, ◌&&◌, List, [], ◌∷◌, ◌++◌, some,
  get_elem?, replicate, arith,
}
use nesbox.Msix.{
  route, signal, MsixTable, new_table, bind, splice, masked, program_route, write, trigger_unmasked,
  call_fd,
}
use nesbox.Msix.Control.{KeptAt, msix_msg_ctl, write_msix_control, write_msix_control-KeptAt}
use nesbox.Msix.Delivery.{IsBound, pending, write_lem}

abbrev zeros : List ℕ
zeros = replicate 16 0

abbrev masked_entry : List ℕ
masked_entry = replicate 12 0 ++ 1 ∷ 0 ∷ 0 ∷ 0 ∷ []

abbrev table : MsixTable
table = record {
  entries = masked_entry ∷ zeros ∷ [];
  pba = 1;
  enabled = true;
  vectors = 24 ∷ 25 ∷ [];
  routed = true;
  intx = true;
}

bound : IsBound table
bound = record { on = refl; vector = vector }
  where
    vector : (idx : ℕ) → idx < 2 → (gsi : ℕ) × (get_elem? (24 ∷ 25 ∷ []) idx ≡ some gsi)
    vector zero h = (24, refl)
    vector (suc zero) h = (25, refl)
    vector (suc (suc n)) h = absurd (omega arith)

-- The write that clears the mask of entry 0 delivers what was pending.
write_lem_example :
    let t' = (write table (0 * 16 + 12) (0 ∷ 0 ∷ 0 ∷ 0 ∷ [])).0 in
    let deliver_now = (write table (0 * 16 + 12) (0 ∷ 0 ∷ 0 ∷ 0 ∷ [])).1 in
    (deliver_now ≡ (masked table 0 && not (masked t' 0) && pending table 0))
    × (pending t' 0 ≡ (pending table 0 && not deliver_now))
    × ((j : ℕ)
        → j ≢ 0
        → (get_elem? t'.entries j ≡ get_elem? table.entries j)
          × (masked t' j ≡ masked table j)
          × (pending t' j ≡ pending table j))
write_lem_example = write_lem table 0 12 (0 ∷ 0 ∷ 0 ∷ 0 ∷ []) refl (omega arith)

new_table_test : (bind (new_table 2) (24 ∷ 25 ∷ [])).entries ≡ zeros ∷ zeros ∷ []
unfolding new_table bind
new_table_test = refl

splice_test : splice (1 ∷ 2 ∷ 3 ∷ []) 1 (9 ∷ []) ≡ 1 ∷ 9 ∷ 3 ∷ []
unfolding splice
splice_test = refl

program_route_test :
    program_route table 1 (0 ∷ 0 ∷ 0 ∷ 1 ∷ 0 ∷ 0 ∷ 0 ∷ 0 ∷ 5 ∷ []) ≡ route 25 0x100_0000 5 ∷ []
unfolding program_route
program_route_test = refl

trigger_unmasked_test : trigger_unmasked table 0 ≡ signal 24 ∷ []
unfolding trigger_unmasked
trigger_unmasked_test = refl

abbrev space : List ℕ
space = replicate 64 7

write_msix_control-KeptAt_example :
    KeptAt (32 + msix_msg_ctl) space (write_msix_control space 32 34 (0xff ∷ 0xff ∷ [])) 35
write_msix_control-KeptAt_example =
    write_msix_control-KeptAt space 32 34 (0xff ∷ 0xff ∷ []) 35 (omega arith)

call_fd_test : call_fd table 1 ≡ signal 25 ∷ []
unfolding call_fd
call_fd_test = refl
