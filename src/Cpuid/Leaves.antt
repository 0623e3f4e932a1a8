-- ===== src/Cpuid/Leaves.antt =====
-- What is read of the table after calls of `set`.
use nesbox.Base.{
  ℕ, ◌+◌, ◌≤◌, ◌≡◌, ◌≢◌, refl, ◌∙◌, ap, Bool, ◌&&◌, none, some, List, [], ◌∷◌, ◌++◌, length, ltb,
  ◌==◌, if◌then◌else◌, arith, if-holds, Bool-cases, inl, inr, Option-cases, length-append, lt→ltb,
}
use nesbox.Cpuid.{
  Entry, CpuId, Reg, eax, ebx, ecx, edx, same_reg, read_reg, write_reg, is_at, find, replace, blank,
  push, set_found, set, get_found, get, Write, set_all,
}

-- What a register reads once another, or the same, has been written.
after_write : Bool → ℕ → ℕ → ℕ
after_write same value old = if same then value else old

read_reg-write_reg :
    (r s : Reg) (v : ℕ) (e : Entry)
    → read_reg s (write_reg r v e) ≡ (if same_reg r s then v else read_reg s e)
unfolding read_reg write_reg
read_reg-write_reg eax eax v e = refl
read_reg-write_reg eax ebx v e = refl
read_reg-write_reg eax ecx v e = refl
read_reg-write_reg eax edx v e = refl
read_reg-write_reg ebx eax v e = refl
read_reg-write_reg ebx ebx v e = refl
read_reg-write_reg ebx ecx v e = refl
read_reg-write_reg ebx edx v e = refl
read_reg-write_reg ecx eax v e = refl
read_reg-write_reg ecx ebx v e = refl
read_reg-write_reg ecx ecx v e = refl
read_reg-write_reg ecx edx v e = refl
read_reg-write_reg edx eax v e = refl
read_reg-write_reg edx ebx v e = refl
read_reg-write_reg edx ecx v e = refl
read_reg-write_reg edx edx v e = refl

is_at-write_reg :
    (f i : ℕ) (r : Reg) (v : ℕ) (e : Entry) → is_at f i (write_reg r v e) ≡ is_at f i e
unfolding write_reg
is_at-write_reg f i eax v e = refl
is_at-write_reg f i ebx v e = refl
is_at-write_reg f i ecx v e = refl
is_at-write_reg f i edx v e = refl

read_reg-blank : (r : Reg) (f i : ℕ) → read_reg r (blank f i) ≡ 0
unfolding read_reg blank
read_reg-blank eax f i = refl
read_reg-blank ebx f i = refl
read_reg-blank ecx f i = refl
read_reg-blank edx f i = refl

-- A place of the table: a register of a function and an index.
abbrev same_place : ℕ → ℕ → Reg → ℕ → ℕ → Reg → Bool
same_place f i r f' i' r' = (f == f') && ((i == i') && same_reg r r')

abbrev pub hits : Write → ℕ → ℕ → Reg → Bool
hits w f i r = same_place w.function w.index w.reg f i r

find-replace :
    (es : List Entry) (f i f' i' : ℕ) (r r' : Reg) (v : ℕ) {es' : List Entry}
    → replace es f i r v ≡ some es'
    → get_found r' (find es' f' i')
      ≡ (if same_place f i r f' i' r' then v else get_found r' (find es f' i'))
unfolding find replace get_found
find-replace [] f i f' i' r r' v h = cc
find-replace (e ∷ es) f i f' i' r r' v h = elim (Bool-cases (is_at f i e)) [
  | inl here ↦ ground (arith, is_at-write_reg f' i' r v e, read_reg-write_reg r r' v e)
  | inr away ↦ elim (Option-cases (replace es f i r v)) [
    | inl nowhere ↦ ground arith
    | inr (es'', later) ↦ ground (arith, find-replace es f i f' i' r r' v later)
  ]
]

find-push :
    (es : List Entry) (f i f' i' : ℕ) (r r' : Reg) (v : ℕ)
    → replace es f i r v ≡ none
    → get_found r' (find (es ++ write_reg r v (blank f i) ∷ []) f' i')
      ≡ (if same_place f i r f' i' r' then v else get_found r' (find es f' i'))
unfolding find replace get_found blank
find-push [] f i f' i' r r' v h = ground (
  arith,
  is_at-write_reg f' i' r v (blank f i),
  read_reg-write_reg r r' v (blank f i),
  read_reg-blank r' f i,
)
find-push (e ∷ es) f i f' i' r r' v h = elim (Bool-cases (is_at f i e)) [
  | inl here ↦ ground arith
  | inr away ↦ elim (Option-cases (replace es f i r v)) [
    | inl nowhere ↦ ground (arith, find-push es f i f' i' r r' v nowhere)
    | inr (es'', later) ↦ ground arith
  ]
]

-- The table has room for `n` more entries.
abbrev pub HasRoom : ℕ → CpuId → Type 0
HasRoom n c = length c.entries + n ≤ c.most

get-set :
    (c : CpuId) (f i f' i' : ℕ) (r r' : Reg) (v : ℕ)
    → HasRoom 1 c
    → get (set c f i r v) f' i' r' ≡ (if same_place f i r f' i' r' then v else get c f' i' r')
unfolding get set set_found push
get-set c f i f' i' r r' v room = elim (Option-cases (replace c.entries f i r v)) [
  | inl nowhere ↦
      rw (nowhere, set)
        (rw (lt→ltb (length c.entries) c.most (omega arith), set)
          (find-push c.entries f i f' i' r r' v nowhere))
  | inr (es, found) ↦ rw (found, set) (find-replace c.entries f i f' i' r r' v found)
]

length-replace :
    (es : List Entry) (f i : ℕ) (r : Reg) (v : ℕ) {es' : List Entry}
    → replace es f i r v ≡ some es'
    → length es' ≡ length es
unfolding replace
length-replace [] f i r v h = cc
length-replace (e ∷ es) f i r v h = elim (Option-cases (replace es f i r v)) [
  | inl nowhere ↦ ground arith
  | inr (es'', later) ↦ ground (arith, length-replace es f i r v later)
]

set-HasRoom :
    (c : CpuId) (f i : ℕ) (r : Reg) (v n : ℕ) → HasRoom (n + 1) c → HasRoom n (set c f i r v)
unfolding set set_found push
set-HasRoom c f i r v n room = elim (Option-cases (replace c.entries f i r v)) [
  | inl nowhere ↦
      rw (nowhere, set)
        (rw (lt→ltb (length c.entries) c.most (omega arith), set)
          (omega (arith, length-append c.entries (write_reg r v (blank f i) ∷ []))))
  | inr (es, found) ↦ rw (found, set) (omega (arith, length-replace c.entries f i r v found))
]

-- The last value that the calls write to a place, or else `old`.
abbrev pub last_of : List Write → ℕ → ℕ → Reg → ℕ → ℕ
last_of [] f i r old = old
last_of (w ∷ ws) f i r old = last_of ws f i r (if hits w f i r then w.value else old)

-- After calls of `set` a place reads the last value written to it, and what it did before if there is
-- none, when the table has room for an entry for each call.
pub get-set_all :
    (c : CpuId) (ws : List Write) (f i : ℕ) (r : Reg)
    → HasRoom (length ws) c
    → get (set_all c ws) f i r ≡ last_of ws f i r (get c f i r)
unfolding set_all
get-set_all c [] f i r room = refl
get-set_all c (w ∷ ws) f i r room =
    get-set_all (set c w.function w.index w.reg w.value) ws f i r
      (set-HasRoom c w.function w.index w.reg w.value (length ws) (omega arith))
    ∙ ap (last_of ws f i r) (get-set c w.function w.index f i w.reg r w.value (omega arith))

-- Whether or not there is room, a write to another function changes nothing of this one.
pub get-set_apart :
    (c : CpuId) (f i f' i' : ℕ) (r r' : Reg) (v : ℕ)
    → f ≢ f'
    → get (set c f i r v) f' i' r' ≡ get c f' i' r'
unfolding get set set_found push
get-set_apart c f i f' i' r r' v apart = elim (Option-cases (replace c.entries f i r v)) [
  | inl nowhere ↦
      rw (nowhere, set)
        (if-holds (λ (d : CpuId). get_found r' (find d.entries f' i') ≡ get c f' i' r')
          (ltb (length c.entries) c.most)
          (λ _. find-push c.entries f i f' i' r r' v nowhere ∙ ground arith) (λ _. refl))
  | inr (es, found) ↦ rw (found, set) (find-replace c.entries f i f' i' r r' v found ∙ ground arith)
]
