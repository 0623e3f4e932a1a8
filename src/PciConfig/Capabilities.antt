-- ===== src/PciConfig/Capabilities.antt =====
-- The list of capabilities that a guest walks.
use nesbox.Base.{
  ℕ, ◌+◌, ◌≤◌, ◌<◌, ◌≡◌, ◌≢◌, refl, sym, subst, ◌∙◌, ◌⊎◌, inl, inr, List, [], ◌∷◌, ◌++◌, some, ltb,
  leb, not, ◌&&◌, length, arith, Bool-cases,
}
use nesbox.Transport.{write_val}
use nesbox.PciConfig.{
  PciConfig, first_cap, cap_max, cap_list_head, put, next_dword, link_of, linked, add_cap,
  new_config,
}

-- A capability as it was added.
pub record Cap : Type 0 where
  pub at : ℕ
  pub id : ℕ
  pub payload : List ℕ

abbrev pub end_of : Cap → ℕ
end_of c = c.at + (2 + length c.payload)

-- The bytes from `a` on.
abbrev pub Spells : (ℕ → ℕ) → ℕ → List ℕ → Type 0
Spells d a [] = Unit {0}
Spells d a (b ∷ bs) = (d a ≡ b) × Spells d (a + 1) bs

-- The pointer at `p` leads through exactly these capabilities, each with its id and its payload, and
-- the last one's pointer is 0.
abbrev pub Leads : (ℕ → ℕ) → ℕ → List Cap → Type 0
Leads d p [] = d p ≡ 0
Leads d p (c ∷ cs) =
    (d p ≡ c.at) × (d c.at ≡ c.id) × Spells d (c.at + 2) c.payload × Leads d (c.at + 1) cs

-- They stand in order, without overlap, between `lo` and `hi`.
abbrev pub Ordered : ℕ → ℕ → List Cap → Type 0
Ordered lo hi [] = lo ≤ hi
Ordered lo hi (c ∷ cs) = (lo ≤ c.at) × Ordered (end_of c) hi cs

abbrev pub last_link : ℕ → List Cap → ℕ
last_link p [] = p
last_link p (c ∷ cs) = last_link (c.at + 1) cs

put_below : (d : ℕ → ℕ) (at : ℕ) (bs : List ℕ) (i : ℕ) → i < at → put d at bs i ≡ d i
unfolding put
put_below d at [] i h = refl
put_below d at (b ∷ bs) i h = ground (arith, put_below d (at + 1) bs i)

put_ne : (d : ℕ → ℕ) (at b i : ℕ) → i ≢ at → put d at (b ∷ []) i ≡ d i
unfolding put
put_ne d at b i h = ground arith

Spells-same :
    (d e : ℕ → ℕ) (a hi : ℕ) (bs : List ℕ)
    → a + length bs ≤ hi
    → ((i : ℕ) → a ≤ i → i < hi → e i ≡ d i)
    → Spells d a bs
    → Spells e a bs
Spells-same d e a hi [] h same s = tt
Spells-same d e a hi (b ∷ bs) h same s = (
  same a (omega arith) (omega arith) ∙ s.0,
  Spells-same d e (a + 1) hi bs (omega arith) (λ i l u. same i (omega arith) u) s.1,
)

Spells-put : (d : ℕ → ℕ) (a : ℕ) (bs : List ℕ) → Spells (put d a bs) a bs
unfolding put
Spells-put d a [] = tt
Spells-put d a (b ∷ bs) = (
  ground arith,
  Spells-same (put d (a + 1) bs) (put d a (b ∷ bs)) (a + 1) (a + 1 + length bs) bs (omega arith)
      (λ i l u. ground arith) (Spells-put d (a + 1) bs),
)

last_link-le :
    (p lo hi : ℕ) (cs : List Cap)
    → p < lo
    → Ordered lo hi cs
    → (p ≤ last_link p cs) × (last_link p cs < hi)
last_link-le p lo hi [] h o = (omega arith, omega arith)
last_link-le p lo hi (c ∷ cs) h o =
    let t = last_link-le (c.at + 1) (end_of c) hi cs (omega arith) o.1 in (omega arith, omega arith)

-- The last pointer is the one given, or in one of the capabilities.
last_link-out :
    (p lo hi : ℕ) (cs : List Cap) → Ordered lo hi cs → (last_link p cs ≡ p) ⊎ (lo < last_link p cs)
last_link-out p lo hi [] o = inl refl
last_link-out p lo hi (c ∷ cs) o = elim (last_link-out (c.at + 1) (end_of c) hi cs o.1) [
  | inl e ↦ inr (omega arith)
  | inr e ↦ inr (omega arith)
]

-- The bytes once a capability is written at `start` and the pointer at `p` is patched.
abbrev patched : (ℕ → ℕ) → ℕ → ℕ → ℕ → List ℕ → ℕ → ℕ
patched d p start id payload = put (put d start (id ∷ 0 ∷ payload)) p (start ∷ [])

patched-old :
    (d : ℕ → ℕ) (p start id i : ℕ) (payload : List ℕ)
    → i < start
    → i ≢ p
    → patched d p start id payload i ≡ d i
patched-old d p start id i payload h ne =
    put_ne (put d start (id ∷ 0 ∷ payload)) p start i ne ∙ put_below d start (id ∷ 0 ∷ payload) i h

patched-Leads :
    (d : ℕ → ℕ) (p start id : ℕ) (payload : List ℕ)
    → p < start
    → Leads
        (patched d p start id payload)
        p
        (record { at = start; id = id; payload = payload } ∷ [])
unfolding put
patched-Leads d p start id payload h =
    let all : List ℕ = id ∷ 0 ∷ payload in
    let s =
      Spells-same (put d start all) (patched d p start id payload) start (start + length all) all
        (omega arith) (λ i l u. put_ne (put d start all) p start i (omega arith))
        (Spells-put d start all) in
    (
      ground arith,
      s.0,
      subst (λ a. Spells (patched d p start id payload) a payload) (omega arith) s.1.1,
      s.1.0,
    )

-- Adding a capability past the others extends the list by it.
patched-Leads_append :
    (d : ℕ → ℕ) (p lo start id : ℕ) (payload : List ℕ) (cs : List Cap)
    → p < lo
    → Ordered lo start cs
    → Leads d p cs
    → Leads
        (patched d (last_link p cs) start id payload)
        p
        (cs ++ record { at = start; id = id; payload = payload } ∷ [])
patched-Leads_append d p lo start id payload [] h o l =
    patched-Leads d p start id payload (omega arith)
patched-Leads_append d p lo start id payload (c ∷ cs) h o l =
    let t = last_link (c.at + 1) cs in
    let le = last_link-le (c.at + 1) (end_of c) start cs (omega arith) o.1 in
    let out = last_link-out (c.at + 1) (end_of c) start cs o.1 in
    let top = end-le (end_of c) cs o.1 in
    (
      patched-old d t start id p payload (omega arith) (omega arith) ∙ l.0,
      patched-old d t start id c.at payload (omega arith) (omega arith) ∙ l.1,
      Spells-same d (patched d t start id payload) (c.at + 2) (end_of c) c.payload (omega arith)
          (λ i a b. patched-old d t start id i payload (omega arith) (omega (arith, out))) l.2,
      patched-Leads_append d (c.at + 1) (end_of c) start id payload cs (omega arith) o.1 l.3,
    )
  where
    end-le : (m : ℕ) (xs : List Cap) → Ordered m start xs → m ≤ start
    end-le m [] o = o
    end-le m (x ∷ xs) o = let r = end-le (end_of x) xs o.1 in omega arith

Ordered-append :
    (lo hi to : ℕ) (cs : List Cap) (n : Cap)
    → Ordered lo hi cs
    → hi ≤ n.at
    → end_of n ≤ to
    → Ordered lo to (cs ++ n ∷ [])
Ordered-append lo hi to [] n o h e = (omega arith, e)
Ordered-append lo hi to (c ∷ cs) n o h e = (o.0, Ordered-append (end_of c) hi to cs n o.1 h e)

last_link-append : (p : ℕ) (cs : List Cap) (n : Cap) → last_link p (cs ++ n ∷ []) ≡ n.at + 1
last_link-append p [] n = refl
last_link-append p (c ∷ cs) n = last_link-append (c.at + 1) cs n

-- The builder holds exactly these capabilities, reachable from the header in this order.
pub record IsBuilt (c : PciConfig) (cs : List Cap) : Type 0 where
  pub walk : Leads c.space cap_list_head cs
  pub places : Ordered first_cap c.next_cap_start cs
  pub link : link_of c.last_cap_offset ≡ last_link cap_list_head cs

linked-IsBuilt :
    (c : PciConfig) (cap_id : ℕ) (payload : List ℕ) (cs : List Cap)
    → IsBuilt c cs
    → IsBuilt
        (linked c cap_id payload)
        (cs ++ record { at = c.next_cap_start; id = cap_id; payload = payload } ∷ [])
unfolding linked
linked-IsBuilt c cap_id payload cs h =
    let new : Cap = record { at = c.next_cap_start; id = cap_id; payload = payload } in
    record {
      walk =
          subst
            (λ p.
              Leads (patched c.space p c.next_cap_start cap_id payload) cap_list_head
                (cs ++ new ∷ []))
            (sym h.link)
            (patched-Leads_append c.space cap_list_head first_cap c.next_cap_start cap_id payload cs
              (omega arith) h.places h.walk);
      places =
          Ordered-append first_cap c.next_cap_start (next_dword (end_of new)) cs new h.places
            (omega arith) (omega arith);
      link = sym (last_link-append cap_list_head cs new);
    }

add_cap-inversion :
    (c c' : PciConfig) (cap_id at : ℕ) (payload : List ℕ)
    → add_cap c cap_id payload ≡ some (c', at)
    → (linked c cap_id payload ≡ c') × (c.next_cap_start ≡ at)
unfolding add_cap
add_cap-inversion c c' cap_id at payload e =
    elim (Bool-cases (not (leb first_cap c.next_cap_start && ltb c.next_cap_start cap_max))) [
      | inl full ↦ ground (arith, full)
      | inr room ↦ elim (Bool-cases (ltb cap_max (c.next_cap_start + (2 + length payload)))) [
        | inl large ↦ ground (arith, room, large)
        | inr fits ↦ (ground (arith, room, fits), ground (arith, room, fits))
      ]
    ]

-- A capability that is added stands at the offset returned and at the end of the list that a guest
-- walks from the header; those before it keep their places, their ids and their payloads.
pub add_cap-IsBuilt :
    (c c' : PciConfig) (cap_id at : ℕ) (payload : List ℕ) (cs : List Cap)
    → IsBuilt c cs
    → add_cap c cap_id payload ≡ some (c', at)
    → IsBuilt c' (cs ++ record { at = at; id = cap_id; payload = payload } ∷ [])
add_cap-IsBuilt c c' cap_id at payload cs h e =
    let v = add_cap-inversion c c' cap_id at payload e in
    subst (λ d. IsBuilt d (cs ++ record { at = at; id = cap_id; payload = payload } ∷ [])) v.0
      (subst
        (λ a.
          IsBuilt (linked c cap_id payload)
            (cs ++ record { at = a; id = cap_id; payload = payload } ∷ []))
        v.1 (linked-IsBuilt c cap_id payload cs h))

-- A new configuration space has no capabilities, whatever its ids.
pub new_config-IsBuilt :
    (vendor device revision class_code subsystem_vendor subsystem_id : ℕ)
    → IsBuilt (new_config vendor device revision class_code subsystem_vendor subsystem_id) []
unfolding new_config put write_val
new_config-IsBuilt vendor device revision class_code subsystem_vendor subsystem_id = record {
  walk = refl;
  places = omega arith;
  link = refl;
}
