-- ===== src/Interrupt/Routes.antt =====
-- What a route is after it is set, and what a refused table leaves behind.
use nesbox.Base.{
  ℕ, ◌≡◌, ◌≢◌, ◌∙◌, refl, ap, arith, inl, inr, Bool, true, false, Option, none, some, List, [], ◌∷◌,
  Bool-cases,
}
use nesbox.Interrupt.{
  MsiRoute, State, IrqManager, get_route, insert_route, is_route, commit, set_msi_route,
}
use nesbox.Interrupt.Table.{Carries, table_of-Carries}

get_route-insert_route_self :
    (rs : List (ℕ × MsiRoute)) (gsi : ℕ) (r : MsiRoute)
    → get_route (insert_route rs gsi r) gsi ≡ some r
unfolding get_route insert_route
get_route-insert_route_self [] gsi r = ground arith
get_route-insert_route_self (x ∷ xs) gsi r = ground (arith, get_route-insert_route_self xs gsi r)

get_route-insert_route_ne :
    (rs : List (ℕ × MsiRoute)) (gsi other : ℕ) (r : MsiRoute)
    → gsi ≢ other
    → get_route (insert_route rs gsi r) other ≡ get_route rs other
unfolding get_route insert_route
get_route-insert_route_ne [] gsi other r h = ground (arith, h)
get_route-insert_route_ne (x ∷ xs) gsi other r h =
    ground (arith, h, get_route-insert_route_ne xs gsi other r h)

abbrev pub route_to : ℕ → ℕ → MsiRoute
route_to addr word = record { addr = addr; data_word = word }

-- A route that was set: it succeeded, KVM's table makes every line do what it is wired to and send
-- what its routes say, and no other route or number changed.
pub record IsRouted (m : IrqManager) (gsi addr word : ℕ) (r : IrqManager × Bool) : Type 0 where
  pub succeeded : r.1 ≡ true
  pub carried : Carries r.0.state.routes r.0.installed
  pub routed : get_route r.0.state.routes gsi ≡ some (route_to addr word)
  pub others :
      (other : ℕ) → gsi ≢ other → get_route r.0.state.routes other ≡ get_route m.state.routes other
  pub numbers : r.0.state.next_gsi ≡ m.state.next_gsi

routed : IrqManager → ℕ → ℕ → ℕ → State
routed m gsi addr word = record m.state {
  routes = insert_route m.state.routes gsi (route_to addr word);
}

is_route-eq :
    (o : Option MsiRoute) (addr word : ℕ)
    → is_route o addr word ≡ true
    → o ≡ some (route_to addr word)
unfolding is_route
is_route-eq none addr word h = cc
is_route-eq (some old) addr word h =
    let a : old.addr ≡ addr = ground (arith, h) in
    let w : old.data_word ≡ word = ground (arith, h) in
    ap (λ x. some (route_to x old.data_word)) a ∙ ap (λ x. some (route_to addr x)) w

-- When KVM takes the table, setting a route succeeds: the GSI then has the route that was asked for
-- and the other routes are as before, and under the table that KVM holds every line drives the pins
-- of the PICs and the IO-APIC that it is wired to in a PC, sends the messages of its routes, address
-- and data, and does nothing else, if that was so of the table before.
pub set_msi_route-IsRouted :
    (m : IrqManager) (gsi addr word : ℕ)
    → Carries m.state.routes m.installed
    → IsRouted m gsi addr word (set_msi_route m gsi addr word true)
unfolding set_msi_route commit routed
set_msi_route-IsRouted m gsi addr word h =
    elim (Bool-cases (is_route (get_route m.state.routes gsi) addr word)) [
      | inl e ↦ rw e (record {
        succeeded = refl;
        carried = h;
        routed = is_route-eq (get_route m.state.routes gsi) addr word e;
        others = λ other ne. refl;
        numbers = refl;
      })
      | inr e ↦ rw e (record {
        succeeded = refl;
        carried = table_of-Carries (routed m gsi addr word);
        routed = get_route-insert_route_self m.state.routes gsi (route_to addr word);
        others =
            λ other ne. get_route-insert_route_ne m.state.routes gsi other (route_to addr word) ne;
        numbers = refl;
      })
    ]

is_route_self : (addr word : ℕ) → is_route (some (route_to addr word)) addr word ≡ true
unfolding is_route
is_route_self addr word = ground arith

-- When KVM refuses the table of a new route, the call fails and KVM keeps the old table; the same
-- call made again succeeds at once without KVM being asked, and the old table stays.
pub set_msi_route-refused :
    (m : IrqManager) (gsi addr word : ℕ) (accepted : Bool)
    → is_route (get_route m.state.routes gsi) addr word ≡ false
    → let first = set_msi_route m gsi addr word false in
      let again = set_msi_route first.0 gsi addr word accepted in
      (first.1 ≡ false) × (again.1 ≡ true) × (again.0.installed ≡ m.installed)
unfolding set_msi_route commit is_route
set_msi_route-refused m gsi addr word accepted h = rw h (refl, known, kept)
  where
    m2 : IrqManager
    m2 = record m {
      state = record m.state { routes = insert_route m.state.routes gsi (route_to addr word) };
    }

    found : is_route (get_route m2.state.routes gsi) addr word ≡ true
    found =
        ap (λ o. is_route o addr word)
          (get_route-insert_route_self m.state.routes gsi (route_to addr word))
        ∙ is_route_self addr word

    known : (set_msi_route m2 gsi addr word accepted).1 ≡ true
    known = rw found refl

    kept : (set_msi_route m2 gsi addr word accepted).0.installed ≡ m.installed
    kept = rw found refl
