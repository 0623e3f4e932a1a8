-- ===== src/Interrupt/Tests.antt =====
-- A manager with one route.
use nesbox.Base.{◌≡◌, refl, true, false, some, [], ◌∷◌, length}
use nesbox.Interrupt.{
  IrqManager, new_manager, legacy_irqfd, legacy_entries, legacy_from, legacy_gsi, commit, get_route,
  is_route, set_msi_route, table_of, msi_entry, allocate_msi_vector, allocate_msi_vectors,
  vectors_after, insert_route,
}
use nesbox.Interrupt.Table.{Carries, table_of-Carries}
use nesbox.Interrupt.Routes.{IsRouted, route_to, set_msi_route-IsRouted, set_msi_route-refused}

abbrev manager : IrqManager
manager = record {
  state = record { next_gsi = 26; routes = (24, route_to 0xfee00000 0x4021) ∷ [] };
  installed = table_of (record { next_gsi = 26; routes = (24, route_to 0xfee00000 0x4021) ∷ [] });
}

carried : Carries manager.state.routes manager.installed
carried = table_of-Carries manager.state

set_msi_route-IsRouted_example :
    IsRouted manager 25 0xfee01000 0x4022 (set_msi_route manager 25 0xfee01000 0x4022 true)
set_msi_route-IsRouted_example = set_msi_route-IsRouted manager 25 0xfee01000 0x4022 carried

new_route : is_route (get_route manager.state.routes 25) 0xfee01000 0x4022 ≡ false
unfolding is_route get_route
new_route = refl

set_msi_route-refused_example :
    ((set_msi_route manager 25 0xfee01000 0x4022 false).1 ≡ false)
    × ((set_msi_route
          (set_msi_route manager 25 0xfee01000 0x4022 false).0
          25
          0xfee01000
          0x4022
          true).1
        ≡ true)
    × ((set_msi_route
          (set_msi_route manager 25 0xfee01000 0x4022 false).0
          25
          0xfee01000
          0x4022
          true).0.installed
        ≡ manager.installed)
set_msi_route-refused_example = set_msi_route-refused manager 25 0xfee01000 0x4022 true new_route

two : (allocate_msi_vectors manager (true ∷ true ∷ [])).1 ≡ some (26 ∷ 27 ∷ [])
unfolding allocate_msi_vectors allocate_msi_vector vectors_after
two = refl

legacy : length legacy_entries ≡ 40
unfolding legacy_entries legacy_from legacy_gsi
legacy = refl

installed : length (new_manager true).0.installed ≡ 40
unfolding new_manager commit table_of msi_entry legacy_entries legacy_from legacy_gsi
installed = refl

first_route : insert_route [] 24 (route_to 1 2) ≡ (24, route_to 1 2) ∷ []
unfolding insert_route
first_route = refl

pin : legacy_irqfd 23 true ≡ true
unfolding legacy_irqfd
pin = refl

rerouted : (set_msi_route manager 24 0xfee00000 0x4021 false).1 ≡ true
unfolding set_msi_route is_route get_route
rerouted = refl
