-- ===== src/Interrupt.antt =====
-- Interrupt routing, from vmm/src/interrupt.rs: the numbers of the MSI vectors and KVM's routing
-- table. The answers of the kernel are arguments.
pub mod Table
pub mod Routes
pub mod Vectors
mod Tests
use nesbox.Base.{
  ℕ, zero, suc, ◌+◌, ◌/◌, ◌%◌, ◌^◌, Bool, true, false, ◌&&◌, Option, none, some, List, [], ◌∷◌,
  ◌++◌, map, ltb, ◌==◌, if◌then◌else◌, u32_mod,
}

abbrev pub ioapic_pins : ℕ
ioapic_pins = 24

abbrev pub first_msi_gsi : ℕ
first_msi_gsi = ioapic_pins

pub data Irqchip : Type 0 where
  pic_master : Irqchip
  pic_slave : Irqchip
  ioapic : Irqchip

-- `kvm_irq_routing_entry`: a chip and its pin, or the two halves of an address with the data.
pub data Target : Type 0 where
  chip_pin : Irqchip → ℕ → Target
  msi : ℕ → ℕ → ℕ → Target

pub record Entry : Type 0 where
  pub gsi : ℕ
  pub target : Target

pub record MsiRoute : Type 0 where
  pub addr : ℕ
  pub data_word : ℕ

-- The map of programmed routes is in the order of its keys.
pub record State : Type 0 where
  pub next_gsi : ℕ
  pub routes : List (ℕ × MsiRoute)

-- The manager, with the table that KVM holds.
pub record IrqManager : Type 0 where
  pub state : State
  pub installed : List Entry

pub get_route : List (ℕ × MsiRoute) → ℕ → Option MsiRoute
get_route [] gsi = none
get_route (r ∷ rs) gsi = if r.0 == gsi then some r.1 else get_route rs gsi

pub insert_route : List (ℕ × MsiRoute) → ℕ → MsiRoute → List (ℕ × MsiRoute)
insert_route [] gsi route = (gsi, route) ∷ []
insert_route (r ∷ rs) gsi route =
    if r.0 == gsi
    then (gsi, route) ∷ rs
    else if ltb gsi r.0
    then (gsi, route) ∷ r ∷ rs
    else r ∷ insert_route rs gsi route

-- A GSI below 16 drives a pin of the PICs too.
pub legacy_gsi : ℕ → List Entry
legacy_gsi gsi =
    record { gsi = gsi; target = chip_pin ioapic gsi }
    ∷ (if ltb gsi 16
        then record {
          gsi = gsi;
          target = chip_pin (if ltb gsi 8 then pic_master else pic_slave) (gsi % 8);
        }
          ∷ []
        else [])

-- The `for` loop with its turns left.
pub legacy_from : ℕ → ℕ → List Entry
legacy_from zero gsi = []
legacy_from (suc turns) gsi = legacy_gsi gsi ++ legacy_from turns (gsi + 1)

pub legacy_entries : List Entry
legacy_entries = legacy_from ioapic_pins 0

pub msi_entry : ℕ × MsiRoute → Entry
msi_entry (gsi, r) = record {
  gsi = gsi;
  target = msi (r.addr % u32_mod) (r.addr / 2 ^ 32) r.data_word;
}

pub table_of : State → List Entry
table_of s = legacy_entries ++ map msi_entry s.routes

-- `accepted` is whether KVM takes the table; it says whether the call succeeded.
pub commit : IrqManager → Bool → IrqManager × Bool
commit m accepted =
    if accepted then (record m { installed = table_of m.state }, true) else (m, false)

pub new_manager : Bool → IrqManager × Bool
new_manager accepted =
    commit (record { state = record { next_gsi = first_msi_gsi; routes = [] }; installed = [] })
      accepted

pub is_route : Option MsiRoute → ℕ → ℕ → Bool
is_route none addr word = false
is_route (some old) addr word = (old.addr == addr) && (old.data_word == word)

pub set_msi_route : IrqManager → ℕ → ℕ → ℕ → Bool → IrqManager × Bool
set_msi_route m gsi addr word accepted =
    if is_route (get_route m.state.routes gsi) addr word
    then (m, true)
    else commit
        (record m {
          state = record m.state {
            routes = insert_route m.state.routes gsi (record { addr = addr; data_word = word });
          };
        })
        accepted

-- `wired` is whether the eventfd was made and registered; a number is used up either way.
pub allocate_msi_vector : IrqManager → Bool → IrqManager × Option ℕ
allocate_msi_vector m wired = (
  record m { state = record m.state { next_gsi = m.state.next_gsi + 1 } },
  (if wired then some m.state.next_gsi else none),
)

-- What the rest of a call adds to its first vector; after a failure there is no rest.
pub vectors_after :
    IrqManager × Option ℕ → IrqManager × Option (List ℕ) → IrqManager × Option (List ℕ)
vectors_after (m, none) rest = (m, none)
vectors_after (m, some gsi) (m', none) = (m', none)
vectors_after (m, some gsi) (m', some gsis) = (m', some (gsi ∷ gsis))

-- One answer for each of the vectors asked for; the first failure ends the call.
pub allocate_msi_vectors : IrqManager → List Bool → IrqManager × Option (List ℕ)
allocate_msi_vectors m [] = (m, some [])
allocate_msi_vectors m (wired ∷ answers) =
    let one = allocate_msi_vector m wired in
    let rest = allocate_msi_vectors one.0 answers in vectors_after one rest

pub legacy_irqfd : ℕ → Bool → Bool
legacy_irqfd gsi wired = ltb gsi ioapic_pins && wired
