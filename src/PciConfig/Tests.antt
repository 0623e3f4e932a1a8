-- ===== src/PciConfig/Tests.antt =====
-- A configuration space with an MSI-X and a virtio capability.
use nesbox.Base.{◌≡◌, refl, [], ◌∷◌, ◌++◌, none, some}
use nesbox.Transport.{write_val}
use nesbox.PciConfig.{
  PciConfig, new_config, linked, add_cap, add_msix_cap, add_virtio_cap, add_virtio_notify_cap,
  add_virtio_shm_cap, add_pcie_cap, put, set_irq_pin, set_irq_line, set_bar_mem, set_bar_mem64,
}
use nesbox.PciConfig.Capabilities.{IsBuilt, add_cap-IsBuilt, new_config-IsBuilt}

abbrev fresh : PciConfig
fresh = new_config 0x1AF4 0x1043 1 0x078000 0x1AF4 3

built : IsBuilt fresh []
built = new_config-IsBuilt 0x1AF4 0x1043 1 0x078000 0x1AF4 3

abbrev one : PciConfig
one = linked fresh 0x11 (1 ∷ 0 ∷ [])

adds : add_cap fresh 0x11 (1 ∷ 0 ∷ []) ≡ some (one, 0x40)
unfolding add_cap new_config
adds = refl

add_cap-IsBuilt_example :
    IsBuilt one ([] ++ record { at = 0x40; id = 0x11; payload = 1 ∷ 0 ∷ [] } ∷ [])
add_cap-IsBuilt_example = add_cap-IsBuilt fresh one 0x11 0x40 (1 ∷ 0 ∷ []) [] built adds

-- The capabilities of the devices are `add_cap` with these payloads.
msix_test :
    add_msix_cap fresh 1 0x800 0xc00
    ≡ add_cap fresh 0x11 (1 ∷ 0 ∷ 0 ∷ 8 ∷ 0 ∷ 0 ∷ 0 ∷ 0xc ∷ 0 ∷ 0 ∷ [])
unfolding add_msix_cap write_val
msix_test = refl

virtio_test :
    add_virtio_cap fresh 4 0 0x300 12
    ≡ add_cap fresh 9 (16 ∷ 4 ∷ 0 ∷ 0 ∷ 0 ∷ 0 ∷ 0 ∷ 3 ∷ 0 ∷ 0 ∷ 12 ∷ 0 ∷ 0 ∷ 0 ∷ [])
unfolding add_virtio_cap write_val
virtio_test = refl

notify_test :
    add_virtio_notify_cap fresh 0 0x300 12 4
    ≡ add_cap fresh 9 (20 ∷ 2 ∷ 0 ∷ 0 ∷ 0 ∷ 0 ∷ 0 ∷ 3 ∷ 0 ∷ 0 ∷ 12 ∷ 0 ∷ 0 ∷ 0 ∷ 4 ∷ 0 ∷ 0 ∷ 0 ∷ [])
unfolding add_virtio_notify_cap write_val
notify_test = refl

shm_test :
    add_virtio_shm_cap fresh 1 2 0 0x1_0000_0000
    ≡ add_cap fresh 9 (
        24 ∷ 8 ∷ 2 ∷ 1 ∷ 0 ∷ 0 ∷ 0 ∷ 0 ∷ 0 ∷ 0 ∷ 0 ∷ 0 ∷ 0 ∷ 0 ∷ 0 ∷ 0 ∷ 0 ∷ 0 ∷ 1 ∷ 0 ∷ 0 ∷ 0 ∷ [])
unfolding add_virtio_shm_cap write_val
shm_test = refl

pcie_test : (c : PciConfig) → add_pcie_cap c 9 ≡ add_pcie_cap c 25
unfolding add_pcie_cap
pcie_test c = refl

pins_test : (set_irq_pin (set_irq_line fresh 5) 1).space 0x3c ≡ 5
unfolding set_irq_pin set_irq_line put
pins_test = refl

bars_test : set_bar_mem64 fresh 5 ≡ none
unfolding set_bar_mem64
bars_test = refl

bar_test : set_bar_mem fresh 6 ≡ none
unfolding set_bar_mem
bar_test = refl
