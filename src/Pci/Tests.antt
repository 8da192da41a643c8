-- ===== src/Pci/Tests.antt =====
-- Runs of pci.c against a configuration space with a card in slot 3 of bus 0.
use aimini_os.Base.{ℕ, ◌*◌, ◌%◌, ◌^◌, ◌<◌, ◌≡◌, refl, [], ◌∷◌, some, none, arith, ◌⊎◌, ◌/◌}
use aimini_os.Machine.{port_out, Machine}
use aimini_os.Samples.{guest, card_space, bridge, no_stack}
use aimini_os.Pci.{pci_get_address, pci_config_write_word}
use aimini_os.Pci.Scan.{pci_find_device, pci_init}
use aimini_os.Pci.Enable.{pci_get_iobase}
use aimini_os.Pci.Address.{pci_get_address_lem, pci_config_write_word_lem, place_address, asked}
use aimini_os.Pci.Find.{IsBridge, Finds, find_first, holds, all_slots, pci_find_device-Finds}
use aimini_os.Pci.Look.{IsLook}
use aimini_os.Pci.Scan.Laws.{pci_init-IsLook}
use aimini_os.Pci.Enable.Laws.{Enables, bar0_of, pci_get_iobase-Enables}

card_space-lt : (a : ℕ) → card_space a < 2 ^ 32
card_space-lt a = ground arith

abbrev machine : Machine
machine = record guest { device = bridge }

bridge-IsBridge : IsBridge card_space bridge
bridge-IsBridge = record { answers = λ h a. refl; dword = card_space-lt }

-- The card is found, in slot 3.
pci_find_device-Finds_example : Finds machine (some (0, 3)) (pci_find_device 0x10ec 0x8139 machine)
pci_find_device-Finds_example =
    pci_find_device-Finds card_space 0x10ec 0x8139 (omega arith) machine bridge-IsBridge

absent_test : find_first (holds card_space 0x8086 0x100e) (all_slots 8 0) ≡ none
absent_test = refl

pci_init-IsLook_test : IsLook machine (pci_init no_stack machine)
pci_init-IsLook_test = pci_init-IsLook no_stack machine

pci_get_address_lem_test : pci_get_address 1 3 2 0x3e ≡ 0x80011a3c
pci_get_address_lem_test =
    pci_get_address_lem 1 3 2 0x3e (omega arith) (omega arith) (omega arith) (omega arith)

pci_get_iobase-Enables_test :
    ((bar0_of 0 3 machine % 2 ≡ 1) × Enables 0 3 machine (pci_get_iobase no_stack 0 3 machine))
    ⊎ ((bar0_of 0 3 machine % 2 ≡ 0)
        × (pci_get_iobase no_stack 0 3 machine
            ≡ some (0, record machine { ports = asked machine (place_address 0 3 0 0x10) })))
pci_get_iobase-Enables_test =
    pci_get_iobase-Enables no_stack 0 3 (omega arith) (omega arith) machine

io_range_test : bar0_of 0 3 machine % 2 ^ 16 / 4 * 4 ≡ 0xc000
io_range_test = refl

-- The upper half of the dword of the interrupt line is cleared.
pci_config_write_word_lem_example :
    pci_config_write_word 0 3 0 0x3e 0xabcd guest
    ≡ some (
      tt,
      record guest { ports = port_out 4 0xcfc 0xabcd0000 ∷ port_out 4 0xcf8 0x8000183c ∷ [] },
    )
pci_config_write_word_lem_example =
    pci_config_write_word_lem 0 3 0 0x3e guest (omega arith) (omega arith) (omega arith)
      (omega arith) 0xabcd (omega arith)
