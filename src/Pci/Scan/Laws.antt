-- ===== src/Pci/Scan/Laws.antt =====
-- `pci_init` visits every function and changes nothing in the configuration space.
use aimini_os.Base.{ℕ, zero, suc, ◌+◌, ◌-◌, ◌^◌, ◌<◌, ◌≤◌, ◌==◌, List, arith, skip, if◌then◌else◌}
use aimini_os.Format.{ascii}
use aimini_os.Machine.{Machine, say}
use aimini_os.Pci.{
  pci_vendor_id, pci_device_id, pci_class, pci_subclass, pci_config_read_word,
  pci_config_read_dword, print_hex,
}
use aimini_os.Pci.Look.{
  IsLook, Look-pure, Look-say, Look-printed, Look-bind, Look-if, Look-read_word, Look-read_dword,
}
use aimini_os.Pci.Scan.{
  pci_device_exists, show_place, show_kind, pci_get_device_info, scan_functions, scan_slots,
  scan_buses, scan_all, pci_init,
}

module _ (bus slot func : ℕ) (m : Machine) where
  module _ (b : bus < 2 ^ 8) (s : slot < 2 ^ 5) (f : func < 2 ^ 3) where
    Look-pci_device_exists : IsLook m (pci_device_exists bus slot func m)
    unfolding pci_device_exists
    Look-pci_device_exists =
        Look-bind m (pci_config_read_word bus slot func pci_vendor_id) _
          (Look-read_word bus slot func pci_vendor_id m b s f (omega arith)) (λ v n. Look-pure n _)

module _ (beyond : Machine → List ℕ) where
  Look-show_place : (bus slot func : ℕ) (m : Machine) → IsLook m (show_place beyond bus slot func m)
  unfolding show_place print_hex
  Look-show_place bus slot func m = Look-printed m _

  Look-show_kind :
      (vendor device class_code subclass : ℕ) (m : Machine)
      → IsLook m (show_kind beyond vendor device class_code subclass m)
  unfolding show_kind print_hex
  Look-show_kind vendor device class_code subclass m = Look-printed m _

  Look-pci_get_device_info :
      (bus slot func : ℕ) (m : Machine)
      → bus < 2 ^ 8
      → slot < 2 ^ 5
      → func < 2 ^ 3
      → IsLook m (pci_get_device_info beyond bus slot func m)
  unfolding pci_get_device_info
  Look-pci_get_device_info bus slot func m b s f =
      let word : (offset : ℕ) (n : Machine)
          → offset < 2 ^ 8
          → IsLook n (pci_config_read_word bus slot func offset n) =
        λ offset n. Look-read_word bus slot func offset n b s f in
      Look-bind m (pci_config_read_word bus slot func pci_vendor_id) _
        (word pci_vendor_id m (omega arith))
        (λ vendor n1.
          Look-bind n1 (pci_config_read_word bus slot func pci_device_id) _
            (word pci_device_id n1 (omega arith))
            (λ device n2.
              Look-bind n2 (pci_config_read_word bus slot func pci_class) _
                (word pci_class n2 (omega arith))
                (λ class_word n3.
                  Look-bind n3 (pci_config_read_word bus slot func pci_subclass) _
                    (word pci_subclass n3 (omega arith))
                    (λ subclass_word n4.
                      Look-bind n4 (show_place beyond bus slot func) _
                        (Look-show_place bus slot func n4)
                        (λ _ n5.
                          Look-bind n5 (show_kind beyond vendor device _ _) _
                            (Look-show_kind vendor device _ _ n5)
                            (λ _ n6.
                              Look-if n6 _ (say _) skip (Look-say n6 _) (Look-pure n6 tt)))))))

  Look-scan_functions :
      (left bus slot func : ℕ) (m : Machine)
      → bus < 2 ^ 8
      → slot < 2 ^ 5
      → func + left ≤ 2 ^ 3
      → IsLook m (scan_functions beyond left bus slot func m)
  unfolding scan_functions
  Look-scan_functions zero bus slot func m b s f = Look-pure m tt
  Look-scan_functions (suc left) bus slot func m b s f =
      Look-bind m (pci_device_exists bus slot func) _
        (Look-pci_device_exists bus slot func m b s (omega arith))
        (λ there n.
          Look-bind n (if there then pci_get_device_info beyond bus slot func else skip) _
            (Look-if n there (pci_get_device_info beyond bus slot func) skip
              (Look-pci_get_device_info bus slot func n b s (omega arith)) (Look-pure n tt))
            (λ _ o. Look-scan_functions left bus slot (func + 1) o b s (omega arith)))

  Look-scan_slots :
      (left bus slot : ℕ) (m : Machine)
      → bus < 2 ^ 8
      → slot + left ≤ 2 ^ 5
      → IsLook m (scan_slots beyond left bus slot m)
  unfolding scan_slots
  Look-scan_slots zero bus slot m b s = Look-pure m tt
  Look-scan_slots (suc left) bus slot m b s =
      Look-bind m (scan_functions beyond 8 bus slot 0) _
        (Look-scan_functions 8 bus slot 0 m b (omega arith) (omega arith))
        (λ _ n. Look-scan_slots left bus (slot + 1) n b (omega arith))

  Look-scan_buses :
      (left bus : ℕ) (m : Machine) → bus + left ≤ 2 ^ 8 → IsLook m (scan_buses beyond left bus m)
  unfolding scan_buses
  Look-scan_buses zero bus m b = Look-pure m tt
  Look-scan_buses (suc left) bus m b =
      Look-bind m (scan_slots beyond 32 bus 0) _
        (Look-scan_slots 32 bus 0 m (omega arith) (omega arith))
        (λ _ n. Look-scan_buses left (bus + 1) n (omega arith))

  Look-scan_all : (m : Machine) → IsLook m (scan_all beyond m)
  unfolding scan_all
  Look-scan_all m =
      Look-bind m (say (ascii "PCI bus detected\nScanning PCI devices...\n")) _ (Look-say m _)
        (λ _ n.
          Look-bind n (scan_buses beyond 8 0) _ (Look-scan_buses 8 0 n (omega arith))
            (λ _ o. Look-say o (ascii "=== PCI Bus Initialization Complete ===\n\n")))

  -- Whatever answers at the configuration ports, listing the devices returns; it prints and looks
  -- at the configuration space, writes nothing to it, and changes nothing else of the machine.
  pub pci_init-IsLook : (m : Machine) → IsLook m (pci_init beyond m)
  unfolding pci_init
  pci_init-IsLook m =
      Look-bind m (say (ascii "\n=== PCI Bus Initialization ===\n")) _ (Look-say m _) (λ _ n.
        Look-bind n (pci_config_read_dword 0 0 0 0) _
          (Look-read_dword 0 0 0 0 n (omega arith) (omega arith) (omega arith) (omega arith))
          (λ tmp o.
            Look-if o (tmp == 2 ^ 32 - 1) (say (ascii "ERROR: No PCI bus found!\n"))
              (scan_all beyond) (Look-say o _) (Look-scan_all o)))
