-- ===== src/Pci/Scan.antt =====
-- `pci_init`, which lists the devices, and `pci_find_device`, which looks for one.
pub mod Laws
use aimini_os.Base.{
  ℕ, zero, suc, ◌+◌, ◌-◌, ◌^◌, Bool, true, false, ◌&&◌, not, Option, none, some, List, [], ◌++◌,
  ◌==◌, if◌then◌else◌, M, pure, skip, ◌>>=◌, ◌>>◌, bit_and,
}
use aimini_os.Format.{ascii}
use aimini_os.Machine.{Machine, Act, say}
use aimini_os.Pci.{
  pci_vendor_id, pci_device_id, pci_class, pci_subclass, pci_config_read_word,
  pci_config_read_dword, print_hex,
}

abbrev pub rtl8139_vendor_id : ℕ
rtl8139_vendor_id = 0x10ec

abbrev pub rtl8139_device_id : ℕ
rtl8139_device_id = 0x8139

unfoldable pub pci_device_exists : ℕ → ℕ → ℕ → M Machine Bool
pci_device_exists bus slot func = do
  vendor ← pci_config_read_word bus slot func pci_vendor_id
  pure (not (vendor == 0xffff))

module _ (beyond : Machine → List ℕ) where
  -- The three lines about a device.
  unfoldable pub show_place : ℕ → ℕ → ℕ → Act
  show_place bus slot func = do
    say (ascii "Found device at Bus: ")
    print_hex beyond bus
    say (ascii " Slot: ")
    print_hex beyond slot
    say (ascii " Function: ")
    print_hex beyond func
    say (ascii "\n")

  unfoldable pub show_kind : ℕ → ℕ → ℕ → ℕ → Act
  show_kind vendor device class_code subclass = do
    say (ascii "Vendor ID: ")
    print_hex beyond vendor
    say (ascii " Device ID: ")
    print_hex beyond device
    say (ascii "\nClass: ")
    print_hex beyond class_code
    say (ascii " Subclass: ")
    print_hex beyond subclass
    say (ascii "\n")

  unfoldable pub pci_get_device_info : ℕ → ℕ → ℕ → Act
  pci_get_device_info bus slot func = do
    vendor ← pci_config_read_word bus slot func pci_vendor_id
    device ← pci_config_read_word bus slot func pci_device_id
    class_word ← pci_config_read_word bus slot func pci_class
    subclass_word ← pci_config_read_word bus slot func pci_subclass
    show_place bus slot func
    show_kind vendor device (bit_and class_word 0xff) (bit_and subclass_word 0xff)
    if vendor == rtl8139_vendor_id && device == rtl8139_device_id
        then say (ascii "*** RTL8139 Network Card Found! ***\n")
        else skip

  -- The three loops, each with `left` turns to go.
  unfoldable pub scan_functions : ℕ → ℕ → ℕ → ℕ → Act
  scan_functions zero bus slot func = skip
  scan_functions (suc left) bus slot func = do
    there ← pci_device_exists bus slot func
    if there then pci_get_device_info bus slot func else skip
    scan_functions left bus slot (func + 1)

  unfoldable pub scan_slots : ℕ → ℕ → ℕ → Act
  scan_slots zero bus slot = skip
  scan_slots (suc left) bus slot = do scan_functions 8 bus slot 0; scan_slots left bus (slot + 1)

  unfoldable pub scan_buses : ℕ → ℕ → Act
  scan_buses zero bus = skip
  scan_buses (suc left) bus = do scan_slots 32 bus 0; scan_buses left (bus + 1)

  unfoldable pub scan_all : Act
  scan_all = do
    say (ascii "PCI bus detected\nScanning PCI devices...\n")
    scan_buses 8 0
    say (ascii "=== PCI Bus Initialization Complete ===\n\n")

  unfoldable pub pci_init : Act
  pci_init = do
    say (ascii "\n=== PCI Bus Initialization ===\n")
    tmp ← pci_config_read_dword 0 0 0 0
    if tmp == 2 ^ 32 - 1 then say (ascii "ERROR: No PCI bus found!\n") else scan_all

-- The device is asked for only where the vendor is right.
unfoldable pub pci_is_device : ℕ → ℕ → ℕ → ℕ → M Machine Bool
pci_is_device vendor_id device_id b s = do
  v ← pci_config_read_word b s 0 pci_vendor_id
  if v == vendor_id
      then (do d ← pci_config_read_word b s 0 pci_device_id; pure (d == device_id))
      else pure false

-- The loops of `pci_find_device`, with `left` turns to go.
unfoldable pub find_in_slots : ℕ → ℕ → ℕ → ℕ → ℕ → M Machine (Option (ℕ × ℕ))
find_in_slots vendor_id device_id zero b s = pure none
find_in_slots vendor_id device_id (suc left) b s = do
  here ← pci_is_device vendor_id device_id b s
  elim here [ true ↦ pure (some (b, s)) | false ↦ find_in_slots vendor_id device_id left b (s + 1) ]

unfoldable pub find_in_buses : ℕ → ℕ → ℕ → ℕ → M Machine (Option (ℕ × ℕ))
find_in_buses vendor_id device_id zero b = pure none
find_in_buses vendor_id device_id (suc left) b = do
  found ← find_in_slots vendor_id device_id 32 b 0
  elim found [
    | some place ↦ pure (some place)
    | none ↦ find_in_buses vendor_id device_id left (b + 1)
  ]

-- The bus and the slot that it stores with the result 1; `none` is the result 0.
unfoldable pub pci_find_device : ℕ → ℕ → M Machine (Option (ℕ × ℕ))
pci_find_device vendor_id device_id = find_in_buses vendor_id device_id 8 0
