-- ===== src/Pci.antt =====
-- pci.c and pci.h: the accesses to the configuration space by the ports 0xCF8 and 0xCFC.
pub mod Address
pub mod Look
pub mod Find
pub mod Place
pub mod Scan
pub mod Enable
mod Tests
use aimini_os.Base.{
  ℕ, ◌*◌, ◌^◌, ◌<◌, ◌++◌, List, M, pure, ◌>>=◌, ◌>>◌, bit_and, bit_or, shl, shr, u8, u16, u32, take,
  replicate, [], ◌∷◌,
}
use aimini_os.Format.{print_hex_buffer}
use aimini_os.Machine.{Machine, Act, say, inl, outl}

abbrev pub pci_config_address : ℕ
pci_config_address = 0xcf8

abbrev pub pci_config_data : ℕ
pci_config_data = 0xcfc

abbrev pub pci_vendor_id : ℕ
pci_vendor_id = 0x00

abbrev pub pci_device_id : ℕ
pci_device_id = 0x02

abbrev pub pci_command : ℕ
pci_command = 0x04

abbrev pub pci_subclass : ℕ
pci_subclass = 0x0a

abbrev pub pci_class : ℕ
pci_class = 0x0b

abbrev pub pci_bar0 : ℕ
pci_bar0 = 0x10

abbrev pub pci_interrupt_line : ℕ
pci_interrupt_line = 0x3c

-- `bus << 16 | slot << 11 | func << 8 | (offset & 0xFC) | 0x80000000`
unfoldable pub pci_get_address : ℕ → ℕ → ℕ → ℕ → ℕ
pci_get_address bus slot func offset = u32 (
    bit_or (bit_or (bit_or (bit_or (shl bus 16) (shl slot 11)) (shl func 8)) (bit_and offset 0xfc))
      0x80000000)

-- The arguments are `uint8_t` at every call, so a caller with wider numbers cuts them first.
unfoldable pub pci_config_read_word : ℕ → ℕ → ℕ → ℕ → M Machine ℕ
pci_config_read_word bus slot func offset = do
  outl pci_config_address (pci_get_address bus slot func offset)
  value ← inl pci_config_data
  pure (bit_and (shr value (bit_and offset 2 * 8)) 0xffff)

-- In C, `value << 16` is a shift of an int and overflows from 0x8000 on; it is taken as the bits
-- of the dword that the shift gives.
unfoldable pub pci_config_write_word : ℕ → ℕ → ℕ → ℕ → ℕ → Act
pci_config_write_word bus slot func offset value = do
  outl pci_config_address (pci_get_address bus slot func offset)
  outl pci_config_data (shl value (bit_and offset 2 * 8))

unfoldable pub pci_config_read_dword : ℕ → ℕ → ℕ → ℕ → M Machine ℕ
pci_config_read_dword bus slot func offset = do
  outl pci_config_address (pci_get_address bus slot func offset)
  inl pci_config_data

unfoldable pub pci_config_write_dword : ℕ → ℕ → ℕ → ℕ → ℕ → Act
pci_config_write_dword bus slot func offset value = do
  outl pci_config_address (pci_get_address bus slot func offset)
  outl pci_config_data value

-- `print_hex` ends its text with whatever the stack holds behind its buffer, up to a zero byte
-- (`Format.Hex.print_hex_buffer_lem`): `beyond`, any function of the state at the call. The ten bytes
-- before are all stored, so it does not matter what the stack held there.
unfoldable pub print_hex : (Machine → List ℕ) → ℕ → Act
print_hex beyond num m = say (take 10 (print_hex_buffer (replicate 11 0) num) ++ beyond m) m
