-- ===== src/Pci/Enable.antt =====
-- `pci_get_iobase`, which also enables the device, and `pci_configure_interrupt`.
pub mod Laws
use aimini_os.Base.{
  ℕ, ◌-◌, ◌^◌, List, ◌++◌, if◌then◌else◌, M, pure, ◌>>=◌, ◌>>◌, bit_and, bit_or, u8, u16,
}
use aimini_os.Format.{ascii}
use aimini_os.Machine.{Machine, Act, say, has}
use aimini_os.Pci.{
  pci_command, pci_bar0, pci_interrupt_line, pci_config_read_word, pci_config_write_word,
  pci_config_read_dword, print_hex,
}

abbrev pub pci_command_io : ℕ
pci_command_io = 0x0001

abbrev pub pci_command_master : ℕ
pci_command_master = 0x0004

abbrev pub pci_command_perr : ℕ
pci_command_perr = 0x0100

-- `command |= (PCI_COMMAND_IO | PCI_COMMAND_MASTER | PCI_COMMAND_PERR)`
abbrev pub enabled : ℕ → ℕ
enabled command =
    bit_or command (bit_or (bit_or pci_command_io pci_command_master) pci_command_perr)

unfoldable pub enable_device : ℕ → ℕ → Act
enable_device bus slot = do
  command ← pci_config_read_word bus slot 0 pci_command
  pci_config_write_word bus slot 0 pci_command (enabled command)

module _ (beyond : Machine → List ℕ) where
  -- Text before a number that `print_hex` prints, and the end of the line.
  abbrev pub show_number : List ℕ → ℕ → Act
  show_number text num = do say text; print_hex beyond num; say (ascii "\n")

  unfoldable pub show_device : ℕ → ℕ → Act
  show_device bus slot = do
    line ← pci_config_read_word bus slot 0 pci_interrupt_line
    show_number (ascii "Device interrupt line: ") (bit_and line 0xff)
    command ← pci_config_read_word bus slot 0 pci_command
    show_number (ascii "PCI Command register: ") command

  unfoldable pub use_io_range : ℕ → ℕ → ℕ → M Machine ℕ
  use_io_range bus slot bar0 = do
    enable_device bus slot
    show_device bus slot
    pure (u16 (bit_and bar0 (2 ^ 32 - 4)))

  unfoldable pub pci_get_iobase : ℕ → ℕ → M Machine ℕ
  pci_get_iobase bus slot = do
    bar0 ← pci_config_read_dword (u8 bus) (u8 slot) 0 pci_bar0
    if has bar0 1 then use_io_range (u8 bus) (u8 slot) bar0 else pure 0

  unfoldable pub pci_configure_interrupt : ℕ → ℕ → ℕ → Act
  pci_configure_interrupt bus slot interrupt_line = do
    pci_config_write_word (u8 bus) (u8 slot) 0 pci_interrupt_line interrupt_line
    show_number (ascii "Configured interrupt line: ") interrupt_line
