-- ===== src/Interrupts.antt =====
-- idt.c: what `idt_install` writes to the interrupt controllers, and the C part of the handler of
-- interrupt 43. The table itself is `Descriptors.idt_install`.
pub mod Laws
use aimini_os.Base.{ℕ, ◌+◌, List, ◌++◌, if◌then◌else◌, M, gets, skip, ◌>>=◌, ◌>>◌}
use aimini_os.Format.{ascii, terminal_hex16}
use aimini_os.Machine.{Machine, Act, say, has, inw, outb, outw}
use aimini_os.Pci.Enable.{pci_get_iobase}
use aimini_os.Rtl8139.Registers.{reg_isr, reg_capr, reg_cbr, isr_rok, isr_tok}
use aimini_os.Rtl8139.Dump.{rtl8139_dump_registers}
use aimini_os.Ring.{check_rx_buffer}

-- Initialisation, vector offsets, wiring and mode of the two controllers; then all lines on.
unfoldable pub pic_init : Act
pic_init = do
  outb 0x20 0x11
  outb 0xa0 0x11
  outb 0x21 0x20
  outb 0xa1 0x28
  outb 0x21 0x04
  outb 0xa1 0x02
  outb 0x21 0x01
  outb 0xa1 0x01
  outb 0x21 0x00
  outb 0xa1 0x00

module _ (beyond : Machine → List ℕ) where
  -- `get_rtl8139_iobase(rtl8139_bus, rtl8139_slot)`, which looks the card up again at every call.
  unfoldable pub card_iobase : M Machine ℕ
  card_iobase = do nic ← gets (λ m. m.nic); pci_get_iobase beyond nic.bus nic.slot

  unfoldable pub show_pointers : Act
  show_pointers = do
    say (ascii "Receive OK\n")
    base ← card_iobase
    capr ← inw (base + reg_capr)
    say (ascii "CAPR: " ++ (terminal_hex16 capr ++ ascii "\n"))
    base2 ← card_iobase
    cbr ← inw (base2 + reg_cbr)
    say (ascii "CBR: " ++ (terminal_hex16 cbr ++ ascii "\n"))

  module _ (behind : ℕ → List ℕ) (buffer : List ℕ) where
    -- What is done for the status `isr`, before it is written back.
    unfoldable pub on_receive : ℕ → Act
    on_receive isr =
        if has isr isr_rok then (do show_pointers; check_rx_buffer behind buffer) else skip

    unfoldable pub on_status : ℕ → Act
    on_status isr = do
      say (ascii "RTL8139 interrupt: " ++ (terminal_hex16 isr ++ ascii "\n"))
      on_receive isr
      if has isr isr_tok then say (ascii "Transmit OK\n") else skip

    unfoldable pub handle_rtl8139_interrupt : Act
    handle_rtl8139_interrupt = do
      base ← card_iobase
      isr ← inw (base + reg_isr)
      on_status isr
      base2 ← card_iobase
      outw (base2 + reg_isr) isr
      rtl8139_dump_registers
