-- ===== src/Rtl8139/Init.antt =====
-- `rtl8139_init`. `beyond` is what `print_hex` prints behind its text, and `memory` are the bytes
-- of the heap from an address on, when the buffer there is allocated. The delay loops have no
-- effect.
pub mod Buffer
pub mod Stages
pub mod Run
pub mod Whole
pub mod Laws
mod Tests
use aimini_os.Base.{
  ℕ, zero, suc, ◌+◌, ◌-◌, ◌*◌, ◌/◌, ◌%◌, ◌^◌, Bool, true, false, List, [], ◌∷◌, ◌++◌, ◌==◌, ltb,
  if◌then◌else◌, M, gets, modify, skip, pure, ◌>>=◌, ◌>>◌, bit_and, bit_or, shr, u32, take, drop,
  set,
}
use aimini_os.Format.{
  ascii, terminal_hex, terminal_hex8, terminal_hex16, terminal_hex32, serial_hex16,
}
use aimini_os.Checksum.{network_checksum}
use aimini_os.Memory.{kmalloc}
use aimini_os.Machine.{Machine, Act, say, serial, has}
use aimini_os.Pci.Enable.{pci_get_iobase, pci_configure_interrupt}
use aimini_os.Rtl8139.Registers.{
  reg_cmd, reg_rbstart, reg_isr, reg_imr, reg_rcr, reg_tcr, cmd_reset, cmd_rx_enable, cmd_tx_enable,
  isr_rok, isr_tok, isr_rer, isr_ter, rcr_aap, rcr_apm, rcr_am, rcr_ab, rcr_wrap, rcr_rblen_32k,
  rcr_mxdma_unlimited, tcr_ifg_standard, tcr_mxdma_2048, tcr_crc, rx_buffer_size, card_inb,
  card_inw, card_inl, card_outb, card_outw, card_outl,
}
use aimini_os.Rtl8139.Dump.{rtl8139_dump_registers}
use aimini_os.Rtl8139.Send.{rtl8139_send_packet}

unfoldable pub power_up : Act
power_up = do
  say (ascii "Power management wake up...\n")
  card_outb 0x52 0x00
  say (ascii "Performing software reset...\n")
  card_outb reg_cmd cmd_reset
  say (ascii "Waiting for reset completion...\n")

-- The wait for the reset, with `timeout` turns to go: whether the card finished.
unfoldable pub wait_reset : ℕ → M Machine Bool
wait_reset zero = do say (ascii "RTL8139 reset timeout!\n"); pure false
wait_reset (suc timeout) = do
  cmd ← card_inb reg_cmd
  if has cmd cmd_reset then wait_reset timeout else pure true

unfoldable pub reset_card : M Machine Bool
reset_card = do power_up; wait_reset 1000

-- The address for the card: `(rx_buffer_phys + 16) & ~0xF` where it is not aligned.
unfoldable pub rbstart_of : ℕ → ℕ
rbstart_of rx_buffer_phys =
    if has rx_buffer_phys 0xf
    then bit_and (u32 (rx_buffer_phys + 16)) (2 ^ 32 - 16)
    else rx_buffer_phys

abbrev pub imr_config : ℕ
imr_config = bit_or (bit_or (bit_or isr_rok isr_tok) isr_rer) isr_ter

abbrev pub rcr_config : ℕ
rcr_config =
    bit_or
      (bit_or (bit_or (bit_or (bit_or (bit_or rcr_aap rcr_apm) rcr_am) rcr_ab) rcr_wrap)
        rcr_rblen_32k)
      rcr_mxdma_unlimited

abbrev pub tcr_config : ℕ
tcr_config = bit_or (bit_or tcr_ifg_standard tcr_mxdma_2048) tcr_crc

unfoldable pub set_interrupts : Act
set_interrupts = do
  say (ascii "Setting up interrupts...\nInitial ISR value: ")
  isr ← card_inw reg_isr
  say (terminal_hex16 isr ++ ascii "\n")
  card_outw reg_imr imr_config
  card_outw reg_isr 0xffff
  say (ascii "IMR set to: ")
  imr ← card_inw reg_imr
  say (terminal_hex16 imr ++ ascii "\n")

unfoldable pub configure_rx : Act
configure_rx = do
  say (ascii "Configuring RX/TX...\n")
  card_outl reg_rcr rcr_config
  rcr_verify ← card_inl reg_rcr
  say (ascii "RCR configured: " ++ (terminal_hex32 rcr_verify ++ ascii "\n"))

unfoldable pub configure_tx : Act
configure_tx = do
  card_outl reg_tcr tcr_config
  tcr_verify ← card_inl reg_tcr
  say (ascii "TCR configured: " ++ (terminal_hex32 tcr_verify ++ ascii "\n"))

-- Whether both enable bits can be read back.
unfoldable pub enable_rx_tx : M Machine Bool
enable_rx_tx = do
  say (ascii "Enabling RX/TX...\n")
  card_outb reg_cmd (bit_or cmd_rx_enable cmd_tx_enable)
  cmd ← card_inb reg_cmd
  say (ascii "Command register after enable: " ++ (terminal_hex8 cmd ++ ascii "\n"))
  pure (bit_and cmd (bit_or cmd_rx_enable cmd_tx_enable) == bit_or cmd_rx_enable cmd_tx_enable)

unfoldable pub configure_card : M Machine Bool
configure_card = do
  rx_buffer ← gets (λ m. m.nic.rx_buffer)
  card_outl reg_rbstart (rbstart_of rx_buffer)
  set_interrupts
  configure_rx
  configure_tx
  enable_rx_tx

-- An echo request from 10.0.2.15 to 10.0.2.2, before its checksums are set.
abbrev pub test_data : List ℕ
test_data =
    0xff ∷ 0xff ∷ 0xff ∷ 0xff ∷ 0xff ∷ 0xff ∷ 0x52 ∷ 0x54 ∷ 0x00 ∷ 0x12 ∷ 0x34 ∷ 0x56 ∷ 0x08 ∷ 0x00
    ∷ 0x45 ∷ 0x00 ∷ 0x00 ∷ 0x1c ∷ 0x00 ∷ 0x00 ∷ 0x00 ∷ 0x00 ∷ 0x40 ∷ 0x01 ∷ 0x00 ∷ 0x00 ∷ 0x0a
    ∷ 0x00 ∷ 0x02 ∷ 0x0f ∷ 0x0a ∷ 0x00 ∷ 0x02 ∷ 0x02 ∷ 0x08 ∷ 0x00 ∷ 0x00 ∷ 0x00 ∷ 0x00 ∷ 0x01
    ∷ 0x00 ∷ 0x01 ∷ []

-- A checksum over `n` bytes from `from` on, stored at `at` with its lower byte first.
unfoldable pub store_checksum : ℕ → ℕ → ℕ → List ℕ → List ℕ
store_checksum from n at packet =
    let sum = network_checksum (take n (drop from packet)) in
    set (set packet at (bit_and sum 0xff)) (at + 1) (bit_and (shr sum 8) 0xff)

unfoldable pub test_packet : List ℕ
test_packet = store_checksum 34 8 36 (store_checksum 14 20 24 test_data)

unfoldable pub show_final : Act
show_final = do
  say (ascii "RTL8139 initialized successfully\n=== Final Register State ===\n")
  rtl8139_dump_registers
  say (ascii "===========================\n\nSending test packet...\n")

unfoldable pub send_test_packet : Act
send_test_packet = do rtl8139_send_packet test_packet 42; say (ascii "Test packet sent\n")

unfoldable pub finish_init : Act
finish_init = do show_final; send_test_packet

unfoldable pub start_card : Act
start_card = do
  ready ← configure_card
  if ready then finish_init else say (ascii "RTL8139 failed to enable RX/TX!\n")

unfoldable pub announce : Act
announce = do
  say (ascii "\n=== RTL8139 Initialization ===\n")
  off ← gets (λ m. m.disable_rtl_debug)
  serial (
      ascii "\r\n=== RTL8139 Initialization ===\r\nRTL8139: Debug output enabled status: "
      ++ (if off
          then ascii "OFF (disable_rtl_debug=true)\r\n"
          else ascii "ON (disable_rtl_debug=false)\r\n"))

unfoldable pub show_base : ℕ → Act
show_base base = do
  say (ascii "RTL8139 I/O Base: 0x" ++ (terminal_hex16 base ++ ascii "\n"))
  serial (ascii "RTL8139 I/O Base: 0x" ++ (serial_hex16 base ++ ascii "\r\n"))

module _ (memory : ℕ → List ℕ) where
  -- `rx_buffer = kmalloc(RX_BUFFER_SIZE + 16)`, and what follows where it is not null.
  unfoldable pub with_rx_buffer : Act → Act
  with_rx_buffer next = do
    heap ← gets (λ m. m.heap_end)
    modify (λ m. record m {
      heap_end = (kmalloc heap (rx_buffer_size + 16)).1;
      nic = record m.nic { rx_buffer = (kmalloc heap (rx_buffer_size + 16)).0 };
      rx_memory = memory (kmalloc heap (rx_buffer_size + 16)).0;
    })
    if (kmalloc heap (rx_buffer_size + 16)).0 == 0
        then say (ascii "Failed to allocate RX buffer\n")
        else next

  unfoldable pub after_reset : Act
  after_reset = do
    say (ascii "RTL8139 reset completed successfully\nInitializing RX buffer...\n")
    with_rx_buffer start_card

  unfoldable pub reset_and_start : Act
  reset_and_start = do
    rx_buffer ← gets (λ m. m.nic.rx_buffer)
    say (ascii "RX buffer allocated at: " ++ (terminal_hex rx_buffer ++ ascii "\n"))
    done ← reset_card
    if done then after_reset else skip

unfoldable pub find_registers : (Machine → List ℕ) → ℕ → ℕ → Act
find_registers beyond bus slot = do
  modify (λ m. record m { nic = record m.nic { bus = bus; slot = slot } })
  announce
  base ← pci_get_iobase beyond bus slot
  modify (λ m. record m { nic = record m.nic { iobase = base } })
  show_base base
  pci_configure_interrupt beyond bus slot 11

unfoldable pub rtl8139_init : (Machine → List ℕ) → (ℕ → List ℕ) → ℕ → ℕ → Act
rtl8139_init beyond memory bus slot = do
  find_registers beyond bus slot
  with_rx_buffer memory (reset_and_start memory)
