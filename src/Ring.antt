-- ===== src/Ring.antt =====
-- The receive ring of rtl8139.c: `check_rx_buffer` and `rtl8139_handle_interrupt`. `rx_memory` is the
-- memory from `rx_buffer` on; the received frame stands in it and is handed to network.c in place.
pub mod Offsets
pub mod Empty
pub mod Frame
pub mod Answer
pub mod Modes
pub mod Samples
pub mod Learn
pub mod Interrupt
mod Tests
use aimini_os.Base.{
  ℕ, zero, suc, ◌+◌, ◌-◌, ◌*◌, ◌%◌, ◌^◌, Bool, true, false, not, Option, none, some, List, [], ◌∷◌,
  ◌++◌, ◌==◌, ltb, leb, if◌then◌else◌, M, pure, gets, modify, skip, ◌>>=◌, ◌>>◌, u16, bit_and, take,
  drop, get_elem?,
}
use aimini_os.Format.{ascii, terminal_hex8, terminal_hex16, terminal_hex32, serial_hex16}
use aimini_os.Machine.{Machine, Act, say, serial, demand, has, inw, outw}
use aimini_os.Rtl8139.Registers.{
  reg_capr, reg_cbr, reg_isr, reg_cmd, reg_tsd0, rx_buffer_size, isr_rok, isr_tok, isr_rer, isr_ter,
  cmd_rx_enable, cmd_tx_enable, flag, card_inb, card_inw, card_inl,
}
use aimini_os.Rtl8139.Send.{debug, tsd_flags}
use aimini_os.Network.Receive.{handle_network_packet}

unfoldable pub bytes_avail : ℕ → ℕ → ℕ
bytes_avail capr cbr =
    if leb capr cbr then u16 (cbr - capr) else u16 (2 ^ 16 + rx_buffer_size + cbr - capr)

-- `capr + 16`, brought back into the ring.
unfoldable pub rx_offset_of : ℕ → ℕ
rx_offset_of capr =
    let offset = u16 (capr + 16) in
    if leb rx_buffer_size offset then offset - rx_buffer_size else offset

-- `rx_offset` behind a frame of `rx_size` bytes: aligned, and brought back with 16 added.
unfoldable pub next_offset : ℕ → ℕ → ℕ
next_offset rx_offset rx_size =
    let offset = u16 (bit_and (rx_offset + rx_size + 4 + 3) (2 ^ 32 - 4)) in
    if leb rx_buffer_size offset then u16 (offset - rx_buffer_size + 16) else offset

-- `rx_offset - 16` as the register takes it.
unfoldable pub capr_of : ℕ → ℕ
capr_of rx_offset = u16 (rx_offset + (2 ^ 16 - 16))

-- `*(uint16_t *)(rx_buffer + offset)`
abbrev pub rx_word : ℕ → M Machine ℕ
rx_word offset = do
  memory ← gets (λ m. m.rx_memory)
  low ← demand (get_elem? memory offset)
  high ← demand (get_elem? memory (offset + 1))
  pure (low + 256 * high)

abbrev pub update_capr : ℕ → Act
update_capr rx_offset = do
  base ← gets (λ m. m.nic.iobase)
  outw (base + reg_capr) (capr_of rx_offset)

-- The frame at `rx_offset + 4` is handled and its space given back.
unfoldable pub take_frame : (ℕ → List ℕ) → List ℕ → ℕ → ℕ → Act
take_frame beyond buffer rx_offset rx_size = do
  memory ← gets (λ m. m.rx_memory)
  packet ←
      handle_network_packet beyond buffer (drop (rx_offset + 4) memory)
        (u16 (rx_size + (2 ^ 16 - 4)))
  modify (λ m. record m { rx_memory = take (rx_offset + 4) memory ++ packet })
  update_capr (next_offset rx_offset rx_size)

-- With debug output off.
unfoldable pub check_silently : (ℕ → List ℕ) → List ℕ → Act
check_silently beyond buffer = do
  capr ← card_inw reg_capr
  cbr ← card_inw reg_cbr
  if ltb 0 (bytes_avail capr cbr)
      then (do
        rx_status ← rx_word (rx_offset_of capr)
        rx_size ← rx_word (rx_offset_of capr + 2)
        if bit_and rx_status 1 == 1
            then (do
              serial (ascii "RX packet detected, processing...\r\n")
              take_frame beyond buffer (rx_offset_of capr) rx_size)
            else skip)
      else skip

-- The first bytes of the frame: at most 16, and `rx_size` at most.
unfoldable pub first_bytes : ℕ → List ℕ → Option (List ℕ)
first_bytes zero memory = some []
first_bytes (suc k) [] = none
first_bytes (suc k) (x ∷ memory) = elim (first_bytes k memory) [
  | none ↦ none
  | some text ↦ some (terminal_hex8 x ++ (b' ' ∷ text))
]

unfoldable pub show_frame : ℕ → ℕ → Act
show_frame rx_offset rx_size = do
  memory ← gets (λ m. m.rx_memory)
  text ← demand (first_bytes (if ltb rx_size 16 then rx_size else 16) (drop (rx_offset + 4) memory))
  say (ascii "Valid packet received\nPacket data (first 16 bytes): " ++ (text ++ ascii "\n"))

-- The branches of the call with debug output on.
unfoldable pub loud_frame : (ℕ → List ℕ) → List ℕ → ℕ → ℕ → Act
loud_frame beyond buffer capr cbr =
    if ltb 0 (bytes_avail capr cbr)
    then (do
      rx_status ← rx_word (rx_offset_of capr)
      rx_size ← rx_word (rx_offset_of capr + 2)
      say (
          ascii "Received packet: Status=0x"
          ++ (terminal_hex16 rx_status
              ++ (ascii ", Size=" ++ (terminal_hex16 rx_size ++ ascii "\n"))))
      if bit_and rx_status 1 == 1
          then (do
            show_frame (rx_offset_of capr) rx_size
            take_frame beyond buffer (rx_offset_of capr) rx_size)
          else say (ascii "Invalid packet received\n"))
    else say (ascii "No new data in RX buffer\n")

unfoldable pub check_loudly : (ℕ → List ℕ) → List ℕ → Act
check_loudly beyond buffer = do
  say (ascii "\n=== Checking RX Buffer [DEBUG] ===\n")
  capr ← card_inw reg_capr
  cbr ← card_inw reg_cbr
  address ← gets (λ m. m.nic.rx_buffer)
  say (
      ascii "CAPR (Read Pointer): "
      ++ (terminal_hex16 capr
          ++ (ascii "\nCBR (Write Pointer): "
              ++ (terminal_hex16 cbr
                  ++ (ascii "\nRX Buffer Physical Address: " ++ terminal_hex32 address)))))
  say (
      ascii "\nAvailable data in buffer: "
      ++ (terminal_hex16 (bytes_avail capr cbr) ++ ascii " bytes\n"))
  loud_frame beyond buffer capr cbr
  say (ascii "=== Checking RX Buffer End ===\n")

unfoldable pub check_rx_buffer : (ℕ → List ℕ) → List ℕ → Act
check_rx_buffer beyond buffer = do
  off ← gets (λ m. m.disable_rtl_debug)
  if off then check_silently beyond buffer else check_loudly beyond buffer

abbrev isr_flags : ℕ → List ℕ
isr_flags isr =
    flag isr isr_rok " ROK"
    ++ (flag isr isr_tok " TOK" ++ (flag isr isr_rer " RER" ++ flag isr isr_ter " TER"))

unfoldable pub show_tsd : ℕ → Act
show_tsd i = do
  tsd ← card_inl (reg_tsd0 + i * 4)
  say (ascii "TSD" ++ (terminal_hex8 i ++ (ascii ": " ++ (terminal_hex32 tsd ++ tsd_flags tsd))))

unfoldable pub show_interrupt : ℕ → Act
show_interrupt status = do
  debug (do
    say (ascii "RTL8139: Interrupt, status = 0x" ++ (terminal_hex16 status ++ ascii "\n"))
    serial (ascii "RTL8139: Interrupt, status = 0x" ++ (serial_hex16 status ++ ascii "\r\n")))
  say (
      ascii "ISR Status: "
      ++ (terminal_hex16 status ++ (ascii " [" ++ (isr_flags status ++ ascii " ]\n"))))
  cmd ← card_inb reg_cmd
  say (
      ascii "CMD Status: "
      ++ (terminal_hex8 cmd
          ++ (ascii " ["
              ++ (flag cmd cmd_rx_enable " RX_EN"
                  ++ (flag cmd cmd_tx_enable " TX_EN" ++ ascii " ]\n")))))

-- The two branches on `RTL8139_ISR_ROK` and on `RTL8139_ISR_TOK`.
unfoldable pub received : (ℕ → List ℕ) → List ℕ → ℕ → Act
received beyond buffer status =
    if has status isr_rok
    then (do
      debug (do
        say (ascii "RTL8139: Packet received\n")
        serial (ascii "RTL8139: Packet received\r\n"))
      check_rx_buffer beyond buffer)
    else say (ascii "No packet received (ROK not set)\n")

unfoldable pub transmitted : ℕ → Act
transmitted status =
    if has status isr_tok
    then (do
      debug (do
        say (ascii "RTL8139: Packet transmitted\n")
        serial (ascii "RTL8139: Packet transmitted\r\n"))
      show_tsd 0
      show_tsd 1
      show_tsd 2
      show_tsd 3)
    else say (ascii "No packet transmitted (TOK not set)\n")

-- The errors are told, and the bits that were read are written back, which clears them.
unfoldable pub acknowledge : ℕ → Act
acknowledge status = do
  say (if has status isr_rer then ascii "Receive error detected (RER set)\n" else [])
  say (if has status isr_ter then ascii "Transmit error detected (TER set)\n" else [])
  say (ascii "Clearing interrupt status: " ++ (terminal_hex16 status ++ ascii "\n"))
  base ← gets (λ m. m.nic.iobase)
  outw (base + reg_isr) status
  new_status ← card_inw reg_isr
  say (
      ascii "New ISR Status: "
      ++ (terminal_hex16 new_status
          ++ ascii "\nInterrupt handled\n=== RTL8139 Interrupt End ===\n"))

unfoldable pub rtl8139_handle_interrupt : (ℕ → List ℕ) → List ℕ → Act
rtl8139_handle_interrupt beyond buffer = do
  say (ascii "\n=== RTL8139 Interrupt [DEBUG] ===\n")
  status ← card_inw reg_isr
  show_interrupt status
  received beyond buffer status
  transmitted status
  acknowledge status
