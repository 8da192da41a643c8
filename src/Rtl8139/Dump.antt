-- ===== src/Rtl8139/Dump.antt =====
-- `rtl8139_dump_registers`.
pub mod Laws
use aimini_os.Base.{
  ℕ, zero, suc, ◌+◌, ◌*◌, ◌/◌, ◌^◌, List, [], ◌++◌, Bool, ltb, if◌then◌else◌, M, gets, skip, pure,
  ◌>>=◌, ◌>>◌, bit_and, shr,
}
use aimini_os.Format.{ascii, terminal_hex8, terminal_hex16, terminal_hex32}
use aimini_os.Machine.{Machine, Act, say, has}
use aimini_os.Rtl8139.Registers.{
  reg_cmd, reg_isr, reg_imr, reg_rcr, reg_tsd0, reg_capr, reg_cbr, reg_rbstart, reg_idr0, isr_rok,
  isr_tok, tsd_tok, tsd_tabt, flag, card_inb, card_inw, card_inl,
}

-- `for (int i = 0; i < 4; i++)` over the transmit status registers, `left` of them to go.
unfoldable pub dump_tsd : ℕ → ℕ → Act
dump_tsd zero i = skip
dump_tsd (suc left) i = do
  tsd ← card_inl (reg_tsd0 + i * 4)
  say (
      ascii "TSD0x0"
      ++ (terminal_hex8 i
          ++ (ascii ": 0x"
              ++ (terminal_hex32 tsd
                  ++ (ascii " [ "
                      ++ (flag tsd tsd_tok "TOK "
                          ++ (flag tsd tsd_tabt "TABT "
                              ++ (ascii "] Size: 0x"
                                  ++ (terminal_hex16 (bit_and (shr tsd 16) 0x1fff)
                                      ++ ascii "\n")))))))))
  dump_tsd left (i + 1)

-- The loop over the six bytes of the card's address.
unfoldable pub dump_mac : ℕ → ℕ → Act
dump_mac zero i = skip
dump_mac (suc left) i = do
  b ← card_inb (reg_idr0 + i)
  say (ascii "0x" ++ (terminal_hex8 b ++ (if ltb i 5 then ascii ":" else [])))
  dump_mac left (i + 1)

-- The command, interrupt and receive configuration registers.
unfoldable pub dump_head : Act
dump_head = do
  say (ascii "\n=== RTL8139 Register Dump ===\nCMD: 0x")
  cmd ← card_inb reg_cmd
  say (terminal_hex8 cmd ++ ascii " [ ")
  cmd1 ← card_inb reg_cmd
  say (flag cmd1 0x08 "TX_EN ")
  cmd2 ← card_inb reg_cmd
  say (flag cmd2 0x04 "RX_EN " ++ ascii "]\n")
  isr ← card_inw reg_isr
  say (
      ascii "ISR: 0x"
      ++ (terminal_hex16 isr
          ++ (ascii " [ "
              ++ (flag isr isr_rok "ROK " ++ (flag isr isr_tok "TOK " ++ ascii "]\n")))))
  imr ← card_inw reg_imr
  say (
      ascii "IMR: 0x"
      ++ (terminal_hex16 imr
          ++ (ascii " [ "
              ++ (flag imr isr_rok "ROK " ++ (flag imr isr_tok "TOK " ++ ascii "]\n")))))
  rcr ← card_inl reg_rcr
  say (
      ascii "RCR: 0x"
      ++ (terminal_hex32 rcr
          ++ (ascii " [ "
              ++ (flag rcr 0x01 "AAP "
                  ++ (flag rcr 0x02 "APM "
                      ++ (flag rcr 0x04 "AM "
                          ++ (flag rcr 0x08 "AB " ++ (flag rcr 0x80 "WRAP " ++ ascii "]\n"))))))))

-- The ring pointers and the buffer's address.
unfoldable pub dump_ring : Act
dump_ring = do
  say (ascii "CAPR: 0x")
  capr ← card_inw reg_capr
  say (terminal_hex16 capr ++ ascii " CBR: 0x")
  cbr ← card_inw reg_cbr
  say (terminal_hex16 cbr ++ ascii "\nRBSTART: 0x")
  rbstart ← card_inl reg_rbstart
  say (terminal_hex32 rbstart ++ ascii "\nMAC Address: ")

unfoldable pub dump_now : Act
dump_now = do
  dump_head
  dump_tsd 4 0
  dump_ring
  dump_mac 6 0
  say (ascii "\n============================\n")

unfoldable pub rtl8139_dump_registers : Act
rtl8139_dump_registers = do off ← gets (λ m. m.disable_rtl_debug); if off then skip else dump_now
