-- ===== src/Rtl8139/Send.antt =====
-- `rtl8139_send_packet`. Its debug output about the packet stands in `Rtl8139.Log`.
pub mod Wait
pub mod Laws
pub mod Statics
pub mod Polls
mod Tests
use aimini_os.Base.{
  ℕ, zero, suc, ◌+◌, ◌-◌, ◌*◌, ◌%◌, ◌^◌, List, [], ◌∷◌, ◌++◌, Bool, true, false, ◌&&◌, not, ltb,
  ◌==◌, if◌then◌else◌, M, skip, pure, modify, gets, ◌>>=◌, ◌>>◌, get_elem?, set, u32,
}
use Prim.Native.String.{String}
use aimini_os.Format.{ascii, terminal_hex8, terminal_hex16, terminal_hex32}
use aimini_os.Memory.{memcpy}
use aimini_os.Machine.{Machine, Act, say, demand, has, outl}
use aimini_os.Rtl8139.Registers.{
  reg_tsd0, reg_tsad0, tx_buffer_size, tsd_tok, tsd_tun, tsd_tabt, flag, card_inl,
}
use aimini_os.Rtl8139.Log.{log_packet}
use aimini_os.Rtl8139.Dump.{rtl8139_dump_registers}

-- `if (!disable_rtl_debug) { … }`
abbrev pub debug : Act → Act
debug act = do off ← gets (λ m. m.disable_rtl_debug); if off then skip else act

-- The copy loop into `tx_buffer[current_tx_buffer]`: a fault past the end of the packet.
unfoldable pub fill_buffer : List ℕ → ℕ → Act
fill_buffer packet length = do
  cur ← gets (λ m. m.nic.current_tx_buffer)
  buffers ← gets (λ m. m.nic.tx_buffer)
  row ← demand (get_elem? buffers cur)
  row' ← demand (memcpy row packet length)
  modify (λ m. record m { nic = record m.nic { tx_buffer = set m.nic.tx_buffer cur row' } })

-- `(uint32_t)tx_buffer[current_tx_buffer]`
abbrev pub tx_row_address : Machine → ℕ
tx_row_address m = m.nic.tx_address + m.nic.current_tx_buffer * tx_buffer_size

unfoldable pub log_copy : Act
log_copy = do
  cur ← gets (λ m. m.nic.current_tx_buffer)
  say (ascii "Copying data to TX buffer " ++ (terminal_hex8 cur ++ ascii "...\n"))

unfoldable pub log_tsad : Act
log_tsad = do
  cur ← gets (λ m. m.nic.current_tx_buffer)
  addr ← gets tx_row_address
  say (
      ascii "Setting TSAD: "
      ++ (terminal_hex8 cur ++ (ascii " to address: " ++ (terminal_hex32 addr ++ ascii "\n"))))

unfoldable pub verify_tsad : ℕ → Act
verify_tsad length = do
  cur ← gets (λ m. m.nic.current_tx_buffer)
  tsad ← card_inl (reg_tsad0 + cur * 4)
  say (
      ascii "Verified TSAD"
      ++ (terminal_hex8 cur
          ++ (ascii ": "
              ++ (terminal_hex32 tsad
                  ++ (ascii "\nSetting TSD: "
                      ++ (terminal_hex8 cur
                          ++ (ascii " with length: " ++ (terminal_hex16 length ++ ascii "\n"))))))))

unfoldable pub log_tsd : ℕ → Act
log_tsd length = say (ascii "TSD raw value to set: " ++ (terminal_hex32 length ++ ascii "\n"))

unfoldable pub verify_tsd : Act
verify_tsd = do
  cur ← gets (λ m. m.nic.current_tx_buffer)
  tsd ← card_inl (reg_tsd0 + cur * 4)
  say (
      ascii "Verified TSD raw value: "
      ++ (terminal_hex32 tsd
          ++ (ascii "\nPacket queued for transmission\nTSD"
              ++ (terminal_hex8 cur ++ ascii " after setting: "))))
  again ← card_inl (reg_tsd0 + cur * 4)
  say (terminal_hex32 again ++ ascii "\n")

-- The address and status registers of the descriptor; writing the status starts the transmission.
unfoldable pub write_tsad : Act
write_tsad = do
  base ← gets (λ m. m.nic.iobase)
  cur ← gets (λ m. m.nic.current_tx_buffer)
  addr ← gets tx_row_address
  outl (base + reg_tsad0 + cur * 4) addr

unfoldable pub write_tsd : ℕ → Act
write_tsd length = do
  base ← gets (λ m. m.nic.iobase)
  cur ← gets (λ m. m.nic.current_tx_buffer)
  outl (base + reg_tsd0 + cur * 4) length

unfoldable pub next_buffer : Act
next_buffer =
    modify (λ m. record m {
      nic = record m.nic { current_tx_buffer = (m.nic.current_tx_buffer + 1) % 4 };
    })

-- `x % k` of ints as 32-bit patterns, for a positive `k`: the remainder has the sign of `x`.
unfoldable pub int_rem : ℕ → ℕ → ℕ
int_rem x k = if ltb x (2 ^ 31) then x % k else u32 (2 ^ 32 - (2 ^ 32 - x) % k)

-- `((current_tx_buffer - 1) % 4) * 4` of ints, as a 32-bit pattern.
unfoldable pub wait_offset : ℕ → ℕ
wait_offset cur = u32 (int_rem (u32 (cur + (2 ^ 32 - 1))) 4 * 4)

-- `[ TOK TUN TABT ]`
abbrev pub tsd_flags : ℕ → List ℕ
tsd_flags tsd =
    ascii " ["
    ++ (flag tsd tsd_tok " TOK"
        ++ (flag tsd tsd_tun " TUN" ++ (flag tsd tsd_tabt " TABT" ++ ascii " ]\n")))

-- Every hundredth turn is logged.
unfoldable pub log_turn : ℕ → ℕ → Act
log_turn timeout tsd =
    if timeout % 100 == 0
    then say (ascii "TSD during wait: " ++ (terminal_hex32 tsd ++ tsd_flags tsd))
    else skip

-- An error ends the loop by `break`.
abbrev pub stop : String → ℕ → ℕ → M Machine (ℕ × ℕ)
stop message timeout tsd = do debug (say (ascii message)); pure (timeout, tsd)

-- The end of a turn that has read `tsd`; `again` is the rest of the loop.
unfoldable pub check_errors : ℕ → ℕ → M Machine (ℕ × ℕ) → M Machine (ℕ × ℕ)
check_errors timeout tsd again =
    if has tsd tsd_tabt
    then stop "ERROR: Transmission aborted!\n" timeout tsd
    else if has tsd tsd_tun
    then stop "ERROR: Transmit underrun!\n" timeout tsd
    else again

-- The polling loop with `timeout` turns left; its result is the last `timeout` and `tsd`.
unfoldable pub wait_loop : ℕ → ℕ → ℕ → M Machine (ℕ × ℕ)
wait_loop offset zero tsd = pure (0, tsd)
wait_loop offset (suc timeout) tsd =
    let turn : M Machine (ℕ × ℕ) = (do
      tsd' ← card_inl (reg_tsd0 + offset)
      debug (log_turn (suc timeout) tsd')
      check_errors timeout tsd' (wait_loop offset timeout tsd')) in
    if has tsd tsd_tok then pure (suc timeout, tsd) else turn

-- The last lines of the debug output.
unfoldable pub log_result : ℕ → ℕ → Act
log_result timeout tsd =
    if timeout == 0
    then say (ascii "ERROR: Transmission timeout!\n")
    else say
        (ascii "Transmission completed\nFinal TSD value: " ++ (terminal_hex32 tsd ++ tsd_flags tsd))

unfoldable pub log_end : ℕ → ℕ → Act
log_end timeout tsd = do
  log_result timeout tsd
  rtl8139_dump_registers
  say (ascii "=== Sending Packet End ===\n")

unfoldable pub wait_for_transmission : Act
wait_for_transmission = do
  cur ← gets (λ m. m.nic.current_tx_buffer)
  debug (say (ascii "Waiting for transmission to complete...\n"))
  tsd ← card_inl (reg_tsd0 + wait_offset cur)
  (timeout, tsd') ← wait_loop (wait_offset cur) 1000 tsd
  debug (log_end timeout tsd')

-- From the address register on.
unfoldable pub start_transmission : ℕ → Act
start_transmission length = do
  write_tsad
  debug (verify_tsad length)
  debug (log_tsd length)
  write_tsd length
  debug verify_tsd
  next_buffer
  wait_for_transmission

-- From the copy to the buffer on.
unfoldable pub transmit : List ℕ → ℕ → Act
transmit packet length = do
  debug log_copy
  fill_buffer packet length
  debug log_tsad
  start_transmission length

unfoldable pub rtl8139_send_packet : List ℕ → ℕ → Act
rtl8139_send_packet packet length = do
  debug (log_packet packet length)
  if ltb tx_buffer_size length
      then debug (say (ascii "ERROR: Packet too large!\n"))
      else transmit packet length
