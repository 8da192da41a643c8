-- ===== src/Rtl8139/Send/Polls.antt =====
-- The accesses of sending without debug output, and the register that is polled.
use aimini_os.Base.{
  Bool-cases, inl, inr, sym, ℕ, zero, suc, ◌+◌, ◌*◌, ◌%◌, ◌≤◌, ◌<◌, ◌≡◌, refl, ◌∙◌, ap, Bool, true,
  false, List, ◌∷◌, Option, some, length, set, arith, u16, u32, ◌==◌, if◌then◌else◌, skip, M,
  then_lem, le→ltb,
}
use mathlib.Core.Path.{subst}
use mathlib.Core.Bool.{false≢true}
use aimini_os.Machine.{PortEvent, port_in, port_out, Machine, Act, say, has}
use aimini_os.Rtl8139.Registers.{reg_tsd0, tsd_tok, tsd_tun, tsd_tabt}
use aimini_os.Rtl8139.Log.{log_packet}
use aimini_os.Rtl8139.Send.{
  debug, fill_buffer, log_copy, log_tsad, verify_tsad, log_tsd, verify_tsd, write_tsad, write_tsd,
  next_buffer, wait_offset, log_turn, check_errors, wait_loop, log_end, wait_for_transmission,
  start_transmission, transmit, rtl8139_send_packet,
}
use aimini_os.Rtl8139.Send.Laws.{IsNic, filled, row_there, fill_buffer_lem}
use aimini_os.Rtl8139.Send.Statics.{wait_offset_lem}

-- The card's errors in a status.
abbrev pub failed : ℕ → Bool
failed tsd = if has tsd tsd_tabt then true else has tsd tsd_tun

-- The polling of a register with a number of reads left, from the status `tsd` and a history to the
-- history behind it: it ends with a status that has TOK, with a read that has TABT or TUN, or
-- without reads left.
pub data Polls (device : List PortEvent → ℕ) (port : ℕ)
    : ℕ → ℕ → List PortEvent → List PortEvent → Type 0 where
  times_out : {tsd : ℕ} {h : List PortEvent} → Polls device port 0 tsd h h
  sent :
      {left tsd : ℕ} {h : List PortEvent}
      → has tsd tsd_tok ≡ true
      → Polls device port (suc left) tsd h h
  fails :
      {left tsd : ℕ} {h : List PortEvent}
      → has tsd tsd_tok ≡ false
      → failed (u32 (device (port_in 4 port ∷ h))) ≡ true
      → Polls device port (suc left) tsd h (port_in 4 port ∷ h)
  again :
      {left tsd : ℕ} {h h' : List PortEvent}
      → has tsd tsd_tok ≡ false
      → failed (u32 (device (port_in 4 port ∷ h))) ≡ false
      → Polls device port left (u32 (device (port_in 4 port ∷ h))) (port_in 4 port ∷ h) h'
      → Polls device port (suc left) tsd h h'

debug_off : (act : Act) (m : Machine) → m.disable_rtl_debug ≡ true → debug act m ≡ some (tt, m)
debug_off act m off = ap (λ (b : Bool). (if b then skip else act) m) off

-- A return of the loop that changes the history only.
record IsWait (port left tsd : ℕ) (m : Machine) (result : Option ((ℕ × ℕ) × Machine)) : Type 0 where
  value : ℕ × ℕ
  ports : List PortEvent
  returns : result ≡ some (value, record m { ports = ports })
  polls : Polls m.device port left tsd m.ports ports

module _ (timeout tsd : ℕ) (m : Machine) (off : m.disable_rtl_debug ≡ true)
    (rest : M Machine (ℕ × ℕ)) where
  check_errors-failed :
      failed tsd ≡ true → check_errors timeout tsd rest m ≡ some ((timeout, tsd), m)
  unfolding check_errors
  check_errors-failed e = elim (Bool-cases (has tsd tsd_tabt)) [
    | inl a ↦ rw a (then_lem (debug (say _)) _ (debug_off (say _) m off))
    | inr a ↦
        let u : has tsd tsd_tun ≡ true = cc (e, a) in
        rw (a, u) (then_lem (debug (say _)) _ (debug_off (say _) m off))
  ]

  check_errors-good : failed tsd ≡ false → check_errors timeout tsd rest m ≡ rest m
  unfolding check_errors
  check_errors-good e = elim (Bool-cases (has tsd tsd_tabt)) [
    | inl a ↦ absurd (false≢true (sym e ∙ rw a refl))
    | inr a ↦ let u : has tsd tsd_tun ≡ false = cc (e, a) in rw (a, u) refl
  ]

wait_loop-IsWait :
    (offset left tsd : ℕ) (m : Machine)
    → m.disable_rtl_debug ≡ true
    → IsWait (u16 (m.nic.iobase + (reg_tsd0 + offset))) left tsd m (wait_loop offset left tsd m)
unfolding wait_loop
wait_loop-IsWait offset zero tsd m off = record {
  value = (0, tsd);
  ports = m.ports;
  returns = refl;
  polls = times_out;
}
wait_loop-IsWait offset (suc left) tsd m off =
    let port : ℕ = u16 (m.nic.iobase + (reg_tsd0 + offset)) in
    let n : Machine = record m { ports = port_in 4 port ∷ m.ports } in
    let read : ℕ = u32 (m.device n.ports) in
    let rest = wait_loop-IsWait offset left read n off in
    let skipped =
      then_lem (debug (log_turn (suc left) read)) _ (debug_off (log_turn (suc left) read) n off) in
    elim (Bool-cases (has tsd tsd_tok)) [
      | inl e ↦ record {
        value = (suc left, tsd);
        ports = m.ports;
        returns = rw e refl;
        polls = sent e;
      }
      | inr e ↦ elim (Bool-cases (failed read)) [
        | inl f ↦ record {
          value = (left, read);
          ports = n.ports;
          returns =
              rw e (skipped ∙ check_errors-failed left read n off (wait_loop offset left read) f);
          polls = fails e f;
        }
        | inr f ↦ record {
          value = rest.value;
          ports = rest.ports;
          returns = rw e (
              skipped
              ∙ (check_errors-good left read n off (wait_loop offset left read) f ∙ rest.returns));
          polls = again e f rest.polls;
        }
      ]
    ]

-- The first read, and the loop.
record IsPolled (port : ℕ) (m : Machine) (result : Option (Unit {0} × Machine)) : Type 0 where
  ports : List PortEvent
  returns : result ≡ some (tt, record m { ports = ports })
  polls :
      Polls m.device port 1000
        (u32 (m.device (port_in 4 port ∷ m.ports)))
        (port_in 4 port ∷ m.ports)
        ports

wait_for_transmission-IsPolled :
    (m : Machine)
    → m.disable_rtl_debug ≡ true
    → IsPolled
        (u16 (m.nic.iobase + (reg_tsd0 + wait_offset m.nic.current_tx_buffer)))
        m
        (wait_for_transmission m)
unfolding wait_for_transmission
wait_for_transmission-IsPolled m off =
    let offset : ℕ = wait_offset m.nic.current_tx_buffer in
    let port : ℕ = u16 (m.nic.iobase + (reg_tsd0 + offset)) in
    let n : Machine = record m { ports = port_in 4 port ∷ m.ports } in
    let w = wait_loop-IsWait offset 1000 (u32 (m.device n.ports)) n off in
    record {
      ports = w.ports;
      returns =
          then_lem (debug (say _)) _ (debug_off (say _) m off)
          ∙ (then_lem (wait_loop offset 1000 _) _ w.returns
              ∙ debug_off (log_end w.value.0 w.value.1) (record m { ports = w.ports }) off);
      polls = w.polls;
    }

-- The status register of the current descriptor, but for the last one, where it is the one at 0x0c.
abbrev pub polled_port : Machine → ℕ
polled_port m =
    if m.nic.current_tx_buffer == 3
    then u16 (m.nic.iobase + 0x0c)
    else u16 (m.nic.iobase + (0x10 + m.nic.current_tx_buffer * 4))

-- The writes of the current descriptor's address and of the length.
abbrev pub described : Machine → ℕ → List PortEvent
described m n =
    port_out 4 (u16 (m.nic.iobase + 0x10 + m.nic.current_tx_buffer * 4)) (u32 n)
    ∷ port_out 4 (u16 (m.nic.iobase + 0x20 + m.nic.current_tx_buffer * 4))
        (u32 (m.nic.tx_address + m.nic.current_tx_buffer * 1536))
    ∷ m.ports

-- A return whose accesses are the two writes, a read of one register and the polling of it.
pub record IsPolling (m : Machine) (n port : ℕ) (result : Option (Unit {0} × Machine))
    : Type 0 where
  pub after : Machine
  pub returns : result ≡ some (tt, after)
  pub polls :
      let asked = port_in 4 port ∷ described m n in
      Polls m.device port 1000 (u32 (m.device asked)) asked after.ports

start_transmission-IsPolling :
    (n : ℕ) (m : Machine)
    → m.nic.current_tx_buffer < 4
    → m.disable_rtl_debug ≡ true
    → IsPolling m n (polled_port m) (start_transmission n m)
unfolding start_transmission write_tsad write_tsd next_buffer
start_transmission-IsPolling n m current off =
    let m1 : Machine = record m {
      ports =
          port_out 4 (u16 (m.nic.iobase + 0x20 + m.nic.current_tx_buffer * 4))
            (u32 (m.nic.tx_address + m.nic.current_tx_buffer * 1536))
          ∷ m.ports;
    } in
    let m2 : Machine = record m { ports = described m n } in
    let m3 : Machine = record m2 {
      nic = record m.nic { current_tx_buffer = (m.nic.current_tx_buffer + 1) % 4 };
    } in
    let w = wait_for_transmission-IsPolled m3 off in
    record {
      after = record m3 { ports = w.ports };
      returns =
          then_lem (debug (verify_tsad n)) _ (debug_off (verify_tsad n) m1 off)
          ∙ (then_lem (debug (log_tsd n)) _ (debug_off (log_tsd n) m1 off)
              ∙ (then_lem (debug verify_tsd) _ (debug_off verify_tsd m2 off) ∙ w.returns));
      polls =
          subst
            (λ port.
              let asked = port_in 4 port ∷ described m n in
              Polls m.device port 1000 (u32 (m.device asked)) asked w.ports)
            (wait_offset_lem m.nic.iobase m.nic.current_tx_buffer current) w.polls;
    }

-- With debug output off and well-formed statics, sending a packet of at most 1536 bytes, all in
-- memory, returns and makes these accesses and no others: the buffer's address and the length are
-- written to the current descriptor, and then one register is read. As long as the last read lacks
-- TOK it is read again, at most 1000 times, up to the first of these reads that has TABT or TUN. It is
-- the descriptor's status register, but for descriptor 3, where the driver polls the register at
-- 0x0c instead of 0x1c.
pub rtl8139_send_packet-IsPolling :
    (packet : List ℕ) (n : ℕ) (m : Machine)
    → IsNic m.nic
    → m.disable_rtl_debug ≡ true
    → n ≤ 1536
    → n ≤ length packet
    → IsPolling m n (polled_port m) (rtl8139_send_packet packet n m)
unfolding rtl8139_send_packet transmit
rtl8139_send_packet-IsPolling packet n m v off small enough =
    let (row, there, size) =
      row_there m.nic.tx_buffer m.nic.current_tx_buffer v.sizes
        (omega (arith, v.current, v.buffers)) in
    let copied = fill_buffer_lem packet n m row there (omega (arith, size, small)) enough in
    let m1 : Machine = record m {
      nic = record m.nic {
        tx_buffer = set m.nic.tx_buffer m.nic.current_tx_buffer (filled packet n row);
      };
    } in
    let s = start_transmission-IsPolling n m1 v.current off in
    record {
      after = s.after;
      returns =
          then_lem (debug (log_packet packet n)) _ (debug_off (log_packet packet n) m off)
          ∙ rw (le→ltb 1536 n small) (
              then_lem (debug log_copy) _ (debug_off log_copy m off)
              ∙ (then_lem (fill_buffer packet n) _ copied
                  ∙ (then_lem (debug log_tsad) _ (debug_off log_tsad m1 off) ∙ s.returns)));
      polls = s.polls;
    }
