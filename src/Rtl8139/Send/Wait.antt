-- ===== src/Rtl8139/Send/Wait.antt =====
-- The polling of the transmit status ends within its 1000 turns, and only reads and prints.
use Prim.Native.String.{String}
use aimini_os.Base.{◌^◌, ◌∷◌, u16, pure, ℕ, zero, suc, ◌+◌, ◌%◌, refl, M, ◌==◌, skip}
use aimini_os.Format.{ascii}
use aimini_os.Machine.{Machine, Act, say, has, port_in}
use aimini_os.Machine.Quiet.{
  IsQuiet, Quiet-bind, Quiet-pure, Quiet-say, Quiet-after, Quiet-if, none_more, one_more,
}
use aimini_os.Rtl8139.Registers.{reg_tsd0, tsd_tok, tsd_tun, tsd_tabt}
use aimini_os.Rtl8139.Dump.Laws.{Quiet-rtl8139_dump_registers}
use aimini_os.Rtl8139.Dump.{rtl8139_dump_registers}
use aimini_os.Rtl8139.Send.{
  debug, log_copy, log_tsad, verify_tsad, log_tsd, verify_tsd, wait_offset, wait_loop, log_turn,
  check_errors, stop, log_result, log_end, wait_for_transmission,
}

-- What the next read of the status register returns.
abbrev read_value : Machine → ℕ → ℕ
read_value m offset =
    m.device (port_in 4 (u16 (m.nic.iobase + (reg_tsd0 + offset))) ∷ m.ports) % 2 ^ 32

pub Quiet-debug :
    (m : Machine) (act : Act) → ((n : Machine) → IsQuiet n (act n)) → IsQuiet m (debug act m)
Quiet-debug m act q = Quiet-if m m.disable_rtl_debug _ act (λ _. Quiet-pure m tt) (λ _. q m)

pub Quiet-log_copy : (m : Machine) → IsQuiet m (log_copy m)
unfolding log_copy
Quiet-log_copy m = Quiet-say m _

pub Quiet-log_tsad : (m : Machine) → IsQuiet m (log_tsad m)
unfolding log_tsad
Quiet-log_tsad m = Quiet-say m _

pub Quiet-verify_tsad : (length : ℕ) (m : Machine) → IsQuiet m (verify_tsad length m)
unfolding verify_tsad
Quiet-verify_tsad length m = record {
  value = tt;
  console = _;
  ports = _;
  returns = refl;
  reads = one_more _ _ none_more;
}

pub Quiet-log_tsd : (length : ℕ) (m : Machine) → IsQuiet m (log_tsd length m)
unfolding log_tsd
Quiet-log_tsd length m = Quiet-say m _

pub Quiet-verify_tsd : (m : Machine) → IsQuiet m (verify_tsd m)
unfolding verify_tsd
Quiet-verify_tsd m = record {
  value = tt;
  console = _;
  ports = _;
  returns = refl;
  reads = one_more _ _ (one_more _ _ none_more);
}

Quiet-log_turn : (timeout tsd : ℕ) (m : Machine) → IsQuiet m (log_turn timeout tsd m)
unfolding log_turn
Quiet-log_turn timeout tsd m =
    Quiet-if m (timeout % 100 == 0) (say _) skip (λ _. Quiet-say m _) (λ _. Quiet-pure m tt)

Quiet-stop :
    (message : String) (timeout tsd : ℕ) (m : Machine) → IsQuiet m (stop message timeout tsd m)
Quiet-stop message timeout tsd m =
    Quiet-bind m (debug (say (ascii message))) _
      (Quiet-debug m (say (ascii message)) (λ n. Quiet-say n (ascii message)))
      (λ _ n. Quiet-pure n (timeout, tsd))

Quiet-check_errors :
    (timeout tsd : ℕ) (again : M Machine (ℕ × ℕ)) (m : Machine)
    → IsQuiet m (again m)
    → IsQuiet m (check_errors timeout tsd again m)
unfolding check_errors
Quiet-check_errors timeout tsd again m q =
    Quiet-if m (has tsd tsd_tabt) (stop _ timeout tsd) _ (λ _. Quiet-stop _ timeout tsd m)
      (λ _.
        Quiet-if m (has tsd tsd_tun) (stop _ timeout tsd) again (λ _. Quiet-stop _ timeout tsd m)
          (λ _. q))

Quiet-wait_loop :
    (offset timeout tsd : ℕ) (m : Machine) → IsQuiet m (wait_loop offset timeout tsd m)
unfolding wait_loop
Quiet-wait_loop offset zero tsd m = Quiet-pure m (0, tsd)
Quiet-wait_loop offset (suc timeout) tsd m =
    let tsd' : ℕ = read_value m offset in
    Quiet-if m (has tsd tsd_tok) (pure (suc timeout, tsd)) _ (λ _. Quiet-pure m (suc timeout, tsd))
      (λ _. Quiet-after m _ _ (one_more _ _ none_more) (
        Quiet-bind _ (debug (log_turn (suc timeout) tsd')) _
          (Quiet-debug _ (log_turn (suc timeout) tsd') (Quiet-log_turn (suc timeout) tsd'))
          (λ _ n. Quiet-check_errors timeout tsd' _ n (Quiet-wait_loop offset timeout tsd' n))))

Quiet-log_result : (timeout tsd : ℕ) (m : Machine) → IsQuiet m (log_result timeout tsd m)
unfolding log_result
Quiet-log_result timeout tsd m =
    Quiet-if m (timeout == 0) (say _) (say _) (λ _. Quiet-say m _) (λ _. Quiet-say m _)

Quiet-log_end : (timeout tsd : ℕ) (m : Machine) → IsQuiet m (log_end timeout tsd m)
unfolding log_end
Quiet-log_end timeout tsd m =
    Quiet-bind m (log_result timeout tsd) _ (Quiet-log_result timeout tsd m) (λ _ a.
      Quiet-bind a rtl8139_dump_registers _ (Quiet-rtl8139_dump_registers a) (λ _ b. Quiet-say b _))

-- Waiting for the transmission returns, whatever the card answers: at most 1000 turns.
pub Quiet-wait_for_transmission : (m : Machine) → IsQuiet m (wait_for_transmission m)
unfolding wait_for_transmission
Quiet-wait_for_transmission m =
    let offset : ℕ = wait_offset m.nic.current_tx_buffer in
    Quiet-bind m (debug (say (ascii "Waiting for transmission to complete...\n"))) _
      (Quiet-debug m (say (ascii "Waiting for transmission to complete...\n")) (λ n. Quiet-say n _))
      (λ _ a. Quiet-after a _ _ (one_more _ _ none_more) (
        Quiet-bind _ (wait_loop offset 1000 _) _ (Quiet-wait_loop offset 1000 _ _)
          (λ r b. Quiet-debug b (log_end r.0 r.1) (Quiet-log_end r.0 r.1))))
