-- ===== src/Ring/Interrupt.antt =====
-- What `rtl8139_handle_interrupt` does when no frame was received.
use aimini_os.Base.{
  ℕ, ◌+◌, ◌%◌, ◌^◌, ◌≡◌, refl, ◌∙◌, Option, some, false, List, ◌∷◌, u16, then_lem, ◌>>◌,
}
use aimini_os.Format.{ascii}
use aimini_os.Console
use aimini_os.Console.{Console}
use aimini_os.Machine.{PortEvent, port_out, Machine, say, serial, has}
use aimini_os.Machine.Quiet.{
  Reads, one_more, none_more, Reads-trans, IsQuiet, Quiet-say, Quiet-bind, Quiet-if,
}
use aimini_os.Rtl8139.Registers.{reg_isr, isr_rok, isr_tok}
use aimini_os.Rtl8139.Send.{debug}
use aimini_os.Rtl8139.Send.Wait.{Quiet-debug}
use aimini_os.Ring.{
  show_tsd, show_interrupt, received, transmitted, acknowledge, rtl8139_handle_interrupt,
}
use aimini_os.Ring.Empty.{asked_for}

Quiet-show_tsd : (i : ℕ) (m : Machine) → IsQuiet m (show_tsd i m)
unfolding show_tsd
Quiet-show_tsd i m = record {
  value = tt;
  console = _;
  ports = _;
  returns = refl;
  reads = one_more 4 _ none_more;
}

Quiet-show_interrupt : (status : ℕ) (m : Machine) → IsQuiet m (show_interrupt status m)
unfolding show_interrupt
Quiet-show_interrupt status m =
    Quiet-bind m (debug (say _ >> serial _)) _
      (Quiet-debug m (say _ >> serial _)
        (λ k. record { value = tt; console = _; ports = _; returns = refl; reads = none_more }))
      (λ _ k. record {
        value = tt;
        console = _;
        ports = _;
        returns = refl;
        reads = one_more 1 _ none_more;
      })

Quiet-transmitted : (status : ℕ) (m : Machine) → IsQuiet m (transmitted status m)
unfolding transmitted show_tsd
Quiet-transmitted status m =
    Quiet-if m (has status isr_tok) _ (say _)
      (λ _.
        Quiet-bind m (debug (say _ >> serial _)) _
          (Quiet-debug m (say _ >> serial _)
            (λ k. record { value = tt; console = _; ports = _; returns = refl; reads = none_more }))
          (λ _ k. record {
            value = tt;
            console = _;
            ports = _;
            returns = refl;
            reads = one_more 4 _ (one_more 4 _ (one_more 4 _ (one_more 4 _ none_more)));
          }))
      (λ _. Quiet-say m _)

-- A return that wrote `status` to the interrupt status register once; all other accesses are reads,
-- and nothing else changed but the console.
pub record Acknowledges (m : Machine) (status : ℕ) (returned : Option (Unit {0} × Machine))
    : Type 0 where
  pub asked : List PortEvent
  pub console : Console
  pub ports : List PortEvent
  pub first : Reads m.ports asked
  pub second : Reads (port_out 2 (u16 (m.nic.iobase + reg_isr)) (u16 status) ∷ asked) ports
  pub returns : returned ≡ some (tt, record m { console = console; ports = ports })

acknowledge-Acknowledges : (status : ℕ) (m : Machine) → Acknowledges m status (acknowledge status m)
unfolding acknowledge
acknowledge-Acknowledges status m = record {
  asked = m.ports;
  console = _;
  ports = _;
  first = none_more;
  second = one_more 2 _ none_more;
  returns = refl;
}

-- The status that the card answers.
abbrev pub answer_isr : Machine → ℕ
answer_isr m = m.device (asked_for reg_isr m m.ports) % 2 ^ 16

-- An interrupt whose status has no received frame: the bits that were read are written back to the
-- status register, all other accesses are reads, and nothing else changes but the console, with and
-- without debug output.
pub rtl8139_handle_interrupt-Acknowledges :
    (beyond : ℕ → List ℕ) (buffer : List ℕ) (m : Machine)
    → has (answer_isr m) isr_rok ≡ false
    → Acknowledges m (answer_isr m) (rtl8139_handle_interrupt beyond buffer m)
unfolding rtl8139_handle_interrupt received
rtl8139_handle_interrupt-Acknowledges beyond buffer m no_frame =
    let status : ℕ = answer_isr m in
    let m1 : Machine = record m {
      console = Console.print (ascii "\n=== RTL8139 Interrupt [DEBUG] ===\n") m.console;
      ports = asked_for reg_isr m m.ports;
    } in
    let q1 = Quiet-show_interrupt status m1 in
    let m2 : Machine = record m1 { console = q1.console; ports = q1.ports } in
    let q2 : IsQuiet m2 (received beyond buffer status m2) = rw no_frame (Quiet-say m2 _) in
    let m3 : Machine = record m2 { console = q2.console; ports = q2.ports } in
    let q3 = Quiet-transmitted status m3 in
    let a =
      acknowledge-Acknowledges status (record m3 { console = q3.console; ports = q3.ports }) in
    record {
      asked = a.asked;
      console = a.console;
      ports = a.ports;
      first =
          Reads-trans (one_more 2 _ none_more)
            (Reads-trans q1.reads (Reads-trans q2.reads (Reads-trans q3.reads a.first)));
      second = a.second;
      returns =
          then_lem (show_interrupt status) _ q1.returns
          ∙ (then_lem (received beyond buffer status) _ q2.returns
              ∙ (then_lem (transmitted status) _ q3.returns ∙ a.returns));
    }
