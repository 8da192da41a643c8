-- ===== src/Kernel/Output.antt =====
-- What `kernel_main` does before the network prints and accesses ports, and changes nothing else.
use aimini_os.Base.{
  ℕ, ◌+◌, ◌≡◌, refl, ◌∙◌, Option, some, List, ◌∷◌, ◌==◌, M, ◌>>=◌, Bool-cases, inl, inr, then_lem,
}
use aimini_os.Console.{Console}
use aimini_os.Machine.{PortEvent, port_out, inb, serial, Machine}
use aimini_os.Interrupts.{pic_init}
use aimini_os.Serial.{com1, leave_loop, set_line, serial_init}
use aimini_os.Kernel.{before_serial, install_tables}

-- A normal return that printed and accessed ports.
pub record IsOutput {A : Type 0} (m : Machine) (result : Option (A × Machine)) : Type 0 where
  pub value : A
  pub console : Console
  pub ports : List PortEvent
  pub returns : result ≡ some (value, record m { console = console; ports = ports })

Output-done :
    {A : Type 0} (a : A) (m : Machine) (console : Console) (ports : List PortEvent)
    → IsOutput m (some (a, record m { console = console; ports = ports }))
Output-done a m console ports = record {
  value = a;
  console = console;
  ports = ports;
  returns = refl;
}

Output-bind :
    {A B : Type 0} (m : Machine) (x : M Machine A) (f : A → M Machine B)
    → IsOutput m (x m)
    → ((a : A) (n : Machine) → IsOutput n (f a n))
    → IsOutput m ((x >>= f) m)
Output-bind m x f q r =
    let s = r q.value (record m { console = q.console; ports = q.ports }) in
    record {
      value = s.value;
      console = s.console;
      ports = s.ports;
      returns = then_lem x f q.returns ∙ s.returns;
    }

Output-leave_loop : (echo : ℕ) (m : Machine) → IsOutput m (leave_loop echo m)
unfolding leave_loop
Output-leave_loop echo m = elim (Bool-cases (echo == 0xae)) [
  | inl e ↦ rw e (Output-done tt m m.console (port_out 1 (com1 + 4) 0x0f ∷ m.ports))
  | inr e ↦ rw e (Output-done tt m m.console m.ports)
]

Output-serial_init : (m : Machine) → IsOutput m (serial_init m)
unfolding serial_init set_line
Output-serial_init m =
    Output-bind m set_line (λ _. inb (com1 + 0) >>= leave_loop) (Output-done tt m m.console _)
      (λ _ n.
        Output-bind n (inb (com1 + 0)) leave_loop (Output-done _ n n.console _)
          (λ echo k. Output-leave_loop echo k))

Output-before_serial : (m : Machine) → IsOutput m (before_serial m)
unfolding before_serial pic_init
Output-before_serial m = Output-done tt m _ _

pub Output-install_tables : (m : Machine) → IsOutput m (install_tables m)
unfolding install_tables
Output-install_tables m =
    Output-bind m before_serial (λ _. serial_init >>= λ _. serial _) (Output-before_serial m)
      (λ _ n.
        Output-bind n serial_init (λ _. serial _) (Output-serial_init n)
          (λ _ k. Output-done tt k _ k.ports))
