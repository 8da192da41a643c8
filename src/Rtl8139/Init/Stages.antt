-- ===== src/Rtl8139/Init/Stages.antt =====
-- What each part of the initialisation writes to the card, the latest first.
use aimini_os.Base.{
  ℕ, zero, suc, ◌+◌, refl, Bool, true, false, List, [], ◌∷◌, ◌++◌, u8, u16, u32, bit_and, ◌≡◌, ◌≢◌,
  ◌==◌, Option, some, Bool-cases, inl, inr, arith, ltb→lt, ltb→le,
}
use aimini_os.Console.{Console}
use aimini_os.Machine.{PortEvent, port_in, port_out, Machine, has}
use aimini_os.Machine.Stage.{writes}
use aimini_os.Rtl8139.Registers.{
  reg_cmd, reg_rbstart, reg_isr, reg_imr, reg_rcr, reg_tcr, cmd_reset,
}
use aimini_os.Rtl8139.Init.{
  power_up, wait_reset, reset_card, rbstart_of, set_interrupts, configure_rx, configure_tx,
  enable_rx_tx, configure_card,
}

-- Power management off, then a reset.
abbrev pub reset_writes : ℕ → List PortEvent
reset_writes base = port_out 1 (u16 (base + reg_cmd)) 0x10 ∷ port_out 1 (u16 (base + 0x52)) 0 ∷ []

-- The ring's address, four kinds of interrupts, all interrupts acknowledged, the receive and the
-- transmit configuration, and receiver and transmitter on.
abbrev pub configure_writes : ℕ → ℕ → List PortEvent
configure_writes base rx_buffer =
    port_out 1 (u16 (base + reg_cmd)) 0x0c
    ∷ port_out 4 (u16 (base + reg_tcr)) 0x03010700
    ∷ port_out 4 (u16 (base + reg_rcr)) 0x0000078f
    ∷ port_out 2 (u16 (base + reg_isr)) 0xffff
    ∷ port_out 2 (u16 (base + reg_imr)) 0x000f
    ∷ port_out 4 (u16 (base + reg_rbstart)) (u32 (rbstart_of rx_buffer))
    ∷ []

-- The wait for the end of a reset, with a number of reads left, on top of a history: whether a read of
-- the command register came without the reset bit, and the history then.
pub data Resets (device : List PortEvent → ℕ) (port : ℕ)
    : ℕ → List PortEvent → Bool → List PortEvent → Type 0 where
  times_out : {h : List PortEvent} → Resets device port 0 h false h
  leaves :
      {left : ℕ} {h : List PortEvent}
      → bit_and (u8 (device (port_in 1 port ∷ h))) 0x10 ≡ 0
      → Resets device port (suc left) h true (port_in 1 port ∷ h)
  stays :
      {left : ℕ} {h h' : List PortEvent} {done : Bool}
      → bit_and (u8 (device (port_in 1 port ∷ h))) 0x10 ≢ 0
      → Resets device port left (port_in 1 port ∷ h) done h'
      → Resets device port (suc left) h done h'

pub writes-Resets :
    {device : List PortEvent → ℕ} {port left : ℕ} {h h' : List PortEvent} {done : Bool}
    → Resets device port left h done h'
    → writes h' ≡ writes h
writes-Resets times_out = refl
writes-Resets (leaves e) = refl
writes-Resets (stays e r) = writes-Resets r

-- A return of what the card's answers make of the wait.
pub record IsReset (left : ℕ) (m : Machine) (h : List PortEvent) (result : Option (Bool × Machine))
    : Type 0 where
  pub done : Bool
  pub console : Console
  pub ports : List PortEvent
  pub returns : result ≡ some (done, record m { console = console; ports = ports })
  pub resets : Resets m.device (u16 (m.nic.iobase + reg_cmd)) left h done ports

-- The wait returns, within its turns.
wait_reset-IsReset : (left : ℕ) (m : Machine) → IsReset left m m.ports (wait_reset left m)
unfolding wait_reset
wait_reset-IsReset zero m = record {
  done = false;
  console = _;
  ports = m.ports;
  returns = refl;
  resets = times_out;
}
wait_reset-IsReset (suc left) m =
    let port : ℕ = u16 (m.nic.iobase + reg_cmd) in
    let n : Machine = record m { ports = port_in 1 port ∷ m.ports } in
    let cmd : ℕ = u8 (m.device n.ports) in
    elim (Bool-cases (has cmd cmd_reset)) [
      | inl e ↦
          let r = wait_reset-IsReset left n in
          record {
            done = r.done;
            console = r.console;
            ports = r.ports;
            returns = rw e r.returns;
            resets = stays (omega (arith, ltb→lt _ _ e)) r.resets;
          }
      | inr e ↦ record {
        done = true;
        console = m.console;
        ports = n.ports;
        returns = rw e refl;
        resets = leaves (omega (arith, ltb→le _ _ e));
      }
    ]

pub reset_card-IsReset :
    (m : Machine) → IsReset 1000 m (reset_writes m.nic.iobase ++ m.ports) (reset_card m)
unfolding reset_card power_up
reset_card-IsReset m =
    let r =
      wait_reset-IsReset 1000
        (record m { console = _; ports = reset_writes m.nic.iobase ++ m.ports }) in
    record {
      done = r.done;
      console = r.console;
      ports = r.ports;
      returns = r.returns;
      resets = r.resets;
    }

-- The accesses of the configuration, on top of a history.
abbrev pub configured : ℕ → ℕ → List PortEvent → List PortEvent
configured base rx_buffer h =
    port_in 1 (u16 (base + reg_cmd))
    ∷ port_out 1 (u16 (base + reg_cmd)) 0x0c
    ∷ port_in 4 (u16 (base + reg_tcr))
    ∷ port_out 4 (u16 (base + reg_tcr)) 0x03010700
    ∷ port_in 4 (u16 (base + reg_rcr))
    ∷ port_out 4 (u16 (base + reg_rcr)) 0x0000078f
    ∷ port_in 2 (u16 (base + reg_imr))
    ∷ port_out 2 (u16 (base + reg_isr)) 0xffff
    ∷ port_out 2 (u16 (base + reg_imr)) 0x000f
    ∷ port_in 2 (u16 (base + reg_isr))
    ∷ port_out 4 (u16 (base + reg_rbstart)) (u32 (rbstart_of rx_buffer))
    ∷ h

-- The enable bits that the card answers with in the end: 0x0c if both are set.
abbrev pub enable_bits : (List PortEvent → ℕ) → ℕ → ℕ → List PortEvent → ℕ
enable_bits device base rx_buffer h = bit_and (u8 (device (configured base rx_buffer h))) 0x0c

pub configure_card_lem :
    (m : Machine)
    → (console : Console) × (configure_card m
        ≡ some (
          enable_bits m.device m.nic.iobase m.nic.rx_buffer m.ports == 0x0c,
          record m { console = console; ports = configured m.nic.iobase m.nic.rx_buffer m.ports },
        ))
unfolding configure_card set_interrupts configure_rx configure_tx enable_rx_tx
configure_card_lem m = (_, refl)
