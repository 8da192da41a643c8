-- ===== src/Rtl8139/Init/Whole.antt =====
-- The whole of `rtl8139_init`.
use aimini_os.Base.{
  ℕ, ◌*◌, ◌/◌, ◌%◌, ◌^◌, ◌<◌, ◌≡◌, ◌≢◌, refl, ◌∙◌, List, [], ◌∷◌, ◌++◌, Option, some, if◌then◌else◌,
  ◌==◌, then_lem, arith, ◌⊎◌, inl, inr,
}
use aimini_os.Console.{Console}
use aimini_os.Machine.{PortEvent, port_out, Machine, Nic}
use aimini_os.Pci.{pci_config_address, pci_config_data, pci_command, pci_bar0, pci_interrupt_line}
use aimini_os.Pci.Address.{asked}
use aimini_os.Pci.Look.{Looks, no_look, look}
use aimini_os.Pci.Enable.{enabled, pci_get_iobase}
use aimini_os.Pci.Enable.Laws.{
  WritesConfig, bar0_of, command_of, place_of, pci_get_iobase-Enables, pci_configure_interrupt_lem,
}
use aimini_os.Rtl8139.Send.Laws.{IsNic}
use aimini_os.Rtl8139.Init.{
  announce, show_base, find_registers, with_rx_buffer, reset_and_start, rtl8139_init,
}
use aimini_os.Rtl8139.Init.Run.{IsRun, Run-moved, moved-IsNic}
use aimini_os.Rtl8139.Init.Laws.{
  Ending, reset_timeout, no_second_buffer, not_enabled, ready, MeetsReset, no_buffer, ending_writes,
  buffer_at, heap_after, buffered, with_rx_buffer-Run, reset_and_start-Run,
}

-- The start of the card's I/O range, or 0 if it has none.
abbrev pub base_of : ℕ → ℕ → Machine → ℕ
base_of bus slot m = if bar0_of bus slot m % 2 == 1 then bar0_of bus slot m % 2 ^ 16 / 4 * 4 else 0

-- The command register is written where there is an I/O range; all else are looks.
abbrev pub Opens : ℕ → ℕ → Machine → List PortEvent → Type 0
Opens bus slot m after =
    ((bar0_of bus slot m % 2 ≡ 1)
      × WritesConfig (place_of bus slot pci_command) (enabled (command_of bus slot m)) m.ports
          after)
    ⊎ ((bar0_of bus slot m % 2 ≡ 0) × Looks m.ports after)

-- A normal return of the base address.
pub record IsOpen (bus slot : ℕ) (m : Machine) (result : Option (ℕ × Machine)) : Type 0 where
  pub console : Console
  pub ports : List PortEvent
  pub returns : result ≡ some (base_of bus slot m, record m { console = console; ports = ports })
  pub opens : Opens bus slot m ports

announce_lem :
    (m : Machine) → (console : Console) × (announce m ≡ some (tt, record m { console = console }))
unfolding announce
announce_lem m = (_, refl)

show_base_lem :
    (base : ℕ) (m : Machine)
    → (console : Console) × (show_base base m ≡ some (tt, record m { console = console }))
unfolding show_base
show_base_lem base m = (_, refl)

-- The interrupt line 11.
abbrev pub line_writes : ℕ → ℕ → List PortEvent
line_writes bus slot =
    port_out 4 pci_config_data 11
    ∷ port_out 4 pci_config_address (place_of bus slot pci_interrupt_line)
    ∷ []

-- The statics with the card's place and its registers.
abbrev pub found_nic : ℕ → ℕ → Machine → Nic
found_nic bus slot m = record m.nic { bus = bus; slot = slot; iobase = base_of bus slot m }

record IsFound (bus slot : ℕ) (m : Machine) (result : Option (Unit {0} × Machine)) : Type 0 where
  console : Console
  ports : List PortEvent
  returns :
      result
      ≡ some (
        tt,
        record m {
          console = console;
          ports = line_writes bus slot ++ ports;
          nic = found_nic bus slot m;
        },
      )
  opens : Opens bus slot m ports

-- The second of the two buffers that are allocated.
abbrev pub second_buffer : Machine → ℕ
second_buffer m = buffer_at (heap_after m.heap_end)

-- What the card's answers and the heap are at each end, with the history `h` before the reset.
abbrev pub Meets : Machine → ℕ → List PortEvent → Ending → Type 0
Meets m base h no_buffer = buffer_at m.heap_end ≡ 0
Meets m base h reset_timeout =
    (buffer_at m.heap_end ≢ 0) × MeetsReset m.device base (second_buffer m) h reset_timeout
Meets m base h no_second_buffer =
    (buffer_at m.heap_end ≢ 0) × MeetsReset m.device base (second_buffer m) h no_second_buffer
Meets m base h not_enabled =
    (buffer_at m.heap_end ≢ 0) × MeetsReset m.device base (second_buffer m) h not_enabled
Meets m base h ready =
    (buffer_at m.heap_end ≢ 0) × MeetsReset m.device base (second_buffer m) h ready

Meets-MeetsReset :
    (m : Machine) (base : ℕ) (h : List PortEvent) (e : Ending)
    → buffer_at m.heap_end ≢ 0
    → MeetsReset m.device base (second_buffer m) h e
    → Meets m base h e
Meets-MeetsReset m base h no_buffer z r = absurd r
Meets-MeetsReset m base h reset_timeout z r = (z, r)
Meets-MeetsReset m base h no_second_buffer z r = (z, r)
Meets-MeetsReset m base h not_enabled z r = (z, r)
Meets-MeetsReset m base h ready z r = (z, r)

-- A normal return: the card's place was looked up, and then the writes of `ending` were made, at
-- which the card's answers and the heap are as it says, with well-formed statics again.
pub record IsInitialised (bus slot : ℕ) (m : Machine) (result : Option (Unit {0} × Machine))
    : Type 0 where
  pub console : Console
  pub opened : List PortEvent
  pub opens : Opens bus slot m opened
  pub ending : Ending
  pub meets : Meets m (base_of bus slot m) (line_writes bus slot ++ opened) ending
  pub run :
      IsRun
        (record m {
          console = console;
          ports = line_writes bus slot ++ opened;
          nic = found_nic bus slot m;
        })
        (ending_writes (found_nic bus slot m) (second_buffer m) ending)
        result

from_first_buffer :
    (memory : ℕ → List ℕ) (n : Machine)
    → IsNic n.nic
    → (e : Ending) × Meets n n.nic.iobase n.ports e
      × IsRun n
          (ending_writes n.nic (second_buffer n) e)
          (with_rx_buffer memory (reset_and_start memory) n)
from_first_buffer memory n v = elim (with_rx_buffer-Run memory n (reset_and_start memory) v) [
  | inl (z, r) ↦ (no_buffer, z, r)
  | inr (z, e) ↦
      let (ending, met, r) =
        reset_and_start-Run memory (buffered memory n) (moved-IsNic n.nic _ v) in
      (ending, Meets-MeetsReset n n.nic.iobase n.ports ending z met, rw e (Run-moved n _ _ _ _ r))
]

module _ (beyond : Machine → List ℕ) (bus slot : ℕ) (b : bus < 2 ^ 8) (s : slot < 2 ^ 5) where
  pub pci_get_iobase-IsOpen : (m : Machine) → IsOpen bus slot m (pci_get_iobase beyond bus slot m)
  pci_get_iobase-IsOpen m = elim (pci_get_iobase-Enables beyond bus slot b s m) [
    | inl (e, r) ↦ record {
      console = r.console;
      ports = r.ports;
      returns = rw e r.returns;
      opens = inl (e, r.writes);
    }
    | inr (e, r) ↦ record {
      console = m.console;
      ports = asked m (place_of bus slot pci_bar0);
      returns = rw e r;
      opens = inr (e, look _ no_look);
    }
  ]

  find_registers-IsFound : (m : Machine) → IsFound bus slot m (find_registers beyond bus slot m)
  unfolding find_registers
  find_registers-IsFound m =
      let m1 : Machine = record m { nic = record m.nic { bus = bus; slot = slot } } in
      let (c1, e1) = announce_lem m1 in
      let q = pci_get_iobase-IsOpen (record m1 { console = c1 }) in
      let m2 : Machine = record m {
        console = q.console;
        ports = q.ports;
        nic = found_nic bus slot m;
      } in
      let (c2, e2) = show_base_lem (base_of bus slot m) m2 in
      let (c3, e3) =
        pci_configure_interrupt_lem beyond bus slot 11 (record m2 { console = c2 }) b s
          (omega arith) in
      record {
        console = c3;
        ports = q.ports;
        returns =
            then_lem announce _ e1
            ∙ (then_lem (pci_get_iobase beyond bus slot) _ q.returns
                ∙ (then_lem (show_base (base_of bus slot m)) _ e2 ∙ e3));
        opens = q.opens;
      }

  -- For a bus of 8 bits, a slot of 5 and well-formed statics, the initialisation returns, whatever
  -- the bus and the card answer. It looks at the configuration space, enables the device where it
  -- has an I/O range, and sets interrupt line 11. There are five ends, each with its condition and
  -- the writes to the card that follow. Without a first buffer there are none. Else power up and
  -- reset are written. If then 1000 reads of the command register all have the reset bit, or one
  -- has not but there is no second buffer, that is all. With a second buffer, the ring's address,
  -- the interrupt mask, the acknowledgement, the two configurations and the enable bits follow. If
  -- the next read of the command register lacks an enable bit, that is all, and if it has both, the
  -- address and the length of a test packet follow. Nothing changes but the console, the port
  -- history, the heap's end, the ring's bytes and the statics, which stay well formed.
  pub rtl8139_init-IsInitialised :
      (memory : ℕ → List ℕ) (m : Machine)
      → IsNic m.nic
      → IsInitialised bus slot m (rtl8139_init beyond memory bus slot m)
  unfolding rtl8139_init
  rtl8139_init-IsInitialised memory m v =
      let f = find_registers-IsFound m in
      let n : Machine = record m {
        console = f.console;
        ports = line_writes bus slot ++ f.ports;
        nic = found_nic bus slot m;
      } in
      let w : IsNic n.nic = record { buffers = v.buffers; sizes = v.sizes; current = v.current } in
      let (ending, met, r) = from_first_buffer memory n w in
      record {
        console = f.console;
        opened = f.ports;
        opens = f.opens;
        ending = ending;
        meets = met;
        run =
            rw
              (then_lem (find_registers beyond bus slot)
                (λ _. with_rx_buffer memory (reset_and_start memory)) f.returns)
              r;
      }
