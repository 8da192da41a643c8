-- ===== src/Rtl8139/Init/Laws.antt =====
-- The initialisation from the first buffer on: it returns on every path, and each way that it ends
-- has its own writes.
use mathlib.Core.Path.{subst}
use aimini_os.Base.{
  false, true, ◌≢◌, eqb→eq, eqb→ne, ℕ, ◌+◌, ◌*◌, ◌%◌, ◌≤◌, ◌≡◌, refl, Bool, List, [], ◌∷◌, ◌++◌,
  if◌then◌else◌, u16, u32, then_lem, arith, length, ◌==◌, Bool-cases, inl, inr, ◌⊎◌, skip,
}
use aimini_os.Format.{ascii, terminal_hex}
use aimini_os.Console
use aimini_os.Console.{Console}
use aimini_os.Memory.{kmalloc}
use aimini_os.Machine.{PortEvent, port_out, Machine, Nic, Act, say}
use aimini_os.Machine.Stage.{IsStage, writes, writes-Reads}
use aimini_os.Machine.Quiet.{IsQuiet, Quiet-say, Quiet-bind}
use aimini_os.Rtl8139.Registers.{reg_cmd, reg_tsd0, reg_tsad0, tx_buffer_size, rx_buffer_size}
use aimini_os.Rtl8139.Dump.{rtl8139_dump_registers}
use aimini_os.Rtl8139.Dump.Laws.{Quiet-rtl8139_dump_registers}
use aimini_os.Rtl8139.Send.{rtl8139_send_packet}
use aimini_os.Rtl8139.Send.Laws.{
  IsNic, Transmits, sent_nic, filled, rtl8139_send_packet-IsSent, row_there,
}
use aimini_os.Rtl8139.Send.Statics.{IsNic-sent_nic}
use aimini_os.Rtl8139.Init.{
  test_packet, store_checksum, show_final, finish_init, send_test_packet, start_card, after_reset,
  reset_card, reset_and_start, with_rx_buffer, configure_card,
}
use aimini_os.Rtl8139.Init.Stages.{
  reset_writes, configure_writes, Resets, writes-Resets, reset_card-IsReset, configured,
  enable_bits, configure_card_lem,
}
use aimini_os.Rtl8139.Init.Run.{
  IsRun, Run-say, Run-skip, Run-after, Run-stage, Run-moved, moved-IsNic,
}

-- The ways that the initialisation ends.
pub data Ending : Type 0 where
  no_buffer : Ending
  reset_timeout : Ending
  no_second_buffer : Ending
  not_enabled : Ending
  ready : Ending

-- The address and the length of a packet of 42 bytes, at the current descriptor.
abbrev pub test_writes : Nic → List PortEvent
test_writes nic =
    port_out 4 (u16 (nic.iobase + reg_tsd0 + nic.current_tx_buffer * 4)) (u32 42)
    ∷ port_out 4 (u16 (nic.iobase + reg_tsad0 + nic.current_tx_buffer * 4))
        (u32 (nic.tx_address + nic.current_tx_buffer * tx_buffer_size))
    ∷ []

-- What is written until each end, with the ring at `rx`, the latest first.
abbrev pub ending_writes : Nic → ℕ → Ending → List PortEvent
ending_writes nic rx no_buffer = []
ending_writes nic rx reset_timeout = reset_writes nic.iobase
ending_writes nic rx no_second_buffer = reset_writes nic.iobase
ending_writes nic rx not_enabled = configure_writes nic.iobase rx ++ reset_writes nic.iobase
ending_writes nic rx ready =
    test_writes nic ++ (configure_writes nic.iobase rx ++ reset_writes nic.iobase)

-- The wait after the writes of the reset, of at most 1000 reads, with its outcome.
abbrev pub ResetEnds : (List PortEvent → ℕ) → ℕ → List PortEvent → Bool → List PortEvent → Type 0
ResetEnds device base h done h' =
    Resets device (u16 (base + reg_cmd)) 1000 (reset_writes base ++ h) done h'

-- What the card's answers and the heap are at each end behind the first buffer, with the second
-- buffer `rx` and the history `h`.
abbrev pub MeetsReset : (List PortEvent → ℕ) → ℕ → ℕ → List PortEvent → Ending → Type 0
MeetsReset device base rx h no_buffer = ⊥
MeetsReset device base rx h reset_timeout = (h' : List PortEvent) × ResetEnds device base h false h'
MeetsReset device base rx h no_second_buffer =
    (h' : List PortEvent) × ResetEnds device base h true h' × (rx ≡ 0)
MeetsReset device base rx h not_enabled =
    (h' : List PortEvent) × ResetEnds device base h true h'
    × (rx ≢ 0)
    × (enable_bits device base rx h' ≢ 0x0c)
MeetsReset device base rx h ready =
    (h' : List PortEvent) × ResetEnds device base h true h'
    × (rx ≢ 0)
    × (enable_bits device base rx h' ≡ 0x0c)

Transmits-writes :
    (nic : Nic) (before after : List PortEvent)
    → Transmits nic 42 before after
    → writes after ≡ test_writes nic ++ writes before
Transmits-writes nic before after t =
    rw (writes-Reads t.third, writes-Reads t.second, writes-Reads t.first) refl

length-test_packet : 42 ≤ length test_packet
unfolding test_packet store_checksum
length-test_packet = omega arith

Run-send_test_packet :
    (m : Machine) → IsNic m.nic → IsRun m (test_writes m.nic) (send_test_packet m)
unfolding send_test_packet
Run-send_test_packet m v =
    let s = rtl8139_send_packet-IsSent test_packet 42 m v (omega arith) length-test_packet in
    let (row, there, size) =
      row_there m.nic.tx_buffer m.nic.current_tx_buffer v.sizes
        (omega (arith, v.current, v.buffers)) in
    let length_row : length s.row ≡ 1536 = cc (s.held, there, size) in
    let w =
      IsNic-sent_nic m.nic test_packet s.row 42 v length_row (omega arith) length-test_packet in
    record {
      console = _;
      ports = s.ports;
      heap_end = m.heap_end;
      rx_memory = m.rx_memory;
      rx_buffer = m.nic.rx_buffer;
      tx_buffer = (sent_nic m.nic (filled test_packet 42 s.row)).tx_buffer;
      current = (m.nic.current_tx_buffer + 1) % 4;
      returns = then_lem (rtl8139_send_packet test_packet 42) _ s.returns;
      statics = record { buffers = w.buffers; sizes = w.sizes; current = w.current };
      wrote = Transmits-writes m.nic m.ports s.ports s.transmits;
    }

Quiet-show_final : (m : Machine) → IsQuiet m (show_final m)
unfolding show_final
Quiet-show_final m =
    Quiet-bind m (say (ascii "RTL8139 initialized successfully\n=== Final Register State ===\n")) _
      (Quiet-say m _)
      (λ _ n.
        Quiet-bind n rtl8139_dump_registers _ (Quiet-rtl8139_dump_registers n)
          (λ _ o. Quiet-say o (ascii "===========================\n\nSending test packet...\n")))

Run-finish_init : (m : Machine) → IsNic m.nic → IsRun m (test_writes m.nic) (finish_init m)
unfolding finish_init
Run-finish_init m v =
    Run-after m show_final (λ _. send_test_packet) (Quiet-show_final m)
      (λ _ console ports. Run-send_test_packet (record m { console = console; ports = ports }) v)

-- From the configuration on: not enabled, or ready, by the enable bits that the card answers with.
start_card-Run :
    (m : Machine)
    → IsNic m.nic
    → let bits = enable_bits m.device m.nic.iobase m.nic.rx_buffer m.ports in
      ((bits ≢ 0x0c) × IsRun m (configure_writes m.nic.iobase m.nic.rx_buffer) (start_card m))
      ⊎ ((bits ≡ 0x0c)
          × IsRun m
              (test_writes m.nic ++ configure_writes m.nic.iobase m.nic.rx_buffer)
              (start_card m))
unfolding start_card
start_card-Run m v =
    let (console, e) = configure_card_lem m in
    let ports : List PortEvent = configured m.nic.iobase m.nic.rx_buffer m.ports in
    let bits : ℕ = enable_bits m.device m.nic.iobase m.nic.rx_buffer m.ports in
    let s : IsStage m (configure_writes m.nic.iobase m.nic.rx_buffer) (configure_card m) = record {
      value = bits == 0x0c;
      console = console;
      ports = ports;
      returns = e;
      wrote = refl;
    } in
    let n : Machine = record m { console = console; ports = ports } in
    let f : Bool → Act =
      λ enabled. if enabled then finish_init else say (ascii "RTL8139 failed to enable RX/TX!\n") in
    elim (Bool-cases (bits == 0x0c)) [
      | inl y ↦ inr (
        eqb→eq bits 0x0c y,
        Run-stage m configure_card f {next = test_writes m.nic} s (rw y (Run-finish_init n v)),
      )
      | inr y ↦
          inl
            (eqb→ne bits 0x0c y, Run-stage m configure_card f {next = []} s (rw y (Run-say n _ v)))
    ]

-- The machine with a buffer taken from the heap.
abbrev pub buffer_at : ℕ → ℕ
buffer_at heap = (kmalloc heap (rx_buffer_size + 16)).0

abbrev pub heap_after : ℕ → ℕ
heap_after heap = (kmalloc heap (rx_buffer_size + 16)).1

module _ (memory : ℕ → List ℕ) where
  abbrev pub buffered : Machine → Machine
  buffered m = record m {
    heap_end = heap_after m.heap_end;
    nic = record m.nic { rx_buffer = buffer_at m.heap_end };
    rx_memory = memory (buffer_at m.heap_end);
  }

  -- The allocation fails, with nothing written, or what follows has the buffer.
  pub with_rx_buffer-Run :
      (m : Machine) (next : Act)
      → IsNic m.nic
      → ((buffer_at m.heap_end ≡ 0) × IsRun m [] (with_rx_buffer memory next m))
        ⊎ ((buffer_at m.heap_end ≢ 0) × (with_rx_buffer memory next m ≡ next (buffered m)))
  unfolding with_rx_buffer
  with_rx_buffer-Run m next v = elim (Bool-cases (buffer_at m.heap_end == 0)) [
    | inl e ↦
        inl (
          eqb→eq _ _ e,
          rw e (Run-moved m _ _ _ _ (Run-say (buffered m) _ (moved-IsNic m.nic _ v))),
        )
    | inr e ↦ inr (eqb→ne _ _ e, rw e refl)
  ]

  -- From the end of the reset on.
  after_reset-Run :
      (m : Machine)
      → IsNic m.nic
      → let rx = buffer_at m.heap_end in
        let bits = enable_bits m.device m.nic.iobase rx m.ports in
        ((rx ≡ 0) × IsRun m [] (after_reset memory m))
        ⊎ ((rx ≢ 0)
            × (((bits ≢ 0x0c) × IsRun m (configure_writes m.nic.iobase rx) (after_reset memory m))
                ⊎ ((bits ≡ 0x0c)
                    × IsRun m
                        (test_writes m.nic ++ configure_writes m.nic.iobase rx)
                        (after_reset memory m))))
  unfolding after_reset
  after_reset-Run m v =
      let console : Console =
        Console.print (ascii "RTL8139 reset completed successfully\nInitializing RX buffer...\n")
          m.console in
      let n : Machine = record m { console = console } in
      elim (with_rx_buffer-Run n start_card v) [
        | inl (z, r) ↦ inl (z, Run-moved m _ _ _ _ r)
        | inr (z, e) ↦ inr (
          z,
          rw e (elim (start_card-Run (buffered n) (moved-IsNic m.nic _ v)) [
            | inl (y, r) ↦ inl (y, Run-moved m _ _ _ _ r)
            | inr (y, r) ↦ inr (y, Run-moved m _ _ _ _ r)
          ]),
        )
      ]

  -- From the reset on, with the first buffer allocated.
  pub reset_and_start-Run :
      (m : Machine)
      → IsNic m.nic
      → (e : Ending) × MeetsReset m.device m.nic.iobase (buffer_at m.heap_end) m.ports e
        × IsRun m (ending_writes m.nic (buffer_at m.heap_end) e) (reset_and_start memory m)
  unfolding reset_and_start
  reset_and_start-Run m v =
      let console : Console =
        Console.print
          (ascii "RX buffer allocated at: " ++ (terminal_hex m.nic.rx_buffer ++ ascii "\n"))
          m.console in
      let n : Machine = record m { console = console } in
      let q = reset_card-IsReset n in
      let s : IsStage n (reset_writes m.nic.iobase) (reset_card n) = record {
        value = q.done;
        console = q.console;
        ports = q.ports;
        returns = q.returns;
        wrote = writes-Resets q.resets;
      } in
      let k : Machine = record n { console = q.console; ports = q.ports } in
      let f : Bool → Act = λ done. if done then after_reset memory else skip in
      let configure : List PortEvent = configure_writes m.nic.iobase (buffer_at m.heap_end) in
      let Wait : Bool → Type 0 = λ done. ResetEnds m.device m.nic.iobase m.ports done q.ports in
      elim (Bool-cases q.done) [
        | inr e ↦ (
          reset_timeout,
          (q.ports, subst Wait e q.resets),
          Run-moved m _ _ _ _ (Run-stage n reset_card f {next = []} s (rw e (Run-skip k v))),
        )
        | inl e ↦ elim (after_reset-Run k v) [
          | inl (z, r) ↦ (
            no_second_buffer,
            (q.ports, subst Wait e q.resets, z),
            Run-moved m _ _ _ _ (Run-stage n reset_card f {next = []} s (rw e r)),
          )
          | inr (z, inl (y, r)) ↦ (
            not_enabled,
            (q.ports, subst Wait e q.resets, z, y),
            Run-moved m _ _ _ _ (Run-stage n reset_card f {next = configure} s (rw e r)),
          )
          | inr (z, inr (y, r)) ↦ (
            ready,
            (q.ports, subst Wait e q.resets, z, y),
            Run-moved m _ _ _ _
                (Run-stage n reset_card f {next = test_writes m.nic ++ configure} s (rw e r)),
          )
        ]
      ]
