-- ===== src/Rtl8139/Send/Laws.antt =====
-- What `rtl8139_send_packet` does to the transmit buffers and to the card.
use aimini_os.Base.{
  ℕ, zero, suc, ◌+◌, ◌*◌, ◌%◌, ◌≤◌, ◌<◌, ◌≡◌, refl, ◌∙◌, List, [], ◌∷◌, ◌++◌, Option, some, length,
  get_elem?, set, take, drop, arith, ltb, u16, u32, then_lem, le→ltb, ltb→le, if◌then◌else◌,
}
use aimini_os.Format.{ascii}
use aimini_os.Console.{Console}
use aimini_os.Memory.Copy.{memcpy_lem}
use aimini_os.Machine.{PortEvent, port_out, Machine, Nic, say}
use aimini_os.Machine.Quiet.{Reads, IsQuiet, Quiet-say, Quiet-bind, Quiet-if, Reads-trans}
use aimini_os.Rtl8139.Registers.{reg_tsd0, reg_tsad0, tx_buffer_size}
use aimini_os.Rtl8139.Log.{log_packet}
use aimini_os.Rtl8139.Log.Laws.{Quiet-log_packet}
use aimini_os.Rtl8139.Send.{
  debug, fill_buffer, log_copy, log_tsad, verify_tsad, log_tsd, verify_tsd, write_tsad, write_tsd,
  next_buffer, start_transmission, tx_row_address, transmit, rtl8139_send_packet,
}
use aimini_os.Rtl8139.Send.Wait.{
  Quiet-debug, Quiet-log_copy, Quiet-log_tsad, Quiet-verify_tsad, Quiet-log_tsd, Quiet-verify_tsd,
  Quiet-wait_for_transmission,
}

abbrev pub AllSize : ℕ → List (List ℕ) → Type 0
AllSize n [] = Unit
AllSize n (row ∷ rows) = (length row ≡ n) × AllSize n rows

-- The statics that sending uses: four buffers of 1536 bytes, and the number of the next one.
pub record IsNic (n : Nic) : Type 0 where
  pub buffers : length n.tx_buffer ≡ 4
  pub sizes : AllSize 1536 n.tx_buffer
  pub current : n.current_tx_buffer < 4

-- The buffer with the packet in front.
abbrev pub filled : List ℕ → ℕ → List ℕ → List ℕ
filled packet n row = take n packet ++ drop n row

-- The statics after a packet was handed to the card.
abbrev pub sent_nic : Nic → List ℕ → Nic
sent_nic nic row = record nic {
  tx_buffer = set nic.tx_buffer nic.current_tx_buffer row;
  current_tx_buffer = (nic.current_tx_buffer + 1) % 4;
}

-- The accesses of a transmission: the buffer's address and then the length are written to the
-- registers of the current descriptor, in this order; all else are reads.
pub record Transmits (nic : Nic) (n : ℕ) (before after : List PortEvent) : Type 0 where
  pub asked : List PortEvent
  pub addressed : List PortEvent
  pub first : Reads before asked
  pub second :
      Reads
        (port_out 4
            (u16 (nic.iobase + reg_tsad0 + nic.current_tx_buffer * 4))
            (u32 (nic.tx_address + nic.current_tx_buffer * tx_buffer_size))
          ∷ asked)
        addressed
  pub third :
      Reads
        (port_out 4 (u16 (nic.iobase + reg_tsd0 + nic.current_tx_buffer * 4)) (u32 n) ∷ addressed)
        after

-- A normal return that handed the first `n` bytes of `packet` to the card, moved on to the next
-- buffer, printed, and changed nothing else.
pub record IsSent (m : Machine) (packet : List ℕ) (n : ℕ) (result : Option (Unit {0} × Machine))
    : Type 0 where
  pub row : List ℕ
  pub console : Console
  pub ports : List PortEvent
  pub held : get_elem? m.nic.tx_buffer m.nic.current_tx_buffer ≡ some row
  pub returns :
      result
      ≡ some (
        tt,
        record m { console = console; ports = ports; nic = sent_nic m.nic (filled packet n row) },
      )
  pub transmits : Transmits m.nic n m.ports ports

pub row_there :
    (rows : List (List ℕ)) (i : ℕ)
    → AllSize 1536 rows
    → i < length rows
    → (row : List ℕ) × (get_elem? rows i ≡ some row) × (length row ≡ 1536)
row_there [] i s h = absurd (omega arith)
row_there (row ∷ rows) zero s h = (row, refl, s.0)
row_there (row ∷ rows) (suc i) s h = row_there rows i s.1 (omega arith)

pub fill_buffer_lem :
    (packet : List ℕ) (n : ℕ) (m : Machine) (row : List ℕ)
    → get_elem? m.nic.tx_buffer m.nic.current_tx_buffer ≡ some row
    → n ≤ length row
    → n ≤ length packet
    → fill_buffer packet n m
      ≡ some (
        tt,
        record m {
          nic = record m.nic {
            tx_buffer = set m.nic.tx_buffer m.nic.current_tx_buffer (filled packet n row);
          };
        },
      )
unfolding fill_buffer
fill_buffer_lem packet n m row e p q = rw (e, memcpy_lem row packet n p q)

-- The descriptor is programmed and waited for, from a machine with the packet in its buffer.
pub record IsStarted (m : Machine) (n : ℕ) (result : Option (Unit {0} × Machine)) : Type 0 where
  pub console : Console
  pub ports : List PortEvent
  pub addressed : List PortEvent
  pub returns :
      result
      ≡ some (
        tt,
        record m {
          console = console;
          ports = ports;
          nic = record m.nic { current_tx_buffer = (m.nic.current_tx_buffer + 1) % 4 };
        },
      )
  pub second :
      Reads
        (port_out 4
            (u16 (m.nic.iobase + reg_tsad0 + m.nic.current_tx_buffer * 4))
            (u32 (tx_row_address m))
          ∷ m.ports)
        addressed
  pub third :
      Reads
        (port_out 4 (u16 (m.nic.iobase + reg_tsd0 + m.nic.current_tx_buffer * 4)) (u32 n)
          ∷ addressed)
        ports

pub start_transmission-IsStarted : (n : ℕ) (m : Machine) → IsStarted m n (start_transmission n m)
unfolding start_transmission write_tsad write_tsd next_buffer
start_transmission-IsStarted n m =
    let m1 : Machine = record m {
      ports =
          port_out 4 (u16 (m.nic.iobase + reg_tsad0 + m.nic.current_tx_buffer * 4))
            (u32 (tx_row_address m))
          ∷ m.ports;
    } in
    let q2 = Quiet-debug m1 (verify_tsad n) (Quiet-verify_tsad n) in
    let m2 : Machine = record m1 { console = q2.console; ports = q2.ports } in
    let q3 = Quiet-debug m2 (log_tsd n) (Quiet-log_tsd n) in
    let m3 : Machine = record m2 { console = q3.console; ports = q3.ports } in
    let m4 : Machine = record m3 {
      ports =
          port_out 4 (u16 (m.nic.iobase + reg_tsd0 + m.nic.current_tx_buffer * 4)) (u32 n)
          ∷ m3.ports;
    } in
    let q5 = Quiet-debug m4 verify_tsd Quiet-verify_tsd in
    let q = Quiet-wait_for_transmission (record m4 {
      console = q5.console;
      ports = q5.ports;
      nic = record m.nic { current_tx_buffer = (m.nic.current_tx_buffer + 1) % 4 };
    }) in
    record {
      console = q.console;
      ports = q.ports;
      addressed = q3.ports;
      returns =
          then_lem (debug (verify_tsad n)) _ q2.returns
          ∙ (then_lem (debug (log_tsd n)) _ q3.returns
              ∙ (then_lem (debug verify_tsd) _ q5.returns ∙ q.returns));
      second = Reads-trans q2.reads q3.reads;
      third = Reads-trans q5.reads q.reads;
    }

-- From the copy on: with the packet no longer than the buffer and no shorter than its length.
transmit-IsSent :
    (packet : List ℕ) (n : ℕ) (m : Machine)
    → IsNic m.nic
    → n ≤ 1536
    → n ≤ length packet
    → IsSent m packet n (transmit packet n m)
unfolding transmit
transmit-IsSent packet n m v small enough =
    let held =
      row_there m.nic.tx_buffer m.nic.current_tx_buffer v.sizes
        (omega (arith, v.current, v.buffers)) in
    let row : List ℕ = held.0 in
    let q1 = Quiet-debug m log_copy Quiet-log_copy in
    let m1 : Machine = record m { console = q1.console; ports = q1.ports } in
    let copied = fill_buffer_lem packet n m1 row held.1 (omega (arith, held.2)) enough in
    let m2 : Machine = record m1 {
      nic = record m.nic {
        tx_buffer = set m.nic.tx_buffer m.nic.current_tx_buffer (filled packet n row);
      };
    } in
    let q3 = Quiet-debug m2 log_tsad Quiet-log_tsad in
    let s = start_transmission-IsStarted n (record m2 { console = q3.console; ports = q3.ports }) in
    record {
      row = row;
      console = s.console;
      ports = s.ports;
      held = held.1;
      returns =
          then_lem (debug log_copy) _ q1.returns
          ∙ (then_lem (fill_buffer packet n) _ copied
              ∙ (then_lem (debug log_tsad) _ q3.returns ∙ s.returns));
      transmits = record {
        asked = q3.ports;
        addressed = s.addressed;
        first = Reads-trans q1.reads q3.reads;
        second = s.second;
        third = s.third;
      };
    }

pub IsSent-after :
    (m : Machine) (console : Console) (ports : List PortEvent) (packet : List ℕ) (n : ℕ)
    {result : Option (Unit {0} × Machine)}
    → Reads m.ports ports
    → IsSent (record m { console = console; ports = ports }) packet n result
    → IsSent m packet n result
IsSent-after m console ports packet n r s = record {
  row = s.row;
  console = s.console;
  ports = s.ports;
  held = s.held;
  returns = s.returns;
  transmits = record {
    asked = s.transmits.asked;
    addressed = s.transmits.addressed;
    first = Reads-trans r s.transmits.first;
    second = s.transmits.second;
    third = s.transmits.third;
  };
}

-- With well-formed statics, with or without debug output, a packet of at most 1536 bytes, all in
-- memory, is handed to the card: its bytes are copied to the front of the current transmit buffer,
-- the buffer's address and the length are written to the current descriptor, the next buffer
-- becomes current, and the call returns, whatever the card answers; nothing but the console, the
-- port history and the buffers changes.
pub rtl8139_send_packet-IsSent :
    (packet : List ℕ) (n : ℕ) (m : Machine)
    → IsNic m.nic
    → n ≤ 1536
    → n ≤ length packet
    → IsSent m packet n (rtl8139_send_packet packet n m)
unfolding rtl8139_send_packet
rtl8139_send_packet-IsSent packet n m v small enough =
    let q = Quiet-debug m (log_packet packet n) (λ k. Quiet-log_packet packet n k enough) in
    let m1 : Machine = record m { console = q.console; ports = q.ports } in
    let s = transmit-IsSent packet n m1 v small enough in
    rw
      (
        then_lem (debug (log_packet packet n))
            (λ _.
              if ltb tx_buffer_size n
              then debug (say (ascii "ERROR: Packet too large!\n"))
              else transmit packet n)
            q.returns,
        le→ltb 1536 n small,
      )
      (IsSent-after m q.console q.ports packet n q.reads s)

-- A packet of more than 1536 bytes, all in memory, is dropped: the call prints and reads at most.
pub rtl8139_send_packet_too_large :
    (packet : List ℕ) (n : ℕ) (m : Machine)
    → 1536 < n
    → n ≤ length packet
    → IsQuiet m (rtl8139_send_packet packet n m)
unfolding rtl8139_send_packet
rtl8139_send_packet_too_large packet n m large enough =
    Quiet-bind m (debug (log_packet packet n)) _
      (Quiet-debug m (log_packet packet n) (λ k. Quiet-log_packet packet n k enough))
      (λ _ a.
        Quiet-if a (ltb tx_buffer_size n) (debug (say (ascii "ERROR: Packet too large!\n")))
          (transmit packet n)
          (λ _. Quiet-debug a (say (ascii "ERROR: Packet too large!\n")) (λ b. Quiet-say b _))
          (λ e. absurd (omega (arith, ltb→le 1536 n e))))
