-- ===== src/Ring/Modes.antt =====
-- A ping in the receive ring is answered with debug output on and off.
use aimini_os.Base.{
  ℕ, ◌+◌, ◌*◌, ◌≡◌, ◌<◌, refl, sym, ◌∙◌, Option, some, List, ◌++◌, lt→ltb, le→ltb, eq→eqb, arith,
  length, if_intro, then_lem, M, ◌>>=◌,
}
use mathlib.Core.Path.{subst}
use aimini_os.Format.{ascii, terminal_hex16}
use aimini_os.Console
use aimini_os.Console.{Console}
use aimini_os.Layout.{EthHeader, Ipv4Header, IcmpHeader}
use aimini_os.Machine.{PortEvent, Machine, Act, say}
use aimini_os.Machine.Quiet.{Reads, one_more, none_more, Reads-trans}
use aimini_os.Rtl8139.Send.Laws.{IsNic}
use aimini_os.Network.Icmp.Reply.{reply_frame, packet_of}
use aimini_os.Ring.{
  bytes_avail, rx_offset_of, next_offset, capr_of, rx_word, check_loudly, check_rx_buffer,
  first_bytes, show_frame, loud_frame,
}
use aimini_os.Ring.Empty.{answer_capr, answer_cbr}
use aimini_os.Ring.Frame.{Frame-split, frame_words}
use aimini_os.Ring.Answer.{Answers, IsPing, take_frame-Answers, check_silently-Answers}

-- The same behind reads and prints, and before a print.
Answers-around :
    (m : Machine) (console : Console) (ports : List PortEvent) (frame : List ℕ) (n value : ℕ)
    (x : M Machine (Unit {0})) (text : List ℕ)
    → Reads m.ports ports
    → let k : Machine = record m { console = console; ports = ports } in
      Answers k frame n value (x k) → Answers m frame n value ((x >>= λ _. say text) k)
Answers-around m console ports frame n value x text r s = record {
  row = s.row;
  console = _;
  ports = s.ports;
  held = s.held;
  returns = then_lem x (λ _. say text) s.returns;
  transmits = record {
    asked = s.transmits.asked;
    addressed = s.transmits.addressed;
    first = Reads-trans r s.transmits.first;
    second = s.transmits.second;
    third = s.transmits.third;
  };
}

-- The same behind prints.
Answers-printed :
    (m : Machine) (console : Console) (frame : List ℕ) (n value : ℕ)
    (returned : Option (Unit {0} × Machine))
    → Answers (record m { console = console }) frame n value returned
    → Answers m frame n value returned
Answers-printed m console frame n value returned s = record {
  row = s.row;
  console = s.console;
  ports = s.ports;
  held = s.held;
  returns = s.returns;
  transmits = s.transmits;
}

module _ (beyond : ℕ → List ℕ) (buffer : List ℕ) (full : length buffer ≡ 1500) (eth : EthHeader)
    (ip : Ipv4Header) (icmp : IcmpHeader) (payload : List ℕ) (offset size : ℕ) where
  first_bytes-packet :
      (text : List ℕ) × (first_bytes 16 (packet_of eth ip icmp payload) ≡ some text)
  unfolding first_bytes
  first_bytes-packet = (_, refl)

  show_frame-Prints :
      (m : Machine)
      → IsPing m.rx_memory m.net_dev.ip_addr offset size eth ip icmp payload
      → (console : Console) × (show_frame offset size m ≡ some (tt, record m { console = console }))
  unfolding show_frame
  show_frame-Prints m p =
      let text = first_bytes-packet in
      let split = Frame-split m.rx_memory offset size (packet_of eth ip icmp payload) p.frame in
      (
        Console.print
            (ascii "Valid packet received\nPacket data (first 16 bytes): "
              ++ (text.0 ++ ascii "\n"))
            m.console,
        rw (le→ltb size 16 (omega (arith, p.least)), split.0, text.1) refl,
      )

  loud_frame-Answers :
      (m : Machine) (capr cbr : ℕ)
      → IsNic m.nic
      → 0 < bytes_avail capr cbr
      → rx_offset_of capr ≡ offset
      → IsPing m.rx_memory m.net_dev.ip_addr offset size eth ip icmp payload
      → Answers m
          (reply_frame eth ip icmp)
          54
          (capr_of (next_offset offset size))
          (loud_frame beyond buffer capr cbr m)
  unfolding loud_frame
  loud_frame-Answers m capr cbr v some_bytes at p =
      let (status, sizes) = frame_words m offset size (packet_of eth ip icmp payload) p.frame in
      let c1 : Console =
        Console.print
          (ascii "Received packet: Status=0x"
            ++ (terminal_hex16 (p.frame.status_low + 256 * p.frame.status_high)
                ++ (ascii ", Size=" ++ (terminal_hex16 size ++ ascii "\n"))))
          m.console in
      let m1 : Machine = record m { console = c1 } in
      let (c2, shown) = show_frame-Prints m1 p in
      let s =
        take_frame-Answers beyond buffer full eth ip icmp payload offset size
          (record m { console = c2 }) v p in
      Answers-printed m c2 (reply_frame eth ip icmp) 54 (capr_of (next_offset offset size)) _ (
        subst
          (Answers (record m { console = c2 }) (reply_frame eth ip icmp) 54
            (capr_of (next_offset offset size)))
          (sym (
            rw (lt→ltb 0 _ some_bytes, at)
              (then_lem (rx_word offset) _ status
                ∙ (then_lem (rx_word (offset + 2)) _ sizes
                    ∙ rw (eq→eqb _ 1 p.frame.status) (then_lem (show_frame offset size) _ shown)))))
          s)

  check_loudly-Answers :
      (m : Machine)
      → IsNic m.nic
      → 0 < bytes_avail (answer_capr m) (answer_cbr m)
      → rx_offset_of (answer_capr m) ≡ offset
      → IsPing m.rx_memory m.net_dev.ip_addr offset size eth ip icmp payload
      → Answers m
          (reply_frame eth ip icmp)
          54
          (capr_of (next_offset offset size))
          (check_loudly beyond buffer m)
  unfolding check_loudly
  check_loudly-Answers m v some_bytes at p =
      Answers-around m _ _ (reply_frame eth ip icmp) 54 (capr_of (next_offset offset size))
        (loud_frame beyond buffer (answer_capr m) (answer_cbr m))
        (ascii "=== Checking RX Buffer End ===\n") (one_more 2 _ (one_more 2 _ none_more))
        (loud_frame-Answers _ (answer_capr m) (answer_cbr m) v some_bytes at p)

-- With debug output on or off, for well-formed statics of the driver and a ring that counts as not
-- empty, a ping for this machine that stands in the ring at the driver's read offset, with its
-- status good and its size 46 to 1504, is answered: the 54 bytes of the reply go to the card, and
-- then the place behind the frame is written to the register that gives its space back. The call
-- returns, and nothing else changes but the console, the port history and the transmit buffers.
pub check_rx_buffer-Answers :
    (beyond : ℕ → List ℕ) (buffer : List ℕ) (eth : EthHeader) (ip : Ipv4Header) (icmp : IcmpHeader)
    (payload : List ℕ) (size : ℕ) (m : Machine)
    → length buffer ≡ 1500
    → IsNic m.nic
    → 0 < bytes_avail (answer_capr m) (answer_cbr m)
    → IsPing m.rx_memory m.net_dev.ip_addr (rx_offset_of (answer_capr m)) size eth ip icmp payload
    → Answers m
        (reply_frame eth ip icmp)
        54
        (capr_of (next_offset (rx_offset_of (answer_capr m)) size))
        (check_rx_buffer beyond buffer m)
unfolding check_rx_buffer
check_rx_buffer-Answers beyond buffer eth ip icmp payload size m full v some_bytes p =
    let offset : ℕ = rx_offset_of (answer_capr m) in
    if_intro
      (λ (x : Act).
        Answers m (reply_frame eth ip icmp) 54 (capr_of (next_offset offset size)) (x m))
      m.disable_rtl_debug
      (λ _. check_silently-Answers beyond buffer eth ip icmp payload size m full v some_bytes p)
      (λ _.
        check_loudly-Answers beyond buffer full eth ip icmp payload offset size m v some_bytes refl
          p)
