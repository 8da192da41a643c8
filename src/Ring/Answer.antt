-- ===== src/Ring/Answer.antt =====
-- A ping in the receive ring is answered.
use aimini_os.Base.{
  ℕ, ◌+◌, ◌-◌, ◌^◌, ◌≡◌, ◌<◌, ◌≤◌, ◌∙◌, ap, Option, some, true, List, ◌∷◌, arith, length, get_elem?,
  u16, then_lem,
}
use aimini_os.ByteOrder.{ntohs, ntohl}
use aimini_os.Console.{Console}
use aimini_os.Layout.{EthHeader, Ipv4Header, IcmpHeader}
use aimini_os.Machine.{PortEvent, port_out, Machine}
use aimini_os.Machine.Quiet.{one_more, none_more, Reads-trans}
use aimini_os.Rtl8139.Registers.{reg_capr}
use aimini_os.Rtl8139.Send.Laws.{IsNic, Transmits, filled, sent_nic}
use aimini_os.Network.Icmp.Reply.{reply_frame, packet_of}
use aimini_os.Network.Receive.{handle_network_packet, is_echo_request}
use aimini_os.Network.Receive.Dispatch.{IsPacket, handle_network_packet-Sends}
use aimini_os.Ring.{bytes_avail, rx_offset_of, next_offset, capr_of, take_frame, check_silently}
use aimini_os.Ring.Frame.{IsFrame, Frame-split, taking, check_silently_lem}
use aimini_os.Ring.Empty.{answer_capr, answer_cbr}

-- A return that sent `n` bytes of `frame` and then wrote `value` to the register that gives space in
-- the ring back; it printed, and changed nothing else.
pub record Answers (m : Machine) (frame : List ℕ) (n value : ℕ)
    (returned : Option (Unit {0} × Machine)) : Type 0 where
  pub row : List ℕ
  pub console : Console
  pub ports : List PortEvent
  pub held : get_elem? m.nic.tx_buffer m.nic.current_tx_buffer ≡ some row
  pub returns :
      returned
      ≡ some (
        tt,
        record m {
          console = console;
          ports = port_out 2 (u16 (m.nic.iobase + reg_capr)) (u16 value) ∷ ports;
          nic = sent_nic m.nic (filled frame n row);
        },
      )
  pub transmits : Transmits m.nic n m.ports ports

-- A ping for `own_ip` stands in the ring at `offset`.
pub record IsPing (rx_memory : List ℕ) (own_ip offset size : ℕ) (eth : EthHeader) (ip : Ipv4Header)
    (icmp : IcmpHeader) (payload : List ℕ) : Type 0 where
  pub frame : IsFrame rx_memory offset size (packet_of eth ip icmp payload)
  pub least : 46 ≤ size
  pub packet : IsPacket eth ip icmp payload (size - 4)
  pub is_ip : ntohs eth.eth_type ≡ 0x0800
  pub for_us : ntohl ip.dst_ip ≡ own_ip
  pub protocol : ip.protocol ≡ 1
  pub asks : is_echo_request icmp ≡ true

module _ (beyond : ℕ → List ℕ) (buffer : List ℕ) (full : length buffer ≡ 1500) (eth : EthHeader)
    (ip : Ipv4Header) (icmp : IcmpHeader) (payload : List ℕ) (offset size : ℕ) where
  pub take_frame-Answers :
      (m : Machine)
      → IsNic m.nic
      → IsPing m.rx_memory m.net_dev.ip_addr offset size eth ip icmp payload
      → Answers m
          (reply_frame eth ip icmp)
          54
          (capr_of (next_offset offset size))
          (take_frame beyond buffer offset size m)
  unfolding take_frame
  take_frame-Answers m v p =
      let packet : List ℕ = packet_of eth ip icmp payload in
      let (dropped, kept) = Frame-split m.rx_memory offset size packet p.frame in
      let n : u16 (size + (2 ^ 16 - 4)) ≡ size - 4 = omega (arith, p.least, p.packet.most) in
      let s =
        handle_network_packet-Sends beyond buffer eth ip icmp payload (size - 4) m v full p.packet
          p.is_ip p.for_us p.protocol p.asks in
      record {
        row = s.row;
        console = s.console;
        ports = s.ports;
        held = s.held;
        returns =
            rw (dropped, n)
              (then_lem (handle_network_packet beyond buffer packet (size - 4)) _ s.returns)
            ∙ ap
                (λ memory. some (
                  tt,
                  record m {
                    console = s.console;
                    ports =
                        port_out 2 (u16 (m.nic.iobase + reg_capr))
                          (u16 (capr_of (next_offset offset size)))
                        ∷ s.ports;
                    nic = sent_nic m.nic (filled (reply_frame eth ip icmp) 54 s.row);
                    rx_memory = memory;
                  },
                ))
                kept;
        transmits = s.transmits;
      }

-- With debug output off.
pub check_silently-Answers :
    (beyond : ℕ → List ℕ) (buffer : List ℕ) (eth : EthHeader) (ip : Ipv4Header) (icmp : IcmpHeader)
    (payload : List ℕ) (size : ℕ) (m : Machine)
    → length buffer ≡ 1500
    → IsNic m.nic
    → 0 < bytes_avail (answer_capr m) (answer_cbr m)
    → IsPing m.rx_memory m.net_dev.ip_addr (rx_offset_of (answer_capr m)) size eth ip icmp payload
    → Answers m
        (reply_frame eth ip icmp)
        54
        (capr_of (next_offset (rx_offset_of (answer_capr m)) size))
        (check_silently beyond buffer m)
check_silently-Answers beyond buffer eth ip icmp payload size m full v some_bytes p =
    let s =
      take_frame-Answers beyond buffer full eth ip icmp payload (rx_offset_of (answer_capr m)) size
        (taking m) v p in
    record {
      row = s.row;
      console = s.console;
      ports = s.ports;
      held = s.held;
      returns =
          check_silently_lem beyond buffer size (packet_of eth ip icmp payload) m some_bytes p.frame
          ∙ s.returns;
      transmits = record {
        asked = s.transmits.asked;
        addressed = s.transmits.addressed;
        first = Reads-trans (one_more 2 _ (one_more 2 _ none_more)) s.transmits.first;
        second = s.transmits.second;
        third = s.transmits.third;
      };
    }
