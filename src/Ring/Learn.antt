-- ===== src/Ring/Learn.antt =====
-- An ARP packet in the receive ring that is no request for our address is noted in the table.
use aimini_os.Base.{
  ℕ, ◌+◌, ◌-◌, ◌^◌, ◌≡◌, ◌<◌, ◌≤◌, refl, ◌∙◌, ap, Option, some, Bool, true, false, List, ◌∷◌, ◌++◌,
  eq→eqb, arith, if◌then◌else◌, u16, then_lem, ◌&&◌, ◌==◌, ◌>>◌,
}
use aimini_os.ByteOrder.{ntohs, ntohl}
use aimini_os.Format.{ascii}
use aimini_os.Console.{Console}
use aimini_os.Layout.{EthHeader, ArpPacket, eth_bytes, arp_bytes}
use aimini_os.Layout.Roundtrip.{IsEth, IsArp, read_eth-eth_bytes}
use aimini_os.Machine.{PortEvent, port_out, Machine, Act, say, serial}
use aimini_os.Rtl8139.Registers.{reg_capr, reg_cbr}
use aimini_os.Rtl8139.Send.{debug}
use aimini_os.Arp.Cache.{ArpCache}
use aimini_os.Arp.Calls.{arp_request, is_ethernet_ipv4}
use aimini_os.Arp.Calls.Replies.{Keeps, noted, handle_arp_packet-Keeps}
use aimini_os.Network.Link.{eth_type_arp}
use aimini_os.Network.Receive.{handle_network_packet}
use aimini_os.Network.Receive.Dispatch.{debug-Prints}
use aimini_os.Ring.{
  bytes_avail, rx_offset_of, next_offset, capr_of, take_frame, check_silently, check_loudly,
  check_rx_buffer,
}
use aimini_os.Ring.Empty.{asked_for, answer_capr, answer_cbr}
use aimini_os.Ring.Frame.{IsFrame, Frame-split, taking, check_silently_lem}

-- The packet of a received frame: for Ethernet and IPv4, and no request for our address.
pub record IsNews (own_ip : ℕ) (eth : EthHeader) (a : ArpPacket) (size : ℕ) : Type 0 where
  pub is_eth : IsEth eth
  pub is_arp : IsArp a
  pub arp_type : ntohs eth.eth_type ≡ eth_type_arp
  pub format : is_ethernet_ipv4 a ≡ true
  pub other : ((ntohs a.opcode == arp_request) && (ntohl a.target_ip == own_ip)) ≡ false
  pub least : 46 ≤ size
  pub most : size < 2 ^ 16

abbrev told : Act
told = do say (ascii "Received ARP packet\n"); serial (ascii "Received ARP packet\r\n")

-- A return that has the table `cache` and wrote `value` to the register that gives space back.
pub record Learns (m : Machine) (cache : ArpCache) (value : ℕ) (before : List PortEvent)
    (returned : Option (Unit {0} × Machine)) : Type 0 where
  pub console : Console
  pub returns :
      returned
      ≡ some (
        tt,
        record m {
          console = console;
          ports = port_out 2 (u16 (m.nic.iobase + reg_capr)) (u16 value) ∷ before;
          arp_cache = cache;
        },
      )

module _ (beyond : ℕ → List ℕ) (buffer : List ℕ) (eth : EthHeader) (a : ArpPacket)
    (rest : List ℕ) where
  handle_network_packet-Keeps :
      (size : ℕ) (m : Machine)
      → IsNews m.net_dev.ip_addr eth a size
      → Keeps m (noted a m.arp_cache) (eth_bytes eth ++ (arp_bytes a ++ rest)) (
          handle_network_packet beyond buffer (eth_bytes eth ++ (arp_bytes a ++ rest)) (size - 4) m)
  unfolding handle_network_packet
  handle_network_packet-Keeps size m p =
      let (c1, shown) = debug-Prints m told (λ k. (_, refl)) in
      let (c2, handled) =
        handle_arp_packet-Keeps eth a rest (size - 4) (record m { console = c1 }) p.is_eth p.is_arp
          p.format p.other (omega (arith, p.least)) in
      (
        c2,
        rw (read_eth-eth_bytes eth (arp_bytes a ++ rest) p.is_eth, eq→eqb _ _ p.arp_type)
            (then_lem (debug told) _ shown ∙ handled),
      )

  take_frame-Learns :
      (offset size : ℕ) (m : Machine)
      → IsFrame m.rx_memory offset size (eth_bytes eth ++ (arp_bytes a ++ rest))
      → IsNews m.net_dev.ip_addr eth a size
      → Learns m
          (noted a m.arp_cache)
          (capr_of (next_offset offset size))
          m.ports
          (take_frame beyond buffer offset size m)
  unfolding take_frame
  take_frame-Learns offset size m f p =
      let packet : List ℕ = eth_bytes eth ++ (arp_bytes a ++ rest) in
      let (dropped, kept) = Frame-split m.rx_memory offset size packet f in
      let n : u16 (size + (2 ^ 16 - 4)) ≡ size - 4 = omega (arith, p.least, p.most) in
      let (console, handled) = handle_network_packet-Keeps size m p in
      record {
        console = console;
        returns =
            rw (dropped, n)
              (then_lem (handle_network_packet beyond buffer packet (size - 4)) _ handled)
            ∙ ap
                (λ memory. some (
                  tt,
                  record m {
                    console = console;
                    ports =
                        port_out 2 (u16 (m.nic.iobase + reg_capr))
                          (u16 (capr_of (next_offset offset size)))
                        ∷ m.ports;
                    arp_cache = noted a m.arp_cache;
                    rx_memory = memory;
                  },
                ))
                kept;
      }

  -- With debug output off, such a packet in the ring at the driver's read offset is noted in the
  -- table, and its space is given back; nothing is sent.
  pub check_rx_buffer-Learns :
      (size : ℕ) (m : Machine)
      → m.disable_rtl_debug ≡ true
      → 0 < bytes_avail (answer_capr m) (answer_cbr m)
      → IsFrame m.rx_memory
          (rx_offset_of (answer_capr m))
          size
          (eth_bytes eth ++ (arp_bytes a ++ rest))
      → IsNews m.net_dev.ip_addr eth a size
      → Learns m
          (noted a m.arp_cache)
          (capr_of (next_offset (rx_offset_of (answer_capr m)) size))
          (asked_for reg_cbr m (asked_for reg_capr m m.ports))
          (check_rx_buffer beyond buffer m)
  unfolding check_rx_buffer
  check_rx_buffer-Learns size m off some_bytes f p =
      let s = take_frame-Learns (rx_offset_of (answer_capr m)) size (taking m) f p in
      record {
        console = s.console;
        returns =
            ap
              (λ (b : Bool).
                (if b then check_silently beyond buffer else check_loudly beyond buffer) m)
              off
            ∙ (check_silently_lem beyond buffer size (eth_bytes eth ++ (arp_bytes a ++ rest)) m
                  some_bytes f
                ∙ s.returns);
      }
