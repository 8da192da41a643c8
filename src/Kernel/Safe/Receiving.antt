-- ===== src/Kernel/Safe/Receiving.antt =====
-- Handling a received frame keeps the machine safe, whatever its bytes and its length.
use aimini_os.Base.{ℕ, ◌+◌, List, [], ◌++◌, ◌&&◌, ◌==◌, if◌then◌else◌, ltb, skip, pure}
use aimini_os.ByteOrder.{ntohs, ntohl}
use aimini_os.Format.{ascii, terminal_hex8, serial_hex8}
use aimini_os.Layout.{
  Mac, EthHeader, ArpPacket, Ipv4Header, IcmpHeader, read_eth, read_arp, read_ipv4, read_icmp,
  eth_bytes, arp_bytes, ipv4_bytes, icmp_bytes,
}
use aimini_os.Memory.{memcpy}
use aimini_os.Machine.{Machine, say}
use aimini_os.Rtl8139.Send.{debug}
use aimini_os.Arp.Cache.Unique.{IsUnique-update_entries}
use aimini_os.Arp.Calls.{
  arp_frame_size, arp_request, update_arp_cache, send_arp_reply, is_ethernet_ipv4, take_arp,
  handle_arp_packet, reply_eth, reply_arp,
}
use aimini_os.Network.Link.{eth_type_ip, eth_type_arp, network_send_packet}
use aimini_os.Network.Icmp.{
  hello_msg, hello_len, log_swap, log_reply, log_replied, send_reply, send_icmp_echo_reply,
  ip_proto_icmp,
}
use aimini_os.Network.Payload.{hex_text, dump_text, message_text, on_screen, on_serial, at_most}
use aimini_os.Network.Receive.{
  data_length_of, log_icmp, show_request, show_reply, is_echo_request, is_echo_reply, switch_icmp,
  handle_icmp_packet, handle_tcp_packet, log_ip, not_for_us, switch_protocol, for_us, take_ip,
  handle_ip_packet, handle_network_packet, ip_proto_tcp, ip_proto_udp,
}
use aimini_os.Kernel.Safe.{
  Fixed, IsSafe, Ends, ends, Safe-printed, Ends-seen, Ends-bind, Ends-if, Ends-demand, Ends-say,
  Ends-skip, Ends-debug,
}
use aimini_os.Kernel.Safe.Sending.{Ends-network_send_packet}

module _ (fixed : Fixed) where
  Ends-update_arp_cache :
      (ip : ℕ) (mac : Mac) (m : Machine) → IsSafe fixed m → Ends fixed (update_arp_cache ip mac m)
  unfolding update_arp_cache
  Ends-update_arp_cache ip mac m s = ends (record {
    statics = s.statics;
    table = IsUnique-update_entries ip mac m.arp_cache s.table;
    same = s.same;
  })

  Ends-send_arp_reply :
      (eth : EthHeader) (a : ArpPacket) (rest : List ℕ) (n : ℕ) (m : Machine)
      → IsSafe fixed m
      → Ends fixed (send_arp_reply eth a rest n m)
  unfolding send_arp_reply
  Ends-send_arp_reply eth a rest n m s =
      Ends-bind fixed _
        (network_send_packet
          (eth_bytes (reply_eth m.net_dev.mac_addr eth)
            ++ (arp_bytes (reply_arp m.net_dev.mac_addr m.net_dev.ip_addr a) ++ rest))
          n)
        _ (Ends-network_send_packet fixed _ n _ (Safe-printed fixed m _ s))
        (λ _ m2 s2. Ends-seen fixed _ m2 _ _ s2)

  Ends-take_arp :
      (eth : EthHeader) (a : ArpPacket) (rest packet : List ℕ) (n : ℕ) (m : Machine)
      → IsSafe fixed m
      → Ends fixed (take_arp eth a rest packet n m)
  unfolding take_arp
  Ends-take_arp eth a rest packet n m s =
      Ends-if fixed m (is_ethernet_ipv4 a) _ _
        (Ends-bind fixed _ (update_arp_cache (ntohl a.sender_ip) a.sender_mac) _
          (Ends-update_arp_cache (ntohl a.sender_ip) a.sender_mac _ (Safe-printed fixed m _ s))
          (λ _ m1 s1.
            Ends-if fixed m1
              ((ntohs a.opcode == arp_request) && (ntohl a.target_ip == m1.net_dev.ip_addr))
              (send_arp_reply eth a rest n) (pure packet) (Ends-send_arp_reply eth a rest n m1 s1)
              (ends s1)))
        (Ends-seen fixed packet m _ m.ports s)

  Ends-handle_arp_packet :
      (packet : List ℕ) (n : ℕ) (m : Machine)
      → IsSafe fixed m
      → Ends fixed (handle_arp_packet packet n m)
  unfolding handle_arp_packet
  Ends-handle_arp_packet packet n m s =
      Ends-if fixed m (ltb n arp_frame_size) _ _ (Ends-seen fixed packet m _ m.ports s) (
        Ends-demand fixed m (read_eth packet) _
          (λ e. Ends-demand fixed m (read_arp e.1) _ (λ a. Ends-take_arp e.0 a.0 a.1 packet n m s)))

  Ends-send_reply :
      (eth : EthHeader) (ip : Ipv4Header) (icmp : IcmpHeader) (bytes : List ℕ) (m : Machine)
      → IsSafe fixed m
      → Ends fixed (send_reply eth ip icmp bytes m)
  unfolding send_reply log_reply log_replied
  Ends-send_reply eth ip icmp bytes m s =
      Ends-bind fixed _
        (network_send_packet (eth_bytes eth ++ (ipv4_bytes ip ++ (icmp_bytes icmp ++ bytes)))
          (14 + ntohs ip.total_length))
        _ (Ends-network_send_packet fixed _ _ _ (Safe-printed fixed m _ s))
        (λ _ m2 s2. Ends-seen fixed tt m2 _ _ s2)

  Ends-send_icmp_echo_reply :
      (buffer packet : List ℕ) (n : ℕ) (m : Machine)
      → IsSafe fixed m
      → Ends fixed (send_icmp_echo_reply buffer packet n m)
  unfolding send_icmp_echo_reply log_swap
  Ends-send_icmp_echo_reply buffer packet n m s =
      Ends-demand fixed m (memcpy buffer packet n) _ (λ copied.
        Ends-demand fixed m (read_eth copied) _ (λ e. Ends-demand fixed m (read_ipv4 e.1) _ (λ i.
          Ends-demand fixed m (read_icmp i.1) _ (λ c.
            Ends-demand fixed _ (memcpy c.1 hello_msg hello_len) _
              (λ bytes. Ends-send_reply _ _ _ bytes _ (Safe-printed fixed m _ s))))))

  Ends-show_reply :
      (beyond : ℕ → List ℕ) (ip : Ipv4Header) (n : ℕ) (bytes : List ℕ) (m : Machine)
      → IsSafe fixed m
      → Ends fixed (show_reply beyond ip n bytes m)
  unfolding show_reply
  Ends-show_reply beyond ip n bytes m s =
      Ends-demand fixed _ (message_text on_screen 0 n bytes) _ (λ shown.
        Ends-demand fixed _ (message_text (on_serial beyond) 0 n bytes) _ (λ sent.
          Ends-demand fixed _
            (hex_text terminal_hex8 (ascii "\n                    ") 0 (at_most 32 n) bytes) _
            (λ hex.
              Ends-demand fixed _
                (hex_text serial_hex8 (ascii "\r\n                    ") 0 (at_most 32 n) bytes) _
                (λ serial_hex. Ends-seen fixed tt m _ _ s))))

  Ends-switch_icmp :
      (beyond : ℕ → List ℕ) (buffer : List ℕ) (ip : Ipv4Header) (icmp : IcmpHeader) (k : ℕ)
      (bytes packet : List ℕ) (n : ℕ) (m : Machine)
      → IsSafe fixed m
      → Ends fixed (switch_icmp beyond buffer ip icmp k bytes packet n m)
  unfolding switch_icmp show_request
  Ends-switch_icmp beyond buffer ip icmp k bytes packet n m s =
      Ends-if fixed m (is_echo_request icmp) _ _
        (Ends-send_icmp_echo_reply buffer packet n _ (Safe-printed fixed m _ s))
        (Ends-if fixed m (is_echo_reply icmp) (show_reply beyond ip k bytes) skip
          (Ends-show_reply beyond ip k bytes m s) (Ends-skip fixed m s))

  Ends-handle_icmp_packet :
      (beyond : ℕ → List ℕ) (buffer packet : List ℕ) (n : ℕ) (m : Machine)
      → IsSafe fixed m
      → Ends fixed (handle_icmp_packet beyond buffer packet n m)
  unfolding handle_icmp_packet log_icmp
  Ends-handle_icmp_packet beyond buffer packet n m s = Ends-demand fixed m (read_eth packet) _ (λ e.
      Ends-demand fixed m (read_ipv4 e.1) _ (λ i. Ends-demand fixed m (read_icmp i.1) _ (λ c.
        let k : ℕ = data_length_of n in
        Ends-demand fixed m (hex_text serial_hex8 [] 0 (at_most 16 k) c.1) _ (λ hex.
          Ends-demand fixed m (dump_text (on_serial beyond) 0 (at_most 16 k) c.1) _ (λ chars.
            Ends-switch_icmp beyond buffer i.0 c.0 k c.1 packet n _ (Safe-printed fixed m _ s))))))

  Ends-switch_protocol :
      (beyond : ℕ → List ℕ) (buffer : List ℕ) (protocol : ℕ) (packet : List ℕ) (n : ℕ) (m : Machine)
      → IsSafe fixed m
      → Ends fixed (switch_protocol beyond buffer protocol packet n m)
  unfolding switch_protocol handle_tcp_packet
  Ends-switch_protocol beyond buffer protocol packet n m s =
      Ends-if fixed m (protocol == ip_proto_icmp) _ _
        (Ends-handle_icmp_packet beyond buffer packet n _ (Safe-printed fixed m _ s))
        (Ends-if fixed m (protocol == ip_proto_tcp) _ _
          (Ends-bind fixed m (debug (say (ascii "Received TCP packet\n"))) _
            (Ends-debug fixed m (say (ascii "Received TCP packet\n")) s (Ends-say fixed m _ s))
            (λ _ m1 s1. Ends-seen fixed tt m1 _ m1.ports s1))
          (Ends-if fixed m (protocol == ip_proto_udp) (debug (say _)) (debug (say _))
            (Ends-debug fixed m (say _) s (Ends-say fixed m _ s))
            (Ends-debug fixed m (say _) s (Ends-say fixed m _ s))))

  Ends-for_us :
      (beyond : ℕ → List ℕ) (buffer : List ℕ) (ip : Ipv4Header) (packet : List ℕ) (n : ℕ)
      (m : Machine)
      → IsSafe fixed m
      → Ends fixed (for_us beyond buffer ip packet n m)
  unfolding for_us
  Ends-for_us beyond buffer ip packet n m s =
      Ends-bind fixed _ (debug (say _)) _
        (Ends-debug fixed _ (say _) (Safe-printed fixed m _ s)
          (Ends-say fixed _ _ (Safe-printed fixed m _ s)))
        (λ _ m1 s1. Ends-switch_protocol beyond buffer ip.protocol packet n m1 s1)

  Ends-not_for_us :
      (ip : Ipv4Header) (own_ip : ℕ) (m : Machine)
      → IsSafe fixed m
      → Ends fixed (not_for_us ip own_ip m)
  unfolding not_for_us
  Ends-not_for_us ip own_ip m s =
      Ends-bind fixed m (debug (say _)) _ (Ends-debug fixed m (say _) s (Ends-say fixed m _ s))
        (λ _ m1 s1. Ends-seen fixed tt m1 _ m1.ports s1)

  Ends-take_ip :
      (beyond : ℕ → List ℕ) (buffer packet : List ℕ) (n : ℕ) (m : Machine)
      → IsSafe fixed m
      → Ends fixed (take_ip beyond buffer packet n m)
  unfolding take_ip log_ip
  Ends-take_ip beyond buffer packet n m s = Ends-demand fixed m (read_eth packet) _ (λ e.
      Ends-demand fixed m (read_ipv4 e.1) _ (λ i.
        Ends-if fixed _ (ntohl i.0.dst_ip == m.net_dev.ip_addr) (for_us beyond buffer i.0 packet n)
          (not_for_us i.0 m.net_dev.ip_addr)
          (Ends-for_us beyond buffer i.0 packet n _ (Safe-printed fixed m _ s))
          (Ends-not_for_us i.0 m.net_dev.ip_addr _ (Safe-printed fixed m _ s))))

  -- Any frame, of any length.
  pub Ends-handle_network_packet :
      (beyond : ℕ → List ℕ) (buffer packet : List ℕ) (n : ℕ) (m : Machine)
      → IsSafe fixed m
      → Ends fixed (handle_network_packet beyond buffer packet n m)
  unfolding handle_network_packet handle_ip_packet
  Ends-handle_network_packet beyond buffer packet n m s =
      Ends-demand fixed m (read_eth packet) _ (λ e.
        Ends-if fixed m (ntohs e.0.eth_type == eth_type_arp) _ _
          (Ends-bind fixed m (debug _) _ (Ends-debug fixed m _ s (Ends-seen fixed tt m _ m.ports s))
            (λ _ m1 s1. Ends-handle_arp_packet packet n m1 s1))
          (Ends-if fixed m (ntohs e.0.eth_type == eth_type_ip) _ _
            (Ends-bind fixed m (if ltb n 34 then debug (say _) else take_ip beyond buffer packet n)
              _
              (Ends-if fixed m (ltb n 34) (debug (say _)) (take_ip beyond buffer packet n)
                (Ends-debug fixed m (say _) s (Ends-say fixed m _ s))
                (Ends-take_ip beyond buffer packet n m s))
              (λ _ m1 s1. ends s1))
            (Ends-bind fixed m (debug _) _
              (Ends-debug fixed m _ s (Ends-seen fixed tt m _ m.ports s)) (λ _ m1 s1. ends s1))))
