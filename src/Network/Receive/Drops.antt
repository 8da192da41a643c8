-- ===== src/Network/Receive/Drops.antt =====
-- Which packets the receive path drops.
use aimini_os.Base.{
  ℕ, ◌≡◌, ◌≢◌, ◌<◌, ◌≤◌, refl, ◌∙◌, Option, some, List, ◌++◌, then_lem, pure, ◌>>=◌, ◌>>◌, le→ltb,
  lt→ltb, ne→eqb,
}
use aimini_os.ByteOrder.{ntohs, ntohl}
use aimini_os.Layout.{EthHeader, Ipv4Header, eth_bytes, ipv4_bytes}
use aimini_os.Layout.Roundtrip.{IsEth, IsIpv4, read_eth-eth_bytes, read_ipv4-ipv4_bytes}
use aimini_os.Format.{ascii, terminal_hex16, serial_hex16}
use aimini_os.Console.{Console}
use aimini_os.Machine.{Machine, Act, say, serial}
use aimini_os.Rtl8139.Send.{debug}
use aimini_os.Network.Link.{eth_type_ip, eth_type_arp}
use aimini_os.Network.Icmp.Reply.{Prints}
use aimini_os.Network.Receive.Dispatch.{debug-Prints}
use aimini_os.Network.Receive.{log_ip, not_for_us, take_ip, handle_ip_packet, handle_network_packet}

-- A return with the packet as it was that printed, and changed nothing else.
abbrev pub Drops : Machine → List ℕ → Option (List ℕ × Machine) → Type 0
Drops m packet returned =
    (console : Console) × (returned ≡ some (packet, record m { console = console }))

Drops-Prints :
    (m : Machine) (x : Act) (packet : List ℕ)
    → Prints m (x m)
    → Drops m packet ((x >>= λ _. pure packet) m)
Drops-Prints m x packet p = (p.0, then_lem x (λ _. pure packet) p.1)

log_ip-Prints : (ip : Ipv4Header) (m : Machine) → Prints m (log_ip ip m)
unfolding log_ip
log_ip-Prints ip m = (_, refl)

not_for_us-Prints : (ip : Ipv4Header) (own_ip : ℕ) (m : Machine) → Prints m (not_for_us ip own_ip m)
unfolding not_for_us
not_for_us-Prints ip own_ip m =
    let d = debug-Prints m (say _) (λ k. (_, refl)) in (_, then_lem (debug (say _)) _ d.1)

take_ip-Prints :
    (beyond : ℕ → List ℕ) (buffer : List ℕ) (eth : EthHeader) (ip : Ipv4Header) (rest : List ℕ)
    (n : ℕ) (m : Machine)
    → IsEth eth
    → IsIpv4 ip
    → ntohl ip.dst_ip ≢ m.net_dev.ip_addr
    → Prints m (take_ip beyond buffer (eth_bytes eth ++ (ipv4_bytes ip ++ rest)) n m)
unfolding take_ip
take_ip-Prints beyond buffer eth ip rest n m ve vi other =
    let logged = log_ip-Prints ip m in
    let p = not_for_us-Prints ip m.net_dev.ip_addr (record m { console = logged.0 }) in
    (
      p.0,
      rw (read_eth-eth_bytes eth (ipv4_bytes ip ++ rest) ve, read_ipv4-ipv4_bytes ip rest vi)
          (then_lem (log_ip ip) _ logged.1
            ∙ rw (ne→eqb (ntohl ip.dst_ip) m.net_dev.ip_addr other) p.1),
    )

-- A frame of type IP that is shorter than 34 bytes is dropped: nothing but the console changes.
pub handle_network_packet_short :
    (beyond : ℕ → List ℕ) (buffer : List ℕ) (eth : EthHeader) (rest : List ℕ) (n : ℕ) (m : Machine)
    → IsEth eth
    → ntohs eth.eth_type ≡ eth_type_ip
    → n < 34
    → Drops m
        (eth_bytes eth ++ rest)
        (handle_network_packet beyond buffer (eth_bytes eth ++ rest) n m)
unfolding handle_network_packet handle_ip_packet
handle_network_packet_short beyond buffer eth rest n m ve is_ip short =
    let d =
      Drops-Prints m (debug (say (ascii "Packet too short for IP\n"))) (eth_bytes eth ++ rest)
        (debug-Prints m (say _) (λ k. (_, refl))) in
    (d.0, rw (read_eth-eth_bytes eth rest ve, is_ip, lt→ltb n 34 short) d.1)

-- A datagram to another IP address is dropped: nothing but the console changes.
pub handle_network_packet_not_for_us :
    (beyond : ℕ → List ℕ) (buffer : List ℕ) (eth : EthHeader) (ip : Ipv4Header) (rest : List ℕ)
    (n : ℕ) (m : Machine)
    → IsEth eth
    → IsIpv4 ip
    → ntohs eth.eth_type ≡ eth_type_ip
    → 34 ≤ n
    → ntohl ip.dst_ip ≢ m.net_dev.ip_addr
    → Drops m
        (eth_bytes eth ++ (ipv4_bytes ip ++ rest))
        (handle_network_packet beyond buffer (eth_bytes eth ++ (ipv4_bytes ip ++ rest)) n m)
unfolding handle_network_packet handle_ip_packet
handle_network_packet_not_for_us beyond buffer eth ip rest n m ve vi is_ip long other =
    let d =
      Drops-Prints m (take_ip beyond buffer (eth_bytes eth ++ (ipv4_bytes ip ++ rest)) n)
        (eth_bytes eth ++ (ipv4_bytes ip ++ rest))
        (take_ip-Prints beyond buffer eth ip rest n m ve vi other) in
    (d.0, rw (read_eth-eth_bytes eth (ipv4_bytes ip ++ rest) ve, is_ip, le→ltb n 34 long) d.1)

-- A frame that is neither ARP nor IP is dropped: nothing but the console changes.
pub handle_network_packet_unsupported :
    (beyond : ℕ → List ℕ) (buffer : List ℕ) (eth : EthHeader) (rest : List ℕ) (n : ℕ) (m : Machine)
    → IsEth eth
    → ntohs eth.eth_type ≢ eth_type_ip
    → ntohs eth.eth_type ≢ eth_type_arp
    → Drops m
        (eth_bytes eth ++ rest)
        (handle_network_packet beyond buffer (eth_bytes eth ++ rest) n m)
unfolding handle_network_packet
handle_network_packet_unsupported beyond buffer eth rest n m ve not_ip not_arp =
    let unsupported : Act = (do
      say (
          ascii "Unsupported ethernet type: 0x"
          ++ (terminal_hex16 (ntohs eth.eth_type) ++ ascii "\n"))
      serial (
          ascii "Unsupported ethernet type: 0x"
          ++ (serial_hex16 (ntohs eth.eth_type) ++ ascii "\r\n"))) in
    let d =
      Drops-Prints m (debug unsupported) (eth_bytes eth ++ rest)
        (debug-Prints m unsupported (λ k. (_, refl))) in
    (
      d.0,
      rw
          (
            read_eth-eth_bytes eth rest ve,
            ne→eqb (ntohs eth.eth_type) eth_type_arp not_arp,
            ne→eqb (ntohs eth.eth_type) eth_type_ip not_ip,
          )
          d.1,
    )
