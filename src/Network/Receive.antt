-- ===== src/Network/Receive.antt =====
-- The receive path of network.c, from the frame to the handler of its protocol. `beyond i` is what
-- the stack holds, up to a zero byte, behind the local `char c` that turn `i` of a loop hands to
-- `serial_write_string` as a string; `buffer` is the uninitialised buffer of `send_icmp_echo_reply`.
pub mod Dispatch
pub mod Drops
use aimini_os.Base.{
  ℕ, zero, suc, ◌+◌, ◌-◌, ◌*◌, ◌%◌, ◌^◌, Bool, true, false, ◌&&◌, ◌||◌, not, Option, none, some,
  List, [], ◌∷◌, ◌++◌, ◌==◌, ltb, leb, if◌then◌else◌, M, pure, gets, modify, skip, ◌>>=◌, ◌>>◌, u16,
}
use aimini_os.ByteOrder.{ntohs, ntohl}
use aimini_os.Layout.{EthHeader, Ipv4Header, IcmpHeader, read_eth, read_ipv4, read_icmp}
use aimini_os.Network.Payload.{hex_text, dump_text, message_text, on_screen, on_serial, at_most}
use aimini_os.Format.{
  ascii, serial_ip, terminal_ip, serial_dec, terminal_dec, serial_hex8, serial_hex16, terminal_hex8,
  terminal_hex16,
}
use aimini_os.Machine.{Machine, Act, say, serial, clear_screen, demand}
use aimini_os.Rtl8139.Send.{debug}
use aimini_os.Network.Link.{eth_type_ip, eth_type_arp}
use aimini_os.Network.Icmp.{
  ip_proto_icmp, icmp_type_echo_reply, icmp_type_echo_request, send_icmp_echo_reply,
}
use aimini_os.Arp.Calls.{handle_arp_packet}

abbrev pub ip_proto_tcp : ℕ
ip_proto_tcp = 6

abbrev pub ip_proto_udp : ℕ
ip_proto_udp = 17

-- `length - 14 - 20 - 8` as a `uint16_t`.
unfoldable pub data_length_of : ℕ → ℕ
data_length_of length = u16 (length + (2 ^ 16 - 42))

abbrev pub type_text : ℕ → List ℕ
type_text t =
    if t == icmp_type_echo_request
    then ascii " (ECHO REQUEST)"
    else if t == icmp_type_echo_reply
    then ascii " (ECHO REPLY)"
    else []

unfoldable pub log_icmp : Ipv4Header → IcmpHeader → ℕ → List ℕ → List ℕ → Act
log_icmp ip icmp data_length hex chars = serial (
    ascii "\r\n!!! ICMP PACKET !!!\r\nType: "
    ++ (serial_dec icmp.icmp_type
        ++ (type_text icmp.icmp_type
            ++ (ascii " Code: "
                ++ (serial_dec icmp.code
                    ++ (ascii "\r\nFrom IP: "
                        ++ (serial_ip (ntohl ip.src_ip)
                            ++ (ascii "\r\nData ("
                                ++ (serial_dec data_length
                                    ++ (ascii " bytes): "
                                        ++ (hex
                                            ++ (ascii "\r\nASCII: "
                                                ++ (chars ++ ascii "\r\n")))))))))))))

-- The output for an echo request.
unfoldable pub show_request : Ipv4Header → Act
show_request ip = do
  clear_screen
  say (ascii "\n\n=== PING RECEIVED ===\nReceived PING request from IP: ")
  say (terminal_ip (ntohl ip.src_ip))
  say (ascii "\n\nPreparing to send ICMP reply with 'hello,world'...\n")
  serial (ascii "\r\n=== PING RECEIVED ===\r\nReceived PING request from IP: ")
  serial (serial_ip (ntohl ip.src_ip) ++ ascii "\r\n")

-- The UTF-8 bytes of the bell and the tick of the texts.
abbrev bell : List ℕ
bell = 0xf0 ∷ 0x9f ∷ 0x94 ∷ 0x94 ∷ []

abbrev tick : List ℕ
tick = 0xe2 ∷ 0x9c ∷ 0x93 ∷ []

abbrev rule : List ℕ
rule = ascii "=======================================\n"

-- The output for an echo reply: its message and the first 32 bytes in hexadecimal.
unfoldable pub show_reply : (ℕ → List ℕ) → Ipv4Header → ℕ → List ℕ → Act
show_reply beyond ip data_length bytes = do
  serial (
      ascii "\r\n!!! ICMP ECHO REPLY RECEIVED !!!\r\nFrom IP: "
      ++ (serial_ip (ntohl ip.src_ip) ++ ascii "\r\n"))
  say (
      b'\n' ∷ rule
      ++ (bell ++ (ascii " PING REPLY RECEIVED FROM HOST " ++ (bell ++ (b'\n' ∷ rule)))))
  say (ascii "From IP: " ++ (terminal_ip (ntohl ip.src_ip) ++ ascii "\n\n"))
  say (tick ++ ascii " Successfully received ICMP echo reply!\n\nMessage content: \"")
  shown ← demand (message_text on_screen 0 data_length bytes)
  sent ← demand (message_text (on_serial beyond) 0 data_length bytes)
  say (shown ++ ascii "\"\n\n")
  serial (sent ++ ascii "\"\r\n")
  hex ←
      demand
        (hex_text terminal_hex8 (ascii "\n                    ") 0 (at_most 32 data_length) bytes)
  serial_hex ←
      demand
        (hex_text serial_hex8 (ascii "\r\n                    ") 0 (at_most 32 data_length) bytes)
  say (ascii "Hex representation: " ++ hex)
  serial (ascii "Hex data: " ++ serial_hex)
  say (ascii "\n\nWaiting for next ping reply...\n" ++ rule)
  serial (ascii "\r\n=== PING REPLY RECEIVED ===\r\nFrom IP: " ++ serial_ip (ntohl ip.src_ip))
  serial (ascii "\r\nData: \"" ++ (sent ++ ascii "\"\r\n=========================\r\n"))

abbrev pub is_echo_request : IcmpHeader → Bool
is_echo_request icmp = (icmp.icmp_type == icmp_type_echo_request) && (icmp.code == 0)

abbrev pub is_echo_reply : IcmpHeader → Bool
is_echo_reply icmp = (icmp.icmp_type == icmp_type_echo_reply) && (icmp.code == 0)

-- What `handle_icmp_packet` does behind its dump.
unfoldable pub switch_icmp :
    (ℕ → List ℕ) → List ℕ → Ipv4Header → IcmpHeader → ℕ → List ℕ → List ℕ → ℕ → Act
switch_icmp beyond buffer ip icmp data_length bytes packet length =
    if is_echo_request icmp
    then (do show_request ip; send_icmp_echo_reply buffer packet length)
    else if is_echo_reply icmp
    then show_reply beyond ip data_length bytes
    else skip

unfoldable pub handle_icmp_packet : (ℕ → List ℕ) → List ℕ → List ℕ → ℕ → Act
handle_icmp_packet beyond buffer packet length = do
  (eth, datagram) ← demand (read_eth packet)
  (ip, message) ← demand (read_ipv4 datagram)
  (icmp, bytes) ← demand (read_icmp message)
  let data_length = data_length_of length
  hex ← demand (hex_text serial_hex8 [] 0 (at_most 16 data_length) bytes)
  chars ← demand (dump_text (on_serial beyond) 0 (at_most 16 data_length) bytes)
  log_icmp ip icmp data_length hex chars
  switch_icmp beyond buffer ip icmp data_length bytes packet length

-- `handle_tcp_packet` of tcp.c only prints.
unfoldable pub handle_tcp_packet : ℕ → Act
handle_tcp_packet length =
    say (ascii "TCP packet received, length: " ++ (terminal_dec length ++ ascii "\n"))

unfoldable pub log_ip : Ipv4Header → Act
log_ip ip = serial (
    ascii "IP packet - SRC: "
    ++ (serial_ip (ntohl ip.src_ip)
        ++ (ascii " DST: " ++ (serial_ip (ntohl ip.dst_ip) ++ ascii "\r\n"))))

unfoldable pub not_for_us : Ipv4Header → ℕ → Act
not_for_us ip own_ip = do
  debug (
      say (
        ascii "IP packet not for us: "
        ++ (terminal_ip (ntohl ip.dst_ip)
            ++ (ascii " vs our IP " ++ (terminal_ip own_ip ++ ascii "\n")))))
  serial (ascii "IP packet not for us\r\n")

-- The `switch` of `handle_ip_packet`.
unfoldable pub switch_protocol : (ℕ → List ℕ) → List ℕ → ℕ → List ℕ → ℕ → Act
switch_protocol beyond buffer protocol packet length =
    if protocol == ip_proto_icmp
    then (do
      serial (ascii "Received ICMP packet\r\n")
      handle_icmp_packet beyond buffer packet length)
    else if protocol == ip_proto_tcp
    then (do debug (say (ascii "Received TCP packet\n")); handle_tcp_packet length)
    else if protocol == ip_proto_udp
    then debug (say (ascii "Received UDP packet (not handled)\n"))
    else debug (say (ascii "Unsupported IP protocol\n"))

unfoldable pub for_us : (ℕ → List ℕ) → List ℕ → Ipv4Header → List ℕ → ℕ → Act
for_us beyond buffer ip packet length = do
  serial (ascii "IP packet is for us, processing...\r\n")
  debug (say (ascii "IP Protocol: " ++ (terminal_hex8 ip.protocol ++ ascii "\n")))
  switch_protocol beyond buffer ip.protocol packet length

unfoldable pub take_ip : (ℕ → List ℕ) → List ℕ → List ℕ → ℕ → Act
take_ip beyond buffer packet length = do
  (eth, datagram) ← demand (read_eth packet)
  (ip, message) ← demand (read_ipv4 datagram)
  log_ip ip
  own_ip ← gets (λ m. m.net_dev.ip_addr)
  if ntohl ip.dst_ip == own_ip then for_us beyond buffer ip packet length else not_for_us ip own_ip

unfoldable pub handle_ip_packet : (ℕ → List ℕ) → List ℕ → List ℕ → ℕ → Act
handle_ip_packet beyond buffer packet length =
    if ltb length 34
    then debug (say (ascii "Packet too short for IP\n"))
    else take_ip beyond buffer packet length

-- The received bytes after the call: ARP turns a request into its reply in place.
unfoldable pub handle_network_packet : (ℕ → List ℕ) → List ℕ → List ℕ → ℕ → M Machine (List ℕ)
handle_network_packet beyond buffer packet length = do
  (eth, payload) ← demand (read_eth packet)
  if ntohs eth.eth_type == eth_type_arp
      then (do
        debug (do say (ascii "Received ARP packet\n"); serial (ascii "Received ARP packet\r\n"))
        handle_arp_packet packet length)
      else if ntohs eth.eth_type == eth_type_ip
      then (do handle_ip_packet beyond buffer packet length; pure packet)
      else (do
        debug (do
          say (
              ascii "Unsupported ethernet type: 0x"
              ++ (terminal_hex16 (ntohs eth.eth_type) ++ ascii "\n"))
          serial (
              ascii "Unsupported ethernet type: 0x"
              ++ (serial_hex16 (ntohs eth.eth_type) ++ ascii "\r\n")))
        pure packet)
