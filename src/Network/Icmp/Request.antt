-- ===== src/Network/Icmp/Request.antt =====
-- `send_icmp_echo_request` of network.c, and what it sends.
pub mod Laws
pub mod Echo
use aimini_os.Base.{
  ℕ, ◌+◌, ◌-◌, Option, none, some, List, [], ◌∷◌, ◌++◌, M, gets, ◌>>=◌, ◌>>◌, replicate,
}
use aimini_os.ByteOrder.{htons, htonl}
use aimini_os.Layout.{
  Mac, EthHeader, Ipv4Header, IcmpHeader, eth_bytes, ipv4_bytes, icmp_bytes, mac_bytes,
}
use aimini_os.Format.{ascii, serial_ip, terminal_ip, serial_dec}
use aimini_os.Machine.{Machine, Act, say, serial, clear_screen}
use aimini_os.Network.Link.{eth_type_ip, network_send_packet}
use aimini_os.Network.Icmp.{
  ip_proto_icmp, icmp_type_echo_request, hello_msg, hello_len, with_icmp_checksum, with_ip_checksum,
}
use aimini_os.Arp.Calls.{arp_resolve, serial_mac}

abbrev pub get_destination_mac : ℕ → M Machine (Option Mac)
get_destination_mac ip_addr = arp_resolve ip_addr

unfoldable pub request_eth : Mac → Mac → EthHeader
request_eth own target = record { dest_mac = target; src_mac = own; eth_type = htons eth_type_ip }

abbrev pub request_ip_fields : ℕ → ℕ → Ipv4Header
request_ip_fields own_ip target_ip = record {
  version_ihl = 0x45;
  dscp_ecn = 0;
  total_length = htons (20 + 8 + hello_len);
  identification = 0;
  flags_fragment_offset = 0;
  ttl = 64;
  protocol = ip_proto_icmp;
  checksum = 0;
  src_ip = htonl own_ip;
  dst_ip = htonl target_ip;
}

unfoldable pub request_ip : ℕ → ℕ → Ipv4Header
request_ip own_ip target_ip = with_ip_checksum (request_ip_fields own_ip target_ip)

abbrev pub request_icmp_fields : IcmpHeader
request_icmp_fields = record {
  icmp_type = icmp_type_echo_request;
  code = 0;
  checksum = 0;
  identifier = htons 0x1234;
  sequence = htons 0x0001;
}

unfoldable pub request_icmp : List ℕ → IcmpHeader
request_icmp bytes = with_icmp_checksum request_icmp_fields bytes

-- What of the cleared buffer of 1500 bytes stands behind the message.
unfoldable pub zeros : List ℕ
zeros = replicate (1500 - 54) 0

abbrev rule : List ℕ
rule = ascii "======================================\n"

unfoldable pub log_target : Mac → Act
log_target target = do
  serial (ascii "Target MAC: " ++ (serial_mac (mac_bytes target) ++ ascii "\r\n"))
  serial (ascii "Packet length: " ++ (serial_dec 54 ++ ascii " bytes\r\nData: \"hello,world\"\r\n"))

unfoldable pub show_sending : ℕ → Act
show_sending target_ip = do
  clear_screen
  say (ascii "\n\n" ++ rule)
  say (ascii "     MiniOS Hello World Network Demo     \n" ++ (rule ++ ascii "\n"))
  say (ascii "Sending PING with 'hello,world' to: " ++ (terminal_ip target_ip ++ ascii "\n\n"))

unfoldable pub show_sent : Act
show_sent = do
  serial (ascii "ICMP Echo Request sent!\r\n")
  say (0xe2 ∷ 0x9c ∷ 0x93 ∷ ascii " PING sent successfully!\nWaiting for replies...\n\n")
  say (ascii "Any received replies will be shown below:\n" ++ rule)

abbrev pub request_buffer : Mac → ℕ → Mac → ℕ → List ℕ
request_buffer own own_ip target target_ip =
    eth_bytes (request_eth own target)
    ++ (ipv4_bytes (request_ip own_ip target_ip)
        ++ (icmp_bytes (request_icmp (hello_msg ++ zeros)) ++ (hello_msg ++ zeros)))

-- Behind the lookup of the target.
unfoldable pub send_request : ℕ → Option Mac → Act
send_request target_ip none = do
  say (ascii "Failed to get MAC address for target IP\n")
  serial (ascii "Failed to get MAC address for target IP\r\n")
send_request target_ip (some target) = do
  dev ← gets (λ m. m.net_dev)
  log_target target
  show_sending target_ip
  _ ←
      network_send_packet (request_buffer dev.mac_addr dev.ip_addr target target_ip)
        (14 + (20 + 8 + hello_len))
  show_sent

unfoldable pub send_icmp_echo_request : ℕ → Act
send_icmp_echo_request target_ip = do
  serial (ascii "\r\n=== SENDING ICMP ECHO REQUEST ===\r\nTarget IP: ")
  serial (serial_ip target_ip ++ ascii "\r\n")
  found ← get_destination_mac target_ip
  send_request target_ip found
