-- ===== src/Network/Icmp.antt =====
-- The ICMP functions of network.c. A packet that is read is the bytes that its memory holds; a read
-- behind them is a fault.
pub mod Valid
pub mod Reply
pub mod Echo
pub mod Request
use aimini_os.Base.{
  ℕ, zero, suc, ◌+◌, ◌-◌, ◌*◌, ◌%◌, ◌^◌, Bool, true, false, ◌&&◌, not, Option, none, some, List, [],
  ◌∷◌, ◌++◌, ◌==◌, ltb, leb, if◌then◌else◌, M, pure, gets, modify, skip, ◌>>=◌, ◌>>◌, u16, take,
}
use aimini_os.ByteOrder.{htons, ntohs, htonl, ntohl}
use aimini_os.Checksum.{network_checksum}
use aimini_os.Layout.{
  Mac, EthHeader, Ipv4Header, IcmpHeader, read_eth, read_ipv4, read_icmp, eth_bytes, ipv4_bytes,
  icmp_bytes, mac_bytes,
}
use aimini_os.Format.{ascii, serial_ip, terminal_ip, serial_dec, serial_hex8, terminal_hex8}
use aimini_os.Memory.{memcpy, memset}
use aimini_os.Machine.{Machine, Act, say, serial, clear_screen, demand}
use aimini_os.Network.Link.{eth_type_ip, network_send_packet}
use aimini_os.Arp.Calls.{arp_resolve, serial_mac}

abbrev pub ip_proto_icmp : ℕ
ip_proto_icmp = 1

abbrev pub icmp_type_echo_reply : ℕ
icmp_type_echo_reply = 0

abbrev pub icmp_type_echo_request : ℕ
icmp_type_echo_request = 8

-- `"hello,world"` with its NUL: `hello_len` bytes.
abbrev pub hello_msg : List ℕ
hello_msg = ascii "hello,world" ++ (0 ∷ [])

abbrev pub hello_len : ℕ
hello_len = 12

-- `icmp->checksum = 0; … icmp->checksum = network_checksum(icmp, 8 + 12)`
unfoldable pub with_icmp_checksum : IcmpHeader → List ℕ → IcmpHeader
with_icmp_checksum h bytes = record h {
  checksum =
      network_checksum (take (8 + hello_len) (icmp_bytes (record h { checksum = 0 }) ++ bytes));
}

-- `ip->checksum = 0; ip->checksum = network_checksum(ip, sizeof(struct ipv4_header))`
unfoldable pub with_ip_checksum : Ipv4Header → Ipv4Header
with_ip_checksum h = record h {
  checksum = network_checksum (ipv4_bytes (record h { checksum = 0 }));
}

-- The headers of the reply, each field that is set.
unfoldable pub reply_eth : EthHeader → EthHeader
reply_eth eth = record eth { dest_mac = eth.src_mac; src_mac = eth.dest_mac }

unfoldable pub reply_ip : Ipv4Header → Ipv4Header
reply_ip ip = with_ip_checksum (record ip {
  src_ip = ip.dst_ip;
  dst_ip = ip.src_ip;
  total_length = htons (20 + 8 + hello_len);
})

unfoldable pub reply_icmp : IcmpHeader → List ℕ → IcmpHeader
reply_icmp h bytes =
    with_icmp_checksum (record h { icmp_type = icmp_type_echo_reply; code = 0 }) bytes

abbrev ips_text : ℕ → ℕ → List ℕ
ips_text src dst =
    ascii "IPs - Src: "
    ++ (serial_ip (ntohl src) ++ (ascii " Dst: " ++ (serial_ip (ntohl dst) ++ ascii "\r\n")))

-- The UTF-8 bytes of the tick and a space.
abbrev tick : List ℕ
tick = 0xe2 ∷ 0x9c ∷ 0x93 ∷ 0x20 ∷ []

unfoldable pub log_swap : Ipv4Header → Act
log_swap ip = do
  serial (ascii "Original " ++ ips_text ip.src_ip ip.dst_ip)
  serial (ascii "Swapped " ++ ips_text ip.dst_ip ip.src_ip)

unfoldable pub log_reply : Ipv4Header → Act
log_reply ip = do
  serial (ascii "\r\n=== SENDING ICMP ECHO REPLY ===\r\nTo IP: ")
  serial (serial_ip (ntohl ip.dst_ip) ++ ascii "\r\nWith data: \"hello,world\"\r\n")

unfoldable pub log_replied : Ipv4Header → Act
log_replied ip = do
  say (b'\n' ∷ tick ++ ascii "Successfully sent ICMP reply with 'hello,world'\n")
  say (ascii "\nTo IP address: " ++ (terminal_ip (ntohl ip.dst_ip) ++ ascii "\n\n"))
  say (ascii "=== Waiting for next PING request ===\n")
  serial (ascii "\r\n" ++ (tick ++ ascii "Successfully sent ICMP reply with 'hello,world'\r\n"))
  serial (ascii "\r\nTo IP address: " ++ (serial_ip (ntohl ip.dst_ip) ++ ascii "\r\n\r\n"))

-- The end of `send_icmp_echo_reply`, with the fields of its buffer.
unfoldable pub send_reply : EthHeader → Ipv4Header → IcmpHeader → List ℕ → Act
send_reply eth ip icmp bytes = do
  log_reply ip
  _ ←
      network_send_packet (eth_bytes eth ++ (ipv4_bytes ip ++ (icmp_bytes icmp ++ bytes)))
        (14 + ntohs ip.total_length)
  log_replied ip

-- `buffer` is the uninitialised `uint8_t buffer[ETH_MTU]`: 1500 bytes.
unfoldable pub send_icmp_echo_reply : List ℕ → List ℕ → ℕ → Act
send_icmp_echo_reply buffer packet length = do
  copied ← demand (memcpy buffer packet length)
  (eth, datagram) ← demand (read_eth copied)
  (ip, message) ← demand (read_ipv4 datagram)
  (icmp, old_data) ← demand (read_icmp message)
  log_swap ip
  bytes ← demand (memcpy old_data hello_msg hello_len)
  send_reply (reply_eth eth) (reply_ip ip) (reply_icmp icmp bytes) bytes
