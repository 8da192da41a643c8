-- ===== src/Arp/Calls.antt =====
-- The functions of arp.c. A packet that is changed in place is returned with its new bytes.
pub mod Frames
pub mod Answer
pub mod Resolve
pub mod Exchange
pub mod Replies
use aimini_os.Base.{
  ℕ, ◌+◌, Bool, true, false, ◌&&◌, ◌||◌, not, Option, none, some, List, [], ◌∷◌, ◌++◌, ◌==◌, ltb,
  if◌then◌else◌, M, pure, gets, modify, skip, ◌>>=◌, ◌>>◌,
}
use aimini_os.ByteOrder.{htons, ntohs, htonl, ntohl}
use aimini_os.Layout.{
  Mac, EthHeader, ArpPacket, eth_header_size, arp_packet_size, read_eth, read_arp, eth_bytes,
  arp_bytes, mac_bytes,
}
use aimini_os.Format.{ascii, serial_ip, serial_hex8}
use aimini_os.Machine.{Machine, Act, say, serial, demand}
use aimini_os.Network.Link.{eth_type_arp, network_send_packet}
use aimini_os.Rtl8139.Log.{hex_joined}
use aimini_os.Arp.Cache.{
  zero_mac, clear_entries, find_mac, update_entries, result, Update, updated, added, replaced,
}

abbrev pub arp_request : ℕ
arp_request = 1

abbrev pub arp_reply : ℕ
arp_reply = 2

unfoldable pub clear_arp_cache : Act
clear_arp_cache = do
  modify (λ m. record m { arp_cache = clear_entries m.arp_cache })
  serial (ascii "ARP cache cleared\r\n")

unfoldable pub arp_init : Act
arp_init = do clear_arp_cache; serial (ascii "ARP initialized\r\n")

-- Broadcast, `memset(…, 0xFF, 6)`.
abbrev pub broadcast_mac : Mac
broadcast_mac = record { m0 = 255; m1 = 255; m2 = 255; m3 = 255; m4 = 255; m5 = 255 }

-- The frame of `send_arp_request`: every byte of its buffer of 42 belongs to a field that is set.
unfoldable pub request_eth : Mac → EthHeader
request_eth own = record { dest_mac = broadcast_mac; src_mac = own; eth_type = htons eth_type_arp }

unfoldable pub request_arp : Mac → ℕ → ℕ → ArpPacket
request_arp own own_ip target_ip = record {
  hardware_type = htons 1;
  protocol_type = htons 0x0800;
  hardware_size = 6;
  protocol_size = 4;
  opcode = htons arp_request;
  sender_mac = own;
  sender_ip = htonl own_ip;
  target_mac = zero_mac;
  target_ip = htonl target_ip;
}

abbrev pub arp_frame_size : ℕ
arp_frame_size = 42

unfoldable pub send_arp_request : ℕ → M Machine Bool
send_arp_request target_ip = do
  serial (ascii "Sending ARP request for IP: " ++ (serial_ip target_ip ++ ascii "\r\n"))
  dev ← gets (λ m. m.net_dev)
  serial (ascii "ARP packet prepared, sending...\r\n")
  network_send_packet
      (eth_bytes (request_eth dev.mac_addr)
        ++ arp_bytes (request_arp dev.mac_addr dev.ip_addr target_ip))
      arp_frame_size

-- The line that tells which of its three returns the function takes.
abbrev pub update_text : Update → List ℕ
update_text (updated c) = ascii "Updated existing ARP cache entry for IP: "
update_text (added c) = ascii "Added new ARP cache entry for IP: "
update_text (replaced c) = ascii "ARP cache full, replaced first entry with IP: "

unfoldable pub update_arp_cache : ℕ → Mac → Act
update_arp_cache ip m = do
  cache ← gets (λ s. s.arp_cache)
  let u = update_entries ip m cache
  modify (λ s. record s { arp_cache = result u })
  serial (update_text u ++ (serial_ip ip ++ ascii "\r\n"))

unfoldable pub get_mac_from_cache : ℕ → M Machine (Option Mac)
get_mac_from_cache ip = do
  cache ← gets (λ s. s.arp_cache)
  let found = find_mac ip cache
  serial (
      (elim found [
        | some m ↦ ascii "MAC found in cache for IP: "
        | none ↦ ascii "MAC not found in cache for IP: "
      ])
      ++ (serial_ip ip ++ ascii "\r\n"))
  pure found

-- The last `if` of `arp_resolve`.
abbrev pub resolved : Option Mac → M Machine (Option Mac)
resolved (some m) = pure (some m)
resolved none = do serial (ascii "IP not in cache and not our IP, resolution failed\r\n"); pure none

abbrev pub resolve_own : M Machine (Option Mac)
resolve_own = do
  serial (ascii "IP is our own IP, using our MAC\r\n")
  own ← gets (λ m. m.net_dev.mac_addr)
  pure (some own)

unfoldable pub arp_resolve : ℕ → M Machine (Option Mac)
arp_resolve ip = do
  serial (ascii "Resolving IP: " ++ (serial_ip ip ++ ascii "\r\n"))
  dev ← gets (λ m. m.net_dev)
  if ip == dev.ip_addr then resolve_own else (get_mac_from_cache ip >>= resolved)

-- `arp->hardware_type`, … are those of Ethernet and IPv4.
unfoldable pub is_ethernet_ipv4 : ArpPacket → Bool
is_ethernet_ipv4 a = not (
    not (ntohs a.hardware_type == 1)
    || (not (ntohs a.protocol_type == 0x0800)
        || (not (a.hardware_size == 6) || not (a.protocol_size == 4))))

abbrev pub opcode_text : ArpPacket → List ℕ
opcode_text a =
    if ntohs a.opcode == arp_request
    then ascii "REQUEST"
    else if ntohs a.opcode == arp_reply
    then ascii "REPLY"
    else ascii "UNKNOWN TYPE"

-- The address bytes in hexadecimal, as `serial_write_hex_byte` sends them.
unfoldable pub serial_mac : List ℕ → List ℕ
serial_mac [] = []
serial_mac (x ∷ []) = serial_hex8 x
serial_mac (x ∷ y ∷ xs) = serial_hex8 x ++ (b':' ∷ serial_mac (y ∷ xs))

-- The packet turned into the reply, in place.
unfoldable pub reply_eth : Mac → EthHeader → EthHeader
reply_eth own eth = record eth { dest_mac = eth.src_mac; src_mac = own }

unfoldable pub reply_arp : Mac → ℕ → ArpPacket → ArpPacket
reply_arp own own_ip a = record a {
  opcode = htons arp_reply;
  target_mac = a.sender_mac;
  target_ip = a.sender_ip;
  sender_mac = own;
  sender_ip = htonl own_ip;
}

unfoldable pub send_arp_reply : EthHeader → ArpPacket → List ℕ → ℕ → M Machine (List ℕ)
send_arp_reply eth a rest length = do
  serial (ascii "Received ARP request for our IP, responding...\r\n")
  dev ← gets (λ m. m.net_dev)
  let packet =
      eth_bytes (reply_eth dev.mac_addr eth)
      ++ (arp_bytes (reply_arp dev.mac_addr dev.ip_addr a) ++ rest)
  _ ← network_send_packet packet length
  serial (ascii "ARP reply sent\r\n")
  pure packet

abbrev pub arp_text : ArpPacket → List ℕ
arp_text a =
    ascii "Received ARP packet: "
    ++ (opcode_text a
        ++ (ascii "\r\nFrom IP: "
            ++ (serial_ip (ntohl a.sender_ip)
                ++ (ascii " MAC: " ++ (serial_mac (mac_bytes a.sender_mac) ++ ascii "\r\n")))))

-- `handle_arp_packet` behind its first check, with the two structs that it casts the packet to.
unfoldable pub take_arp : EthHeader → ArpPacket → List ℕ → List ℕ → ℕ → M Machine (List ℕ)
take_arp eth a rest packet length =
    if is_ethernet_ipv4 a
    then (do
      serial (arp_text a)
      update_arp_cache (ntohl a.sender_ip) a.sender_mac
      dev ← gets (λ m. m.net_dev)
      if (ntohs a.opcode == arp_request) && (ntohl a.target_ip == dev.ip_addr)
          then send_arp_reply eth a rest length
          else pure packet)
    else (do say (ascii "Invalid ARP packet\n"); pure packet)

unfoldable pub handle_arp_packet : List ℕ → ℕ → M Machine (List ℕ)
handle_arp_packet packet length =
    if ltb length arp_frame_size
    then (do say (ascii "ARP packet too short\n"); pure packet)
    else (do
      (eth, payload) ← demand (read_eth packet)
      (a, rest) ← demand (read_arp payload)
      take_arp eth a rest packet length)
