-- ===== src/Network/Tests.antt =====
-- Tests of network.c: the guest and the host of Samples.
use aimini_os.Base.{
  ℕ, ◌≡◌, ◌≢◌, refl, some, none, true, List, [], ◌∷◌, ◌++◌, arith, length, replicate,
  length-replicate,
}
use aimini_os.ByteOrder.{ntohs, ntohl}
use aimini_os.ByteOrder.Laws.{ntoh-hton}
use aimini_os.Checksum.{network_checksum}
use aimini_os.Samples.{
  guest, host_mac, idle_nic-IsNic, frame_to_guest, frame_to_guest-IsEth, datagram_to,
  datagram_to-IsIpv4, ping, ping-IsIcmp, four_bytes,
}
use aimini_os.Layout.{eth_bytes, ipv4_bytes, icmp_bytes}
use aimini_os.Machine.{Machine}
use aimini_os.Arp.Cache.{zero_cache, find_mac}
use aimini_os.Arp.Calls.Replies.{Sends}
use aimini_os.Network.Icmp.{send_icmp_echo_reply, hello_msg}
use aimini_os.Network.Icmp.Reply.{reply_frame, packet_of, Prints, send_icmp_echo_reply-Sends}
use aimini_os.Network.Icmp.Echo.{IsEchoReply, reply_frame-IsEchoReply}
use aimini_os.Network.Icmp.Request.{send_icmp_echo_request, request_ip, request_icmp}
use aimini_os.Network.Icmp.Request.Echo.{IsEchoRequest, send_icmp_echo_request-IsEchoRequest}
use aimini_os.Samples.{qemu_mac, qemu_mac-IsMac, host_mac-IsMac}
use aimini_os.Network.Icmp.Request.Laws.{send_icmp_echo_request_unknown, request_frame_lem}
use aimini_os.Network.Receive.{handle_network_packet}
use aimini_os.Network.Receive.Dispatch.{IsPacket, handle_network_packet-Sends}
use aimini_os.Network.Receive.Drops.{
  Drops, handle_network_packet_short, handle_network_packet_not_for_us,
  handle_network_packet_unsupported,
}

abbrev stack_buffer : List ℕ
stack_buffer = replicate 1500 0xcc

stack_buffer-length : length stack_buffer ≡ 1500
stack_buffer-length = length-replicate {A = ℕ} 1500 0xcc

abbrev guest_ip : ℕ
guest_ip = 0x0a00020f

-- The 46 bytes of a ping of the host.
abbrev ping_frame : List ℕ
ping_frame = packet_of (frame_to_guest 0x0800) (datagram_to guest_ip) ping four_bytes

ping_frame-IsPacket : IsPacket (frame_to_guest 0x0800) (datagram_to guest_ip) ping four_bytes 46
ping_frame-IsPacket = record {
  is_eth = frame_to_guest-IsEth 0x0800;
  is_ip = datagram_to-IsIpv4 guest_ip (omega arith);
  is_icmp = ping-IsIcmp;
  least = omega arith;
  most = omega arith;
  held = omega arith;
}

handle_network_packet-Sends_example :
    Sends guest zero_cache
      (reply_frame (frame_to_guest 0x0800) (datagram_to guest_ip) ping)
      54
      ping_frame
      (handle_network_packet (λ _. b'?' ∷ []) stack_buffer ping_frame 46 guest)
handle_network_packet-Sends_example =
    handle_network_packet-Sends (λ _. b'?' ∷ []) stack_buffer (frame_to_guest 0x0800)
      (datagram_to guest_ip) ping four_bytes 46 guest idle_nic-IsNic stack_buffer-length
      ping_frame-IsPacket (ntoh-hton 0x0800 0 (omega arith) (omega arith)).0
      (ntoh-hton 0 guest_ip (omega arith) (omega arith)).1 refl refl

send_icmp_echo_reply-Sends_test :
    Sends guest zero_cache
      (reply_frame (frame_to_guest 0x0800) (datagram_to guest_ip) ping)
      54
      tt
      (send_icmp_echo_reply stack_buffer ping_frame 46 guest)
send_icmp_echo_reply-Sends_test =
    send_icmp_echo_reply-Sends stack_buffer (frame_to_guest 0x0800) (datagram_to guest_ip) ping
      four_bytes 46 guest idle_nic-IsNic stack_buffer-length (frame_to_guest-IsEth 0x0800)
      (datagram_to-IsIpv4 guest_ip (omega arith)) ping-IsIcmp (omega arith) (omega arith)
      (omega arith)

reply_frame-IsEchoReply_example :
    IsEchoReply
      (frame_to_guest 0x0800)
      (datagram_to guest_ip)
      ping
      (reply_frame (frame_to_guest 0x0800) (datagram_to guest_ip) ping)
reply_frame-IsEchoReply_example =
    reply_frame-IsEchoReply (frame_to_guest 0x0800) (datagram_to guest_ip) ping
      (frame_to_guest-IsEth 0x0800) (datagram_to-IsIpv4 guest_ip (omega arith)) ping-IsIcmp

short_frame_test : Drops guest (eth_bytes (frame_to_guest 0x0800) ++ (0x45 ∷ [])) (
    handle_network_packet
      (λ _. [])
      stack_buffer
      (eth_bytes (frame_to_guest 0x0800) ++ (0x45 ∷ []))
      15
      guest)
short_frame_test =
    handle_network_packet_short (λ _. []) stack_buffer (frame_to_guest 0x0800) (0x45 ∷ []) 15 guest
      (frame_to_guest-IsEth 0x0800) (ntoh-hton 0x0800 0 (omega arith) (omega arith)).0 (omega arith)

not_ours : ntohl (datagram_to 0x0a000207).dst_ip ≢ guest_ip
not_ours = omega (arith, (ntoh-hton 0 0x0a000207 (omega arith) (omega arith)).1)

handle_network_packet_not_for_us_example :
    Drops guest
      (eth_bytes (frame_to_guest 0x0800) ++ (ipv4_bytes (datagram_to 0x0a000207) ++ four_bytes))
      (handle_network_packet
        (λ _. [])
        stack_buffer
        (eth_bytes (frame_to_guest 0x0800) ++ (ipv4_bytes (datagram_to 0x0a000207) ++ four_bytes))
        38
        guest)
handle_network_packet_not_for_us_example =
    handle_network_packet_not_for_us (λ _. []) stack_buffer (frame_to_guest 0x0800)
      (datagram_to 0x0a000207) four_bytes 38 guest (frame_to_guest-IsEth 0x0800)
      (datagram_to-IsIpv4 0x0a000207 (omega arith))
      (ntoh-hton 0x0800 0 (omega arith) (omega arith)).0 (omega arith) not_ours

not_type : (type : ℕ) → type ≢ 0x86dd → ntohs (frame_to_guest 0x86dd).eth_type ≢ type
not_type type h = omega (arith, (ntoh-hton 0x86dd 0 (omega arith) (omega arith)).0)

-- An IPv6 frame.
handle_network_packet_unsupported_test :
    Drops guest (eth_bytes (frame_to_guest 0x86dd) ++ four_bytes) (
      handle_network_packet
        (λ _. [])
        stack_buffer
        (eth_bytes (frame_to_guest 0x86dd) ++ four_bytes)
        18
        guest)
handle_network_packet_unsupported_test =
    handle_network_packet_unsupported (λ _. []) stack_buffer (frame_to_guest 0x86dd) four_bytes 18
      guest (frame_to_guest-IsEth 0x86dd) (not_type 0x0800 (omega arith))
      (not_type 0x0806 (omega arith))

-- The guest knows the host.
abbrev introduced : Machine
introduced = record guest {
  arp_cache = (record { ip_addr = 0x0a000202; mac_addr = host_mac; valid = true }) ∷ [];
}

known_lem : find_mac 0x0a000202 introduced.arp_cache ≡ some host_mac
unfolding find_mac
known_lem = refl

send_icmp_echo_request-IsEchoRequest_example :
    (frame : List ℕ) × IsEchoRequest qemu_mac 0x0a00020f host_mac 0x0a000202 frame
    × Sends introduced introduced.arp_cache frame 54 tt
        (send_icmp_echo_request 0x0a000202 introduced)
send_icmp_echo_request-IsEchoRequest_example =
    send_icmp_echo_request-IsEchoRequest 0x0a000202 introduced host_mac idle_nic-IsNic
      qemu_mac-IsMac host_mac-IsMac (omega arith) (omega arith) (omega arith) known_lem

unknown_lem : find_mac 0x0a000202 zero_cache ≡ none
unfolding find_mac
unknown_lem = refl

send_icmp_echo_request_unknown_test : Prints guest (send_icmp_echo_request 0x0a000202 guest)
send_icmp_echo_request_unknown_test =
    send_icmp_echo_request_unknown 0x0a000202 guest (omega arith) unknown_lem

request_frame_lem_example :
    (network_checksum (ipv4_bytes (request_ip guest_ip 0x0a000202)) ≡ 0)
    × (network_checksum (icmp_bytes (request_icmp hello_msg) ++ hello_msg) ≡ 0)
    × (ntohl (request_ip guest_ip 0x0a000202).src_ip ≡ guest_ip)
    × (ntohl (request_ip guest_ip 0x0a000202).dst_ip ≡ 0x0a000202)
    × (ntohs (request_ip guest_ip 0x0a000202).total_length ≡ 40)
request_frame_lem_example = request_frame_lem guest_ip 0x0a000202 (omega arith) (omega arith)
