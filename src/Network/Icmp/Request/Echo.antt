-- ===== src/Network/Icmp/Request/Echo.antt =====
-- The frame that `send_icmp_echo_request` sends, as its receiver sees it.
use aimini_os.Base.{ℕ, ◌^◌, ◌≡◌, ◌≢◌, ◌<◌, refl, some, List, [], ◌∷◌, ◌++◌, arith}
use aimini_os.ByteOrder.{ntohs, ntohl}
use aimini_os.ByteOrder.Laws.{ntoh-hton, htons-lt, htonl-lt}
use aimini_os.Checksum.{network_checksum}
use aimini_os.Format.{ascii}
use aimini_os.Layout.{
  Mac, EthHeader, Ipv4Header, IcmpHeader, read_eth, read_ipv4, read_icmp, ipv4_bytes, icmp_bytes,
}
use aimini_os.Layout.Roundtrip.{
  IsMac, IsIpv4, IsIcmp, read_eth-eth_bytes, read_ipv4-ipv4_bytes, read_icmp-icmp_bytes,
}
use aimini_os.Machine.{Machine}
use aimini_os.Rtl8139.Send.Laws.{IsNic}
use aimini_os.Arp.Cache.{find_mac}
use aimini_os.Arp.Calls.Replies.{Sends}
use aimini_os.Network.Icmp.{with_icmp_checksum, with_ip_checksum, hello_msg}
use aimini_os.Network.Icmp.Valid.{network_checksum-lt}
use aimini_os.Network.Icmp.Request.{request_eth, request_ip, request_icmp, send_icmp_echo_request}
use aimini_os.Network.Icmp.Request.Laws.{
  request_frame, request_frame_lem, send_icmp_echo_request-Sends,
}

-- `frame` is an echo request from the machine with `own` and `own_ip` to the one with `target` and
-- `ip`.
pub record IsEchoRequest (own : Mac) (own_ip : ℕ) (target : Mac) (ip : ℕ) (frame : List ℕ)
    : Type 0 where
  pub eth : EthHeader
  pub header : Ipv4Header
  pub icmp : IcmpHeader
  pub datagram : List ℕ
  pub message : List ℕ
  pub eth_read : read_eth frame ≡ some (eth, datagram)
  pub ip_read : read_ipv4 datagram ≡ some (header, message)
  pub icmp_read : read_icmp message ≡ some (icmp, ascii "hello,world" ++ (0 ∷ []))
  pub to_mac : eth.dest_mac ≡ target
  pub from_mac : eth.src_mac ≡ own
  pub frame_type : ntohs eth.eth_type ≡ 0x0800
  pub to_ip : ntohl header.dst_ip ≡ ip
  pub from_ip : ntohl header.src_ip ≡ own_ip
  pub protocol : header.protocol ≡ 1
  pub total_length : ntohs header.total_length ≡ 40
  pub ip_sum : network_checksum (ipv4_bytes header) ≡ 0
  pub request : icmp.icmp_type ≡ 8
  pub code : icmp.code ≡ 0
  pub identifier : ntohs icmp.identifier ≡ 0x1234
  pub sequence : ntohs icmp.sequence ≡ 1
  pub icmp_sum : network_checksum message ≡ 0

request_ip-IsIpv4 : (own_ip ip : ℕ) → own_ip < 2 ^ 32 → ip < 2 ^ 32 → IsIpv4 (request_ip own_ip ip)
unfolding request_ip with_ip_checksum
request_ip-IsIpv4 own_ip ip p q = record {
  version_ihl = omega arith;
  dscp_ecn = omega arith;
  total_length = htons-lt 40;
  identification = omega arith;
  flags_fragment_offset = omega arith;
  ttl = omega arith;
  protocol = omega arith;
  checksum = network_checksum-lt _;
  src_ip = htonl-lt own_ip p;
  dst_ip = htonl-lt ip q;
}

request_icmp-IsIcmp : (bytes : List ℕ) → IsIcmp (request_icmp bytes)
unfolding request_icmp with_icmp_checksum
request_icmp-IsIcmp bytes = record {
  icmp_type = omega arith;
  code = omega arith;
  checksum = network_checksum-lt _;
  identifier = htons-lt 0x1234;
  sequence = htons-lt 1;
}

pub request_frame-IsEchoRequest :
    (m : Machine) (target : Mac) (ip : ℕ)
    → IsMac m.net_dev.mac_addr
    → IsMac target
    → m.net_dev.ip_addr < 2 ^ 32
    → ip < 2 ^ 32
    → IsEchoRequest m.net_dev.mac_addr m.net_dev.ip_addr target ip (request_frame m target ip)
unfolding request_eth request_ip request_icmp with_ip_checksum with_icmp_checksum
request_frame-IsEchoRequest m target ip own to p q =
    let (ip_sum, icmp_sum, from_ip, to_ip, total) = request_frame_lem m.net_dev.ip_addr ip p q in
    record {
      eth = request_eth m.net_dev.mac_addr target;
      header = request_ip m.net_dev.ip_addr ip;
      icmp = request_icmp hello_msg;
      datagram =
          ipv4_bytes (request_ip m.net_dev.ip_addr ip)
          ++ (icmp_bytes (request_icmp hello_msg) ++ hello_msg);
      message = icmp_bytes (request_icmp hello_msg) ++ hello_msg;
      eth_read =
          read_eth-eth_bytes (request_eth m.net_dev.mac_addr target) _
            (record { dest = to; src = own; eth_type = htons-lt 0x0800 });
      ip_read =
          read_ipv4-ipv4_bytes (request_ip m.net_dev.ip_addr ip) _
            (request_ip-IsIpv4 m.net_dev.ip_addr ip p q);
      icmp_read =
          read_icmp-icmp_bytes (request_icmp hello_msg) hello_msg (request_icmp-IsIcmp hello_msg);
      to_mac = refl;
      from_mac = refl;
      frame_type = (ntoh-hton 0x0800 0 (omega arith) (omega arith)).0;
      to_ip = to_ip;
      from_ip = from_ip;
      protocol = refl;
      total_length = total;
      ip_sum = ip_sum;
      request = refl;
      code = refl;
      identifier = (ntoh-hton 0x1234 0 (omega arith) (omega arith)).0;
      sequence = (ntoh-hton 1 0 (omega arith) (omega arith)).0;
      icmp_sum = icmp_sum;
    }

-- With well-formed statics of the driver and addresses that fit their widths, a ping to another
-- machine whose hardware address the table holds is sent: 54 bytes go to the card, which a receiver
-- reads as an ICMP echo request with the text "hello,world" from our two addresses to that hardware
-- address and that IP address, with both checksums right; nothing else changes but the console, the
-- port history and the transmit buffers.
pub send_icmp_echo_request-IsEchoRequest :
    (ip : ℕ) (m : Machine) (target : Mac)
    → IsNic m.nic
    → IsMac m.net_dev.mac_addr
    → IsMac target
    → m.net_dev.ip_addr < 2 ^ 32
    → ip < 2 ^ 32
    → ip ≢ m.net_dev.ip_addr
    → find_mac ip m.arp_cache ≡ some target
    → (frame : List ℕ) × IsEchoRequest m.net_dev.mac_addr m.net_dev.ip_addr target ip frame
      × Sends m m.arp_cache frame 54 tt (send_icmp_echo_request ip m)
send_icmp_echo_request-IsEchoRequest ip m target v own to p q other known = (
  request_frame m target ip,
  request_frame-IsEchoRequest m target ip own to p q,
  send_icmp_echo_request-Sends ip m target v other known,
)
