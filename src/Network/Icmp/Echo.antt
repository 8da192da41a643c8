-- ===== src/Network/Icmp/Echo.antt =====
-- The frame that `send_icmp_echo_reply` sends, as its receiver sees it.
use aimini_os.Base.{ℕ, ◌≡◌, refl, some, List, [], ◌++◌, arith}
use aimini_os.ByteOrder.{ntohs}
use aimini_os.ByteOrder.Laws.{ntoh-hton, htons-lt}
use aimini_os.Checksum.{network_checksum}
use aimini_os.Layout.{
  EthHeader, Ipv4Header, IcmpHeader, read_eth, read_ipv4, read_icmp, ipv4_bytes, icmp_bytes,
}
use aimini_os.Layout.Roundtrip.{
  IsEth, IsIpv4, IsIcmp, read_eth-eth_bytes, read_ipv4-ipv4_bytes, read_icmp-icmp_bytes,
}
use aimini_os.Format.{ascii}
use aimini_os.Network.Icmp.{
  hello_msg, reply_eth, reply_ip, reply_icmp, with_ip_checksum, with_icmp_checksum,
}
use aimini_os.Network.Icmp.Valid.{
  network_checksum-lt, with_ip_checksum-verifies, with_icmp_checksum-verifies,
}
use aimini_os.Network.Icmp.Reply.{reply_frame}

-- `frame` is an echo reply to the packet with the three headers.
pub record IsEchoReply (eth : EthHeader) (ip : Ipv4Header) (icmp : IcmpHeader) (frame : List ℕ)
    : Type 0 where
  pub eth' : EthHeader
  pub ip' : Ipv4Header
  pub icmp' : IcmpHeader
  pub datagram : List ℕ
  pub message : List ℕ
  pub eth_read : read_eth frame ≡ some (eth', datagram)
  pub ip_read : read_ipv4 datagram ≡ some (ip', message)
  pub icmp_read : read_icmp message ≡ some (icmp', hello_msg)
  pub to_sender : eth'.dest_mac ≡ eth.src_mac
  pub from_us : eth'.src_mac ≡ eth.dest_mac
  pub frame_type : eth'.eth_type ≡ eth.eth_type
  pub to_ip : ip'.dst_ip ≡ ip.src_ip
  pub from_ip : ip'.src_ip ≡ ip.dst_ip
  pub total_length : ntohs ip'.total_length ≡ 40
  pub ip_sum : network_checksum (ipv4_bytes ip') ≡ 0
  pub reply : icmp'.icmp_type ≡ 0
  pub code : icmp'.code ≡ 0
  pub identifier : icmp'.identifier ≡ icmp.identifier
  pub sequence : icmp'.sequence ≡ icmp.sequence
  pub icmp_sum : network_checksum message ≡ 0

reply_ip-IsIpv4 : (ip : Ipv4Header) → IsIpv4 ip → IsIpv4 (reply_ip ip)
unfolding reply_ip with_ip_checksum
reply_ip-IsIpv4 ip v = record {
  version_ihl = v.version_ihl;
  dscp_ecn = v.dscp_ecn;
  total_length = htons-lt 40;
  identification = v.identification;
  flags_fragment_offset = v.flags_fragment_offset;
  ttl = v.ttl;
  protocol = v.protocol;
  checksum = network_checksum-lt _;
  src_ip = v.dst_ip;
  dst_ip = v.src_ip;
}

reply_icmp-IsIcmp : (icmp : IcmpHeader) → IsIcmp icmp → IsIcmp (reply_icmp icmp hello_msg)
unfolding reply_icmp with_icmp_checksum
reply_icmp-IsIcmp icmp v = record {
  icmp_type = omega arith;
  code = omega arith;
  checksum = network_checksum-lt _;
  identifier = v.identifier;
  sequence = v.sequence;
}

reply_ip-verifies : (ip : Ipv4Header) → IsIpv4 ip → network_checksum (ipv4_bytes (reply_ip ip)) ≡ 0
unfolding reply_ip
reply_ip-verifies ip v = with_ip_checksum-verifies _ (record {
  version_ihl = v.version_ihl;
  dscp_ecn = v.dscp_ecn;
  total_length = htons-lt 40;
  identification = v.identification;
  flags_fragment_offset = v.flags_fragment_offset;
  ttl = v.ttl;
  protocol = v.protocol;
  checksum = v.checksum;
  src_ip = v.dst_ip;
  dst_ip = v.src_ip;
})

reply_icmp-verifies :
    (icmp : IcmpHeader)
    → IsIcmp icmp
    → network_checksum (icmp_bytes (reply_icmp icmp hello_msg) ++ hello_msg) ≡ 0
unfolding reply_icmp ascii
reply_icmp-verifies icmp v = with_icmp_checksum-verifies _ [] (record {
  icmp_type = omega arith;
  code = omega arith;
  checksum = v.checksum;
  identifier = v.identifier;
  sequence = v.sequence;
})

-- For a request whose header fields fit their widths, the receiver reads an echo reply from us to
-- the sender of the request, by MAC and IP address, with the request's identifier and sequence
-- number and the text "hello,world"; both its checksums verify.
pub reply_frame-IsEchoReply :
    (eth : EthHeader) (ip : Ipv4Header) (icmp : IcmpHeader)
    → IsEth eth
    → IsIpv4 ip
    → IsIcmp icmp
    → IsEchoReply eth ip icmp (reply_frame eth ip icmp)
unfolding reply_eth reply_ip reply_icmp with_ip_checksum with_icmp_checksum
reply_frame-IsEchoReply eth ip icmp ve vi vc = record {
  eth' = reply_eth eth;
  ip' = reply_ip ip;
  icmp' = reply_icmp icmp hello_msg;
  datagram = ipv4_bytes (reply_ip ip) ++ (icmp_bytes (reply_icmp icmp hello_msg) ++ hello_msg);
  message = icmp_bytes (reply_icmp icmp hello_msg) ++ hello_msg;
  eth_read =
      read_eth-eth_bytes (reply_eth eth) _
        (record { dest = ve.src; src = ve.dest; eth_type = ve.eth_type });
  ip_read = read_ipv4-ipv4_bytes (reply_ip ip) _ (reply_ip-IsIpv4 ip vi);
  icmp_read =
      read_icmp-icmp_bytes (reply_icmp icmp hello_msg) hello_msg (reply_icmp-IsIcmp icmp vc);
  to_sender = refl;
  from_us = refl;
  frame_type = refl;
  to_ip = refl;
  from_ip = refl;
  total_length = (ntoh-hton 40 0 (omega arith) (omega arith)).0;
  ip_sum = reply_ip-verifies ip vi;
  reply = refl;
  code = refl;
  identifier = refl;
  sequence = refl;
  icmp_sum = reply_icmp-verifies icmp vc;
}
