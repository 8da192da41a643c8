-- ===== src/Layout/Roundtrip.antt =====
-- Reading a struct back from the bytes of its fields, and the bytes back from a struct that was read.
use aimini_os.Base.{ℕ, ◌+◌, ◌*◌, ◌/◌, ◌%◌, ◌^◌, ◌<◌, ◌≡◌, some, List, ◌++◌, arith}
use aimini_os.Layout.{
  Mac, EthHeader, ArpPacket, Ipv4Header, IcmpHeader, read_eth, read_arp, read_ipv4, read_icmp,
  eth_bytes, arp_bytes, ipv4_bytes, icmp_bytes,
}

abbrev pub IsMac : Mac → Type 0
IsMac a = (a.m0 < 256) × (a.m1 < 256) × (a.m2 < 256) × (a.m3 < 256) × (a.m4 < 256) × (a.m5 < 256)

pub record IsEth (h : EthHeader) : Type 0 where
  pub dest : IsMac h.dest_mac
  pub src : IsMac h.src_mac
  pub eth_type : h.eth_type < 2 ^ 16

pub record IsArp (a : ArpPacket) : Type 0 where
  pub hardware_type : a.hardware_type < 2 ^ 16
  pub protocol_type : a.protocol_type < 2 ^ 16
  pub hardware_size : a.hardware_size < 256
  pub protocol_size : a.protocol_size < 256
  pub opcode : a.opcode < 2 ^ 16
  pub sender_mac : IsMac a.sender_mac
  pub sender_ip : a.sender_ip < 2 ^ 32
  pub target_mac : IsMac a.target_mac
  pub target_ip : a.target_ip < 2 ^ 32

word16_lem : (w : ℕ) → w < 2 ^ 16 → w % 256 + 256 * (w / 256 % 256) ≡ w
word16_lem w h = omega arith

word32_lem :
    (w : ℕ)
    → w < 2 ^ 32
    → w % 256 + 256 * (w / 256 % 256) + 65536 * (w / 65536 % 256) + 16777216 * (w / 16777216 % 256)
      ≡ w
word32_lem w h = omega arith

pub read_eth-eth_bytes :
    (h : EthHeader) (rest : List ℕ) → IsEth h → read_eth (eth_bytes h ++ rest) ≡ some (h, rest)
unfolding read_eth
read_eth-eth_bytes h rest v = rw (word16_lem h.eth_type v.eth_type)

pub read_arp-arp_bytes :
    (a : ArpPacket) (rest : List ℕ) → IsArp a → read_arp (arp_bytes a ++ rest) ≡ some (a, rest)
unfolding read_arp
read_arp-arp_bytes a rest v = rw (
  word16_lem a.hardware_type v.hardware_type,
  word16_lem a.protocol_type v.protocol_type,
  word16_lem a.opcode v.opcode,
  word32_lem a.sender_ip v.sender_ip,
  word32_lem a.target_ip v.target_ip,
)

pub record IsIpv4 (h : Ipv4Header) : Type 0 where
  pub version_ihl : h.version_ihl < 256
  pub dscp_ecn : h.dscp_ecn < 256
  pub total_length : h.total_length < 2 ^ 16
  pub identification : h.identification < 2 ^ 16
  pub flags_fragment_offset : h.flags_fragment_offset < 2 ^ 16
  pub ttl : h.ttl < 256
  pub protocol : h.protocol < 256
  pub checksum : h.checksum < 2 ^ 16
  pub src_ip : h.src_ip < 2 ^ 32
  pub dst_ip : h.dst_ip < 2 ^ 32

pub record IsIcmp (h : IcmpHeader) : Type 0 where
  pub icmp_type : h.icmp_type < 256
  pub code : h.code < 256
  pub checksum : h.checksum < 2 ^ 16
  pub identifier : h.identifier < 2 ^ 16
  pub sequence : h.sequence < 2 ^ 16

pub read_ipv4-ipv4_bytes :
    (h : Ipv4Header) (rest : List ℕ) → IsIpv4 h → read_ipv4 (ipv4_bytes h ++ rest) ≡ some (h, rest)
unfolding read_ipv4
read_ipv4-ipv4_bytes h rest v = rw (
  word16_lem h.total_length v.total_length,
  word16_lem h.identification v.identification,
  word16_lem h.flags_fragment_offset v.flags_fragment_offset,
  word16_lem h.checksum v.checksum,
  word32_lem h.src_ip v.src_ip,
  word32_lem h.dst_ip v.dst_ip,
)

pub read_icmp-icmp_bytes :
    (h : IcmpHeader) (rest : List ℕ) → IsIcmp h → read_icmp (icmp_bytes h ++ rest) ≡ some (h, rest)
unfolding read_icmp
read_icmp-icmp_bytes h rest v = rw (
  word16_lem h.checksum v.checksum,
  word16_lem h.identifier v.identifier,
  word16_lem h.sequence v.sequence,
)
