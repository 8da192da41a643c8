-- ===== src/Layout.antt =====
-- The packed structs of network.h, arp.h and ipv4.h. A struct is a record of its fields; `read_…`
-- is the cast of a pointer to the bytes of a packet, and `…_bytes` is what its fields put in memory.
-- A multi-byte field holds the number that the host loads, the lowest byte first.
pub mod Roundtrip
pub mod Parsed
mod Tests
use aimini_os.Base.{ℕ, ◌+◌, ◌*◌, ◌/◌, ◌%◌, Option, none, some, List, [], ◌∷◌, ◌++◌, M, pure, ◌>>=◌}

-- `uint8_t x[6]`
pub record Mac : Type 0 where
  pub m0 : ℕ
  pub m1 : ℕ
  pub m2 : ℕ
  pub m3 : ℕ
  pub m4 : ℕ
  pub m5 : ℕ

pub record EthHeader : Type 0 where
  pub dest_mac : Mac
  pub src_mac : Mac
  pub eth_type : ℕ

pub record ArpPacket : Type 0 where
  pub hardware_type : ℕ
  pub protocol_type : ℕ
  pub hardware_size : ℕ
  pub protocol_size : ℕ
  pub opcode : ℕ
  pub sender_mac : Mac
  pub sender_ip : ℕ
  pub target_mac : Mac
  pub target_ip : ℕ

pub record Ipv4Header : Type 0 where
  pub version_ihl : ℕ
  pub dscp_ecn : ℕ
  pub total_length : ℕ
  pub identification : ℕ
  pub flags_fragment_offset : ℕ
  pub ttl : ℕ
  pub protocol : ℕ
  pub checksum : ℕ
  pub src_ip : ℕ
  pub dst_ip : ℕ

pub record IcmpHeader : Type 0 where
  pub icmp_type : ℕ
  pub code : ℕ
  pub checksum : ℕ
  pub identifier : ℕ
  pub sequence : ℕ

-- `sizeof`
abbrev pub eth_header_size : ℕ
eth_header_size = 14

abbrev pub arp_packet_size : ℕ
arp_packet_size = 28

abbrev pub ipv4_header_size : ℕ
ipv4_header_size = 20

abbrev pub icmp_header_size : ℕ
icmp_header_size = 8

-- Reads of one field after the other; `none` where the memory of the packet ends.
abbrev pub byte : M (List ℕ) ℕ
byte [] = none
byte (x ∷ xs) = some (x, xs)

abbrev pub word16 : M (List ℕ) ℕ
word16 = do lo ← byte; hi ← byte; pure (lo + 256 * hi)

abbrev pub word32 : M (List ℕ) ℕ
word32 = do a ← byte; b ← byte; c ← byte; d ← byte; pure (a + 256 * b + 65536 * c + 16777216 * d)

abbrev pub mac : M (List ℕ) Mac
mac = do
  a ← byte
  b ← byte
  c ← byte
  d ← byte
  e ← byte
  f ← byte
  pure (record { m0 = a; m1 = b; m2 = c; m3 = d; m4 = e; m5 = f })

unfoldable pub read_eth : M (List ℕ) EthHeader
read_eth = do
  dest ← mac
  src ← mac
  t ← word16
  pure (record { dest_mac = dest; src_mac = src; eth_type = t })

unfoldable pub read_arp : M (List ℕ) ArpPacket
read_arp = do
  ht ← word16
  pt ← word16
  hs ← byte
  ps ← byte
  op ← word16
  smac ← mac
  sip ← word32
  tmac ← mac
  tip ← word32
  pure (record {
    hardware_type = ht;
    protocol_type = pt;
    hardware_size = hs;
    protocol_size = ps;
    opcode = op;
    sender_mac = smac;
    sender_ip = sip;
    target_mac = tmac;
    target_ip = tip;
  })

unfoldable pub read_ipv4 : M (List ℕ) Ipv4Header
read_ipv4 = do
  vi ← byte
  dscp ← byte
  len ← word16
  ident ← word16
  flags ← word16
  t ← byte
  p ← byte
  sum ← word16
  src ← word32
  dst ← word32
  pure (record {
    version_ihl = vi;
    dscp_ecn = dscp;
    total_length = len;
    identification = ident;
    flags_fragment_offset = flags;
    ttl = t;
    protocol = p;
    checksum = sum;
    src_ip = src;
    dst_ip = dst;
  })

unfoldable pub read_icmp : M (List ℕ) IcmpHeader
read_icmp = do
  t ← byte
  c ← byte
  sum ← word16
  ident ← word16
  seq ← word16
  pure (record { icmp_type = t; code = c; checksum = sum; identifier = ident; sequence = seq })

abbrev pub mac_bytes : Mac → List ℕ
mac_bytes a = a.m0 ∷ a.m1 ∷ a.m2 ∷ a.m3 ∷ a.m4 ∷ a.m5 ∷ []

abbrev pub bytes16 : ℕ → List ℕ
bytes16 x = x % 256 ∷ x / 256 % 256 ∷ []

abbrev pub bytes32 : ℕ → List ℕ
bytes32 x = x % 256 ∷ x / 256 % 256 ∷ x / 65536 % 256 ∷ x / 16777216 % 256 ∷ []

abbrev pub eth_bytes : EthHeader → List ℕ
eth_bytes h = mac_bytes h.dest_mac ++ (mac_bytes h.src_mac ++ bytes16 h.eth_type)

abbrev pub arp_bytes : ArpPacket → List ℕ
arp_bytes a =
    bytes16 a.hardware_type
    ++ (bytes16 a.protocol_type
        ++ (a.hardware_size ∷ a.protocol_size ∷ bytes16 a.opcode
            ++ (mac_bytes a.sender_mac
                ++ (bytes32 a.sender_ip ++ (mac_bytes a.target_mac ++ bytes32 a.target_ip)))))

abbrev pub ipv4_bytes : Ipv4Header → List ℕ
ipv4_bytes h =
    h.version_ihl ∷ h.dscp_ecn ∷ bytes16 h.total_length
    ++ (bytes16 h.identification
        ++ (bytes16 h.flags_fragment_offset
            ++ (h.ttl ∷ h.protocol ∷ bytes16 h.checksum ++ (bytes32 h.src_ip ++ bytes32 h.dst_ip))))

abbrev pub icmp_bytes : IcmpHeader → List ℕ
icmp_bytes h =
    h.icmp_type ∷ h.code ∷ bytes16 h.checksum ++ (bytes16 h.identifier ++ bytes16 h.sequence)
