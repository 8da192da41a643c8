-- ===== src/Layout/Parsed.antt =====
-- Any packet with enough bytes is a struct's bytes and a rest, and the cast reads that struct.
use aimini_os.Base.{ℕ, ◌+◌, ◌*◌, ◌≤◌, ◌≡◌, refl, some, List, ◌∷◌, ◌++◌, arith, IsBytes, length, M}
use aimini_os.Layout.{
  read_eth, read_arp, read_ipv4, read_icmp, eth_bytes, arp_bytes, ipv4_bytes, icmp_bytes,
}
use aimini_os.Layout.Roundtrip.{IsEth, IsArp, IsIpv4, IsIcmp}

-- A packet as the struct `value` at its start and the bytes after it.
pub record Parsed {T : Type 0} (Is : T → Type 0) (bytes_of : T → List ℕ) (read : M (List ℕ) T)
    (packet : List ℕ) : Type 0 where
  pub value : T
  pub rest : List ℕ
  pub reads : read packet ≡ some (value, rest)
  pub is_packet : bytes_of value ++ rest ≡ packet
  pub fits : Is value

pub read_eth-Parsed :
    (packet : List ℕ) → IsBytes packet → 14 ≤ length packet → Parsed IsEth eth_bytes read_eth packet
unfolding read_eth
read_eth-Parsed (b0 ∷ b1 ∷ b2 ∷ b3 ∷ b4 ∷ b5 ∷ b6 ∷ b7 ∷ b8 ∷ b9 ∷ b10 ∷ b11 ∷ b12 ∷ b13 ∷ rest) v
      h =
    record {
      value = record {
        dest_mac = record { m0 = b0; m1 = b1; m2 = b2; m3 = b3; m4 = b4; m5 = b5 };
        src_mac = record { m0 = b6; m1 = b7; m2 = b8; m3 = b9; m4 = b10; m5 = b11 };
        eth_type = b12 + 256 * b13;
      };
      rest = rest;
      reads = refl;
      is_packet = ground arith;
      fits = omega arith;
    }
read_eth-Parsed _ v h = absurd (omega arith)

pub read_icmp-Parsed :
    (packet : List ℕ)
    → IsBytes packet
    → 8 ≤ length packet
    → Parsed IsIcmp icmp_bytes read_icmp packet
unfolding read_icmp
read_icmp-Parsed (b0 ∷ b1 ∷ b2 ∷ b3 ∷ b4 ∷ b5 ∷ b6 ∷ b7 ∷ rest) v h = record {
  value = record {
    icmp_type = b0;
    code = b1;
    checksum = b2 + 256 * b3;
    identifier = b4 + 256 * b5;
    sequence = b6 + 256 * b7;
  };
  rest = rest;
  reads = refl;
  is_packet = ground arith;
  fits = omega arith;
}
read_icmp-Parsed _ v h = absurd (omega arith)

pub read_ipv4-Parsed :
    (packet : List ℕ)
    → IsBytes packet
    → 20 ≤ length packet
    → Parsed IsIpv4 ipv4_bytes read_ipv4 packet
unfolding read_ipv4
read_ipv4-Parsed
      (b0 ∷ b1 ∷ b2 ∷ b3 ∷ b4 ∷ b5 ∷ b6 ∷ b7 ∷ b8 ∷ b9 ∷ b10 ∷ b11 ∷ b12 ∷ b13 ∷ b14 ∷ b15 ∷ b16
        ∷ b17 ∷ b18 ∷ b19 ∷ rest)
      v h =
    record {
      value = record {
        version_ihl = b0;
        dscp_ecn = b1;
        total_length = b2 + 256 * b3;
        identification = b4 + 256 * b5;
        flags_fragment_offset = b6 + 256 * b7;
        ttl = b8;
        protocol = b9;
        checksum = b10 + 256 * b11;
        src_ip = b12 + 256 * b13 + 65536 * b14 + 16777216 * b15;
        dst_ip = b16 + 256 * b17 + 65536 * b18 + 16777216 * b19;
      };
      rest = rest;
      reads = refl;
      is_packet = ground arith;
      fits = omega arith;
    }
read_ipv4-Parsed _ v h = absurd (omega arith)

pub read_arp-Parsed :
    (packet : List ℕ) → IsBytes packet → 28 ≤ length packet → Parsed IsArp arp_bytes read_arp packet
unfolding read_arp
read_arp-Parsed
      (b0 ∷ b1 ∷ b2 ∷ b3 ∷ b4 ∷ b5 ∷ b6 ∷ b7 ∷ b8 ∷ b9 ∷ b10 ∷ b11 ∷ b12 ∷ b13 ∷ b14 ∷ b15 ∷ b16
        ∷ b17 ∷ b18 ∷ b19 ∷ b20 ∷ b21 ∷ b22 ∷ b23 ∷ b24 ∷ b25 ∷ b26 ∷ b27 ∷ rest)
      v h =
    record {
      value = record {
        hardware_type = b0 + 256 * b1;
        protocol_type = b2 + 256 * b3;
        hardware_size = b4;
        protocol_size = b5;
        opcode = b6 + 256 * b7;
        sender_mac = record { m0 = b8; m1 = b9; m2 = b10; m3 = b11; m4 = b12; m5 = b13 };
        sender_ip = b14 + 256 * b15 + 65536 * b16 + 16777216 * b17;
        target_mac = record { m0 = b18; m1 = b19; m2 = b20; m3 = b21; m4 = b22; m5 = b23 };
        target_ip = b24 + 256 * b25 + 65536 * b26 + 16777216 * b27;
      };
      rest = rest;
      reads = refl;
      is_packet = ground arith;
      fits = omega arith;
    }
read_arp-Parsed _ v h = absurd (omega arith)
