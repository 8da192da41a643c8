-- ===== src/Network/Icmp/Valid.antt =====
-- The checksums of the headers that network.c builds.
use aimini_os.Base.{ℕ, ◌/◌, ◌%◌, ◌^◌, ◌≡◌, ◌<◌, List, [], ◌∷◌, ◌++◌, arith}
use aimini_os.Layout.{Ipv4Header, IcmpHeader, ipv4_bytes, icmp_bytes, bytes16, bytes32}
use aimini_os.Layout.Roundtrip.{IsIpv4, IsIcmp}
use aimini_os.Format.{ascii}
use aimini_os.Checksum.{network_checksum}
use aimini_os.Checksum.Verify.{network_checksum_verifies}
use aimini_os.Network.Icmp.{with_icmp_checksum, with_ip_checksum, hello_msg}

pub network_checksum-lt : (xs : List ℕ) → network_checksum xs < 2 ^ 16
unfolding network_checksum
network_checksum-lt xs = omega arith

-- The high byte as a field stores it.
stored :
    (pre post : List ℕ) (c : ℕ)
    → c < 2 ^ 16
    → network_checksum (pre ++ (c % 256 ∷ c / 256 ∷ post)) ≡ 0
    → network_checksum (pre ++ (c % 256 ∷ c / 256 % 256 ∷ post)) ≡ 0
stored pre post c h e = let same : c / 256 % 256 ≡ c / 256 = omega arith in rw same e

-- A receiver that sums an IP header whose checksum was set gets zero.
pub with_ip_checksum-verifies :
    (h : Ipv4Header) → IsIpv4 h → network_checksum (ipv4_bytes (with_ip_checksum h)) ≡ 0
unfolding with_ip_checksum
with_ip_checksum-verifies h v =
    let pre : List ℕ =
      h.version_ihl ∷ h.dscp_ecn ∷ bytes16 h.total_length
      ++ (bytes16 h.identification
          ++ (bytes16 h.flags_fragment_offset ++ (h.ttl ∷ h.protocol ∷ []))) in
    let post : List ℕ = bytes32 h.src_ip ++ bytes32 h.dst_ip in
    let c : ℕ = network_checksum (pre ++ (0 ∷ 0 ∷ post)) in
    stored pre post c (network_checksum-lt (pre ++ (0 ∷ 0 ∷ post))) (
      network_checksum_verifies 5 pre post (omega arith) (omega (arith, v.version_ihl))
        (omega arith) (omega arith))

-- A receiver that sums an echo message of `hello_len` bytes whose checksum was set gets zero.
pub with_icmp_checksum-verifies :
    (h : IcmpHeader) (tail : List ℕ)
    → IsIcmp h
    → network_checksum (icmp_bytes (with_icmp_checksum h (hello_msg ++ tail)) ++ hello_msg) ≡ 0
unfolding with_icmp_checksum ascii
with_icmp_checksum-verifies h tail v =
    let pre : List ℕ = h.icmp_type ∷ h.code ∷ [] in
    let post : List ℕ = bytes16 h.identifier ++ (bytes16 h.sequence ++ hello_msg) in
    let c : ℕ = network_checksum (pre ++ (0 ∷ 0 ∷ post)) in
    stored pre post c (network_checksum-lt (pre ++ (0 ∷ 0 ∷ post))) (
      network_checksum_verifies 1 pre post (omega arith) (omega (arith, v.icmp_type, v.code))
        (omega arith) (omega arith))
