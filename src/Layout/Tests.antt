-- ===== src/Layout/Tests.antt =====
-- Tests of the packet layouts.
use aimini_os.Base.{ℕ, List, [], ◌∷◌, arith}
use aimini_os.Layout.{read_ipv4, ipv4_bytes}
use aimini_os.Layout.Roundtrip.{IsIpv4}
use aimini_os.Layout.Parsed.{Parsed, read_ipv4-Parsed}

abbrev captured : List ℕ
captured =
    0x45 ∷ 0x00 ∷ 0x00 ∷ 0x54 ∷ 0x12 ∷ 0x34 ∷ 0x40 ∷ 0x00 ∷ 0x40 ∷ 0x01 ∷ 0x00 ∷ 0x00 ∷ 0x0a ∷ 0x00
    ∷ 0x02 ∷ 0x02 ∷ 0x0a ∷ 0x00 ∷ 0x02 ∷ 0x0f ∷ 0x08 ∷ []

captured_test : Parsed IsIpv4 ipv4_bytes read_ipv4 captured
captured_test = read_ipv4-Parsed captured (omega arith) (omega arith)
