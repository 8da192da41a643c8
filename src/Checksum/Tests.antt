-- ===== src/Checksum/Tests.antt =====
-- Tests of the checksum.
use aimini_os.Base.{◌⊎◌, ℕ, ◌+◌, ◌*◌, ◌/◌, ◌%◌, ◌≡◌, refl, List, [], ◌∷◌, ◌++◌, arith}
use aimini_os.Checksum.{network_checksum, sum_words, fold_carries}
use aimini_os.Checksum.Verify.{network_checksum_verifies, network_checksum_detects}

-- The header of RFC 1071's kind: its sum carries.
abbrev head : List ℕ
head = 0x45 ∷ 0x00 ∷ 0xff ∷ 0xff ∷ []

abbrev rest : List ℕ
rest = 0x0a ∷ 0xf0 ∷ 0x02 ∷ []

odd_length_test : network_checksum (head ++ (0 ∷ 0 ∷ rest)) ≡ 0x0fae
unfolding network_checksum sum_words fold_carries
odd_length_test = refl

network_checksum_verifies_example :
    let c = network_checksum (head ++ (0 ∷ 0 ∷ rest)) in
    network_checksum (head ++ (c % 256 ∷ c / 256 ∷ rest)) ≡ 0
network_checksum_verifies_example =
    network_checksum_verifies 2 head rest refl (omega arith) (omega arith) (omega arith)

same_sum : network_checksum (head ++ (0 ∷ 0 ∷ rest)) ≡ network_checksum (head ++ (255 ∷ 255 ∷ rest))
unfolding network_checksum sum_words fold_carries
same_sum = refl

-- The zero words of both kinds have one checksum.
network_checksum_detects_example :
    (0 + 256 * 0 ≡ 255 + 256 * 255)
    ⊎ (0 + 256 * 0 + 65535 ≡ 255 + 256 * 255)
    ⊎ (0 + 256 * 0 ≡ 255 + 256 * 255 + 65535)
network_checksum_detects_example =
    network_checksum_detects 2 head rest 0 0 255 255 refl (omega arith) (omega arith) (omega arith)
      (omega arith) same_sum
