-- ===== src/Rtl8139/Init/Tests.antt =====
-- Runs of the initialisation.
use aimini_os.Base.{ℕ, ◌+◌, ◌%◌, ◌<◌, ◌≤◌, ◌≡◌, refl, arith, replicate, drop, take}
use mathlib.Core.Logic.{◌↔◌}
use aimini_os.Checksum.{network_checksum, fold_carries, sum_words}
use aimini_os.Machine.{Machine}
use aimini_os.Samples.{guest, idle_nic-IsNic, bridge, no_stack}
use aimini_os.Rtl8139.Init.{rbstart_of, rtl8139_init, test_packet, store_checksum}
use aimini_os.Rtl8139.Init.Buffer.{rbstart_of_lem}
use aimini_os.Rtl8139.Init.Whole.{IsInitialised, rtl8139_init-IsInitialised}

-- An address that is a multiple of 4 only.
rbstart_of_lem_example :
    (rbstart_of 0x200004 % 16 ≡ 0)
    × (0x200004 ≤ rbstart_of 0x200004)
    × (rbstart_of 0x200004 + 32768 < 0x200004 + 32784)
    × ((rbstart_of 0x200004 ≡ 0x200004) ↔ (◌≡◌ {A = ℕ} (0x200004 % 16) 0))
rbstart_of_lem_example = rbstart_of_lem 0x200004 (omega arith)

abbrev with_card : Machine
with_card = record guest { device = bridge }

rtl8139_init-IsInitialised_example :
    IsInitialised 0 3 with_card (rtl8139_init no_stack (λ a. replicate 32784 0) 0 3 with_card)
rtl8139_init-IsInitialised_example =
    rtl8139_init-IsInitialised no_stack 0 3 (omega arith) (omega arith) (λ a. replicate 32784 0)
      with_card idle_nic-IsNic

-- Both checksums of the test packet are right.
test_packet_header_test : network_checksum (take 20 (drop 14 test_packet)) ≡ 0
unfolding network_checksum test_packet store_checksum fold_carries sum_words
test_packet_header_test = refl

test_packet_message_test : network_checksum (drop 34 test_packet) ≡ 0
unfolding network_checksum test_packet store_checksum fold_carries sum_words
test_packet_message_test = refl
