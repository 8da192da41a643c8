-- ===== src/Ring/Tests.antt =====
-- Tests of the receive ring.
use aimini_os.Machine.{Machine}
use aimini_os.Network.Icmp.Reply.{reply_frame}
use aimini_os.Ring.Interrupt.{Acknowledges, rtl8139_handle_interrupt-Acknowledges}
use aimini_os.Ring.{rtl8139_handle_interrupt}
use aimini_os.Ring.Answer.{Answers}
use aimini_os.Ring.Modes.{check_rx_buffer-Answers}
use aimini_os.Ring.Samples.{pinged, pinged_avail, pinged-IsPing}
use aimini_os.Base.{if◌then◌else◌, length-replicate}
use aimini_os.Base.{ℕ, ◌+◌, ◌-◌, ◌≡◌, refl, [], arith, replicate, if◌then◌else◌}
use mathlib.Core.Logic.{◌↔◌}
use aimini_os.Base.{leb, false}
use aimini_os.Samples.{guest, idle_nic-IsNic, frame_to_guest, datagram_to, ping, four_bytes}
use aimini_os.Machine.Quiet.{IsQuiet}
use aimini_os.Ring.{bytes_avail, next_offset, rx_offset_of, capr_of, check_rx_buffer}
use aimini_os.Ring.Offsets.{frame_end, next_offset_lem, rx_offset_of-capr_of}
use aimini_os.Ring.Empty.{answer_capr, bytes_avail_lem, check_rx_buffer-IsQuiet}

-- A frame that runs past the end of the ring.
next_offset_lem_example : next_offset 32700 64 ≡ (
    if leb 32768 (frame_end 32700 64) then frame_end 32700 64 - 32768 + 16 else frame_end 32700 64)
next_offset_lem_example = next_offset_lem 32700 64 (omega arith)

rx_offset_of-capr_of_test : rx_offset_of (capr_of 4) ≡ 4
rx_offset_of-capr_of_test = rx_offset_of-capr_of 4 (omega arith)

bytes_avail_lem_example : (bytes_avail 32752 64 ≡ 0) ↔ (◌≡◌ {A = ℕ} 32752 64)
bytes_avail_lem_example = bytes_avail_lem 32752 64 (omega arith) (omega arith)

empty_test : bytes_avail 0 0 ≡ 0
unfolding bytes_avail
empty_test = refl

check_rx_buffer-IsQuiet_test : IsQuiet guest (check_rx_buffer (λ _. []) (replicate 1500 0) guest)
check_rx_buffer-IsQuiet_test = check_rx_buffer-IsQuiet (λ _. []) (replicate 1500 0) guest empty_test

check_rx_buffer-Answers_example :
    Answers pinged
      (reply_frame (frame_to_guest 0x0800) (datagram_to 0x0a00020f) ping)
      54
      (capr_of (next_offset (rx_offset_of (answer_capr pinged)) 50))
      (check_rx_buffer (λ _. []) (replicate 1500 0) pinged)
check_rx_buffer-Answers_example =
    check_rx_buffer-Answers (λ _. []) (replicate 1500 0) (frame_to_guest 0x0800)
      (datagram_to 0x0a00020f) ping four_bytes 50 pinged (length-replicate {A = ℕ} 1500 0)
      idle_nic-IsNic (omega (arith, pinged_avail)) pinged-IsPing

-- A spurious interrupt.
rtl8139_handle_interrupt-Acknowledges_example :
    Acknowledges guest 0 (rtl8139_handle_interrupt (λ _. []) [] guest)
rtl8139_handle_interrupt-Acknowledges_example =
    rtl8139_handle_interrupt-Acknowledges (λ _. []) [] guest refl

abbrev loud : Machine
loud = record pinged { disable_rtl_debug = false }

check_rx_buffer-Answers_test :
    Answers loud
      (reply_frame (frame_to_guest 0x0800) (datagram_to 0x0a00020f) ping)
      54
      (capr_of (next_offset (rx_offset_of (answer_capr loud)) 50))
      (check_rx_buffer (λ _. []) (replicate 1500 0) loud)
check_rx_buffer-Answers_test =
    check_rx_buffer-Answers (λ _. []) (replicate 1500 0) (frame_to_guest 0x0800)
      (datagram_to 0x0a00020f) ping four_bytes 50 loud (length-replicate {A = ℕ} 1500 0)
      idle_nic-IsNic (omega (arith, pinged_avail)) pinged-IsPing
