-- ===== src/Rtl8139/Send/Tests.antt =====
-- Tests of sending.
use aimini_os.Base.{
  refl, ℕ, ◌+◌, ◌*◌, ◌%◌, ◌≡◌, ◌==◌, arith, replicate, length-replicate, if◌then◌else◌,
}
use aimini_os.Base.{u16}
use aimini_os.Samples.{guest, idle_nic, idle_nic-IsNic, four_bytes}
use aimini_os.Machine.Quiet.{IsQuiet}
use aimini_os.Rtl8139.Registers.{reg_tsd0}
use aimini_os.Rtl8139.Send.{rtl8139_send_packet, wait_offset}
use aimini_os.Rtl8139.Send.Polls.{IsPolling, polled_port, rtl8139_send_packet-IsPolling}
use aimini_os.Rtl8139.Send.Statics.{IsNic-sent_nic, wait_offset_lem}
use aimini_os.Rtl8139.Send.Laws.{
  IsSent, IsNic, filled, sent_nic, rtl8139_send_packet-IsSent, rtl8139_send_packet_too_large,
}

-- The card never answers that the packet is sent.
rtl8139_send_packet-IsSent_example :
    IsSent guest four_bytes 4 (rtl8139_send_packet four_bytes 4 guest)
rtl8139_send_packet-IsSent_example =
    rtl8139_send_packet-IsSent four_bytes 4 guest idle_nic-IsNic (omega arith) (omega arith)

rtl8139_send_packet_too_large_example :
    IsQuiet guest (rtl8139_send_packet (replicate 1537 0) 1537 guest)
rtl8139_send_packet_too_large_example =
    rtl8139_send_packet_too_large (replicate 1537 0) 1537 guest (omega arith)
      (omega (arith, length-replicate {A = ℕ} 1537 0))

IsNic-sent_nic_test : IsNic (sent_nic idle_nic (filled four_bytes 4 (replicate 1536 0)))
IsNic-sent_nic_test =
    IsNic-sent_nic idle_nic four_bytes (replicate 1536 0) 4 idle_nic-IsNic
      (length-replicate {A = ℕ} 1536 0) (omega arith) (omega arith)

-- The last descriptor.
wait_offset_lem_test :
    u16 (0xc000 + (reg_tsd0 + wait_offset ((3 + 1) % 4)))
    ≡ (if 3 == 3 then u16 (0xc000 + 0x0c) else u16 (0xc000 + (reg_tsd0 + 3 * 4)))
wait_offset_lem_test = wait_offset_lem 0xc000 3 (omega arith)

-- A card that never answers is polled to the end of the time limit.
rtl8139_send_packet-IsPolling_example :
    IsPolling guest 4 (polled_port guest) (rtl8139_send_packet four_bytes 4 guest)
rtl8139_send_packet-IsPolling_example =
    rtl8139_send_packet-IsPolling four_bytes 4 guest idle_nic-IsNic refl (omega arith) (omega arith)
