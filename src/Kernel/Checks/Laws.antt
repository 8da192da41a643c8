-- ===== src/Kernel/Checks/Laws.antt =====
-- The network tests of kernel.c keep the machine safe, and `test_network_basics` restores the
-- debug switch.
use aimini_os.Base.{ℕ, ◌∙◌, zero, suc, Bool, false}
use mathlib.Core.Path.{ap}
use aimini_os.Layout.{Mac}
use aimini_os.Machine.{Machine, say}
use aimini_os.Network.Link.{network_send_packet}
use aimini_os.Arp.Calls.{send_arp_request, arp_resolve}
use aimini_os.Ring.{check_rx_buffer}
use aimini_os.Kernel.{Unset}
use aimini_os.Kernel.Checks.{
  udp_data, test_network, show_card, poll_gateway, is_zero_mac, ping_gateway, test_network_basics,
}
use aimini_os.Kernel.Safe.{
  Fixed, IsSafe, Ends, Safe-printed, Ends-seen, Ends-bind, Ends-across, Ends-if, Ends-say,
  Ends-option, ends,
}
use aimini_os.Kernel.Safe.Sending.{Ends-network_send_packet}
use aimini_os.Kernel.Safe.Turns.{
  Ends-check_rx_buffer, Ends-send_arp_request, Ends-arp_resolve, Ends-send_icmp_echo_request,
}

-- The same with another debug switch.
abbrev switched : Bool → Fixed → Fixed
switched off fixed = record fixed { debug_off = off }

Safe-switched :
    (off : Bool) (fixed : Fixed) (m : Machine)
    → IsSafe fixed m
    → IsSafe (switched off fixed) (record m { disable_rtl_debug = off })
Safe-switched off fixed m s = record {
  statics = s.statics;
  table = s.table;
  same = ap (switched off) s.same;
}

-- Setting the switch of `m` again in a later machine.
Safe-restored :
    (off : Bool) (fixed : Fixed) (m n : Machine)
    → IsSafe fixed m
    → IsSafe (switched off fixed) n
    → IsSafe fixed (record n { disable_rtl_debug = m.disable_rtl_debug })
Safe-restored off fixed m n s r = record {
  statics = r.statics;
  table = r.table;
  same = ap (switched m.disable_rtl_debug) r.same ∙ ap (λ f. switched f.debug_off fixed) s.same;
}

module _ (fixed : Fixed) where
  pub Ends-test_network : (m : Machine) → IsSafe fixed m → Ends fixed (test_network m)
  unfolding test_network
  Ends-test_network m s =
      Ends-bind fixed _ (network_send_packet udp_data 42) _
        (Ends-network_send_packet fixed udp_data 42 _ (Safe-printed fixed m _ s))
        (λ sent n r. Ends-seen fixed tt n _ n.ports r)

  Ends-show_card : (m : Machine) → IsSafe fixed m → Ends fixed (show_card m)
  unfolding show_card
  Ends-show_card m s = Ends-seen fixed tt m _ m.ports s

  Ends-poll_gateway :
      (unset : Unset) (left : ℕ) (m : Machine)
      → IsSafe fixed m
      → Ends fixed (poll_gateway unset left m)
  unfolding poll_gateway
  Ends-poll_gateway unset zero m s = ends s
  Ends-poll_gateway unset (suc left) m s =
      Ends-bind fixed m (check_rx_buffer unset.behind unset.buffer) _
        (Ends-check_rx_buffer fixed unset.behind unset.buffer m s)
        (λ _ m1 s1.
          Ends-bind fixed m1 (arp_resolve m1.net_dev.gateway) _
            (Ends-arp_resolve fixed m1.net_dev.gateway m1 s1)
            (λ found m2 s2.
              Ends-option fixed m2 found _ (poll_gateway unset left)
                (λ mac. Ends-seen fixed mac m2 _ m2.ports s2) (Ends-poll_gateway unset left m2 s2)))

  Ends-ping_gateway : (mac : Mac) (m : Machine) → IsSafe fixed m → Ends fixed (ping_gateway mac m)
  unfolding ping_gateway
  Ends-ping_gateway mac m s =
      Ends-if fixed m (is_zero_mac mac) (say _) _ (Ends-say fixed m _ s)
        (Ends-send_icmp_echo_request fixed m.net_dev.gateway _ (Safe-printed fixed m _ s))

-- From a safe machine, the test faults or ends with a safe machine: the debug switch, which it
-- turns on while it waits for the gateway, is as before, and the addresses, the end of the heap
-- and the places of the card and its buffers too, whatever frames it receives.
pub Ends-test_network_basics :
    (fixed : Fixed) (unset : Unset) (m : Machine)
    → IsSafe fixed m
    → Ends fixed (test_network_basics unset m)
unfolding test_network_basics
Ends-test_network_basics fixed unset m s =
    Ends-bind fixed m show_card _ (Ends-show_card fixed m s) (λ _ m1 s1.
      Ends-across (switched false fixed) fixed _ (send_arp_request m1.net_dev.gateway) _
        (Ends-send_arp_request (switched false fixed) m1.net_dev.gateway _
          (Safe-switched false fixed m1 s1))
        (λ sent m2 s2.
          Ends-across (switched false fixed) fixed _ (poll_gateway unset 5) _
            (Ends-poll_gateway (switched false fixed) unset 5 _
              (Safe-printed (switched false fixed) m2 _ s2))
            (λ mac m3 s3. Ends-ping_gateway fixed mac _ (Safe-restored false fixed m1 m3 s1 s3))))
