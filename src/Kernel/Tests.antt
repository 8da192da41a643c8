-- ===== src/Kernel/Tests.antt =====
-- Runs of kernel.c.
use aimini_os.Base.{
  ◌+◌, ◌%◌, length-replicate, ℕ, ◌≡◌, refl, List, [], ◌∷◌, true, some, replicate, arith,
}
use aimini_os.Machine.{port_in, Machine}
use aimini_os.Machine.Quiet.{IsQuiet}
use aimini_os.Samples.{
  frame_to_guest, datagram_to, ping, four_bytes, guest, idle_nic-IsNic, host_mac, card_space,
  bridge, no_stack,
}
use aimini_os.Ring.{bytes_avail, check_rx_buffer, check_silently}
use aimini_os.Ring.Samples.{pinged, pinged_avail, pinged-IsPing}
use aimini_os.Ring.{next_offset, rx_offset_of, capr_of}
use aimini_os.Network.Icmp.Reply.{reply_frame}
use aimini_os.Kernel.Echo.{IsAnswered, Runs-IsAnswered}
use aimini_os.Ring.Empty.{answer_capr, answer_cbr}
use aimini_os.Arp.Cache.{zero_cache, clear_entries}
use aimini_os.Arp.Cache.Unique.{IsUnique-clear_entries}
use aimini_os.Network.Setup.{default_device}
use aimini_os.Kernel.{Unset, boot, main_turn}
use aimini_os.Interrupts.{handle_rtl8139_interrupt}
use aimini_os.Interrupts.Laws.{Ends-handle_rtl8139_interrupt}
use aimini_os.Kernel.Checks.{test_network_basics}
use aimini_os.Kernel.Checks.Laws.{Ends-test_network_basics}
use aimini_os.Kernel.Safe.{IsSafe, Ends, fixed_of}
use aimini_os.Kernel.Loop.{period, turn, delivery, stay, more, IsSpin, Runs-IsSpin}
use aimini_os.Kernel.Boot.{Boots, boot-Boots}
use aimini_os.Kernel.Pings.{main_turn-IsQuiet}

abbrev unset : Unset
unset = record {
  beyond = no_stack;
  heap = λ a. replicate 32784 0;
  behind = λ i. [];
  buffer = replicate 1500 0;
}

abbrev bridged : Machine
bridged = record guest { device = bridge }

boot-Boots_example : Boots unset bridged (some (0, 3)) (boot unset bridged)
boot-Boots_example =
    boot-Boots unset card_space bridged idle_nic-IsNic
      (record { answers = λ h a. refl; dword = λ a. ground arith })

empty_ring : bytes_avail (answer_capr guest) (answer_cbr guest) ≡ 0
unfolding bytes_avail
empty_ring = refl

main_turn-IsQuiet_test : IsQuiet guest (main_turn unset true 41 guest)
main_turn-IsQuiet_test = main_turn-IsQuiet unset guest empty_ring true 41 refl

-- The guest with the gateway in its table, after 20000000 - 1 turns.
abbrev resolved : Machine
resolved = record guest {
  arp_cache = record { ip_addr = 0x0a000202; mac_addr = host_mac; valid = true } ∷ zero_cache;
}

abbrev booted_guest : Machine
booted_guest = record guest { net_dev = default_device; arp_cache = clear_entries zero_cache }

booted_guest-IsSafe : IsSafe (fixed_of booted_guest) booted_guest
booted_guest-IsSafe = record {
  statics = idle_nic-IsNic;
  table = IsUnique-clear_entries zero_cache;
  same = refl;
}

-- A turn, after which the pointers of the ring were read, and then a delivery.
abbrev turned : Machine
turned = record booted_guest { ports = port_in 2 0xc03a ∷ port_in 2 0xc038 ∷ [] }

turn_lem : main_turn unset true 0 booted_guest ≡ some (1, turned)
unfolding main_turn check_rx_buffer check_silently bytes_avail
turn_lem = refl

abbrev filled_ring : List ℕ
filled_ring = replicate 64 1

Runs-IsSpin_example :
    IsSpin
      (fixed_of booted_guest)
      true
      1
      (record { machine = record turned { rx_memory = filled_ring }; timer = 1 })
Runs-IsSpin_example =
    Runs-IsSpin (fixed_of booted_guest) true booted_guest 1
      (record { machine = record turned { rx_memory = filled_ring }; timer = 1 })
      booted_guest-IsSafe (more (more stay (turn unset turn_lem)) (delivery filled_ring))

Ends-test_network_basics_example :
    Ends (fixed_of booted_guest) (test_network_basics unset booted_guest)
Ends-test_network_basics_example =
    Ends-test_network_basics (fixed_of booted_guest) unset booted_guest booted_guest-IsSafe

Ends-handle_rtl8139_interrupt_example :
    Ends
      (fixed_of booted_guest)
      (handle_rtl8139_interrupt no_stack (λ i. []) (replicate 1500 0) booted_guest)
Ends-handle_rtl8139_interrupt_example =
    Ends-handle_rtl8139_interrupt (fixed_of booted_guest) (omega arith) (omega arith) no_stack
      (λ i. []) (replicate 1500 0) booted_guest booted_guest-IsSafe

-- The guest with a card whose write pointer is 100; the card has put a ping into the ring.
abbrev listening : Machine
listening = record booted_guest { net_dev = guest.net_dev; device = pinged.device }

listening-IsSafe : IsSafe (fixed_of listening) listening
listening-IsSafe = record {
  statics = idle_nic-IsNic;
  table = IsUnique-clear_entries zero_cache;
  same = refl;
}

Runs-IsAnswered_example :
    IsAnswered
      (fixed_of listening)
      unset
      true
      (record { machine = record listening { rx_memory = pinged.rx_memory }; timer = 0 })
      (reply_frame (frame_to_guest 0x0800) (datagram_to 0x0a00020f) ping)
      (capr_of (next_offset (rx_offset_of (answer_capr pinged)) 50))
      ((1 + 0) % period true)
Runs-IsAnswered_example =
    Runs-IsAnswered (fixed_of listening) true listening 0
      (record { machine = record listening { rx_memory = pinged.rx_memory }; timer = 0 }) unset
      (frame_to_guest 0x0800) (datagram_to 0x0a00020f) ping four_bytes 50 listening-IsSafe
      (more stay (delivery pinged.rx_memory)) (omega arith) (length-replicate {A = ℕ} 1500 0)
      (omega (arith, pinged_avail)) pinged-IsPing
