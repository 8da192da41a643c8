-- ===== src/Kernel/Checks.antt =====
-- The network tests of kernel.c, which `kernel_main` does not call.
pub mod Laws
use aimini_os.Base.{
  ℕ, zero, suc, Bool, false, ◌&&◌, none, some, List, [], ◌∷◌, ◌++◌, ◌==◌, if◌then◌else◌, M, gets,
  modify, pure, ◌>>=◌, ◌>>◌,
}
use aimini_os.Format.{ascii, terminal_ip, terminal_hex8}
use aimini_os.Layout.{Mac, mac_bytes}
use aimini_os.Machine.{Machine, Act, say, clear_screen}
use aimini_os.Rtl8139.Log.{hex_joined}
use aimini_os.Arp.Cache.{zero_mac}
use aimini_os.Arp.Calls.{send_arp_request, arp_resolve}
use aimini_os.Network.Link.{network_send_packet}
use aimini_os.Network.Icmp.Request.{send_icmp_echo_request}
use aimini_os.Ring.{check_rx_buffer}
use aimini_os.Kernel.{Unset}

-- A broadcast UDP datagram without checksums.
abbrev pub udp_data : List ℕ
udp_data =
    0xff ∷ 0xff ∷ 0xff ∷ 0xff ∷ 0xff ∷ 0xff ∷ 0x52 ∷ 0x54 ∷ 0x00 ∷ 0x12 ∷ 0x34 ∷ 0x56 ∷ 0x08 ∷ 0x00
    ∷ 0x45 ∷ 0x00 ∷ 0x00 ∷ 0x1c ∷ 0x00 ∷ 0x00 ∷ 0x00 ∷ 0x00 ∷ 0x40 ∷ 0x11 ∷ 0x00 ∷ 0x00 ∷ 0x0a
    ∷ 0x00 ∷ 0x02 ∷ 0x0f ∷ 0xff ∷ 0xff ∷ 0xff ∷ 0xff ∷ 0x12 ∷ 0x34 ∷ 0x43 ∷ 0x21 ∷ 0x00 ∷ 0x08
    ∷ 0x00 ∷ 0x00 ∷ []

abbrev hex_spaced : List ℕ → List ℕ
hex_spaced [] = []
hex_spaced (x ∷ xs) = terminal_hex8 x ++ (b' ' ∷ hex_spaced xs)

unfoldable pub test_network : Act
test_network = do
  say (ascii "Testing network send...\n")
  say (hex_spaced udp_data ++ ascii "\n")
  sent ← network_send_packet udp_data 42
  say (if sent then ascii "Packet sent successfully\n" else ascii "Failed to send packet\n")

unfoldable pub show_card : Act
show_card = do
  clear_screen
  dev ← gets (λ m. m.net_dev)
  say (
      ascii "\n--- Basic Network Test ---\n\n1. Network Card Status:\n   IP Address: "
      ++ (terminal_ip dev.ip_addr
          ++ (ascii "\n   MAC Address: "
              ++ (hex_joined (ascii ":") (mac_bytes dev.mac_addr)
                  ++ (ascii "\n   Gateway: " ++ (terminal_ip dev.gateway ++ ascii "\n\n"))))))
  say (ascii "2. Test ARP - Resolving Gateway MAC Address:\n   Sending ARP request...\n")

-- The loop of 50000000 turns, of which each ten-millionth does something, with `left` of those to
-- go: the address, zero until it is resolved.
unfoldable pub poll_gateway : Unset → ℕ → M Machine Mac
poll_gateway unset zero = pure zero_mac
poll_gateway unset (suc left) = do
  check_rx_buffer unset.behind unset.buffer
  dev ← gets (λ m. m.net_dev)
  found ← arp_resolve dev.gateway
  elim found [
    | some mac ↦ (do
      say (
          ascii "   Success! Gateway MAC: "
          ++ (hex_joined (ascii ":") (mac_bytes mac) ++ ascii "\n\n"))
      pure mac)
    | none ↦ poll_gateway unset left
  ]

abbrev pub is_zero_mac : Mac → Bool
is_zero_mac a =
    (a.m0 == 0) && ((a.m1 == 0) && ((a.m2 == 0) && ((a.m3 == 0) && ((a.m4 == 0) && (a.m5 == 0)))))

unfoldable pub ping_gateway : Mac → Act
ping_gateway gateway_mac =
    if is_zero_mac gateway_mac
    then say (
        ascii
          "   Failed: Could not get gateway MAC address\n\nCannot proceed with ping test without gateway MAC address.\n")
    else (do
      say (ascii "Preparing to send ICMP echo requests to host...\n")
      dev ← gets (λ m. m.net_dev)
      send_icmp_echo_request dev.gateway)

abbrev pub set_debug : Bool → Act
set_debug off = modify (λ m. record m { disable_rtl_debug = off })

unfoldable pub test_network_basics : Unset → Act
test_network_basics unset = do
  show_card
  original_debug_setting ← gets (λ m. m.disable_rtl_debug)
  set_debug false
  dev ← gets (λ m. m.net_dev)
  sent ← send_arp_request dev.gateway
  say (ascii "   Waiting for ARP reply...\n")
  gateway_mac ← poll_gateway unset 5
  set_debug original_debug_setting
  ping_gateway gateway_mac

unfoldable pub test_http_request : Act
test_http_request = say (
    ascii
      "Testing HTTP Send...\nHTTP request prepared: GET / HTTP/1.1\r\nHost: example.com\r\nConnection: close\r\n\r\n\n(HTTP send feature not implemented yet)\n")
