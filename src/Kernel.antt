-- ===== src/Kernel.antt =====
-- kernel.c: the order of the initialisation, the search for the gateway, and the main loop.
pub mod Checks
pub mod Loop
pub mod Pings
pub mod Echo
pub mod Gateway
pub mod Output
pub mod Boot
pub mod Safe
mod Tests
use aimini_os.Base.{
  ℕ, zero, suc, ◌+◌, ◌-◌, ◌*◌, ◌^◌, Bool, true, false, ◌&&◌, Option, none, some, List, [], ◌∷◌,
  ◌++◌, leb, if◌then◌else◌, M, gets, pure, skip, ◌>>=◌, ◌>>◌, u32,
}
use aimini_os.Format.{ascii, terminal_ip, serial_ip}
use aimini_os.Layout.{Mac, mac_bytes}
use aimini_os.Machine.{Machine, Act, say, serial, clear_screen}
use aimini_os.Interrupts.{pic_init}
use aimini_os.Serial.{serial_init}
use aimini_os.Pci.Scan.{rtl8139_vendor_id, rtl8139_device_id, pci_init, pci_find_device}
use aimini_os.Rtl8139.Init.{rtl8139_init}
use aimini_os.Arp.Calls.{arp_init, send_arp_request, get_mac_from_cache, serial_mac}
use aimini_os.Network.Setup.{network_init}
use aimini_os.Network.Icmp.Request.{send_icmp_echo_request}
use aimini_os.Ring.{check_rx_buffer}

-- What memory that the program does not set holds: behind the buffer of `print_hex`, on the heap,
-- behind a `char` that is printed as a string, and in the buffer of `send_icmp_echo_reply`.
pub record Unset : Type 0 where
  pub beyond : Machine → List ℕ
  pub heap : ℕ → List ℕ
  pub behind : ℕ → List ℕ
  pub buffer : List ℕ

-- `terminal_initialize` does what `terminal_clear` does; the tables of `gdt_install` and
-- `idt_install` are not part of the machine, what they write to ports is.
unfoldable pub before_serial : Act
before_serial = do
  clear_screen
  say (ascii "MiniOS Booting...\nGDT initialized\n")
  pic_init
  say (ascii "IDT initialized\n")

unfoldable pub install_tables : Act
install_tables = do before_serial; serial_init; serial (ascii "Serial port initialized\r\n")

unfoldable pub start_network : Unset → ℕ → ℕ → Act
start_network unset bus slot = do
  rtl8139_init unset.beyond unset.heap bus slot
  say (ascii "RTL8139 initialized\n")
  arp_init
  say (ascii "ARP initialized\n")
  network_init

unfoldable pub welcome : Act
welcome = do
  clear_screen
  say (
      ascii
        "\n\n======================================\n     MiniOS ICMP Client Demo     \n======================================\n\nSystem IP: ")
  dev ← gets (λ m. m.net_dev)
  say (
      terminal_ip dev.ip_addr
      ++ (ascii
            "\n\nThis system will send 'hello, world' PING\nrequests to host and display responses.\n\nHost IP (gateway): "
          ++ (terminal_ip dev.gateway
              ++ ascii
                  "\n\nPreparing to send PING requests...\n======================================\n")))
  serial (
      ascii
        "\r\n=== MiniOS ICMP Client Ready ===\r\nSystem will send PING with 'hello, world' to host\r\nSystem IP: "
      ++ (serial_ip dev.ip_addr
          ++ (ascii "\r\nTarget IP (gateway): " ++ (serial_ip dev.gateway ++ ascii "\r\n"))))
  serial (ascii "Sending ARP request to resolve gateway MAC...\r\n")

unfoldable pub show_gateway : Mac → Act
show_gateway mac = do
  serial
      (ascii "Gateway MAC resolved successfully: " ++ (serial_mac (mac_bytes mac) ++ ascii "\r\n"))
  say (ascii "Network connectivity: GOOD\nGateway (10.0.2.2) is reachable\n\n")

-- The loop that waits for the gateway's address, with `left` turns to go: whether it came.
unfoldable pub wait_gateway : Unset → ℕ → M Machine Bool
wait_gateway unset zero = pure false
wait_gateway unset (suc left) = do
  check_rx_buffer unset.behind unset.buffer
  dev ← gets (λ m. m.net_dev)
  found ← get_mac_from_cache dev.gateway
  elim found [ some mac ↦ (do show_gateway mac; pure true) | none ↦ wait_gateway unset left ]

unfoldable pub first_ping : Bool → Act
first_ping gateway_resolved =
    if gateway_resolved
    then (do
      say (ascii "Sending PING request to host...\n\n")
      dev ← gets (λ m. m.net_dev)
      send_icmp_echo_request dev.gateway)
    else (do
      serial (ascii "Warning: Failed to resolve gateway MAC\r\n")
      say (
          ascii
            "Warning: Gateway (10.0.2.2) not responding to ARP\nCannot send PING without gateway MAC address\n"))

-- From the welcome to the main loop.
unfoldable pub find_gateway : Unset → M Machine Bool
find_gateway unset = do
  welcome
  dev ← gets (λ m. m.net_dev)
  sent ← send_arp_request dev.gateway
  gateway_resolved ← wait_gateway unset 20
  first_ping gateway_resolved
  serial (
      ascii
        "\r\n=== System ready ===\r\nSending pings to gateway 10.0.2.2\r\n======================================\r\n\r\n")
  pure gateway_resolved

-- From the result of the search for the card on.
unfoldable pub with_card : Unset → Option (ℕ × ℕ) → M Machine (Option Bool)
with_card unset none = do say (ascii "RTL8139 not found!\n"); pure none
with_card unset (some place) = do
  start_network unset place.0 place.1
  gateway_resolved ← find_gateway unset
  pure (some gateway_resolved)

-- `kernel_main` up to its main loop, with `gateway_resolved`; `none` is its early return.
unfoldable pub boot : Unset → M Machine (Option Bool)
boot unset = do
  install_tables
  pci_init unset.beyond
  say (ascii "PCI initialized\n")
  found ← pci_find_device rtl8139_vendor_id rtl8139_device_id
  with_card unset found

abbrev pub ping_interval : ℕ
ping_interval = 20000000

unfoldable pub periodic_ping : Act
periodic_ping = do
  serial (ascii "\r\nSending periodic PING to gateway...\r\n")
  say (ascii "\nSending new PING request to host...\n")
  dev ← gets (λ m. m.net_dev)
  send_icmp_echo_request dev.gateway

-- One turn of the main loop, from a `ping_timer` to the next.
unfoldable pub main_turn : Unset → Bool → ℕ → M Machine ℕ
main_turn unset gateway_resolved ping_timer = do
  check_rx_buffer unset.behind unset.buffer
  let timer = u32 (ping_timer + 1)
  if leb ping_interval timer && gateway_resolved then (do periodic_ping; pure 0) else pure timer
