-- ===== src/Samples.antt =====
-- Machines and packets for the tests.
use aimini_os.Base.{
  ℕ, ◌^◌, ◌<◌, ◌≡◌, refl, List, [], ◌∷◌, replicate, length-replicate, true, length, arith, ◌==◌,
  if◌then◌else◌,
}
use aimini_os.ByteOrder.{htons, htonl}
use aimini_os.ByteOrder.Laws.{htons-lt, htonl-lt}
use aimini_os.Layout.{Mac, EthHeader, ArpPacket, Ipv4Header, IcmpHeader}
use aimini_os.Layout.Roundtrip.{IsMac, IsEth, IsArp, IsIpv4, IsIcmp}
use aimini_os.Terminal.{Terminal}
use aimini_os.Machine.{PortEvent, port_in, port_out, Machine, Nic}
use aimini_os.Rtl8139.Send.Laws.{IsNic}
use aimini_os.Arp.Cache.{zero_cache}

abbrev pub empty_screen : Terminal
empty_screen = record { cursor_x = 0; cursor_y = 0; vga = λ _. 0 }

-- The end of the last line.
abbrev pub last_cell : Terminal
last_cell = record { cursor_x = 79; cursor_y = 24; vga = λ i. i }

abbrev pub qemu_mac : Mac
qemu_mac = record { m0 = 0x52; m1 = 0x54; m2 = 0x00; m3 = 0x12; m4 = 0x34; m5 = 0x56 }

abbrev pub host_mac : Mac
host_mac = record { m0 = 0x52; m1 = 0x55; m2 = 0x0a; m3 = 0x00; m4 = 0x02; m5 = 0x02 }

pub qemu_mac-IsMac : IsMac qemu_mac
qemu_mac-IsMac = (omega arith, omega arith, omega arith, omega arith, omega arith, omega arith)

pub host_mac-IsMac : IsMac host_mac
host_mac-IsMac = (omega arith, omega arith, omega arith, omega arith, omega arith, omega arith)

abbrev pub idle_nic : Nic
idle_nic = record {
  bus = 0;
  slot = 3;
  iobase = 0xc000;
  rx_buffer = 0x200000;
  tx_address = 0x104000;
  tx_buffer = replicate 4 (replicate 1536 0);
  current_tx_buffer = 3;
}

pub idle_nic-IsNic : IsNic idle_nic
idle_nic-IsNic =
    let size : length {A = ℕ} (replicate 1536 0) ≡ 1536 = length-replicate {A = ℕ} 1536 0 in
    record { buffers = refl; sizes = (size, (size, (size, (size, tt)))); current = omega arith }

-- A machine with an empty table, after `network_init`; its card answers every read with 0.
abbrev pub machine_at : Mac → ℕ → Machine
machine_at own ip = record {
  device = λ _. 0;
  ports = [];
  console = record { screen = empty_screen; uart = [] };
  nic = idle_nic;
  rx_memory = [];
  heap_end = 0x200000;
  disable_rtl_debug = true;
  net_dev = record {
    mac_addr = own;
    ip_addr = ip;
    netmask = 0xffffff00;
    gateway = 0x0a000202;
    mtu = 1500;
  };
  arp_cache = zero_cache;
}

abbrev pub guest : Machine
guest = machine_at qemu_mac 0x0a00020f

abbrev pub host : Machine
host = machine_at host_mac 0x0a000202

abbrev pub frame_to_guest : ℕ → EthHeader
frame_to_guest type = record { dest_mac = qemu_mac; src_mac = host_mac; eth_type = htons type }

pub frame_to_guest-IsEth : (type : ℕ) → IsEth (frame_to_guest type)
frame_to_guest-IsEth type = record {
  dest = qemu_mac-IsMac;
  src = host_mac-IsMac;
  eth_type = htons-lt type;
}

-- An ARP packet from the host.
abbrev pub arp_of_host : ℕ → ℕ → ArpPacket
arp_of_host protocol target = record {
  hardware_type = htons 1;
  protocol_type = htons protocol;
  hardware_size = 6;
  protocol_size = 4;
  opcode = htons 1;
  sender_mac = host_mac;
  sender_ip = htonl 0x0a000202;
  target_mac = qemu_mac;
  target_ip = htonl target;
}

pub arp_of_host-IsArp :
    (protocol target : ℕ) → target < 2 ^ 32 → IsArp (arp_of_host protocol target)
arp_of_host-IsArp protocol target h = record {
  hardware_type = htons-lt 1;
  protocol_type = htons-lt protocol;
  hardware_size = omega arith;
  protocol_size = omega arith;
  opcode = htons-lt 1;
  sender_mac = host_mac-IsMac;
  sender_ip = htonl-lt 0x0a000202 (omega arith);
  target_mac = qemu_mac-IsMac;
  target_ip = htonl-lt target h;
}

-- A datagram of the host with an ICMP message of 8 bytes and a payload of 4.
abbrev pub datagram_to : ℕ → Ipv4Header
datagram_to target = record {
  version_ihl = 0x45;
  dscp_ecn = 0;
  total_length = htons 32;
  identification = 0x1234;
  flags_fragment_offset = 0;
  ttl = 64;
  protocol = 1;
  checksum = 0;
  src_ip = htonl 0x0a000202;
  dst_ip = htonl target;
}

pub datagram_to-IsIpv4 : (target : ℕ) → target < 2 ^ 32 → IsIpv4 (datagram_to target)
datagram_to-IsIpv4 target h = record {
  version_ihl = omega arith;
  dscp_ecn = omega arith;
  total_length = htons-lt 32;
  identification = omega arith;
  flags_fragment_offset = omega arith;
  ttl = omega arith;
  protocol = omega arith;
  checksum = omega arith;
  src_ip = htonl-lt 0x0a000202 (omega arith);
  dst_ip = htonl-lt target h;
}

abbrev pub ping : IcmpHeader
ping = record { icmp_type = 8; code = 0; checksum = 0; identifier = 7; sequence = 256 }

pub ping-IsIcmp : IsIcmp ping
ping-IsIcmp = record {
  icmp_type = omega arith;
  code = omega arith;
  checksum = omega arith;
  identifier = omega arith;
  sequence = omega arith;
}

abbrev pub four_bytes : List ℕ
four_bytes = b'p' ∷ b'i' ∷ b'n' ∷ b'g' ∷ []

-- A card at bus 0, slot 3: vendor and device, I/O range 0xc000, and no other function.
abbrev pub card_space : ℕ → ℕ
card_space a =
    if a == 0x80001800
    then 0x813910ec
    else if a == 0x80001810
    then 0xc001
    else if a == 0x80001804
    then 0x02900003
    else 0xffffffff

-- The host bridge with that card, whose command register always shows it enabled.
abbrev pub bridge : List PortEvent → ℕ
bridge (port_in w p ∷ port_out v q a ∷ h) =
    if p == 0xcfc then card_space a else if p == 0xc037 then 0x0c else 0
bridge (port_in w p ∷ h) = if p == 0xc037 then 0x0c else 0
bridge h = 0

-- Nothing but a zero byte behind the buffers on the stack.
abbrev pub no_stack : Machine → List ℕ
no_stack m = []
