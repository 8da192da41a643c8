-- ===== src/Arp/Calls/Replies.antt =====
-- What `handle_arp_packet` does with each kind of packet.
use aimini_os.Base.{
  ℕ, ◌+◌, ◌≤◌, ◌<◌, ◌≡◌, ◌∙◌, Bool, true, false, ◌&&◌, Option, some, List, ◌++◌, ◌==◌, get_elem?,
  length, arith, then_lem, le→ltb, lt→ltb,
}
use aimini_os.ByteOrder.{ntohs, ntohl}
use aimini_os.Layout.{EthHeader, ArpPacket, eth_bytes, arp_bytes}
use aimini_os.Layout.Roundtrip.{IsEth, IsArp, read_eth-eth_bytes, read_arp-arp_bytes}
use aimini_os.Format.{ascii, serial_ip}
use aimini_os.Console
use aimini_os.Console.{Console}
use aimini_os.Machine.{PortEvent, Machine}
use aimini_os.Rtl8139.Send.{rtl8139_send_packet}
use aimini_os.Rtl8139.Send.Laws.{IsNic, Transmits, filled, sent_nic, rtl8139_send_packet-IsSent}
use aimini_os.Network.Link.{network_send_packet}
use aimini_os.Arp.Cache.{ArpCache, update_entries, result}
use aimini_os.Arp.Calls.{
  arp_request, is_ethernet_ipv4, reply_eth, reply_arp, send_arp_reply, arp_text, update_text,
  update_arp_cache, take_arp, handle_arp_packet,
}

-- The table after the sender of `a` was noted.
abbrev pub noted : ArpPacket → ArpCache → ArpCache
noted a cache = result (update_entries (ntohl a.sender_ip) a.sender_mac cache)

-- The bytes of the reply to a packet.
abbrev pub answer_to : Machine → EthHeader → ArpPacket → List ℕ → List ℕ
answer_to m eth a rest =
    eth_bytes (reply_eth m.net_dev.mac_addr eth)
    ++ (arp_bytes (reply_arp m.net_dev.mac_addr m.net_dev.ip_addr a) ++ rest)

-- A return with `value` that handed the first `n` bytes of `frame` to the card, has the table
-- `cache`, printed, and changed nothing else.
pub record Sends {A : Type 0} (m : Machine) (cache : ArpCache) (frame : List ℕ) (n : ℕ) (value : A)
    (returned : Option (A × Machine)) : Type 0 where
  pub row : List ℕ
  pub console : Console
  pub ports : List PortEvent
  pub held : get_elem? m.nic.tx_buffer m.nic.current_tx_buffer ≡ some row
  pub returns :
      returned
      ≡ some (
        value,
        record m {
          console = console;
          ports = ports;
          nic = sent_nic m.nic (filled frame n row);
          arp_cache = cache;
        },
      )
  pub transmits : Transmits m.nic n m.ports ports

pub network_send_packet-Sends :
    (frame : List ℕ) (n : ℕ) (m : Machine)
    → IsNic m.nic
    → n ≤ 1536
    → n ≤ length frame
    → Sends m m.arp_cache frame n true (network_send_packet frame n m)
unfolding network_send_packet
network_send_packet-Sends frame n m v small enough =
    let s = rtl8139_send_packet-IsSent frame n m v small enough in
    record {
      row = s.row;
      console = s.console;
      ports = s.ports;
      held = s.held;
      returns = then_lem (rtl8139_send_packet frame n) _ s.returns;
      transmits = s.transmits;
    }

send_arp_reply-Sends :
    (eth : EthHeader) (a : ArpPacket) (rest : List ℕ) (n : ℕ) (m : Machine)
    → IsNic m.nic
    → n ≤ 1536
    → n ≤ 42 + length rest
    → Sends m m.arp_cache
        (answer_to m eth a rest)
        n
        (answer_to m eth a rest)
        (send_arp_reply eth a rest n m)
unfolding send_arp_reply
send_arp_reply-Sends eth a rest n m v small enough =
    let answer : List ℕ = answer_to m eth a rest in
    let s = network_send_packet-Sends answer n (record m { console = _ }) v small (omega arith) in
    record {
      row = s.row;
      console = _;
      ports = s.ports;
      held = s.held;
      returns = then_lem (network_send_packet answer n) _ s.returns;
      transmits = s.transmits;
    }

-- The packet as `handle_arp_packet` reads it.
handle_arp_packet-take_arp :
    (eth : EthHeader) (a : ArpPacket) (rest : List ℕ) (n : ℕ) (m : Machine)
    → IsEth eth
    → IsArp a
    → 42 ≤ n
    → handle_arp_packet (eth_bytes eth ++ (arp_bytes a ++ rest)) n m
      ≡ take_arp eth a rest (eth_bytes eth ++ (arp_bytes a ++ rest)) n m
unfolding handle_arp_packet
handle_arp_packet-take_arp eth a rest n m ve va enough = rw (
  le→ltb n 42 enough,
  read_eth-eth_bytes eth (arp_bytes a ++ rest) ve,
  read_arp-arp_bytes a rest va,
)

-- The console after the packet and the update were logged.
abbrev logged : Machine → ArpPacket → Console
logged m a =
    Console.serial
      (update_text (update_entries (ntohl a.sender_ip) a.sender_mac m.arp_cache)
        ++ (serial_ip (ntohl a.sender_ip) ++ ascii "\r\n"))
      (Console.serial (arp_text a) m.console)

-- The packet asks for the address of this machine.
abbrev pub asks_us : Machine → ArpPacket → Bool
asks_us m a = (ntohs a.opcode == arp_request) && (ntohl a.target_ip == m.net_dev.ip_addr)

-- With well-formed statics of the driver, a valid ARP request for our address, in a frame of 42 to
-- 1536 bytes, all in memory, is answered: the table is updated with the sender, the packet is
-- turned into the reply in place, and its bytes are handed to the card; nothing else changes but
-- the console, the port history and the transmit buffers.
pub handle_arp_packet-Sends :
    (eth : EthHeader) (a : ArpPacket) (rest : List ℕ) (n : ℕ) (m : Machine)
    → IsNic m.nic
    → IsEth eth
    → IsArp a
    → is_ethernet_ipv4 a ≡ true
    → asks_us m a ≡ true
    → 42 ≤ n
    → n ≤ 1536
    → n ≤ 42 + length rest
    → Sends m
        (noted a m.arp_cache)
        (answer_to m eth a rest)
        n
        (answer_to m eth a rest)
        (handle_arp_packet (eth_bytes eth ++ (arp_bytes a ++ rest)) n m)
unfolding take_arp update_arp_cache
handle_arp_packet-Sends eth a rest n m v ve va format asks large small enough =
    let s =
      send_arp_reply-Sends eth a rest n
        (record m { console = logged m a; arp_cache = noted a m.arp_cache }) v small enough in
    record {
      row = s.row;
      console = s.console;
      ports = s.ports;
      held = s.held;
      returns = handle_arp_packet-take_arp eth a rest n m ve va large ∙ rw (format, asks) s.returns;
      transmits = s.transmits;
    }

-- A return with the packet unchanged, the table `cache`, and nothing else done but printing.
abbrev pub Keeps : Machine → ArpCache → List ℕ → Option (List ℕ × Machine) → Type 0
Keeps m cache packet returned =
    (console : Console) × (returned
      ≡ some (packet, record m { console = console; arp_cache = cache }))

-- A valid ARP packet that is no request for our address, in a frame of at least 42 bytes, only
-- updates the table with its sender: it is not changed and no frame is sent.
pub handle_arp_packet-Keeps :
    (eth : EthHeader) (a : ArpPacket) (rest : List ℕ) (n : ℕ) (m : Machine)
    → IsEth eth
    → IsArp a
    → is_ethernet_ipv4 a ≡ true
    → asks_us m a ≡ false
    → 42 ≤ n
    → Keeps m
        (noted a m.arp_cache)
        (eth_bytes eth ++ (arp_bytes a ++ rest))
        (handle_arp_packet (eth_bytes eth ++ (arp_bytes a ++ rest)) n m)
unfolding take_arp update_arp_cache
handle_arp_packet-Keeps eth a rest n m ve va format other large =
    (logged m a, handle_arp_packet-take_arp eth a rest n m ve va large ∙ rw (format, other))

-- A packet whose length is below 42, whatever its bytes, changes neither the table nor itself, and no
-- frame is sent.
pub handle_arp_packet_short :
    (packet : List ℕ) (n : ℕ) (m : Machine)
    → n < 42
    → Keeps m m.arp_cache packet (handle_arp_packet packet n m)
unfolding handle_arp_packet
handle_arp_packet_short packet n m h =
    (Console.print (ascii "ARP packet too short\n") m.console, rw (lt→ltb n 42 h))

-- A packet of at least 42 bytes that is not ARP for Ethernet and IPv4 changes neither the table nor
-- itself, and no frame is sent.
pub handle_arp_packet_invalid :
    (eth : EthHeader) (a : ArpPacket) (rest : List ℕ) (n : ℕ) (m : Machine)
    → IsEth eth
    → IsArp a
    → is_ethernet_ipv4 a ≡ false
    → 42 ≤ n
    → Keeps m m.arp_cache
        (eth_bytes eth ++ (arp_bytes a ++ rest))
        (handle_arp_packet (eth_bytes eth ++ (arp_bytes a ++ rest)) n m)
unfolding take_arp
handle_arp_packet_invalid eth a rest n m ve va bad large = (
  Console.print (ascii "Invalid ARP packet\n") m.console,
  handle_arp_packet-take_arp eth a rest n m ve va large ∙ rw bad,
)
