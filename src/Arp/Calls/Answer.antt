-- ===== src/Arp/Calls/Answer.antt =====
-- The answer to an ARP request, as its receiver sees it.
use aimini_os.Base.{ℕ, ◌+◌, ◌^◌, ◌≡◌, ◌<◌, ◌≤◌, refl, true, some, List, ◌++◌, length, arith}
use aimini_os.ByteOrder.{ntohs, ntohl}
use aimini_os.ByteOrder.Laws.{ntoh-hton}
use aimini_os.Layout.{Mac, EthHeader, ArpPacket, read_eth, read_arp, eth_bytes, arp_bytes}
use aimini_os.Layout.Roundtrip.{IsMac, IsEth, IsArp, read_eth-eth_bytes, read_arp-arp_bytes}
use aimini_os.Machine.{Machine}
use aimini_os.Rtl8139.Send.Laws.{IsNic}
use aimini_os.Arp.Calls.{is_ethernet_ipv4, reply_eth, reply_arp, handle_arp_packet}
use aimini_os.Arp.Calls.Replies.{Sends, noted, answer_to, asks_us, handle_arp_packet-Sends}
use aimini_os.Arp.Calls.Frames.{reply_eth-IsEth, reply_arp-IsArp}

-- `frame` is a reply of the machine with `own` and `own_ip` to the request with the two headers, with
-- the bytes `rest` behind it.
pub record IsArpReply (own : Mac) (own_ip : ℕ) (eth : EthHeader) (a : ArpPacket)
    (rest frame : List ℕ) : Type 0 where
  pub eth' : EthHeader
  pub arp' : ArpPacket
  pub packet : List ℕ
  pub eth_read : read_eth frame ≡ some (eth', packet)
  pub arp_read : read_arp packet ≡ some (arp', rest)
  pub to_mac : eth'.dest_mac ≡ eth.src_mac
  pub from_mac : eth'.src_mac ≡ own
  pub frame_type : eth'.eth_type ≡ eth.eth_type
  pub hardware_type : arp'.hardware_type ≡ a.hardware_type
  pub protocol_type : arp'.protocol_type ≡ a.protocol_type
  pub hardware_size : arp'.hardware_size ≡ a.hardware_size
  pub protocol_size : arp'.protocol_size ≡ a.protocol_size
  pub reply : ntohs arp'.opcode ≡ 2
  pub sender_mac : arp'.sender_mac ≡ own
  pub sender_ip : ntohl arp'.sender_ip ≡ own_ip
  pub target_mac : arp'.target_mac ≡ a.sender_mac
  pub target_ip : arp'.target_ip ≡ a.sender_ip

answer_to-IsArpReply :
    (m : Machine) (eth : EthHeader) (a : ArpPacket) (rest : List ℕ)
    → IsMac m.net_dev.mac_addr
    → m.net_dev.ip_addr < 2 ^ 32
    → IsEth eth
    → IsArp a
    → IsArpReply m.net_dev.mac_addr m.net_dev.ip_addr eth a rest (answer_to m eth a rest)
unfolding reply_eth reply_arp
answer_to-IsArpReply m eth a rest own p ve va = record {
  eth' = reply_eth m.net_dev.mac_addr eth;
  arp' = reply_arp m.net_dev.mac_addr m.net_dev.ip_addr a;
  packet = arp_bytes (reply_arp m.net_dev.mac_addr m.net_dev.ip_addr a) ++ rest;
  eth_read =
      read_eth-eth_bytes (reply_eth m.net_dev.mac_addr eth) _
        (reply_eth-IsEth m.net_dev.mac_addr eth own ve);
  arp_read =
      read_arp-arp_bytes (reply_arp m.net_dev.mac_addr m.net_dev.ip_addr a) rest
        (reply_arp-IsArp m.net_dev.mac_addr m.net_dev.ip_addr a own p va);
  to_mac = refl;
  from_mac = refl;
  frame_type = refl;
  hardware_type = refl;
  protocol_type = refl;
  hardware_size = refl;
  protocol_size = refl;
  reply = (ntoh-hton 2 0 (omega arith) (omega arith)).0;
  sender_mac = refl;
  sender_ip = (ntoh-hton 0 m.net_dev.ip_addr (omega arith) p).1;
  target_mac = refl;
  target_ip = refl;
}

-- With well-formed statics of the driver and addresses that fit their widths, a valid ARP request
-- for our address, in a frame of 42 to 1536 bytes, all in memory, is answered: the table is updated
-- with the sender, and the packet is turned in place into a frame of which the first `n` bytes go to
-- the card. A receiver reads it as an ARP reply, with the frame's sender as its destination, from our
-- two addresses to the two addresses of the request's sender, and with what stood behind the request
-- behind it. Nothing else changes but the console, the port history and the transmit buffers.
pub handle_arp_packet-IsArpReply :
    (eth : EthHeader) (a : ArpPacket) (rest : List ℕ) (n : ℕ) (m : Machine)
    → IsNic m.nic
    → IsMac m.net_dev.mac_addr
    → m.net_dev.ip_addr < 2 ^ 32
    → IsEth eth
    → IsArp a
    → is_ethernet_ipv4 a ≡ true
    → asks_us m a ≡ true
    → 42 ≤ n
    → n ≤ 1536
    → n ≤ 42 + length rest
    → (frame : List ℕ) × IsArpReply m.net_dev.mac_addr m.net_dev.ip_addr eth a rest frame
      × Sends m
          (noted a m.arp_cache)
          frame
          n
          frame
          (handle_arp_packet (eth_bytes eth ++ (arp_bytes a ++ rest)) n m)
handle_arp_packet-IsArpReply eth a rest n m v own p ve va format asks large small enough = (
  answer_to m eth a rest,
  answer_to-IsArpReply m eth a rest own p ve va,
  handle_arp_packet-Sends eth a rest n m v ve va format asks large small enough,
)
