-- ===== src/Kernel/Gateway/Tests.antt =====
-- The host answers the request for its address.
use aimini_os.Base.{
  ◌≡◌, ◌<◌, refl, [], ◌++◌, ◌∷◌, ◌==◌, length, if◌then◌else◌, arith, replicate, sym, true, false,
  ◌&&◌,
}
use aimini_os.ByteOrder.{htons, ntohs, ntohl}
use aimini_os.ByteOrder.Laws.{htons-lt, htonl-lt, ntoh-hton}
use aimini_os.Layout.{ArpPacket, eth_bytes, arp_bytes}
use aimini_os.Layout.Roundtrip.{IsArp}
use aimini_os.Machine.{Machine}
use aimini_os.Samples.{
  guest, host_mac, host_mac-IsMac, qemu_mac-IsMac, frame_to_guest, frame_to_guest-IsEth,
  arp_of_host, no_stack,
}
use aimini_os.Arp.Cache.{zero_cache, clear_entries}
use aimini_os.Arp.Cache.Unique.{IsUnique-clear_entries}
use aimini_os.Arp.Calls.{is_ethernet_ipv4}
use aimini_os.Arp.Calls.Replies.{noted}
use aimini_os.Ring.{bytes_avail, rx_offset_of}
use aimini_os.Ring.Empty.{answer_capr, answer_cbr}
use aimini_os.Ring.Frame.{IsFrame}
use aimini_os.Ring.Learn.{IsNews}
use aimini_os.Kernel.{Unset, wait_gateway}
use aimini_os.Kernel.Gateway.{IsFound, wait_gateway-IsFound}

abbrev unset : Unset
unset = record { beyond = no_stack; heap = λ a. []; behind = λ i. []; buffer = [] }

abbrev reply : ArpPacket
reply = record (arp_of_host 0x0800 0x0a00020f) { opcode = htons 2 }

reply-IsArp : IsArp reply
reply-IsArp = record {
  hardware_type = htons-lt 1;
  protocol_type = htons-lt 0x0800;
  hardware_size = omega arith;
  protocol_size = omega arith;
  opcode = htons-lt 2;
  sender_mac = host_mac-IsMac;
  sender_ip = htonl-lt 0x0a000202 (omega arith);
  target_mac = qemu_mac-IsMac;
  target_ip = htonl-lt 0x0a00020f (omega arith);
}

-- The guest with the reply in its ring; the card's write pointer is 100.
abbrev waiting : Machine
waiting = record guest {
  device = λ asked. if length asked == 2 then 100 else 0;
  arp_cache = clear_entries zero_cache;
  rx_memory =
      replicate 16 0
      ++ (1 ∷ 0 ∷ 46 ∷ 0 ∷ eth_bytes (frame_to_guest 0x0806) ++ (arp_bytes reply ++ []));
}

waiting_offset : rx_offset_of (answer_capr waiting) ≡ 16
unfolding rx_offset_of
waiting_offset = refl

waiting_avail : bytes_avail (answer_capr waiting) (answer_cbr waiting) ≡ 100
unfolding bytes_avail
waiting_avail = refl

reply-IsFrame :
    IsFrame waiting.rx_memory
      (rx_offset_of (answer_capr waiting))
      46
      (eth_bytes (frame_to_guest 0x0806) ++ (arp_bytes reply ++ []))
reply-IsFrame = record {
  before = replicate 16 0;
  status_low = 1;
  status_high = 0;
  size_low = 46;
  size_high = 0;
  memory = refl;
  place = sym waiting_offset;
  status = refl;
  sized = refl;
}

reply_format : is_ethernet_ipv4 reply ≡ true
unfolding is_ethernet_ipv4
reply_format = rw (
  (ntoh-hton 1 0 (omega arith) (omega arith)).0,
  (ntoh-hton 0x0800 0 (omega arith) (omega arith)).0,
)

reply_other :
    ((ntohs reply.opcode == 1) && (ntohl reply.target_ip == waiting.net_dev.ip_addr)) ≡ false
reply_other = rw (ntoh-hton 2 0 (omega arith) (omega arith)).0 refl

reply-IsNews : IsNews waiting.net_dev.ip_addr (frame_to_guest 0x0806) reply 46
reply-IsNews = record {
  is_eth = frame_to_guest-IsEth 0x0806;
  is_arp = reply-IsArp;
  arp_type = (ntoh-hton 0x0806 0 (omega arith) (omega arith)).0;
  format = reply_format;
  other = reply_other;
  least = omega arith;
  most = omega arith;
}

waiting_slots : 0 < length waiting.arp_cache
unfolding clear_entries
waiting_slots = omega arith

wait_gateway-IsFound_example :
    IsFound waiting host_mac (noted reply waiting.arp_cache) (wait_gateway unset 20 waiting)
wait_gateway-IsFound_example =
    wait_gateway-IsFound unset 19 (frame_to_guest 0x0806) reply [] 46 waiting refl
      (IsUnique-clear_entries zero_cache) waiting_slots (omega (arith, waiting_avail)) reply-IsFrame
      reply-IsNews (ntoh-hton 0 0x0a000202 (omega arith) (omega arith)).1
