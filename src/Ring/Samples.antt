-- ===== src/Ring/Samples.antt =====
-- A ping in the receive ring, for the tests.
use aimini_os.Machine.{Machine}
use aimini_os.ByteOrder.Laws.{ntoh-hton}
use aimini_os.Network.Icmp.Reply.{packet_of}
use aimini_os.Ring.{bytes_avail, rx_offset_of}
use aimini_os.Ring.Answer.{IsPing}
use aimini_os.Ring.Empty.{answer_capr, answer_cbr}
use aimini_os.Base.{◌==◌, ◌++◌, ◌∷◌, length, sym, if◌then◌else◌, ◌≡◌, refl, arith, replicate}
use aimini_os.Samples.{
  guest, frame_to_guest, frame_to_guest-IsEth, datagram_to, datagram_to-IsIpv4, ping, ping-IsIcmp,
  four_bytes,
}

-- The guest, with a ping in its ring; the card's write pointer is 100.
abbrev pub pinged : Machine
pinged = record guest {
  device = λ asked. if length asked == 2 then 100 else 0;
  rx_memory =
      replicate 16 0
      ++ (1
          ∷ 0
          ∷ 50
          ∷ 0
          ∷ packet_of (frame_to_guest 0x0800) (datagram_to 0x0a00020f) ping four_bytes);
}

pub pinged_capr : rx_offset_of (answer_capr pinged) ≡ 16
unfolding rx_offset_of
pinged_capr = refl

pub pinged_avail : bytes_avail (answer_capr pinged) (answer_cbr pinged) ≡ 100
unfolding bytes_avail
pinged_avail = refl

pub pinged-IsPing :
    IsPing pinged.rx_memory 0x0a00020f
      (rx_offset_of (answer_capr pinged))
      50
      (frame_to_guest 0x0800)
      (datagram_to 0x0a00020f)
      ping
      four_bytes
pinged-IsPing = record {
  frame = record {
    before = replicate 16 0;
    status_low = 1;
    status_high = 0;
    size_low = 50;
    size_high = 0;
    memory = refl;
    place = sym pinged_capr;
    status = refl;
    sized = refl;
  };
  least = omega arith;
  packet = record {
    is_eth = frame_to_guest-IsEth 0x0800;
    is_ip = datagram_to-IsIpv4 0x0a00020f (omega arith);
    is_icmp = ping-IsIcmp;
    least = omega arith;
    most = omega arith;
    held = omega arith;
  };
  is_ip = (ntoh-hton 0x0800 0 (omega arith) (omega arith)).0;
  for_us = (ntoh-hton 0 0x0a00020f (omega arith) (omega arith)).1;
  protocol = refl;
  asks = refl;
}
