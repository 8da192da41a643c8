-- ===== src/Network/Icmp/Reply.antt =====
-- What `send_icmp_echo_reply` sends.
use aimini_os.Base.{
  ℕ, zero, suc, ◌+◌, ◌-◌, ◌≡◌, ◌≤◌, refl, ◌∙◌, ap, Option, some, List, [], ◌∷◌, ◌++◌, arith, take,
  drop, length, length-append, length-take, length-drop, then_lem,
}
use aimini_os.ByteOrder.{ntohs}
use aimini_os.ByteOrder.Laws.{ntoh-hton}
use aimini_os.Layout.{
  EthHeader, Ipv4Header, IcmpHeader, read_eth, read_ipv4, read_icmp, eth_bytes, ipv4_bytes,
  icmp_bytes,
}
use aimini_os.Layout.Roundtrip.{
  IsEth, IsIpv4, IsIcmp, read_eth-eth_bytes, read_ipv4-ipv4_bytes, read_icmp-icmp_bytes,
}
use aimini_os.Format.{ascii}
use aimini_os.Console.{Console}
use aimini_os.Memory.{memcpy}
use aimini_os.Memory.Copy.{memcpy_lem}
use aimini_os.Machine.{Machine, demand}
use aimini_os.Rtl8139.Send.Laws.{IsNic, filled, sent_nic}
use aimini_os.Network.Link.{network_send_packet}
use aimini_os.Arp.Calls.Replies.{Sends, network_send_packet-Sends}
use aimini_os.Network.Icmp.{
  hello_msg, reply_eth, reply_ip, reply_icmp, log_swap, log_reply, log_replied, send_reply,
  send_icmp_echo_reply, with_ip_checksum, with_icmp_checksum,
}

-- The 54 bytes of the reply.
abbrev pub reply_frame : EthHeader → Ipv4Header → IcmpHeader → List ℕ
reply_frame eth ip icmp =
    eth_bytes (reply_eth eth)
    ++ (ipv4_bytes (reply_ip ip) ++ (icmp_bytes (reply_icmp icmp hello_msg) ++ hello_msg))

abbrev pub packet_of : EthHeader → Ipv4Header → IcmpHeader → List ℕ → List ℕ
packet_of eth ip icmp payload = eth_bytes eth ++ (ipv4_bytes ip ++ (icmp_bytes icmp ++ payload))

take_behind :
    (xs ys : List ℕ) (n : ℕ) → length xs ≤ n → take n (xs ++ ys) ≡ xs ++ take (n - length xs) ys
take_behind [] ys n h = ap (λ k. take k ys) (omega arith)
take_behind (x ∷ xs) ys zero h = absurd (omega arith)
take_behind (x ∷ xs) ys (suc n) h =
    ap (λ r. x ∷ r) (take_behind xs ys n (omega arith) ∙ ap (λ k. xs ++ take k ys) (omega arith))

reply_ip_length : (ip : Ipv4Header) → 14 + ntohs (reply_ip ip).total_length ≡ 54
unfolding reply_ip with_ip_checksum
reply_ip_length ip = omega (arith, (ntoh-hton 40 0 (omega arith) (omega arith)).0)

-- A return that printed, and changed nothing else.
abbrev pub Prints : Machine → Option (Unit {0} × Machine) → Type 0
Prints m returned = (console : Console) × (returned ≡ some (tt, record m { console = console }))

log_reply-Prints : (ip : Ipv4Header) (m : Machine) → Prints m (log_reply ip m)
unfolding log_reply
log_reply-Prints ip m = (_, refl)

log_replied-Prints : (ip : Ipv4Header) (m : Machine) → Prints m (log_replied ip m)
unfolding log_replied
log_replied-Prints ip m = (_, refl)

log_swap-Prints : (ip : Ipv4Header) (m : Machine) → Prints m (log_swap ip m)
unfolding log_swap
log_swap-Prints ip m = (_, refl)

send_reply-Sends :
    (eth : EthHeader) (ip : Ipv4Header) (icmp : IcmpHeader) (tail : List ℕ) (m : Machine)
    → IsNic m.nic
    → Sends m m.arp_cache (reply_frame eth ip icmp) 54 tt (
        send_reply
          (reply_eth eth)
          (reply_ip ip)
          (reply_icmp icmp (hello_msg ++ tail))
          (hello_msg ++ tail)
          m)
unfolding send_reply reply_icmp with_icmp_checksum ascii
send_reply-Sends eth ip icmp tail m v =
    let before = log_reply-Prints (reply_ip ip) m in
    let frame : List ℕ =
      eth_bytes (reply_eth eth)
      ++ (ipv4_bytes (reply_ip ip)
          ++ (icmp_bytes (reply_icmp icmp (hello_msg ++ tail)) ++ (hello_msg ++ tail))) in
    let s =
      network_send_packet-Sends frame 54 (record m { console = before.0 }) v (omega arith)
        (omega arith) in
    let after = log_replied-Prints (reply_ip ip) (record m {
      console = s.console;
      ports = s.ports;
      nic = sent_nic m.nic (filled frame 54 s.row);
    }) in
    rw (reply_ip_length ip) (record {
      row = s.row;
      console = after.0;
      ports = s.ports;
      held = s.held;
      returns =
          then_lem (log_reply (reply_ip ip)) _ before.1
          ∙ (then_lem (network_send_packet frame 54) _ s.returns ∙ after.1);
      transmits = s.transmits;
    })

-- What of the copied packet stands behind the headers.
abbrev copied_tail : List ℕ → List ℕ → ℕ → List ℕ
copied_tail buffer payload n = take (n - 42) payload ++ drop n buffer

copied_lem :
    (buffer : List ℕ) (eth : EthHeader) (ip : Ipv4Header) (icmp : IcmpHeader) (payload : List ℕ)
    (n : ℕ)
    → 42 ≤ n
    → n ≤ length buffer
    → n ≤ 42 + length payload
    → memcpy buffer (packet_of eth ip icmp payload) n
      ≡ some (packet_of eth ip icmp (copied_tail buffer payload n))
copied_lem buffer eth ip icmp payload n large fits enough =
    memcpy_lem buffer (packet_of eth ip icmp payload) n fits (omega arith)
    ∙ ap (λ front. some (front ++ drop n buffer))
        (take_behind (packet_of eth ip icmp []) payload n (omega arith))

-- With well-formed statics of the driver, for a packet of 42 to 1500 bytes, all in memory, whose
-- header fields fit their widths, the reply is sent, whatever the payload and the bytes of the
-- uninitialised buffer: 54 bytes with the headers of the packet turned round and the message, and
-- nothing else changes but the console, the port history and the transmit buffers.
pub send_icmp_echo_reply-Sends :
    (buffer : List ℕ) (eth : EthHeader) (ip : Ipv4Header) (icmp : IcmpHeader) (payload : List ℕ)
    (n : ℕ) (m : Machine)
    → IsNic m.nic
    → length buffer ≡ 1500
    → IsEth eth
    → IsIpv4 ip
    → IsIcmp icmp
    → 42 ≤ n
    → n ≤ 1500
    → n ≤ 42 + length payload
    → Sends m m.arp_cache
        (reply_frame eth ip icmp)
        54
        tt
        (send_icmp_echo_reply buffer (packet_of eth ip icmp payload) n m)
unfolding send_icmp_echo_reply ascii
send_icmp_echo_reply-Sends buffer eth ip icmp payload n m v size ve vi vc large small enough =
    let tail : List ℕ = copied_tail buffer payload n in
    let room : 12 ≤ length tail = omega (
      arith,
      length-append (take (n - 42) payload) (drop n buffer),
      length-take (n - 42) payload (omega arith),
      length-drop n buffer,
    ) in
    let before = log_swap-Prints ip m in
    let m1 : Machine = record m { console = before.0 } in
    let s = send_reply-Sends eth ip icmp (drop 12 tail) m1 v in
    record {
      row = s.row;
      console = s.console;
      ports = s.ports;
      held = s.held;
      returns =
          then_lem (demand (memcpy buffer (packet_of eth ip icmp payload) n)) _ (
            ap (λ o. demand o m)
              (copied_lem buffer eth ip icmp payload n large (omega arith) enough))
          ∙ (then_lem (demand (read_eth (packet_of eth ip icmp tail))) _
                (ap (λ o. demand o m) (read_eth-eth_bytes eth _ ve))
              ∙ (then_lem (demand (read_ipv4 _)) _
                    (ap (λ o. demand o m) (read_ipv4-ipv4_bytes ip _ vi))
                  ∙ (then_lem (demand (read_icmp _)) _
                        (ap (λ o. demand o m) (read_icmp-icmp_bytes icmp tail vc))
                      ∙ (then_lem (log_swap ip) _ before.1
                          ∙ (then_lem (demand (memcpy tail hello_msg 12)) _ (
                                ap (λ o. demand o m1)
                                  (memcpy_lem tail hello_msg 12 room (omega arith)))
                              ∙ s.returns)))));
      transmits = s.transmits;
    }
