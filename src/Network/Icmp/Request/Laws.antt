-- ===== src/Network/Icmp/Request/Laws.antt =====
-- What `send_icmp_echo_request` sends, and when.
use aimini_os.Base.{
  ℕ, ◌^◌, ◌≡◌, ◌≢◌, ◌<◌, refl, ◌∙◌, Option, some, none, List, [], ◌++◌, arith, then_lem, ◌>>=◌,
  ◌>>◌, ne→eqb,
}
use aimini_os.Checksum.{network_checksum}
use aimini_os.ByteOrder.{ntohs, ntohl}
use aimini_os.ByteOrder.Laws.{ntoh-hton, htons-lt, htonl-lt}
use aimini_os.Layout.{Mac, eth_bytes, ipv4_bytes, icmp_bytes}
use aimini_os.Format.{ascii}
use aimini_os.Console.{Console}
use aimini_os.Machine.{Machine, Act}
use aimini_os.Rtl8139.Send.Laws.{IsNic, filled, sent_nic}
use aimini_os.Network.Link.{network_send_packet}
use aimini_os.Arp.Cache.{find_mac}
use aimini_os.Arp.Calls.Resolve.{arp_resolve_lem}
use aimini_os.Arp.Calls.Replies.{Sends, network_send_packet-Sends}
use aimini_os.Network.Icmp.{hello_msg, with_icmp_checksum, with_ip_checksum}
use aimini_os.Network.Icmp.Valid.{with_ip_checksum-verifies, with_icmp_checksum-verifies}
use aimini_os.Network.Icmp.Reply.{Prints}
use aimini_os.Network.Receive.Dispatch.{Sends-then}
use aimini_os.Network.Icmp.Request.{
  request_eth, request_ip, request_ip_fields, request_icmp, request_icmp_fields, log_target,
  show_sending, show_sent, request_buffer, send_request, send_icmp_echo_request,
  get_destination_mac,
}

-- The 54 bytes of the request.
abbrev pub request_frame : Machine → Mac → ℕ → List ℕ
request_frame m target target_ip =
    eth_bytes (request_eth m.net_dev.mac_addr target)
    ++ (ipv4_bytes (request_ip m.net_dev.ip_addr target_ip)
        ++ (icmp_bytes (request_icmp hello_msg) ++ hello_msg))

log_target-Prints : (target : Mac) (m : Machine) → Prints m (log_target target m)
unfolding log_target
log_target-Prints target m = (_, refl)

show_sending-Prints : (ip : ℕ) (m : Machine) → Prints m (show_sending ip m)
unfolding show_sending
show_sending-Prints ip m = (_, refl)

show_sent-Prints : (m : Machine) → Prints m (show_sent m)
unfolding show_sent
show_sent-Prints m = (_, refl)

send_buffer-Sends :
    (target : Mac) (ip : ℕ) (m : Machine)
    → IsNic m.nic
    → Sends m m.arp_cache (request_frame m target ip) 54 tt (
        (do
          _ ← network_send_packet (request_buffer m.net_dev.mac_addr m.net_dev.ip_addr target ip) 54
          show_sent)
          m)
unfolding request_icmp with_icmp_checksum ascii
send_buffer-Sends target ip m v =
    let frame : List ℕ = request_buffer m.net_dev.mac_addr m.net_dev.ip_addr target ip in
    let s = network_send_packet-Sends frame 54 m v (omega arith) (omega arith) in
    let after = show_sent-Prints (record m {
      console = s.console;
      ports = s.ports;
      nic = sent_nic m.nic (filled frame 54 s.row);
    }) in
    record {
      row = s.row;
      console = after.0;
      ports = s.ports;
      held = s.held;
      returns = then_lem (network_send_packet frame 54) _ s.returns ∙ after.1;
      transmits = s.transmits;
    }

send_request-Sends :
    (target : Mac) (ip : ℕ) (m : Machine)
    → IsNic m.nic
    → Sends m m.arp_cache (request_frame m target ip) 54 tt (send_request ip (some target) m)
unfolding send_request
send_request-Sends target ip m v =
    let buffer : List ℕ = request_buffer m.net_dev.mac_addr m.net_dev.ip_addr target ip in
    let last : Act = (do _ ← network_send_packet buffer 54; show_sent) in
    Sends-then m (log_target target) (do show_sending ip; last) m.arp_cache
      (request_frame m target ip) 54 tt (log_target-Prints target m)
      (λ c.
        Sends-then (record m { console = c }) (show_sending ip) last m.arp_cache
          (request_frame m target ip) 54 tt (show_sending-Prints ip (record m { console = c }))
          (λ d. send_buffer-Sends target ip (record m { console = d }) v))

module _ (ip : ℕ) (m : Machine) (other : ip ≢ m.net_dev.ip_addr) where
  lookup :
      (answer : Option Mac) (console : Console)
      → find_mac ip m.arp_cache ≡ answer
      → (c : Console) × (get_destination_mac ip (record m { console = console })
          ≡ some (answer, record m { console = c }))
  lookup answer console e =
      let r = arp_resolve_lem ip (record m { console = console }) in
      (r.0, r.1 ∙ rw (ne→eqb ip m.net_dev.ip_addr other, e))

-- With well-formed statics of the driver, a ping to another machine whose address the table holds
-- is sent: the 54 bytes of the request go to the card, addressed to it, and nothing else changes
-- but the console, the port history and the transmit buffers.
pub send_icmp_echo_request-Sends :
    (ip : ℕ) (m : Machine) (target : Mac)
    → IsNic m.nic
    → ip ≢ m.net_dev.ip_addr
    → find_mac ip m.arp_cache ≡ some target
    → Sends m m.arp_cache (request_frame m target ip) 54 tt (send_icmp_echo_request ip m)
unfolding send_icmp_echo_request
send_icmp_echo_request-Sends ip m target v other known =
    let found = lookup ip m other (some target) _ known in
    let s = send_request-Sends target ip (record m { console = found.0 }) v in
    record {
      row = s.row;
      console = s.console;
      ports = s.ports;
      held = s.held;
      returns = then_lem (get_destination_mac ip) (send_request ip) found.1 ∙ s.returns;
      transmits = s.transmits;
    }

-- A ping to another machine whose address the table does not hold is not sent, and no ARP request
-- either: only the console changes.
pub send_icmp_echo_request_unknown :
    (ip : ℕ) (m : Machine)
    → ip ≢ m.net_dev.ip_addr
    → find_mac ip m.arp_cache ≡ none
    → Prints m (send_icmp_echo_request ip m)
unfolding send_icmp_echo_request send_request
send_icmp_echo_request_unknown ip m other unknown =
    let found = lookup ip m other none _ unknown in
    (_, then_lem (get_destination_mac ip) (send_request ip) found.1)

-- For 32-bit addresses, both checksums of the request verify, and its IP header has its length and
-- is addressed from our IP to the target.
pub request_frame_lem :
    (own_ip ip : ℕ)
    → own_ip < 2 ^ 32
    → ip < 2 ^ 32
    → (network_checksum (ipv4_bytes (request_ip own_ip ip)) ≡ 0)
      × (network_checksum (icmp_bytes (request_icmp hello_msg) ++ hello_msg) ≡ 0)
      × (ntohl (request_ip own_ip ip).src_ip ≡ own_ip)
      × (ntohl (request_ip own_ip ip).dst_ip ≡ ip)
      × (ntohs (request_ip own_ip ip).total_length ≡ 40)
unfolding request_ip request_icmp with_ip_checksum ascii
request_frame_lem own_ip ip p q = (
  with_ip_checksum-verifies (request_ip_fields own_ip ip) (record {
    version_ihl = omega arith;
    dscp_ecn = omega arith;
    total_length = htons-lt 40;
    identification = omega arith;
    flags_fragment_offset = omega arith;
    ttl = omega arith;
    protocol = omega arith;
    checksum = omega arith;
    src_ip = htonl-lt own_ip p;
    dst_ip = htonl-lt ip q;
  }),
  with_icmp_checksum-verifies request_icmp_fields [] (record {
    icmp_type = omega arith;
    code = omega arith;
    checksum = omega arith;
    identifier = htons-lt 0x1234;
    sequence = htons-lt 1;
  }),
  (ntoh-hton 0 own_ip (omega arith) p).1,
  (ntoh-hton 0 ip (omega arith) q).1,
  (ntoh-hton 40 0 (omega arith) (omega arith)).0,
)
