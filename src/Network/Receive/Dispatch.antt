-- ===== src/Network/Receive/Dispatch.antt =====
-- Which packets the receive path answers, and with what.
use aimini_os.Base.{
  ℕ, ◌+◌, ◌-◌, ◌^◌, ◌≡◌, ◌<◌, ◌≤◌, refl, ◌∙◌, Option, Bool, true, false, List, [], ◌++◌, arith,
  length, then_lem, M, skip, ◌>>◌, if◌then◌else◌, le→ltb, eq→eqb,
}
use aimini_os.ByteOrder.{ntohs, ntohl}
use aimini_os.Layout.{EthHeader, Ipv4Header, IcmpHeader, ipv4_bytes, icmp_bytes}
use aimini_os.Layout.Roundtrip.{
  IsEth, IsIpv4, IsIcmp, read_eth-eth_bytes, read_ipv4-ipv4_bytes, read_icmp-icmp_bytes,
}
use aimini_os.Format.{serial_hex8}
use aimini_os.Console.{Console}
use aimini_os.Machine.{Machine, Act, say, serial}
use aimini_os.Rtl8139.Send.{debug}
use aimini_os.Rtl8139.Send.Laws.{IsNic}
use aimini_os.Network.Link.{eth_type_ip}
use aimini_os.Arp.Cache.{ArpCache}
use aimini_os.Arp.Calls.Replies.{Sends}
use aimini_os.Network.Icmp.{send_icmp_echo_reply}
use aimini_os.Network.Icmp.Reply.{reply_frame, packet_of, Prints, send_icmp_echo_reply-Sends}
use aimini_os.Network.Payload.{on_serial, at_most}
use aimini_os.Network.Payload.Laws.{hex_text-some, dump_text-some, at_most-le}
use aimini_os.Network.Receive.{
  data_length_of, log_icmp, show_request, handle_icmp_packet, switch_icmp, is_echo_request, log_ip,
  switch_protocol, for_us, take_ip, handle_ip_packet, handle_network_packet,
}

data_length_lem : (n : ℕ) → 42 ≤ n → n < 2 ^ 16 → data_length_of n ≡ n - 42
unfolding data_length_of
data_length_lem n h p = omega arith

-- What is sent behind prints is sent from the start.
pub Sends-printed :
    {A : Type 0} (m : Machine) (console : Console) (cache : ArpCache) (frame : List ℕ) (n : ℕ)
    (value : A) {returned : Option (A × Machine)}
    → Sends (record m { console = console }) cache frame n value returned
    → Sends m cache frame n value returned
Sends-printed m console cache frame n value s = record {
  row = s.row;
  console = s.console;
  ports = s.ports;
  held = s.held;
  returns = s.returns;
  transmits = s.transmits;
}

-- One call that prints, and a call that sends.
pub Sends-then :
    {A : Type 0} (m : Machine) (x : Act) (f : M Machine A) (cache : ArpCache) (frame : List ℕ)
    (n : ℕ) (value : A)
    → Prints m (x m)
    → ((console : Console)
        → Sends
            (record m { console = console })
            cache
            frame
            n
            value
            (f (record m { console = console })))
    → Sends m cache frame n value ((x >> f) m)
Sends-then m x f cache frame n value p s =
    let t = s p.0 in
    record {
      row = t.row;
      console = t.console;
      ports = t.ports;
      held = t.held;
      returns = then_lem x (λ _. f) p.1 ∙ t.returns;
      transmits = t.transmits;
    }

pub debug-Prints :
    (m : Machine) (act : Act) → ((k : Machine) → Prints k (act k)) → Prints m (debug act m)
debug-Prints m act p = choose m.disable_rtl_debug
  where
    choose : (off : Bool) → Prints m ((if off then skip else act) m)
    choose true = (m.console, refl)
    choose false = p m

log_icmp-Prints :
    (ip : Ipv4Header) (icmp : IcmpHeader) (n : ℕ) (hex chars : List ℕ) (m : Machine)
    → Prints m (log_icmp ip icmp n hex chars m)
unfolding log_icmp
log_icmp-Prints ip icmp n hex chars m = (_, refl)

show_request-Prints : (ip : Ipv4Header) (m : Machine) → Prints m (show_request ip m)
unfolding show_request
show_request-Prints ip m = (_, refl)

-- A packet of Ethernet, IPv4 and ICMP headers with its memory.
pub record IsPacket (eth : EthHeader) (ip : Ipv4Header) (icmp : IcmpHeader) (payload : List ℕ)
    (n : ℕ) : Type 0 where
  pub is_eth : IsEth eth
  pub is_ip : IsIpv4 ip
  pub is_icmp : IsIcmp icmp
  pub least : 42 ≤ n
  pub most : n ≤ 1500
  pub held : n ≤ 42 + length payload

module _ (beyond : ℕ → List ℕ) (buffer : List ℕ) (eth : EthHeader) (ip : Ipv4Header)
    (icmp : IcmpHeader) (payload : List ℕ) (n : ℕ) (size : length buffer ≡ 1500)
    (p : IsPacket eth ip icmp payload n) (asks : is_echo_request icmp ≡ true) where
  -- Sends the reply to the packet from `m`.
  abbrev Replies : Machine → Option (Unit {0} × Machine) → Type 0
  Replies m returned = Sends m m.arp_cache (reply_frame eth ip icmp) 54 tt returned

  switch_icmp-Replies :
      (m : Machine)
      → IsNic m.nic
      → Replies m (
          switch_icmp beyond buffer ip icmp
            (data_length_of n)
            payload
            (packet_of eth ip icmp payload)
            n
            m)
  unfolding switch_icmp
  switch_icmp-Replies m v = rw asks (
      Sends-then m (show_request ip) (send_icmp_echo_reply buffer (packet_of eth ip icmp payload) n)
        m.arp_cache (reply_frame eth ip icmp) 54 tt (show_request-Prints ip m)
        (λ c.
          send_icmp_echo_reply-Sends buffer eth ip icmp payload n (record m { console = c }) v size
            p.is_eth p.is_ip p.is_icmp p.least p.most p.held))

  handle_icmp_packet-Replies :
      (m : Machine)
      → IsNic m.nic
      → Replies m (handle_icmp_packet beyond buffer (packet_of eth ip icmp payload) n m)
  unfolding handle_icmp_packet
  handle_icmp_packet-Replies m v =
      let dl = data_length_of n in
      let held : at_most 16 dl ≤ length payload =
        omega
          (arith, at_most-le 16 dl, data_length_lem n p.least (omega (arith, p.most)), p.held) in
      let hex = hex_text-some serial_hex8 [] 0 (at_most 16 dl) payload held in
      let chars = dump_text-some (on_serial beyond) 0 (at_most 16 dl) payload held in
      rw
        (
          read_eth-eth_bytes eth (ipv4_bytes ip ++ (icmp_bytes icmp ++ payload)) p.is_eth,
          read_ipv4-ipv4_bytes ip (icmp_bytes icmp ++ payload) p.is_ip,
          read_icmp-icmp_bytes icmp payload p.is_icmp,
          hex.1,
          chars.1,
        )
        (Sends-then m (log_icmp ip icmp dl hex.0 chars.0)
          (switch_icmp beyond buffer ip icmp dl payload (packet_of eth ip icmp payload) n)
          m.arp_cache (reply_frame eth ip icmp) 54 tt (log_icmp-Prints ip icmp dl hex.0 chars.0 m)
          (λ c. switch_icmp-Replies (record m { console = c }) v))

  module _ (is_icmp : ip.protocol ≡ 1) where
    for_us-Replies :
        (m : Machine)
        → IsNic m.nic
        → Replies m (for_us beyond buffer ip (packet_of eth ip icmp payload) n m)
    unfolding for_us switch_protocol
    for_us-Replies m v =
        Sends-then m (serial _)
          (do
            debug (say _)
            switch_protocol beyond buffer ip.protocol (packet_of eth ip icmp payload) n)
          m.arp_cache (reply_frame eth ip icmp) 54 tt (_, refl)
          (λ c.
            Sends-then (record m { console = c }) (debug (say _))
              (switch_protocol beyond buffer ip.protocol (packet_of eth ip icmp payload) n)
              m.arp_cache (reply_frame eth ip icmp) 54 tt
              (debug-Prints (record m { console = c }) (say _) (λ k. (_, refl)))
              (λ d. rw (eq→eqb ip.protocol 1 is_icmp) (
                Sends-printed (record m { console = d }) _ m.arp_cache (reply_frame eth ip icmp) 54
                  tt (handle_icmp_packet-Replies (record m { console = _ }) v))))

    take_ip-Replies :
        (m : Machine)
        → IsNic m.nic
        → ntohl ip.dst_ip ≡ m.net_dev.ip_addr
        → Replies m (take_ip beyond buffer (packet_of eth ip icmp payload) n m)
    unfolding take_ip log_ip
    take_ip-Replies m v ours =
        rw
          (
            read_eth-eth_bytes eth (ipv4_bytes ip ++ (icmp_bytes icmp ++ payload)) p.is_eth,
            read_ipv4-ipv4_bytes ip (icmp_bytes icmp ++ payload) p.is_ip,
            eq→eqb (ntohl ip.dst_ip) m.net_dev.ip_addr ours,
          )
          (Sends-printed m _ m.arp_cache (reply_frame eth ip icmp) 54 tt
            (for_us-Replies (record m { console = _ }) v))

-- With well-formed statics of the driver, an echo request for our address is answered from the
-- frame on: a frame of 42 to 1500 bytes, all in memory, of type IP and protocol ICMP sends the 54
-- bytes of the reply, with and without debug output, and leaves the packet, the table and
-- everything else but the console, the port history and the transmit buffers.
pub handle_network_packet-Sends :
    (beyond : ℕ → List ℕ) (buffer : List ℕ) (eth : EthHeader) (ip : Ipv4Header) (icmp : IcmpHeader)
    (payload : List ℕ) (n : ℕ) (m : Machine)
    → IsNic m.nic
    → length buffer ≡ 1500
    → IsPacket eth ip icmp payload n
    → ntohs eth.eth_type ≡ eth_type_ip
    → ntohl ip.dst_ip ≡ m.net_dev.ip_addr
    → ip.protocol ≡ 1
    → is_echo_request icmp ≡ true
    → Sends m m.arp_cache
        (reply_frame eth ip icmp)
        54
        (packet_of eth ip icmp payload)
        (handle_network_packet beyond buffer (packet_of eth ip icmp payload) n m)
unfolding handle_network_packet handle_ip_packet
handle_network_packet-Sends beyond buffer eth ip icmp payload n m v size p is_ip ours is_icmp asks =
    let s = take_ip-Replies beyond buffer eth ip icmp payload n size p asks is_icmp m v ours in
    record {
      row = s.row;
      console = s.console;
      ports = s.ports;
      held = s.held;
      returns =
          rw
            (
              read_eth-eth_bytes eth (ipv4_bytes ip ++ (icmp_bytes icmp ++ payload)) p.is_eth,
              is_ip,
              le→ltb n 34 (omega (arith, p.least)),
            )
            (then_lem (take_ip beyond buffer (packet_of eth ip icmp payload) n) _ s.returns);
      transmits = s.transmits;
    }
