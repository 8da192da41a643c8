-- ===== src/Arp/Calls/Exchange.antt =====
-- Two machines that run arp.c: a request of one, the reply of the other, and the lookup after it.
use aimini_os.Base.{
  ℕ, ◌^◌, ◌<◌, ◌≡◌, ◌≢◌, sym, ◌∙◌, true, Option, none, some, List, [], get_elem?, take, take_all,
  drop, length, arith, get_elem?-set_self, take-append, ne→eqb,
}
use aimini_os.Layout.{EthHeader, ArpPacket}
use aimini_os.Layout.Roundtrip.{IsMac}
use aimini_os.Console.{Console}
use aimini_os.Machine.{Machine}
use aimini_os.Rtl8139.Send.Laws.{IsNic, filled, sent_nic}
use aimini_os.Arp.Cache.Unique.{IsUnique}
use aimini_os.Arp.Cache.{ArpCache, find_mac}
use aimini_os.Arp.Calls.{
  request_eth, request_arp, send_arp_request, reply_eth, reply_arp, handle_arp_packet, arp_resolve,
}
use aimini_os.Arp.Calls.Resolve.{request_to, send_arp_request-Sends, arp_resolve_lem}
use aimini_os.Arp.Calls.Replies.{Keeps}
use aimini_os.Layout.Roundtrip.{IsEth, IsArp}
use aimini_os.Arp.Calls.{is_ethernet_ipv4}
use aimini_os.Arp.Calls.Replies.{
  Sends, noted, answer_to, handle_arp_packet-Sends, handle_arp_packet-Keeps,
}
use aimini_os.Arp.Calls.Frames.{
  request_eth-IsEth, request_arp-IsArp, reply_eth-IsEth, reply_arp-IsArp, request_arp-format,
  reply_arp-format, request_arp-asks_us, reply_arp-asks_us, request_arp-noted, reply_arp-noted,
}

abbrev pub front : ℕ → Option (List ℕ) → Option (List ℕ)
front n none = none
front n (some row) = some (take n row)

-- The frame at the front of the buffer that was current.
abbrev pub sent_frame : Machine → Machine → ℕ → Option (List ℕ)
sent_frame before after n = front n (get_elem? after.nic.tx_buffer before.nic.current_tx_buffer)

sent_frame-Sends :
    {A : Type 0} (m : Machine) (cache : ArpCache) (frame : List ℕ) (value : A)
    {returned : Option (A × Machine)}
    → IsNic m.nic
    → (s : Sends m cache frame (length frame) value returned)
    → sent_frame m
        (record m {
          console = s.console;
          ports = s.ports;
          nic = sent_nic m.nic (filled frame (length frame) s.row);
          arp_cache = cache;
        })
        (length frame)
      ≡ some frame
sent_frame-Sends m cache frame value v s = rw (
  get_elem?-set_self m.nic.tx_buffer m.nic.current_tx_buffer (filled frame (length frame) s.row)
      (omega (arith, v.current, v.buffers)),
  take_all frame,
  take-append frame (drop (length frame) s.row),
)

-- A machine that can take part: its driver is set up, its addresses are addresses, and its table
-- has an entry at least and no IP address twice.
pub record IsHost (m : Machine) : Type 0 where
  pub nic : IsNic m.nic
  pub mac_addr : IsMac m.net_dev.mac_addr
  pub ip_addr : m.net_dev.ip_addr < 2 ^ 32
  pub some_entry : 0 < length m.arp_cache
  pub unique : IsUnique m.arp_cache

-- `a` asks for the address of `b`, `b` answers, `a` takes the answer and resolves the address.
pub record Exchange (a b : Machine) : Type 0 where
  pub a1 : Machine
  pub b1 : Machine
  pub a2 : Machine
  pub request : List ℕ
  pub reply : List ℕ
  pub console : Console
  pub asked : send_arp_request b.net_dev.ip_addr a ≡ some (true, a1)
  pub request_sent : sent_frame a a1 42 ≡ some request
  pub answered : handle_arp_packet request 42 b ≡ some (reply, b1)
  pub reply_sent : sent_frame b b1 42 ≡ some reply
  pub known_to_b : find_mac a.net_dev.ip_addr b1.arp_cache ≡ some a.net_dev.mac_addr
  pub taken : handle_arp_packet reply 42 a1 ≡ some (reply, a2)
  pub resolved :
      arp_resolve b.net_dev.ip_addr a2
      ≡ some (some b.net_dev.mac_addr, record a2 { console = console })

module _ (a b : Machine) (va : IsHost a) (vb : IsHost b) where
  -- The request of `a`, and the reply of `b`.
  abbrev request_header : EthHeader
  request_header = request_eth a.net_dev.mac_addr

  abbrev ask : ArpPacket
  ask = request_arp a.net_dev.mac_addr a.net_dev.ip_addr b.net_dev.ip_addr

  abbrev answer : ArpPacket
  answer = reply_arp b.net_dev.mac_addr b.net_dev.ip_addr ask

  request_header-IsEth : IsEth (request_eth a.net_dev.mac_addr)
  request_header-IsEth = request_eth-IsEth a.net_dev.mac_addr va.mac_addr

  ask-IsArp : IsArp (request_arp a.net_dev.mac_addr a.net_dev.ip_addr b.net_dev.ip_addr)
  ask-IsArp =
      request_arp-IsArp a.net_dev.mac_addr a.net_dev.ip_addr b.net_dev.ip_addr va.mac_addr
        va.ip_addr vb.ip_addr

  ask-format :
      is_ethernet_ipv4 (request_arp a.net_dev.mac_addr a.net_dev.ip_addr b.net_dev.ip_addr) ≡ true
  ask-format = request_arp-format a.net_dev.mac_addr a.net_dev.ip_addr b.net_dev.ip_addr

  -- `b` answers the request.
  request-Sends :
      Sends b
        (noted ask b.arp_cache)
        (answer_to b request_header ask [])
        42
        (answer_to b request_header ask [])
        (handle_arp_packet (request_to a b.net_dev.ip_addr) 42 b)
  request-Sends =
      handle_arp_packet-Sends request_header ask [] 42 b vb.nic request_header-IsEth ask-IsArp
        ask-format (request_arp-asks_us b a.net_dev.mac_addr a.net_dev.ip_addr vb.ip_addr)
        (omega arith) (omega arith) (omega arith)

  -- A machine takes the reply and notes its sender.
  reply-Keeps :
      (m : Machine)
      → Keeps m
          (noted answer m.arp_cache)
          (answer_to b request_header ask [])
          (handle_arp_packet (answer_to b request_header ask []) 42 m)
  reply-Keeps m =
      handle_arp_packet-Keeps (reply_eth b.net_dev.mac_addr request_header) answer [] 42 m
        (reply_eth-IsEth b.net_dev.mac_addr request_header vb.mac_addr request_header-IsEth)
        (reply_arp-IsArp b.net_dev.mac_addr b.net_dev.ip_addr ask vb.mac_addr vb.ip_addr ask-IsArp)
        (reply_arp-format b.net_dev.mac_addr b.net_dev.ip_addr 0 ask ∙ ask-format)
        (reply_arp-asks_us m b.net_dev.mac_addr b.net_dev.ip_addr ask) (omega arith)

-- Two machines with well-formed drivers, addresses and tables and with different IP addresses: the
-- request of `a` is answered by `b`, which then knows the address of `a`, and with the reply the
-- lookup of `a` finds the hardware address of `b`.
pub arp-Exchange :
    (a b : Machine) → IsHost a → IsHost b → a.net_dev.ip_addr ≢ b.net_dev.ip_addr → Exchange a b
arp-Exchange a b va vb ne =
    let header : EthHeader = request_eth a.net_dev.mac_addr in
    let question : ArpPacket = request_arp a.net_dev.mac_addr a.net_dev.ip_addr b.net_dev.ip_addr in
    let reply : List ℕ = answer_to b header question [] in
    let sent = send_arp_request-Sends b.net_dev.ip_addr a va.nic in
    let a1 : Machine = record a {
      console = sent.console;
      ports = sent.ports;
      nic = sent_nic a.nic (filled (request_to a b.net_dev.ip_addr) 42 sent.row);
    } in
    let answered = request-Sends a b va vb in
    let taken = reply-Keeps a b va vb a1 in
    let a2 : Machine = record a1 {
      console = taken.0;
      arp_cache = noted (reply_arp b.net_dev.mac_addr b.net_dev.ip_addr question) a.arp_cache;
    } in
    let resolved = arp_resolve_lem b.net_dev.ip_addr a2 in
    record {
      a1 = a1;
      b1 = record b {
        console = answered.console;
        ports = answered.ports;
        nic = sent_nic b.nic (filled reply 42 answered.row);
        arp_cache = noted question b.arp_cache;
      };
      a2 = a2;
      request = request_to a b.net_dev.ip_addr;
      reply = reply;
      console = resolved.0;
      asked = sent.returns;
      request_sent =
          sent_frame-Sends a a.arp_cache (request_to a b.net_dev.ip_addr) true va.nic sent;
      answered = answered.returns;
      reply_sent = sent_frame-Sends b (noted question b.arp_cache) reply reply vb.nic answered;
      known_to_b =
          request_arp-noted a.net_dev.mac_addr a.net_dev.ip_addr b.net_dev.ip_addr b.arp_cache
            va.ip_addr vb.some_entry vb.unique;
      taken = taken.1;
      resolved =
          resolved.1
          ∙ rw (
            ne→eqb _ _ (λ e. ne (sym e)),
            reply_arp-noted b.net_dev.mac_addr b.net_dev.ip_addr question a.arp_cache vb.ip_addr
                va.some_entry va.unique,
          );
    }
