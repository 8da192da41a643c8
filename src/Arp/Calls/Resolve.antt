-- ===== src/Arp/Calls/Resolve.antt =====
-- Asking for an address, and resolving one from the table.
use aimini_os.Base.{
  ℕ, ◌≡◌, refl, ◌∙◌, Bool, true, false, Option, none, some, List, ◌++◌, ◌==◌, if◌then◌else◌, arith,
  then_lem, ◌>>=◌,
}
use aimini_os.Layout.{Mac, eth_bytes, arp_bytes}
use aimini_os.Format.{ascii, serial_ip}
use aimini_os.Console
use aimini_os.Console.{Console}
use aimini_os.Machine.{Machine}
use aimini_os.Rtl8139.Send.Laws.{IsNic}
use aimini_os.Arp.Cache.{find_mac}
use aimini_os.Arp.Calls.{
  request_eth, request_arp, send_arp_request, arp_resolve, resolved, resolve_own,
  get_mac_from_cache,
}
use aimini_os.Arp.Calls.Replies.{Sends, network_send_packet-Sends}

-- The frame of a request.
abbrev pub request_to : Machine → ℕ → List ℕ
request_to m ip =
    eth_bytes (request_eth m.net_dev.mac_addr)
    ++ arp_bytes (request_arp m.net_dev.mac_addr m.net_dev.ip_addr ip)

pub send_arp_request-Sends :
    (ip : ℕ) (m : Machine)
    → IsNic m.nic
    → Sends m m.arp_cache (request_to m ip) 42 true (send_arp_request ip m)
unfolding send_arp_request
send_arp_request-Sends ip m v =
    let s =
      network_send_packet-Sends (request_to m ip) 42 (record m { console = _ }) v (omega arith)
        (omega arith) in
    record {
      row = s.row;
      console = s.console;
      ports = s.ports;
      held = s.held;
      returns = s.returns;
      transmits = s.transmits;
    }

get_mac_from_cache_lem :
    (ip : ℕ) (m : Machine)
    → (console : Console) × (get_mac_from_cache ip m
        ≡ some (find_mac ip m.arp_cache, record m { console = console }))
unfolding get_mac_from_cache
get_mac_from_cache_lem ip m = (_, refl)

resolved_lem :
    (found : Option Mac) (m : Machine)
    → (console : Console) × (resolved found m ≡ some (found, record m { console = console }))
resolved_lem none m = (_, refl)
resolved_lem (some a) m = (_, refl)

-- Resolving returns the machine's own address for its own IP, and otherwise what the table holds;
-- only the console changes, no request is sent.
pub arp_resolve_lem :
    (ip : ℕ) (m : Machine)
    → (console : Console) × (arp_resolve ip m
        ≡ some (
          if ip == m.net_dev.ip_addr then some m.net_dev.mac_addr else find_mac ip m.arp_cache,
          record m { console = console },
        ))
unfolding arp_resolve
arp_resolve_lem ip m = choose (ip == m.net_dev.ip_addr)
  where
    m1 : Machine
    m1 = record m {
      console = Console.serial (ascii "Resolving IP: " ++ (serial_ip ip ++ ascii "\r\n")) m.console;
    }

    choose :
        (own : Bool)
        → (console : Console) × ((if own then resolve_own else (get_mac_from_cache ip >>= resolved))
              m1
            ≡ some (
              if own then some m.net_dev.mac_addr else find_mac ip m.arp_cache,
              record m { console = console },
            ))
    choose true = (_, refl)
    choose false =
        let g = get_mac_from_cache_lem ip m1 in
        let r = resolved_lem (find_mac ip m.arp_cache) (record m1 { console = g.0 }) in
        (r.0, then_lem (get_mac_from_cache ip) resolved g.1 ∙ r.1)
