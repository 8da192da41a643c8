-- ===== src/Kernel/Gateway.antt =====
-- The wait for the gateway ends with the turn in which its ARP reply is in the ring.
mod Tests
use aimini_os.Base.{
  ℕ, suc, ◌<◌, ◌≡◌, refl, ◌∙◌, ap, Bool, true, Option, some, List, ◌++◌, length, then_lem, sym,
}
use aimini_os.ByteOrder.{ntohl}
use aimini_os.Console
use aimini_os.Console.{Console}
use aimini_os.Format.{ascii, serial_ip}
use aimini_os.Layout.{Mac, EthHeader, ArpPacket, eth_bytes, arp_bytes}
use aimini_os.Machine.{PortEvent, Machine}
use aimini_os.Arp.Cache.{ArpCache, find_mac}
use aimini_os.Arp.Cache.Unique.{IsUnique}
use aimini_os.Arp.Cache.Lookup.{update_entries-IsUpdated}
use aimini_os.Arp.Calls.{get_mac_from_cache}
use aimini_os.Arp.Calls.Replies.{noted}
use aimini_os.Ring.{bytes_avail, rx_offset_of, check_rx_buffer}
use aimini_os.Ring.Empty.{answer_capr, answer_cbr}
use aimini_os.Ring.Frame.{IsFrame}
use aimini_os.Ring.Learn.{IsNews, check_rx_buffer-Learns}
use aimini_os.Kernel.{Unset, show_gateway, wait_gateway}

-- A return of `true` with the gateway's address in the table, where nothing else has changed but
-- the console, the port history and the table.
pub record IsFound (m : Machine) (mac : Mac) (cache : ArpCache) (returned : Option (Bool × Machine))
    : Type 0 where
  pub console : Console
  pub ports : List PortEvent
  pub returns :
      returned ≡ some (true, record m { console = console; ports = ports; arp_cache = cache })
  pub known : find_mac m.net_dev.gateway cache ≡ some mac

-- A known address is found.
get_mac_from_cache-some :
    (ip : ℕ) (mac : Mac) (m : Machine)
    → find_mac ip m.arp_cache ≡ some mac
    → (console : Console) × (get_mac_from_cache ip m
        ≡ some (some mac, record m { console = console }))
unfolding get_mac_from_cache
get_mac_from_cache-some ip mac m e = (
  Console.serial (ascii "MAC found in cache for IP: " ++ (serial_ip ip ++ ascii "\r\n")) m.console,
  rw e refl,
)

-- With debug output off, a ring that does not count as empty and a table with an entry at least and
-- no two valid entries for one address: if a well-formed ARP packet of the gateway for Ethernet and
-- IPv4, which is no request for our address, stands in the ring at the driver's read offset, with
-- its status good and its size 46 to 65535, the next turn of the wait ends it, of however many turns
-- are left. It returns true, the gateway's hardware address is in the table, and nothing else
-- changes but the console and the port history.
pub wait_gateway-IsFound :
    (unset : Unset) (left : ℕ) (eth : EthHeader) (a : ArpPacket) (rest : List ℕ) (size : ℕ)
    (m : Machine)
    → m.disable_rtl_debug ≡ true
    → IsUnique m.arp_cache
    → 0 < length m.arp_cache
    → 0 < bytes_avail (answer_capr m) (answer_cbr m)
    → IsFrame m.rx_memory
        (rx_offset_of (answer_capr m))
        size
        (eth_bytes eth ++ (arp_bytes a ++ rest))
    → IsNews m.net_dev.ip_addr eth a size
    → ntohl a.sender_ip ≡ m.net_dev.gateway
    → IsFound m a.sender_mac (noted a m.arp_cache) (wait_gateway unset (suc left) m)
unfolding wait_gateway show_gateway
wait_gateway-IsFound unset left eth a rest size m off unique slots avail f p from_gateway =
    let learned =
      check_rx_buffer-Learns unset.behind unset.buffer eth a rest size m off avail f p in
    let updated =
      update_entries-IsUpdated (ntohl a.sender_ip) a.sender_mac m.arp_cache slots unique in
    let known : find_mac m.net_dev.gateway (noted a m.arp_cache) ≡ some a.sender_mac =
      ap (λ ip. find_mac ip (noted a m.arp_cache)) (sym from_gateway) ∙ updated.own in
    let (console, got) =
      get_mac_from_cache-some m.net_dev.gateway a.sender_mac
        (record m { console = learned.console; ports = _; arp_cache = noted a m.arp_cache })
        known in
    record {
      console = _;
      ports = _;
      returns =
          then_lem (check_rx_buffer unset.behind unset.buffer) _ learned.returns
          ∙ then_lem (get_mac_from_cache m.net_dev.gateway) _ got;
      known = known;
    }
