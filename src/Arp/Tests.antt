-- ===== src/Arp/Tests.antt =====
-- Tests of ARP: the guest and the host of Samples.
use aimini_os.Base.{
  ℕ, List, ◌≡◌, refl, some, true, false, [], ◌∷◌, ◌++◌, ◌==◌, arith, if◌then◌else◌,
}
use aimini_os.ByteOrder.Laws.{ntoh-hton}
use aimini_os.Samples.{
  guest, host, qemu_mac, qemu_mac-IsMac, host_mac, host_mac-IsMac, idle_nic-IsNic, frame_to_guest,
  frame_to_guest-IsEth, arp_of_host, arp_of_host-IsArp,
}
use aimini_os.Console.{Console}
use aimini_os.Layout.{eth_bytes, arp_bytes}
use aimini_os.Arp.Cache.{
  ArpCache, zero_cache, zero_mac, find_mac, update_entries, update_existing, add_new, replace_first,
  result,
}
use aimini_os.Arp.Cache.Unique.{IsUnique, IsUnique-update_entries}
use aimini_os.Arp.Cache.Lookup.{IsUpdated, update_entries-IsUpdated}
use aimini_os.Arp.Calls.{handle_arp_packet, arp_resolve, is_ethernet_ipv4}
use aimini_os.Arp.Calls.Replies.{
  Sends, Keeps, noted, asks_us, handle_arp_packet-Keeps, handle_arp_packet_short,
  handle_arp_packet_invalid,
}
use aimini_os.Arp.Calls.Answer.{IsArpReply, handle_arp_packet-IsArpReply}
use aimini_os.Arp.Calls.Resolve.{arp_resolve_lem}
use aimini_os.Arp.Calls.Exchange.{IsHost, Exchange, arp-Exchange}

-- A full table of two entries.
abbrev full : ArpCache
full =
    (record { ip_addr = 1; mac_addr = host_mac; valid = true })
    ∷ (record { ip_addr = 2; mac_addr = zero_mac; valid = true })
    ∷ []

full-IsUnique : IsUnique full
full-IsUnique = ((λ _. (refl, tt)), ((λ _. tt), tt))

zero_cache-IsUnique : IsUnique zero_cache
zero_cache-IsUnique = ground arith

update_entries-IsUpdated_example :
    IsUpdated 3 qemu_mac full (result (update_entries 3 qemu_mac full))
update_entries-IsUpdated_example =
    update_entries-IsUpdated 3 qemu_mac full (omega arith) full-IsUnique

-- The third address takes the place of the first.
replaced_test :
    result (update_entries 3 qemu_mac full)
    ≡ (record { ip_addr = 3; mac_addr = qemu_mac; valid = true })
      ∷ (record { ip_addr = 2; mac_addr = zero_mac; valid = true })
      ∷ []
unfolding update_entries update_existing add_new replace_first
replaced_test = refl

IsUnique-update_entries_example : IsUnique (result (update_entries 2 qemu_mac full))
IsUnique-update_entries_example = IsUnique-update_entries 2 qemu_mac full full-IsUnique

format_lem : is_ethernet_ipv4 (arp_of_host 0x0800 0x0a00020f) ≡ true
unfolding is_ethernet_ipv4
format_lem = rw (
  (ntoh-hton 1 0 (omega arith) (omega arith)).0,
  (ntoh-hton 0x0800 0 (omega arith) (omega arith)).0,
)

asks_lem : asks_us guest (arp_of_host 0x0800 0x0a00020f) ≡ true
asks_lem = let e = ntoh-hton 1 0x0a00020f (omega arith) (omega arith) in rw (e.0, e.1) refl

-- The host asks for the guest.
handle_arp_packet-IsArpReply_example :
    (frame : List ℕ) × IsArpReply qemu_mac 0x0a00020f
      (frame_to_guest 0x0806)
      (arp_of_host 0x0800 0x0a00020f)
      []
      frame
    × Sends guest (noted (arp_of_host 0x0800 0x0a00020f) zero_cache) frame 42 frame (
        handle_arp_packet
          (eth_bytes (frame_to_guest 0x0806) ++ (arp_bytes (arp_of_host 0x0800 0x0a00020f) ++ []))
          42
          guest)
handle_arp_packet-IsArpReply_example =
    handle_arp_packet-IsArpReply (frame_to_guest 0x0806) (arp_of_host 0x0800 0x0a00020f) [] 42 guest
      idle_nic-IsNic qemu_mac-IsMac (omega arith) (frame_to_guest-IsEth 0x0806)
      (arp_of_host-IsArp 0x0800 0x0a00020f (omega arith)) format_lem asks_lem (omega arith)
      (omega arith) (omega arith)

other_format_lem : is_ethernet_ipv4 (arp_of_host 0x0800 0x0a000207) ≡ true
unfolding is_ethernet_ipv4
other_format_lem = rw (
  (ntoh-hton 1 0 (omega arith) (omega arith)).0,
  (ntoh-hton 0x0800 0 (omega arith) (omega arith)).0,
)

other_lem : asks_us guest (arp_of_host 0x0800 0x0a000207) ≡ false
other_lem = let e = ntoh-hton 1 0x0a000207 (omega arith) (omega arith) in rw (e.0, e.1) refl

-- The host asks for a third machine.
handle_arp_packet-Keeps_test :
    Keeps guest
      (noted (arp_of_host 0x0800 0x0a000207) zero_cache)
      (eth_bytes (frame_to_guest 0x0806) ++ (arp_bytes (arp_of_host 0x0800 0x0a000207) ++ []))
      (handle_arp_packet
        (eth_bytes (frame_to_guest 0x0806) ++ (arp_bytes (arp_of_host 0x0800 0x0a000207) ++ []))
        42
        guest)
handle_arp_packet-Keeps_test =
    handle_arp_packet-Keeps (frame_to_guest 0x0806) (arp_of_host 0x0800 0x0a000207) [] 42 guest
      (frame_to_guest-IsEth 0x0806) (arp_of_host-IsArp 0x0800 0x0a000207 (omega arith))
      other_format_lem other_lem (omega arith)

short_packet_test : Keeps guest zero_cache (1 ∷ 2 ∷ []) (handle_arp_packet (1 ∷ 2 ∷ []) 2 guest)
short_packet_test = handle_arp_packet_short (1 ∷ 2 ∷ []) 2 guest (omega arith)

bad_format_lem : is_ethernet_ipv4 (arp_of_host 0x86dd 0x0a00020f) ≡ false
unfolding is_ethernet_ipv4
bad_format_lem = rw (
  (ntoh-hton 1 0 (omega arith) (omega arith)).0,
  (ntoh-hton 0x86dd 0 (omega arith) (omega arith)).0,
)

handle_arp_packet_invalid_test :
    Keeps guest zero_cache
      (eth_bytes (frame_to_guest 0x0806) ++ (arp_bytes (arp_of_host 0x86dd 0x0a00020f) ++ []))
      (handle_arp_packet
        (eth_bytes (frame_to_guest 0x0806) ++ (arp_bytes (arp_of_host 0x86dd 0x0a00020f) ++ []))
        42
        guest)
handle_arp_packet_invalid_test =
    handle_arp_packet_invalid (frame_to_guest 0x0806) (arp_of_host 0x86dd 0x0a00020f) [] 42 guest
      (frame_to_guest-IsEth 0x0806) (arp_of_host-IsArp 0x86dd 0x0a00020f (omega arith))
      bad_format_lem (omega arith)

arp_resolve_lem_example :
    (console : Console) × (arp_resolve 0x0a000202 guest
      ≡ some (
        if 0x0a000202 == 0x0a00020f then some qemu_mac else find_mac 0x0a000202 zero_cache,
        record guest { console = console },
      ))
arp_resolve_lem_example = arp_resolve_lem 0x0a000202 guest

guest-IsHost : IsHost guest
guest-IsHost = record {
  nic = idle_nic-IsNic;
  mac_addr = qemu_mac-IsMac;
  ip_addr = omega arith;
  some_entry = omega arith;
  unique = zero_cache-IsUnique;
}

host-IsHost : IsHost host
host-IsHost = record {
  nic = idle_nic-IsNic;
  mac_addr = host_mac-IsMac;
  ip_addr = omega arith;
  some_entry = omega arith;
  unique = zero_cache-IsUnique;
}

arp-Exchange_example : Exchange guest host
arp-Exchange_example = arp-Exchange guest host guest-IsHost host-IsHost (omega arith)
