-- ===== src/Arp/Cache.antt =====
-- The ARP cache of arp.c: its loops as recursion on the table. What the functions log on the
-- serial port stands in `Arp.Calls`.
pub mod Unique
pub mod Lookup
use aimini_os.Base.{
  ℕ, Bool, true, false, ◌&&◌, Option, none, some, List, [], ◌∷◌, ◌==◌, if◌then◌else◌, map,
  replicate,
}
use aimini_os.Layout.{Mac}

-- `struct arp_cache_entry`; `ip_addr` is in the host's byte order.
pub record ArpCacheEntry : Type 0 where
  pub ip_addr : ℕ
  pub mac_addr : Mac
  pub valid : Bool

abbrev pub arp_cache_size : ℕ
arp_cache_size = 16

abbrev pub ArpCache : Type 0
ArpCache = List ArpCacheEntry

abbrev pub zero_mac : Mac
zero_mac = record { m0 = 0; m1 = 0; m2 = 0; m3 = 0; m4 = 0; m5 = 0 }

-- The static table before any call: zero bytes.
abbrev pub zero_cache : ArpCache
zero_cache = replicate arp_cache_size (record { ip_addr = 0; mac_addr = zero_mac; valid = false })

unfoldable pub clear_entries : ArpCache → ArpCache
clear_entries [] = []
clear_entries (e ∷ rest) = (record e { valid = false }) ∷ clear_entries rest

-- `arp_cache[i].valid && arp_cache[i].ip_addr == ip_addr`
abbrev pub matches : ℕ → ArpCacheEntry → Bool
matches ip e = e.valid && (e.ip_addr == ip)

-- The loop of `get_mac_from_cache`: `some` of the address copied to `mac_out`, or `none` for false.
unfoldable pub find_mac : ℕ → ArpCache → Option Mac
find_mac ip [] = none
find_mac ip (e ∷ rest) = if matches ip e then some e.mac_addr else find_mac ip rest

-- An entry that a loop passes by.
abbrev pub prepend : ArpCacheEntry → Option ArpCache → Option ArpCache
prepend e none = none
prepend e (some rest) = some (e ∷ rest)

-- The first loop of `update_arp_cache`: `none` if it runs to its end.
unfoldable pub update_existing : ℕ → Mac → ArpCache → Option ArpCache
update_existing ip m [] = none
update_existing ip m (e ∷ rest) =
    let later = update_existing ip m rest in
    if matches ip e then some ((record e { mac_addr = m }) ∷ rest) else prepend e later

-- Its second loop: the first entry that is not valid.
unfoldable pub add_new : ℕ → Mac → ArpCache → Option ArpCache
add_new ip m [] = none
add_new ip m (e ∷ rest) =
    let later = add_new ip m rest in
    if e.valid
    then prepend e later
    else some ((record { ip_addr = ip; mac_addr = m; valid = true }) ∷ rest)

-- Its last statements; `valid` of entry 0 is not written.
unfoldable pub replace_first : ℕ → Mac → ArpCache → ArpCache
replace_first ip m [] = []
replace_first ip m (e ∷ rest) = (record e { ip_addr = ip; mac_addr = m }) ∷ rest

-- Which of its three returns `update_arp_cache` takes.
pub data Update : Type 0 where
  updated : ArpCache → Update
  added : ArpCache → Update
  replaced : ArpCache → Update

-- The first loop returns, or else the second, or else the function's end is reached.
abbrev pub first_return : Option ArpCache → Option ArpCache → ArpCache → Update
first_return (some c) new last = updated c
first_return none (some c) last = added c
first_return none none last = replaced last

unfoldable pub update_entries : ℕ → Mac → ArpCache → Update
update_entries ip m c =
    first_return (update_existing ip m c) (add_new ip m c) (replace_first ip m c)

abbrev pub result : Update → ArpCache
result (updated c) = c
result (added c) = c
result (replaced c) = c
