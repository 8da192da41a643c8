-- ===== src/Arp/Calls/Frames.antt =====
-- The frames that arp.c builds: they are well formed, and how a receiver sees them.
use mathlib.Core.Path.{subst}
use aimini_os.Base.{ℕ, ◌^◌, ◌<◌, ◌≡◌, refl, true, false, some, length, arith, eq→eqb}
use aimini_os.ByteOrder.{ntohl}
use aimini_os.ByteOrder.Laws.{ntoh-hton, htons-lt, htonl-lt}
use aimini_os.Layout.{Mac, EthHeader, ArpPacket}
use aimini_os.Layout.Roundtrip.{IsMac, IsEth, IsArp}
use aimini_os.Machine.{Machine}
use aimini_os.Arp.Cache.Unique.{IsUnique}
use aimini_os.Arp.Cache.Lookup.{update_entries-IsUpdated}
use aimini_os.Arp.Cache.{ArpCache, find_mac}
use aimini_os.Arp.Calls.{request_eth, request_arp, is_ethernet_ipv4, reply_eth, reply_arp}
use aimini_os.Arp.Calls.Replies.{asks_us, noted}

-- The frames of the two machines are well formed.
pub request_eth-IsEth : (own : Mac) → IsMac own → IsEth (request_eth own)
unfolding request_eth
request_eth-IsEth own h = record {
  dest = (omega arith, omega arith, omega arith, omega arith, omega arith, omega arith);
  src = h;
  eth_type = htons-lt 0x0806;
}

pub request_arp-IsArp :
    (own : Mac) (own_ip ip : ℕ)
    → IsMac own
    → own_ip < 2 ^ 32
    → ip < 2 ^ 32
    → IsArp (request_arp own own_ip ip)
unfolding request_arp
request_arp-IsArp own own_ip ip h p q = record {
  hardware_type = htons-lt 1;
  protocol_type = htons-lt 0x0800;
  hardware_size = omega arith;
  protocol_size = omega arith;
  opcode = htons-lt 1;
  sender_mac = h;
  sender_ip = htonl-lt own_ip p;
  target_mac = (omega arith, omega arith, omega arith, omega arith, omega arith, omega arith);
  target_ip = htonl-lt ip q;
}

pub reply_eth-IsEth :
    (own : Mac) (eth : EthHeader) → IsMac own → IsEth eth → IsEth (reply_eth own eth)
unfolding reply_eth
reply_eth-IsEth own eth h v = record { dest = v.src; src = h; eth_type = v.eth_type }

pub reply_arp-IsArp :
    (own : Mac) (own_ip : ℕ) (a : ArpPacket)
    → IsMac own
    → own_ip < 2 ^ 32
    → IsArp a
    → IsArp (reply_arp own own_ip a)
unfolding reply_arp
reply_arp-IsArp own own_ip a h p v = record {
  hardware_type = v.hardware_type;
  protocol_type = v.protocol_type;
  hardware_size = v.hardware_size;
  protocol_size = v.protocol_size;
  opcode = htons-lt 2;
  sender_mac = h;
  sender_ip = htonl-lt own_ip p;
  target_mac = v.sender_mac;
  target_ip = v.sender_ip;
}

module _ (own : Mac) (own_ip ip : ℕ) where
  pub request_arp-format : is_ethernet_ipv4 (request_arp own own_ip ip) ≡ true
  unfolding request_arp is_ethernet_ipv4
  request_arp-format = rw (
    (ntoh-hton 1 0 (omega arith) (omega arith)).0,
    (ntoh-hton 0x0800 0 (omega arith) (omega arith)).0,
  )

  pub reply_arp-format :
      (a : ArpPacket) → is_ethernet_ipv4 (reply_arp own own_ip a) ≡ is_ethernet_ipv4 a
  unfolding reply_arp is_ethernet_ipv4
  reply_arp-format a = refl

-- A request for our address is seen as one.
pub request_arp-asks_us :
    (m : Machine) (own : Mac) (own_ip : ℕ)
    → m.net_dev.ip_addr < 2 ^ 32
    → asks_us m (request_arp own own_ip m.net_dev.ip_addr) ≡ true
unfolding request_arp
request_arp-asks_us m own own_ip h =
    let e = ntoh-hton 1 m.net_dev.ip_addr (omega arith) h in rw (e.0, e.1) (eq→eqb _ _ refl)

-- A reply is never taken for a request.
pub reply_arp-asks_us :
    (m : Machine) (own : Mac) (own_ip : ℕ) (a : ArpPacket)
    → asks_us m (reply_arp own own_ip a) ≡ false
unfolding reply_arp
reply_arp-asks_us m own own_ip a = rw (ntoh-hton 2 0 (omega arith) (omega arith)).0

-- The table knows the sender of a packet that was noted.
pub noted_lem :
    (a : ArpPacket) (ip : ℕ) (cache : ArpCache)
    → ntohl a.sender_ip ≡ ip
    → 0 < length cache
    → IsUnique cache
    → find_mac ip (noted a cache) ≡ some a.sender_mac
noted_lem a ip cache e pos u =
    subst (λ j. find_mac j (noted a cache) ≡ some a.sender_mac) e
      (update_entries-IsUpdated (ntohl a.sender_ip) a.sender_mac cache pos u).own

pub request_arp-noted :
    (own : Mac) (own_ip ip : ℕ) (cache : ArpCache)
    → own_ip < 2 ^ 32
    → 0 < length cache
    → IsUnique cache
    → find_mac own_ip (noted (request_arp own own_ip ip) cache) ≡ some own
unfolding request_arp
request_arp-noted own own_ip ip cache h pos u =
    noted_lem (request_arp own own_ip ip) own_ip cache (ntoh-hton 0 own_ip (omega arith) h).1 pos u

pub reply_arp-noted :
    (own : Mac) (own_ip : ℕ) (a : ArpPacket) (cache : ArpCache)
    → own_ip < 2 ^ 32
    → 0 < length cache
    → IsUnique cache
    → find_mac own_ip (noted (reply_arp own own_ip a) cache) ≡ some own
unfolding reply_arp
reply_arp-noted own own_ip a cache h pos u =
    noted_lem (reply_arp own own_ip a) own_ip cache (ntoh-hton 0 own_ip (omega arith) h).1 pos u
