-- ===== src/Arp.antt =====
-- arp.c and arp.h.
pub mod Cache
pub mod Calls
mod Tests
