-- ===== src/Network.antt =====
-- network.c: sending, the ICMP echo service, and the dispatch of what was received.
pub mod Link
pub mod Icmp
pub mod Payload
pub mod Receive
mod Tests
pub mod Setup
