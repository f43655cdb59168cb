-- ===== src/Net.antt =====
-- The network stack, kernel/drivers/net. A packet is the list of its bytes.
pub mod Bytes
pub mod Checksum
pub mod Link
pub mod Ipv4
pub mod Udp
pub mod Tcp
pub mod Ethernet
pub mod Icmp
pub mod Arp
mod Tests
mod Examples
