-- ===== src/Registry/Mdns.antt =====
-- packages/registry/mdns/src: the DNS messages of multicast discovery.
pub mod Names
pub mod Addresses
pub mod Packets
pub mod Unpacking
pub mod NameWire
pub mod NameBounds
pub mod RecordWire
pub mod PacketWire
pub mod Cache
pub mod CacheLaws
pub mod CacheExpiry
mod CacheTests
mod Tests
