-- ===== src/Registry.antt =====
-- packages/registry: service discovery. Selector holds the selection strategies, Mdns the wire format
-- of mDNS.
pub mod Mdns
pub mod Selector
