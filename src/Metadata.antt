-- ===== src/Metadata.antt =====
-- packages/metadata/src/index.ts: metadata snapshots, carried by contexts.
pub mod Snapshots
pub mod Lookups
pub mod Laws
pub mod Carried
pub mod Propagation
pub mod Tests
