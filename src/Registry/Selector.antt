-- ===== src/Registry/Selector.antt =====
-- packages/registry/src/selector.ts: the endpoints of a snapshot, their identities and the memory of
-- past selections. A snapshot is what snapshotServiceInstances has published.
pub mod Identity
pub mod Domains
pub mod Strategies
pub mod Rotation
pub mod Fairness
pub mod Slots
pub mod Cycles
pub mod Recency
pub mod Choices
pub mod Feedback
pub mod Eligible
pub mod Balance
mod Tests
