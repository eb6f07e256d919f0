-- ===== src/Context.antt =====
-- packages/context/src: contexts, their cancellation, deadlines and values.
pub mod Nodes
pub mod World
pub mod Wave
pub mod Derive
pub mod Signals
pub mod Links
pub mod Settling
pub mod Draining
pub mod Tidying
pub mod Spread
pub mod Trees
pub mod Growth
pub mod Registering
pub mod Creating
pub mod Calls
pub mod Timed
pub mod Reachable
pub mod Cancellation
pub mod Deadlines
pub mod Timers
pub mod Tests
