-- ===== src/Core/StateManager.antt =====
-- `StateManager` of src/core/state-manager.ts.
mod Parts
pub mod Split
pub mod Operations
pub mod State
pub mod Paths
pub mod History
pub mod Reachable
pub mod Snapshots
pub mod Deltas
mod Tests
