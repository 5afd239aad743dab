-- ===== src/Persistence.antt =====
-- src/persistence: the log of changes and the snapshots of the state.
pub mod WriteAheadLog
pub mod SnapshotManager
