-- ===== src/Sync.antt =====
-- src/sync: the synchronizer of the state, the compression of its deltas and the resolution of conflicts.
pub mod ConflictResolver
pub mod DeltaCompressor
pub mod StateSynchronizer
mod Tests
