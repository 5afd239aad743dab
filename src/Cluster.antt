-- ===== src/Cluster.antt =====
-- src/cluster: the registry of nodes and the coordinator that elects the leader.
pub mod NodeRegistry
pub mod ClusterCoordinator
mod TextOrder
mod Tests
