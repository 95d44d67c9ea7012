-- ===== src/Cluster.antt =====
-- Node membership, src/kvstore-node/src/cluster.
pub mod Membership
pub mod Drain
mod Tests
