-- ===== src/Tier.antt =====
-- src/kvstore-node/src/tier: the tiers that hold chunks in memory.
pub mod Dram
pub mod Pinned
mod Tests
