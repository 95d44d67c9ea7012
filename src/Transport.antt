-- ===== src/Transport.antt =====
-- src/kvstore-node/src/transport: the scheduler of transfers.
pub mod Scheduler
mod Tests
