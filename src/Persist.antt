-- ===== src/Persist.antt =====
-- src/kvstore-node/src/persist: the log of agent state.
pub mod StateWal
mod Tests
