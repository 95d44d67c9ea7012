-- ===== src/Prefix.antt =====
-- src/kvstore-node/src/prefix: the index of sealed prefixes, its references and its events.
pub mod Refcount
pub mod Art
pub mod Lpm
pub mod Events
pub mod Epoch
mod Tests
