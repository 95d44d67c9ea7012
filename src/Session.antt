-- ===== src/Session.antt =====
-- The session-state plane, src/kvstore-node/src/session: the ordered key space with its log.
pub mod Crc
pub mod Codec
pub mod Key
pub mod Table
pub mod Log
pub mod File
pub mod Scan
pub mod Store
pub mod Service
pub mod Blobs
mod Tests
