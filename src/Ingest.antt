-- ===== src/Ingest.antt =====
-- src/kvstore-node/src/ingest: chunks on their way in.
pub mod Watermark
pub mod Buffer
pub mod Seal
mod Tests
