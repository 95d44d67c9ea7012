-- ===== src/Routing.antt =====
-- Routing on the nodes: src/kvstore-node/src/routing/.
pub mod Bloom
mod Tests
