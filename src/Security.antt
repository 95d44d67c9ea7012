-- ===== src/Security.antt =====
-- src/kvstore-node/src/security: the decisions on requests.
pub mod Rbac
mod Tests
