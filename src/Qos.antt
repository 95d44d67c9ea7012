-- ===== src/Qos.antt =====
-- src/kvstore-node/src/qos: the quotas and the registry of tenants.
pub mod Tenant
pub mod Quota
mod Tests
