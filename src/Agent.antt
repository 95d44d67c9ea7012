-- ===== src/Agent.antt =====
-- src/kvagent/src: the agent beside an engine.
pub mod RoutingCache
mod Tests
