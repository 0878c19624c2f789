-- ===== src/Fleet.antt =====
-- packages/db/src/worker-fleet.ts: how the nodes of a fleet share the bots.
pub mod Weight
pub mod Shed
pub mod Plan
mod Tests
