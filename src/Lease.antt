-- ===== src/Lease.antt =====
-- packages/db/src/worker-fleet.ts, the leases that workers hold on bots in Redis.
pub mod Store
pub mod Claims
pub mod Complete
pub mod Release
mod Tests
