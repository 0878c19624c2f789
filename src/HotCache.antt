-- ===== src/HotCache.antt =====
-- packages/db/src/hot-cache.ts: the process-local caches before Redis, `TtlCache` for single keys and
-- `SnapshotCache` for whole collections.
pub mod Ttl
pub mod Snapshot
mod Tests
