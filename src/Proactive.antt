-- ===== src/Proactive.antt =====
-- packages/core/src/proactive.ts: whether a bot may write to an idle peer of its own accord.
pub mod Quiet
pub mod Config
pub mod Eligible
pub mod Promises
mod Tests
