-- ===== src/Bubbles.antt =====
-- packages/core/src/split-reply.ts: a long reply as several chat bubbles.
pub mod Split
pub mod Letters
pub mod Counts
pub mod Marks
mod Tests
