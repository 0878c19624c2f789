-- ===== src/HttpGuard.antt =====
-- packages/core/src/chatflow/http-guard.ts: which hosts an http node of a chatflow may reach.
pub mod Address
pub mod Ranges
pub mod Guard
pub mod Blocks
mod Tests
