-- ===== src/ReplyPlan.antt =====
-- packages/core/src/adaptive-reply-plan.ts: whether a batch of inbound items is answered, which of
-- its items the reply covers, and in how many parts.
pub mod Classify
pub mod Select
pub mod Plan
pub mod Cover
mod Tests
