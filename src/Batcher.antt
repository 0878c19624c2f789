-- ===== src/Batcher.antt =====
-- apps/api/src/adaptive-reply-batcher.ts: inbound turns are grouped by bot and peer until a silence
-- or a longest wait. The clock's timers are part of the state: `timers` holds what `setTimeout`
-- returned and has neither fired nor been cleared. The identity of a batch object is its number
-- `seq`, from which the source prints the id `batch_<seq in base 36>`. `attached` stands for the
-- fields that the batcher carries through, `attachments` and `payload`.
pub mod Key
pub mod State
mod Tally
pub mod Conserve
mod Grouped
pub mod Grouping
mod Tests
