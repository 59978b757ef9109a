-- ===== src/Cron/Laws.antt =====
-- What the operations of `CronStore` (tomo_core/src/tomo_core/cron_store.py) promise their callers.
pub mod Completion
pub mod Changes
pub mod Mutation
pub mod Replay
pub mod Delivery
pub mod Redaction
