-- ===== src/Cron.antt =====
-- Durable scheduled jobs: tomo_core/src/tomo_core/cron_*.py.
pub mod Errors
pub mod Fields
pub mod Schedule
pub mod Rows
pub mod Store
pub mod Moves
pub mod Ledger
pub mod Laws
mod Tests
