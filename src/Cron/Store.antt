-- ===== src/Cron/Store.antt =====
-- The ledger's operations (tomo_core/src/tomo_core/cron_store.py). An operation that SQLite runs in
-- one write transaction is a function of the tables; an error rolls the transaction back, so it
-- brings no tables with it. A `uuid4()` that it draws is an argument.
pub mod Parts
pub mod Jobs
pub mod Runs
pub mod Claim
pub mod Deliveries
pub mod Recovery
pub mod Mutations
