-- ===== src/Onboarding.antt =====
-- Telegram updates, turns and generations: the store of tomo_core/src/tomo_core/onboarding_store.py.
pub mod Ids
pub mod Rows
pub mod Store
pub mod Laws
pub mod Sound
pub mod Kept
pub mod Named
pub mod History
mod Tests
