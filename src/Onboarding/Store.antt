-- ===== src/Onboarding/Store.antt =====
-- tomo_core/src/tomo_core/onboarding_store.py: the operations of `TelegramOnboardingStore`.
pub mod Tokens
pub mod Turns
pub mod Claim
pub mod Generations
pub mod Deliveries
pub mod Control
