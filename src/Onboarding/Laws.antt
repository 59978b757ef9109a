-- ===== src/Onboarding/Laws.antt =====
-- What single operations of tomo_core/src/tomo_core/onboarding_store.py promise.
pub mod Linked
pub mod Messages
pub mod Working
pub mod Work
pub mod Control
pub mod Owners
pub mod Links
pub mod Deliveries
