-- ===== src/Peer/Laws.antt =====
-- What the operations of `PeerStore` (tomo_core/src/tomo_core/peer_store.py) promise.
pub mod Submission
pub mod Claims
pub mod Finishing
pub mod Over
pub mod Revocation
pub mod Confirming
