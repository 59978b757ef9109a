-- ===== src/Peer.antt =====
-- Peers: two owners' assistants that exchange requests (tomo_core/src/tomo_core/peer_*.py).
pub mod Rows
pub mod Policy
pub mod Store
pub mod Laws
mod Tests
