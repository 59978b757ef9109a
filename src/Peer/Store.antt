-- ===== src/Peer/Store.antt =====
-- The operations of `PeerStore` (tomo_core/src/tomo_core/peer_store.py). A write transaction is a
-- function of the tables; an error rolls it back. A `uuid4()` that it draws is an argument.
pub mod Relations
pub mod Requests
pub mod Responses
pub mod Confirmations
pub mod Notices
pub mod Claims
pub mod Reads
