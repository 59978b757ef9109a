-- ===== src/Peer/Laws/Submission.antt =====
-- `submit` of tomo_core/src/tomo_core/peer_store.py: a call is submitted once, and a thread is short.
use tomo_v.Common.{ℕ, ◌≤◌, [], ◌∷◌, ◌++◌, ◌≡◌, All}
use tomo_v.Peer.Rows.{PeerDb, RequestRow, ThreadRow}
use tomo_v.Peer.Store.Requests.{placed}

-- a thread holds four requests at most
abbrev pub IsShort : ThreadRow → Type 0
IsShort t = t.request_count ≤ 4

-- What a new submission leaves.
abbrev pub Submitted : PeerDb → RequestRow → ℕ → RequestRow → PeerDb → Type 0
Submitted db q now saved after =
    ((sequence : ℕ) × (1 ≤ sequence) × (sequence ≤ 4) × (saved ≡ placed q sequence now))
    × (after.requests ≡ db.requests ++ saved ∷ [])
    × All IsShort after.threads
