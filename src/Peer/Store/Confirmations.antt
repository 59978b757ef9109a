-- ===== src/Peer/Store/Confirmations.antt =====
-- The recipient's confirmation of a request (tomo_core/src/tomo_core/peer_store.py).
use tomo_v.Common.{
  ℕ, String, Bool, true, false, ◌&&◌, not, Option, none, some, leb, ◌==◌, if◌then◌else◌, str_eq,
  first_where, update_where,
}
use tomo_v.Peer.Rows.{
  PeerDb, RelationRow, RequestRow, ConfirmationRow, RequestStatus, ConfirmationStatus, AuditCode,
  is_active, is_undecided, is_unsent, is_unsettled, awaits_confirmation, relation_is, request_is,
  confirmation_is, notice_is, grants_of, record_audit,
}
use tomo_v.Peer.Policy.{allows}
use tomo_v.Peer.Store.Relations.{suppress_notice}
use tomo_v.Peer.Store.Requests.{revisions, cancel_confirmation}
use tomo_v.Peer.Store.Responses.{same_revisions}

-- the answers of `decide_confirmation`
pub data Verdict : Type 0 where
  no_confirmation replayed expired confirmed cancelled : Verdict

abbrev pub authorize : RequestRow → RequestRow
authorize q = record q { status = RequestStatus.authorized; disclosure_scope = "none" }

abbrev pub set_request_status : RequestStatus → RequestRow → RequestRow
set_request_status status q = record q { status = status }

abbrev pub decide_row : ConfirmationStatus → ℕ → ConfirmationRow → ConfirmationRow
decide_row status now c = record c { status = status; decided_at = some now }

-- what a confirmation was asked for is still what it would confirm
unfoldable pub still_valid :
    (String → String) → PeerDb → Option RelationRow → ConfirmationRow → RequestRow → ℕ → Bool
still_valid sha256 db none c q now = false
still_valid sha256 db (some r) c q now =
    let gs = grants_of db r.relationship_id in
    is_active r.status
    && r.revision == c.relationship_revision
    && str_eq (sha256 q.text) c.payload_hash
    && same_revisions (revisions gs) c.grant_revisions
    && allows (some r) gs (some (authorize q)) now

-- the confirmation, its notice and its request are settled
unfoldable pub settle_confirmation :
    ConfirmationStatus
    → RequestStatus
    → AuditCode
    → String
    → ConfirmationRow
    → RequestRow
    → ℕ
    → PeerDb
    → PeerDb
settle_confirmation status request_status code owner_id c q now db =
    record_audit owner_id q.relationship_id code now (record db {
      confirmations =
          update_where (confirmation_is c.pending_id) (decide_row status now) db.confirmations;
      notices =
          update_where (λ n. notice_is c.pending_id n && is_unsent n.status) suppress_notice
            db.notices;
      requests =
          update_where (request_is c.request_id) (set_request_status request_status) db.requests;
    })

unfoldable pub decide_pending :
    (String → String) → ConfirmationRow → RequestRow → String → Bool → ℕ → PeerDb → Verdict × PeerDb
unfolding still_valid settle_confirmation
decide_pending sha256 c q owner_id approve now db =
    let relation = first_where (relation_is q.relationship_id) db.relationships in
    if leb c.expires_at now
    then (
      expired,
      settle_confirmation ConfirmationStatus.expired RequestStatus.denied AuditCode.cancel owner_id
          c q now db,
    )
    else if approve && still_valid sha256 db relation c q now
    then (
      confirmed,
      settle_confirmation ConfirmationStatus.confirmed RequestStatus.authorized AuditCode.confirm
          owner_id c q now db,
    )
    else (
      cancelled,
      settle_confirmation ConfirmationStatus.cancelled RequestStatus.denied AuditCode.cancel
          owner_id c q now db,
    )

unfoldable pub decide_found :
    (String → String) → Option ConfirmationRow → String → Bool → ℕ → PeerDb → Verdict × PeerDb
unfolding decide_pending
decide_found sha256 none owner_id approve now db = (no_confirmation, db)
decide_found sha256 (some c) owner_id approve now db =
    elim (first_where (request_is c.request_id) db.requests) [
      | none ↦ (no_confirmation, db)
      | some q ↦
          if not (is_undecided c.status)
          then (replayed, db)
          else decide_pending sha256 c q owner_id approve now db
    ]

-- `decide_confirmation`
unfoldable pub decide_confirmation :
    (String → String) → String → String → Bool → ℕ → PeerDb → Verdict × PeerDb
unfolding decide_found
decide_confirmation sha256 owner_id pending_id approve now db =
    decide_found sha256
      (first_where (λ c. confirmation_is pending_id c && str_eq c.affected_owner owner_id)
        db.confirmations)
      owner_id approve now db

-- `confirmation_source`
unfoldable pub confirmation_source : String → PeerDb → Option (String × String)
confirmation_source pending_id db =
    elim (first_where (confirmation_is pending_id) db.confirmations) [
      | none ↦ none
      | some c ↦ elim (first_where (request_is c.request_id) db.requests) [
        | none ↦ none
        | some q ↦ some (q.sender, q.generation_id)
      ]
    ]

unfoldable pub cancel_superseded_found :
    Option ConfirmationRow → String → ℕ → PeerDb → Bool × PeerDb
cancel_superseded_found none pending_id now db = (false, db)
cancel_superseded_found (some c) pending_id now db = (
  true,
  record db {
    confirmations =
        update_where (λ x. confirmation_is pending_id x && is_undecided x.status)
          (cancel_confirmation now) db.confirmations;
    notices =
        update_where (λ n. notice_is pending_id n && is_unsettled n.status) suppress_notice
          db.notices;
    requests =
        update_where (λ q. request_is c.request_id q && awaits_confirmation q.status)
          (set_request_status RequestStatus.denied) db.requests;
  },
)

-- `cancel_superseded_confirmation`
unfoldable pub cancel_superseded_confirmation : String → ℕ → PeerDb → Bool × PeerDb
unfolding cancel_superseded_found
cancel_superseded_confirmation pending_id now db =
    cancel_superseded_found
      (first_where (λ c. confirmation_is pending_id c && is_undecided c.status) db.confirmations)
      pending_id now db
