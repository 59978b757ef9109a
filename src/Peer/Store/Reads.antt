-- ===== src/Peer/Store/Reads.antt =====
-- What owners read, and what time removes (tomo_core/src/tomo_core/peer_store.py).
use tomo_v.Common.{
  ℕ, ◌-◌, String, Bool, false, ◌&&◌, ◌||◌, not, Option, none, some, List, [], ◌∷◌, ◌++◌, ltb, leb,
  if◌then◌else◌, Result, ok, err, str_eq, first_where, exists_where, update_where, delete_where,
  select_where,
}
use tomo_v.Peer.Rows.{
  PeerError, not_found, PeerDb, RelationRow, GrantRow, RequestRow, ResponseRow, ConfirmationRow,
  AuditRow, ArchiveRow, WatermarkRow, is_undecided, request_is, sort_pair, is_deleted, grants_of,
  seconds,
}
use tomo_v.Peer.Store.Relations.{handle_is, pair_is, owned_relation, of_relation}
use tomo_v.Peer.Store.Notices.{handle_of}

-- `relationship_for_handle`
unfoldable pub relationship_for_handle : String → String → PeerDb → Option RelationRow
relationship_for_handle owner_id handle db = elim (first_where (handle_is handle) db.handles) [
  | none ↦ none
  | some h ↦ first_where (pair_is (sort_pair owner_id h.owner_id)) db.relationships
]

-- `get_relationship`
unfoldable pub get_relationship : String → String → PeerDb → Option RelationRow
get_relationship owner_id relationship_id db =
    if is_deleted db owner_id
    then none
    else first_where (owned_relation owner_id relationship_id) db.relationships

-- `grants`
unfoldable pub list_grants : String → String → PeerDb → List GrantRow
unfolding get_relationship
list_grants owner_id relationship_id db = elim (get_relationship owner_id relationship_id db) [
  | none ↦ []
  | some r ↦ grants_of db r.relationship_id
]

-- the owner has hidden what is as old as the request
unfoldable pub is_hidden : String → RequestRow → WatermarkRow → Bool
is_hidden owner_id q w =
    str_eq w.owner_id owner_id
    && str_eq w.relationship_id q.relationship_id
    && leb q.created_at w.purged_before

abbrev pub is_party_of : String → RequestRow → Bool
is_party_of owner_id q = str_eq owner_id q.sender || str_eq owner_id q.recipient

-- the answer of `inspect_request`
pub record Inspection : Type 0 where
  pub request : RequestRow
  pub response : Option ResponseRow
  pub peer_handle : String
  pub pending_expires_at : Option ℕ

unfoldable pub expiry_of : Option ConfirmationRow → Option ℕ
expiry_of none = none
expiry_of (some c) = some c.expires_at

-- `inspect_request`
unfoldable pub inspect_request : String → String → PeerDb → Option Inspection
unfolding is_hidden expiry_of
inspect_request owner_id request_id db =
    if is_deleted db owner_id
    then none
    else elim (first_where
        (λ q.
          request_is request_id q
          && is_party_of owner_id q
          && not (exists_where (is_hidden owner_id q) db.watermarks))
        db.requests) [
          | none ↦ none
          | some q ↦ some (record {
            request = q;
            response = first_where (λ a. str_eq a.request_id request_id) db.responses;
            peer_handle = handle_of db (if str_eq q.sender owner_id then q.recipient else q.sender);
            pending_expires_at = expiry_of (
                first_where (λ c. str_eq c.request_id request_id && is_undecided c.status)
                  db.confirmations);
          })
        ]

-- `ORDER BY sequence DESC LIMIT 1`
unfoldable pub latest_request : (RequestRow → Bool) → List RequestRow → Option RequestRow
latest_request p [] = none
latest_request p (q ∷ qs) =
    let rest = latest_request p qs in
    if p q
    then some
        (elim rest [ none ↦ q | some later ↦ if leb later.sequence q.sequence then q else later ])
    else rest

-- `latest_thread_request`
unfoldable pub latest_thread_request : String → String → PeerDb → Option Inspection
unfolding latest_request inspect_request
latest_thread_request owner_id thread_id db =
    elim (latest_request (λ q. str_eq q.thread_id thread_id && is_party_of owner_id q)
      db.requests) [ none ↦ none | some q ↦ inspect_request owner_id q.request_id db ]

-- `handle_for_owner`
unfoldable pub handle_for_owner : String → PeerDb → Option String
handle_for_owner owner_id db =
    if is_deleted db owner_id
    then none
    else elim (first_where (λ h. str_eq h.owner_id owner_id) db.handles) [
      | none ↦ none
      | some h ↦ some h.handle
    ]

-- `audit_events`
unfoldable pub audit_events : String → PeerDb → List AuditRow
audit_events owner_id db =
    if is_deleted db owner_id then [] else select_where (λ a. str_eq a.owner_id owner_id) db.audit

-- the rows that hang on requests, by ON DELETE CASCADE
unfoldable pub delete_requests : (RequestRow → Bool) → PeerDb → PeerDb
delete_requests gone db =
    let kept = delete_where gone db.requests in
    let confirmations =
      select_where (λ c. exists_where (request_is c.request_id) kept) db.confirmations in
    record db {
      requests = kept;
      responses = select_where (λ a. exists_where (request_is a.request_id) kept) db.responses;
      confirmations = confirmations;
      notices =
          select_where (λ n. exists_where (λ c. str_eq c.pending_id n.pending_id) confirmations)
            db.notices;
    }

unfoldable pub delete_confirmations : (ConfirmationRow → Bool) → PeerDb → PeerDb
delete_confirmations gone db =
    let kept = delete_where gone db.confirmations in
    record db {
      confirmations = kept;
      notices =
          select_where (λ n. exists_where (λ c. str_eq c.pending_id n.pending_id) kept) db.notices;
    }

-- `prune`: what is older than 30 days
unfoldable pub prune : ℕ → PeerDb → PeerDb
unfolding delete_requests delete_confirmations
prune now db =
    let cutoff = now - seconds 2592000 in
    let pruned =
      delete_confirmations (λ c. ltb c.expires_at cutoff)
        (delete_requests (λ q. ltb q.created_at cutoff) db) in
    record pruned {
      threads =
          delete_where
            (λ t.
              ltb t.expires_at cutoff
              && not (exists_where (λ q. str_eq q.thread_id t.thread_id) pruned.requests))
            pruned.threads;
      audit = delete_where (λ a. ltb a.created_at cutoff) pruned.audit;
    }

-- the older of the cut-offs of a relationship's owners, where both have one
unfoldable pub both_cutoffs : List WatermarkRow → Option ℕ
both_cutoffs (a ∷ b ∷ []) =
    some (if ltb b.purged_before a.purged_before then b.purged_before else a.purged_before)
both_cutoffs _ = none

abbrev pub raise_cutoff : ℕ → WatermarkRow → WatermarkRow
raise_cutoff now w = record w {
  purged_before = if ltb w.purged_before now then now else w.purged_before;
}

-- ON CONFLICT(owner_id,relationship_id) DO UPDATE SET purged_before=MAX(...)
unfoldable pub hide_before : String → String → ℕ → List WatermarkRow → List WatermarkRow
hide_before owner_id relationship_id now ws =
    let test = λ (w : WatermarkRow).
      str_eq w.owner_id owner_id && str_eq w.relationship_id relationship_id in
    if exists_where test ws
    then update_where test (raise_cutoff now) ws
    else ws
      ++ record { owner_id = owner_id; relationship_id = relationship_id; purged_before = now } ∷ []

unfoldable pub purge_shared : Option ℕ → String → PeerDb → PeerDb
unfolding delete_requests
purge_shared none relationship_id db = db
purge_shared (some cutoff) relationship_id db =
    delete_requests (λ q. of_relation relationship_id q && leb q.created_at cutoff) db

unfoldable pub purge_live : String → String → ℕ → PeerDb → PeerDb
unfolding hide_before both_cutoffs purge_shared
purge_live owner_id relationship_id now db =
    let hidden = record db {
      watermarks = hide_before owner_id relationship_id now db.watermarks;
    } in
    purge_shared
      (both_cutoffs
        (select_where (λ w. str_eq w.relationship_id relationship_id) hidden.watermarks))
      relationship_id hidden

abbrev pub archived_for : String → String → ArchiveRow → Bool
archived_for owner_id relationship_id a =
    str_eq a.owner_id owner_id
    && elim a.relationship_id [ none ↦ false | some id ↦ str_eq id relationship_id ]

-- `purge_history`: shared records can disappear only after both relationship owners hid them
unfoldable pub purge_history : String → String → ℕ → PeerDb → Result PeerError PeerDb
unfolding purge_live
purge_history owner_id relationship_id now db =
    let live = exists_where (owned_relation owner_id relationship_id) db.relationships in
    let archived = archived_for owner_id relationship_id in
    let cleared = record db { archives = delete_where archived db.archives } in
    if not live && not (exists_where archived db.archives)
    then err not_found
    else if live
    then ok (purge_live owner_id relationship_id now cleared)
    else ok cleared
