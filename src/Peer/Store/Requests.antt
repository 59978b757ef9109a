-- ===== src/Peer/Store/Requests.antt =====
-- `submit` and `deny_superseded_request` (tomo_core/src/tomo_core/peer_store.py).
use tomo_v.Common.{
  ℕ, ◌+◌, ◌-◌, String, Bool, true, false, ◌&&◌, ◌||◌, not, Option, none, some, List, [], ◌∷◌, ◌++◌,
  map, ltb, leb, if◌then◌else◌, Result, ok, err, ◌>>=◌, ◌>>◌, guard, str_eq, first_where,
  exists_where, update_where, count_where,
}
use tomo_v.Peer.Rows.{
  PeerError, rate_limited, thread_not_found, thread_expired, thread_limit, integrity, not_found,
  PeerDb, RelationRow, GrantRow, ThreadRow, RequestRow, ConfirmationRow, NoticeRow,
  ConfirmationStatus, NoticeStatus, AuditCode, is_open, awaits_confirmation, is_undecided,
  is_unsettled, relation_is, thread_is, request_is, confirmation_is, notice_is, grants_of,
  record_audit, seconds, thread_lifetime, confirmation_lifetime,
}
use tomo_v.Peer.Store.Relations.{deny_request, suppress_notice, of_relation}

-- UNIQUE(sender,generation_id,call_id)
unfoldable pub same_call : RequestRow → RequestRow → Bool
same_call q p =
    str_eq p.sender q.sender && str_eq p.generation_id q.generation_id && str_eq p.call_id q.call_id

unfoldable pub pending_of : PeerDb → String → Option String
pending_of db request_id =
    elim (first_where (λ c. str_eq c.request_id request_id) db.confirmations) [
      | none ↦ none
      | some c ↦ some c.pending_id
    ]

-- the requests of the relationship in the last hour
unfoldable pub recent_requests : String → ℕ → PeerDb → ℕ
recent_requests relationship_id now db =
    count_where (λ p. of_relation relationship_id p && leb (now - seconds 3600) p.created_at)
      db.requests

abbrev pub new_thread : RequestRow → String → ℕ → ThreadRow
new_thread q purpose now = record {
  thread_id = q.thread_id;
  relationship_id = q.relationship_id;
  sender = q.sender;
  recipient = q.recipient;
  purpose = purpose;
  created_at = now;
  expires_at = now + thread_lifetime;
  request_count = 1;
}

abbrev pub thread_fits : RequestRow → ThreadRow → Bool
thread_fits q t =
    str_eq t.relationship_id q.relationship_id
    && str_eq t.sender q.sender
    && str_eq t.recipient q.recipient

abbrev pub count_request : ThreadRow → ThreadRow
count_request t = record t { request_count = t.request_count + 1 }

-- the thread of a request, opened or counted up, and the request's place in it
unfoldable pub enter_thread :
    Option ThreadRow → RequestRow → String → ℕ → PeerDb → Result PeerError (ℕ × PeerDb)
enter_thread none q purpose now db =
    ok (1, record db { threads = db.threads ++ new_thread q purpose now ∷ [] })
enter_thread (some t) q purpose now db = do
  guard (thread_fits q t) thread_not_found
  guard (ltb now t.expires_at) thread_expired
  guard (ltb t.request_count 4) thread_limit
  ok (
    t.request_count + 1,
    record db { threads = update_where (thread_is q.thread_id) count_request db.threads },
  )

abbrev pub placed : RequestRow → ℕ → ℕ → RequestRow
placed q sequence now = record q {
  sequence = sequence;
  lease_token = none;
  lease_until = none;
  execution_deadline = none;
  error_code = none;
  attempt_count = 0;
  available_at = now;
}

-- `{g.grantor_owner_id: g.revision for g in grants}`
abbrev pub revisions : List GrantRow → List (String × ℕ)
revisions gs = map (λ (g : GrantRow). (g.grantor, g.revision)) gs

module _ (sha256 preview : String → String) where
  abbrev pub new_confirmation :
      String → RequestRow → RelationRow → List GrantRow → ℕ → ConfirmationRow
  new_confirmation pending_id q r gs now = record {
    pending_id = pending_id;
    request_id = q.request_id;
    affected_owner = q.recipient;
    action_kind = q.action;
    payload_hash = sha256 q.text;
    preview = preview q.text;
    status = ConfirmationStatus.pending;
    expires_at = now + confirmation_lifetime;
    created_at = now;
    decided_at = none;
    relationship_revision = r.revision;
    grant_revisions = revisions gs;
  }

  abbrev pub new_notice : String → ℕ → NoticeRow
  new_notice pending_id now = record {
    pending_id = pending_id;
    status = NoticeStatus.pending;
    lease_token = none;
    lease_until = none;
    available_at = now;
  }

  -- the confirmation that a request waits for, with its notice
  unfoldable pub ask_confirmation :
      String → RequestRow → ℕ → PeerDb → Result PeerError (Option String × PeerDb)
  ask_confirmation pending_id q now db =
      if not (awaits_confirmation q.status)
      then ok (none, db)
      else elim (first_where (relation_is q.relationship_id) db.relationships) [
        | none ↦ err not_found
        | some r ↦ ok (
          some pending_id,
          record db {
            confirmations =
                db.confirmations
                ++ new_confirmation pending_id q r (grants_of db r.relationship_id) now ∷ [];
            notices = db.notices ++ new_notice pending_id now ∷ [];
          },
        )
      ]

  unfoldable pub insert_request : RequestRow → PeerDb → Result PeerError PeerDb
  insert_request q db =
      if exists_where (λ p. str_eq p.request_id q.request_id || same_call q p) db.requests
      then err integrity
      else ok (record db { requests = db.requests ++ q ∷ [] })

  unfoldable pub submit_new :
      RequestRow
      → String
      → String
      → ℕ
      → PeerDb
      → Result PeerError ((RequestRow × Option String × Bool) × PeerDb)
  unfolding enter_thread insert_request ask_confirmation recent_requests
  submit_new q purpose pending_id now db = do
    guard (ltb (recent_requests q.relationship_id now db) 10) rate_limited
    entered ← enter_thread (first_where (thread_is q.thread_id) db.threads) q purpose now db
    let saved = placed q entered.0 now
    inserted ← insert_request saved entered.1
    asked ← ask_confirmation pending_id saved now inserted
    ok (
      (saved, asked.0, false),
      record_audit saved.sender saved.relationship_id AuditCode.submit now asked.1,
    )

  -- `submit`: the request, its pending confirmation, and whether it is a duplicate
  unfoldable pub submit_request :
      RequestRow
      → String
      → String
      → ℕ
      → PeerDb
      → Result PeerError ((RequestRow × Option String × Bool) × PeerDb)
  unfolding same_call pending_of submit_new
  submit_request q purpose pending_id now db = elim (first_where (same_call q) db.requests) [
    | some duplicate ↦ ok ((duplicate, pending_of db duplicate.request_id, true), db)
    | none ↦ submit_new q purpose pending_id now db
  ]

-- `duplicate_submission`, without the recipient's handle
unfoldable pub duplicate_submission : RequestRow → PeerDb → Option (RequestRow × Option String)
unfolding same_call pending_of
duplicate_submission q db = elim (first_where (same_call q) db.requests) [
  | none ↦ none
  | some duplicate ↦ some (duplicate, pending_of db duplicate.request_id)
]

-- `deny_superseded_request`
abbrev pub cancel_confirmation : ℕ → ConfirmationRow → ConfirmationRow
cancel_confirmation now c = record c {
  status = ConfirmationStatus.cancelled;
  decided_at = some now;
}

unfoldable pub cancel_found : Option ConfirmationRow → ℕ → PeerDb → PeerDb
cancel_found none now db = db
cancel_found (some c) now db = record db {
  confirmations =
      update_where (confirmation_is c.pending_id) (cancel_confirmation now) db.confirmations;
  notices =
      update_where (λ n. notice_is c.pending_id n && is_unsettled n.status) suppress_notice
        db.notices;
}

unfoldable pub deny_superseded_request : String → ℕ → PeerDb → Bool × PeerDb
unfolding cancel_found
deny_superseded_request request_id now db =
    let test = λ (q : RequestRow). request_is request_id q && is_open q.status in
    let cancelled =
      cancel_found
        (first_where (λ c. str_eq c.request_id request_id && is_undecided c.status)
          db.confirmations)
        now db in
    (
      exists_where test cancelled.requests,
      record cancelled { requests = update_where test deny_request cancelled.requests },
    )
