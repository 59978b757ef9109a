-- ===== src/Peer/Store/Claims.antt =====
-- The claims of requests by the recipients' workers (tomo_core/src/tomo_core/peer_store.py).
use Prim.Native.String.{compare as str_compare}
use text.Mathlib.Text.{is_lt}
use tomo_v.Common.{
  ℕ, ◌+◌, ◌^◌, String, Bool, true, false, ◌&&◌, ◌||◌, not, Option, none, some, List, [], ◌∷◌, ◌++◌,
  ltb, leb, ◌==◌, if◌then◌else◌, Result, ok, ◌>>=◌, ◌>>◌, guard, str_eq, first_where, exists_where,
  update_where, select_where,
}
use tomo_v.Peer.Rows.{
  PeerError, invalid_lease_seconds, PeerDb, RelationRow, GrantRow, ThreadRow, RequestRow,
  ResponseRow, RequestStatus, ResponseStatus, AuditCode, is_active, is_leased, is_claimable,
  is_running, is_open, is_confirmed, relation_is, request_is, thread_is, grants_of, record_audit,
  later_than, passed, seconds,
}
use tomo_v.Peer.Store.Relations.{deny_request}
use tomo_v.Peer.Store.Responses.{insert_response, held_request, holds_claim, claim_fence}

abbrev pub set_requests : (RequestRow → Bool) → (RequestRow → RequestRow) → PeerDb → PeerDb
set_requests p f db = record db { requests = update_where p f db.requests }

-- the time of a request is over, or its last lease has run out
unfoldable pub is_exhausted : ℕ → RequestRow → Bool
is_exhausted now q =
    is_running q.status && passed q.execution_deadline now
    || is_leased q.status && passed q.lease_until now && leb 3 q.attempt_count

abbrev pub or_timeout : Option String → Option String
or_timeout none = some "peer_timeout"
or_timeout (some code) = some code

abbrev pub fail_request : RequestRow → RequestRow
fail_request q = record q {
  status = RequestStatus.failed;
  lease_token = none;
  lease_until = none;
  error_code = or_timeout q.error_code;
}

abbrev pub sorry_response : RequestRow → ℕ → ResponseRow
sorry_response q now = record {
  request_id = q.request_id;
  responder = q.recipient;
  frames = "unable to answer right now" ∷ [];
  status = ResponseStatus.failed;
  created_at = now;
}

-- INSERT OR IGNORE INTO peer_responses
unfoldable pub insert_or_ignore : ResponseRow → PeerDb → PeerDb
insert_or_ignore a db =
    if exists_where (λ b. str_eq b.request_id a.request_id) db.responses
    then db
    else record db { responses = db.responses ++ a ∷ [] }

abbrev pub running_request : String → RequestRow → Bool
running_request request_id q = request_is request_id q && is_running q.status

unfoldable pub fail_exhausted : ℕ → List RequestRow → PeerDb → PeerDb
unfolding insert_or_ignore
fail_exhausted now [] db = db
fail_exhausted now (q ∷ qs) db = fail_exhausted now qs (
    if exists_where (running_request q.request_id) db.requests
    then record_audit q.recipient q.relationship_id AuditCode.fail now (
        insert_or_ignore (sorry_response q now)
          (set_requests (running_request q.request_id) fail_request db))
    else db)

-- a request that was confirmed goes back to 'authorized', any other to 'pending'
unfoldable pub was_confirmed : PeerDb → String → Bool
was_confirmed db request_id =
    exists_where (λ c. str_eq c.request_id request_id && is_confirmed c.status) db.confirmations

abbrev pub waiting_status : Bool → RequestStatus
waiting_status true = RequestStatus.authorized
waiting_status false = RequestStatus.pending

abbrev pub release_request : PeerDb → RequestRow → RequestRow
release_request db q = record q {
  status = waiting_status (was_confirmed db q.request_id);
  lease_token = none;
  lease_until = none;
}

-- leases that ran out with attempts left
unfoldable pub release_expired : ℕ → PeerDb → PeerDb
release_expired now db =
    set_requests (λ q. is_leased q.status && passed q.lease_until now && ltb q.attempt_count 3)
      (release_request db) db

-- an earlier request of the thread is still open
unfoldable pub waits_behind : List RequestRow → RequestRow → Bool
waits_behind qs q =
    exists_where
      (λ p. str_eq p.thread_id q.thread_id && ltb p.sequence q.sequence && is_open p.status) qs

unfoldable pub is_candidate : List RequestRow → ℕ → RequestRow → Bool
unfolding waits_behind
is_candidate qs now q =
    is_claimable q.status
    && ltb q.attempt_count 3
    && leb q.available_at now
    && not (waits_behind qs q)

-- ORDER BY created_at,sequence,request_id
unfoldable pub comes_before : RequestRow → RequestRow → Bool
comes_before p q =
    ltb p.created_at q.created_at
    || p.created_at == q.created_at
      && (ltb p.sequence q.sequence
          || p.sequence == q.sequence && is_lt (str_compare p.request_id q.request_id))

unfoldable pub insert_request_row : RequestRow → List RequestRow → List RequestRow
insert_request_row p [] = p ∷ []
insert_request_row p (q ∷ qs) = if comes_before p q then p ∷ q ∷ qs else q ∷ insert_request_row p qs

unfoldable pub sort_requests : List RequestRow → List RequestRow
unfolding insert_request_row
sort_requests [] = []
sort_requests (q ∷ qs) = insert_request_row q (sort_requests qs)

abbrev pub earlier_time : ℕ → ℕ → ℕ
earlier_time a b = if ltb a b then a else b

abbrev pub or_deadline : Option ℕ → ℕ → Option ℕ
or_deadline none deadline = some deadline
or_deadline (some set) deadline = some set

abbrev pub lease_request : String → ℕ → ℕ → ThreadRow → RequestRow → RequestRow
lease_request token lease_seconds now t q = record q {
  status = RequestStatus.leased;
  lease_token = some token;
  lease_until = some (now + seconds lease_seconds);
  execution_deadline =
      or_deadline q.execution_deadline (earlier_time (now + seconds 60) t.expires_at);
  attempt_count = q.attempt_count + 1;
}

-- `claim_candidates`'s answer: the request as it stood, the token, the relationship, its grants and
-- the number of the attempt
pub record Candidate : Type 0 where
  pub request : RequestRow
  pub token : String
  pub relation : RelationRow
  pub grants : List GrantRow
  pub attempt : ℕ

unfoldable pub same_status : RequestStatus → RequestStatus → Bool
same_status RequestStatus.pending RequestStatus.pending = true
same_status RequestStatus.authorized RequestStatus.authorized = true
same_status _ _ = false

-- `request_id=? AND status=?`; the status is 'pending' or 'authorized'
unfoldable pub still_waits : RequestRow → RequestRow → Bool
unfolding same_status
still_waits q p = request_is q.request_id p && same_status p.status q.status

-- the relationship is active and the thread is open
unfoldable pub is_open_for : Option RelationRow → Option ThreadRow → ℕ → Bool
is_open_for (some r) (some t) now = is_active r.status && ltb now t.expires_at
is_open_for (some r) none now = false
is_open_for none t now = false

unfoldable pub claim_one :
    Option RelationRow
    → Option ThreadRow
    → RequestRow
    → String
    → ℕ
    → ℕ
    → PeerDb
    → Option Candidate × PeerDb
unfolding still_waits
claim_one (some r) (some t) q token lease_seconds now db =
    if exists_where (still_waits q) db.requests
    then (
      some (record {
        request = q;
        token = token;
        relation = r;
        grants = grants_of db r.relationship_id;
        attempt = q.attempt_count + 1;
      }),
      set_requests (still_waits q) (lease_request token lease_seconds now t) db,
    )
    else (none, db)
claim_one (some r) none q token lease_seconds now db = (none, db)
claim_one none t q token lease_seconds now db = (none, db)

-- the loop over the candidates; requests whose relationship or thread is over are denied on the way
unfoldable pub claim_requests :
    String → ℕ → ℕ → List RequestRow → PeerDb → Option Candidate × PeerDb
unfolding is_open_for claim_one
claim_requests token lease_seconds now [] db = (none, db)
claim_requests token lease_seconds now (q ∷ qs) db =
    let relation = first_where (relation_is q.relationship_id) db.relationships in
    let thread = first_where (thread_is q.thread_id) db.threads in
    elim (is_open_for relation thread now) [
      | false ↦ claim_requests token lease_seconds now qs (
          set_requests (request_is q.request_id) (λ p. record p { status = RequestStatus.denied })
            db)
      | true ↦
          let claimed = claim_one relation thread q token lease_seconds now db in
          elim claimed.0 [
            | some candidate ↦ (some candidate, claimed.1)
            | none ↦ claim_requests token lease_seconds now qs claimed.1
          ]
    ]

-- the tables once requests that are exhausted have failed and expired leases are released
unfoldable pub recover_claims : ℕ → PeerDb → PeerDb
unfolding fail_exhausted release_expired is_exhausted
recover_claims now db =
    release_expired now (fail_exhausted now (select_where (is_exhausted now) db.requests) db)

-- `claim_candidates`; a lease lasts 15 seconds at most
unfoldable pub claim_candidates :
    String → ℕ → ℕ → PeerDb → Result PeerError (Option Candidate × PeerDb)
unfolding recover_claims claim_requests sort_requests is_candidate
claim_candidates token lease_seconds now db = do
  guard (leb 1 lease_seconds && leb lease_seconds 3600) invalid_lease_seconds
  let recovered = recover_claims now db
  ok (
      claim_requests token (earlier_time lease_seconds 15) now
        (sort_requests (select_where (is_candidate recovered.requests now) recovered.requests))
        recovered)

-- `deny_claim`
unfoldable pub deny_claim : String → String → PeerDb → Bool × PeerDb
deny_claim request_id token db = (
  exists_where (held_request request_id token) db.requests,
  set_requests (held_request request_id token) deny_request db,
)

abbrev pub retry_request : PeerDb → String → ℕ → RequestRow → RequestRow
retry_request db error_code available_at q = record q {
  status = waiting_status (was_confirmed db q.request_id);
  lease_token = none;
  lease_until = none;
  available_at = available_at;
  error_code = some error_code;
}

abbrev pub give_up : String → RequestRow → RequestRow
give_up error_code q = record q {
  status = RequestStatus.failed;
  lease_token = none;
  lease_until = none;
  error_code = some error_code;
}

unfoldable pub defer_found :
    Option RequestRow → String → String → ℕ → PeerDb → Result PeerError (Bool × PeerDb)
unfolding insert_response
defer_found none token error_code now db = ok (false, db)
defer_found (some q) token error_code now db =
    if leb 3 q.attempt_count
    then (do
      answered ←
          insert_response (sorry_response q now)
            (set_requests (held_request q.request_id token) (give_up error_code) db)
      ok (false, record_audit q.recipient q.relationship_id AuditCode.fail now answered))
    else ok (
      true,
      set_requests (held_request q.request_id token)
          (retry_request db error_code (now + seconds (earlier_time (2 ^ q.attempt_count) 60))) db,
    )

-- `defer`; the error code is as `_safe_error_code` returns it
unfoldable pub defer_request :
    String → String → String → ℕ → PeerDb → Result PeerError (Bool × PeerDb)
unfolding defer_found
defer_request request_id token error_code now db =
    defer_found
      (first_where (λ q. held_request request_id token q && later_than q.lease_until now)
        db.requests)
      token error_code now db

-- the lease is extended, if the claim passes its fence
unfoldable pub beat : String → String → ℕ → ℕ → Bool → PeerDb → Bool × PeerDb
unfolding holds_claim
beat request_id token now lease_seconds false db = (false, db)
beat request_id token now lease_seconds true db = (
  exists_where (holds_claim db request_id token now) db.requests,
  set_requests (holds_claim db request_id token now)
      (λ q. record q { lease_until = some (now + seconds lease_seconds) }) db,
)

-- `heartbeat`
unfoldable pub heartbeat :
    String
    → String
    → ℕ
    → ℕ
    → Option (ℕ × List (String × ℕ))
    → PeerDb
    → Result PeerError (Bool × PeerDb)
unfolding claim_fence beat
heartbeat request_id token now lease_seconds seen db = do
  guard (leb 1 lease_seconds && leb lease_seconds 3600) invalid_lease_seconds
  ok (
      beat request_id token now (earlier_time lease_seconds 15)
        (claim_fence db request_id token seen now) db)

-- `claim_is_active`
unfoldable pub claim_is_active :
    String → String → ℕ → Option (ℕ × List (String × ℕ)) → PeerDb → Bool
claim_is_active request_id token now seen db = claim_fence db request_id token seen now

-- `execution_deadline`
unfoldable pub execution_deadline : String → PeerDb → Option ℕ
execution_deadline request_id db = elim (first_where (request_is request_id) db.requests) [
  | none ↦ none
  | some q ↦ q.execution_deadline
]
