-- ===== src/Peer/Store/Responses.antt =====
-- The fence of a claim, and `finish` (tomo_core/src/tomo_core/peer_store.py).
use tomo_v.Common.{
  ℕ, ◌+◌, String, Bool, true, false, ◌&&◌, ◌||◌, not, Option, none, some, List, [], ◌∷◌, ◌++◌, ltb,
  leb, ◌==◌, if◌then◌else◌, Result, ok, err, ◌>>=◌, ◌>>◌, guard, str_eq, first_where, exists_where,
  update_where, length, str_length, is_empty, strip,
}
use tomo_v.Peer.Rows.{
  PeerError, integrity, invalid_frames, PeerDb, RelationRow, RequestRow, ResponseRow, RequestStatus,
  ResponseStatus, AuditCode, is_active, is_leased, relation_is, request_is, grants_of, record_audit,
  later_than, token_is,
}
use tomo_v.Peer.Policy.{allows}
use tomo_v.Peer.Store.Requests.{revisions}

-- dict equality of the revisions of grants, whose grantors are distinct
unfoldable pub has_revision : List (String × ℕ) → String × ℕ → Bool
has_revision [] p = false
has_revision (q ∷ qs) p = str_eq q.0 p.0 && q.1 == p.1 || has_revision qs p

unfoldable pub all_revisions : List (String × ℕ) → List (String × ℕ) → Bool
unfolding has_revision
all_revisions bs [] = true
all_revisions bs (p ∷ ps) = has_revision bs p && all_revisions bs ps

unfoldable pub same_revisions : List (String × ℕ) → List (String × ℕ) → Bool
unfolding all_revisions
same_revisions left right = length left == length right && all_revisions right left

-- the claim of a request at `now`: the token, the lease, the deadline
unfoldable pub leased_to : String → String → ℕ → RequestRow → Bool
leased_to request_id token now q =
    request_is request_id q
    && is_leased q.status
    && token_is q.lease_token token
    && later_than q.lease_until now
    && later_than q.execution_deadline now

-- the claim, under a thread that is open and whose relationship is active
unfoldable pub holds_claim : PeerDb → String → String → ℕ → RequestRow → Bool
unfolding leased_to
holds_claim db request_id token now q =
    leased_to request_id token now q
    && exists_where
        (λ t.
          str_eq t.thread_id q.thread_id
          && ltb now t.expires_at
          && exists_where (λ r. str_eq r.relationship_id t.relationship_id && is_active r.status)
              db.relationships)
        db.threads

-- the claim of the recipient, under a thread that is open
unfoldable pub may_finish : PeerDb → String → String → String → ℕ → RequestRow → Bool
unfolding leased_to
may_finish db owner_id request_id token now q =
    leased_to request_id token now q
    && str_eq q.recipient owner_id
    && exists_where (λ t. str_eq t.thread_id q.thread_id && ltb now t.expires_at) db.threads

-- the revisions that the claimant saw are still those of the relationship and its grants, and the
-- policy still allows the request
unfoldable pub still_allowed : PeerDb → RelationRow → ℕ → List (String × ℕ) → RequestRow → ℕ → Bool
unfolding same_revisions
still_allowed db r relationship_revision grant_revisions q now =
    let gs = grants_of db r.relationship_id in
    r.revision == relationship_revision
    && same_revisions (revisions gs) grant_revisions
    && allows (some r) gs (some q) now

-- `_claim_fence`
unfoldable pub fence_found : PeerDb → Option RequestRow → Option (ℕ × List (String × ℕ)) → ℕ → Bool
unfolding still_allowed
fence_found db none seen now = false
fence_found db (some q) none now = true
fence_found db (some q) (some (revision, grant_revisions)) now =
    elim (first_where (relation_is q.relationship_id) db.relationships) [
      | none ↦ false
      | some r ↦ still_allowed db r revision grant_revisions q now
    ]

unfoldable pub claim_fence : PeerDb → String → String → Option (ℕ × List (String × ℕ)) → ℕ → Bool
unfolding holds_claim fence_found
claim_fence db request_id token seen now =
    fence_found db (first_where (holds_claim db request_id token now) db.requests) seen now

unfoldable pub all_frames : List String → Bool
all_frames [] = true
all_frames (f ∷ fs) = not (is_empty (strip f)) && all_frames fs

unfoldable pub frames_length : List String → ℕ
frames_length [] = 0
frames_length (f ∷ fs) = str_length f + frames_length fs

-- `PeerResponse.__post_init__`: one to three frames, none blank, 2000 characters in all
unfoldable pub response_ok : List String → Bool
unfolding all_frames frames_length
response_ok frames =
    leb 1 (length frames)
    && leb (length frames) 3
    && leb (frames_length frames) 2000
    && all_frames frames

abbrev pub finished_status : Bool → RequestStatus
finished_status true = RequestStatus.failed
finished_status false = RequestStatus.completed

abbrev pub response_status : Bool → ResponseStatus
response_status true = ResponseStatus.failed
response_status false = ResponseStatus.completed

abbrev pub finished_code : Bool → AuditCode
finished_code true = AuditCode.fail
finished_code false = AuditCode.complete

abbrev pub end_request : Bool → Option String → RequestRow → RequestRow
end_request failed error_code q = record q {
  status = finished_status failed;
  lease_token = none;
  lease_until = none;
  error_code = if failed then error_code else none;
}

-- request_id TEXT PRIMARY KEY of peer_responses
unfoldable pub insert_response : ResponseRow → PeerDb → Result PeerError PeerDb
insert_response a db =
    if exists_where (λ b. str_eq b.request_id a.request_id) db.responses
    then err integrity
    else ok (record db { responses = db.responses ++ a ∷ [] })

abbrev pub held_request : String → String → RequestRow → Bool
held_request request_id token q =
    request_is request_id q && is_leased q.status && token_is q.lease_token token

unfoldable pub finish_claim :
    RequestRow
    → String
    → String
    → List String
    → Bool
    → Option String
    → ℕ
    → PeerDb
    → Result PeerError (Bool × PeerDb)
unfolding insert_response
finish_claim q owner_id token frames failed error_code now db = do
  answered ←
      insert_response
        (record {
          request_id = q.request_id;
          responder = owner_id;
          frames = frames;
          status = response_status failed;
          created_at = now;
        })
        (record db {
          requests =
              update_where (held_request q.request_id token) (end_request failed error_code)
                db.requests;
        })
  ok (true, record_audit owner_id q.relationship_id (finished_code failed) now answered)

unfoldable pub finish_found :
    Option RequestRow
    → String
    → String
    → List String
    → ℕ
    → List (String × ℕ)
    → Bool
    → Option String
    → ℕ
    → PeerDb
    → Result PeerError (Bool × PeerDb)
unfolding still_allowed finish_claim
finish_found none owner_id token frames revision grant_revisions failed error_code now db =
    ok (false, db)
finish_found (some q) owner_id token frames revision grant_revisions failed error_code now db =
    elim (first_where (relation_is q.relationship_id) db.relationships) [
      | none ↦ ok (false, db)
      | some r ↦
          if is_active r.status && still_allowed db r revision grant_revisions q now
          then finish_claim q owner_id token frames failed error_code now db
          else ok (false, db)
    ]

-- `finish`
unfoldable pub finish_request :
    String
    → String
    → String
    → List String
    → ℕ
    → List (String × ℕ)
    → Bool
    → Option String
    → ℕ
    → PeerDb
    → Result PeerError (Bool × PeerDb)
unfolding response_ok finish_found may_finish
finish_request owner_id request_id token frames revision grant_revisions failed error_code now db =
    do
      guard (response_ok frames) invalid_frames
      finish_found (first_where (may_finish db owner_id request_id token now) db.requests) owner_id
          token frames revision grant_revisions failed error_code now db
