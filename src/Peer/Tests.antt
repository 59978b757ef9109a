-- ===== src/Peer/Tests.antt =====
-- Two owners, and the theorems of the peer modules at their tables.
use tomo_v.Common.{
  ℕ, zero, suc, ◌+◌, ◌≤◌, ◌<◌, String, Bool, true, false, ◌&&◌, Option, none, some, List, [], ◌∷◌,
  ◌++◌, map, ◌≡◌, refl, ◌↔◌, arith, All, Unique, Result, ok, err, first_where, exists_where,
}
use tomo_v.Peer.Rows.{
  PeerError, PeerDb, HandleRow, RelationRow, GrantRow, ThreadRow, RequestRow, RelationshipStatus,
  RequestKind, RequestAction, RequestStatus, is_open, is_unsent, is_undecided, request_is,
  ConfirmationRow, seconds,
}
use tomo_v.Peer.Policy.{Outcome, allow, decide}
use tomo_v.Peer.Policy.Allowed.{MayAnswer, decide-MayAnswer}
use tomo_v.Peer.Store.Relations.{
  delete_owner, accept_relation, update_grant, of_relation, notice_of, revoke_relation,
}
use tomo_v.Peer.Store.Requests.{submit_request, placed}
use tomo_v.Peer.Store.Responses.{response_ok, finish_request}
use tomo_v.Peer.Store.Claims.{Candidate, recover_claims, claim_candidates}
use tomo_v.Peer.Laws.Claims.{ClaimOf, IsNext, IsLeased, claim-ClaimOf}
use tomo_v.Peer.Laws.Finishing.{Finished, answer_row, finish-once}
use tomo_v.Peer.Store.Confirmations.{Verdict, replayed, decide_confirmation}
use tomo_v.Peer.Laws.Confirming.{asked_of, Confirmed, decide-once}
use tomo_v.Peer.Laws.Over.{IsOver, call, accepts, deletes, start}
use tomo_v.Peer.Laws.Revocation.{revoke-ends}

abbrev pair : RelationRow
pair = record {
  relationship_id = "ab";
  owner_a = "alice";
  owner_b = "bob";
  invited_by = "alice";
  status = RelationshipStatus.active;
  created_at = 0;
  revision = 2;
}

abbrev grant_of : String → GrantRow
grant_of owner_id = record {
  relationship_id = "ab";
  grantor = owner_id;
  communicate = true;
  auto_reply = true;
  share_availability = false;
  revision = 1;
  expires_at = none;
  updated_at = 0;
}

abbrev question : RequestRow
question = record {
  request_id = "r";
  relationship_id = "ab";
  sender = "alice";
  recipient = "bob";
  thread_id = "t";
  generation_id = "g";
  call_id = "c";
  kind = RequestKind.ordinary_message;
  action = RequestAction.ask;
  text = "Lunch?";
  sequence = 1;
  created_at = 0;
  status = RequestStatus.pending;
  disclosure_scope = "none";
  lease_token = none;
  lease_until = none;
  execution_deadline = none;
  error_code = none;
  attempt_count = 0;
  available_at = 0;
}

abbrev peers : PeerDb
peers = record {
  deleted_owners = [];
  handles =
      record { handle = "alice"; owner_id = "alice"; created_at = 0 }
      ∷ record { handle = "bob"; owner_id = "bob"; created_at = 0 }
      ∷ [];
  relationships = pair ∷ [];
  grants = grant_of "alice" ∷ grant_of "bob" ∷ [];
  threads = [];
  requests = [];
  responses = [];
  confirmations = [];
  notices = [];
  audit = [];
  watermarks = [];
  archives = [];
}

decide-MayAnswer_example :
    ((decide (some pair) (grant_of "alice" ∷ grant_of "bob" ∷ []) (some question) 5).outcome
      ≡ allow)
    ↔ MayAnswer pair (grant_of "alice" ∷ grant_of "bob" ∷ []) question 5
decide-MayAnswer_example = decide-MayAnswer pair (grant_of "alice" ∷ grant_of "bob" ∷ []) question 5

abbrev same : String → String
same s = s

abbrev tables_of {ℓ} : {A : Type ℓ} → Result PeerError (A × PeerDb) → PeerDb
tables_of (ok answer) = answer.1
tables_of (err e) = peers

abbrev submission : Result PeerError ((RequestRow × Option String × Bool) × PeerDb)
submission = submit_request same same question "lunch" "p" 1 peers

abbrev asked : PeerDb
asked = tables_of submission

abbrev claim : Result PeerError (Option Candidate × PeerDb)
claim = claim_candidates "token" 60 2 asked

abbrev claimed : PeerDb
claimed = tables_of claim

abbrev candidate : Candidate
candidate = record {
  request = placed question 1 1;
  token = "token";
  relation = pair;
  grants = grant_of "alice" ∷ grant_of "bob" ∷ [];
  attempt = 1;
}

claims : claim ≡ ok (some candidate, claimed)
unfolding claim_candidates submit_request tomo_v.Common.select_where tomo_v.Common.update_where
    first_where tomo_v.Common.count_where exists_where tomo_v.Peer.Rows.passed
    tomo_v.Peer.Rows.grants_of
claims = refl

claim-ClaimOf_example :
    ClaimOf (IsNext (recover_claims 2 asked).requests 2) (recover_claims 2 asked) 2 candidate
    × (1 ≤ candidate.attempt)
    × (candidate.attempt ≤ 3)
    × IsLeased (recover_claims 2 asked).requests claimed.requests (2 + seconds 15) candidate
    × (candidate.token ≡ candidate.token)
claim-ClaimOf_example = claim-ClaimOf "token" 60 2 asked claimed candidate claims

abbrev seen : List (String × ℕ)
seen = ("bob", 1) ∷ ("alice", 1) ∷ []

abbrev finishing : Result PeerError (Bool × PeerDb)
finishing = finish_request "bob" "r" "token" ("Yes" ∷ []) 2 seen false none 3 claimed

abbrev finished : PeerDb
finished = tables_of finishing

finishes : finishing ≡ ok (true, finished)
unfolding finish_request claim_candidates submit_request tomo_v.Common.str_length
    tomo_v.Common.strip first_where tomo_v.Common.select_where tomo_v.Common.update_where
    tomo_v.Common.count_where exists_where tomo_v.Peer.Rows.passed tomo_v.Peer.Rows.token_is
    tomo_v.Peer.Rows.later_than tomo_v.Peer.Rows.grants_of tomo_v.Peer.Policy.allows
finishes = refl

finish-once_example :
    Finished claimed "bob" "r" "token" 2 seen 3
    × (finished.responses ≡ claimed.responses ++ answer_row "r" "bob" ("Yes" ∷ []) false 3 ∷ [])
    × ((owner' : String) (frames' : List String) (revision' : ℕ)
          (grant_revisions' : List (String × ℕ)) (failed' : Bool) (error_code' : Option String)
          (later : ℕ)
        → response_ok frames' ≡ true
        → finish_request owner' "r" "token" frames' revision' grant_revisions' failed' error_code'
            later finished
          ≡ ok (false, finished))
finish-once_example =
    finish-once "bob" "r" "token" ("Yes" ∷ []) 2 seen false none 3 claimed finished finishes

abbrev revoked : PeerDb
revoked = (revoke_relation "bob" "ab" false 3 claimed).1

revokes : revoke_relation "bob" "ab" false 3 claimed ≡ (true, revoked)
unfolding revoke_relation claim_candidates submit_request exists_where tomo_v.Common.select_where
    tomo_v.Common.update_where first_where tomo_v.Common.count_where tomo_v.Peer.Rows.passed
revokes = refl

-- the other owner accepts in vain, and then leaves
abbrev gone : PeerDb
gone = delete_owner "alice" 5 (accept_relation "bob" "ab" 4 revoked).1

revoke-ends_example :
    All (λ q. of_relation "ab" q ≡ true → is_open q.status ≡ false) revoked.requests
    × All (λ n. notice_of claimed "ab" n ≡ true → is_unsent n.status ≡ false) revoked.notices
    × All (IsOver "ab") gone.relationships
    × ((other : String) (time : ℕ) → (accept_relation other "ab" time gone).1 ≡ gone)
    × ((grantee : String) (new : GrantRow) (expected time : ℕ)
        → new.relationship_id ≡ "ab"
        → update_grant grantee new expected time gone ≡ ok (none, gone))
unfolding claim_candidates tomo_v.Common.select_where tomo_v.Common.update_where submit_request
    first_where tomo_v.Common.count_where exists_where tomo_v.Peer.Rows.passed
revoke-ends_example =
    revoke-ends "bob" "ab" false 3 claimed revoked gone (tt, tt) revokes
      (call (accepts "bob" "ab" 4 revoked)
        (call (deletes "alice" 5 (accept_relation "bob" "ab" 4 revoked).1) (start gone)))

abbrev secret : RequestRow
secret = record question {
  kind = RequestKind.sensitive;
  status = RequestStatus.confirmation_pending;
}

abbrev waiting : PeerDb
waiting = tables_of (submit_request same same secret "lunch" "p" 1 peers)

abbrev decided : PeerDb
decided = (decide_confirmation same "bob" "p" true 2 waiting).1

decides : decide_confirmation same "bob" "p" true 2 waiting ≡ (Verdict.confirmed, decided)
unfolding decide_confirmation submit_request first_where tomo_v.Common.count_where exists_where
    tomo_v.Peer.Store.Responses.same_revisions tomo_v.Peer.Rows.grants_of tomo_v.Common.select_where
    tomo_v.Peer.Policy.allows
decides = refl

decide-once_example :
    ((c : ConfirmationRow) × (q : RequestRow) × (first_where
          (asked_of "bob" "p")
          waiting.confirmations
        ≡ some c)
      × (first_where (request_is c.request_id) waiting.requests ≡ some q)
      × (is_undecided c.status ≡ true)
      × (Verdict.confirmed ≡ Verdict.confirmed → Confirmed same waiting c q true 2))
    × ((approve' : Bool) (later : ℕ)
        → decide_confirmation same "bob" "p" approve' later decided ≡ (replayed, decided))
decide-once_example =
    decide-once same "bob" "p" true 2 waiting decided Verdict.confirmed decides refl
