-- ===== src/Peer/Store/Notices.antt =====
-- The notices that ask a recipient for a confirmation (tomo_core/src/tomo_core/peer_store.py).
use Prim.Native.String.{compare as str_compare}
use text.Mathlib.Text.{is_lt}
use tomo_v.Common.{
  ℕ, ◌+◌, String, Bool, true, false, ◌&&◌, ◌||◌, not, Option, none, some, List, [], ◌∷◌, ltb, leb,
  ◌==◌, if◌then◌else◌, Result, ok, ◌>>◌, guard, str_eq, first_where, exists_where, update_where,
}
use tomo_v.Peer.Rows.{
  PeerError, invalid_lease_seconds, invalid_notice_outcome, PeerDb, RelationRow, RequestRow,
  ThreadRow, ConfirmationRow, NoticeRow, NoticeStatus, is_active, is_undecided, is_pending_notice,
  is_leased_notice, is_attempting, is_availability, relation_is, request_is, thread_is,
  confirmation_is, notice_is, later_than, passed, token_is, seconds,
}
use tomo_v.Peer.Store.Relations.{suppress_notice}

-- a notice with the rows that its text is made of
pub record NoticeSource : Type 0 where
  pub notice : NoticeRow
  pub confirmation : ConfirmationRow
  pub request : RequestRow
  pub thread : ThreadRow
  pub relation : RelationRow

-- `PeerNotice`, the parts of its text apart, with the owner that it goes to
pub record PeerNotice : Type 0 where
  pub pending_id : String
  pub lease_token : String
  pub peer_handle : String
  pub is_availability : Bool
  pub purpose : String
  pub preview : String
  pub recipient : String

abbrev pub set_notices : (NoticeRow → Bool) → (NoticeRow → NoticeRow) → PeerDb → PeerDb
set_notices p f db = record db { notices = update_where p f db.notices }

abbrev pub release_notice : NoticeStatus → NoticeRow → NoticeRow
release_notice status n = record n { status = status; lease_token = none; lease_until = none }

-- leases that ran out: an attempt is of unknown fate, a lease that was not used waits again
unfoldable pub expire_notices : ℕ → PeerDb → PeerDb
expire_notices now db =
    set_notices (λ n. is_leased_notice n.status && passed n.lease_until now)
      (release_notice NoticeStatus.pending)
      (set_notices (λ n. is_attempting n.status && passed n.lease_until now)
        (release_notice NoticeStatus.unknown) db)

unfoldable pub join_request :
    PeerDb → NoticeRow → ConfirmationRow → Option RequestRow → Option NoticeSource
join_request db n c none = none
join_request db n c (some q) = elim (first_where (thread_is q.thread_id) db.threads) [
  | none ↦ none
  | some t ↦ elim (first_where (relation_is q.relationship_id) db.relationships) [
    | none ↦ none
    | some r ↦ some (record { notice = n; confirmation = c; request = q; thread = t; relation = r })
  ]
]

unfoldable pub join_notice : PeerDb → NoticeRow → Option NoticeSource
unfolding join_request
join_notice db n = elim (first_where (confirmation_is n.pending_id) db.confirmations) [
  | none ↦ none
  | some c ↦ join_request db n c (first_where (request_is c.request_id) db.requests)
]

-- ORDER BY c.created_at,c.pending_id
unfoldable pub insert_source : NoticeSource → List NoticeSource → List NoticeSource
insert_source s [] = s ∷ []
insert_source s (u ∷ us) =
    if ltb s.confirmation.created_at u.confirmation.created_at
      || s.confirmation.created_at == u.confirmation.created_at
        && is_lt (str_compare s.confirmation.pending_id u.confirmation.pending_id)
    then s ∷ u ∷ us
    else u ∷ insert_source s us

unfoldable pub due_notices : ℕ → PeerDb → List NoticeRow → List NoticeSource
unfolding join_notice insert_source
due_notices now db [] = []
due_notices now db (n ∷ ns) =
    let rest = due_notices now db ns in
    if is_pending_notice n.status && leb n.available_at now
    then elim (join_notice db n) [ none ↦ rest | some s ↦ insert_source s rest ]
    else rest

-- the confirmation is decided or over, or the relationship is not active
unfoldable pub is_stale : ℕ → NoticeSource → Bool
is_stale now s =
    not (is_undecided s.confirmation.status)
    || leb s.confirmation.expires_at now
    || not (is_active s.relation.status)

abbrev pub lease_notice : String → ℕ → NoticeRow → NoticeRow
lease_notice token until n = record n {
  status = NoticeStatus.leased;
  lease_token = some token;
  lease_until = some until;
}

-- the text's parts: the purpose is cut to 80 characters where it is printed
abbrev pub notice_text : String → String → NoticeSource → PeerNotice
notice_text token handle s = record {
  pending_id = s.notice.pending_id;
  lease_token = token;
  peer_handle = handle;
  is_availability = is_availability s.request.kind;
  purpose = s.thread.purpose;
  preview = s.confirmation.preview;
  recipient = s.confirmation.affected_owner;
}

-- `_handle`
unfoldable pub handle_of : PeerDb → String → String
handle_of db owner_id = elim (first_where (λ h. str_eq h.owner_id owner_id) db.handles) [
  | none ↦ "unknown"
  | some h ↦ h.handle
]

-- the loop of `claim_notice`
unfoldable pub claim_notices :
    String → ℕ → ℕ → List NoticeSource → PeerDb → Option PeerNotice × PeerDb
unfolding is_stale handle_of
claim_notices token now lease_seconds [] db = (none, db)
claim_notices token now lease_seconds (s ∷ ss) db = elim (is_stale now s) [
  | true ↦
      claim_notices token now lease_seconds ss
        (set_notices (notice_is s.notice.pending_id) suppress_notice db)
  | false ↦ elim (str_eq (handle_of db s.request.sender) "unknown") [
    | true ↦ claim_notices token now lease_seconds ss (
        set_notices (notice_is s.notice.pending_id)
          (λ n. record n { status = NoticeStatus.suppressed }) db)
    | false ↦
        elim (exists_where (λ n. notice_is s.notice.pending_id n && is_pending_notice n.status)
          db.notices) [
            | true ↦ (
              some (notice_text token (handle_of db s.request.sender) s),
              set_notices (λ n. notice_is s.notice.pending_id n && is_pending_notice n.status)
                  (lease_notice token (now + seconds lease_seconds)) db,
            )
            | false ↦ claim_notices token now lease_seconds ss db
          ]
  ]
]

-- `claim_notice`
unfoldable pub claim_notice :
    String → ℕ → ℕ → PeerDb → Result PeerError (Option PeerNotice × PeerDb)
unfolding expire_notices due_notices claim_notices
claim_notice token now lease_seconds db = do
  guard (leb 1 lease_seconds && leb lease_seconds 3600) invalid_lease_seconds
  let fresh = expire_notices now db
  ok (claim_notices token now lease_seconds (due_notices now fresh fresh.notices) fresh)

-- the outcomes that `complete_notice` takes
abbrev pub is_outcome : NoticeStatus → Bool
is_outcome NoticeStatus.sent = true
is_outcome NoticeStatus.unknown = true
is_outcome NoticeStatus.suppressed = true
is_outcome NoticeStatus.pending = true
is_outcome _ = false

unfoldable pub holds_notice : (NoticeStatus → Bool) → String → String → ℕ → NoticeRow → Bool
holds_notice expected pending_id token now n =
    notice_is pending_id n
    && expected n.status
    && token_is n.lease_token token
    && later_than n.lease_until now

-- a notice that goes back to wait was leased only, any other was attempted
abbrev pub expected_status : NoticeStatus → NoticeStatus → Bool
expected_status outcome = if is_pending_notice outcome then is_leased_notice else is_attempting

-- `complete_notice`
unfoldable pub complete_notice :
    String → String → NoticeStatus → ℕ → PeerDb → Result PeerError (Bool × PeerDb)
unfolding holds_notice
complete_notice pending_id token outcome now db = do
  guard (is_outcome outcome) invalid_notice_outcome
  let test = holds_notice (expected_status outcome) pending_id token now
  ok (
    exists_where test db.notices,
    set_notices test
        (λ n. record n {
          status = outcome;
          lease_token = none;
          lease_until = none;
          available_at = if is_pending_notice outcome then now + seconds 60 else now;
        })
        db,
  )

-- `begin_notice_attempt`
unfoldable pub begin_notice_attempt : String → String → ℕ → PeerDb → Bool × PeerDb
unfolding holds_notice
begin_notice_attempt pending_id token now db =
    let test = holds_notice is_leased_notice pending_id token now in
    (
      exists_where test db.notices,
      set_notices test (λ n. record n { status = NoticeStatus.attempting }) db,
    )

-- `notice_recipient`
unfoldable pub notice_recipient : String → String → ℕ → PeerDb → Option String
unfolding holds_notice
notice_recipient pending_id token now db =
    if exists_where (holds_notice is_leased_notice pending_id token now) db.notices
    then elim (first_where (confirmation_is pending_id) db.confirmations) [
      | none ↦ none
      | some c ↦ some c.affected_owner
    ]
    else none
