-- ===== src/Peer/Rows.antt =====
-- The states of tomo_core/src/tomo_core/peer_models.py and the tables of peer_store.py. Ids and
-- texts are as `_id` and `_text` return them: not blank, within their limits. A time is a number
-- of microseconds.
use Prim.Native.String.{compare as str_compare}
use text.Mathlib.Text.{is_lt}
use tomo_v.Common.{
  ℕ, ◌*◌, String, Bool, true, false, ◌||◌, Option, none, some, List, [], ◌∷◌, ◌++◌, ltb, leb,
  if◌then◌else◌, str_eq, exists_where, select_where,
}

-- What the peer modules raise.
pub data PeerError : Type 0 where
  owner_deleted handle_taken invalid_relationship rate_limited stale_revision thread_not_found :
      PeerError
  thread_expired thread_limit invalid_lease_seconds invalid_notice_outcome invalid_frames
        not_found :
      PeerError
  integrity : PeerError

pub data RelationshipStatus : Type 0 where
  pending active revoked blocked : RelationshipStatus

pub data RequestKind : Type 0 where
  ordinary_message availability sensitive : RequestKind

pub data RequestAction : Type 0 where
  ask mutating_action credentials third_party_forward commitment_proposal : RequestAction

pub data RequestStatus : Type 0 where
  pending confirmation_pending authorized leased completed failed denied : RequestStatus

pub data ConfirmationStatus : Type 0 where
  pending confirmed cancelled expired : ConfirmationStatus

pub data ResponseStatus : Type 0 where
  completed failed : ResponseStatus

-- `attempting` stands in the table only, not in the enumeration
pub data NoticeStatus : Type 0 where
  pending leased attempting sent unknown suppressed : NoticeStatus

pub data AuditCode : Type 0 where
  invite accept grant revoke block submit confirm cancel complete fail : AuditCode

abbrev pub is_active : RelationshipStatus → Bool
is_active RelationshipStatus.active = true
is_active _ = false

-- status IN('pending','active')
abbrev pub is_current : RelationshipStatus → Bool
is_current RelationshipStatus.pending = true
is_current RelationshipStatus.active = true
is_current _ = false

abbrev pub is_invited : RelationshipStatus → Bool
is_invited RelationshipStatus.pending = true
is_invited _ = false

-- MUTATING_ACTION, CREDENTIALS, THIRD_PARTY_FORWARD
abbrev pub is_unsafe : RequestAction → Bool
is_unsafe RequestAction.mutating_action = true
is_unsafe RequestAction.credentials = true
is_unsafe RequestAction.third_party_forward = true
is_unsafe _ = false

abbrev pub is_commitment : RequestAction → Bool
is_commitment RequestAction.commitment_proposal = true
is_commitment _ = false

abbrev pub is_availability : RequestKind → Bool
is_availability RequestKind.availability = true
is_availability _ = false

abbrev pub is_sensitive : RequestKind → Bool
is_sensitive RequestKind.sensitive = true
is_sensitive _ = false

-- AUTHORIZED, LEASED
abbrev pub is_authorized : RequestStatus → Bool
is_authorized RequestStatus.authorized = true
is_authorized RequestStatus.leased = true
is_authorized _ = false

abbrev pub is_leased : RequestStatus → Bool
is_leased RequestStatus.leased = true
is_leased _ = false

-- status IN('pending','authorized')
abbrev pub is_claimable : RequestStatus → Bool
is_claimable RequestStatus.pending = true
is_claimable RequestStatus.authorized = true
is_claimable _ = false

-- status IN('pending','authorized','leased')
abbrev pub is_running : RequestStatus → Bool
is_running RequestStatus.pending = true
is_running RequestStatus.authorized = true
is_running RequestStatus.leased = true
is_running _ = false

-- status NOT IN('completed','failed','denied')
abbrev pub is_open : RequestStatus → Bool
is_open RequestStatus.completed = false
is_open RequestStatus.failed = false
is_open RequestStatus.denied = false
is_open _ = true

abbrev pub awaits_confirmation : RequestStatus → Bool
awaits_confirmation RequestStatus.confirmation_pending = true
awaits_confirmation _ = false

abbrev pub is_undecided : ConfirmationStatus → Bool
is_undecided ConfirmationStatus.pending = true
is_undecided _ = false

abbrev pub is_confirmed : ConfirmationStatus → Bool
is_confirmed ConfirmationStatus.confirmed = true
is_confirmed _ = false

abbrev pub is_pending_notice : NoticeStatus → Bool
is_pending_notice NoticeStatus.pending = true
is_pending_notice _ = false

abbrev pub is_leased_notice : NoticeStatus → Bool
is_leased_notice NoticeStatus.leased = true
is_leased_notice _ = false

abbrev pub is_attempting : NoticeStatus → Bool
is_attempting NoticeStatus.attempting = true
is_attempting _ = false

-- status IN('pending','leased')
abbrev pub is_unsent : NoticeStatus → Bool
is_unsent NoticeStatus.pending = true
is_unsent NoticeStatus.leased = true
is_unsent _ = false

-- status IN('pending','leased','attempting')
abbrev pub is_unsettled : NoticeStatus → Bool
is_unsettled NoticeStatus.pending = true
is_unsettled NoticeStatus.leased = true
is_unsettled NoticeStatus.attempting = true
is_unsettled _ = false

pub record HandleRow : Type 0 where
  pub handle : String
  pub owner_id : String
  pub created_at : ℕ

pub record RelationRow : Type 0 where
  pub relationship_id : String
  pub owner_a : String
  pub owner_b : String
  pub invited_by : String
  pub status : RelationshipStatus
  pub created_at : ℕ
  pub revision : ℕ

-- a row of peer_grants; the grantee is the other owner of the relationship
pub record GrantRow : Type 0 where
  pub relationship_id : String
  pub grantor : String
  pub communicate : Bool
  pub auto_reply : Bool
  pub share_availability : Bool
  pub revision : ℕ
  pub expires_at : Option ℕ
  pub updated_at : ℕ

-- a row of peer_threads, whose status is always 'active'
pub record ThreadRow : Type 0 where
  pub thread_id : String
  pub relationship_id : String
  pub sender : String
  pub recipient : String
  pub purpose : String
  pub created_at : ℕ
  pub expires_at : ℕ
  pub request_count : ℕ

pub record RequestRow : Type 0 where
  pub request_id : String
  pub relationship_id : String
  pub sender : String
  pub recipient : String
  pub thread_id : String
  pub generation_id : String
  pub call_id : String
  pub kind : RequestKind
  pub action : RequestAction
  pub text : String
  pub sequence : ℕ
  pub created_at : ℕ
  pub status : RequestStatus
  pub disclosure_scope : String
  pub lease_token : Option String
  pub lease_until : Option ℕ
  pub execution_deadline : Option ℕ
  pub error_code : Option String
  pub attempt_count : ℕ
  pub available_at : ℕ

pub record ResponseRow : Type 0 where
  pub request_id : String
  pub responder : String
  pub frames : List String
  pub status : ResponseStatus
  pub created_at : ℕ

pub record ConfirmationRow : Type 0 where
  pub pending_id : String
  pub request_id : String
  pub affected_owner : String
  pub action_kind : RequestAction
  pub payload_hash : String
  pub preview : String
  pub status : ConfirmationStatus
  pub expires_at : ℕ
  pub created_at : ℕ
  pub decided_at : Option ℕ
  pub relationship_revision : ℕ
  pub grant_revisions : List (String × ℕ)

pub record NoticeRow : Type 0 where
  pub pending_id : String
  pub status : NoticeStatus
  pub lease_token : Option String
  pub lease_until : Option ℕ
  pub available_at : ℕ

pub record AuditRow : Type 0 where
  pub owner_id : String
  pub relationship_id : String
  pub action_code : AuditCode
  pub created_at : ℕ

pub record ArchiveRow : Type 0 where
  pub owner_id : String
  pub table_name : String
  pub relationship_id : Option String
  pub record_json : String

-- a row of peer_relationship_history_watermarks
pub record WatermarkRow : Type 0 where
  pub owner_id : String
  pub relationship_id : String
  pub purged_before : ℕ

pub record PeerDb : Type 0 where
  pub deleted_owners : List String
  pub handles : List HandleRow
  pub relationships : List RelationRow
  pub grants : List GrantRow
  pub threads : List ThreadRow
  pub requests : List RequestRow
  pub responses : List ResponseRow
  pub confirmations : List ConfirmationRow
  pub notices : List NoticeRow
  pub audit : List AuditRow
  pub watermarks : List WatermarkRow
  pub archives : List ArchiveRow

abbrev pub seconds : ℕ → ℕ
seconds n = n * 1000000

abbrev pub thread_lifetime : ℕ
thread_lifetime = seconds 900

abbrev pub confirmation_lifetime : ℕ
confirmation_lifetime = seconds 900

-- `Relationship.other_owner`
unfoldable pub other_owner : RelationRow → String → Option String
other_owner r owner_id =
    if str_eq owner_id r.owner_a
    then some r.owner_b
    else if str_eq owner_id r.owner_b
    then some r.owner_a
    else none

-- `? IN(owner_a,owner_b)`
abbrev pub is_party : String → RelationRow → Bool
is_party owner_id r = str_eq owner_id r.owner_a || str_eq owner_id r.owner_b

abbrev pub relation_is : String → RelationRow → Bool
relation_is relationship_id r = str_eq r.relationship_id relationship_id

abbrev pub request_is : String → RequestRow → Bool
request_is request_id r = str_eq r.request_id request_id

abbrev pub thread_is : String → ThreadRow → Bool
thread_is thread_id t = str_eq t.thread_id thread_id

abbrev pub confirmation_is : String → ConfirmationRow → Bool
confirmation_is pending_id c = str_eq c.pending_id pending_id

abbrev pub notice_is : String → NoticeRow → Bool
notice_is pending_id n = str_eq n.pending_id pending_id

-- `sorted((x, y))`
abbrev pub sort_pair : String → String → String × String
sort_pair x y = if is_lt (str_compare y x) then (y, x) else (x, y)

-- `_owner_deleted`
unfoldable pub is_deleted : PeerDb → String → Bool
is_deleted db owner_id = exists_where (str_eq owner_id) db.deleted_owners

-- `_grants`: the grants of a relationship
unfoldable pub grants_of : PeerDb → String → List GrantRow
grants_of db relationship_id =
    select_where (λ g. str_eq g.relationship_id relationship_id) db.grants

-- `_audit`
abbrev pub record_audit : String → String → AuditCode → ℕ → PeerDb → PeerDb
record_audit owner_id relationship_id code now db = record db {
  audit =
      db.audit
      ++ record {
        owner_id = owner_id;
        relationship_id = relationship_id;
        action_code = code;
        created_at = now;
      }
        ∷ [];
}

-- `lease_until>?`, which NULL does not satisfy
unfoldable pub later_than : Option ℕ → ℕ → Bool
later_than none now = false
later_than (some t) now = ltb now t

-- `lease_until<=?`, which NULL does not satisfy
unfoldable pub passed : Option ℕ → ℕ → Bool
passed none now = false
passed (some t) now = leb t now

-- `lease_token=?`, which NULL does not satisfy
unfoldable pub token_is : Option String → String → Bool
token_is none token = false
token_is (some held) token = str_eq held token
