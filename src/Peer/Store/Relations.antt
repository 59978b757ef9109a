-- ===== src/Peer/Store/Relations.antt =====
-- Handles, relationships and grants (tomo_core/src/tomo_core/peer_store.py).
use tomo_v.Common.{
  ℕ, ◌+◌, ◌-◌, String, Bool, true, false, ◌&&◌, ◌||◌, not, Option, none, some, List, [], ◌∷◌, ◌++◌,
  ltb, leb, ◌==◌, if◌then◌else◌, Result, ok, err, ◌>>◌, guard, str_eq, first_where, exists_where,
  update_where, delete_where, count_where, select_where,
}
use tomo_v.Peer.Rows.{
  PeerError, owner_deleted, handle_taken, invalid_relationship, rate_limited, stale_revision,
  integrity, PeerDb, HandleRow, RelationRow, GrantRow, RequestRow, NoticeRow, WatermarkRow,
  RelationshipStatus, RequestStatus, NoticeStatus, AuditCode, is_active, is_current, is_invited,
  is_open, is_unsent, is_party, relation_is, sort_pair, is_deleted, record_audit, seconds,
}

abbrev pub handle_is : String → HandleRow → Bool
handle_is handle h = str_eq h.handle handle

unfoldable pub put_handle : String → String → ℕ → PeerDb → PeerDb
put_handle owner_id handle now db =
    let kept =
      delete_where (λ h. str_eq h.owner_id owner_id && not (str_eq h.handle handle)) db.handles in
    record db {
      handles =
          if exists_where (λ h. str_eq h.handle handle || str_eq h.owner_id owner_id) kept
          then kept
          else kept ++ record { handle = handle; owner_id = owner_id; created_at = now } ∷ [];
      archives =
          delete_where (λ a. str_eq a.owner_id owner_id && str_eq a.table_name "peer_profile")
            db.archives;
    }

abbrev pub is_other_owner : Option HandleRow → String → Bool
is_other_owner none owner_id = false
is_other_owner (some h) owner_id = not (str_eq h.owner_id owner_id)

-- `register_handle`
unfoldable pub register_handle : String → String → ℕ → PeerDb → Result PeerError PeerDb
unfolding put_handle
register_handle owner_id handle now db = do
  guard (not (is_deleted db owner_id)) owner_deleted
  guard (not (is_other_owner (first_where (handle_is handle) db.handles) owner_id)) handle_taken
  ok (put_handle owner_id handle now db)

-- the invitations that the owner sent in the last hour and that still wait
unfoldable pub outbound : String → ℕ → PeerDb → ℕ
outbound owner_id recent db =
    count_where
      (λ r. str_eq r.invited_by owner_id && is_invited r.status && leb recent r.created_at)
      db.relationships

-- the invitations that others sent to the owner in the last hour and that still wait
unfoldable pub inbound : String → ℕ → PeerDb → ℕ
inbound owner_id recent db =
    count_where
      (λ r.
        is_invited r.status
        && not (str_eq r.invited_by owner_id)
        && is_party owner_id r
        && leb recent r.created_at)
      db.relationships

abbrev pub new_relation : String → String × String → String → ℕ → RelationRow
new_relation relationship_id pair owner_id now = record {
  relationship_id = relationship_id;
  owner_a = pair.0;
  owner_b = pair.1;
  invited_by = owner_id;
  status = RelationshipStatus.pending;
  created_at = now;
  revision = 1;
}

abbrev pub pair_is : String × String → RelationRow → Bool
pair_is pair r = str_eq r.owner_a pair.0 && str_eq r.owner_b pair.1

unfoldable pub invite_pair :
    Option RelationRow
    → String × String
    → String
    → String
    → String
    → ℕ
    → PeerDb
    → Result PeerError (Option RelationRow × PeerDb)
unfolding outbound inbound
invite_pair (some existing) pair owner_id target relationship_id now db = ok (some existing, db)
invite_pair none pair owner_id target relationship_id now db = do
  let recent = now - seconds 3600
  guard (ltb (outbound owner_id recent db) 10 && ltb (inbound target recent db) 20) rate_limited
  guard (not (exists_where (relation_is relationship_id) db.relationships)) integrity
  let relation = new_relation relationship_id pair owner_id now
  ok (
    some relation,
    record_audit owner_id relationship_id AuditCode.invite now
        (record db { relationships = db.relationships ++ relation ∷ [] }),
  )

unfoldable pub invite_found :
    Option HandleRow → String → String → ℕ → PeerDb → Result PeerError (Option RelationRow × PeerDb)
unfolding invite_pair
invite_found none owner_id relationship_id now db = ok (none, db)
invite_found (some h) owner_id relationship_id now db =
    let pair = sort_pair owner_id h.owner_id in
    if str_eq pair.0 pair.1
    then err invalid_relationship
    else invite_pair (first_where (pair_is pair) db.relationships) pair owner_id h.owner_id
        relationship_id now db

-- `invite`
unfoldable pub invite_peer :
    String → String → String → ℕ → PeerDb → Result PeerError (Option RelationRow × PeerDb)
unfolding invite_found
invite_peer owner_id handle relationship_id now db = do
  guard (not (is_deleted db owner_id)) owner_deleted
  invite_found (first_where (handle_is handle) db.handles) owner_id relationship_id now db

pub data Acceptance : Type 0 where
  accepted no_relationship not_invitee not_pending : Acceptance

abbrev pub set_relations : (RelationRow → Bool) → (RelationRow → RelationRow) → PeerDb → PeerDb
set_relations p f db = record db { relationships = update_where p f db.relationships }

abbrev pub set_relation_status : RelationshipStatus → RelationRow → RelationRow
set_relation_status status r = record r { status = status; revision = r.revision + 1 }

unfoldable pub accept_found :
    Option RelationRow → String → String → ℕ → PeerDb → Acceptance × PeerDb
accept_found none owner_id relationship_id now db = (no_relationship, db)
accept_found (some r) owner_id relationship_id now db =
    if str_eq r.invited_by owner_id
    then (not_invitee, db)
    else if is_active r.status
    then (accepted, db)
    else if not (is_invited r.status)
    then (not_pending, db)
    else (
      accepted,
      record_audit owner_id relationship_id AuditCode.accept now (
          set_relations (relation_is relationship_id)
            (set_relation_status RelationshipStatus.active) db),
    )

-- `relationship_id=? AND ? IN(owner_a,owner_b)`
abbrev pub owned_relation : String → String → RelationRow → Bool
owned_relation owner_id relationship_id r = relation_is relationship_id r && is_party owner_id r

-- `accept`
unfoldable pub accept_relation : String → String → ℕ → PeerDb → Acceptance × PeerDb
unfolding accept_found
accept_relation owner_id relationship_id now db =
    accept_found (first_where (owned_relation owner_id relationship_id) db.relationships) owner_id
      relationship_id now db

abbrev pub grant_is : String → String → GrantRow → Bool
grant_is relationship_id owner_id g =
    str_eq g.relationship_id relationship_id && str_eq g.grantor owner_id

abbrev pub grant_revision : Option GrantRow → ℕ
grant_revision none = 0
grant_revision (some g) = g.revision

-- INSERT ... ON CONFLICT(relationship_id,grantor) DO UPDATE
unfoldable pub put_grant : GrantRow → List GrantRow → List GrantRow
put_grant new gs =
    if exists_where (grant_is new.relationship_id new.grantor) gs
    then update_where (grant_is new.relationship_id new.grantor) (λ g. new) gs
    else gs ++ new ∷ []

unfoldable pub grant_found :
    Option RelationRow
    → String
    → GrantRow
    → ℕ
    → ℕ
    → PeerDb
    → Result PeerError (Option GrantRow × PeerDb)
unfolding put_grant
grant_found none grantee new expected now db = ok (none, db)
grant_found (some r) grantee new expected now db =
    if str_eq grantee new.grantor || not (is_party grantee r) then ok (none, db) else (do
      let current =
          grant_revision (first_where (grant_is new.relationship_id new.grantor) db.grants)
      guard (current == expected) stale_revision
      let saved = record new { revision = current + 1 }
      ok (
        some saved,
        record_audit new.grantor new.relationship_id AuditCode.grant now
            (record db { grants = put_grant saved db.grants }),
      ))

-- `update_grant`; the grant names the relationship and its grantor, its revision is set here
unfoldable pub update_grant :
    String → GrantRow → ℕ → ℕ → PeerDb → Result PeerError (Option GrantRow × PeerDb)
unfolding grant_found
update_grant grantee new expected now db =
    grant_found
      (first_where (λ r. owned_relation new.grantor new.relationship_id r && is_active r.status)
        db.relationships)
      grantee new expected now db

abbrev pub deny_request : RequestRow → RequestRow
deny_request q = record q { status = RequestStatus.denied; lease_token = none; lease_until = none }

abbrev pub suppress_notice : NoticeRow → NoticeRow
suppress_notice n = record n {
  status = NoticeStatus.suppressed;
  lease_token = none;
  lease_until = none;
}

-- the notice is about a request of the relationship
unfoldable pub notice_of : PeerDb → String → NoticeRow → Bool
notice_of db relationship_id n =
    exists_where
      (λ c.
        str_eq c.pending_id n.pending_id
        && exists_where
            (λ q. str_eq q.request_id c.request_id && str_eq q.relationship_id relationship_id)
            db.requests)
      db.confirmations

abbrev pub of_relation : String → RequestRow → Bool
of_relation relationship_id q = str_eq q.relationship_id relationship_id

-- the requests and notices of a relationship that ends
unfoldable pub end_work : (NoticeStatus → Bool) → String → PeerDb → PeerDb
unfolding notice_of
end_work stops relationship_id db = record db {
  requests =
      update_where (λ q. of_relation relationship_id q && is_open q.status) deny_request
        db.requests;
  notices =
      update_where (λ n. notice_of db relationship_id n && stops n.status) suppress_notice
        db.notices;
}

abbrev pub ended_status : Bool → RelationshipStatus
ended_status true = RelationshipStatus.blocked
ended_status false = RelationshipStatus.revoked

abbrev pub ended_code : Bool → AuditCode
ended_code true = AuditCode.block
ended_code false = AuditCode.revoke

-- `revoke`, and with `block`, block
unfoldable pub revoke_relation : String → String → Bool → ℕ → PeerDb → Bool × PeerDb
unfolding end_work
revoke_relation owner_id relationship_id block now db =
    let test =
      λ (r : RelationRow). owned_relation owner_id relationship_id r && is_current r.status in
    if exists_where test db.relationships
    then (
      true,
      record_audit owner_id relationship_id (ended_code block) now (
          end_work is_unsent relationship_id
            (set_relations test (set_relation_status (ended_status block)) db)),
    )
    else (false, db)

abbrev pub every_notice : NoticeStatus → Bool
every_notice status = true

-- `INSERT ... ON CONFLICT(owner_id,relationship_id) DO UPDATE SET purged_before=...`
unfoldable pub put_watermark : String → String → ℕ → List WatermarkRow → List WatermarkRow
put_watermark owner_id relationship_id now ws =
    let test = λ (w : WatermarkRow).
      str_eq w.owner_id owner_id && str_eq w.relationship_id relationship_id in
    if exists_where test ws
    then update_where test (λ w. record w { purged_before = now }) ws
    else ws
      ++ record { owner_id = owner_id; relationship_id = relationship_id; purged_before = now } ∷ []

-- one round of `delete_owner`
unfoldable pub end_relation : String → ℕ → String → PeerDb → PeerDb
unfolding end_work put_watermark
end_relation owner_id now relationship_id db =
    let ended = end_work every_notice relationship_id (
      set_relations (λ r. relation_is relationship_id r && is_current r.status)
        (set_relation_status RelationshipStatus.revoked) db) in
    record ended {
      grants = delete_where (λ g. str_eq g.relationship_id relationship_id) ended.grants;
      watermarks = put_watermark owner_id relationship_id now ended.watermarks;
    }

unfoldable pub end_relations : String → ℕ → List RelationRow → PeerDb → PeerDb
unfolding end_relation
end_relations owner_id now [] db = db
end_relations owner_id now (r ∷ rs) db =
    end_relations owner_id now rs (end_relation owner_id now r.relationship_id db)

-- `delete_owner`
unfoldable pub delete_owner : String → ℕ → PeerDb → PeerDb
unfolding end_relations
delete_owner owner_id now db =
    let fenced = record db {
      deleted_owners =
          if is_deleted db owner_id then db.deleted_owners else db.deleted_owners ++ owner_id ∷ [];
    } in
    let ended =
      end_relations owner_id now (select_where (is_party owner_id) db.relationships) fenced in
    record ended {
      handles = delete_where (λ h. str_eq h.owner_id owner_id) ended.handles;
      archives = delete_where (λ a. str_eq a.owner_id owner_id) ended.archives;
    }
