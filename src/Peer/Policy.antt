-- ===== src/Peer/Policy.antt =====
-- tomo_core/src/tomo_core/peer_policy.py: whether a request may be answered.
pub mod Allowed
use tomo_v.Common.{
  ℕ, String, Bool, true, false, ◌&&◌, ◌||◌, not, Option, none, some, List, [], ◌∷◌, leb,
  if◌then◌else◌, str_eq,
}
use tomo_v.Peer.Rows.{
  RelationRow, GrantRow, RequestRow, is_active, is_unsafe, is_commitment, is_availability,
  is_sensitive, is_authorized, other_owner,
}

pub data Outcome : Type 0 where
  allow confirm deny : Outcome

pub data Reason : Type 0 where
  unsafe_action relationship_inactive expired_grant missing_communicate missing_auto_reply
        confirmation_required allowed :
      Reason

pub record Decision : Type 0 where
  pub outcome : Outcome
  pub reason : Reason

abbrev pub denied : Reason → Decision
denied reason = record { outcome = deny; reason = reason }

-- `{grant.grantor_owner_id: grant for grant in grants if ...}.get(owner)`: the last grant wins
unfoldable pub grant_from : String → String → List GrantRow → Option GrantRow
grant_from relationship_id owner_id [] = none
grant_from relationship_id owner_id (g ∷ gs) =
    let rest = grant_from relationship_id owner_id gs in
    elim rest [
      | some later ↦ some later
      | none ↦
          if str_eq g.relationship_id relationship_id && str_eq g.grantor owner_id
          then some g
          else none
    ]

unfoldable pub has_expired : Option GrantRow → ℕ → Bool
has_expired none now = false
has_expired (some g) now = elim g.expires_at [ none ↦ false | some t ↦ leb t now ]

unfoldable pub communicates : Option GrantRow → Bool
communicates none = false
communicates (some g) = g.communicate

unfoldable pub auto_replies : Option GrantRow → Bool
auto_replies none = false
auto_replies (some g) = g.auto_reply

unfoldable pub shares_availability : Option GrantRow → Bool
shares_availability none = false
shares_availability (some g) = g.share_availability

-- the request's recipient is the sender's other owner
unfoldable pub is_between : RelationRow → RequestRow → Bool
unfolding other_owner
is_between r q = elim (other_owner r q.sender) [
  | none ↦ false
  | some other ↦ str_eq other q.recipient
]

-- the recipient is asked first
unfoldable pub needs_confirmation : Option GrantRow → RequestRow → Bool
needs_confirmation recipient_grant q =
    is_commitment q.action
    || is_availability q.kind && not (shares_availability recipient_grant)
    || is_sensitive q.kind

-- the grants are looked at
unfoldable pub decide_grants : Option GrantRow → Option GrantRow → RequestRow → ℕ → Decision
unfolding has_expired communicates auto_replies needs_confirmation
decide_grants sender_grant recipient_grant q now =
    if has_expired sender_grant now || has_expired recipient_grant now
    then denied expired_grant
    else if not (communicates sender_grant)
    then denied missing_communicate
    else if not (auto_replies recipient_grant)
    then denied missing_auto_reply
    else if needs_confirmation recipient_grant q && not (is_authorized q.status)
    then record { outcome = confirm; reason = confirmation_required }
    else record { outcome = allow; reason = allowed }

unfoldable pub decide_request : Option RelationRow → List GrantRow → RequestRow → ℕ → Decision
unfolding decide_grants grant_from is_between
decide_request relationship grants q now =
    if is_unsafe q.action then denied unsafe_action else elim relationship [
      | none ↦ denied relationship_inactive
      | some r ↦
          if is_active r.status && str_eq q.relationship_id r.relationship_id && is_between r q
          then decide_grants (grant_from r.relationship_id q.sender grants)
              (grant_from r.relationship_id q.recipient grants) q now
          else denied relationship_inactive
    ]

-- `PeerPolicy.decide`
unfoldable pub decide : Option RelationRow → List GrantRow → Option RequestRow → ℕ → Decision
unfolding decide_request
decide relationship grants none now = denied relationship_inactive
decide relationship grants (some q) now = decide_request relationship grants q now

unfoldable pub is_allow : Outcome → Bool
is_allow allow = true
is_allow _ = false

unfoldable pub allows : Option RelationRow → List GrantRow → Option RequestRow → ℕ → Bool
unfolding decide is_allow
allows relationship grants q now = is_allow (decide relationship grants q now).outcome
