-- ===== src/Peer/Laws/Over.antt =====
-- A relationship that is over stays over: the calls of tomo_core/src/tomo_core/peer_store.py that write
-- relationships.
use mathlib.Core.Path.{subst}
use tomo_v.Common.{
  Option, some, [], ◌∷◌, ◌++◌, guard, >>=-eq-ok, ok-injective, select_where, All-append, not, ltb,
  ◌==◌, ◌-◌, ◌||◌, ◌⊎◌, first_where-All, ℕ, String, Bool, true, false, ◌&&◌, none, List, ◌≡◌, refl,
  sym, ap, ◌∙◌, arith, Bool-cases, Option-cases, inl, inr, ok, str_eq, eq_iff, first_where,
  exists_where, update_where, All, All-map, All-update_where, All-first_where,
}
use tomo_v.Peer.Rows.{
  HandleRow, seconds, rate_limited, owner_deleted, stale_revision, is_party, is_deleted, sort_pair,
  PeerDb, RelationRow, GrantRow, RelationshipStatus, is_active, is_current, is_invited, relation_is,
}
use tomo_v.Peer.Store.Relations.{
  accept_found, accept_relation, owned_relation, grant_found, update_grant, set_relation_status,
  end_work, ended_status, revoke_relation, outbound, inbound, grant_revision, grant_is, invite_peer,
  invite_found, invite_pair, handle_is, pair_is, new_relation, delete_owner, end_relation,
  end_relations,
}

-- the relationship is over
abbrev pub IsOver : String → RelationRow → Type 0
IsOver relationship_id r = relation_is relationship_id r ≡ true → is_current r.status ≡ false

pub ended-not_current : (block : Bool) → is_current (ended_status block) ≡ false
ended-not_current true = refl
ended-not_current false = refl

not_current :
    (s : RelationshipStatus) → is_current s ≡ false → (is_active s ≡ false) × (is_invited s ≡ false)
not_current s h = (ground arith, ground arith)

-- an acceptance of a relationship that is over writes nothing
pub accept-over :
    (owner_id relationship_id : String) (now : ℕ) (db : PeerDb)
    → All (IsOver relationship_id) db.relationships
    → (accept_relation owner_id relationship_id now db).1 ≡ db
unfolding accept_relation accept_found
accept-over owner_id relationship_id now db over =
    elim (Option-cases (first_where (owned_relation owner_id relationship_id) db.relationships)) [
      | inl e ↦ rw (e, accept_found) refl
      | inr (r, e) ↦
          let (k, hit) =
            All-first_where (IsOver relationship_id) (owned_relation owner_id relationship_id)
              db.relationships r e over in
          let (a, b) = not_current r.status (k (ground arith)) in
          elim (Bool-cases (str_eq r.invited_by owner_id)) [
            | inl f ↦ rw (e, f, accept_found) refl
            | inr f ↦ rw (e, f, a, b, accept_found) refl
          ]
    ]

not_owned_active :
    (new : GrantRow) (r : RelationRow)
    → IsOver new.relationship_id r
    → (owned_relation new.grantor new.relationship_id r && is_active r.status) ≡ false
not_owned_active new r k = elim (Bool-cases (relation_is new.relationship_id r)) [
  | inl e ↦ let (a, b) = not_current r.status (k e) in rw a (ground arith)
  | inr e ↦ rw e refl
]

-- a grant under a relationship that is over is refused
pub grant-over :
    (grantee : String) (new : GrantRow) (expected now : ℕ) (db : PeerDb)
    → All (IsOver new.relationship_id) db.relationships
    → update_grant grantee new expected now db ≡ ok (none, db)
unfolding update_grant grant_found
grant-over grantee new expected now db over =
    rw
      (first_where-All (λ r. owned_relation new.grantor new.relationship_id r && is_active r.status)
        db.relationships
        (All-map {P = IsOver new.relationship_id} db.relationships (λ r k. not_owned_active new r k)
          over))
      refl

-- A call of the store: those that write relationships or grants, or any other that leaves the
-- relationships as they are. A call that raises is rolled back.
pub data Call : PeerDb → PeerDb → Type 0 where
  invites :
      (owner_id handle relationship_id : String) (now : ℕ) (db : PeerDb)
      (answer : Option RelationRow × PeerDb)
      → invite_peer owner_id handle relationship_id now db ≡ ok answer
      → Call db answer.1
  accepts :
      (owner_id relationship_id : String) (now : ℕ) (db : PeerDb)
      → Call db (accept_relation owner_id relationship_id now db).1
  grants :
      (grantee : String) (new : GrantRow) (expected now : ℕ) (db : PeerDb)
      (answer : Option GrantRow × PeerDb)
      → update_grant grantee new expected now db ≡ ok answer
      → Call db answer.1
  revokes :
      (owner_id relationship_id : String) (block : Bool) (now : ℕ) (db : PeerDb)
      → Call db (revoke_relation owner_id relationship_id block now db).1
  deletes : (owner_id : String) (now : ℕ) (db : PeerDb) → Call db (delete_owner owner_id now db)
  leaves : (a b : PeerDb) → b.relationships ≡ a.relationships → Call a b

pub data Calls : PeerDb → PeerDb → Type 0 where
  start : (db : PeerDb) → Calls db db
  call : {a b c : PeerDb} → Call a b → Calls b c → Calls a c

-- The relationship is there, and it is over.
abbrev pub Over : String → List RelationRow → Type 0
Over relationship_id rs =
    (exists_where (relation_is relationship_id) rs ≡ true) × All (IsOver relationship_id) rs

pub update-exists :
    (relationship_id : String) (p : RelationRow → Bool) (status : RelationshipStatus)
    (rs : List RelationRow)
    → exists_where (relation_is relationship_id) (update_where p (set_relation_status status) rs)
      ≡ exists_where (relation_is relationship_id) rs
unfolding exists_where update_where
update-exists relationship_id p status [] = refl
update-exists relationship_id p status (r ∷ rs) = elim (Bool-cases (p r)) [
  | inl e ↦ rw (e, update-exists relationship_id p status rs) refl
  | inr e ↦ rw (e, update-exists relationship_id p status rs) refl
]

-- a statement that makes rows current only where they are of another relationship
update-Over :
    (relationship_id : String) (p : RelationRow → Bool) (status : RelationshipStatus)
    (rs : List RelationRow)
    → ((r : RelationRow)
        → p r ≡ true
        → relation_is relationship_id r ≡ true
        → is_current status ≡ false)
    → Over relationship_id rs
    → Over relationship_id (update_where p (set_relation_status status) rs)
update-Over relationship_id p status rs ends (there, over) = (
  update-exists relationship_id p status rs ∙ there,
  All-update_where p (set_relation_status status) rs (λ r hit k named. ends r hit named)
      (λ r miss k. k) over,
)

other_id :
    (id relationship_id : String) (r : RelationRow)
    → str_eq id relationship_id ≡ false
    → relation_is id r ≡ true
    → relation_is relationship_id r ≡ true
    → ⊥
other_id id relationship_id r apart a b = cc (
  apart,
  (eq_iff id relationship_id).1
      (sym ((eq_iff r.relationship_id id).0 a) ∙ (eq_iff r.relationship_id relationship_id).0 b),
)

accept-Over_other :
    (relationship_id owner_id id : String) (now : ℕ) (db : PeerDb)
    → str_eq id relationship_id ≡ false
    → Over relationship_id db.relationships
    → Over relationship_id (accept_relation owner_id id now db).1.relationships
unfolding accept_relation accept_found
accept-Over_other relationship_id owner_id id now db apart over =
    elim (Option-cases (first_where (owned_relation owner_id id) db.relationships)) [
      | inl n ↦ rw (n, accept_found) over
      | inr (r, n) ↦ elim (Bool-cases (str_eq r.invited_by owner_id)) [
        | inl f ↦ rw (n, f, accept_found) over
        | inr f ↦ elim (Bool-cases (is_active r.status)) [
          | inl g ↦ rw (n, f, g, accept_found) over
          | inr g ↦ elim (Bool-cases (is_invited r.status)) [
            | inr h ↦ rw (n, f, g, h, accept_found) over
            | inl h ↦
                rw (n, f, g, h, accept_found)
                  (update-Over relationship_id (relation_is id) RelationshipStatus.active
                    db.relationships
                    (λ r hit named. absurd (other_id id relationship_id r apart hit named)) over)
          ]
        ]
      ]
    ]

accept-Over :
    (relationship_id owner_id id : String) (now : ℕ) (db : PeerDb)
    → Over relationship_id db.relationships
    → Over relationship_id (accept_relation owner_id id now db).1.relationships
accept-Over relationship_id owner_id id now db over =
    elim (Bool-cases (str_eq id relationship_id)) [
      | inr e ↦ accept-Over_other relationship_id owner_id id now db e over
      | inl e ↦
          let same : id ≡ relationship_id = (eq_iff id relationship_id).0 e in
          let kept =
            accept-over owner_id id now db
              (subst (λ i. All (IsOver i) db.relationships) (sym same) over.1) in
          subst (λ (d : PeerDb). Over relationship_id d.relationships) (sym kept) over
    ]

revoke-Over :
    (relationship_id owner_id id : String) (block : Bool) (now : ℕ) (db : PeerDb)
    → Over relationship_id db.relationships
    → Over relationship_id (revoke_relation owner_id id block now db).1.relationships
unfolding revoke_relation end_work
revoke-Over relationship_id owner_id id block now db over =
    elim (Bool-cases
      (exists_where (λ r. owned_relation owner_id id r && is_current r.status) db.relationships)) [
        | inr e ↦ rw e over
        | inl e ↦ rw e (
            update-Over relationship_id _ (ended_status block) db.relationships
              (λ r hit named. ended-not_current block) over)
      ]

ended-Over :
    (relationship_id owner_id : String) (now : ℕ) (rs : List RelationRow) (db : PeerDb)
    → Over relationship_id db.relationships
    → Over relationship_id (end_relations owner_id now rs db).relationships
unfolding end_relations end_relation end_work
ended-Over relationship_id owner_id now [] db over = over
ended-Over relationship_id owner_id now (r ∷ rs) db over =
    ended-Over relationship_id owner_id now rs (end_relation owner_id now r.relationship_id db) (
      update-Over relationship_id _ RelationshipStatus.revoked db.relationships
        (λ r hit named. refl) over)

-- an invitation finds a relationship, or adds one under a new id
invite-parts :
    (o : Option RelationRow) (pair : String × String) (owner_id target id : String) (now : ℕ)
    (db : PeerDb) (answer : Option RelationRow × PeerDb)
    → invite_pair o pair owner_id target id now db ≡ ok answer
    → (answer.1.relationships ≡ db.relationships)
      ⊎ ((exists_where (relation_is id) db.relationships ≡ false)
          × (answer.1.relationships ≡ db.relationships ++ new_relation id pair owner_id now ∷ []))
unfolding invite_pair
invite-parts (some r) pair owner_id target id now db answer h =
    inl (ap (λ (a : Option RelationRow × PeerDb). a.1.relationships) (sym (ok-injective h)))
invite-parts none pair owner_id target id now db answer h =
    let recent = now - seconds 3600 in
    let few = ltb (outbound owner_id recent db) 10 && ltb (inbound target recent db) 20 in
    let (u, hu, h1) = >>=-eq-ok (guard few rate_limited) _ h in
    elim (Bool-cases (exists_where (relation_is id) db.relationships)) [
      | inl e ↦ absurd (cc (rw e at h1))
      | inr e ↦ inr (
        e,
        ap (λ (a : Option RelationRow × PeerDb). a.1.relationships)
            (sym (ok-injective (rw e at h1))),
      )
    ]

invited :
    (o : Option HandleRow) (owner_id id : String) (now : ℕ) (db : PeerDb)
    (answer : Option RelationRow × PeerDb)
    → invite_found o owner_id id now db ≡ ok answer
    → (answer.1.relationships ≡ db.relationships)
      ⊎ ((exists_where (relation_is id) db.relationships ≡ false)
          × ((new : RelationRow) × (new.relationship_id ≡ id)
              × (answer.1.relationships ≡ db.relationships ++ new ∷ [])))
unfolding invite_found
invited none owner_id id now db answer h =
    inl (ap (λ (a : Option RelationRow × PeerDb). a.1.relationships) (sym (ok-injective h)))
invited (some h) owner_id id now db answer eq =
    let pair = sort_pair owner_id h.owner_id in
    elim (Bool-cases (str_eq pair.0 pair.1)) [
      | inl e ↦ absurd (cc (rw e at eq))
      | inr e ↦
          elim (invite-parts (first_where (pair_is pair) db.relationships) pair owner_id h.owner_id
            id now db answer (rw e at eq)) [
              | inl same ↦ inl same
              | inr (fresh, made) ↦ inr (fresh, (new_relation id pair owner_id now, refl, made))
            ]
    ]

append-exists :
    (relationship_id : String) (rs : List RelationRow) (new : RelationRow)
    → exists_where (relation_is relationship_id) rs ≡ true
    → exists_where (relation_is relationship_id) (rs ++ new ∷ []) ≡ true
unfolding exists_where
append-exists relationship_id [] new h = absurd (cc h)
append-exists relationship_id (r ∷ rs) new h = elim (Bool-cases (relation_is relationship_id r)) [
  | inl e ↦ rw e refl
  | inr e ↦ rw e (append-exists relationship_id rs new (rw e at h))
]

invite-Over :
    (relationship_id owner_id handle id : String) (now : ℕ) (db : PeerDb)
    (answer : Option RelationRow × PeerDb)
    → invite_peer owner_id handle id now db ≡ ok answer
    → Over relationship_id db.relationships
    → Over relationship_id answer.1.relationships
unfolding invite_peer
invite-Over relationship_id owner_id handle id now db answer h over =
    let (u, hu, h1) = >>=-eq-ok (guard (not (is_deleted db owner_id)) owner_deleted) _ h in
    elim (invited (first_where (handle_is handle) db.handles) owner_id id now db answer h1) [
      | inl same ↦ subst (Over relationship_id) (sym same) over
      | inr (fresh, (new, its, made)) ↦
          let apart : relation_is relationship_id new ≡ true → ⊥ = λ named.
            let same : relationship_id ≡ id =
              sym ((eq_iff new.relationship_id relationship_id).0 named) ∙ its in
            cc (
              fresh,
              subst (λ i. exists_where (relation_is i) db.relationships ≡ true) same over.0,
            ) in
          subst (Over relationship_id) (sym made) (
            append-exists relationship_id db.relationships new over.0,
            All-append (IsOver relationship_id) db.relationships (new ∷ []) over.1
                (λ named. absurd (apart named), tt),
          )
    ]

granted :
    (o : Option RelationRow) (grantee : String) (new : GrantRow) (expected now : ℕ) (db : PeerDb)
    (answer : Option GrantRow × PeerDb)
    → grant_found o grantee new expected now db ≡ ok answer
    → answer.1.relationships ≡ db.relationships
unfolding grant_found
granted none grantee new expected now db answer h =
    ap (λ (a : Option GrantRow × PeerDb). a.1.relationships) (sym (ok-injective h))
granted (some r) grantee new expected now db answer h =
    elim (Bool-cases (str_eq grantee new.grantor || not (is_party grantee r))) [
      | inl e ↦
          ap (λ (a : Option GrantRow × PeerDb). a.1.relationships) (sym (ok-injective (rw e at h)))
      | inr e ↦
          let current =
            grant_revision (first_where (grant_is new.relationship_id new.grantor) db.grants) in
          let (u, hu, h1) = >>=-eq-ok (guard (current == expected) stale_revision) _ (rw e at h) in
          ap (λ (a : Option GrantRow × PeerDb). a.1.relationships) (sym (ok-injective h1))
    ]

grant-same :
    (grantee : String) (new : GrantRow) (expected now : ℕ) (db : PeerDb)
    (answer : Option GrantRow × PeerDb)
    → update_grant grantee new expected now db ≡ ok answer
    → answer.1.relationships ≡ db.relationships
unfolding update_grant
grant-same grantee new expected now db answer h =
    granted
      (first_where (λ r. owned_relation new.grantor new.relationship_id r && is_active r.status)
        db.relationships)
      grantee new expected now db answer h

Call-Over :
    (relationship_id : String) {a b : PeerDb}
    → Call a b
    → Over relationship_id a.relationships
    → Over relationship_id b.relationships
unfolding delete_owner
Call-Over relationship_id (invites owner_id handle id now db answer h) over =
    invite-Over relationship_id owner_id handle id now db answer h over
Call-Over relationship_id (accepts owner_id id now db) over =
    accept-Over relationship_id owner_id id now db over
Call-Over relationship_id (grants grantee new expected now db answer h) over =
    subst (Over relationship_id) (sym (grant-same grantee new expected now db answer h)) over
Call-Over relationship_id (revokes owner_id id block now db) over =
    revoke-Over relationship_id owner_id id block now db over
Call-Over relationship_id (deletes owner_id now db) over =
    ended-Over relationship_id owner_id now (select_where (is_party owner_id) db.relationships) _
      over
Call-Over relationship_id (leaves a b same) over = subst (Over relationship_id) (sym same) over

pub Calls-Over :
    (relationship_id : String) {a b : PeerDb}
    → Calls a b
    → Over relationship_id a.relationships
    → Over relationship_id b.relationships
Calls-Over relationship_id (start db) over = over
Calls-Over relationship_id (call step rest) over =
    Calls-Over relationship_id rest (Call-Over relationship_id step over)
