-- ===== src/Peer/Laws/Revocation.antt =====
-- `revoke` of tomo_core/src/tomo_core/peer_store.py: what it ends, and that it is final.
use mathlib.Core.Path.{subst}
use tomo_v.Common.{
  In-exists, exists_where-In, ℕ, String, Bool, true, false, ◌&&◌, none, List, map, ◌≡◌, refl, sym,
  ap, ◌∙◌, arith, Bool-cases, inl, inr, ok, str_eq, eq_iff, exists_where, update_where, All, All-of,
  All-update_where, Unique, In-only,
}
use tomo_v.Peer.Rows.{PeerDb, RelationRow, GrantRow, is_current, is_open, is_unsent, relation_is}
use tomo_v.Peer.Laws.Over.{
  IsOver, Calls, Calls-Over, update-exists, ended-not_current, accept-over, grant-over,
}
use tomo_v.Peer.Store.Relations.{
  accept_relation, owned_relation, update_grant, set_relation_status, of_relation, notice_of,
  deny_request, suppress_notice, end_work, ended_status, revoke_relation,
}

-- the row that is revoked is the only one of the relationship
revoked-IsOver :
    (owner_id relationship_id : String) (block : Bool) (rs : List RelationRow)
    → Unique (map (λ (r : RelationRow). r.relationship_id) rs)
    → exists_where (λ r. owned_relation owner_id relationship_id r && is_current r.status) rs ≡ true
    → All (IsOver relationship_id) (
        update_where
          (λ r. owned_relation owner_id relationship_id r && is_current r.status)
          (set_relation_status (ended_status block))
          rs)
revoked-IsOver owner_id relationship_id block rs keys found =
    let test : RelationRow → Bool =
      λ r. owned_relation owner_id relationship_id r && is_current r.status in
    let (w, i, hit) = exists_where-In test rs found in
    let named : relation_is relationship_id w ≡ true = ground arith in
    All-update_where {P = λ x. str_eq x.relationship_id w.relationship_id ≡ true → x ≡ w} test
      (set_relation_status (ended_status block)) rs (λ x yes k same. ended-not_current block)
      (λ x miss k same.
        let e : x ≡ w = k (
          (eq_iff x.relationship_id w.relationship_id).1 (
            (eq_iff x.relationship_id relationship_id).0 same
            ∙ sym ((eq_iff w.relationship_id relationship_id).0 named))) in
        absurd (cc (subst (λ y. test y ≡ false) e miss, hit)))
      (In-only (λ x. x.relationship_id) rs w keys i)

and_false : (a b : Bool) → (a && b) ≡ false → a ≡ true → b ≡ false
and_false a b h k = ground arith

named_exists :
    (owner_id relationship_id : String) (rs : List RelationRow)
    → exists_where (λ r. owned_relation owner_id relationship_id r && is_current r.status) rs ≡ true
    → exists_where (relation_is relationship_id) rs ≡ true
named_exists owner_id relationship_id rs found =
    let (w, i, hit) =
      exists_where-In (λ r. owned_relation owner_id relationship_id r && is_current r.status) rs
        found in
    In-exists (relation_is relationship_id) rs w i (ground arith)

-- Where relationship ids are unique and `revoke` (or a block) of a relationship succeeds, every
-- request of the relationship is closed and no notice about its requests waits or is leased; and the
-- relationship is over for good: whatever invitations, acceptances, grants, revocations and deletions
-- of owners follow, among calls that leave relationships alone, it is never current again, no
-- acceptance of it by anyone writes anything, and no owner's grant under it is taken.
pub revoke-ends :
    (owner_id relationship_id : String) (block : Bool) (now : ℕ) (db after later : PeerDb)
    → Unique (map (λ (r : RelationRow). r.relationship_id) db.relationships)
    → revoke_relation owner_id relationship_id block now db ≡ (true, after)
    → Calls after later
    → All (λ q. of_relation relationship_id q ≡ true → is_open q.status ≡ false) after.requests
      × All (λ n. notice_of db relationship_id n ≡ true → is_unsent n.status ≡ false) after.notices
      × All (IsOver relationship_id) later.relationships
      × ((other : String) (time : ℕ) → (accept_relation other relationship_id time later).1 ≡ later)
      × ((grantee : String) (new : GrantRow) (expected time : ℕ)
          → new.relationship_id ≡ relationship_id
          → update_grant grantee new expected time later ≡ ok (none, later))
unfolding revoke_relation end_work notice_of
revoke-ends owner_id relationship_id block now db after later keys h calls =
    elim (Bool-cases (
      exists_where (λ r. owned_relation owner_id relationship_id r && is_current r.status)
        db.relationships)) [
          | inr e ↦ absurd (cc (ap (λ a. a.0) (rw e at h)))
          | inl e ↦
              let q = ap (λ a. a.1) (rw e at h) in
              let over =
                subst (λ d. All (IsOver relationship_id) d.relationships) q
                  (revoked-IsOver owner_id relationship_id block db.relationships keys e) in
              let there =
                subst
                  (λ (d : PeerDb).
                    exists_where (relation_is relationship_id) d.relationships ≡ true)
                  q
                  (update-exists relationship_id _ (ended_status block) db.relationships
                    ∙ named_exists owner_id relationship_id db.relationships e) in
              let final = (Calls-Over relationship_id calls (there, over)).1 in
              (
                subst
                    (λ d.
                      All (λ q. of_relation relationship_id q ≡ true → is_open q.status ≡ false)
                        d.requests)
                    q
                    (All-update_where {P = λ _. Unit {0}} _ deny_request db.requests
                      (λ x hit u named. refl) (λ x miss u named. ground arith)
                      (All-of (λ _. tt) db.requests)),
                subst
                    (λ d.
                      All (λ n. notice_of db relationship_id n ≡ true → is_unsent n.status ≡ false)
                        d.notices)
                    q
                    (All-update_where {P = λ _. Unit {0}} _ suppress_notice db.notices
                      (λ x hit u named. refl)
                      (λ x miss u named.
                        and_false (notice_of db relationship_id x) (is_unsent x.status) miss named)
                      (All-of (λ _. tt) db.notices)),
                final,
                λ other time. accept-over other relationship_id time later final,
                λ grantee new expected time same.
                    grant-over grantee new expected time later
                      (subst (λ i. All (IsOver i) later.relationships) (sym same) final),
              )
        ]
