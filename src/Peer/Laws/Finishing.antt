-- ===== src/Peer/Laws/Finishing.antt =====
-- `finish` of tomo_core/src/tomo_core/peer_store.py: an answer is stored once, under the policy.
use mathlib.Core.Path.{subst}
use tomo_v.Common.{
  first_where-All, ℕ, String, Bool, true, false, ◌&&◌, Option, none, some, List, [], ◌∷◌, ◌++◌, ◌≡◌,
  refl, sym, ap, arith, Bool-cases, Option-cases, inl, inr, ok, >>=-eq-ok, ok-injective, guard,
  str_eq, eq_iff, first_where, exists_where, update_where, All, All-of, All-map, All-update_where,
  All-first_where,
}
use tomo_v.Peer.Rows.{
  invalid_frames, PeerDb, RelationRow, RequestRow, ResponseRow, is_active, relation_is, grants_of,
}
use tomo_v.Peer.Policy.{allows}
use tomo_v.Peer.Store.Requests.{revisions}
use tomo_v.Peer.Store.Responses.{
  same_revisions, leased_to, may_finish, still_allowed, response_ok, response_status, end_request,
  insert_response, held_request, finish_claim, finish_found, finish_request,
}

abbrev pub answer_row : String → String → List String → Bool → ℕ → ResponseRow
answer_row request_id owner_id frames failed now = record {
  request_id = request_id;
  responder = owner_id;
  frames = frames;
  status = response_status failed;
  created_at = now;
}

-- no worker holds the request with the token any more
abbrev pub Spent : String → String → PeerDb → Type 0
Spent request_id token db = All (λ x. held_request request_id token x ≡ false) db.requests

end_request-not_held :
    (failed : Bool) (error_code : Option String) (request_id token : String) (x : RequestRow)
    → held_request request_id token (end_request failed error_code x) ≡ false
end_request-not_held true error_code request_id token x = ground arith
end_request-not_held false error_code request_id token x = ground arith

finish_claim-parts :
    (q : RequestRow) (owner_id token : String) (frames : List String) (failed : Bool)
    (error_code : Option String) (now : ℕ) (db : PeerDb) (answer : Bool × PeerDb)
    → finish_claim q owner_id token frames failed error_code now db ≡ ok answer
    → (answer.1.responses ≡ db.responses ++ answer_row q.request_id owner_id frames failed now ∷ [])
      × Spent q.request_id token answer.1
      × (exists_where (λ b. str_eq b.request_id q.request_id) db.responses ≡ false)
unfolding finish_claim insert_response
finish_claim-parts q owner_id token frames failed error_code now db answer h =
    let ended : PeerDb = record db {
      requests =
          update_where (held_request q.request_id token) (end_request failed error_code)
            db.requests;
    } in
    let response = answer_row q.request_id owner_id frames failed now in
    let (answered, ha, h1) = >>=-eq-ok (insert_response response ended) _ h in
    elim (Bool-cases (exists_where (λ b. str_eq b.request_id q.request_id) db.responses)) [
      | inl e ↦ absurd (cc (rw e at ha))
      | inr e ↦
          let made = ok-injective (rw e at ha) in
          let spent : Spent q.request_id token ended =
            All-update_where {P = λ _. Unit {0}} (held_request q.request_id token)
              (end_request failed error_code) db.requests
              (λ x hit u. end_request-not_held failed error_code q.request_id token x)
              (λ x miss u. miss) (All-of (λ _. tt) db.requests) in
          (
            subst (λ a. a.1.responses ≡ db.responses ++ response ∷ []) (ok-injective h1)
                (sym (ap (λ d. d.responses) made)),
            subst (λ a. Spent q.request_id token a.1) (ok-injective h1)
                (subst (λ d. Spent q.request_id token d) made spent),
            e,
          )
    ]

Spent-none :
    (owner_id request_id token : String) (now : ℕ) (db : PeerDb)
    → Spent request_id token db
    → first_where (may_finish db owner_id request_id token now) db.requests ≡ none
unfolding may_finish leased_to
Spent-none owner_id request_id token now db spent =
    first_where-All (may_finish db owner_id request_id token now) db.requests (
      All-map {P = λ x. held_request request_id token x ≡ false} db.requests (λ x h. ground arith)
        spent)

may_finish-request_id :
    (db : PeerDb) (owner_id request_id token : String) (now : ℕ) (q : RequestRow)
    → may_finish db owner_id request_id token now q ≡ true
    → q.request_id ≡ request_id
unfolding may_finish leased_to
may_finish-request_id db owner_id request_id token now q h =
    (eq_iff q.request_id request_id).0 (ground arith)

-- What a finished claim was: the recipient's, of a request under an active relationship whose
-- revision, and those of its grants, are the ones that the worker saw, and that the policy allows.
abbrev pub Finished : PeerDb → String → String → String → ℕ → List (String × ℕ) → ℕ → Type 0
Finished db owner_id request_id token revision grant_revisions now =
    (q : RequestRow) × (r : RelationRow) × (first_where
        (may_finish db owner_id request_id token now) db.requests
      ≡ some q)
    × (first_where (relation_is q.relationship_id) db.relationships ≡ some r)
    × (is_active r.status ≡ true)
    × (r.revision ≡ revision)
    × (same_revisions (revisions (grants_of db r.relationship_id)) grant_revisions ≡ true)
    × (allows (some r) (grants_of db r.relationship_id) (some q) now ≡ true)

finish_found-parts :
    (owner_id request_id token : String) (frames : List String) (revision : ℕ)
    (grant_revisions : List (String × ℕ)) (failed : Bool) (error_code : Option String) (now : ℕ)
    (db after : PeerDb) (q : RequestRow)
    → first_where (may_finish db owner_id request_id token now) db.requests ≡ some q
    → finish_found (some q) owner_id token frames revision grant_revisions failed error_code now db
      ≡ ok (true, after)
    → Finished db owner_id request_id token revision grant_revisions now
      × (after.responses ≡ db.responses ++ answer_row request_id owner_id frames failed now ∷ [])
      × Spent request_id token after
unfolding finish_found still_allowed
finish_found-parts owner_id request_id token frames revision grant_revisions failed error_code now
      db after q found h =
    elim (Option-cases (first_where (relation_is q.relationship_id) db.relationships)) [
      | inl e ↦ absurd (cc (ap (λ a. a.0) (ok-injective (rw (e, finish_found) at h))))
      | inr (r, e) ↦
          elim (Bool-cases
            (is_active r.status && still_allowed db r revision grant_revisions q now)) [
              | inr f ↦ absurd (cc (ap (λ a. a.0) (ok-injective (rw (e, f, finish_found) at h))))
              | inl f ↦
                  let (responses, spent, fresh) =
                    finish_claim-parts q owner_id token frames failed error_code now db
                      (true, after) (rw (e, f, finish_found) at h) in
                  let hit =
                    (All-first_where (λ _. Unit {0}) (may_finish db owner_id request_id token now)
                      db.requests q found (All-of (λ _. tt) db.requests)).1 in
                  let same = may_finish-request_id db owner_id request_id token now q hit in
                  (
                    (q, r, found, e, ground arith, ground arith, ground arith, ground arith),
                    subst
                        (λ i.
                          after.responses
                          ≡ db.responses ++ answer_row i owner_id frames failed now ∷ [])
                        same responses,
                    subst (λ i. Spent i token after) same spent,
                  )
            ]
    ]

-- Where `finish` reports success, the claim was the recipient's own and still good, the relationship
-- active and, with its grants, at the revisions that the worker saw, and the policy allowed the
-- request at that moment; one response was stored, with the frames, at the end of the table; and the
-- token is spent: any further `finish` with it, whatever it says, reports failure and writes nothing.
pub finish-once :
    (owner_id request_id token : String) (frames : List String) (revision : ℕ)
    (grant_revisions : List (String × ℕ)) (failed : Bool) (error_code : Option String) (now : ℕ)
    (db after : PeerDb)
    → finish_request owner_id request_id token frames revision grant_revisions failed error_code now
        db
      ≡ ok (true, after)
    → Finished db owner_id request_id token revision grant_revisions now
      × (after.responses ≡ db.responses ++ answer_row request_id owner_id frames failed now ∷ [])
      × ((owner' : String) (frames' : List String) (revision' : ℕ)
            (grant_revisions' : List (String × ℕ)) (failed' : Bool) (error_code' : Option String)
            (later : ℕ)
          → response_ok frames' ≡ true
          → finish_request owner' request_id token frames' revision' grant_revisions' failed'
              error_code' later after
            ≡ ok (false, after))
unfolding finish_request finish_found
finish-once owner_id request_id token frames revision grant_revisions failed error_code now db after
      h =
    let (u, hu, h1) = >>=-eq-ok (guard (response_ok frames) invalid_frames) _ h in
    elim (Option-cases (first_where (may_finish db owner_id request_id token now) db.requests)) [
      | inl e ↦ absurd (cc (ap (λ a. a.0) (ok-injective (rw (e, finish_found) at h1))))
      | inr (q, e) ↦
          let (finished, responses, spent) =
            finish_found-parts owner_id request_id token frames revision grant_revisions failed
              error_code now db after q e (rw e at h1) in
          (
            finished,
            responses,
            λ owner' frames' revision' grant_revisions' failed' error_code' later good.
                rw (good, Spent-none owner' request_id token later after spent, finish_found) refl,
          )
    ]
