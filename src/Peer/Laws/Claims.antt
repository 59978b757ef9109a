-- ===== src/Peer/Laws/Claims.antt =====
-- `claim_candidates` of tomo_core/src/tomo_core/peer_store.py: what it hands to a worker.
use mathlib.Core.Path.{subst}
use tomo_v.Common.{
  false, sym, eq_iff, All-map, All-In, All-of_In, All-update_where, exists_where-In,
  exists_where-false, written-In, In, lt→ltb, leb→le, str_eq, ltb, ℕ, ◌+◌, ◌≤◌, ◌<◌, String, Bool,
  true, ◌&&◌, Option, none, some, List, [], ◌∷◌, ◌≡◌, refl, ap, ◌∙◌, arith, leb, ltb→lt, Bool-cases,
  Option-cases, inl, inr, ok, >>=-eq-ok, ok-injective, guard, first_where, exists_where,
  select_where, All,
}
use tomo_v.Peer.Rows.{
  invalid_lease_seconds, PeerDb, RelationRow, ThreadRow, RequestRow, is_active, relation_is,
  request_is, RequestStatus, is_claimable, is_open, is_leased, seconds, thread_is, grants_of,
}
use tomo_v.Peer.Store.Claims.{
  waits_behind, lease_request, is_candidate, insert_request_row, sort_requests, comes_before,
  still_waits, is_open_for, Candidate, claim_one, claim_requests, recover_claims, claim_candidates,
  earlier_time, set_requests,
}

insert-All :
    (P : RequestRow → Type 0) (p : RequestRow) (l : List RequestRow)
    → P p
    → All P l
    → All P (insert_request_row p l)
unfolding insert_request_row
insert-All P p [] h a = (h, tt)
insert-All P p (q ∷ qs) h a = elim (Bool-cases (comes_before p q)) [
  | inl e ↦ rw e (h, a)
  | inr e ↦ rw e (a.0, insert-All P p qs h a.1)
]

sort-All : (P : RequestRow → Type 0) (l : List RequestRow) → All P l → All P (sort_requests l)
unfolding sort_requests
sort-All P [] a = tt
sort-All P (q ∷ qs) a = insert-All P q (sort_requests qs) a.0 (sort-All P qs a.1)

select-All :
    (p : RequestRow → Bool) (l : List RequestRow) → All (λ q. p q ≡ true) (select_where p l)
unfolding select_where
select-All p [] = tt
select-All p (q ∷ qs) = elim (Bool-cases (p q)) [
  | inl e ↦ rw e (e, select-All p qs)
  | inr e ↦ rw e (select-All p qs)
]

-- What a claim is of: a request with the property, under its relationship, which is active, with the
-- relationship's grants, and under its thread, which is open; the attempt is one more than before.
abbrev pub ClaimOf : (RequestRow → Type 0) → PeerDb → ℕ → Candidate → Type 0
ClaimOf P db now c =
    P c.request
    × (first_where (relation_is c.request.relationship_id) db.relationships ≡ some c.relation)
    × (is_active c.relation.status ≡ true)
    × ((t : ThreadRow) × (first_where (thread_is c.request.thread_id) db.threads ≡ some t)
        × (now < t.expires_at))
    × (c.grants ≡ grants_of db c.relation.relationship_id)
    × (c.attempt ≡ c.request.attempt_count + 1)

claim_one-ClaimOf :
    (P : RequestRow → Type 0) (r : Option RelationRow) (t : Option ThreadRow) (q : RequestRow)
    (token : String) (lease_seconds now : ℕ) (db : PeerDb) (c : Candidate)
    → P q
    → first_where (relation_is q.relationship_id) db.relationships ≡ r
    → first_where (thread_is q.thread_id) db.threads ≡ t
    → is_open_for r t now ≡ true
    → (claim_one r t q token lease_seconds now db).0 ≡ some c
    → ClaimOf P db now c
unfolding claim_one is_open_for
claim_one-ClaimOf P none t q token lease_seconds now db c hp hr ht going h = absurd (cc going)
claim_one-ClaimOf P (some r) none q token lease_seconds now db c hp hr ht going h =
    absurd (cc going)
claim_one-ClaimOf P (some r) (some t) q token lease_seconds now db c hp hr ht going h =
    elim (Bool-cases (exists_where (still_waits q) db.requests)) [
      | inr e ↦ absurd (cc (rw e at h))
      | inl e ↦
          let candidate : Candidate = record {
            request = q;
            token = token;
            relation = r;
            grants = grants_of db r.relationship_id;
            attempt = q.attempt_count + 1;
          } in
          let made : some candidate ≡ some c = rw e at h in
          let same : candidate ≡ c = cc made in
          subst (ClaimOf P db now) same
            (hp, hr, ground arith, (t, ht, ltb→lt now t.expires_at (ground arith)), refl, refl)
    ]

-- the tables that a claim reads are as they were
abbrev SameTables : PeerDb → PeerDb → Type 0
SameTables a b =
    (b.relationships ≡ a.relationships) × (b.threads ≡ a.threads) × (b.grants ≡ a.grants)

claim_one-SameTables :
    (r : Option RelationRow) (t : Option ThreadRow) (q : RequestRow) (token : String)
    (lease_seconds now : ℕ) (db0 db : PeerDb)
    → SameTables db0 db
    → SameTables db0 (claim_one r t q token lease_seconds now db).1
unfolding claim_one
claim_one-SameTables none t q token lease_seconds now db0 db same = same
claim_one-SameTables (some r) none q token lease_seconds now db0 db same = same
claim_one-SameTables (some r) (some t) q token lease_seconds now db0 db same =
    elim (Bool-cases (exists_where (still_waits q) db.requests)) [
      | inr e ↦ rw e same
      | inl e ↦ rw e same
    ]

ClaimOf-SameTables :
    (P : RequestRow → Type 0) (db0 db : PeerDb) (now : ℕ) (c : Candidate)
    → SameTables db0 db
    → ClaimOf P db now c
    → ClaimOf P db0 now c
unfolding grants_of
ClaimOf-SameTables P db0 db now c (hr, ht, hg) (a, b, d, (t, e, f), g, k) =
    (a, rw hr at b, d, (t, rw ht at e, f), rw hg at g, k)

claim_requests-ClaimOf :
    (P : RequestRow → Type 0) (token : String) (lease_seconds now : ℕ) (qs : List RequestRow)
    (db0 db : PeerDb) (c : Candidate)
    → All P qs
    → SameTables db0 db
    → (claim_requests token lease_seconds now qs db).0 ≡ some c
    → ClaimOf P db0 now c
unfolding claim_requests
claim_requests-ClaimOf P token lease_seconds now [] db0 db c a same h = absurd (cc h)
claim_requests-ClaimOf P token lease_seconds now (q ∷ qs) db0 db c a same h =
    let relation = first_where (relation_is q.relationship_id) db.relationships in
    let thread = first_where (thread_is q.thread_id) db.threads in
    elim (Bool-cases (is_open_for relation thread now)) [
      | inr e ↦
          claim_requests-ClaimOf P token lease_seconds now qs db0
            (set_requests (request_is q.request_id)
              (λ p. record p { status = RequestStatus.denied }) db)
            c a.1 same (rw (e, claim_requests) at h)
      | inl e ↦
          let claimed = claim_one relation thread q token lease_seconds now db in
          elim (Option-cases claimed.0) [
            | inl n ↦
                claim_requests-ClaimOf P token lease_seconds now qs db0 claimed.1 c a.1
                  (claim_one-SameTables relation thread q token lease_seconds now db0 db same)
                  (rw (e, n, claim_requests) at h)
            | inr (d, n) ↦
                let made : some d ≡ some c = rw (e, n, claim_requests) at h in
                ClaimOf-SameTables P db0 db now c same (
                  claim_one-ClaimOf P relation thread q token lease_seconds now db c a.0 refl refl e
                    (n ∙ made))
          ]
    ]

-- What puts a request next in line: it waits, its time has come, fewer than three attempts were made,
-- and the earlier requests of its thread are closed.
abbrev pub IsNext : List RequestRow → ℕ → RequestRow → Type 0
IsNext qs now q =
    (is_claimable q.status ≡ true)
    × (q.attempt_count < 3)
    × (q.available_at ≤ now)
    × All
        (λ p.
          str_eq p.thread_id q.thread_id ≡ true
          → p.sequence < q.sequence
          → is_open p.status ≡ false)
        qs

candidate-IsNext :
    (qs : List RequestRow) (now : ℕ) (q : RequestRow)
    → is_candidate qs now q ≡ true
    → IsNext qs now q
unfolding is_candidate waits_behind
candidate-IsNext qs now q h = (
  ground arith,
  ltb→lt q.attempt_count 3 (ground arith),
  leb→le q.available_at now (ground arith),
  All-map qs
      (λ p free thread earlier. elim (Bool-cases (is_open p.status)) [
        | inr e ↦ e
        | inl e ↦
            let before = lt→ltb p.sequence q.sequence earlier in
            absurd (cc (rw (thread, before, e) at free))
      ])
      (exists_where-false
        (λ p. str_eq p.thread_id q.thread_id && ltb p.sequence q.sequence && is_open p.status) qs
        (ground arith)),
)

-- The lease of a request: its row carries the token until the time, and one attempt more than before.
abbrev pub IsLeased : List RequestRow → List RequestRow → ℕ → Candidate → Type 0
IsLeased before after until c =
    (p : RequestRow) × In p before
    × (p.request_id ≡ c.request.request_id)
    × ((q : RequestRow) × In q after
        × (q.request_id ≡ c.request.request_id)
        × (is_leased q.status ≡ true)
        × (q.lease_token ≡ some c.token)
        × (q.lease_until ≡ some until)
        × (q.attempt_count ≡ p.attempt_count + 1))

-- what the rows of a table were before some requests are denied
abbrev Came : List RequestRow → RequestRow → Type 0
Came before q =
    (p : RequestRow) × In p before
    × (p.request_id ≡ q.request_id)
    × (p.attempt_count ≡ q.attempt_count)

claim_one-IsLeased :
    (r : Option RelationRow) (t : Option ThreadRow) (q : RequestRow) (token : String)
    (lease_seconds now : ℕ) (before : List RequestRow) (db after : PeerDb) (c : Candidate)
    → All (Came before) db.requests
    → claim_one r t q token lease_seconds now db ≡ (some c, after)
    → IsLeased before after.requests (now + seconds lease_seconds) c × (c.token ≡ token)
unfolding claim_one still_waits
claim_one-IsLeased none t q token lease_seconds now before db after c came h =
    absurd (cc (ap (λ a. a.0) h))
claim_one-IsLeased (some r) none q token lease_seconds now before db after c came h =
    absurd (cc (ap (λ a. a.0) h))
claim_one-IsLeased (some r) (some t) q token lease_seconds now before db after c came h =
    elim (Bool-cases (exists_where (still_waits q) db.requests)) [
      | inr e ↦ absurd (cc (ap (λ a. a.0) (rw e at h)))
      | inl e ↦
          let (x, i, hit) = exists_where-In (still_waits q) db.requests e in
          let (p, there, id, attempts) = All-In (Came before) db.requests x i came in
          let lease = lease_request token lease_seconds now t in
          let candidate : Candidate = record {
            request = q;
            token = token;
            relation = r;
            grants = grants_of db r.relationship_id;
            attempt = q.attempt_count + 1;
          } in
          let made : ◌≡◌ {A = Option Candidate × PeerDb}
              (some candidate, set_requests (still_waits q) lease db) (some c, after) =
            rw e at h in
          let is_c : some candidate ≡ some c = ap (λ a. a.0) made in
          let same : candidate ≡ c = cc is_c in
          let named : x.request_id ≡ q.request_id =
            (eq_iff x.request_id q.request_id).0 (ground arith) in
          let written = written-In (still_waits q) lease db.requests x i hit in
          (
            subst (λ d. IsLeased before after.requests (now + seconds lease_seconds) d) same
                (
                  p,
                  there,
                  id ∙ named,
                  (
                    lease x,
                    subst (λ (d : PeerDb). In (lease x) d.requests) (ap (λ a. a.1) made) written,
                    named,
                    refl,
                    refl,
                    refl,
                    ap (λ n. n + 1) (sym attempts),
                  ),
                ),
            ap (λ (d : Candidate). d.token) (sym same),
          )
    ]

claim_one-none :
    (r : Option RelationRow) (t : Option ThreadRow) (q : RequestRow) (token : String)
    (lease_seconds now : ℕ) (db : PeerDb)
    → (claim_one r t q token lease_seconds now db).0 ≡ none
    → (claim_one r t q token lease_seconds now db).1 ≡ db
unfolding claim_one
claim_one-none none t q token lease_seconds now db h = refl
claim_one-none (some r) none q token lease_seconds now db h = refl
claim_one-none (some r) (some t) q token lease_seconds now db h =
    elim (Bool-cases (exists_where (still_waits q) db.requests)) [
      | inr e ↦ rw e refl
      | inl e ↦ absurd (cc (rw e at h))
    ]

claim_requests-IsLeased :
    (token : String) (lease_seconds now : ℕ) (qs before : List RequestRow) (db after : PeerDb)
    (c : Candidate)
    → All (Came before) db.requests
    → claim_requests token lease_seconds now qs db ≡ (some c, after)
    → IsLeased before after.requests (now + seconds lease_seconds) c × (c.token ≡ token)
unfolding claim_requests
claim_requests-IsLeased token lease_seconds now [] before db after c came h =
    absurd (cc (ap (λ a. a.0) h))
claim_requests-IsLeased token lease_seconds now (q ∷ qs) before db after c came h =
    let relation = first_where (relation_is q.relationship_id) db.relationships in
    let thread = first_where (thread_is q.thread_id) db.threads in
    elim (Bool-cases (is_open_for relation thread now)) [
      | inr e ↦
          claim_requests-IsLeased token lease_seconds now qs before
            (set_requests (request_is q.request_id)
              (λ p. record p { status = RequestStatus.denied }) db)
            after c
            (All-update_where (request_is q.request_id) _ db.requests (λ x hit k. k) (λ x miss k. k)
              came)
            (rw (e, claim_requests) at h)
      | inl e ↦
          let claimed = claim_one relation thread q token lease_seconds now db in
          elim (Option-cases claimed.0) [
            | inl n ↦
                claim_requests-IsLeased token lease_seconds now qs before claimed.1 after c
                  (subst (λ (d : PeerDb). All (Came before) d.requests)
                    (sym (claim_one-none relation thread q token lease_seconds now db n)) came)
                  (rw (e, n, claim_requests) at h)
            | inr (d, n) ↦
                let made : ◌≡◌ {A = Option Candidate × PeerDb} (some d, claimed.1) (some c, after) =
                  rw (e, n, claim_requests) at h in
                let first : claimed.0 ≡ some c = n ∙ ap (λ a. a.0) made in
                let second : claimed.1 ≡ after = ap (λ a. a.1) made in
                claim_one-IsLeased relation thread q token lease_seconds now before db after c came
                  (λ j. (first j, second j))
          ]
    ]

-- What `claim_candidates` hands to a worker, once expired claims are recovered, is a request that
-- waits, whose time has come, of which the earlier requests of its thread are closed and of which
-- fewer than three attempts were made; under its relationship, which is active, and its thread, which
-- has not expired; with the grants of that relationship; and it is the first, second or third attempt.
-- Afterwards the request is leased with the token that the worker got, for as long as was asked but 15
-- seconds at most, and one more attempt of it is counted.
pub claim-ClaimOf :
    (token : String) (lease_seconds now : ℕ) (db after : PeerDb) (c : Candidate)
    → claim_candidates token lease_seconds now db ≡ ok (some c, after)
    → ClaimOf (IsNext (recover_claims now db).requests now) (recover_claims now db) now c
      × (1 ≤ c.attempt)
      × (c.attempt ≤ 3)
      × IsLeased
          (recover_claims now db).requests
          after.requests
          (now + seconds (earlier_time lease_seconds 15))
          c
      × (c.token ≡ token)
unfolding claim_candidates
claim-ClaimOf token lease_seconds now db after c h =
    let (u, hu, h1) =
      >>=-eq-ok (guard (leb 1 lease_seconds && leb lease_seconds 3600) invalid_lease_seconds) _ h in
    let recovered = recover_claims now db in
    let test = is_candidate recovered.requests now in
    let rows = sort_requests (select_where test recovered.requests) in
    let lease = earlier_time lease_seconds 15 in
    let claim =
      claim_requests-ClaimOf (IsNext recovered.requests now) token lease now rows recovered
        recovered c
        (sort-All (IsNext recovered.requests now) (select_where test recovered.requests) (
          All-map (select_where test recovered.requests)
            (λ q t. candidate-IsNext recovered.requests now q t)
            (select-All test recovered.requests)))
        (refl, refl, refl) (ap (λ a. a.0) (ok-injective h1)) in
    let few = claim.0.1 in
    let attempt = claim.5 in
    let (leased, its) =
      claim_requests-IsLeased token lease now rows recovered.requests recovered after c
        (All-of_In (Came recovered.requests) recovered.requests (λ q i. (q, i, refl, refl)))
        (ok-injective h1) in
    (claim, omega arith, omega arith, leased, its)
