-- ===== src/Peer/Laws/Confirming.antt =====
-- `decide_confirmation` of tomo_core/src/tomo_core/peer_store.py: a confirmation is decided once, and
-- confirms only what it was asked for.
use mathlib.Core.Path.{subst}
use tomo_v.Common.{
  ℕ, String, Bool, true, false, ◌&&◌, Option, none, some, List, ◌≡◌, refl, sym, ap, ◌∙◌, arith, leb,
  ◌<◌, leb_false→lt, if◌then◌else◌, Bool-cases, Option-cases, inl, inr, str_eq, eq_refl,
  first_where, first_where-update_where, update_where,
}
use tomo_v.Peer.Rows.{
  PeerDb, RelationRow, RequestRow, ConfirmationRow, RequestStatus, ConfirmationStatus, AuditCode,
  is_active, is_undecided, relation_is, request_is, confirmation_is, grants_of,
}
use tomo_v.Peer.Policy.{allows}
use tomo_v.Peer.Store.Requests.{revisions}
use tomo_v.Peer.Store.Responses.{same_revisions}
use tomo_v.Peer.Store.Confirmations.{
  Verdict, replayed, expired, confirmed, cancelled, authorize, still_valid, settle_confirmation,
  decide_pending, decide_found, decide_confirmation, decide_row, set_request_status,
}

-- the confirmation that an owner decides
abbrev pub asked_of : String → String → ConfirmationRow → Bool
asked_of owner_id pending_id c = confirmation_is pending_id c && str_eq c.affected_owner owner_id

-- a verdict that settles
abbrev pub settles : Verdict → Bool
settles expired = true
settles confirmed = true
settles cancelled = true
settles _ = false

updated_found :
    (request_id : String) (f : RequestRow → RequestRow) (l : List RequestRow) (q : RequestRow)
    → ((x : RequestRow) → request_is request_id (f x) ≡ request_is request_id x)
    → first_where (request_is request_id) l ≡ some q
    → (p : RequestRow) × (first_where
          (request_is request_id)
          (update_where (request_is request_id) f l)
        ≡ some p)
updated_found request_id f l q same h = (
  if request_is request_id q then f q else q,
  first_where-update_where (request_is request_id) (request_is request_id) f l same ∙ rw h refl,
)

settled-replayed :
    (sha256 : String → String) (owner_id pending_id : String) (status : ConfirmationStatus)
    (request_status : RequestStatus) (code : AuditCode) (c : ConfirmationRow) (q : RequestRow)
    (now : ℕ) (db : PeerDb) (approve : Bool) (later : ℕ)
    → is_undecided status ≡ false
    → first_where (asked_of owner_id pending_id) db.confirmations ≡ some c
    → first_where (request_is c.request_id) db.requests ≡ some q
    → decide_confirmation sha256 owner_id pending_id approve later
        (settle_confirmation status request_status code owner_id c q now db)
      ≡ (replayed, settle_confirmation status request_status code owner_id c q now db)
unfolding decide_confirmation decide_found settle_confirmation
settled-replayed sha256 owner_id pending_id status request_status code c q now db approve later
      decided hc hq =
    let e : first_where (asked_of owner_id pending_id)
          (update_where (confirmation_is c.pending_id) (decide_row status now) db.confirmations)
        ≡ some (decide_row status now c) =
      first_where-update_where (asked_of owner_id pending_id) (confirmation_is c.pending_id)
        (decide_row status now) db.confirmations (λ x. refl)
      ∙ rw (hc, eq_refl c.pending_id) refl in
    let (p, f) =
      updated_found c.request_id (set_request_status request_status) db.requests q (λ x. refl) hq in
    rw (e, f, decided, decide_found) refl

-- What a confirmation that was given rests on: the owner approved in time; the request's text is the
-- one that was shown; the relationship is active and, with its grants, at the revisions at which the
-- confirmation was asked for; and the policy allows the request once it is authorized.
abbrev pub Confirmed : (String → String) → PeerDb → ConfirmationRow → RequestRow → Bool → ℕ → Type 0
Confirmed sha256 db c q approve now =
    (approve ≡ true)
    × (now < c.expires_at)
    × (str_eq (sha256 q.text) c.payload_hash ≡ true)
    × ((r : RelationRow) × (first_where (relation_is q.relationship_id) db.relationships ≡ some r)
        × (is_active r.status ≡ true)
        × (r.revision ≡ c.relationship_revision)
        × (same_revisions (revisions (grants_of db r.relationship_id)) c.grant_revisions ≡ true)
        × (allows (some r) (grants_of db r.relationship_id) (some (authorize q)) now ≡ true))

and_false : (a : Bool) → (a && false) ≡ true → ⊥
and_false a h = ground arith

valid-Confirmed :
    (sha256 : String → String) (db : PeerDb) (c : ConfirmationRow) (q : RequestRow) (approve : Bool)
    (now : ℕ) (o : Option RelationRow)
    → first_where (relation_is q.relationship_id) db.relationships ≡ o
    → leb c.expires_at now ≡ false
    → (approve && still_valid sha256 db o c q now) ≡ true
    → Confirmed sha256 db c q approve now
unfolding still_valid
valid-Confirmed sha256 db c q approve now none found timely h = absurd (and_false approve h)
valid-Confirmed sha256 db c q approve now (some r) found timely h = (
  ground arith,
  leb_false→lt c.expires_at now timely,
  ground arith,
  (r, found, ground arith, ground arith, ground arith, ground arith),
)

after-replayed :
    (sha256 : String → String) (owner_id pending_id : String) (verdict v : Verdict)
    (status : ConfirmationStatus) (request_status : RequestStatus) (code : AuditCode)
    (c : ConfirmationRow) (q : RequestRow) (now : ℕ) (db after : PeerDb)
    → is_undecided status ≡ false
    → first_where (asked_of owner_id pending_id) db.confirmations ≡ some c
    → first_where (request_is c.request_id) db.requests ≡ some q
    → ◌≡◌ {A = Verdict × PeerDb}
        (verdict, settle_confirmation status request_status code owner_id c q now db)
        (v, after)
    → (approve : Bool) (later : ℕ)
    → decide_confirmation sha256 owner_id pending_id approve later after ≡ (replayed, after)
after-replayed sha256 owner_id pending_id verdict v status request_status code c q now db after
      decided hc hq h approve later =
    subst (λ d. decide_confirmation sha256 owner_id pending_id approve later d ≡ (replayed, d))
      (ap (λ a. a.1) h)
      (settled-replayed sha256 owner_id pending_id status request_status code c q now db approve
        later decided hc hq)

-- Where an owner's decision of a confirmation settles it: if the verdict is `confirmed`, it rests on
-- what `Confirmed` lists, for a confirmation that was still undecided, and its request; and whatever
-- the verdict, every later decision of the confirmation by the owner is a replay and writes nothing.
pub decide-once :
    (sha256 : String → String) (owner_id pending_id : String) (approve : Bool) (now : ℕ)
    (db after : PeerDb) (v : Verdict)
    → decide_confirmation sha256 owner_id pending_id approve now db ≡ (v, after)
    → settles v ≡ true
    → ((c : ConfirmationRow) × (q : RequestRow) × (first_where
            (asked_of owner_id pending_id)
            db.confirmations
          ≡ some c)
        × (first_where (request_is c.request_id) db.requests ≡ some q)
        × (is_undecided c.status ≡ true)
        × (v ≡ confirmed → Confirmed sha256 db c q approve now))
      × ((approve' : Bool) (later : ℕ)
          → decide_confirmation sha256 owner_id pending_id approve' later after ≡ (replayed, after))
unfolding decide_confirmation decide_found decide_pending
decide-once sha256 owner_id pending_id approve now db after v h settled =
    elim (Option-cases (first_where (asked_of owner_id pending_id) db.confirmations)) [
      | inl e ↦ absurd (
          cc (
            subst (λ x. settles x ≡ true) (sym (ap (λ a. a.0) (rw (e, decide_found) at h)))
              settled))
      | inr (c, e) ↦ elim (Option-cases (first_where (request_is c.request_id) db.requests)) [
        | inl f ↦ absurd (
            cc (
              subst (λ x. settles x ≡ true) (sym (ap (λ a. a.0) (rw (e, f, decide_found) at h)))
                settled))
        | inr (q, f) ↦ elim (Bool-cases (is_undecided c.status)) [
          | inr g ↦ absurd (
              cc (
                subst (λ x. settles x ≡ true)
                  (sym (ap (λ a. a.0) (rw (e, f, g, decide_found) at h))) settled))
          | inl g ↦
              let relation = first_where (relation_is q.relationship_id) db.relationships in
              elim (Bool-cases (leb c.expires_at now)) [
                | inl late ↦
                    let k = rw (e, f, g, late, decide_found) at h in
                    (
                      (c, q, e, f, g, λ given. absurd (cc (ap (λ a. a.0) k, given))),
                      after-replayed sha256 owner_id pending_id expired v ConfirmationStatus.expired
                          RequestStatus.denied AuditCode.cancel c q now db after refl e f k,
                    )
                | inr timely ↦
                    elim (Bool-cases (approve && still_valid sha256 db relation c q now)) [
                      | inl good ↦ (
                        (
                          c,
                          q,
                          e,
                          f,
                          g,
                          λ given.
                              valid-Confirmed sha256 db c q approve now relation refl timely good,
                        ),
                        after-replayed sha256 owner_id pending_id confirmed v
                            ConfirmationStatus.confirmed RequestStatus.authorized AuditCode.confirm
                            c q now db after refl e f
                            (rw (e, f, g, timely, good, decide_found) at h),
                      )
                      | inr bad ↦
                          let k = rw (e, f, g, timely, bad, decide_found) at h in
                          (
                            (c, q, e, f, g, λ given. absurd (cc (ap (λ a. a.0) k, given))),
                            after-replayed sha256 owner_id pending_id cancelled v
                                ConfirmationStatus.cancelled RequestStatus.denied AuditCode.cancel c
                                q now db after refl e f k,
                          )
                    ]
              ]
        ]
      ]
    ]
