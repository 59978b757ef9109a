-- ===== src/Peer/Policy/Allowed.antt =====
-- Exactly when the policy of tomo_core/src/tomo_core/peer_policy.py allows a request.
use tomo_v.Common.{
  ℕ, true, false, ◌&&◌, ◌||◌, Option, some, List, ◌≡◌, refl, arith, str_eq, Bool-cases, inl, inr,
  ◌↔◌,
}
use tomo_v.Peer.Rows.{RelationRow, GrantRow, RequestRow, is_active, is_unsafe, is_authorized}
use tomo_v.Peer.Policy.{
  allow, grant_from, has_expired, communicates, auto_replies, is_between, needs_confirmation,
  decide_grants, decide_request, decide,
}

-- What a request needs: a safe action; an active relationship of its sender and recipient; a grant
-- of the sender to communicate and of the recipient to reply, neither expired; and the recipient's
-- confirmation, where one is needed.
pub record MayAnswer (r : RelationRow) (grants : List GrantRow) (q : RequestRow) (now : ℕ)
    : Type 0 where
  pub safe : is_unsafe q.action ≡ false
  pub active : is_active r.status ≡ true
  pub same : str_eq q.relationship_id r.relationship_id ≡ true
  pub between : is_between r q ≡ true
  pub sender_current : has_expired (grant_from r.relationship_id q.sender grants) now ≡ false
  pub recipient_current : has_expired (grant_from r.relationship_id q.recipient grants) now ≡ false
  pub communicates : communicates (grant_from r.relationship_id q.sender grants) ≡ true
  pub replies : auto_replies (grant_from r.relationship_id q.recipient grants) ≡ true
  pub confirmed :
      needs_confirmation (grant_from r.relationship_id q.recipient grants) q ≡ true
      → is_authorized q.status ≡ true

abbrev Granted : Option GrantRow → Option GrantRow → RequestRow → ℕ → Type 0
Granted sender recipient q now =
    (has_expired sender now ≡ false)
    × (has_expired recipient now ≡ false)
    × (communicates sender ≡ true)
    × (auto_replies recipient ≡ true)
    × (needs_confirmation recipient q ≡ true → is_authorized q.status ≡ true)

granted :
    (sender recipient : Option GrantRow) (q : RequestRow) (now : ℕ)
    → ((decide_grants sender recipient q now).outcome ≡ allow)
    → Granted sender recipient q now
unfolding decide_grants
granted sender recipient q now h =
    elim (Bool-cases (has_expired sender now || has_expired recipient now)) [
      | inl a ↦ absurd (cc (rw a at h))
      | inr a ↦ elim (Bool-cases (communicates sender)) [
        | inr b ↦ absurd (cc (rw (a, b) at h))
        | inl b ↦ elim (Bool-cases (auto_replies recipient)) [
          | inr c ↦ absurd (cc (rw (a, b, c) at h))
          | inl c ↦ elim (Bool-cases (is_authorized q.status)) [
            | inl d ↦ (ground arith, ground arith, b, c, λ _. d)
            | inr d ↦ (ground arith, ground arith, b, c, λ n. absurd (cc (rw (a, b, c, n, d) at h)))
          ]
        ]
      ]
    ]

allowed_if :
    (sender recipient : Option GrantRow) (q : RequestRow) (now : ℕ)
    → Granted sender recipient q now
    → (decide_grants sender recipient q now).outcome ≡ allow
unfolding decide_grants
allowed_if sender recipient q now (a, b, c, d, f) =
    elim (Bool-cases (needs_confirmation recipient q)) [
      | inl n ↦ rw (a, b, c, d, n, f n) refl
      | inr n ↦ rw (a, b, c, d, n) refl
    ]

-- The policy allows a request under a relationship exactly where it has what it needs.
pub decide-MayAnswer :
    (r : RelationRow) (grants : List GrantRow) (q : RequestRow) (now : ℕ)
    → ((decide (some r) grants (some q) now).outcome ≡ allow) ↔ MayAnswer r grants q now
unfolding decide decide_request
decide-MayAnswer r grants q now =
    let sender = grant_from r.relationship_id q.sender grants in
    let recipient = grant_from r.relationship_id q.recipient grants in
    (
      λ h. elim (Bool-cases (is_unsafe q.action)) [
        | inl a ↦ absurd (cc (rw a at h))
        | inr a ↦
            elim (Bool-cases (
              is_active r.status && str_eq q.relationship_id r.relationship_id && is_between r q)) [
                | inr b ↦ absurd (cc (rw (a, b) at h))
                | inl b ↦
                    let (c, d, e, f, g) = granted sender recipient q now (rw (a, b) at h) in
                    record {
                      safe = a;
                      active = ground arith;
                      same = ground arith;
                      between = ground arith;
                      sender_current = c;
                      recipient_current = d;
                      communicates = e;
                      replies = f;
                      confirmed = g;
                    }
              ]
      ],
      λ m.
          rw (m.safe, m.active, m.same, m.between)
            (allowed_if sender recipient q now
              (m.sender_current, m.recipient_current, m.communicates, m.replies, m.confirmed)),
    )
