-- ===== src/Onboarding/Laws/Control.antt =====
-- Control updates are worked on one at a time and in order
-- (tomo_core/src/tomo_core/onboarding_store.py).
use tomo_v.Common.{
  refl, sym, ◌∙◌, eq_iff, exists_where, update_where, written-In, In-exists, ℕ, ◌+◌, ◌≤◌, ◌<◌, true,
  false, some, ◌≡◌, ap, arith, str_eq, All, All-map, In, exists_where-false, select_where,
  select_where-In, least_by, least_by-In, Option-cases, Bool-cases, inl, inr, leb→le, lt→ltb,
}
use tomo_v.Onboarding.Rows.{
  Db, InboxRow, update_is, is_pending, is_processing, is_completed, is_control,
}
use tomo_v.Onboarding.Store.Control.{
  is_busy, is_earlier, is_next, sooner, start_row, start_update, claim_next_update,
}

-- Which update is handed out, what has become of the chat's other control updates, and what the tables
-- say of it afterwards.
pub record IsTurnOf (db after : Db) (now : ℕ) (r q : InboxRow) : Type 0 where
  pub there : In q db.inbox
  pub same : (r.update_id ≡ q.update_id) × (r.chat_id ≡ q.chat_id) × (r.payload ≡ q.payload)
  pub attempts : r.attempts ≡ q.attempts + 1
  pub waits : (is_control q ≡ true) × (is_pending q.status ≡ true) × (q.available_at ≤ now)
  pub alone :
      All
        (λ s.
          str_eq s.chat_id q.chat_id ≡ true → is_control s ≡ true → is_processing s.status ≡ false)
        db.inbox
  pub first :
      All
        (λ s.
          str_eq s.chat_id q.chat_id ≡ true
          → is_control s ≡ true
          → s.update_id < q.update_id
          → is_completed s.status ≡ true)
        db.inbox
  pub taken :
      (p : InboxRow) × In p after.inbox
      × (p.update_id ≡ q.update_id)
      × (p.chat_id ≡ q.chat_id)
      × (is_processing p.status ≡ true)
      × (p.attempts ≡ q.attempts + 1)
  pub blocks :
      (later : ℕ) (s : InboxRow) (rest : Db)
      → claim_next_update later after ≡ (some s, rest)
      → str_eq s.chat_id q.chat_id ≡ false

-- what `claim_next_update` picks
claimed_row :
    (now : ℕ) (db after : Db) (r : InboxRow)
    → claim_next_update now db ≡ (some r, after)
    → (q : InboxRow) × In q db.inbox
      × (is_next now db.inbox q ≡ true)
      × (start_update (some q) now db ≡ (some r, after))
unfolding claim_next_update
claimed_row now db after r h =
    elim (Option-cases (least_by sooner (select_where (is_next now db.inbox) db.inbox))) [
      | inl e ↦ absurd (cc (ap (λ a. a.0) (rw (e, start_update) at h)))
      | inr (q, e) ↦
          let (i, next) =
            select_where-In (is_next now db.inbox) db.inbox q
              (least_by-In sooner (select_where (is_next now db.inbox) db.inbox) q e) in
          (q, i, next, rw e at h)
    ]

started_inbox :
    (q r : InboxRow) (now : ℕ) (db after : Db)
    → start_update (some q) now db ≡ (some r, after)
    → (r.update_id ≡ q.update_id)
      × (r.chat_id ≡ q.chat_id)
      × (r.payload ≡ q.payload)
      × (r.attempts ≡ q.attempts + 1)
      × (after.inbox ≡ update_where (update_is q.update_id) (start_row now) db.inbox)
unfolding start_update
started_inbox q r now db after h =
    let row = ap (λ a. a.0) h in
    let tables = ap (λ a. a.1) h in
    (ground arith, ground arith, ground arith, ground arith, sym (ap (λ (d : Db). d.inbox) tables))

-- While an update of a chat is worked on, no other control update of the chat is handed out.
busy_blocks :
    (db : Db) (p : InboxRow)
    → In p db.inbox
    → is_control p ≡ true
    → is_processing p.status ≡ true
    → (later : ℕ) (s : InboxRow) (rest : Db) → claim_next_update later db ≡ (some s, rest)
    → str_eq s.chat_id p.chat_id ≡ false
unfolding is_next is_busy
busy_blocks db p i control busy later s rest h =
    let (c, there, next, start) = claimed_row later db rest s h in
    let (a, chat, b, d, e) = started_inbox c s later db rest start in
    elim (Bool-cases (str_eq s.chat_id p.chat_id)) [
      | inr e ↦ e
      | inl e ↦
          let at_c : str_eq p.chat_id c.chat_id ≡ true =
            (eq_iff p.chat_id c.chat_id).1 (sym ((eq_iff s.chat_id p.chat_id).0 e) ∙ chat) in
          let taken = In-exists (is_busy c) db.inbox p i (ground arith) in
          let free : exists_where (is_busy c) db.inbox ≡ false = ground arith in
          absurd (cc (taken, free))
    ]

-- Control updates of a chat are handed out one at a time and in order: `claim_next_update` hands out
-- an update that waits and whose time has come, with one more attempt counted, where no control update
-- of its chat is being worked on and all earlier ones of its chat are completed. Afterwards the update
-- is marked as being worked on, with that attempt counted, and as long as the tables stay so, nothing
-- of its chat is handed out again, at any time.
pub claim_next_update-IsTurnOf :
    (now : ℕ) (db after : Db) (r : InboxRow)
    → claim_next_update now db ≡ (some r, after)
    → (q : InboxRow) × IsTurnOf db after now r q
unfolding is_next is_busy is_earlier
claim_next_update-IsTurnOf now db after r h =
    let (q, i, next, start) = claimed_row now db after r h in
    let (update, chat, payload, attempt, inbox) = started_inbox q r now db after start in
    let p = start_row now q in
    let there : In p after.inbox =
      rw inbox (written-In (update_is q.update_id) (start_row now) db.inbox q i (ground arith)) in
    (
      q,
      record {
        there = i;
        same = (update, chat, payload);
        attempts = attempt;
        waits = (ground arith, ground arith, leb→le q.available_at now (ground arith));
        alone =
            All-map db.inbox (λ s free chat control. ground arith)
              (exists_where-false (is_busy q) db.inbox (ground arith));
        first =
            All-map db.inbox
              (λ s done chat control earlier. elim (Bool-cases (is_completed s.status)) [
                | inl e ↦ e
                | inr e ↦
                    let lt = lt→ltb s.update_id q.update_id earlier in
                    absurd (cc (rw (chat, control, lt, e) at done))
              ])
              (exists_where-false (is_earlier q) db.inbox (ground arith));
        taken = (p, there, refl, refl, refl, refl);
        blocks = busy_blocks after p there (ground arith) refl;
      },
    )
