-- ===== src/Onboarding/Laws/Working.antt =====
-- What `claim_next_work` hands out (tomo_core/src/tomo_core/onboarding_store.py).
use tomo_v.Common.{
  ℕ, String, Bool, true, false, Option, none, some, List, [], ◌∷◌, ◌≡◌, ◌≢◌, refl, sym, ap, All,
  All-In, In, exists_where-All, select_where, sort_by, insert_by, least_by, Bool-cases,
  Option-cases, inl, inr, ok, ok-injective,
}
use tomo_v.Onboarding.Rows.{Db, InboxRow, TurnRow}
use tomo_v.Onboarding.Store.Claim.{
  is_due, turn_before, is_waiting, waiting_rows, update_before, claim_rows, claim_turn,
  claim_next_work,
}
use tomo_v.Onboarding.Sound.{Sound, HasMessage}
use tomo_v.Onboarding.Sound.Claims.{due_turn, claim_rows-parts}
use tomo_v.Onboarding.History.{Reached}
use tomo_v.Onboarding.History.Invariant.{Reached-Sound}

insert-ne-nil :
    {A : Type 0} (before : A → A → Bool) (x : A) (l : List A) → insert_by before x l ≢ []
unfolding insert_by
insert-ne-nil before x [] h = cc h
insert-ne-nil before x (y ∷ ys) h = elim (Bool-cases (before y x)) [
  | inl e ↦ cc (rw e at h)
  | inr e ↦ cc (rw e at h)
]

-- Sorting makes no table empty.
sort-nil : {A : Type 0} (before : A → A → Bool) (l : List A) → sort_by before l ≡ [] → l ≡ []
unfolding sort_by
sort-nil before [] h = refl
sort-nil before (x ∷ xs) h = absurd (insert-ne-nil before x (sort_by before xs) h)

least-nil : {A : Type 0} (before : A → A → Bool) (l : List A) → least_by before l ≡ none → l ≡ []
unfolding least_by
least-nil before [] h = refl
least-nil before (x ∷ xs) h = elim (Option-cases (least_by before xs)) [
  | inl e ↦ absurd (cc (rw (e, least_by) at h))
  | inr (y, e) ↦ absurd (cc (rw (e, least_by) at h))
]

select-nil :
    {A : Type 0} (p : A → Bool) (l : List A) → select_where p l ≡ [] → All (λ x. p x ≡ false) l
unfolding select_where
select-nil p [] h = tt
select-nil p (x ∷ xs) h = elim (Bool-cases (p x)) [
  | inl e ↦ absurd (cc (rw e at h))
  | inr e ↦ (e, select-nil p xs (rw e at h))
]

-- A claim of some rows gives work.
rows_give_work :
    (sha256 : String → String) (t : TurnRow) (burst_id : String) (row : InboxRow)
    (rows : List InboxRow) (now : ℕ) (db after : Db)
    → claim_rows sha256 t burst_id (row ∷ rows) now db ≢ ok (none, after)
rows_give_work sha256 t burst_id row rows now db after h =
    let (generations, inserted, made) =
      claim_rows-parts sha256 t burst_id row rows now db (none, after) h in
    cc (ap (λ a. a.0) made)

burst_gives_work :
    (sha256 : String → String) (t : TurnRow) (o : Option String) (now : ℕ) (db after : Db)
    → t.burst_id ≡ o
    → In t db.turns
    → is_due now t ≡ true
    → Sound db
    → claim_turn sha256 (some t) now db ≢ ok (none, after)
unfolding claim_turn is_due
burst_gives_work sha256 t none now db after e i due s h = absurd (cc (rw e at due))
burst_gives_work sha256 t (some burst_id) now db after e i due s h =
    given (waiting_rows t.chat_id burst_id db.inbox) refl (rw (e, claim_turn) at h)
  where
    given :
        (rows : List InboxRow)
        → waiting_rows t.chat_id burst_id db.inbox ≡ rows
        → claim_rows sha256 t burst_id (waiting_rows t.chat_id burst_id db.inbox) now db
          ≡ ok (none, after)
        → ⊥
    given [] empty h =
        let message = All-In (HasMessage db.inbox) db.turns t i s.waiting burst_id e in
        let nothing = exists_where-All (is_waiting t.chat_id burst_id) db.inbox (
          select-nil (is_waiting t.chat_id burst_id) db.inbox (
            sort-nil update_before (select_where (is_waiting t.chat_id burst_id) db.inbox)
              empty)) in
        cc (message, nothing)
    given (row ∷ rows) some_rows h =
        rows_give_work sha256 t burst_id row rows now db after (rw some_rows at h)

-- No burst is left waiting: where `claim_next_work` has nothing to hand out, it changes nothing, and
-- no burst is due at this time.
pub claim_next_work-none :
    (sha256 : String → String) (now : ℕ) (db after : Db)
    → Reached db
    → claim_next_work sha256 now db ≡ ok (none, after)
    → (after ≡ db) × All (λ t. is_due now t ≡ false) db.turns
unfolding claim_next_work claim_turn
claim_next_work-none sha256 now db after r h =
    elim (Option-cases (least_by turn_before (select_where (is_due now) db.turns))) [
      | inl e ↦ (
        sym (ap (λ a. a.1) (ok-injective (rw (e, claim_turn) at h))),
        select-nil (is_due now) db.turns
            (least-nil turn_before (select_where (is_due now) db.turns) e),
      )
      | inr (t, e) ↦
          let (i, due) = due_turn now db.turns t e in
          absurd (
            burst_gives_work sha256 t t.burst_id now db after refl i due (Reached-Sound r)
              (rw e at h))
    ]
