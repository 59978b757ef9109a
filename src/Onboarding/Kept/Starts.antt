-- ===== src/Onboarding/Kept/Starts.antt =====
-- Messages that arrive, and generations that start, keep unanswered messages in the bursts of their
-- chats (tomo_core/src/tomo_core/onboarding_store.py).
use mathlib.Core.Path.{subst}
use tomo_v.Common.{
  ℕ, ◌+◌, String, true, false, Option, none, some, List, [], ◌∷◌, ◌++◌, ◌≡◌, refl, sym, ◌∙◌, ap,
  arith, str_eq, eq_iff, All, All-map, All-both, All-append, In, first_where, exists_where,
  exists_where-false, select_where, least_by, Bool-cases, Option-cases, inl, inr, ok, ok-injective,
  >>=-eq-ok, max,
}
use tomo_v.Onboarding.Ids.{automation_of, session_of}
use tomo_v.Onboarding.Rows.{
  Db, InboxRow, TurnRow, GenerationWork, InterruptedGeneration, turn_is, update_is,
}
use tomo_v.Onboarding.Store.Turns.{
  Arrival, row_of_arrival, active_of, open_burst, supersede_active, place_message, enqueue_message,
  enqueue_update, insert_generation, new_generation, new_turn, upsert_turn, max_revision,
  revision_of, is_free, reserve_automation_generation,
}
use tomo_v.Onboarding.Store.Claim.{
  waiting_rows, generation_for, claimed_tables, claim_rows, claim_turn, claim_next_work, is_due,
  turn_before,
}
use tomo_v.Onboarding.Sound.{Sound}
use tomo_v.Onboarding.Sound.Parts.{found_by_chat, is_none-true}
use tomo_v.Onboarding.Sound.Arrivals.{Elsewhere, silenced, supersede_All}
use tomo_v.Onboarding.Sound.Enqueue.{update-append}
use tomo_v.Onboarding.Sound.Claims.{insert_generation-parts, claim_rows-parts, due_turn}
use tomo_v.Onboarding.Kept.{burst_at, IsPlaced, Matches, Kept}
use tomo_v.Onboarding.Kept.Turns.{
  update-burst_at, upsert-burst_at-other, upsert-burst_at-own, place-own, place-going, place-other,
}
use tomo_v.Onboarding.Kept.Parts.{same_bursts, start-Kept}

-- a message that arrives in a chat
module _ (a : Arrival) (debounce now : ℕ) (db : Db) where
  placed_turns : String × ℕ × List TurnRow
  placed_turns =
      let turn = first_where (turn_is a.chat_id) db.turns in
      place_message (open_burst turn) turn a debounce now
        (supersede_active (active_of turn) now db.generations) db.turns

  -- A message that waits in the chat is in the burst that goes on.
  IsPlaced-placed : (r : InboxRow) → IsPlaced db.turns r → IsPlaced placed_turns.2 r
  unfolding placed_turns
  IsPlaced-placed r placed message waiting =
      let turn = first_where (turn_is a.chat_id) db.turns in
      let gs = supersede_active (active_of turn) now db.generations in
      let (b, its, here) = placed message waiting in
      elim (Bool-cases (str_eq r.chat_id a.chat_id)) [
        | inr other ↦ (
          b,
          its,
          place-other (open_burst turn) turn a debounce now gs db.turns r.chat_id other ∙ here,
        )
        | inl e ↦
            let same : r.chat_id ≡ a.chat_id = (eq_iff r.chat_id a.chat_id).0 e in
            let going =
              place-going (open_burst turn) turn a debounce now gs db.turns b
                (subst (λ c. burst_at c db.turns ≡ some b) same here) in
            (
              b,
              its,
              subst (λ c. burst_at c placed_turns.2 ≡ some b) (sym same)
                  (place-own (open_burst turn) turn a debounce now gs db.turns refl
                    ∙ ap some going),
            )
      ]

  enqueue_message-Kept :
      exists_where (update_is a.update_id) db.inbox ≡ false
      → Sound db
      → Kept db
      → Kept
          (enqueue_message
            (first_where (turn_is a.chat_id) db.turns)
            a
            debounce
            now
            (db.inbox ++ row_of_arrival a now ∷ [])
            db).1
  unfolding enqueue_message placed_turns
  enqueue_message-Kept fresh s k =
      let turn = first_where (turn_is a.chat_id) db.turns in
      let gs = supersede_active (active_of turn) now db.generations in
      let placed = placed_turns in
      let row : InboxRow = record (row_of_arrival a now) { burst_id = some placed.0 } in
      record {
        placed =
            subst (λ l. All (IsPlaced placed.2) l)
              (sym (
                update-append (update_is a.update_id) (λ r. record r { burst_id = some placed.0 })
                  db.inbox (row_of_arrival a now)
                  (exists_where-false (update_is a.update_id) db.inbox fresh) (ground arith)))
              (All-append (IsPlaced placed.2) db.inbox (row ∷ [])
                (All-map db.inbox IsPlaced-placed k.placed)
                (
                  λ message waiting. (
                    placed.0,
                    refl,
                    place-own (open_burst turn) turn a debounce now gs db.turns refl,
                  ),
                  tt,
                ));
        matched =
            All-map gs
              (λ g (away, matched) running b here. matched running b (
                sym (
                  place-other (open_burst turn) turn a debounce now gs db.turns g.chat_id
                    (away running))
                ∙ here))
              (All-both (Elsewhere a.chat_id) (Matches db.turns) gs
                (silenced a.chat_id now db.generations db.turns s.linked)
                (supersede_All (Matches db.turns) (active_of turn) now db.generations
                  (λ g running. absurd (cc running)) k.matched));
      }

  pub enqueue-Kept : Sound db → Kept db → Kept (enqueue_update a debounce now db).1
  unfolding enqueue_update
  enqueue-Kept s k = elim (Bool-cases (exists_where (update_is a.update_id) db.inbox)) [
    | inl e ↦ rw e k
    | inr fresh ↦ elim (Bool-cases (str_eq a.update_kind "message")) [
      | inl message ↦ rw (fresh, message) (enqueue_message-Kept fresh s k)
      | inr control ↦
          rw (fresh, control)
            (record {
              placed =
                  All-append (IsPlaced db.turns) db.inbox (row_of_arrival a now ∷ []) k.placed
                    (λ message. absurd (cc (control, message)), tt);
              matched = k.matched;
            })
    ]
  ]

claim_rows-Kept :
    (sha256 : String → String) (t : TurnRow) (burst_id : String) (rows : List InboxRow) (now : ℕ)
    (db : Db) (answer : Option GenerationWork × Db)
    → In t db.turns
    → t.burst_id ≡ some burst_id
    → claim_rows sha256 t burst_id rows now db ≡ ok answer
    → Sound db
    → Kept db
    → Kept answer.1
unfolding claim_rows claimed_tables generation_for
claim_rows-Kept sha256 t burst_id [] now db answer i burst h s k =
    subst (λ a. Kept a.1) (ok-injective h) k
claim_rows-Kept sha256 t burst_id (row ∷ rows) now db answer i burst h s k =
    let g = generation_for sha256 t burst_id (row ∷ rows) now db.generations in
    let (generations, inserted, made) =
      claim_rows-parts sha256 t burst_id row rows now db answer h in
    let (free, same) = insert_generation-parts g db.generations generations inserted in
    let found = found_by_chat db.turns t s.turn_keys i in
    let own : burst_at t.chat_id db.turns ≡ some burst_id = rw found burst in
    subst (λ (a : Option GenerationWork × Db). Kept a.1) (sym made)
      (rw same (
        same_bursts db.turns _
          (λ d. update-burst_at d _ _ db.turns (λ u. refl) (λ u hit here. refl)) db.inbox _
          (start-Kept g db.inbox db.turns db.generations (λ running b here. cc (own, here)) k)))

claim_turn-Kept :
    (sha256 : String → String) (t : TurnRow) (o : Option String) (now : ℕ) (db : Db)
    (answer : Option GenerationWork × Db)
    → In t db.turns
    → t.burst_id ≡ o
    → claim_turn sha256 (some t) now db ≡ ok answer
    → Sound db
    → Kept db
    → Kept answer.1
unfolding claim_turn
claim_turn-Kept sha256 t none now db answer i e h s k =
    subst (λ a. Kept a.1) (ok-injective (rw (e, claim_turn) at h)) k
claim_turn-Kept sha256 t (some burst_id) now db answer i e h s k =
    claim_rows-Kept sha256 t burst_id (waiting_rows t.chat_id burst_id db.inbox) now db answer i e
      (rw (e, claim_turn) at h) s k

pub claim-Kept :
    (sha256 : String → String) (now : ℕ) (db : Db) (answer : Option GenerationWork × Db)
    → claim_next_work sha256 now db ≡ ok answer
    → Sound db
    → Kept db
    → Kept answer.1
unfolding claim_next_work claim_turn
claim-Kept sha256 now db answer h s k =
    elim (Option-cases (least_by turn_before (select_where (is_due now) db.turns))) [
      | inl e ↦ subst (λ a. Kept a.1) (ok-injective (rw (e, claim_turn) at h)) k
      | inr (t, e) ↦
          claim_turn-Kept sha256 t t.burst_id now db answer (due_turn now db.turns t e).0 refl
            (rw e at h) s k
    ]

-- a chat that is free is in no burst
free-burst : (o : Option TurnRow) → is_free o ≡ true → open_burst o ≡ none
free-burst none free = refl
free-burst (some t) free = is_none-true t.burst_id (ground arith)

reserve_free-Kept :
    (sha256 : String → String) (chat_id tomo_id run_id : String) (now : ℕ) (db : Db)
    (answer : Option InterruptedGeneration × Db)
    → is_free (first_where (turn_is chat_id) db.turns) ≡ true
    → reserve_automation_generation sha256 chat_id tomo_id run_id now db ≡ ok answer
    → Kept db
    → Kept answer.1
unfolding reserve_automation_generation
reserve_free-Kept sha256 chat_id tomo_id run_id now db answer free h k =
    let turn = first_where (turn_is chat_id) db.turns in
    let revision = max (max_revision chat_id db.generations) (revision_of turn) + 1 in
    let generation_id = automation_of run_id revision in
    let g =
      new_generation generation_id generation_id chat_id tomo_id revision
        (session_of sha256 generation_id) now in
    let new = new_turn chat_id none revision now (some generation_id) now in
    let start = λ (t : TurnRow). record t {
      burst_id = none;
      revision = revision;
      active_generation_id = some generation_id;
      updated_at = now;
    } in
    let (generations, inserted, made) =
      >>=-eq-ok (insert_generation g db.generations) _ (rw free at h) in
    let (clear, same) = insert_generation-parts g db.generations generations inserted in
    let before : burst_at chat_id db.turns ≡ none = free-burst turn free in
    subst (λ a. Kept a.1) (ok-injective made)
      (rw same (
        same_bursts db.turns (upsert_turn new start db.turns)
          (λ d. elim (Bool-cases (str_eq d chat_id)) [
            | inr ne ↦ upsert-burst_at-other new start (λ t. refl) db.turns d ne
            | inl e ↦
                subst (λ c. burst_at c (upsert_turn new start db.turns) ≡ burst_at c db.turns)
                  (sym ((eq_iff d chat_id).0 e))
                  (upsert-burst_at-own new start (λ t. refl) db.turns none refl (λ t. refl)
                    ∙ sym before)
          ])
          db.inbox _
          (start-Kept g db.inbox db.turns db.generations
            (λ running b here. absurd (cc (before, here))) k)))

pub reserve-Kept :
    (sha256 : String → String) (chat_id tomo_id run_id : String) (now : ℕ) (db : Db)
    (answer : Option InterruptedGeneration × Db)
    → reserve_automation_generation sha256 chat_id tomo_id run_id now db ≡ ok answer
    → Kept db
    → Kept answer.1
unfolding reserve_automation_generation
reserve-Kept sha256 chat_id tomo_id run_id now db answer h k =
    elim (Bool-cases (is_free (first_where (turn_is chat_id) db.turns))) [
      | inl free ↦ reserve_free-Kept sha256 chat_id tomo_id run_id now db answer free h k
      | inr busy ↦ subst (λ a. Kept a.1) (ok-injective (rw busy at h)) k
    ]
