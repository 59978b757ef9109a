-- ===== src/Onboarding/Named/Starts.antt =====
-- Messages that arrive, and generations that start, keep the generations that the turns name active
-- (tomo_core/src/tomo_core/onboarding_store.py).
use mathlib.Core.Path.{subst}
use tomo_v.Common.{
  ℕ, ◌+◌, String, true, false, Option, none, some, List, [], ◌∷◌, ◌++◌, ◌≡◌, refl, sym, ◌∙◌, arith,
  str_eq, eq_iff, All, All-map, All-both, All-append, In, All-In, All-update_where, Keyed,
  first_where-In, first_where, exists_where, exists_where-false, select_where, least_by,
  first_where-hit, Bool-cases, Option-cases, inl, inr, ok, ok-injective, >>=-eq-ok, max,
}
use tomo_v.Onboarding.Ids.{burst_of, automation_of, session_of}
use tomo_v.Onboarding.Rows.{
  Db, InboxRow, TurnRow, GenerationRow, GenerationWork, InterruptedGeneration, running_is, turn_is,
  update_is, truthy,
}
use tomo_v.Onboarding.Store.Turns.{
  Arrival, active_of, open_burst, supersede, supersede_active, place_message, enqueue_message,
  enqueue_update, insert_generation, new_generation, new_turn, upsert_turn, max_revision,
  revision_of, is_free, reserve_automation_generation,
}
use tomo_v.Onboarding.Store.Claim.{
  waiting_rows, generation_for, name_active, claimed_tables, claim_rows, claim_turn,
  claim_next_work, is_due, turn_before,
}
use tomo_v.Onboarding.Sound.Claims.{insert_generation-parts, claim_rows-parts, upsert-All}
use tomo_v.Onboarding.Sound.{Sound, same_generation}
use tomo_v.Onboarding.Named.{Names, NamedOf, Named}
use tomo_v.Onboarding.Named.Parts.{Keyed-OneChat, start-Named, own-Names, left-In}

-- The turns of other chats name what is not superseded.
superseded-Names :
    (chat_id : String) (active : Option String) (now : ℕ) (generations : List GenerationRow)
    (turns : List TurnRow)
    → Keyed same_generation generations
    → ((id : String)
        → active ≡ some id
        → (g : GenerationRow) × In g generations × (g.generation_id ≡ id) × (g.chat_id ≡ chat_id))
    → NamedOf turns generations
    → All (λ t. turn_is chat_id t ≡ false → Names (supersede_active active now generations) t) turns
unfolding supersede_active
superseded-Names chat_id none now generations turns keys own n =
    All-map turns (λ t names away. names) n
superseded-Names chat_id (some generation_id) now generations turns keys own n =
    All-map turns
      (λ t names away id e.
        let (x, i, running, its, chat) = names id e in
        elim (Bool-cases (running_is generation_id x)) [
          | inr spared ↦ (
            x,
            left-In (running_is generation_id) (supersede now) generations x i spared,
            running,
            its,
            chat,
          )
          | inl hit ↦
              let (g, j, named, here) = own generation_id refl in
              let same : x.generation_id ≡ g.generation_id =
                (eq_iff x.generation_id generation_id).0 (ground arith) ∙ sym named in
              let chats : x.chat_id ≡ g.chat_id =
                All-In (λ y. str_eq y.generation_id g.generation_id ≡ true → y.chat_id ≡ g.chat_id)
                  generations x i (Keyed-OneChat generations g keys j)
                  ((eq_iff x.generation_id g.generation_id).1 same) in
              absurd (cc (away, (eq_iff t.chat_id chat_id).1 (sym chat ∙ chats ∙ here)))
        ])
      n

-- A statement that writes the turn of a chat, which then names no generation
upsert-Named :
    (new : TurnRow) (f : TurnRow → TurnRow) (turns : List TurnRow)
    (generations : List GenerationRow)
    → new.active_generation_id ≡ none
    → ((t : TurnRow) → (f t).active_generation_id ≡ none)
    → All (λ t. turn_is new.chat_id t ≡ false → Names generations t) turns
    → NamedOf (upsert_turn new f turns) generations
unfolding upsert_turn
upsert-Named new f turns generations fresh written others =
    elim (Bool-cases (exists_where (turn_is new.chat_id) turns)) [
      | inl e ↦ rw e (
          All-update_where (turn_is new.chat_id) f turns
            (λ t hit names id e. absurd (cc (written t, e))) (λ t miss names. names miss) others)
      | inr e ↦ rw e (
          All-append (Names generations) turns (new ∷ [])
            (All-map turns (λ t (names, miss). names miss)
              (All-both (λ t. turn_is new.chat_id t ≡ false → Names generations t)
                (λ t. turn_is new.chat_id t ≡ false) turns others
                (exists_where-false (turn_is new.chat_id) turns e)))
            (λ id e. absurd (cc (fresh, e)), tt))
    ]

place-Named :
    (o : Option String) (turn : Option TurnRow) (a : Arrival) (debounce now : ℕ)
    (generations : List GenerationRow) (turns : List TurnRow)
    → All (λ t. turn_is a.chat_id t ≡ false → Names generations t) turns
    → NamedOf (place_message o turn a debounce now generations turns).2 generations
unfolding place_message
place-Named none turn a debounce now generations turns others =
    let burst_id = burst_of a.chat_id a.update_id in
    let revision = max (max_revision a.chat_id generations) (revision_of turn) + 1 in
    upsert-Named (new_turn a.chat_id (some burst_id) revision (now + debounce) none now) _ turns
      generations refl (λ t. refl) others
place-Named (some burst_id) turn a debounce now generations turns others =
    All-update_where (turn_is a.chat_id) _ turns (λ t hit names id e. absurd (cc e))
      (λ t miss names. names miss) others

-- what the turn of a chat names
active_Names :
    (chat_id : String) (db : Db) (id : String)
    → Named db
    → active_of (first_where (turn_is chat_id) db.turns) ≡ some id
    → (g : GenerationRow) × In g db.generations × (g.generation_id ≡ id) × (g.chat_id ≡ chat_id)
active_Names chat_id db id n h = elim (Option-cases (first_where (turn_is chat_id) db.turns)) [
  | inl e ↦ absurd (cc (rw e at h))
  | inr (t, e) ↦
      let here = (eq_iff t.chat_id chat_id).0 (first_where-hit (turn_is chat_id) db.turns t e) in
      let names =
        All-In (Names db.generations) db.turns t (first_where-In (turn_is chat_id) db.turns t e)
          n in
      let (g, i, running, its, chat) = names id (active_of-some t id (rw e at h)) in
      (g, i, its, chat ∙ here)
]
  where
    active_of-some :
        (t : TurnRow) (id : String)
        → active_of (some t) ≡ some id
        → t.active_generation_id ≡ some id
    active_of-some t id h = elim (Bool-cases (truthy t.active_generation_id)) [
      | inl e ↦ rw e at h
      | inr e ↦ absurd (cc (rw e at h))
    ]

pub enqueue-Named :
    (a : Arrival) (debounce now : ℕ) (db : Db)
    → Sound db
    → Named db
    → Named (enqueue_update a debounce now db).1
unfolding enqueue_update enqueue_message
enqueue-Named a debounce now db s n =
    let turn = first_where (turn_is a.chat_id) db.turns in
    elim (Bool-cases (exists_where (update_is a.update_id) db.inbox)) [
      | inl e ↦ rw e n
      | inr fresh ↦ elim (Bool-cases (str_eq a.update_kind "message")) [
        | inr control ↦ rw (fresh, control) n
        | inl message ↦
            rw (fresh, message)
              (place-Named (open_burst turn) turn a debounce now _ db.turns (
                superseded-Names a.chat_id (active_of turn) now db.generations db.turns
                  s.generation_keys (λ id e. active_Names a.chat_id db id n e) n))
      ]
    ]

claim_rows-Named :
    (sha256 : String → String) (t : TurnRow) (burst_id : String) (rows : List InboxRow) (now : ℕ)
    (db : Db) (answer : Option GenerationWork × Db)
    → claim_rows sha256 t burst_id rows now db ≡ ok answer
    → Named db
    → Named answer.1
unfolding claim_rows claimed_tables generation_for
claim_rows-Named sha256 t burst_id [] now db answer h n = subst (λ a. Named a.1) (ok-injective h) n
claim_rows-Named sha256 t burst_id (row ∷ rows) now db answer h n =
    let g = generation_for sha256 t burst_id (row ∷ rows) now db.generations in
    let (generations, inserted, made) =
      claim_rows-parts sha256 t burst_id row rows now db answer h in
    let (free, same) = insert_generation-parts g db.generations generations inserted in
    subst (λ (a : Option GenerationWork × Db). Named a.1) (sym made)
      (rw same (
        All-update_where (turn_is t.chat_id) (name_active g.generation_id now) db.turns
          (λ u hit names.
            own-Names g db.generations (name_active g.generation_id now u) refl refl
              (sym ((eq_iff u.chat_id t.chat_id).0 hit)))
          (λ u miss names. names) (start-Named g db.turns db.generations n)))

claim_turn-Named :
    (sha256 : String → String) (t : TurnRow) (o : Option String) (now : ℕ) (db : Db)
    (answer : Option GenerationWork × Db)
    → t.burst_id ≡ o
    → claim_turn sha256 (some t) now db ≡ ok answer
    → Named db
    → Named answer.1
unfolding claim_turn
claim_turn-Named sha256 t none now db answer e h n =
    subst (λ a. Named a.1) (ok-injective (rw (e, claim_turn) at h)) n
claim_turn-Named sha256 t (some burst_id) now db answer e h n =
    claim_rows-Named sha256 t burst_id (waiting_rows t.chat_id burst_id db.inbox) now db answer
      (rw (e, claim_turn) at h) n

pub claim-Named :
    (sha256 : String → String) (now : ℕ) (db : Db) (answer : Option GenerationWork × Db)
    → claim_next_work sha256 now db ≡ ok answer
    → Named db
    → Named answer.1
unfolding claim_next_work claim_turn
claim-Named sha256 now db answer h n =
    elim (Option-cases (least_by turn_before (select_where (is_due now) db.turns))) [
      | inl e ↦ subst (λ a. Named a.1) (ok-injective (rw (e, claim_turn) at h)) n
      | inr (t, e) ↦ claim_turn-Named sha256 t t.burst_id now db answer refl (rw e at h) n
    ]

pub reserve-Named :
    (sha256 : String → String) (chat_id tomo_id run_id : String) (now : ℕ) (db : Db)
    (answer : Option InterruptedGeneration × Db)
    → reserve_automation_generation sha256 chat_id tomo_id run_id now db ≡ ok answer
    → Named db
    → Named answer.1
unfolding reserve_automation_generation
reserve-Named sha256 chat_id tomo_id run_id now db answer h n =
    let turn = first_where (turn_is chat_id) db.turns in
    let revision = max (max_revision chat_id db.generations) (revision_of turn) + 1 in
    let generation_id = automation_of run_id revision in
    let g =
      new_generation generation_id generation_id chat_id tomo_id revision
        (session_of sha256 generation_id) now in
    let new = new_turn chat_id none revision now (some generation_id) now in
    let start = λ (t : TurnRow). record t {
      burst_id = none;
      revision = revision;
      active_generation_id = some generation_id;
      updated_at = now;
    } in
    elim (Bool-cases (is_free turn)) [
      | inr busy ↦ subst (λ a. Named a.1) (ok-injective (rw busy at h)) n
      | inl free ↦
          let (generations, inserted, made) =
            >>=-eq-ok (insert_generation g db.generations) _ (rw free at h) in
          let (clear, same) = insert_generation-parts g db.generations generations inserted in
          subst (λ a. Named a.1) (ok-injective made)
            (rw same (
              upsert-All (Names (db.generations ++ g ∷ [])) new start db.turns
                (own-Names g db.generations new refl refl refl)
                (λ t hit.
                  own-Names g db.generations (start t) refl refl
                    (sym ((eq_iff t.chat_id chat_id).0 hit)))
                (start-Named g db.turns db.generations n)))
    ]
