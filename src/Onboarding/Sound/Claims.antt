-- ===== src/Onboarding/Sound/Claims.antt =====
-- Claiming a burst and reserving a scheduled turn keep the tables sound
-- (tomo_core/src/tomo_core/onboarding_store.py).
use mathlib.Core.Path.{subst}
use tomo_v.Common.{
  ℕ, ◌+◌, max, String, true, false, Option, none, some, List, [], ◌∷◌, ◌++◌, ◌≡◌, refl, sym, ◌∙◌,
  arith, eq_refl, All, All-map, All-update_where, Keyed, Keyed-append, In, All-In, first_where,
  exists_where, exists_where-false, update_where, select_where, select_where-In, least_by,
  least_by-In, first_where-written, Bool-cases, Option-cases, inl, inr, ok, >>=-eq-ok, ok-injective,
  All-append,
}
use tomo_v.Onboarding.Ids.{automation_of, session_of}
use tomo_v.Onboarding.Ids.Chats.{
  chat_of, has_colon, generation_of-full, automation_of-full, chat_of-automation_of,
}
use tomo_v.Onboarding.Rows.{
  Db, InboxRow, TurnRow, GenerationRow, GenerationWork, InterruptedGeneration, InputRow, turn_is,
}
use tomo_v.Onboarding.Store.Turns.{
  upsert_turn, insert_generation, generation_clashes, new_generation, new_turn, max_revision,
  revision_of, is_free, reserve_automation_generation,
}
use tomo_v.Onboarding.Store.Claim.{
  insert_inputs, waiting_rows, generation_for, name_active, claimed_tables, work_of, claim_rows,
  claim_turn, claim_next_work, is_due, turn_before,
}
use tomo_v.Onboarding.Laws.Linked.{at_rest, other_turn, upsert_other, upsert_own}
use tomo_v.Onboarding.Sound.{Sound, IsRow, IsCovered, HasBurst, HasMessage, same_turn}
use tomo_v.Onboarding.Sound.Parts.{
  same_turn-kept, bursts-kept, waiting-kept, equals-true, is_none-true, found_by_chat,
}
use tomo_v.Onboarding.Sound.Starts.{started, waiting-IsCovered, insert_inputs-Grown}

pub insert_generation-parts :
    (g : GenerationRow) (generations after : List GenerationRow)
    → insert_generation g generations ≡ ok after
    → (exists_where (generation_clashes g) generations ≡ false) × (after ≡ generations ++ g ∷ [])
unfolding insert_generation
insert_generation-parts g generations after h =
    elim (Bool-cases (exists_where (generation_clashes g) generations)) [
      | inl e ↦ absurd (cc (rw e at h))
      | inr e ↦ (e, sym (ok-injective (rw e at h)))
    ]

-- what a claim of some rows gives
pub claim_rows-parts :
    (sha256 : String → String) (t : TurnRow) (burst_id : String) (row : InboxRow)
    (rows : List InboxRow) (now : ℕ) (db : Db) (answer : Option GenerationWork × Db)
    → claim_rows sha256 t burst_id (row ∷ rows) now db ≡ ok answer
    → let g = generation_for sha256 t burst_id (row ∷ rows) now db.generations in
      (generations : List GenerationRow) × (insert_generation g db.generations ≡ ok generations)
      × (answer ≡ (
        some (work_of t g (row ∷ rows) now (claimed_tables t g (row ∷ rows) now generations db)),
        claimed_tables t g (row ∷ rows) now generations db,
      ))
unfolding claim_rows
claim_rows-parts sha256 t burst_id row rows now db answer h =
    let g = generation_for sha256 t burst_id (row ∷ rows) now db.generations in
    let (generations, inserted, made) = >>=-eq-ok (insert_generation g db.generations) _ h in
    (generations, inserted, sym (ok-injective made))

claim_rows-Sound :
    (sha256 : String → String) (t : TurnRow) (burst_id : String) (rows : List InboxRow) (now : ℕ)
    (db : Db) (answer : Option GenerationWork × Db)
    → In t db.turns
    → t.active_generation_id ≡ none
    → t.burst_id ≡ some burst_id
    → rows ≡ waiting_rows t.chat_id burst_id db.inbox
    → claim_rows sha256 t burst_id rows now db ≡ ok answer
    → Sound db
    → Sound answer.1
unfolding claim_rows claimed_tables generation_for
claim_rows-Sound sha256 t burst_id [] now db answer i rest burst e h s =
    subst (λ a. Sound a.1) (ok-injective h) s
claim_rows-Sound sha256 t burst_id (row ∷ rows) now db answer i rest burst e h s =
    let g = generation_for sha256 t burst_id (row ∷ rows) now db.generations in
    let (generations, inserted, made) =
      claim_rows-parts sha256 t burst_id row rows now db answer h in
    let (free, same) = insert_generation-parts g db.generations generations inserted in
    let found = found_by_chat db.turns t s.turn_keys i in
    let named : chat_of burst_id ≡ some t.chat_id =
      All-In HasBurst db.turns t i s.bursts burst_id burst in
    let start = name_active g.generation_id now in
    subst (λ (a : Option GenerationWork × Db). Sound a.1) (sym made)
      (rw same (
        started g db.inbox db.turns (update_where (turn_is t.chat_id) start db.turns) db.generations
          db.inputs (insert_inputs g.generation_id 1 (row ∷ rows) db.inputs) free
          (at_rest t.chat_id db.generations db.turns
            (λ u h'. cc (subst (λ (o : Option TurnRow). o ≡ some t) h' found, rest)) s.linked)
          (λ d u ne found'. other_turn t.chat_id d start db.turns u (λ u. refl) ne found')
          (λ running. (
            generation_of-full burst_id t.revision _,
            (
              start t,
              first_where-written (turn_is t.chat_id) (turn_is t.chat_id) start db.turns t
                  (λ u. refl) found (eq_refl t.chat_id),
              refl,
            ),
          ))
          (same_turn-kept (turn_is t.chat_id) start db.turns (λ u. refl) s.turn_keys)
          (bursts-kept (turn_is t.chat_id) start db.turns (λ u. (refl, inl refl)) s.bursts)
          (waiting-kept (turn_is t.chat_id) start db.turns (λ u. (refl, inl refl)) db.inbox
            s.waiting)
          (λ running. (t.chat_id, named, inl refl))
          (subst (λ l. IsCovered db.inbox (insert_inputs g.generation_id 1 l db.inputs) g) (sym e)
            (waiting-IsCovered g t.chat_id 1 db.inbox db.inputs named s.rows))
          (insert_inputs-Grown g.generation_id 1 (row ∷ rows) db.inputs) s))

claim_turn-Sound :
    (sha256 : String → String) (t : TurnRow) (o : Option String) (now : ℕ) (db : Db)
    (answer : Option GenerationWork × Db)
    → In t db.turns
    → t.active_generation_id ≡ none
    → t.burst_id ≡ o
    → claim_turn sha256 (some t) now db ≡ ok answer
    → Sound db
    → Sound answer.1
unfolding claim_turn
claim_turn-Sound sha256 t none now db answer i rest e h s =
    subst (λ a. Sound a.1) (ok-injective (rw (e, claim_turn) at h)) s
claim_turn-Sound sha256 t (some burst_id) now db answer i rest e h s =
    claim_rows-Sound sha256 t burst_id (waiting_rows t.chat_id burst_id db.inbox) now db answer i
      rest e refl (rw (e, claim_turn) at h) s

pub due_turn :
    (now : ℕ) (turns : List TurnRow) (t : TurnRow)
    → least_by turn_before (select_where (is_due now) turns) ≡ some t
    → In t turns × (is_due now t ≡ true)
due_turn now turns t h =
    select_where-In (is_due now) turns t
      (least_by-In turn_before (select_where (is_due now) turns) t h)

pub at_rest_if_due : (now : ℕ) (t : TurnRow) → is_due now t ≡ true → t.active_generation_id ≡ none
unfolding is_due
at_rest_if_due now t h = is_none-true t.active_generation_id (ground arith)

pub claim-Sound :
    (sha256 : String → String) (now : ℕ) (db : Db) (answer : Option GenerationWork × Db)
    → claim_next_work sha256 now db ≡ ok answer
    → Sound db
    → Sound answer.1
unfolding claim_next_work claim_turn
claim-Sound sha256 now db answer h s =
    elim (Option-cases (least_by turn_before (select_where (is_due now) db.turns))) [
      | inl e ↦ subst (λ a. Sound a.1) (ok-injective (rw (e, claim_turn) at h)) s
      | inr (t, e) ↦
          let (i, due) = due_turn now db.turns t e in
          claim_turn-Sound sha256 t t.burst_id now db answer i (at_rest_if_due now t due) refl
            (rw e at h) s
    ]

-- A turn that is new, or that a statement writes, keeps the keys and the bursts.
pub upsert-same_turn :
    (new : TurnRow) (f : TurnRow → TurnRow) (turns : List TurnRow)
    → ((t : TurnRow) → (f t).chat_id ≡ t.chat_id)
    → Keyed same_turn turns
    → Keyed same_turn (upsert_turn new f turns)
unfolding upsert_turn
upsert-same_turn new f turns keep keys =
    elim (Bool-cases (exists_where (turn_is new.chat_id) turns)) [
      | inl e ↦ rw e (same_turn-kept (turn_is new.chat_id) f turns keep keys)
      | inr e ↦
          rw e (
            Keyed-append same_turn turns new (exists_where-false (turn_is new.chat_id) turns e)
              keys)
    ]

pub upsert-All :
    (P : TurnRow → Type 0) (new : TurnRow) (f : TurnRow → TurnRow) (turns : List TurnRow)
    → P new
    → ((t : TurnRow) → turn_is new.chat_id t ≡ true → P (f t))
    → All P turns
    → All P (upsert_turn new f turns)
unfolding upsert_turn
upsert-All P new f turns fresh written all =
    elim (Bool-cases (exists_where (turn_is new.chat_id) turns)) [
      | inl e ↦ rw e (
          All-update_where (turn_is new.chat_id) f turns (λ t hit b. written t hit) (λ t miss b. b)
            all)
      | inr e ↦ rw e (All-append P turns (new ∷ []) all (fresh, tt))
    ]

-- a burst of no chat holds no message
no_inputs :
    (inbox : List InboxRow) (inputs : List InputRow) (g : GenerationRow) (named : String)
    → chat_of g.burst_id ≡ some named
    → has_colon named ≡ true
    → All IsRow inbox
    → IsCovered inbox inputs g
no_inputs inbox inputs g named own colon rows running =
    All-map inbox
      (λ r x e waiting.
        let burst = equals-true r.burst_id g.burst_id e in
        let same : some named ≡ some r.chat_id = sym own ∙ x.burst g.burst_id burst in
        let chat : named ≡ r.chat_id = cc same in
        absurd (cc (x.chat, subst (λ c. has_colon c ≡ true) chat colon)))
      rows

free_at_rest :
    (o : Option TurnRow) (t : TurnRow)
    → is_free o ≡ true
    → o ≡ some t
    → t.active_generation_id ≡ none
free_at_rest o t free h =
    let free' : is_free (some t) ≡ true = subst (λ x. is_free x ≡ true) h free in
    is_none-true t.active_generation_id (ground arith)

reserve_free-Sound :
    (sha256 : String → String) (chat_id tomo_id run_id : String) (now : ℕ) (db : Db)
    (answer : Option InterruptedGeneration × Db)
    → is_free (first_where (turn_is chat_id) db.turns) ≡ true
    → reserve_automation_generation sha256 chat_id tomo_id run_id now db ≡ ok answer
    → Sound db
    → Sound answer.1
unfolding reserve_automation_generation
reserve_free-Sound sha256 chat_id tomo_id run_id now db answer free h s =
    let turn = first_where (turn_is chat_id) db.turns in
    let revision = max (max_revision chat_id db.generations) (revision_of turn) + 1 in
    let generation_id = automation_of run_id revision in
    let g =
      new_generation generation_id generation_id chat_id tomo_id revision
        (session_of sha256 generation_id) now in
    let new = new_turn chat_id none revision now (some generation_id) now in
    let start = λ (t : TurnRow). record t {
      burst_id = none;
      revision = revision;
      active_generation_id = some generation_id;
      updated_at = now;
    } in
    let (generations, inserted, made) =
      >>=-eq-ok (insert_generation g db.generations) _ (rw free at h) in
    let (clear, same) = insert_generation-parts g db.generations generations inserted in
    let (named, own, colon) = chat_of-automation_of run_id revision in
    subst (λ a. Sound a.1) (ok-injective made)
      (rw same (
        started g db.inbox db.turns (upsert_turn new start db.turns) db.generations db.inputs
          db.inputs clear
          (at_rest chat_id db.generations db.turns
            (λ t found. free_at_rest (first_where (turn_is chat_id) db.turns) t free found)
            s.linked)
          (λ d t ne found. upsert_other new start (λ t. refl) db.turns d t ne found)
          (λ running. (
            automation_of-full run_id revision,
            upsert_own new start (λ t. refl) db.turns (some generation_id) refl (λ t. refl),
          ))
          (upsert-same_turn new start db.turns (λ t. refl) s.turn_keys)
          (upsert-All HasBurst new start db.turns (λ b none_is. absurd (cc none_is))
            (λ t hit b none_is. absurd (cc none_is)) s.bursts)
          (upsert-All (HasMessage db.inbox) new start db.turns (λ b none_is. absurd (cc none_is))
            (λ t hit b none_is. absurd (cc none_is)) s.waiting)
          (λ running. (named, own, inr colon))
          (no_inputs db.inbox db.inputs g named own colon s.rows) (λ i u h. h) s))

pub reserve-Sound :
    (sha256 : String → String) (chat_id tomo_id run_id : String) (now : ℕ) (db : Db)
    (answer : Option InterruptedGeneration × Db)
    → reserve_automation_generation sha256 chat_id tomo_id run_id now db ≡ ok answer
    → Sound db
    → Sound answer.1
unfolding reserve_automation_generation
reserve-Sound sha256 chat_id tomo_id run_id now db answer h s =
    elim (Bool-cases (is_free (first_where (turn_is chat_id) db.turns))) [
      | inl free ↦ reserve_free-Sound sha256 chat_id tomo_id run_id now db answer free h s
      | inr busy ↦ subst (λ a. Sound a.1) (ok-injective (rw busy at h)) s
    ]
