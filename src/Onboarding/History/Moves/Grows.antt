-- ===== src/Onboarding/History/Moves/Grows.antt =====
-- How generations are created: a claim of a burst, and a reservation of a scheduled turn
-- (tomo_core/src/tomo_core/onboarding_store.py).
use mathlib.Core.Path.{subst}
use tomo_v.Common.{
  ℕ, ◌+◌, max, >>=-eq-ok, String, true, Option, none, some, List, [], ◌∷◌, ◌≡◌, refl, sym,
  first_where, select_where, least_by, Bool-cases, inl, inr, ◌⊎◌, ok, ok-injective,
}
use tomo_v.Onboarding.Ids.{automation_of, session_of}
use tomo_v.Onboarding.Rows.{
  Db, InboxRow, TurnRow, GenerationRow, GenerationWork, InterruptedGeneration, is_running, turn_is,
}
use tomo_v.Onboarding.Store.Turns.{
  insert_generation, new_generation, max_revision, revision_of, is_free,
  reserve_automation_generation,
}
use tomo_v.Onboarding.Store.Claim.{
  claim_rows, claimed_tables, claim_turn, generation_for, claim_next_work, waiting_rows, is_due,
  turn_before,
}
use tomo_v.Onboarding.Sound.Claims.{claim_rows-parts}

-- At most one generation is inserted, which is active, and texts and reactions are left alone.
abbrev pub Grows : Db → Db → Type 0
Grows a b =
    (b.events ≡ a.events)
    × (b.reactions ≡ a.reactions)
    × ((b.generations ≡ a.generations)
        ⊎ ((g : GenerationRow) × (is_running g.status ≡ true)
            × (insert_generation g a.generations ≡ ok b.generations)))

Grows-refl : (db : Db) → Grows db db
Grows-refl db = (refl, refl, inl refl)

claim_rows-Grows :
    (sha256 : String → String) (t : TurnRow) (burst_id : String) (rows : List InboxRow) (now : ℕ)
    (db : Db) (answer : Option GenerationWork × Db)
    → claim_rows sha256 t burst_id rows now db ≡ ok answer
    → Grows db answer.1
unfolding claim_rows claimed_tables generation_for
claim_rows-Grows sha256 t burst_id [] now db answer h =
    subst (λ (a : Option GenerationWork × Db). Grows db a.1) (ok-injective h) (Grows-refl db)
claim_rows-Grows sha256 t burst_id (row ∷ rows) now db answer h =
    let (generations, inserted, made) =
      claim_rows-parts sha256 t burst_id row rows now db answer h in
    subst (λ (a : Option GenerationWork × Db). Grows db a.1) (sym made)
      (
        refl,
        refl,
        inr (generation_for sha256 t burst_id (row ∷ rows) now db.generations, refl, inserted),
      )

burst-Grows :
    (sha256 : String → String) (t : TurnRow) (o : Option String) (now : ℕ) (db : Db)
    (answer : Option GenerationWork × Db)
    → t.burst_id ≡ o
    → claim_turn sha256 (some t) now db ≡ ok answer
    → Grows db answer.1
unfolding claim_turn
burst-Grows sha256 t none now db answer e h =
    subst (λ (a : Option GenerationWork × Db). Grows db a.1)
      (ok-injective (rw (e, claim_turn) at h)) (Grows-refl db)
burst-Grows sha256 t (some burst_id) now db answer e h =
    claim_rows-Grows sha256 t burst_id (waiting_rows t.chat_id burst_id db.inbox) now db answer
      (rw (e, claim_turn) at h)

claim_turn-Grows :
    (sha256 : String → String) (o : Option TurnRow) (now : ℕ) (db : Db)
    (answer : Option GenerationWork × Db)
    → claim_turn sha256 o now db ≡ ok answer
    → Grows db answer.1
unfolding claim_turn
claim_turn-Grows sha256 none now db answer h =
    subst (λ (a : Option GenerationWork × Db). Grows db a.1) (ok-injective h) (Grows-refl db)
claim_turn-Grows sha256 (some t) now db answer h =
    burst-Grows sha256 t t.burst_id now db answer refl h

pub claim-Grows :
    (sha256 : String → String) (now : ℕ) (db : Db) (answer : Option GenerationWork × Db)
    → claim_next_work sha256 now db ≡ ok answer
    → Grows db answer.1
unfolding claim_next_work
claim-Grows sha256 now db answer h =
    claim_turn-Grows sha256 (least_by turn_before (select_where (is_due now) db.turns)) now db
      answer h

free-Grows :
    (sha256 : String → String) (chat_id tomo_id run_id : String) (now : ℕ) (db : Db)
    (answer : Option InterruptedGeneration × Db)
    → is_free (first_where (turn_is chat_id) db.turns) ≡ true
    → reserve_automation_generation sha256 chat_id tomo_id run_id now db ≡ ok answer
    → Grows db answer.1
unfolding reserve_automation_generation
free-Grows sha256 chat_id tomo_id run_id now db answer free h =
    let revision =
      max (max_revision chat_id db.generations)
        (revision_of (first_where (turn_is chat_id) db.turns))
      + 1 in
    let generation_id = automation_of run_id revision in
    let g =
      new_generation generation_id generation_id chat_id tomo_id revision
        (session_of sha256 generation_id) now in
    let (generations, inserted, made) =
      >>=-eq-ok (insert_generation g db.generations) _ (rw free at h) in
    subst (λ (a : Option InterruptedGeneration × Db). Grows db a.1) (ok-injective made)
      (refl, refl, inr (g, refl, inserted))

pub reserve-Grows :
    (sha256 : String → String) (chat_id tomo_id run_id : String) (now : ℕ) (db : Db)
    (answer : Option InterruptedGeneration × Db)
    → reserve_automation_generation sha256 chat_id tomo_id run_id now db ≡ ok answer
    → Grows db answer.1
unfolding reserve_automation_generation
reserve-Grows sha256 chat_id tomo_id run_id now db answer h =
    elim (Bool-cases (is_free (first_where (turn_is chat_id) db.turns))) [
      | inl free ↦ free-Grows sha256 chat_id tomo_id run_id now db answer free h
      | inr busy ↦
          subst (λ (a : Option InterruptedGeneration × Db). Grows db a.1)
            (ok-injective (rw busy at h)) (Grows-refl db)
    ]
