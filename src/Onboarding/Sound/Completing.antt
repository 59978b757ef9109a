-- ===== src/Onboarding/Sound/Completing.antt =====
-- A generation that is completed keeps the tables sound
-- (tomo_core/src/tomo_core/onboarding_store.py).
use tomo_v.Common.{
  ℕ, String, true, some, ◌≡◌, refl, arith, All, All-map, All-update_where, All-first_where,
  first_where, exists_where, update_where, Bool-cases, Option-cases, inl, inr, All-both, All-of,
  first_where-hit,
}
use tomo_v.Onboarding.Rows.{
  Db, InboxRow, GenerationRow, GenerationStatus, is_completed, generation_is, current_is,
}
use tomo_v.Onboarding.Store.Generations.{
  complete_found, complete_generation, complete_burst, complete_row,
}
use tomo_v.Onboarding.Laws.Linked.{IsLinked}
use tomo_v.Onboarding.Sound.{
  Sound, IsRow, IsInput, IsCovered, IsAnswered, IsNamed, answers, input_is,
}
use tomo_v.Onboarding.Sound.Parts.{exists_where-keeps, exists_where-found}
use tomo_v.Onboarding.Sound.Ends.{ended, completed, others_wait}

completed-IsRow : (now : ℕ) (r : InboxRow) → IsRow r → IsRow (complete_row now r)
completed-IsRow now r x = record {
  chat = x.chat;
  burst = x.burst;
  message = x.message;
  queue = λ message. refl;
}

-- The inputs of a completed generation are answered.
completed_answers :
    (generation_id : String) (revision now : ℕ) (g : GenerationRow) (db : Db)
    → first_where (current_is generation_id revision) db.generations ≡ some g
    → Sound db
    → All
        (IsAnswered
          (update_where
            (generation_is generation_id)
            (λ h. record h { status = GenerationStatus.completed; updated_at = now })
            db.generations)
          db.inputs)
        (complete_burst g.burst_id (complete_row now) db.inbox)
completed_answers generation_id revision now g db h s =
    let (covered, current) =
      All-first_where (IsCovered db.inbox db.inputs) (current_is generation_id revision)
        db.generations g h s.covered in
    All-update_where _ (complete_row now) db.inbox
      (λ r hit (answered, input) message _. elim (Bool-cases (is_completed r.status)) [
        | inl before ↦ elim (answered message before) [
          | inl error ↦ inl error
          | inr found ↦ inr (still r found)
        ]
        | inr waiting ↦ inr (now_done r current (input hit waiting))
      ])
      (λ r miss (answered, input) message before. elim (answered message before) [
        | inl error ↦ inl error
        | inr found ↦ inr (still r found)
      ])
      (All-both (IsAnswered db.generations db.inputs) (IsInput db.inputs g) db.inbox s.answered
        (covered (ground arith)))
  where
    complete : GenerationRow → GenerationRow
    complete x = record x { status = GenerationStatus.completed; updated_at = now }

    still :
        (r : InboxRow)
        → exists_where (answers db.inputs r.update_id) db.generations ≡ true
        → exists_where
            (answers db.inputs r.update_id)
            (update_where (generation_is generation_id) complete db.generations)
          ≡ true
    still r found =
        exists_where-keeps (answers db.inputs r.update_id) (generation_is generation_id) complete
          db.generations (All-of (λ x yes hit. ground arith) db.generations) found

    now_done :
        (r : InboxRow)
        → current_is generation_id revision g ≡ true
        → exists_where (input_is g.generation_id r.update_id) db.inputs ≡ true
        → exists_where
            (answers db.inputs r.update_id)
            (update_where (generation_is generation_id) complete db.generations)
          ≡ true
    now_done r current input =
        exists_where-found (current_is generation_id revision) (answers db.inputs r.update_id)
          (generation_is generation_id) complete db.generations g h (ground arith) input

IsAnswered-complete :
    (generation_id : String) (now : ℕ) (db : Db)
    → Sound db
    → All
        (IsAnswered
          (update_where
            (generation_is generation_id)
            (λ h. record h { status = GenerationStatus.completed; updated_at = now })
            db.generations)
          db.inputs)
        db.inbox
IsAnswered-complete generation_id now db s =
    All-map db.inbox
      (λ r answered message before. elim (answered message before) [
        | inl error ↦ inl error
        | inr found ↦ inr (
            exists_where-keeps (answers db.inputs r.update_id) (generation_is generation_id) _
              db.generations (All-of (λ x yes hit. ground arith) db.generations) found)
      ])
      s.answered

complete_found-Sound :
    (generation_id : String) (revision now : ℕ) (g : GenerationRow) (db : Db)
    → first_where (current_is generation_id revision) db.generations ≡ some g
    → Sound db
    → Sound (complete_found (some g) generation_id now db).1
unfolding complete_found
complete_found-Sound generation_id revision now g db h s =
    completed g.burst_id (complete_row now) (λ r. refl) (completed-IsRow now)
      (λ inputs g r input hit waiting. absurd (cc waiting)) db.inbox _ _ db.inputs
      (ended g.chat_id generation_id (generation_is generation_id) _ _ db.inbox db.turns
        db.generations db.inputs (λ x. refl) (λ x. refl) (λ x running miss. miss)
        (λ t. (refl, inr refl)) s (IsAnswered-complete generation_id now db s))
      (completed_answers generation_id revision now g db h s)
      (others_wait g generation_id (complete_row now) _ db
        (All-first_where (λ x. IsNamed x × IsLinked db.turns x) (current_is generation_id revision)
          db.generations g h
          (All-both IsNamed (IsLinked db.turns) db.generations s.named s.linked)).0
        (ground (arith, first_where-hit (current_is generation_id revision) db.generations g h))
        (ground (arith, first_where-hit (current_is generation_id revision) db.generations g h))
        (λ t b e. absurd (cc e)) s)

pub complete-Sound :
    (generation_id : String) (revision now : ℕ) (db : Db)
    → Sound db
    → Sound (complete_generation generation_id revision now db).1
unfolding complete_generation complete_found
complete-Sound generation_id revision now db s =
    elim (Option-cases (first_where (current_is generation_id revision) db.generations)) [
      | inl e ↦ rw (e, complete_found) s
      | inr (g, e) ↦
          rw (e, complete_found) (complete_found-Sound generation_id revision now g db e s)
    ]
