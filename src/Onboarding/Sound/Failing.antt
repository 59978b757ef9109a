-- ===== src/Onboarding/Sound/Failing.antt =====
-- A generation that fails, and one that is recovered after a restart, keep the tables sound
-- (tomo_core/src/tomo_core/onboarding_store.py).
use tomo_v.Common.{
  ℕ, String, true, Option, none, some, List, [], ◌∷◌, ◌≡◌, refl, arith, str_eq, All-map,
  All-update_where, All-first_where, first_where, update_where, Bool-cases, Option-cases, inl, inr,
  if◌then◌else◌, count_where, All-both, All-of, first_where-hit, sort_by, select_where,
}
use tomo_v.Onboarding.Ids.{Unicode, safe_error_code}
use tomo_v.Onboarding.Rows.{
  Db, InboxRow, InboxStatus, TurnRow, GenerationRow, is_running, running_is, turn_runs,
}
use tomo_v.Onboarding.Store.Turns.{supersede}
use tomo_v.Onboarding.Store.Generations.{
  fail_found, fail_generation, fail_row, give_up, try_again, is_spent, recover_row, recover_rows,
  recover_interrupted_generations, complete_generation_cleanup, needs_cleanup, created_before,
  is_interrupted,
}
use tomo_v.Onboarding.Laws.Linked.{IsLinked}
use tomo_v.Onboarding.Sound.{Sound, SoundOf, IsRow, IsNamed, answers}
use tomo_v.Onboarding.Sound.Parts.{
  IsAnswered-generations, keep_generations, exists_where-keeps, Releases,
}
use tomo_v.Onboarding.Sound.Ends.{ended, completed, others_wait}

-- A generation fails; its turn is not released yet.
module _ (g : GenerationRow) (generation_id error : String) (now : ℕ) (h : TurnRow → TurnRow)
    (keep : Releases h) where
  failed-Sound :
      (db : Db)
      → Sound db
      → SoundOf db.inbox
          (update_where (turn_runs g.chat_id generation_id) h db.turns)
          (update_where (running_is generation_id) (fail_row error now) db.generations)
          db.inputs
  failed-Sound db s =
      ended g.chat_id generation_id (running_is generation_id) (fail_row error now) h db.inbox
        db.turns db.generations db.inputs (λ x. refl) (λ x. refl) (λ x running miss. ground arith)
        keep s
        (IsAnswered-generations (running_is generation_id) (fail_row error now) db.generations
          db.inputs db.inbox (λ x hit. ground arith) s.answered)

given_up : String → ℕ → InboxRow → InboxRow
given_up error now r = record r {
  status = InboxStatus.completed;
  error_code = some error;
  updated_at = now;
}

given_up-IsRow : (error : String) (now : ℕ) (r : InboxRow) → IsRow r → IsRow (given_up error now r)
unfolding given_up
given_up-IsRow error now r x = record {
  chat = x.chat;
  burst = x.burst;
  message = x.message;
  queue = λ message. refl;
}

fail_found-Sound :
    (g : GenerationRow) (generation_id error : String) (now : ℕ) (max_attempts next : Option ℕ)
    (db : Db)
    → IsNamed g × IsLinked db.turns g
    → str_eq g.generation_id generation_id ≡ true
    → is_running g.status ≡ true
    → Sound db
    → Sound (fail_found (some g) generation_id error now max_attempts next db).1
unfolding fail_found give_up try_again given_up
fail_found-Sound g generation_id error now max_attempts next db own own_id is_on s =
    let generations = update_where (running_is generation_id) (fail_row error now) db.generations in
    let attempts = count_where (λ h. str_eq h.burst_id g.burst_id) generations in
    elim (Bool-cases (is_spent max_attempts attempts)) [
      | inr again ↦ rw again (failed-Sound g generation_id error now _ (λ t. (refl, inl refl)) db s)
      | inl spent ↦
          let after =
            failed-Sound g generation_id error now
              (λ t. record t {
                burst_id = none;
                active_generation_id = none;
                quiet_until = now;
                updated_at = now;
              })
              (λ t. (refl, inr refl)) db s in
          rw spent (
            completed g.burst_id (given_up error now) (λ r. refl) (given_up-IsRow error now)
              (λ inputs g r input hit waiting. absurd (cc waiting)) db.inbox _ generations db.inputs
              after
              (All-update_where _ (given_up error now) db.inbox (λ r hit x message done. inl refl)
                (λ r miss x. x) after.answered)
              (others_wait g generation_id (given_up error now) _ db own own_id is_on
                (λ t b e. absurd (cc e)) s))
    ]

pub fail-Sound :
    (unicode : Unicode) (generation_id error_code : String) (now : ℕ) (max_attempts next : Option ℕ)
    (db : Db)
    → Sound db
    → Sound (fail_generation unicode generation_id error_code now max_attempts next db).1
unfolding fail_generation fail_found
fail-Sound unicode generation_id error_code now max_attempts next db s =
    elim (Option-cases (first_where (running_is generation_id) db.generations)) [
      | inl e ↦ rw (e, fail_found) s
      | inr (g, e) ↦
          rw (e, fail_found)
            (fail_found-Sound g generation_id (safe_error_code unicode error_code) now max_attempts
              next db
              (All-first_where (λ x. IsNamed x × IsLinked db.turns x) (running_is generation_id)
                db.generations g e
                (All-both IsNamed (IsLinked db.turns) db.generations s.named s.linked)).0
              (ground (arith, first_where-hit (running_is generation_id) db.generations g e))
              (ground (arith, first_where-hit (running_is generation_id) db.generations g e)) s)
    ]

pub recover_row-Sound :
    (now : ℕ) (g : GenerationRow) (db : Db) → Sound db → Sound (recover_row now g db)
unfolding recover_row
recover_row-Sound now g db s =
    ended g.chat_id g.generation_id (running_is g.generation_id) (supersede now) _ db.inbox db.turns
      db.generations db.inputs (λ x. refl) (λ x. refl) (λ x running miss. ground arith)
      (λ t. (refl, inl refl)) s
      (IsAnswered-generations (running_is g.generation_id) (supersede now) db.generations db.inputs
        db.inbox (λ x hit. ground arith) s.answered)

recover_rows-Sound :
    (now : ℕ) (gs : List GenerationRow) (db : Db) → Sound db → Sound (recover_rows now gs db)
unfolding recover_rows
recover_rows-Sound now [] db s = s
recover_rows-Sound now (g ∷ gs) db s =
    recover_rows-Sound now gs (if is_running g.status then recover_row now g db else db)
      (elim (Bool-cases (is_running g.status)) [
        | inl e ↦ rw e (recover_row-Sound now g db s)
        | inr e ↦ rw e s
      ])

pub recover-Sound :
    (now : ℕ) (db : Db) → Sound db → Sound (recover_interrupted_generations now db).1
unfolding recover_interrupted_generations
recover-Sound now db s =
    recover_rows-Sound now (sort_by created_before (select_where is_interrupted db.generations)) db
      s

pub cleanup-Sound :
    (generation_id : String) (db : Db)
    → Sound db
    → Sound (complete_generation_cleanup generation_id db).1
unfolding complete_generation_cleanup
cleanup-Sound generation_id db s = record {
  update_keys = s.update_keys;
  turn_keys = s.turn_keys;
  generation_keys = keep_generations _ _ db.generations (λ g. refl) s.generation_keys;
  linked = All-update_where _ _ db.generations (λ g hit x. x) (λ g miss x. x) s.linked;
  rows = s.rows;
  bursts = s.bursts;
  waiting = s.waiting;
  named = All-update_where _ _ db.generations (λ g hit x. x) (λ g miss x. x) s.named;
  covered = All-update_where _ _ db.generations (λ g hit x. x) (λ g miss x. x) s.covered;
  answered =
      All-map db.inbox
        (λ r answered message before. elim (answered message before) [
          | inl error ↦ inl error
          | inr found ↦ inr (
              exists_where-keeps (answers db.inputs r.update_id) (needs_cleanup generation_id) _
                db.generations (All-of (λ x yes hit. yes) db.generations) found)
        ])
        s.answered;
}
