-- ===== src/Onboarding/Kept/Calls.antt =====
-- The calls of the store of tomo_core/src/tomo_core/onboarding_store.py keep unanswered messages in the
-- bursts of their chats.
use tomo_v.Common.{
  ℕ, String, true, Option, none, some, List, [], ◌∷◌, ◌≡◌, refl, arith, str_eq, All-first_where,
  first_where, update_where, count_where, select_where, sort_by, least_by, first_where-hit,
  Bool-cases, Option-cases, inl, inr, if◌then◌else◌,
}
use tomo_v.Onboarding.Ids.{Unicode, safe_error_code}
use tomo_v.Onboarding.Rows.{
  Db, InboxRow, GenerationRow, is_running, running_is, current_is, generation_is, update_is,
  is_processing,
}
use tomo_v.Onboarding.Store.Turns.{supersede}
use tomo_v.Onboarding.Store.Generations.{
  complete_found, complete_generation, complete_row, fail_found, fail_generation, fail_row, give_up,
  try_again, is_spent, recover_row, recover_rows, recover_interrupted_generations,
  complete_generation_cleanup, needs_cleanup, created_before, is_interrupted,
}
use tomo_v.Onboarding.Store.Control.{
  claim_next_update, start_update, start_row, is_next, sooner, complete_update, processing_is,
  retry_update, retry_found, reset_interrupted_updates,
}
use tomo_v.Onboarding.Sound.{Sound}
use tomo_v.Onboarding.Sound.Control.{started-not-message, processing-not-message}
use tomo_v.Onboarding.Kept.{Matches, KeptOf, Kept}
use tomo_v.Onboarding.Kept.Turns.{update-burst_at}
use tomo_v.Onboarding.Kept.Parts.{same_bursts, generations-Kept, control-Kept, finish-Kept}

-- control updates

pub claim_update-Kept : (now : ℕ) (db : Db) → Sound db → Kept db → Kept (claim_next_update now db).1
unfolding claim_next_update start_update
claim_update-Kept now db s k =
    elim (Option-cases (least_by sooner (select_where (is_next now db.inbox) db.inbox))) [
      | inl e ↦ rw (e, start_update) k
      | inr (r, e) ↦
          rw (e, start_update)
            (control-Kept (update_is r.update_id) (start_row now) db.inbox db.turns db.generations
              (λ q. refl) (started-not-message now r db e s) k)
    ]

pub complete_update-Kept :
    (update_id now : ℕ) (db : Db) → Sound db → Kept db → Kept (complete_update update_id now db)
unfolding complete_update
complete_update-Kept update_id now db s k =
    control-Kept (processing_is update_id) _ db.inbox db.turns db.generations (λ q. refl)
      (processing-not-message (processing_is update_id) db.inbox (λ r hit. ground arith) s.rows) k

retry_found-Kept :
    (o : Option InboxRow) (update_id : ℕ) (error : String) (now : ℕ) (db : Db)
    → Sound db
    → Kept db
    → Kept (retry_found o update_id error now db)
unfolding retry_found
retry_found-Kept none update_id error now db s k = k
retry_found-Kept (some row) update_id error now db s k =
    control-Kept (processing_is update_id) _ db.inbox db.turns db.generations (λ q. refl)
      (processing-not-message (processing_is update_id) db.inbox (λ r hit. ground arith) s.rows) k

pub retry_update-Kept :
    (unicode : Unicode) (update_id : ℕ) (error_code : String) (now : ℕ) (db : Db)
    → Sound db
    → Kept db
    → Kept (retry_update unicode update_id error_code now db)
unfolding retry_update
retry_update-Kept unicode update_id error_code now db s k =
    retry_found-Kept (first_where (processing_is update_id) db.inbox) update_id
      (safe_error_code unicode error_code) now db s k

pub reset_updates-Kept :
    (now : ℕ) (db : Db) → Sound db → Kept db → Kept (reset_interrupted_updates now db).1
unfolding reset_interrupted_updates
reset_updates-Kept now db s k =
    control-Kept (λ r. is_processing r.status) _ db.inbox db.turns db.generations (λ q. refl)
      (processing-not-message (λ r. is_processing r.status) db.inbox (λ r hit. hit) s.rows) k

-- the ends of generations

pub cleanup-Kept :
    (generation_id : String) (db : Db)
    → Kept db
    → Kept (complete_generation_cleanup generation_id db).1
unfolding complete_generation_cleanup
cleanup-Kept generation_id db k =
    generations-Kept (needs_cleanup generation_id) _ db.inbox db.turns db.generations (λ g x. x) k

pub complete-Kept :
    (generation_id : String) (revision now : ℕ) (db : Db)
    → Kept db
    → Kept (complete_generation generation_id revision now db).1
unfolding complete_generation complete_found
complete-Kept generation_id revision now db k =
    elim (Option-cases (first_where (current_is generation_id revision) db.generations)) [
      | inl e ↦ rw (e, complete_found) k
      | inr (g, e) ↦
          let hit = first_where-hit (current_is generation_id revision) db.generations g e in
          let own =
            (All-first_where (Matches db.turns) (current_is generation_id revision) db.generations g
              e k.matched).0 in
          rw (e, complete_found)
            (finish-Kept g generation_id (complete_row now) _ (λ r. refl) (λ t. (refl, inr refl))
              db.turns (ground arith) own db.inbox _
              (generations-Kept (generation_is generation_id) _ db.inbox db.turns db.generations
                (λ x m running. absurd (cc running)) k))
    ]

fail_found-Kept :
    (g : GenerationRow) (generation_id error : String) (now : ℕ) (max_attempts next : Option ℕ)
    (db : Db)
    → is_running g.status ≡ true
    → Matches db.turns g
    → Kept db
    → Kept (fail_found (some g) generation_id error now max_attempts next db).1
unfolding fail_found give_up try_again
fail_found-Kept g generation_id error now max_attempts next db running own k =
    let failed = update_where (running_is generation_id) (fail_row error now) db.generations in
    let after : KeptOf db.inbox db.turns failed =
      generations-Kept (running_is generation_id) (fail_row error now) db.inbox db.turns
        db.generations (λ x m running. absurd (cc running)) k in
    elim (Bool-cases
      (is_spent max_attempts (count_where (λ h. str_eq h.burst_id g.burst_id) failed))) [
        | inl spent ↦ rw spent (
            finish-Kept g generation_id _ _ (λ r. refl) (λ t. (refl, inr refl)) db.turns running own
              db.inbox failed after)
        | inr again ↦ rw again (
            same_bursts db.turns _
              (λ d. update-burst_at d _ _ db.turns (λ t. refl) (λ t hit here. refl)) db.inbox failed
              after)
      ]

pub fail-Kept :
    (unicode : Unicode) (generation_id error_code : String) (now : ℕ) (max_attempts next : Option ℕ)
    (db : Db)
    → Kept db
    → Kept (fail_generation unicode generation_id error_code now max_attempts next db).1
unfolding fail_generation fail_found
fail-Kept unicode generation_id error_code now max_attempts next db k =
    elim (Option-cases (first_where (running_is generation_id) db.generations)) [
      | inl e ↦ rw (e, fail_found) k
      | inr (g, e) ↦
          let hit = first_where-hit (running_is generation_id) db.generations g e in
          rw (e, fail_found)
            (fail_found-Kept g generation_id (safe_error_code unicode error_code) now max_attempts
              next db (ground arith)
              (All-first_where (Matches db.turns) (running_is generation_id) db.generations g e
                k.matched).0
              k)
    ]

recover_rows-Kept :
    (now : ℕ) (gs : List GenerationRow) (db : Db) → Kept db → Kept (recover_rows now gs db)
unfolding recover_rows recover_row
recover_rows-Kept now [] db k = k
recover_rows-Kept now (g ∷ gs) db k =
    recover_rows-Kept now gs (if is_running g.status then recover_row now g db else db)
      (elim (Bool-cases (is_running g.status)) [
        | inr e ↦ rw e k
        | inl e ↦ rw e (
            same_bursts db.turns _
              (λ d. update-burst_at d _ _ db.turns (λ t. refl) (λ t hit here. refl)) db.inbox _
              (generations-Kept (running_is g.generation_id) (supersede now) db.inbox db.turns
                db.generations (λ x m running. absurd (cc running)) k))
      ])

pub recover-Kept : (now : ℕ) (db : Db) → Kept db → Kept (recover_interrupted_generations now db).1
unfolding recover_interrupted_generations
recover-Kept now db k =
    recover_rows-Kept now (sort_by created_before (select_where is_interrupted db.generations)) db k
