-- ===== src/Onboarding/History/Moves/Ends.antt =====
-- How generations end: the operations of tomo_core/src/tomo_core/onboarding_store.py follow
-- the diagrams of the rows.
use mathlib.Core.Path.{subst}
use tomo_v.Common.{
  ℕ, String, true, Option, none, some, List, [], ◌∷◌, ◌≡◌, refl, sym, arith, str_eq, eq_iff,
  All-map, All-of, Evolves, first_where, first_where-In, first_where-hit, update_where, Bool-cases,
  Option-cases, inl, inr, if◌then◌else◌, count_where,
}
use tomo_v.Onboarding.Sound.Parts.{generation_only}
use tomo_v.Onboarding.Rows.{
  Db, GenerationStatus, GenerationRow, current_is, running_is, is_running, generation_is,
}
use tomo_v.Onboarding.Store.Turns.{supersede}
use tomo_v.Onboarding.Store.Generations.{
  complete_found, complete_generation, fail_found, fail_row, is_spent, give_up, try_again,
  recover_row, recover_rows, needs_cleanup, complete_generation_cleanup,
}
use tomo_v.Onboarding.Sound.{Sound, same_generation}
use tomo_v.Onboarding.History.Moves.{
  generation_step, generation_step_refl, GenerationMoved, Moved, Moved-refl, Moved-trans,
  events-same, reactions-same, generations-ended, events-settled,
}

-- A row with the id of the active generation is that generation.
completes-step :
    (generation_id : String) (revision : ℕ) (g x : GenerationRow)
    → current_is generation_id revision g ≡ true
    → generation_is generation_id x ≡ true
    → (same_generation g x ≡ true → x ≡ g)
    → generation_step x.status GenerationStatus.completed ≡ true
completes-step generation_id revision g x current hit only =
    let same : x ≡ g = only (
      ground (
        arith,
        eq_iff g.generation_id generation_id,
        eq_iff x.generation_id generation_id,
        eq_iff g.generation_id x.generation_id,
      )) in
    subst (λ y. generation_step y.status GenerationStatus.completed ≡ true) (sym same)
      (ground arith)

pub complete-Moved :
    (generation_id : String) (revision now : ℕ) (db : Db)
    → Sound db
    → Moved db (complete_generation generation_id revision now db).1
unfolding complete_generation complete_found
complete-Moved generation_id revision now db s =
    elim (Option-cases (first_where (current_is generation_id revision) db.generations)) [
      | inl e ↦ rw (e, complete_found) (Moved-refl db)
      | inr (g, e) ↦
          rw (e, complete_found)
            (
              generations-ended (generation_is generation_id) _ db.generations (λ x. refl)
                  (λ x. refl) (λ x. refl)
                  (All-map db.generations
                    (λ x only hit.
                      completes-step generation_id revision g x
                        (first_where-hit (current_is generation_id revision) db.generations g e) hit
                        only)
                    (generation_only db.generations g s.generation_keys
                      (first_where-In (current_is generation_id revision) db.generations g e))),
              events-same db.events,
              reactions-same db.reactions,
            )
    ]

pub failed-Moved :
    (generation_id error : String) (now : ℕ) (l : List GenerationRow)
    → Evolves GenerationMoved l (update_where (running_is generation_id) (fail_row error now) l)
failed-Moved generation_id error now l =
    generations-ended (running_is generation_id) (fail_row error now) l (λ g. refl) (λ g. refl)
      (λ g. refl) (All-of (λ g hit. ground arith) l)

pub fail_found-Moved :
    (o : Option GenerationRow) (generation_id error : String) (now : ℕ)
    (max_attempts next : Option ℕ) (db : Db)
    → Moved db (fail_found o generation_id error now max_attempts next db).1
unfolding fail_found give_up try_again
fail_found-Moved none generation_id error now max_attempts next db = Moved-refl db
fail_found-Moved (some g) generation_id error now max_attempts next db =
    let moved : Evolves GenerationMoved db.generations
        (update_where (running_is generation_id) (fail_row error now) db.generations) =
      failed-Moved generation_id error now db.generations in
    elim (Bool-cases (
      is_spent max_attempts (
        count_where (λ h. str_eq h.burst_id g.burst_id)
          (update_where (running_is generation_id) (fail_row error now) db.generations)))) [
            | inl spent ↦ rw spent (moved, events-same db.events, reactions-same db.reactions)
            | inr again ↦ rw again (moved, events-same db.events, reactions-same db.reactions)
          ]

pub recover_row-Moved : (now : ℕ) (g : GenerationRow) (db : Db) → Moved db (recover_row now g db)
unfolding recover_row
recover_row-Moved now g db = (
  generations-ended (running_is g.generation_id) (supersede now) db.generations (λ x. refl)
      (λ x. refl) (λ x. refl) (All-of (λ x hit. ground arith) db.generations),
  events-settled _ _ db.events (λ e. refl) (λ e. refl) (λ e. refl) (λ e hit. ground arith),
  reactions-same db.reactions,
)

pub recover_rows-Moved :
    (now : ℕ) (gs : List GenerationRow) (db : Db) → Moved db (recover_rows now gs db)
unfolding recover_rows
recover_rows-Moved now [] db = Moved-refl db
recover_rows-Moved now (g ∷ gs) db =
    let next = if is_running g.status then recover_row now g db else db in
    let here : Moved db next = elim (Bool-cases (is_running g.status)) [
      | inl e ↦ rw e (recover_row-Moved now g db)
      | inr e ↦ rw e (Moved-refl db)
    ] in
    Moved-trans db next (recover_rows now gs next) here (recover_rows-Moved now gs next)

pub cleanup-Moved :
    (generation_id : String) (db : Db) → Moved db (complete_generation_cleanup generation_id db).1
unfolding complete_generation_cleanup
cleanup-Moved generation_id db = (
  generations-ended (needs_cleanup generation_id) _ db.generations (λ g. refl) (λ g. refl)
      (λ g. refl) (All-of (λ g hit. generation_step_refl g.status) db.generations),
  events-same db.events,
  reactions-same db.reactions,
)
