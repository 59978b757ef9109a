-- ===== src/Onboarding/Named/Calls.antt =====
-- The ends of generations in the store of tomo_core/src/tomo_core/onboarding_store.py keep the
-- generations that the turns name active.
use tomo_v.Common.{
  ℕ, String, true, Option, some, List, [], ◌∷◌, ◌≡◌, refl, arith, str_eq, eq_refl, All, All-map,
  All-of_In, All-update_where, first_where-In, sort_by-All, All-select_where, first_where,
  update_where, count_where, select_where, sort_by, first_where-hit, Bool-cases, Option-cases, inl,
  inr, if◌then◌else◌,
}
use tomo_v.Onboarding.Ids.{Unicode, safe_error_code}
use tomo_v.Onboarding.Rows.{Db, GenerationRow, is_running, running_is, current_is, generation_is}
use tomo_v.Onboarding.Store.Turns.{supersede}
use tomo_v.Onboarding.Store.Generations.{
  complete_found, complete_generation, fail_found, fail_generation, fail_row, give_up, try_again,
  is_spent, recover_row, recover_rows, recover_interrupted_generations, complete_generation_cleanup,
  needs_cleanup, created_before, is_interrupted,
}
use tomo_v.Onboarding.Sound.{Sound}
use tomo_v.Onboarding.Named.{Named}
use tomo_v.Onboarding.Named.Parts.{OneChat, Keyed-OneChat, end-Named, kept-Named}

pub cleanup-Named :
    (generation_id : String) (db : Db)
    → Named db
    → Named (complete_generation_cleanup generation_id db).1
unfolding complete_generation_cleanup
cleanup-Named generation_id db n =
    kept-Named (needs_cleanup generation_id) _ db.turns db.generations (λ g. (refl, refl, refl)) n

pub complete-Named :
    (generation_id : String) (revision now : ℕ) (db : Db)
    → Sound db
    → Named db
    → Named (complete_generation generation_id revision now db).1
unfolding complete_generation complete_found
complete-Named generation_id revision now db s n =
    elim (Option-cases (first_where (current_is generation_id revision) db.generations)) [
      | inl e ↦ rw (e, complete_found) n
      | inr (g, e) ↦
          let hit = first_where-hit (current_is generation_id revision) db.generations g e in
          let i = first_where-In (current_is generation_id revision) db.generations g e in
          rw (e, complete_found)
            (end-Named g generation_id (generation_is generation_id) _ _ db.turns db.generations
              (Keyed-OneChat db.generations g s.generation_keys i) (ground arith) (λ x h. h)
              (λ t. refl) n)
    ]

fail_found-Named :
    (g : GenerationRow) (generation_id error : String) (now : ℕ) (max_attempts next : Option ℕ)
    (db : Db)
    → OneChat db.generations g
    → str_eq g.generation_id generation_id ≡ true
    → Named db
    → Named (fail_found (some g) generation_id error now max_attempts next db).1
unfolding fail_found give_up try_again
fail_found-Named g generation_id error now max_attempts next db one own n =
    let failed = update_where (running_is generation_id) (fail_row error now) db.generations in
    elim (Bool-cases
      (is_spent max_attempts (count_where (λ h. str_eq h.burst_id g.burst_id) failed))) [
        | inl spent ↦ rw spent (
            end-Named g generation_id (running_is generation_id) _ _ db.turns db.generations one own
              (λ x h. ground arith) (λ t. refl) n)
        | inr again ↦ rw again (
            end-Named g generation_id (running_is generation_id) _ _ db.turns db.generations one own
              (λ x h. ground arith) (λ t. refl) n)
      ]

pub fail-Named :
    (unicode : Unicode) (generation_id error_code : String) (now : ℕ) (max_attempts next : Option ℕ)
    (db : Db)
    → Sound db
    → Named db
    → Named (fail_generation unicode generation_id error_code now max_attempts next db).1
unfolding fail_generation fail_found
fail-Named unicode generation_id error_code now max_attempts next db s n =
    elim (Option-cases (first_where (running_is generation_id) db.generations)) [
      | inl e ↦ rw (e, fail_found) n
      | inr (g, e) ↦
          let hit = first_where-hit (running_is generation_id) db.generations g e in
          let i = first_where-In (running_is generation_id) db.generations g e in
          rw (e, fail_found)
            (fail_found-Named g generation_id (safe_error_code unicode error_code) now max_attempts
              next db (Keyed-OneChat db.generations g s.generation_keys i) (ground arith) n)
    ]

recover_rows-Named :
    (now : ℕ) (gs : List GenerationRow) (db : Db)
    → All (OneChat db.generations) gs
    → Named db
    → Named (recover_rows now gs db)
unfolding recover_rows recover_row
recover_rows-Named now [] db one n = n
recover_rows-Named now (g ∷ gs) db one n =
    let next = if is_running g.status then recover_row now g db else db in
    let (here, kept) : All (OneChat next.generations) gs × Named next =
      elim (Bool-cases (is_running g.status)) [
        | inr e ↦ rw e (one.1, n)
        | inl e ↦ rw e (
          All-map gs
              (λ x its.
                All-update_where (running_is g.generation_id) (supersede now) db.generations
                  (λ y hit same. same) (λ y miss same. same) its)
              one.1,
          end-Named g g.generation_id (running_is g.generation_id) (supersede now) _ db.turns
              db.generations one.0 (eq_refl g.generation_id) (λ x h. ground arith) (λ t. refl) n,
        )
      ] in
    recover_rows-Named now gs next here kept

pub recover-Named :
    (now : ℕ) (db : Db) → Sound db → Named db → Named (recover_interrupted_generations now db).1
unfolding recover_interrupted_generations
recover-Named now db s n =
    let gs = select_where is_interrupted db.generations in
    recover_rows-Named now (sort_by created_before gs) db
      (sort_by-All created_before (OneChat db.generations) gs (
        All-select_where (OneChat db.generations) is_interrupted db.generations (
          All-of_In (OneChat db.generations) db.generations
            (λ g i. Keyed-OneChat db.generations g s.generation_keys i))))
      n
