-- ===== src/Onboarding/Laws/Messages.antt =====
-- What taking a message in, claiming a burst and completing it promise
-- (tomo_core/src/tomo_core/onboarding_store.py).
use tomo_v.Common.{
  ℕ, String, true, false, Option, [], ◌∷◌, ◌++◌, ◌≡◌, refl, arith, str_eq, All, All-map,
  first_where, exists_where, first_where-All, exists_where-All,
}
use tomo_v.Onboarding.Ids.{Unicode}
use tomo_v.Onboarding.Rows.{Db, current_is, running_is, turn_is, update_is}
use tomo_v.Onboarding.Store.Turns.{Arrival, row_of_arrival, enqueue_message, enqueue_update}
use tomo_v.Onboarding.Store.Generations.{
  complete_found, complete_generation, is_generation_active, fail_found, fail_generation,
}
use tomo_v.Onboarding.Store.Deliveries.{Piece, reserve_text, add_reaction}
use tomo_v.Onboarding.Sound.Arrivals.{Elsewhere, silenced}
use tomo_v.Onboarding.History.{Reached}
use tomo_v.Onboarding.History.Invariant.{Reached-Sound}

-- A generation that can do nothing more: it is not active, it cannot be completed or failed, and no
-- text and no reaction of it is let through.
pub record IsSilent (db : Db) (generation_id : String) : Type 0 where
  pub inactive : (revision : ℕ) → is_generation_active generation_id revision db ≡ false
  pub completes :
      (revision now : ℕ) → complete_generation generation_id revision now db ≡ (false, db)
  pub fails :
      (unicode : Unicode) (error_code : String) (now : ℕ) (max_attempts next : Option ℕ)
      → fail_generation unicode generation_id error_code now max_attempts next db ≡ (false, db)
  pub text :
      (revision : ℕ) (p : Piece) (now : ℕ)
      → reserve_text generation_id revision p now db ≡ (false, db)
  pub reaction :
      (revision : ℕ) (target emoji : String) (now : ℕ)
      → add_reaction generation_id revision target emoji now db ≡ (false, db)

pub idle-IsSilent :
    (db : Db) (generation_id : String)
    → All (λ g. running_is generation_id g ≡ false) db.generations
    → IsSilent db generation_id
unfolding is_generation_active complete_generation complete_found fail_generation fail_found
    reserve_text add_reaction
idle-IsSilent db generation_id idle =
    let current = λ (revision : ℕ).
      All-map {P = λ g. running_is generation_id g ≡ false}
        {Q = λ g. current_is generation_id revision g ≡ false} db.generations (λ g h. ground arith)
        idle in
    record {
      inactive = λ revision.
          exists_where-All (current_is generation_id revision) db.generations (current revision);
      completes = λ revision now.
          rw (first_where-All (current_is generation_id revision) db.generations (current revision))
            refl;
      fails = λ unicode error_code now max_attempts next.
          rw (first_where-All (running_is generation_id) db.generations idle) refl;
      text = λ revision p now.
          rw
            (exists_where-All (current_is generation_id revision) db.generations (current revision))
            refl;
      reaction = λ revision target emoji now.
          rw
            (exists_where-All (current_is generation_id revision) db.generations (current revision))
            refl;
    }

after_message :
    (a : Arrival) (debounce now : ℕ) (db : Db)
    → str_eq a.update_kind "message" ≡ true
    → exists_where (update_is a.update_id) db.inbox ≡ false
    → enqueue_update a debounce now db
      ≡ enqueue_message
          (first_where (turn_is a.chat_id) db.turns)
          a
          debounce
          now
          (db.inbox ++ row_of_arrival a now ∷ [])
          db
unfolding enqueue_update
after_message a debounce now db message fresh = rw (fresh, message) refl

-- Where a message with a new id arrives, nothing is active in its chat.
pub enqueue-Elsewhere :
    (a : Arrival) (debounce now : ℕ) (db : Db)
    → Reached db
    → str_eq a.update_kind "message" ≡ true
    → exists_where (update_is a.update_id) db.inbox ≡ false
    → All (Elsewhere a.chat_id) (enqueue_update a debounce now db).1.generations
unfolding enqueue_message
enqueue-Elsewhere a debounce now db r message fresh =
    rw (after_message a debounce now db message fresh)
      (silenced a.chat_id now db.generations db.turns (Reached-Sound r).linked)
