-- ===== src/Onboarding/History/Floor/Calls.antt =====
-- The calls of the store of tomo_core/src/tomo_core/onboarding_store.py in the abstract view.
use tomo_v.Common.{
  ℕ, String, Bool, Option, none, some, List, [], ◌∷◌, ◌≡◌, refl, ◌∙◌, ap, str_eq, first_where,
  exists_where, update_where, count_where, sort_by, select_where, least_by, not, ◌||◌, Bool-cases,
  Option-cases, inl, inr, if◌then◌else◌,
}
use tomo_v.Onboarding.Ids.{safe_error_code}
use tomo_v.Onboarding.Rows.{
  Db, GenerationRow, EventRow, is_running, running_is, current_is, generation_is, turn_is,
  update_is,
}
use tomo_v.Onboarding.Store.Tokens.{consume_start_token, token_is}
use tomo_v.Onboarding.Store.Turns.{
  Arrival, enqueue_message, enqueue_update, supersede, supersede_active, active_of,
}
use tomo_v.Onboarding.Store.Generations.{
  complete_found, complete_generation, fail_found, fail_generation, fail_row, is_spent, give_up,
  try_again, recover_row, recover_rows, recover_interrupted_generations, created_before,
  is_interrupted, needs_cleanup, complete_generation_cleanup,
}
use tomo_v.Onboarding.Store.Deliveries.{
  Piece, row_of_piece, event_is, insert_event, reserve_text, settle_event, mark_delivery_sent,
  mark_delivery_unknown, mark_delivery_suppressed, add_reaction, reaction_is, mark_reaction,
  mark_reaction_sent, mark_reaction_failed, mark_reaction_suppressed,
}
use tomo_v.Onboarding.Store.Control.{
  claim_next_update, processing_is, sooner, is_next, complete_update, retry_update,
  reset_interrupted_updates,
}
use tomo_v.Onboarding.Laws.Deliveries.{reserve_delivery-parts, reserve_reaction-parts}
use tomo_v.Onboarding.Sound.{Sound}
use tomo_v.Onboarding.Sound.Failing.{recover_row-Sound}
use tomo_v.Onboarding.History.{
  Step, links, installs, enqueues, reserves, claims, completes, fails, recovers, cleans,
  reserves_text, sends_text, loses_text, drops_text, reserves_reaction, sends_reaction,
  fails_reaction, drops_reaction, starts_update, ends_update, retries_update, resets_updates,
  Reached,
}
use tomo_v.Onboarding.History.Invariant.{Reached-Sound}
use tomo_v.Onboarding.History.Moves.Grows.{Grows, claim-Grows, reserve-Grows}
use tomo_v.Onboarding.History.Settled.{links-Alone, installs-Alone, start_update-Alone, retry-Alone}
use tomo_v.Onboarding.History.Floor.{
  floor_of, FloorStep, keeps, Ends, Ends-FloorStep, Ends-trans, update-Ends, insert-FloorStep,
  linked-Lone,
}

-- The statements that a call makes on generations end some of them.
abbrev EndsAt : String → Db → Db → Type 0
EndsAt chat_id a b = Ends (floor_of chat_id a.generations) (floor_of chat_id b.generations)

module _ (chat_id : String) where
  supersede-Ends :
      (active : Option String) (now : ℕ) (db : Db)
      → Sound db
      → Ends
          (floor_of chat_id db.generations)
          (floor_of chat_id (supersede_active active now db.generations))
  unfolding supersede_active
  supersede-Ends none now db s = inl refl
  supersede-Ends (some generation_id) now db s =
      update-Ends chat_id (running_is generation_id) (supersede now) (λ g. refl) (λ g. refl)
        (λ g h. refl) db.generations
        (linked-Lone chat_id db.generations db.turns s.linked s.generation_keys)

  enqueue-Ends :
      (a : Arrival) (debounce now : ℕ) (db : Db)
      → Sound db
      → EndsAt chat_id db (enqueue_update a debounce now db).1
  unfolding enqueue_update enqueue_message
  enqueue-Ends a debounce now db s =
      elim (Bool-cases (exists_where (update_is a.update_id) db.inbox)) [
        | inl e ↦ rw e (inl refl)
        | inr fresh ↦ elim (Bool-cases (str_eq a.update_kind "message")) [
          | inr control ↦ rw (fresh, control) (inl refl)
          | inl message ↦
              rw (fresh, message)
                (supersede-Ends (active_of (first_where (turn_is a.chat_id) db.turns)) now db s)
        ]
      ]

  complete-Ends :
      (generation_id : String) (revision now : ℕ) (db : Db)
      → Sound db
      → EndsAt chat_id db (complete_generation generation_id revision now db).1
  unfolding complete_generation complete_found
  complete-Ends generation_id revision now db s =
      elim (Option-cases (first_where (current_is generation_id revision) db.generations)) [
        | inl e ↦ rw (e, complete_found) (inl refl)
        | inr (g, e) ↦
            rw (e, complete_found)
              (update-Ends chat_id (generation_is generation_id) _ (λ x. refl) (λ x. refl)
                (λ x h. refl) db.generations
                (linked-Lone chat_id db.generations db.turns s.linked s.generation_keys))
      ]

  fail-Ends :
      (o : Option GenerationRow) (generation_id error : String) (now : ℕ)
      (max_attempts next : Option ℕ) (db : Db)
      → Sound db
      → EndsAt chat_id db (fail_found o generation_id error now max_attempts next db).1
  unfolding fail_found give_up try_again
  fail-Ends none generation_id error now max_attempts next db s = inl refl
  fail-Ends (some g) generation_id error now max_attempts next db s =
      let failed = update_where (running_is generation_id) (fail_row error now) db.generations in
      let ends : Ends (floor_of chat_id db.generations) (floor_of chat_id failed) =
        update-Ends chat_id (running_is generation_id) (fail_row error now) (λ x. refl) (λ x. refl)
          (λ x h. refl) db.generations
          (linked-Lone chat_id db.generations db.turns s.linked s.generation_keys) in
      elim (Bool-cases
        (is_spent max_attempts (count_where (λ h. str_eq h.burst_id g.burst_id) failed))) [
          | inl spent ↦ rw spent ends
          | inr again ↦ rw again ends
        ]

  recover-Ends :
      (now : ℕ) (gs : List GenerationRow) (db : Db)
      → Sound db
      → EndsAt chat_id db (recover_rows now gs db)
  unfolding recover_rows recover_row
  recover-Ends now [] db s = inl refl
  recover-Ends now (g ∷ gs) db s =
      let next = if is_running g.status then recover_row now g db else db in
      let (here, sound) : EndsAt chat_id db next × Sound next =
        elim (Bool-cases (is_running g.status)) [
          | inr e ↦ rw e (inl refl, s)
          | inl e ↦ rw e (
            update-Ends chat_id (running_is g.generation_id) (supersede now) (λ x. refl) (λ x. refl)
                (λ x h. refl) db.generations
                (linked-Lone chat_id db.generations db.turns s.linked s.generation_keys),
            recover_row-Sound now g db s,
          )
        ] in
      Ends-trans (floor_of chat_id db.generations) (floor_of chat_id next.generations)
        (floor_of chat_id (recover_rows now gs next).generations) here
        (recover-Ends now gs next sound)

  cleanup-Ends :
      (generation_id : String) (db : Db)
      → Sound db
      → EndsAt chat_id db (complete_generation_cleanup generation_id db).1
  unfolding complete_generation_cleanup
  cleanup-Ends generation_id db s =
      update-Ends chat_id (needs_cleanup generation_id) _ (λ x. refl) (λ x. refl) (λ x h. h)
        db.generations (linked-Lone chat_id db.generations db.turns s.linked s.generation_keys)

  Grows-FloorStep :
      (a b : Db)
      → Grows a b
      → FloorStep (floor_of chat_id a.generations) (floor_of chat_id b.generations)
  Grows-FloorStep a b (e, r, inl same) = rw same (keeps (floor_of chat_id a.generations))
  Grows-FloorStep a b (e, r, inr (g, running, inserted)) =
      insert-FloorStep chat_id g a.generations b.generations running inserted

insert_event-same : (e : EventRow) (db : Db) → (insert_event e db).1.generations ≡ db.generations
unfolding insert_event
insert_event-same e db =
    elim (Bool-cases (exists_where (event_is e.generation_id e.sequence) db.events)) [
      | inl there ↦ rw there refl
      | inr new ↦ rw new refl
    ]

reserve_text-same :
    (generation_id : String) (revision : ℕ) (p : Piece) (now : ℕ) (db : Db)
    → (reserve_text generation_id revision p now db).1.generations ≡ db.generations
unfolding reserve_text
reserve_text-same generation_id revision p now db =
    elim (Bool-cases (exists_where (current_is generation_id revision) db.generations)) [
      | inl e ↦ rw e (insert_event-same (row_of_piece generation_id p now) db)
      | inr e ↦ rw e refl
    ]

add_reaction-same :
    (generation_id : String) (revision : ℕ) (target emoji : String) (now : ℕ) (db : Db)
    → (add_reaction generation_id revision target emoji now db).1.generations ≡ db.generations
unfolding add_reaction
add_reaction-same generation_id revision target emoji now db =
    elim (Bool-cases (
      not (exists_where (current_is generation_id revision) db.generations)
      || exists_where (reaction_is generation_id revision target) db.reactions)) [
        | inl e ↦ rw e refl
        | inr e ↦ rw e refl
      ]

same-FloorStep :
    (chat_id : String) (a b : Db)
    → b.generations ≡ a.generations
    → FloorStep (floor_of chat_id a.generations) (floor_of chat_id b.generations)
same-FloorStep chat_id a b same = rw same (keeps (floor_of chat_id a.generations))

-- Each call is a step of the abstract view, for every chat at once, in a store that calls have built:
-- the generation that has the floor in the chat keeps it, gives it up, or takes it where nobody had
-- it; one generation never takes it from another in a single call.
pub Step-FloorStep :
    {a b : Db} (chat_id : String)
    → Reached a
    → Step a b
    → FloorStep (floor_of chat_id a.generations) (floor_of chat_id b.generations)
unfolding consume_start_token fail_generation recover_interrupted_generations claim_next_update
    retry_update complete_update reset_interrupted_updates mark_delivery_sent mark_delivery_unknown
    mark_delivery_suppressed mark_reaction_sent mark_reaction_failed mark_reaction_suppressed
    settle_event mark_reaction
Step-FloorStep chat_id r (links unicode sha256 token user bot ttl now db answer h) =
    same-FloorStep chat_id db answer.1
      (links-Alone unicode sha256 token user bot ttl now db answer h).0
Step-FloorStep chat_id r (installs sha256 token chat actor_id now db) =
    same-FloorStep chat_id db (consume_start_token sha256 token chat actor_id now db).1
      (installs-Alone (first_where (token_is (sha256 token)) db.tokens) (sha256 token) chat actor_id
        now db).0
Step-FloorStep chat_id r (enqueues a debounce now db h) =
    Ends-FloorStep _ _ (enqueue-Ends chat_id a debounce now db (Reached-Sound r))
Step-FloorStep chat_id r (reserves sha256 chat tomo_id run_id now db answer h) =
    Grows-FloorStep chat_id db answer.1 (reserve-Grows sha256 chat tomo_id run_id now db answer h)
Step-FloorStep chat_id r (claims sha256 now db answer h) =
    Grows-FloorStep chat_id db answer.1 (claim-Grows sha256 now db answer h)
Step-FloorStep chat_id r (completes generation_id revision now db) =
    Ends-FloorStep _ _ (complete-Ends chat_id generation_id revision now db (Reached-Sound r))
Step-FloorStep chat_id r (fails unicode generation_id error_code now max_attempts next db) =
    Ends-FloorStep _ _ (
      fail-Ends chat_id (first_where (running_is generation_id) db.generations) generation_id
        (safe_error_code unicode error_code) now max_attempts next db (Reached-Sound r))
Step-FloorStep chat_id r (recovers now db) = Ends-FloorStep _ _ (
    recover-Ends chat_id now (sort_by created_before (select_where is_interrupted db.generations))
      db (Reached-Sound r))
Step-FloorStep chat_id r (cleans generation_id db) =
    Ends-FloorStep _ _ (cleanup-Ends chat_id generation_id db (Reached-Sound r))
Step-FloorStep chat_id r (reserves_text generation_id revision p now db answer h) =
    let (blank, same) = reserve_delivery-parts generation_id revision p now db answer h in
    same-FloorStep chat_id db answer.1 (
      ap (λ (a : Bool × Db). a.1.generations) same
      ∙ reserve_text-same generation_id revision p now db)
Step-FloorStep chat_id r (sends_text generation_id sequence message_id now db) =
    keeps (floor_of chat_id db.generations)
Step-FloorStep chat_id r (loses_text generation_id sequence now db) =
    keeps (floor_of chat_id db.generations)
Step-FloorStep chat_id r (drops_text generation_id sequence now db) =
    keeps (floor_of chat_id db.generations)
Step-FloorStep chat_id r (reserves_reaction generation_id revision target emoji now db answer h) =
    let (given, same) =
      reserve_reaction-parts generation_id revision target emoji now db answer h in
    same-FloorStep chat_id db answer.1 (
      ap (λ (a : Bool × Db). a.1.generations) same
      ∙ add_reaction-same generation_id revision target emoji now db)
Step-FloorStep chat_id r (sends_reaction generation_id revision target now db) =
    keeps (floor_of chat_id db.generations)
Step-FloorStep chat_id r (fails_reaction generation_id revision target now db) =
    keeps (floor_of chat_id db.generations)
Step-FloorStep chat_id r (drops_reaction generation_id revision target now db) =
    keeps (floor_of chat_id db.generations)
Step-FloorStep chat_id r (starts_update now db) =
    same-FloorStep chat_id db (claim_next_update now db).1
      (start_update-Alone (least_by sooner (select_where (is_next now db.inbox) db.inbox)) now db).0
Step-FloorStep chat_id r (ends_update update_id now db) = keeps (floor_of chat_id db.generations)
Step-FloorStep chat_id r (retries_update unicode update_id error_code now db) =
    same-FloorStep chat_id db (retry_update unicode update_id error_code now db)
      (retry-Alone (first_where (processing_is update_id) db.inbox) update_id
        (safe_error_code unicode error_code) now db).0
Step-FloorStep chat_id r (resets_updates now db) = keeps (floor_of chat_id db.generations)
