-- ===== src/Onboarding/History/Moves/Starts.antt =====
-- How generations start: the operations of tomo_core/src/tomo_core/onboarding_store.py follow
-- the diagrams of the rows.
use tomo_v.Common.{
  ℕ, String, Option, none, some, List, [], ◌∷◌, ◌≡◌, refl, arith, str_eq, All-of, Evolves,
  Evolves-append, first_where, exists_where, Bool-cases, inl, inr, ok,
}
use tomo_v.Onboarding.Rows.{Db, GenerationRow, running_is, turn_is, update_is}
use tomo_v.Onboarding.Store.Turns.{
  Arrival, enqueue_message, enqueue_update, supersede, supersede_active, active_of,
  insert_generation,
}
use tomo_v.Onboarding.Sound.Claims.{insert_generation-parts}
use tomo_v.Onboarding.History.Moves.Grows.{Grows}
use tomo_v.Onboarding.History.Moves.{
  GenerationMoved, GenerationMoved-refl, Moved, Moved-refl, generations-same, events-same,
  reactions-same, generations-ended,
}

-- tables that a call leaves alone
abbrev pub Alone : Db → Db → Type 0
Alone a b = (b.generations ≡ a.generations) × (b.events ≡ a.events) × (b.reactions ≡ a.reactions)

pub Alone-Moved : (a b : Db) → Alone a b → Moved a b
Alone-Moved a b (g, e, r) = (
  rw g (generations-same a.generations),
  rw e (events-same a.events),
  rw r (reactions-same a.reactions),
)

pub supersede-Moved :
    (active : Option String) (now : ℕ) (l : List GenerationRow)
    → Evolves GenerationMoved l (supersede_active active now l)
unfolding supersede_active
supersede-Moved none now l = generations-same l
supersede-Moved (some generation_id) now l =
    generations-ended (running_is generation_id) (supersede now) l (λ g. refl) (λ g. refl)
      (λ g. refl) (All-of (λ g hit. ground arith) l)

pub enqueue-Moved :
    (a : Arrival) (debounce now : ℕ) (db : Db) → Moved db (enqueue_update a debounce now db).1
unfolding enqueue_update enqueue_message
enqueue-Moved a debounce now db =
    elim (Bool-cases (exists_where (update_is a.update_id) db.inbox)) [
      | inl e ↦ rw e (Moved-refl db)
      | inr fresh ↦ elim (Bool-cases (str_eq a.update_kind "message")) [
        | inr control ↦ rw (fresh, control) (Moved-refl db)
        | inl message ↦
            rw (fresh, message)
              (
                supersede-Moved (active_of (first_where (turn_is a.chat_id) db.turns)) now
                    db.generations,
                events-same db.events,
                reactions-same db.reactions,
              )
      ]
    ]

inserted-Moved :
    (g : GenerationRow) (l after : List GenerationRow)
    → insert_generation g l ≡ ok after
    → Evolves GenerationMoved l after
inserted-Moved g l after h =
    rw (insert_generation-parts g l after h).1
      (Evolves-append GenerationMoved GenerationMoved-refl l (g ∷ []))

pub Grows-Moved : (a b : Db) → Grows a b → Moved a b
Grows-Moved a b (e, r, inl same) = (
  rw same (generations-same a.generations),
  rw e (events-same a.events),
  rw r (reactions-same a.reactions),
)
Grows-Moved a b (e, r, inr (g, running, inserted)) = (
  inserted-Moved g a.generations b.generations inserted,
  rw e (events-same a.events),
  rw r (reactions-same a.reactions),
)
