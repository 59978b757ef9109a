-- ===== src/Onboarding/History/Moves/Sends.antt =====
-- What generations send: the operations of tomo_core/src/tomo_core/onboarding_store.py follow
-- the diagrams of the rows.
use tomo_v.Common.{
  ℕ, String, ◌||◌, not, [], ◌∷◌, ◌≡◌, refl, arith, All-of, Evolves-append, Evolves-update,
  exists_where, Bool-cases, inl, inr,
}
use tomo_v.Onboarding.Rows.{Db, EventRow, current_is, ReactionStatus}
use tomo_v.Onboarding.Store.Deliveries.{
  Piece, row_of_piece, event_is, insert_event, reserve_text, settle_event, add_reaction,
  reaction_is, mark_reaction,
}
use tomo_v.Onboarding.History.Moves.{
  EventMoved, EventMoved-refl, ReactionMoved, ReactionMoved-refl, Moved, Moved-refl,
  generations-same, events-same, reactions-same, events-settled,
}

pub insert_event-Moved : (e : EventRow) (db : Db) → Moved db (insert_event e db).1
unfolding insert_event
insert_event-Moved e db =
    elim (Bool-cases (exists_where (event_is e.generation_id e.sequence) db.events)) [
      | inl there ↦ rw there (Moved-refl db)
      | inr new ↦ rw new (
        generations-same db.generations,
        Evolves-append EventMoved EventMoved-refl db.events (e ∷ []),
        reactions-same db.reactions,
      )
    ]

pub reserve_text-Moved :
    (generation_id : String) (revision : ℕ) (p : Piece) (now : ℕ) (db : Db)
    → Moved db (reserve_text generation_id revision p now db).1
unfolding reserve_text
reserve_text-Moved generation_id revision p now db =
    elim (Bool-cases (exists_where (current_is generation_id revision) db.generations)) [
      | inl e ↦ rw e (insert_event-Moved (row_of_piece generation_id p now) db)
      | inr e ↦ rw e (Moved-refl db)
    ]

pub add_reaction-Moved :
    (generation_id : String) (revision : ℕ) (target emoji : String) (now : ℕ) (db : Db)
    → Moved db (add_reaction generation_id revision target emoji now db).1
unfolding add_reaction
add_reaction-Moved generation_id revision target emoji now db =
    elim (Bool-cases (
      not (exists_where (current_is generation_id revision) db.generations)
      || exists_where (reaction_is generation_id revision target) db.reactions)) [
        | inl e ↦ rw e (Moved-refl db)
        | inr e ↦ rw e (
          generations-same db.generations,
          events-same db.events,
          Evolves-append ReactionMoved ReactionMoved-refl db.reactions _,
        )
      ]

pub mark_reaction-Moved :
    (status : ReactionStatus) (generation_id : String) (revision : ℕ) (target : String) (now : ℕ)
    (db : Db)
    → Moved db (mark_reaction status generation_id revision target now db).1
unfolding mark_reaction
mark_reaction-Moved status generation_id revision target now db = (
  generations-same db.generations,
  events-same db.events,
  Evolves-update ReactionMoved ReactionMoved-refl _ _ db.reactions (
      All-of (λ r hit. record { generation_id = refl; target = refl; step = ground arith })
        db.reactions),
)

pub settle_event-Moved :
    (generation_id : String) (sequence : ℕ) (f : EventRow → EventRow) (db : Db)
    → ((e : EventRow) → (f e).generation_id ≡ e.generation_id)
    → ((e : EventRow) → (f e).sequence ≡ e.sequence)
    → ((e : EventRow) → (f e).text ≡ e.text)
    → Moved db (settle_event generation_id sequence f db).1
unfolding settle_event
settle_event-Moved generation_id sequence f db a b c = (
  generations-same db.generations,
  events-settled _ f db.events a b c (λ e hit. ground arith),
  reactions-same db.reactions,
)
