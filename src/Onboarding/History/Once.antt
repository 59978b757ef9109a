-- ===== src/Onboarding/History/Once.antt =====
-- No part of an answer is sent twice (tomo_core/src/tomo_core/onboarding_store.py).
use mathlib.Core.Path.{subst}
use tomo_v.Common.{
  ℕ, String, Bool, true, false, List, [], ◌∷◌, ◌++◌, ◌≡◌, refl, sym, arith, Evolves, Bool-cases,
  inl, inr, ok, eq_refl, exists_where, ap,
}
use tomo_v.Onboarding.Rows.{Db, EventRow, current_is}
use tomo_v.Onboarding.Store.Deliveries.{
  Piece, row_of_piece, blank, move_ok, event_is, insert_event, reserve_text, reserve_delivery,
}
use tomo_v.Onboarding.Laws.Deliveries.{reserve_delivery-parts}
use tomo_v.Onboarding.History.{Reached, called, reserves_text, History}
use tomo_v.Onboarding.History.Moves.{EventMoved}
use tomo_v.Onboarding.History.Settled.{History-Moved}

-- a text's place in an answer stays taken
place-kept :
    (generation_id : String) (sequence : ℕ) (l m : List EventRow)
    → Evolves EventMoved l m
    → exists_where (event_is generation_id sequence) l ≡ true
    → exists_where (event_is generation_id sequence) m ≡ true
unfolding exists_where
place-kept generation_id sequence [] m a h = absurd (cc h)
place-kept generation_id sequence (e ∷ es) [] a h = elim a [ ]
place-kept generation_id sequence (e ∷ es) (f ∷ fs) (moved, rest) h =
    elim (Bool-cases (event_is generation_id sequence e)) [
      | inl hit ↦ rw (moved.generation_id, moved.sequence, hit) refl
      | inr miss ↦
          let here : event_is generation_id sequence f ≡ false =
            rw (moved.generation_id, moved.sequence) miss in
          rw here (place-kept generation_id sequence es fs rest (rw miss at h))
    ]

exists_where-append :
    (p : EventRow → Bool) (l : List EventRow) (e : EventRow)
    → p e ≡ true
    → exists_where p (l ++ e ∷ []) ≡ true
unfolding exists_where
exists_where-append p [] e h = rw h refl
exists_where-append p (x ∷ xs) e h = elim (Bool-cases (p x)) [
  | inl hit ↦ rw hit refl
  | inr miss ↦ rw miss (exists_where-append p xs e h)
]

-- a text that is let through takes its place
takes-place :
    (generation_id : String) (revision : ℕ) (p : Piece) (now : ℕ) (db after : Db)
    → reserve_text generation_id revision p now db ≡ (true, after)
    → exists_where (event_is generation_id p.sequence) after.events ≡ true
unfolding reserve_text insert_event
takes-place generation_id revision p now db after h =
    elim (Bool-cases (exists_where (current_is generation_id revision) db.generations)) [
      | inr e ↦ absurd (cc (ap (λ a. a.0) (rw e at h)))
      | inl e ↦ elim (Bool-cases (exists_where (event_is generation_id p.sequence) db.events)) [
        | inl taken ↦ absurd (cc (ap (λ a. a.0) (rw (e, taken) at h)))
        | inr free ↦
            let added =
              exists_where-append (event_is generation_id p.sequence) db.events
                (row_of_piece generation_id p now) (rw (eq_refl generation_id) (ground arith)) in
            subst (λ d. exists_where (event_is generation_id p.sequence) d.events ≡ true)
              (ap (λ a. a.1) (rw (e, free) at h)) added
      ]
    ]

refused :
    (generation_id : String) (revision : ℕ) (p : Piece) (now : ℕ) (db : Db)
    → exists_where (event_is generation_id p.sequence) db.events ≡ true
    → reserve_text generation_id revision p now db ≡ (false, db)
unfolding reserve_text insert_event
refused generation_id revision p now db taken =
    elim (Bool-cases (exists_where (current_is generation_id revision) db.generations)) [
      | inl e ↦ rw (e, taken) refl
      | inr e ↦ rw e refl
    ]

-- A part of an answer is let through once: after `reserve_delivery` has let a text through for a place
-- in the answer of a generation, and after any calls that follow but the deletion of an owner, every further text for that place
-- is refused without a change, whatever it says, at any revision and time. (The text and its move,
-- if it has one, are not blank, since that is an error.)
pub reserve_delivery-once :
    {db after later : Db} (generation_id : String) (revision : ℕ) (p : Piece) (now : ℕ)
    → Reached db
    → reserve_delivery generation_id revision p now db ≡ ok (true, after)
    → History after later
    → (again : ℕ) (q : Piece) (time : ℕ) → q.sequence ≡ p.sequence
    → blank q.text ≡ false
    → move_ok q.legacy_move ≡ true
    → reserve_delivery generation_id again q time later ≡ ok (false, later)
unfolding reserve_delivery
reserve_delivery-once {db} {after} {later} generation_id revision p now r h history again q time
      same text move =
    let (ok_text, made) = reserve_delivery-parts generation_id revision p now db (true, after) h in
    let taken = takes-place generation_id revision p now db after (sym made) in
    let moved =
      History-Moved (called r (reserves_text generation_id revision p now db (true, after) h))
        history in
    let kept : exists_where (event_is generation_id q.sequence) later.events ≡ true =
      rw same (place-kept generation_id p.sequence after.events later.events moved.1 taken) in
    rw (text, move, refused generation_id again q time later kept) refl
