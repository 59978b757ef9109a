-- ===== src/Onboarding/History/Silent.antt =====
-- A generation that has ended says nothing more (tomo_core/src/tomo_core/onboarding_store.py).
use mathlib.Core.Path.{subst}
use tomo_v.Common.{
  ℕ, exists_where, str_eq, All-In, All-of_In, true, false, List, [], ◌∷◌, ◌≡◌, refl, sym, arith,
  eq_iff, All, All-map, Evolves, In, Keyed, inl, inr, Bool-cases,
}
use tomo_v.Onboarding.Sound.Parts.{generation_only}
use tomo_v.Onboarding.Rows.{Db, GenerationRow, is_running, running_is, update_is}
use tomo_v.Onboarding.Sound.{same_generation}
use tomo_v.Onboarding.Ids.Chats.{has_colon}
use tomo_v.Onboarding.Store.Turns.{Arrival, enqueue_update}
use tomo_v.Onboarding.Sound.Arrivals.{Elsewhere}
use tomo_v.Onboarding.Laws.Messages.{enqueue-Elsewhere, IsSilent, idle-IsSilent}
use tomo_v.Onboarding.History.{enqueues, Reached, called, History, start, call}
use tomo_v.Onboarding.History.Invariant.{Reached-Sound}
use tomo_v.Onboarding.History.Moves.{GenerationMoved}
use tomo_v.Onboarding.History.Settled.{History-Moved}

later-Reached : {a b : Db} → Reached a → History a b → Reached b
later-Reached r (start db) = r
later-Reached r (call step rest) = later-Reached (called r step) rest

-- what has become of a generation
successor :
    (l m : List GenerationRow) (g : GenerationRow)
    → Evolves GenerationMoved l m
    → In g l
    → (h : GenerationRow) × In h m × GenerationMoved g h
successor [] m g a i = elim i [ ]
successor (x ∷ xs) [] g a i = elim a [ ]
successor (x ∷ xs) (y ∷ ys) g (moved, rest) (inl e) =
    (y, inl refl, subst (λ z. GenerationMoved z y) (sym e) moved)
successor (x ∷ xs) (y ∷ ys) g (moved, rest) (inr i) =
    let (h, there, step) = successor xs ys g rest i in (h, inr there, step)

-- Where a generation is not running, no row with its id is.
idle :
    (l : List GenerationRow) (h : GenerationRow)
    → Keyed same_generation l
    → In h l
    → is_running h.status ≡ false
    → All (λ x. running_is h.generation_id x ≡ false) l
idle l h keys i ended =
    All-map l
      (λ x only. elim (Bool-cases (running_is h.generation_id x)) [
        | inr e ↦ e
        | inl e ↦
            let same : x ≡ h = only (
              ground (
                arith,
                eq_iff x.generation_id h.generation_id,
                eq_iff h.generation_id x.generation_id,
              )) in
            let rests = subst (λ z. is_running z.status ≡ false) (sym same) ended in
            let runs : is_running x.status ≡ true = ground arith in absurd (cc (rests, runs))
      ])
      (generation_only l h keys i)

stays_ended :
    (g h : GenerationRow)
    → GenerationMoved g h
    → is_running g.status ≡ false
    → is_running h.status ≡ false
stays_ended g h m ended = ground (arith, m.step)

-- A generation that was superseded, completed or failed is silent for good: after any calls that
-- follow but the deletion of an owner, it is not active, it cannot be completed or failed, and no text and no reaction of it is
-- let through, at any revision and time; such calls change nothing.
pub ended-IsSilent :
    {a b : Db} (g : GenerationRow)
    → Reached a
    → In g a.generations
    → is_running g.status ≡ false
    → History a b
    → IsSilent b g.generation_id
ended-IsSilent {a} {b} g r i ended history =
    let (h, there, moved) = successor a.generations b.generations g (History-Moved r history).0 i in
    let s = Reached-Sound (later-Reached r history) in
    subst (IsSilent b) moved.generation_id (
      idle-IsSilent b h.generation_id
        (idle b.generations h s.generation_keys there (stays_ended g h moved ended)))

-- In a store that calls have built, where a message with a new id arrives in a chat (whose id has no
-- colon), whatever was being said there falls silent for good: after it and after any calls that
-- follow but the deletion of an owner, every generation that the chat had is inactive, it cannot be
-- completed or failed, and no text and no reaction of it is let through, at any revision and time;
-- such calls change nothing.
pub enqueue-silences :
    (a : Arrival) (debounce now : ℕ) (db later : Db)
    → Reached db
    → has_colon a.chat_id ≡ false
    → str_eq a.update_kind "message" ≡ true
    → exists_where (update_is a.update_id) db.inbox ≡ false
    → History (enqueue_update a debounce now db).1 later
    → All
        (λ g. str_eq g.chat_id a.chat_id ≡ true → IsSilent later g.generation_id)
        (enqueue_update a debounce now db).1.generations
enqueue-silences a debounce now db later r colon message fresh history =
    let after = (enqueue_update a debounce now db).1 in
    All-of_In _ after.generations (λ g i here.
      let away =
        All-In (Elsewhere a.chat_id) after.generations g i
          (enqueue-Elsewhere a debounce now db r message fresh) in
      ended-IsSilent g (called r (enqueues a debounce now db colon)) i (at_rest g here away)
        history)
  where
    at_rest :
        (g : GenerationRow)
        → str_eq g.chat_id a.chat_id ≡ true
        → Elsewhere a.chat_id g
        → is_running g.status ≡ false
    at_rest g here away = elim (Bool-cases (is_running g.status)) [
      | inr e ↦ e
      | inl e ↦ absurd (cc (here, away e))
    ]
