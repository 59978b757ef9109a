-- ===== src/Onboarding/Sound/Enqueue.antt =====
-- `enqueue_update` keeps the tables sound (tomo_core/src/tomo_core/onboarding_store.py).
use mathlib.Core.Path.{subst}
use tomo_v.Common.{
  ℕ, String, Bool, true, false, Option, none, some, List, [], ◌∷◌, ◌++◌, ◌≡◌, refl, sym, ◌∙◌, ap,
  arith, str_eq, eq_iff, eq_refl, All, All-of, All-map, All-both, All-append, Keyed, Keyed-append,
  first_where, exists_where, exists_where-false, update_where, Bool-cases, inl, inr,
}
use tomo_v.Onboarding.Ids.Chats.{chat_of, has_colon}
use tomo_v.Onboarding.Rows.{
  Db, InboxRow, TurnRow, GenerationRow, InputRow, is_running, is_completed, equals, turn_is,
  update_is, running_is,
}
use tomo_v.Onboarding.Store.Turns.{
  Arrival, row_of_arrival, active_of, open_burst, supersede, supersede_active, place_message,
  enqueue_message, enqueue_update,
}
use tomo_v.Onboarding.Store.Claim.{is_waiting}
use tomo_v.Onboarding.Laws.Linked.{IsLinked}
use tomo_v.Onboarding.Sound.{
  Sound, SoundOf, IsRow, IsInput, IsCovered, IsAnswered, IsNamed, same_generation, same_update,
}
use tomo_v.Onboarding.Sound.Parts.{
  IsAnswered-generations, keep_generations, equals-true, exists_where-before, exists_where-last,
}
use tomo_v.Onboarding.Sound.Arrivals.{
  Elsewhere, silenced, supersede_All, Placed, place-Placed, going_burst,
}

-- A statement that writes the added row only.
pub update-append :
    {A : Type 0} (p : A → Bool) (f : A → A) (l : List A) (x : A)
    → All (λ y. p y ≡ false) l
    → p x ≡ true
    → update_where p f (l ++ x ∷ []) ≡ l ++ f x ∷ []
unfolding update_where
update-append p f [] x miss hit = rw hit refl
update-append p f (y ∷ ys) x miss hit = rw miss.0 (ap (◌∷◌ y) (update-append p f ys x miss.1 hit))

-- An update whose id is new is added.
module _ (r : InboxRow) (inbox : List InboxRow) (turns : List TurnRow)
    (generations : List GenerationRow) (inputs : List InputRow)
    (new : All (λ q. update_is r.update_id q ≡ false) inbox) (row : IsRow r)
    (waiting : is_completed r.status ≡ false)
    (apart : All
      (λ g. is_running g.status ≡ true → equals r.burst_id g.burst_id ≡ false)
      generations) where
  added :
      SoundOf inbox turns generations inputs → SoundOf (inbox ++ r ∷ []) turns generations inputs
  added s = record {
    update_keys =
        Keyed-append same_update inbox r (All-map inbox (λ q miss. miss) new) s.update_keys;
    turn_keys = s.turn_keys;
    generation_keys = s.generation_keys;
    linked = s.linked;
    rows = All-append IsRow inbox (r ∷ []) s.rows (row, tt);
    bursts = s.bursts;
    waiting =
        All-map turns
          (λ t message b e.
            exists_where-before (is_waiting t.chat_id b) inbox (r ∷ []) (message b e))
          s.waiting;
    named = s.named;
    covered =
        All-map generations
          (λ g (other, covered) running.
            All-append (IsInput inputs g) inbox (r ∷ []) (covered running)
              (λ e w. absurd (cc (e, other running)), tt))
          (All-both (λ g. is_running g.status ≡ true → equals r.burst_id g.burst_id ≡ false)
            (IsCovered inbox inputs) generations apart s.covered);
    answered =
        All-append (IsAnswered generations inputs) inbox (r ∷ []) s.answered
          (λ message completed. absurd (cc (completed, waiting)), tt);
  }

-- the chat's generation is superseded
pub superseded-Sound :
    (active : Option String) (now : ℕ) (db : Db)
    → Sound db
    → SoundOf db.inbox db.turns (supersede_active active now db.generations) db.inputs
unfolding supersede_active
superseded-Sound active now db s = record {
  update_keys = s.update_keys;
  turn_keys = s.turn_keys;
  generation_keys = superseded_keys active s.generation_keys;
  linked =
      supersede_All (IsLinked db.turns) active now db.generations (λ g running. absurd (cc running))
        s.linked;
  rows = s.rows;
  bursts = s.bursts;
  waiting = s.waiting;
  named =
      supersede_All IsNamed active now db.generations (λ g running. absurd (cc running)) s.named;
  covered =
      supersede_All (IsCovered db.inbox db.inputs) active now db.generations
        (λ g running. absurd (cc running)) s.covered;
  answered = superseded_answers active s.answered;
}
  where
    superseded_keys :
        (active : Option String)
        → Keyed same_generation db.generations
        → Keyed same_generation (supersede_active active now db.generations)
    superseded_keys none keys = keys
    superseded_keys (some generation_id) keys =
        keep_generations (running_is generation_id) (supersede now) db.generations (λ g. refl) keys

    superseded_answers :
        (active : Option String)
        → All (IsAnswered db.generations db.inputs) db.inbox
        → All (IsAnswered (supersede_active active now db.generations) db.inputs) db.inbox
    superseded_answers none answered = answered
    superseded_answers (some generation_id) answered =
        IsAnswered-generations (running_is generation_id) (supersede now) db.generations db.inputs
          db.inbox (λ g hit. ground arith) answered

-- the chat's turn is placed anew
placed-Sound :
    (chat_id : String) (inbox : List InboxRow) (turns : List TurnRow)
    (generations : List GenerationRow) (inputs : List InputRow) (placed : String × ℕ × List TurnRow)
    → All (Elsewhere chat_id) generations
    → Placed chat_id turns placed
    → exists_where (is_waiting chat_id placed.0) inbox ≡ true
    → SoundOf inbox turns generations inputs
    → SoundOf inbox (placed.2) generations inputs
placed-Sound chat_id inbox turns generations inputs placed elsewhere p here s = record {
  update_keys = s.update_keys;
  turn_keys = p.keys;
  generation_keys = s.generation_keys;
  linked =
      All-map generations
        (λ g (other, linked) running.
          let (full, (t, found, is_active)) = linked running in
          (full, (t, p.others g.chat_id t (other running) found, is_active)))
        (All-both (Elsewhere chat_id) (IsLinked turns) generations elsewhere s.linked);
  rows = s.rows;
  bursts = p.bursts;
  waiting = p.waiting inbox s.waiting here;
  named = s.named;
  covered = s.covered;
  answered = s.answered;
}

-- A burst of the chat is not the burst of a generation that is active elsewhere.
apart_from :
    (chat_id burst_id : String) (generations : List GenerationRow)
    → chat_of burst_id ≡ some chat_id
    → has_colon chat_id ≡ false
    → All (Elsewhere chat_id) generations
    → All IsNamed generations
    → All (λ g. is_running g.status ≡ true → equals (some burst_id) g.burst_id ≡ false) generations
apart_from chat_id burst_id generations own plain elsewhere named =
    All-map generations
      (λ g (other, name) running. elim (Bool-cases (equals (some burst_id) g.burst_id)) [
        | inr e ↦ e
        | inl e ↦
            let (n, its, whose) = name running in
            let same : burst_id ≡ g.burst_id =
              ground (arith, equals-true (some burst_id) g.burst_id e) in
            let chat : n ≡ chat_id = cc (its, own, same) in
            elim whose [
              | inl here ↦
                  absurd (cc (other running, (eq_iff g.chat_id chat_id).1 (sym here ∙ chat)))
              | inr colon ↦ absurd (cc (plain, subst (λ c. has_colon c ≡ true) chat colon))
            ]
      ])
      (All-both (Elsewhere chat_id) IsNamed generations elsewhere named)

enqueue_message-Sound :
    (a : Arrival) (debounce now : ℕ) (db : Db)
    → has_colon a.chat_id ≡ false
    → exists_where (update_is a.update_id) db.inbox ≡ false
    → str_eq a.update_kind "message" ≡ true
    → Sound db
    → Sound
        (enqueue_message
          (first_where (turn_is a.chat_id) db.turns)
          a
          debounce
          now
          (db.inbox ++ row_of_arrival a now ∷ [])
          db).1
unfolding enqueue_message is_waiting
enqueue_message-Sound a debounce now db plain fresh message s =
    let turn = first_where (turn_is a.chat_id) db.turns in
    let active = active_of turn in
    let generations = supersede_active active now db.generations in
    let placed = place_message (open_burst turn) turn a debounce now generations db.turns in
    let p =
      place-Placed (open_burst turn) turn a debounce now generations db.turns
        (λ b e. going_burst a.chat_id db.turns b s.bursts e) s.turn_keys s.bursts in
    let elsewhere = silenced a.chat_id now db.generations db.turns s.linked in
    let after = superseded-Sound active now db s in
    let new = exists_where-false (update_is a.update_id) db.inbox fresh in
    let row : InboxRow = record (row_of_arrival a now) { burst_id = some placed.0 } in
    subst (λ l. SoundOf l placed.2 generations db.inputs)
      (sym (
        update-append (update_is a.update_id) (λ r. record r { burst_id = some placed.0 }) db.inbox
          (row_of_arrival a now) new (ground arith)))
      (placed-Sound a.chat_id (db.inbox ++ row ∷ []) db.turns generations db.inputs placed elsewhere
        p
        (exists_where-last (is_waiting a.chat_id placed.0) db.inbox row
          (rw (eq_refl a.chat_id, eq_refl placed.0, message) refl))
        (added row db.inbox db.turns generations db.inputs new
          (record {
            chat = plain;
            burst = λ b e. named_by b p.burst e;
            message = λ b e. message;
            queue = λ m. refl;
          })
          refl (apart_from a.chat_id placed.0 generations p.burst plain elsewhere after.named)
          after))
  where
    named_by :
        {burst_id : String} (b : String)
        → chat_of burst_id ≡ some a.chat_id
        → some burst_id ≡ some b
        → chat_of b ≡ some a.chat_id
    named_by {burst_id} b own e =
        let same : burst_id ≡ b = cc e in subst (λ x. chat_of x ≡ some a.chat_id) same own

pub enqueue-Sound :
    (a : Arrival) (debounce now : ℕ) (db : Db)
    → has_colon a.chat_id ≡ false
    → Sound db
    → Sound (enqueue_update a debounce now db).1
unfolding enqueue_update
enqueue-Sound a debounce now db plain s =
    elim (Bool-cases (exists_where (update_is a.update_id) db.inbox)) [
      | inl e ↦ rw e s
      | inr fresh ↦ elim (Bool-cases (str_eq a.update_kind "message")) [
        | inl message ↦
            rw (fresh, message) (enqueue_message-Sound a debounce now db plain fresh message s)
        | inr control ↦
            rw (fresh, control)
              (added (row_of_arrival a now) db.inbox db.turns db.generations db.inputs
                (exists_where-false (update_is a.update_id) db.inbox fresh)
                (record {
                  chat = plain;
                  burst = λ b e. absurd (cc e);
                  message = λ b e. absurd (cc e);
                  queue = λ m. refl;
                })
                refl (All-of (λ g running. refl) db.generations) s)
      ]
    ]
