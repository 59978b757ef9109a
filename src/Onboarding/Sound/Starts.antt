-- ===== src/Onboarding/Sound/Starts.antt =====
-- The operations that start generations keep the tables sound
-- (tomo_core/src/tomo_core/onboarding_store.py).
use tomo_v.Common.{
  ℕ, suc, String, true, false, some, List, [], ◌∷◌, ◌++◌, ◌≡◌, refl, sym, ◌∙◌, arith, str_eq,
  eq_iff, eq_refl, All, All-map, All-both, All-append, Keyed, Keyed-append, first_where,
  exists_where, exists_where-false, select_where, select_where-All_of, sort_by-All_of, Bool-cases,
  inl, inr,
}
use tomo_v.Onboarding.Ids.Chats.{chat_of}
use tomo_v.Onboarding.Rows.{
  InboxRow, TurnRow, GenerationRow, InputRow, is_running, is_completed, equals, turn_is,
}
use tomo_v.Onboarding.Store.Turns.{generation_clashes}
use tomo_v.Onboarding.Store.Claim.{
  insert_input, insert_inputs, is_waiting, waiting_rows, update_before,
}
use tomo_v.Onboarding.Laws.Linked.{IsLinked, start-Linked}
use tomo_v.Onboarding.Sound.{
  SoundOf, IsRow, IsCovered, IsNamed, HasBurst, HasMessage, input_is, same_turn, same_generation,
}
use tomo_v.Onboarding.Sound.Parts.{
  IsAnswered-more, exists_where-before, exists_where-last, equals-true,
}

-- the inputs of a table, and more
abbrev pub Grown : List InputRow → List InputRow → Type 0
Grown inputs inputs' =
    (generation_id : String) (update_id : ℕ)
    → exists_where (input_is generation_id update_id) inputs ≡ true
    → exists_where (input_is generation_id update_id) inputs' ≡ true

-- A generation that does not clash has a new key.
new_key :
    (g : GenerationRow) (generations : List GenerationRow)
    → exists_where (generation_clashes g) generations ≡ false
    → Keyed same_generation generations
    → Keyed same_generation (generations ++ g ∷ [])
unfolding generation_clashes
new_key g generations free = Keyed-append same_generation generations g (
    All-map generations (λ h no_clash. ground arith)
      (exists_where-false (generation_clashes g) generations free))

pub started :
    (g : GenerationRow) (inbox : List InboxRow) (turns turns' : List TurnRow)
    (generations : List GenerationRow) (inputs inputs' : List InputRow)
    → exists_where (generation_clashes g) generations ≡ false
    → All (λ h. is_running h.status ≡ true → str_eq h.chat_id g.chat_id ≡ false) generations
    → ((d : String) (t : TurnRow)
        → str_eq d g.chat_id ≡ false
        → first_where (turn_is d) turns ≡ some t
        → first_where (turn_is d) turns' ≡ some t)
    → IsLinked turns' g
    → Keyed same_turn turns'
    → All HasBurst turns'
    → All (HasMessage inbox) turns'
    → IsNamed g
    → IsCovered inbox inputs' g
    → Grown inputs inputs'
    → SoundOf inbox turns generations inputs
    → SoundOf inbox turns' (generations ++ g ∷ []) inputs'
started g inbox turns turns' generations inputs inputs' free rest others linked keys bursts waiting
      named covered grown s =
    record {
      update_keys = s.update_keys;
      turn_keys = keys;
      generation_keys = new_key g generations free s.generation_keys;
      linked = start-Linked g generations turns turns' rest others linked s.linked;
      rows = s.rows;
      bursts = bursts;
      waiting = waiting;
      named = All-append IsNamed generations (g ∷ []) s.named (named, tt);
      covered =
          All-append (IsCovered inbox inputs') generations (g ∷ [])
            (All-map generations
              (λ h old running.
                All-map inbox
                  (λ r input e waiting. grown h.generation_id r.update_id (input e waiting))
                  (old running))
              s.covered)
            (covered, tt);
      answered = IsAnswered-more generations (g ∷ []) inputs inputs' inbox grown s.answered;
    }

insert_input-Grown : (i : InputRow) (inputs : List InputRow) → Grown inputs (insert_input i inputs)
unfolding insert_input
insert_input-Grown i inputs generation_id update_id h =
    elim (Bool-cases (exists_where (input_is i.generation_id i.update_id) inputs)) [
      | inl e ↦ rw e h
      | inr e ↦ rw e (exists_where-before (input_is generation_id update_id) inputs (i ∷ []) h)
    ]

insert_input-has :
    (i : InputRow) (inputs : List InputRow)
    → exists_where (input_is i.generation_id i.update_id) (insert_input i inputs) ≡ true
unfolding insert_input
insert_input-has i inputs =
    elim (Bool-cases (exists_where (input_is i.generation_id i.update_id) inputs)) [
      | inl e ↦ rw e e
      | inr e ↦ rw e (
          exists_where-last (input_is i.generation_id i.update_id) inputs i
            (rw (eq_refl i.generation_id) (ground arith)))
    ]

pub insert_inputs-Grown :
    (generation_id : String) (ordinal : ℕ) (rows : List InboxRow) (inputs : List InputRow)
    → Grown inputs (insert_inputs generation_id ordinal rows inputs)
unfolding insert_inputs
insert_inputs-Grown generation_id ordinal [] inputs other update_id h = h
insert_inputs-Grown generation_id ordinal (r ∷ rs) inputs other update_id h =
    insert_inputs-Grown generation_id (suc ordinal) rs _ other update_id
      (insert_input-Grown _ inputs other update_id h)

-- Every row becomes an input.
pub insert_inputs-has :
    (generation_id : String) (ordinal : ℕ) (rows : List InboxRow) (inputs : List InputRow)
    → All
        (λ r.
          exists_where
            (input_is generation_id r.update_id)
            (insert_inputs generation_id ordinal rows inputs)
          ≡ true)
        rows
unfolding insert_inputs
insert_inputs-has generation_id ordinal [] inputs = tt
insert_inputs-has generation_id ordinal (r ∷ rs) inputs = (
  insert_inputs-Grown generation_id (suc ordinal) rs _ generation_id r.update_id (
      insert_input-has
        (record { generation_id = generation_id; update_id = r.update_id; ordinal = ordinal })
        inputs),
  insert_inputs-has generation_id (suc ordinal) rs _,
)

-- The messages that wait in a turn's burst are those of the burst, and become inputs.
pub waiting-IsCovered :
    (g : GenerationRow) (chat_id : String) (ordinal : ℕ) (inbox : List InboxRow)
    (inputs : List InputRow)
    → chat_of g.burst_id ≡ some chat_id
    → All IsRow inbox
    → IsCovered inbox
        (insert_inputs g.generation_id ordinal (waiting_rows chat_id g.burst_id inbox) inputs)
        g
unfolding waiting_rows is_waiting
waiting-IsCovered g chat_id ordinal inbox inputs own rows running =
    let after =
      insert_inputs g.generation_id ordinal (waiting_rows chat_id g.burst_id inbox) inputs in
    All-map inbox (λ r (x, there) e waiting. there (is_of r x e waiting))
      (All-both IsRow
        (λ r.
          is_waiting chat_id g.burst_id r ≡ true
          → exists_where (input_is g.generation_id r.update_id) after ≡ true)
        inbox rows
        (select_where-All_of (λ r. exists_where (input_is g.generation_id r.update_id) after ≡ true)
          (is_waiting chat_id g.burst_id) inbox
          (sort_by-All_of update_before
            (λ r. exists_where (input_is g.generation_id r.update_id) after ≡ true)
            (select_where (is_waiting chat_id g.burst_id) inbox)
            (insert_inputs-has g.generation_id ordinal (waiting_rows chat_id g.burst_id inbox)
              inputs))))
  where
    is_of :
        (r : InboxRow)
        → IsRow r
        → equals r.burst_id g.burst_id ≡ true
        → is_completed r.status ≡ false
        → is_waiting chat_id g.burst_id r ≡ true
    is_of r x e waiting =
        let burst = equals-true r.burst_id g.burst_id e in
        let named : some chat_id ≡ some r.chat_id = sym own ∙ x.burst g.burst_id burst in
        let same : r.chat_id ≡ chat_id = cc named in
        let message = x.message g.burst_id burst in
        let chat = (eq_iff r.chat_id chat_id).1 same in rw (chat, e, message, waiting) refl
