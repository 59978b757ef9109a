-- ===== src/Onboarding/Sound/Ends.antt =====
-- What ends with a generation, and what it leaves
-- (tomo_core/src/tomo_core/onboarding_store.py).
use mathlib.Core.Path.{subst}
use tomo_v.Common.{
  String, Bool, true, false, some, List, ◌≡◌, refl, sym, arith, str_eq, eq_iff, All, All-map,
  All-update_where, first_where, update_where, Keyed-update_where, inl, inr, All-both, ◌∙◌,
  All-of_In,
}
use tomo_v.Onboarding.Rows.{
  Db, InboxRow, TurnRow, GenerationRow, InputRow, is_running, equals, turn_runs, turn_is,
}
use tomo_v.Onboarding.Store.Claim.{is_waiting}
use tomo_v.Onboarding.Ids.Chats.{has_colon}
use tomo_v.Onboarding.Store.Generations.{complete_burst}
use tomo_v.Onboarding.Laws.Linked.{IsLinked, end-Linked}
use tomo_v.Onboarding.Sound.{
  Sound, SoundOf, IsRow, IsInput, IsAnswered, IsNamed, HasMessage, same_update,
}
use tomo_v.Onboarding.Sound.Parts.{
  end-IsNamed, end-IsCovered, keep_generations, same_turn-kept, bursts-kept, exists_where-keeps,
  Releases, waiting-kept, equals-true, found_by_chat,
}

-- Generations end and the turn that named one of them is released.
pub ended :
    (chat_id generation_id : String) (p : GenerationRow → Bool) (f : GenerationRow → GenerationRow)
    (h : TurnRow → TurnRow) (inbox : List InboxRow) (turns : List TurnRow)
    (generations : List GenerationRow) (inputs : List InputRow)
    → ((g : GenerationRow) → is_running (f g).status ≡ false)
    → ((g : GenerationRow) → (f g).generation_id ≡ g.generation_id)
    → ((g : GenerationRow)
        → is_running g.status ≡ true
        → p g ≡ false
        → str_eq g.generation_id generation_id ≡ false)
    → Releases h
    → SoundOf inbox turns generations inputs
    → All (IsAnswered (update_where p f generations) inputs) inbox
    → SoundOf inbox
        (update_where (turn_runs chat_id generation_id) h turns)
        (update_where p f generations)
        inputs
ended chat_id generation_id p f h inbox turns generations inputs ends keep others keep_turn s ans =
    record {
      update_keys = s.update_keys;
      turn_keys =
          same_turn-kept (turn_runs chat_id generation_id) h turns (λ t. (keep_turn t).0)
            s.turn_keys;
      generation_keys = keep_generations p f generations keep s.generation_keys;
      linked =
          end-Linked chat_id generation_id p f h generations turns ends others
            (λ t. (keep_turn t).0) s.linked;
      rows = s.rows;
      bursts = bursts-kept (turn_runs chat_id generation_id) h turns keep_turn s.bursts;
      waiting = waiting-kept (turn_runs chat_id generation_id) h turns keep_turn inbox s.waiting;
      named = end-IsNamed p f generations ends s.named;
      covered = end-IsCovered p f generations ends inbox inputs s.covered;
      answered = ans;
    }

-- Messages of a burst are completed, which adds no message to any input.
module _ (burst_id : String) (f : InboxRow → InboxRow)
    (keep : (r : InboxRow) → (f r).update_id ≡ r.update_id)
    (row : (r : InboxRow) → IsRow r → IsRow (f r))
    (input : (inputs : List InputRow) (g : GenerationRow) (r : InboxRow)
      → IsInput inputs g r
      → IsInput inputs g (f r)) where
  pub completed :
      (inbox : List InboxRow) (turns : List TurnRow) (generations : List GenerationRow)
      (inputs : List InputRow)
      → SoundOf inbox turns generations inputs
      → All (IsAnswered generations inputs) (complete_burst burst_id f inbox)
      → All (HasMessage (complete_burst burst_id f inbox)) turns
      → SoundOf (complete_burst burst_id f inbox) turns generations inputs
  completed inbox turns generations inputs s answered waiting = record {
    update_keys =
        Keyed-update_where same_update _ f inbox (λ r q. rw (keep r) refl) (λ r q. rw (keep q) refl)
          s.update_keys;
    turn_keys = s.turn_keys;
    generation_keys = s.generation_keys;
    linked = s.linked;
    rows = All-update_where _ f inbox (λ r hit x. row r x) (λ r miss x. x) s.rows;
    bursts = s.bursts;
    waiting = waiting;
    named = s.named;
    covered =
        All-map generations
          (λ g covered running.
            All-update_where _ f inbox (λ r hit x. input inputs g r x) (λ r miss x. x)
              (covered running))
          s.covered;
    answered = answered;
  }

-- Completing a burst leaves the other turns' messages waiting.
pub others_wait :
    (g : GenerationRow) (generation_id : String) (f : InboxRow → InboxRow) (h : TurnRow → TurnRow)
    (db : Db)
    → IsNamed g × IsLinked db.turns g
    → str_eq g.generation_id generation_id ≡ true
    → is_running g.status ≡ true
    → ((t : TurnRow) (b : String) → (h t).burst_id ≡ some b → ⊥)
    → Sound db
    → All
        (HasMessage (complete_burst g.burst_id f db.inbox))
        (update_where (turn_runs g.chat_id generation_id) h db.turns)
unfolding is_waiting
others_wait g generation_id f h db (name, link) own running released s =
    All-update_where (turn_runs g.chat_id generation_id) h db.turns
      (λ t hit x b e. absurd (released t b e))
      (λ t miss (found, message) b e.
        exists_where-keeps (is_waiting t.chat_id b) (λ r. equals r.burst_id g.burst_id) f db.inbox
          (All-map db.inbox (λ r x waits hit. absurd (apart t found miss b r x waits hit)) s.rows)
          (message b e))
      (All-both (λ t. first_where (turn_is t.chat_id) db.turns ≡ some t) (HasMessage db.inbox)
        db.turns
        (All-of_In (λ t. first_where (turn_is t.chat_id) db.turns ≡ some t) db.turns
          (λ t i. found_by_chat db.turns t s.turn_keys i))
        s.waiting)
  where
    apart :
        (t : TurnRow)
        → first_where (turn_is t.chat_id) db.turns ≡ some t
        → turn_runs g.chat_id generation_id t ≡ false
        → (b : String) (r : InboxRow) → IsRow r
        → is_waiting t.chat_id b r ≡ true
        → equals r.burst_id g.burst_id ≡ true
        → ⊥
    apart t found miss b r x waits hit =
        let (n, its, whose) = name running in
        let (full, (u, found', active)) = link running in
        let chat : r.chat_id ≡ t.chat_id = (eq_iff r.chat_id t.chat_id).0 (ground arith) in
        let same : some n ≡ some r.chat_id =
          sym its ∙ x.burst g.burst_id (equals-true r.burst_id g.burst_id hit) in
        let same_chat : n ≡ r.chat_id = cc same in
        elim whose [
          | inr colon ↦ cc (x.chat, subst (λ c. has_colon c ≡ true) same_chat colon)
          | inl here ↦
              let at_g : t.chat_id ≡ g.chat_id = sym chat ∙ sym same_chat ∙ here in
              let both : some u ≡ some t =
                sym (subst (λ c. first_where (turn_is c) db.turns ≡ some u) (sym at_g) found')
                ∙ found in
              let same_turn : u ≡ t = cc both in
              let runs : t.active_generation_id ≡ some g.generation_id =
                subst (λ z. z.active_generation_id ≡ some g.generation_id) same_turn active in
              let hit : turn_runs g.chat_id generation_id t ≡ true =
                rw (runs, (eq_iff t.chat_id g.chat_id).1 at_g) own in
              cc (miss, hit)
        ]
