-- ===== src/Onboarding/Kept/Parts.antt =====
-- How the statements of tomo_core/src/tomo_core/onboarding_store.py keep unanswered messages in the
-- bursts of their chats.
use mathlib.Core.Path.{subst}
use tomo_v.Common.{
  String, Bool, true, false, some, List, [], ◌∷◌, ◌++◌, ◌≡◌, sym, ◌∙◌, arith, str_eq, eq_iff,
  eq_refl, All, All-map, All-both, All-append, All-update_where, update_where, Bool-cases, inl, inr,
}
use tomo_v.Onboarding.Rows.{
  InboxRow, TurnRow, GenerationRow, is_message, is_completed, is_running, equals, turn_is,
  turn_runs,
}
use tomo_v.Onboarding.Store.Generations.{complete_burst}
use tomo_v.Onboarding.Sound.Parts.{Releases}
use tomo_v.Onboarding.Kept.{burst_at, IsPlaced, Matches, KeptOf}
use tomo_v.Onboarding.Kept.Turns.{update-burst_at, released-burst_at}

-- Statements that leave each chat in its burst
module _ (turns turns' : List TurnRow)
    (same : (d : String) → burst_at d turns' ≡ burst_at d turns) where
  IsPlaced-same : (r : InboxRow) → IsPlaced turns r → IsPlaced turns' r
  IsPlaced-same r placed message waiting =
      let (b, its, here) = placed message waiting in (b, its, same r.chat_id ∙ here)

  Matches-same : (g : GenerationRow) → Matches turns g → Matches turns' g
  Matches-same g matched running b here = matched running b (sym (same g.chat_id) ∙ here)

  pub same_bursts :
      (inbox : List InboxRow) (generations : List GenerationRow)
      → KeptOf inbox turns generations
      → KeptOf inbox turns' generations
  same_bursts inbox generations k = record {
    placed = All-map inbox IsPlaced-same k.placed;
    matched = All-map generations Matches-same k.matched;
  }

-- a generation that starts
pub start-Kept :
    (g : GenerationRow) (inbox : List InboxRow) (turns : List TurnRow)
    (generations : List GenerationRow)
    → Matches turns g
    → KeptOf inbox turns generations
    → KeptOf inbox turns (generations ++ g ∷ [])
start-Kept g inbox turns generations own k = record {
  placed = k.placed;
  matched = All-append (Matches turns) generations (g ∷ []) k.matched (own, tt);
}

-- a statement on generations
pub generations-Kept :
    (p : GenerationRow → Bool) (f : GenerationRow → GenerationRow) (inbox : List InboxRow)
    (turns : List TurnRow) (generations : List GenerationRow)
    → ((g : GenerationRow) → Matches turns g → Matches turns (f g))
    → KeptOf inbox turns generations
    → KeptOf inbox turns (update_where p f generations)
generations-Kept p f inbox turns generations keep k = record {
  placed = k.placed;
  matched = All-update_where p f generations (λ g hit x. keep g x) (λ g miss x. x) k.matched;
}

-- a statement on updates that are no messages
pub control-Kept :
    (p : InboxRow → Bool) (f : InboxRow → InboxRow) (inbox : List InboxRow) (turns : List TurnRow)
    (generations : List GenerationRow)
    → ((r : InboxRow) → (f r).update_kind ≡ r.update_kind)
    → All (λ r. p r ≡ true → is_message r ≡ false) inbox
    → KeptOf inbox turns generations
    → KeptOf (update_where p f inbox) turns generations
control-Kept p f inbox turns generations kind others k = record {
  placed =
      All-update_where p f inbox
        (λ r hit (other, x) message. absurd (cc (other hit, rw (kind r) at message)))
        (λ r miss (other, x). x)
        (All-both (λ r. p r ≡ true → is_message r ≡ false) (IsPlaced turns) inbox others k.placed);
  matched = k.matched;
}

-- A turn leaves its burst when the messages of the burst are answered.
module _ (g : GenerationRow) (generation_id : String) (f : InboxRow → InboxRow)
    (h : TurnRow → TurnRow) (done : (r : InboxRow) → is_completed (f r).status ≡ true)
    (keep : Releases h) (turns : List TurnRow) (running : is_running g.status ≡ true)
    (own : Matches turns g) where
  -- a message of another burst is in another chat
  other_chat :
      (r : InboxRow) (b : String)
      → r.burst_id ≡ some b
      → burst_at r.chat_id turns ≡ some b
      → equals r.burst_id g.burst_id ≡ false
      → str_eq r.chat_id g.chat_id ≡ false
  other_chat r b its here miss = elim (Bool-cases (str_eq r.chat_id g.chat_id)) [
    | inr e ↦ e
    | inl e ↦
        let at_g : burst_at g.chat_id turns ≡ some b =
          subst (λ c. burst_at c turns ≡ some b) ((eq_iff r.chat_id g.chat_id).0 e) here in
        let same : b ≡ g.burst_id = own running b at_g in
        let hit : equals r.burst_id g.burst_id ≡ true = rw (its, same) (eq_refl g.burst_id) in
        absurd (cc (miss, hit))
  ]

  left_alone :
      (d : String)
      → str_eq d g.chat_id ≡ false
      → burst_at d (update_where (turn_runs g.chat_id generation_id) h turns) ≡ burst_at d turns
  left_alone d ne =
      update-burst_at d (turn_runs g.chat_id generation_id) h turns (λ t. (keep t).0)
        (λ t hit here. absurd (elsewhere t d ne hit here))
    where
      elsewhere :
          (t : TurnRow) (d : String)
          → str_eq d g.chat_id ≡ false
          → turn_runs g.chat_id generation_id t ≡ true
          → turn_is d t ≡ true
          → ⊥
      elsewhere t d ne hit here =
          ground (arith, eq_iff t.chat_id d, eq_iff t.chat_id g.chat_id, eq_iff d g.chat_id)

  pub finish-Kept :
      (inbox : List InboxRow) (generations : List GenerationRow)
      → KeptOf inbox turns generations
      → KeptOf
          (complete_burst g.burst_id f inbox)
          (update_where (turn_runs g.chat_id generation_id) h turns)
          generations
  finish-Kept inbox generations k = record {
    placed =
        All-update_where _ f inbox (λ r hit x message waiting. absurd (cc (done r, waiting)))
          (λ r miss x message waiting.
            let (b, its, here) = x message waiting in
            (b, its, left_alone r.chat_id (other_chat r b its here miss) ∙ here))
          k.placed;
    matched =
        All-map generations
          (λ x matched running b here.
            matched running b
              (released-burst_at x.chat_id b (turn_runs g.chat_id generation_id) h turns keep here))
          k.matched;
  }
