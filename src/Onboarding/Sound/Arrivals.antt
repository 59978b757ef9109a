-- ===== src/Onboarding/Sound/Arrivals.antt =====
-- Taking an update in keeps the tables sound, and silences the chat
-- (tomo_core/src/tomo_core/onboarding_store.py).
use mathlib.Core.Path.{subst}
use tomo_v.Common.{
  ℕ, ◌+◌, max, String, true, false, Option, none, some, List, ◌≡◌, refl, sym, ◌∙◌, ap, str_eq,
  eq_iff, All, All-map, All-update_where, Keyed, All-In, first_where, exists_where, first_where-In,
  first_where-hit, Bool-cases, Option-cases, inl, inr,
}
use tomo_v.Onboarding.Ids.{burst_of}
use tomo_v.Onboarding.Ids.Chats.{chat_of, chat_of-burst_of}
use tomo_v.Onboarding.Rows.{InboxRow, TurnRow, GenerationRow, is_running, turn_is, running_is}
use tomo_v.Onboarding.Store.Turns.{
  Arrival, active_of, open_burst, supersede, supersede_active, place_message, new_turn,
  max_revision, revision_of,
}
use tomo_v.Onboarding.Store.Claim.{is_waiting}
use tomo_v.Onboarding.Laws.Linked.{IsLinked, Linked, other_turn, upsert_other}
use tomo_v.Onboarding.Sound.{HasBurst, HasMessage, same_turn}
use tomo_v.Onboarding.Sound.Parts.{same_turn-kept, bursts-kept, waiting-kept}
use tomo_v.Onboarding.Sound.Claims.{upsert-same_turn, upsert-All}

-- The chat's turn names the generation that is active in it.
names_active :
    (chat_id : String) (turns : List TurnRow) (g : GenerationRow)
    → IsLinked turns g
    → is_running g.status ≡ true
    → str_eq g.chat_id chat_id ≡ true
    → active_of (first_where (turn_is chat_id) turns) ≡ some g.generation_id
names_active chat_id turns g linked running chat =
    let (full, (t, found, active)) = linked running in
    let same : g.chat_id ≡ chat_id = (eq_iff g.chat_id chat_id).0 chat in
    let here = subst (λ c. first_where (turn_is c) turns ≡ some t) same found in
    rw here (rw active (rw full refl))

-- a generation that is not active in the chat
abbrev pub Elsewhere : String → GenerationRow → Type 0
Elsewhere chat_id g = is_running g.status ≡ true → str_eq g.chat_id chat_id ≡ false

silence :
    (active : Option String) (chat_id : String) (now : ℕ) (generations : List GenerationRow)
    → All
        (λ g.
          is_running g.status ≡ true
          → str_eq g.chat_id chat_id ≡ true
          → active ≡ some g.generation_id)
        generations
    → All (Elsewhere chat_id) (supersede_active active now generations)
unfolding supersede_active
silence none chat_id now generations named =
    All-map generations
      (λ g name running. elim (Bool-cases (str_eq g.chat_id chat_id)) [
        | inl e ↦ absurd (cc (name running e))
        | inr e ↦ e
      ])
      named
silence (some generation_id) chat_id now generations named =
    All-update_where (running_is generation_id) (supersede now) generations
      (λ g hit name running. absurd (cc running))
      (λ g miss name running. elim (Bool-cases (str_eq g.chat_id chat_id)) [
        | inl e ↦
            let same : generation_id ≡ g.generation_id = cc (name running e) in
            absurd (cc (rw (running, (eq_iff g.generation_id generation_id).1 (sym same)) at miss))
        | inr e ↦ e
      ])
      named

-- Once a message is taken in, no generation is active in its chat.
pub silenced :
    (chat_id : String) (now : ℕ) (generations : List GenerationRow) (turns : List TurnRow)
    → Linked generations turns
    → All
        (Elsewhere chat_id)
        (supersede_active (active_of (first_where (turn_is chat_id) turns)) now generations)
silenced chat_id now generations turns linked =
    silence (active_of (first_where (turn_is chat_id) turns)) chat_id now generations
      (All-map generations (λ g l. names_active chat_id turns g l) linked)

-- What a statement that ends generations keeps, it keeps where nothing is superseded too.
pub supersede_All :
    (P : GenerationRow → Type 0) (active : Option String) (now : ℕ)
    (generations : List GenerationRow)
    → ((g : GenerationRow) → P (supersede now g))
    → All P generations
    → All P (supersede_active active now generations)
unfolding supersede_active
supersede_All P none now generations ends all = all
supersede_All P (some generation_id) now generations ends all =
    All-update_where (running_is generation_id) (supersede now) generations (λ g hit x. ends g)
      (λ g miss x. x) all

-- What `place_message` makes of the turns.
pub record Placed (chat_id : String) (turns : List TurnRow) (placed : String × ℕ × List TurnRow)
    : Type 0 where
  pub burst : chat_of (placed.0) ≡ some chat_id
  pub keys : Keyed same_turn (placed.2)
  pub bursts : All HasBurst (placed.2)
  pub waiting :
      (inbox : List InboxRow)
      → All (HasMessage inbox) turns
      → exists_where (is_waiting chat_id placed.0) inbox ≡ true
      → All (HasMessage inbox) (placed.2)
  pub others :
      (d : String) (t : TurnRow)
      → str_eq d chat_id ≡ false
      → first_where (turn_is d) turns ≡ some t
      → first_where (turn_is d) (placed.2) ≡ some t

pub place-Placed :
    (o : Option String) (turn : Option TurnRow) (a : Arrival) (debounce now : ℕ)
    (generations : List GenerationRow) (turns : List TurnRow)
    → ((b : String) → o ≡ some b → chat_of b ≡ some a.chat_id)
    → Keyed same_turn turns
    → All HasBurst turns
    → Placed a.chat_id turns (place_message o turn a debounce now generations turns)
unfolding place_message
place-Placed none turn a debounce now generations turns going keys bursts =
    let burst_id = burst_of a.chat_id a.update_id in
    let revision = max (max_revision a.chat_id generations) (revision_of turn) + 1 in
    let own = chat_of-burst_of a.chat_id a.update_id in
    let new = new_turn a.chat_id (some burst_id) revision (now + debounce) none now in
    let write = λ (t : TurnRow). record t {
      burst_id = some burst_id;
      revision = revision;
      quiet_until = now + debounce;
      active_generation_id = none;
      updated_at = now;
    } in
    record {
      burst = own;
      keys = upsert-same_turn new write turns (λ t. refl) keys;
      bursts =
          upsert-All HasBurst new write turns (λ b e. own_burst a.chat_id burst_id b own e)
            (λ t hit b e.
              own_burst t.chat_id burst_id b
                (own ∙ ap some (sym ((eq_iff t.chat_id a.chat_id).0 hit))) e)
            bursts;
      waiting = λ inbox all here.
          upsert-All (HasMessage inbox) new write turns
            (λ b e. own_message inbox a.chat_id burst_id b here e)
            (λ t hit b e.
              own_message inbox t.chat_id burst_id b
                (subst (λ c. exists_where (is_waiting c burst_id) inbox ≡ true)
                  (sym ((eq_iff t.chat_id a.chat_id).0 hit)) here)
                e)
            all;
      others = λ d t ne found. upsert_other new write (λ t. refl) turns d t ne found;
    }
  where
    own_burst :
        (chat_id burst_id b : String)
        → chat_of burst_id ≡ some chat_id
        → some burst_id ≡ some b
        → chat_of b ≡ some chat_id
    own_burst chat_id burst_id b own e =
        let same : burst_id ≡ b = cc e in subst (λ x. chat_of x ≡ some chat_id) same own

    own_message :
        (inbox : List InboxRow) (chat_id burst_id b : String)
        → exists_where (is_waiting chat_id burst_id) inbox ≡ true
        → some burst_id ≡ some b
        → exists_where (is_waiting chat_id b) inbox ≡ true
    own_message inbox chat_id burst_id b here e =
        let same : burst_id ≡ b = cc e in
        subst (λ x. exists_where (is_waiting chat_id x) inbox ≡ true) same here
place-Placed (some burst_id) turn a debounce now generations turns going keys bursts = record {
  burst = going burst_id refl;
  keys = same_turn-kept (turn_is a.chat_id) _ turns (λ t. refl) keys;
  bursts = bursts-kept (turn_is a.chat_id) _ turns (λ t. (refl, inl refl)) bursts;
  waiting =
      λ inbox all here. waiting-kept (turn_is a.chat_id) _ turns (λ t. (refl, inl refl)) inbox all;
  others = λ d t ne found. other_turn a.chat_id d _ turns t (λ t. refl) ne found;
}

pub going_burst :
    (chat_id : String) (turns : List TurnRow) (b : String)
    → All HasBurst turns
    → open_burst (first_where (turn_is chat_id) turns) ≡ some b
    → chat_of b ≡ some chat_id
going_burst chat_id turns b bursts h = elim (Option-cases (first_where (turn_is chat_id) turns)) [
  | inl e ↦ absurd (cc (rw e at h))
  | inr (t, e) ↦
      let own =
        All-In HasBurst turns t (first_where-In (turn_is chat_id) turns t e) bursts b (rw e at h) in
      let same = (eq_iff t.chat_id chat_id).0 (first_where-hit (turn_is chat_id) turns t e) in
      own ∙ ap some same
]
