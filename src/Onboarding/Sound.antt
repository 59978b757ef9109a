-- ===== src/Onboarding/Sound.antt =====
-- What holds of the tables of tomo_core/src/tomo_core/onboarding_store.py between two calls.
pub mod Parts
pub mod Control
pub mod Ends
pub mod Completing
pub mod Failing
pub mod Starts
pub mod Claims
pub mod Arrivals
pub mod Enqueue
use tomo_v.Common.{
  ℕ, String, Bool, true, false, ◌&&◌, not, Option, none, some, List, ◌≡◌, ◌⊎◌, ◌==◌, str_eq, All,
  Keyed, exists_where,
}
use tomo_v.Onboarding.Ids.Chats.{chat_of, has_colon}
use tomo_v.Onboarding.Rows.{
  Db, InboxRow, TurnRow, GenerationRow, InputRow, equals, is_none, is_running, is_done, is_message,
  is_completed, is_processing,
}
use tomo_v.Onboarding.Store.Claim.{is_waiting}
use tomo_v.Onboarding.Laws.Linked.{Linked}

abbrev pub same_generation : GenerationRow → GenerationRow → Bool
same_generation g h = str_eq g.generation_id h.generation_id

abbrev pub same_turn : TurnRow → TurnRow → Bool
same_turn t u = str_eq t.chat_id u.chat_id

abbrev pub same_update : InboxRow → InboxRow → Bool
same_update r s = r.update_id == s.update_id

abbrev pub input_is : String → ℕ → InputRow → Bool
input_is generation_id update_id i =
    str_eq i.generation_id generation_id && i.update_id == update_id

-- An update belongs to a chat, and only messages belong to a burst, which is of their chat; messages
-- do not go through the queue of control updates.
pub record IsRow (r : InboxRow) : Type 0 where
  pub chat : has_colon r.chat_id ≡ false
  pub burst : (b : String) → r.burst_id ≡ some b → chat_of b ≡ some r.chat_id
  pub message : (b : String) → r.burst_id ≡ some b → is_message r ≡ true
  pub queue : is_message r ≡ true → is_processing r.status ≡ false

-- A burst that a turn is in is of its chat.
abbrev pub HasBurst : TurnRow → Type 0
HasBurst t = (b : String) → t.burst_id ≡ some b → chat_of b ≡ some t.chat_id

-- A burst that a turn is in has a message that is not answered.
abbrev pub HasMessage : List InboxRow → TurnRow → Type 0
HasMessage inbox t =
    (b : String) → t.burst_id ≡ some b → exists_where (is_waiting t.chat_id b) inbox ≡ true

-- The burst of an active generation is of its chat, or of no chat.
abbrev pub IsNamed : GenerationRow → Type 0
IsNamed g =
    is_running g.status ≡ true
    → (named : String) × (chat_of g.burst_id ≡ some named)
      × ((named ≡ g.chat_id) ⊎ (has_colon named ≡ true))

-- A message of the generation's burst that is not answered is among its inputs.
abbrev pub IsInput : List InputRow → GenerationRow → InboxRow → Type 0
IsInput inputs g r =
    equals r.burst_id g.burst_id ≡ true
    → is_completed r.status ≡ false
    → exists_where (input_is g.generation_id r.update_id) inputs ≡ true

abbrev pub IsCovered : List InboxRow → List InputRow → GenerationRow → Type 0
IsCovered inbox inputs g = is_running g.status ≡ true → All (IsInput inputs g) inbox

-- a completed generation that had the update among its inputs
abbrev pub answers : List InputRow → ℕ → GenerationRow → Bool
answers inputs update_id g =
    is_done g.status && exists_where (input_is g.generation_id update_id) inputs

-- A message that is completed was an input of a completed generation, or was given up with an error.
abbrev pub IsAnswered : List GenerationRow → List InputRow → InboxRow → Type 0
IsAnswered generations inputs r =
    is_message r ≡ true
    → is_completed r.status ≡ true
    → (is_none r.error_code ≡ false)
      ⊎ (exists_where (answers inputs r.update_id) generations ≡ true)

-- The tables that belong together.
pub record SoundOf (inbox : List InboxRow) (turns : List TurnRow) (generations : List GenerationRow)
    (inputs : List InputRow) : Type 0 where
  pub update_keys : Keyed same_update inbox
  pub turn_keys : Keyed same_turn turns
  pub generation_keys : Keyed same_generation generations
  pub linked : Linked generations turns
  pub rows : All IsRow inbox
  pub bursts : All HasBurst turns
  pub waiting : All (HasMessage inbox) turns
  pub named : All IsNamed generations
  pub covered : All (IsCovered inbox inputs) generations
  pub answered : All (IsAnswered generations inputs) inbox

abbrev pub Sound : Db → Type 0
Sound db = SoundOf db.inbox db.turns db.generations db.inputs
