-- ===== src/Onboarding/Rows.antt =====
-- The tables of tomo_core/src/tomo_core/onboarding_store.py (`_init_db`), the tests that its
-- statements make of a row, and the values that its operations return.
use tomo_v.Common.{
  ℕ, String, Bool, true, false, ◌&&◌, not, Option, none, some, List, ◌==◌, str_eq, is_empty,
}

pub data InboxStatus : Type 0 where
  pending processing completed : InboxStatus

pub data GenerationStatus : Type 0 where
  active superseded completed failed : GenerationStatus

pub data EventStatus : Type 0 where
  reserved sent unknown suppressed : EventStatus

pub data ReactionStatus : Type 0 where
  reserved sent failed suppressed : ReactionStatus

-- telegram_install_tokens, whose times are whole seconds
pub record TokenRow : Type 0 where
  pub token_hash : String
  pub user_id : String
  pub tomo_id : String
  pub expires_at : ℕ
  pub consumed_at : Option ℕ
  pub created_at : ℕ

-- telegram_installations, and `TelegramInstallation`
pub record InstallRow : Type 0 where
  pub chat_id : String
  pub user_id : String
  pub tomo_id : String
  pub actor_id : String
  pub installed_at : ℕ

-- telegram_inbox, and `TelegramInboxUpdate`
pub record InboxRow : Type 0 where
  pub update_id : ℕ
  pub chat_id : String
  pub payload : String
  pub status : InboxStatus
  pub attempts : ℕ
  pub available_at : ℕ
  pub error_code : Option String
  pub created_at : ℕ
  pub updated_at : ℕ
  pub update_kind : String
  pub message_id : Option String
  pub telegram_sent_at : Option ℕ
  pub burst_id : Option String
  pub tomo_id : String

-- telegram_chat_turns
pub record TurnRow : Type 0 where
  pub chat_id : String
  pub burst_id : Option String
  pub revision : ℕ
  pub quiet_until : ℕ
  pub active_generation_id : Option String
  pub updated_at : ℕ

-- telegram_generations
pub record GenerationRow : Type 0 where
  pub generation_id : String
  pub burst_id : String
  pub chat_id : String
  pub tomo_id : String
  pub revision : ℕ
  pub session_id : String
  pub status : GenerationStatus
  pub error_code : Option String
  pub cleanup_pending : Bool
  pub created_at : ℕ
  pub updated_at : ℕ

-- telegram_generation_inputs
pub record InputRow : Type 0 where
  pub generation_id : String
  pub update_id : ℕ
  pub ordinal : ℕ

-- telegram_delivery_events
pub record EventRow : Type 0 where
  pub generation_id : String
  pub sequence : ℕ
  pub segment_index : ℕ
  pub frame_index : ℕ
  pub move : Option String
  pub text : String
  pub reply_to_message_id : Option String
  pub status : EventStatus
  pub telegram_message_id : Option String
  pub created_at : ℕ
  pub updated_at : ℕ

-- telegram_reaction_deliveries
pub record ReactionRow : Type 0 where
  pub generation_id : String
  pub revision : ℕ
  pub target_message_id : String
  pub emoji : String
  pub status : ReactionStatus
  pub created_at : ℕ
  pub updated_at : ℕ

pub record Db : Type 0 where
  pub tokens : List TokenRow
  pub installs : List InstallRow
  pub inbox : List InboxRow
  pub turns : List TurnRow
  pub generations : List GenerationRow
  pub inputs : List InputRow
  pub events : List EventRow
  pub reactions : List ReactionRow

-- What the operations raise: ValueError of the arguments, and SQLite's IntegrityError.
pub data StoreError : Type 0 where
  blank_text blank_move blank_reaction bad_limit integrity : StoreError

-- a column that may be null, compared with a text
abbrev pub equals : Option String → String → Bool
equals none t = false
equals (some s) t = str_eq s t

abbrev pub is_none {ℓ} : {A : Type ℓ} → Option A → Bool
is_none none = true
is_none (some a) = false

-- Python's truth of a text or None
abbrev pub truthy : Option String → Bool
truthy none = false
truthy (some s) = not (is_empty s)

abbrev pub is_running : GenerationStatus → Bool
is_running GenerationStatus.active = true
is_running _ = false

abbrev pub is_superseded : GenerationStatus → Bool
is_superseded GenerationStatus.superseded = true
is_superseded _ = false

abbrev pub is_done : GenerationStatus → Bool
is_done GenerationStatus.completed = true
is_done _ = false

abbrev pub is_pending : InboxStatus → Bool
is_pending InboxStatus.pending = true
is_pending _ = false

abbrev pub is_processing : InboxStatus → Bool
is_processing InboxStatus.processing = true
is_processing _ = false

abbrev pub is_completed : InboxStatus → Bool
is_completed InboxStatus.completed = true
is_completed _ = false

abbrev pub is_reserved : EventStatus → Bool
is_reserved EventStatus.reserved = true
is_reserved _ = false

-- status in ('sent', 'unknown')
abbrev pub is_visible : EventStatus → Bool
is_visible EventStatus.sent = true
is_visible EventStatus.unknown = true
is_visible _ = false

abbrev pub reaction_reserved : ReactionStatus → Bool
reaction_reserved ReactionStatus.reserved = true
reaction_reserved _ = false

abbrev pub is_message : InboxRow → Bool
is_message r = str_eq r.update_kind "message"

abbrev pub is_control : InboxRow → Bool
is_control r = str_eq r.update_kind "control"

abbrev pub turn_is : String → TurnRow → Bool
turn_is chat_id t = str_eq t.chat_id chat_id

abbrev pub update_is : ℕ → InboxRow → Bool
update_is update_id r = r.update_id == update_id

abbrev pub generation_is : String → GenerationRow → Bool
generation_is generation_id g = str_eq g.generation_id generation_id

-- generation_id = ? and status = 'active'
abbrev pub running_is : String → GenerationRow → Bool
running_is generation_id g = str_eq g.generation_id generation_id && is_running g.status

-- generation_id = ? and revision = ? and status = 'active'
abbrev pub current_is : String → ℕ → GenerationRow → Bool
current_is generation_id revision g =
    str_eq g.generation_id generation_id && g.revision == revision && is_running g.status

-- chat_id = ? and active_generation_id = ?
abbrev pub turn_runs : String → String → TurnRow → Bool
turn_runs chat_id generation_id t =
    str_eq t.chat_id chat_id && equals t.active_generation_id generation_id

-- `EnqueueResult`
pub record EnqueueResult : Type 0 where
  pub enqueued : Bool
  pub burst_id : Option String
  pub revision : Option ℕ
  pub superseded_generation_id : Option String
  pub superseded_session_id : Option String

-- `AutomationGenerationReservation`, and `InterruptedGeneration`, which has the same fields
pub record InterruptedGeneration : Type 0 where
  pub generation_id : String
  pub chat_id : String
  pub tomo_id : String
  pub revision : ℕ
  pub session_id : String

-- `TelegramGenerationInput`
pub record GenerationInput : Type 0 where
  pub update_id : ℕ
  pub ordinal : ℕ
  pub payload : String
  pub message_id : Option String
  pub telegram_sent_at : Option ℕ

-- `TelegramGenerationWork`
pub record GenerationWork : Type 0 where
  pub generation_id : String
  pub burst_id : String
  pub chat_id : String
  pub tomo_id : String
  pub revision : ℕ
  pub session_id : String
  pub inputs : List GenerationInput
  pub visible_assistant_utterances : List String
  pub accepted_generation_ids : List String
  pub eligible_at : ℕ
  pub claimed_at : ℕ
