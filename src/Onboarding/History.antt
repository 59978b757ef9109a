-- ===== src/Onboarding/History.antt =====
-- The store of tomo_core/src/tomo_core/onboarding_store.py as a state machine: a step is one call of
-- it, by the router, its workers or the senders, in any order. The deletion of an owner is not a
-- step here, since it removes rows that others refer to.
pub mod Invariant
pub mod Consistency
pub mod Moves
pub mod Settled
pub mod Once
pub mod Silent
pub mod Floor
use tomo_v.Common.{ℕ, String, Bool, Option, [], ◌≡◌, false, Result, ok}
use tomo_v.Onboarding.Ids.{Unicode}
use tomo_v.Onboarding.Ids.Chats.{has_colon}
use tomo_v.Onboarding.Rows.{Db, ReactionStatus, GenerationWork, InterruptedGeneration}
use tomo_v.Onboarding.Store.Tokens.{InstallLink, create_install_link, consume_start_token}
use tomo_v.Onboarding.Store.Turns.{Arrival, enqueue_update, reserve_automation_generation}
use tomo_v.Onboarding.Store.Claim.{claim_next_work}
use tomo_v.Onboarding.Store.Generations.{
  complete_generation, fail_generation, recover_interrupted_generations,
  complete_generation_cleanup,
}
use tomo_v.Onboarding.Store.Deliveries.{
  Piece, reserve_delivery, mark_delivery_sent, mark_delivery_unknown, mark_delivery_suppressed,
  reserve_reaction, mark_reaction_sent, mark_reaction_failed, mark_reaction_suppressed,
}
use tomo_v.Onboarding.Store.Control.{
  claim_next_update, complete_update, retry_update, reset_interrupted_updates,
}

-- One call, from the tables before it to the tables after it. A call that raises is rolled back.
-- Telegram's ids of chats are numbers.
pub data Step : Db → Db → Type 0 where
  links :
      (unicode : Unicode) (sha256 : String → String) (token user_id bot_username : String)
      (ttl_seconds now : ℕ) (db : Db) (answer : InstallLink × Db)
      → create_install_link unicode sha256 token user_id bot_username ttl_seconds now db ≡ ok answer
      → Step db answer.1
  installs :
      (sha256 : String → String) (token chat_id actor_id : String) (now : ℕ) (db : Db)
      → Step db (consume_start_token sha256 token chat_id actor_id now db).1
  enqueues :
      (a : Arrival) (debounce now : ℕ) (db : Db)
      → has_colon a.chat_id ≡ false
      → Step db (enqueue_update a debounce now db).1
  reserves :
      (sha256 : String → String) (chat_id tomo_id run_id : String) (now : ℕ) (db : Db)
      (answer : Option InterruptedGeneration × Db)
      → reserve_automation_generation sha256 chat_id tomo_id run_id now db ≡ ok answer
      → Step db answer.1
  claims :
      (sha256 : String → String) (now : ℕ) (db : Db) (answer : Option GenerationWork × Db)
      → claim_next_work sha256 now db ≡ ok answer
      → Step db answer.1
  completes :
      (generation_id : String) (revision now : ℕ) (db : Db)
      → Step db (complete_generation generation_id revision now db).1
  fails :
      (unicode : Unicode) (generation_id error_code : String) (now : ℕ)
      (max_attempts next : Option ℕ) (db : Db)
      → Step db (fail_generation unicode generation_id error_code now max_attempts next db).1
  recovers : (now : ℕ) (db : Db) → Step db (recover_interrupted_generations now db).1
  cleans :
      (generation_id : String) (db : Db) → Step db (complete_generation_cleanup generation_id db).1
  reserves_text :
      (generation_id : String) (revision : ℕ) (p : Piece) (now : ℕ) (db : Db) (answer : Bool × Db)
      → reserve_delivery generation_id revision p now db ≡ ok answer
      → Step db answer.1
  sends_text :
      (generation_id : String) (sequence : ℕ) (message_id : String) (now : ℕ) (db : Db)
      → Step db (mark_delivery_sent generation_id sequence message_id now db).1
  loses_text :
      (generation_id : String) (sequence now : ℕ) (db : Db)
      → Step db (mark_delivery_unknown generation_id sequence now db).1
  drops_text :
      (generation_id : String) (sequence now : ℕ) (db : Db)
      → Step db (mark_delivery_suppressed generation_id sequence now db).1
  reserves_reaction :
      (generation_id : String) (revision : ℕ) (target emoji : String) (now : ℕ) (db : Db)
      (answer : Bool × Db)
      → reserve_reaction generation_id revision target emoji now db ≡ ok answer
      → Step db answer.1
  sends_reaction :
      (generation_id : String) (revision : ℕ) (target : String) (now : ℕ) (db : Db)
      → Step db (mark_reaction_sent generation_id revision target now db).1
  fails_reaction :
      (generation_id : String) (revision : ℕ) (target : String) (now : ℕ) (db : Db)
      → Step db (mark_reaction_failed generation_id revision target now db).1
  drops_reaction :
      (generation_id : String) (revision : ℕ) (target : String) (now : ℕ) (db : Db)
      → Step db (mark_reaction_suppressed generation_id revision target now db).1
  starts_update : (now : ℕ) (db : Db) → Step db (claim_next_update now db).1
  ends_update : (update_id now : ℕ) (db : Db) → Step db (complete_update update_id now db)
  retries_update :
      (unicode : Unicode) (update_id : ℕ) (error_code : String) (now : ℕ) (db : Db)
      → Step db (retry_update unicode update_id error_code now db)
  resets_updates : (now : ℕ) (db : Db) → Step db (reset_interrupted_updates now db).1

abbrev pub empty_db : Db
empty_db = record {
  tokens = [];
  installs = [];
  inbox = [];
  turns = [];
  generations = [];
  inputs = [];
  events = [];
  reactions = [];
}

-- what some calls make of the empty tables
pub data Reached : Db → Type 0 where
  created : Reached empty_db
  called : {a b : Db} → Reached a → Step a b → Reached b

-- what further calls make of some tables
pub data History : Db → Db → Type 0 where
  start : (db : Db) → History db db
  call : {a b c : Db} → Step a b → History b c → History a c
