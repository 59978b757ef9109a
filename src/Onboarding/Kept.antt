-- ===== src/Onboarding/Kept.antt =====
-- Which burst an unanswered message is in, in the tables of
-- tomo_core/src/tomo_core/onboarding_store.py.
pub mod Turns
pub mod Parts
pub mod Calls
pub mod Starts
use tomo_v.Common.{String, true, false, Option, some, List, ◌≡◌, All, first_where}
use tomo_v.Onboarding.Rows.{
  Db, InboxRow, TurnRow, GenerationRow, is_message, is_completed, is_running, turn_is,
}
use tomo_v.Onboarding.Store.Turns.{open_burst}
use tomo_v.Onboarding.Sound.{Sound}
use tomo_v.Onboarding.Named.{Named}

-- the burst that the turn of a chat is in
abbrev pub burst_at : String → List TurnRow → Option String
burst_at chat_id turns = open_burst (first_where (turn_is chat_id) turns)

-- A message that is not answered is in the burst that the turn of its chat is in.
abbrev pub IsPlaced : List TurnRow → InboxRow → Type 0
IsPlaced turns r =
    is_message r ≡ true
    → is_completed r.status ≡ false
    → (b : String) × (r.burst_id ≡ some b) × (burst_at r.chat_id turns ≡ some b)

-- An active generation answers the burst that the turn of its chat is in, if it is in one.
abbrev pub Matches : List TurnRow → GenerationRow → Type 0
Matches turns g =
    is_running g.status ≡ true → (b : String) → burst_at g.chat_id turns ≡ some b → b ≡ g.burst_id

pub record KeptOf (inbox : List InboxRow) (turns : List TurnRow) (generations : List GenerationRow)
    : Type 0 where
  pub placed : All (IsPlaced turns) inbox
  pub matched : All (Matches turns) generations

abbrev pub Kept : Db → Type 0
Kept db = KeptOf db.inbox db.turns db.generations

-- what calls keep of the tables
abbrev pub Consistent : Db → Type 0
Consistent db = Sound db × Kept db × Named db
