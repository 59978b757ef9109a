-- ===== src/Onboarding/Named.antt =====
-- A turn that names a generation names an active one, in the tables of
-- tomo_core/src/tomo_core/onboarding_store.py.
pub mod Parts
pub mod Calls
pub mod Starts
use tomo_v.Common.{String, true, Option, some, List, ◌≡◌, All, In}
use tomo_v.Onboarding.Rows.{Db, TurnRow, GenerationRow, is_running}

-- The generation that a turn names is active, in the chat of the turn.
abbrev pub Names : List GenerationRow → TurnRow → Type 0
Names generations t =
    (id : String)
    → t.active_generation_id ≡ some id
    → (g : GenerationRow) × In g generations
      × (is_running g.status ≡ true)
      × (g.generation_id ≡ id)
      × (g.chat_id ≡ t.chat_id)

abbrev pub NamedOf : List TurnRow → List GenerationRow → Type 0
NamedOf turns generations = All (Names generations) turns

abbrev pub Named : Db → Type 0
Named db = NamedOf db.turns db.generations
