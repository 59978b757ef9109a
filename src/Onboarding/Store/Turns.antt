-- ===== src/Onboarding/Store/Turns.antt =====
-- The turns of the chats: how messages are taken in, and how a scheduled turn is reserved
-- (tomo_core/src/tomo_core/onboarding_store.py).
use tomo_v.Common.{
  ℕ, ◌+◌, max, String, Bool, true, false, ◌&&◌, ◌||◌, Option, none, some, List, [], ◌∷◌, ◌++◌,
  if◌then◌else◌, str_eq, Result, ok, err, ◌>>=◌, first_where, exists_where, update_where,
}
use tomo_v.Onboarding.Ids.{burst_of, automation_of, session_of}
use tomo_v.Onboarding.Rows.{
  Db, InboxRow, InboxStatus, TurnRow, GenerationRow, GenerationStatus, StoreError, integrity,
  EnqueueResult, InterruptedGeneration, is_none, truthy, is_running, turn_is, update_is, running_is,
}

-- What a Telegram update brings. `debounce` is the store's `input_debounce_seconds`.
pub record Arrival : Type 0 where
  pub update_id : ℕ
  pub chat_id : String
  pub payload : String
  pub update_kind : String
  pub message_id : Option String
  pub telegram_sent_at : Option ℕ
  pub tomo_id : String

abbrev pub row_of_arrival : Arrival → ℕ → InboxRow
row_of_arrival a now = record {
  update_id = a.update_id;
  chat_id = a.chat_id;
  payload = a.payload;
  status = InboxStatus.pending;
  attempts = 0;
  available_at = now;
  error_code = none;
  created_at = now;
  updated_at = now;
  update_kind = a.update_kind;
  message_id = a.message_id;
  telegram_sent_at = a.telegram_sent_at;
  burst_id = none;
  tomo_id = a.tomo_id;
}

-- coalesce(max(revision), 0) of a chat's generations
unfoldable pub max_revision : String → List GenerationRow → ℕ
max_revision chat_id [] = 0
max_revision chat_id (g ∷ gs) =
    let rest = max_revision chat_id gs in
    if str_eq g.chat_id chat_id then max g.revision rest else rest

abbrev pub revision_of : Option TurnRow → ℕ
revision_of none = 0
revision_of (some t) = t.revision

-- INSERT … ON CONFLICT(chat_id) DO UPDATE
unfoldable pub upsert_turn : TurnRow → (TurnRow → TurnRow) → List TurnRow → List TurnRow
upsert_turn t f turns =
    if exists_where (turn_is t.chat_id) turns
    then update_where (turn_is t.chat_id) f turns
    else turns ++ t ∷ []

-- status = 'superseded', cleanup_pending = 1
abbrev pub supersede : ℕ → GenerationRow → GenerationRow
supersede now g = record g {
  status = GenerationStatus.superseded;
  cleanup_pending = true;
  updated_at = now;
}

abbrev pub active_of : Option TurnRow → Option String
active_of none = none
active_of (some t) = if truthy t.active_generation_id then t.active_generation_id else none

-- the turn's active generation is superseded
unfoldable pub supersede_active : Option String → ℕ → List GenerationRow → List GenerationRow
supersede_active none now gs = gs
supersede_active (some generation_id) now gs =
    update_where (running_is generation_id) (supersede now) gs

abbrev session_id : Option GenerationRow → Option String
session_id none = none
session_id (some g) = some g.session_id

superseded_session : Option String → List GenerationRow → Option String
superseded_session none gs = none
superseded_session (some generation_id) gs = session_id (first_where (running_is generation_id) gs)

-- the burst that is going on, if there is one
abbrev pub open_burst : Option TurnRow → Option String
open_burst none = none
open_burst (some t) = t.burst_id

abbrev pub new_turn : String → Option String → ℕ → ℕ → Option String → ℕ → TurnRow
new_turn chat_id burst_id revision quiet_until active now = record {
  chat_id = chat_id;
  burst_id = burst_id;
  revision = revision;
  quiet_until = quiet_until;
  active_generation_id = active;
  updated_at = now;
}

-- the burst and the revision that a message belongs to, and the turns with it
unfoldable pub place_message :
    Option String
    → Option TurnRow
    → Arrival
    → ℕ
    → ℕ
    → List GenerationRow
    → List TurnRow
    → String × ℕ × List TurnRow
unfolding upsert_turn max_revision
place_message none turn a debounce now gs turns =
    let burst_id = burst_of a.chat_id a.update_id in
    let revision = max (max_revision a.chat_id gs) (revision_of turn) + 1 in
    (
      burst_id,
      revision,
      upsert_turn (new_turn a.chat_id (some burst_id) revision (now + debounce) none now)
          (λ t. record t {
            burst_id = some burst_id;
            revision = revision;
            quiet_until = now + debounce;
            active_generation_id = none;
            updated_at = now;
          })
          turns,
    )
place_message (some burst_id) turn a debounce now gs turns =
    let revision = revision_of turn + 1 in
    (
      burst_id,
      revision,
      update_where (turn_is a.chat_id)
          (λ t. record t {
            revision = revision;
            quiet_until = now + debounce;
            active_generation_id = none;
            updated_at = now;
          })
          turns,
    )

-- A message supersedes what the chat's generation is about to say. (The source supersedes it a second
-- time where a burst is going on, but only if it was not superseded before, which it always was.)
unfoldable pub enqueue_message :
    Option TurnRow → Arrival → ℕ → ℕ → List InboxRow → Db → EnqueueResult × Db
unfolding supersede_active superseded_session place_message
enqueue_message turn a debounce now inbox db =
    let active = active_of turn in
    let generations = supersede_active active now db.generations in
    let placed = place_message (open_burst turn) turn a debounce now generations db.turns in
    (
      record {
        enqueued = true;
        burst_id = some placed.0;
        revision = some placed.1;
        superseded_generation_id = active;
        superseded_session_id = superseded_session active db.generations;
      },
      record db {
        inbox =
            update_where (update_is a.update_id) (λ r. record r { burst_id = some placed.0 }) inbox;
        turns = placed.2;
        generations = generations;
      },
    )

abbrev pub only_enqueued : Bool → EnqueueResult
only_enqueued enqueued = record {
  enqueued = enqueued;
  burst_id = none;
  revision = none;
  superseded_generation_id = none;
  superseded_session_id = none;
}

-- `enqueue_update`
unfoldable pub enqueue_update : Arrival → ℕ → ℕ → Db → EnqueueResult × Db
unfolding enqueue_message
enqueue_update a debounce now db =
    let inbox = db.inbox ++ row_of_arrival a now ∷ [] in
    if exists_where (update_is a.update_id) db.inbox
    then (only_enqueued false, db)
    else if str_eq a.update_kind "message"
    then enqueue_message (first_where (turn_is a.chat_id) db.turns) a debounce now inbox db
    else (only_enqueued true, record db { inbox = inbox })

-- the primary key, and telegram_one_active_generation_per_chat
unfoldable pub generation_clashes : GenerationRow → GenerationRow → Bool
generation_clashes g h =
    str_eq h.generation_id g.generation_id
    || (is_running h.status && is_running g.status && str_eq h.chat_id g.chat_id)

abbrev pub new_generation : String → String → String → String → ℕ → String → ℕ → GenerationRow
new_generation generation_id burst_id chat_id tomo_id revision session now = record {
  generation_id = generation_id;
  burst_id = burst_id;
  chat_id = chat_id;
  tomo_id = tomo_id;
  revision = revision;
  session_id = session;
  status = GenerationStatus.active;
  error_code = none;
  cleanup_pending = false;
  created_at = now;
  updated_at = now;
}

-- INSERT INTO telegram_generations
unfoldable pub insert_generation :
    GenerationRow → List GenerationRow → Result StoreError (List GenerationRow)
unfolding generation_clashes
insert_generation g gs =
    if exists_where (generation_clashes g) gs then err integrity else ok (gs ++ g ∷ [])

abbrev pub is_free : Option TurnRow → Bool
is_free none = true
is_free (some t) = is_none t.burst_id && is_none t.active_generation_id

-- `reserve_automation_generation`
unfoldable pub reserve_automation_generation :
    (String → String)
    → String
    → String
    → String
    → ℕ
    → Db
    → Result StoreError (Option InterruptedGeneration × Db)
unfolding upsert_turn insert_generation max_revision
reserve_automation_generation sha256 chat_id tomo_id run_id now db =
    let turn = first_where (turn_is chat_id) db.turns in
    let revision = max (max_revision chat_id db.generations) (revision_of turn) + 1 in
    let generation_id = automation_of run_id revision in
    let session = session_of sha256 generation_id in
    let reserved : Result StoreError (Option InterruptedGeneration × Db) = do
      generations ←
          insert_generation
            (new_generation generation_id generation_id chat_id tomo_id revision session now)
            db.generations
      ok (
        some (record {
          generation_id = generation_id;
          chat_id = chat_id;
          tomo_id = tomo_id;
          revision = revision;
          session_id = session;
        }),
        record db {
          generations = generations;
          turns =
              upsert_turn (new_turn chat_id none revision now (some generation_id) now)
                (λ t. record t {
                  burst_id = none;
                  revision = revision;
                  active_generation_id = some generation_id;
                  updated_at = now;
                })
                db.turns;
        },
      )
    in if is_free turn then reserved else ok (none, db)
