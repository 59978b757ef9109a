-- ===== src/Onboarding/Store/Deliveries.antt =====
-- What a generation sends: its texts and its reactions are reserved, and then settled once
-- (tomo_core/src/tomo_core/onboarding_store.py).
use mathlib.Core.Option
use tomo_v.Common.{
  ℕ, String, Bool, true, false, ◌&&◌, ◌||◌, not, Option, none, some, [], ◌∷◌, ◌++◌, ◌==◌,
  if◌then◌else◌, str_eq, is_empty, strip, Result, ok, ◌>>◌, guard, first_where, exists_where,
  update_where, count_where,
}
use tomo_v.Onboarding.Rows.{
  Db, EventRow, EventStatus, ReactionRow, ReactionStatus, StoreError, blank_text, blank_move,
  blank_reaction, is_reserved, reaction_reserved, current_is,
}

abbrev pub event_is : String → ℕ → EventRow → Bool
event_is generation_id sequence e = str_eq e.generation_id generation_id && e.sequence == sequence

abbrev pub blank : String → Bool
blank s = is_empty (strip s)

abbrev pub move_ok : Option String → Bool
move_ok none = true
move_ok (some move) = not (blank move)

-- where a text stands in the answer, and what it is
pub record Piece : Type 0 where
  pub sequence : ℕ
  pub segment_index : ℕ
  pub frame_index : ℕ
  pub text : String
  pub reply_to_message_id : Option String
  pub legacy_move : Option String

abbrev pub row_of_piece : String → Piece → ℕ → EventRow
row_of_piece generation_id p now = record {
  generation_id = generation_id;
  sequence = p.sequence;
  segment_index = p.segment_index;
  frame_index = p.frame_index;
  move = p.legacy_move;
  text = p.text;
  reply_to_message_id = p.reply_to_message_id;
  status = EventStatus.reserved;
  telegram_message_id = none;
  created_at = now;
  updated_at = now;
}

-- INSERT OR IGNORE, and whether it inserted
unfoldable pub insert_event : EventRow → Db → Bool × Db
insert_event e db =
    if exists_where (event_is e.generation_id e.sequence) db.events
    then (false, db)
    else (true, record db { events = db.events ++ e ∷ [] })

unfoldable pub reserve_text : String → ℕ → Piece → ℕ → Db → Bool × Db
unfolding insert_event
reserve_text generation_id revision p now db =
    if exists_where (current_is generation_id revision) db.generations
    then insert_event (row_of_piece generation_id p now) db
    else (false, db)

-- `reserve_delivery`; that the coordinates are not negative is their type
unfoldable pub reserve_delivery : String → ℕ → Piece → ℕ → Db → Result StoreError (Bool × Db)
unfolding reserve_text
reserve_delivery generation_id revision p now db = do
  guard (not (blank p.text)) blank_text
  guard (move_ok p.legacy_move) blank_move
  ok (reserve_text generation_id revision p now db)

-- UPDATE telegram_delivery_events … WHERE … status = 'reserved', and its rowcount
unfoldable pub settle_event : String → ℕ → (EventRow → EventRow) → Db → Bool × Db
settle_event generation_id sequence f db =
    let test = λ (e : EventRow). event_is generation_id sequence e && is_reserved e.status in
    (count_where test db.events == 1, record db { events = update_where test f db.events })

-- `mark_delivery_sent`
unfoldable pub mark_delivery_sent : String → ℕ → String → ℕ → Db → Bool × Db
unfolding settle_event
mark_delivery_sent generation_id sequence telegram_message_id now =
    settle_event generation_id sequence (λ e. record e {
      status = EventStatus.sent;
      telegram_message_id = some telegram_message_id;
      updated_at = now;
    })

-- `mark_delivery_unknown`
unfoldable pub mark_delivery_unknown : String → ℕ → ℕ → Db → Bool × Db
unfolding settle_event
mark_delivery_unknown generation_id sequence now =
    settle_event generation_id sequence
      (λ e. record e { status = EventStatus.unknown; updated_at = now })

-- `mark_delivery_suppressed`
unfoldable pub mark_delivery_suppressed : String → ℕ → ℕ → Db → Bool × Db
unfolding settle_event
mark_delivery_suppressed generation_id sequence now =
    settle_event generation_id sequence
      (λ e. record e { status = EventStatus.suppressed; updated_at = now })

-- `delivery_status`
unfoldable pub delivery_status : String → ℕ → Db → Option EventStatus
delivery_status generation_id sequence db =
    Option.map (λ e. e.status) (first_where (event_is generation_id sequence) db.events)

abbrev pub reaction_is : String → ℕ → String → ReactionRow → Bool
reaction_is generation_id revision target r =
    str_eq r.generation_id generation_id
    && r.revision == revision
    && str_eq r.target_message_id target

unfoldable pub add_reaction : String → ℕ → String → String → ℕ → Db → Bool × Db
add_reaction generation_id revision target emoji now db =
    if not (exists_where (current_is generation_id revision) db.generations)
      || exists_where (reaction_is generation_id revision target) db.reactions
    then (false, db)
    else (
      true,
      record db {
        reactions =
            db.reactions
            ++ record {
              generation_id = generation_id;
              revision = revision;
              target_message_id = target;
              emoji = emoji;
              status = ReactionStatus.reserved;
              created_at = now;
              updated_at = now;
            }
              ∷ [];
      },
    )

abbrev pub reaction_ok : String → String → Bool
reaction_ok target emoji = not (is_empty target) && not (is_empty emoji)

-- `reserve_reaction`
unfoldable pub reserve_reaction :
    String → ℕ → String → String → ℕ → Db → Result StoreError (Bool × Db)
unfolding add_reaction
reserve_reaction generation_id revision target emoji now db = do
  guard (reaction_ok target emoji) blank_reaction
  ok (add_reaction generation_id revision target emoji now db)

-- `_mark_reaction`
unfoldable pub mark_reaction : ReactionStatus → String → ℕ → String → ℕ → Db → Bool × Db
mark_reaction status generation_id revision target now db =
    let test = λ (r : ReactionRow).
      reaction_is generation_id revision target r && reaction_reserved r.status in
    (
      count_where test db.reactions == 1,
      record db {
        reactions =
            update_where test (λ r. record r { status = status; updated_at = now }) db.reactions;
      },
    )

-- `mark_reaction_sent`, `mark_reaction_failed`, `mark_reaction_suppressed`
unfoldable pub mark_reaction_sent : String → ℕ → String → ℕ → Db → Bool × Db
unfolding mark_reaction
mark_reaction_sent = mark_reaction ReactionStatus.sent

unfoldable pub mark_reaction_failed : String → ℕ → String → ℕ → Db → Bool × Db
unfolding mark_reaction
mark_reaction_failed = mark_reaction ReactionStatus.failed

unfoldable pub mark_reaction_suppressed : String → ℕ → String → ℕ → Db → Bool × Db
unfolding mark_reaction
mark_reaction_suppressed = mark_reaction ReactionStatus.suppressed
