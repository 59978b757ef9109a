-- ===== src/Onboarding/Store/Claim.antt =====
-- `claim_next_work`: the next burst that is quiet becomes a generation
-- (tomo_core/src/tomo_core/onboarding_store.py).
use Prim.Native.Nat.{Ordering}
use Prim.Native.String.{compare}
use tomo_v.Common.{
  ℕ, suc, ◌+◌, String, Bool, true, false, ◌&&◌, ◌||◌, not, Option, none, some, List, [], ◌∷◌, ◌++◌,
  map, ltb, leb, ◌==◌, if◌then◌else◌, str_eq, Result, ok, ◌>>=◌, exists_where, update_where,
  select_where, count_where, sort_by, least_by,
}
use tomo_v.Onboarding.Ids.{generation_of, session_of}
use tomo_v.Onboarding.Rows.{
  Db, InboxRow, TurnRow, GenerationRow, InputRow, EventRow, StoreError, GenerationInput,
  GenerationWork, equals, is_none, is_message, is_completed, is_done, is_visible, turn_is,
}
use tomo_v.Onboarding.Store.Turns.{new_generation, insert_generation}

abbrev text_before : String → String → Bool
text_before s t = elim (compare s t) [ Ordering.lt ↦ true | _ ↦ false ]

-- a burst that nobody answers yet and that has been quiet for long enough
unfoldable pub is_due : ℕ → TurnRow → Bool
is_due now t = not (is_none t.burst_id) && is_none t.active_generation_id && leb t.quiet_until now

-- ORDER BY quiet_until, chat_id
unfoldable pub turn_before : TurnRow → TurnRow → Bool
turn_before t u =
    ltb t.quiet_until u.quiet_until
    || (t.quiet_until == u.quiet_until && text_before t.chat_id u.chat_id)

-- the messages of a burst that are not answered yet
unfoldable pub is_waiting : String → String → InboxRow → Bool
is_waiting chat_id burst_id r =
    str_eq r.chat_id chat_id
    && equals r.burst_id burst_id
    && is_message r
    && not (is_completed r.status)

unfoldable pub update_before : InboxRow → InboxRow → Bool
update_before r s = ltb r.update_id s.update_id

unfoldable pub waiting_rows : String → String → List InboxRow → List InboxRow
unfolding is_waiting update_before
waiting_rows chat_id burst_id inbox =
    sort_by update_before (select_where (is_waiting chat_id burst_id) inbox)

abbrev same_input : InputRow → InputRow → Bool
same_input i j = str_eq j.generation_id i.generation_id && j.update_id == i.update_id

-- INSERT OR IGNORE
unfoldable pub insert_input : InputRow → List InputRow → List InputRow
insert_input i inputs = if exists_where (same_input i) inputs then inputs else inputs ++ i ∷ []

-- the rows, numbered from `ordinal` on
unfoldable pub number_inputs : ℕ → List InboxRow → List GenerationInput
number_inputs ordinal [] = []
number_inputs ordinal (r ∷ rs) =
    record {
      update_id = r.update_id;
      ordinal = ordinal;
      payload = r.payload;
      message_id = r.message_id;
      telegram_sent_at = r.telegram_sent_at;
    }
    ∷ number_inputs (suc ordinal) rs

unfoldable pub insert_inputs : String → ℕ → List InboxRow → List InputRow → List InputRow
unfolding insert_input
insert_inputs generation_id ordinal [] inputs = inputs
insert_inputs generation_id ordinal (r ∷ rs) inputs = insert_inputs generation_id (suc ordinal) rs (
    insert_input
      (record { generation_id = generation_id; update_id = r.update_id; ordinal = ordinal }) inputs)

abbrev pub last_tomo : List InboxRow → String
last_tomo [] = ""
last_tomo (r ∷ []) = r.tomo_id
last_tomo (r ∷ s ∷ rs) = last_tomo (s ∷ rs)

-- an event that its generation made visible, with what it is sorted by
record Shown : Type 0 where
  created_at : ℕ
  sequence : ℕ
  text : String

abbrev shown_before : Shown → Shown → Bool
shown_before a b =
    ltb a.created_at b.created_at || (a.created_at == b.created_at && ltb a.sequence b.sequence)

shown_of : (GenerationRow → Bool) → EventRow → List GenerationRow → List Shown
shown_of test e [] = []
shown_of test e (g ∷ gs) =
    let rest = shown_of test e gs in
    if str_eq g.generation_id e.generation_id && test g
    then record { created_at = g.created_at; sequence = e.sequence; text = e.text } ∷ rest
    else rest

shown_events : (GenerationRow → Bool) → List EventRow → List GenerationRow → List Shown
unfolding shown_of
shown_events test [] gs = []
shown_events test (e ∷ es) gs =
    let rest = shown_events test es gs in
    if is_visible e.status then shown_of test e gs ++ rest else rest

-- what the user has seen of the burst's answers so far
unfoldable pub visible_texts : String → Db → List String
unfolding shown_events
visible_texts burst_id db =
    map (λ s. s.text)
      (sort_by shown_before
        (shown_events (λ g. str_eq g.burst_id burst_id) db.events db.generations))

-- dict.fromkeys: the first of equal texts
dedupe : List String → List String → List String
dedupe seen [] = []
dedupe seen (s ∷ ss) =
    let old = dedupe seen ss in
    let new = dedupe (s ∷ seen) ss in if exists_where (str_eq s) seen then old else s ∷ new

unfoldable pub accepted_ids : String → Db → List String
unfolding dedupe
accepted_ids chat_id db = dedupe [] (
    map (λ g. g.generation_id)
      (sort_by (λ g h. ltb g.created_at h.created_at)
        (select_where (λ g. str_eq g.chat_id chat_id && is_done g.status) db.generations)))

-- the generation of a turn's burst over its rows
unfoldable pub generation_for :
    (String → String) → TurnRow → String → List InboxRow → ℕ → List GenerationRow → GenerationRow
generation_for sha256 t burst_id rows now generations =
    let attempt =
      count_where (λ g. str_eq g.burst_id burst_id && g.revision == t.revision) generations + 1 in
    let generation_id = generation_of burst_id t.revision attempt in
    new_generation generation_id burst_id t.chat_id (last_tomo rows) t.revision
      (session_of sha256 generation_id) now

abbrev pub name_active : String → ℕ → TurnRow → TurnRow
name_active generation_id now t = record t {
  active_generation_id = some generation_id;
  updated_at = now;
}

-- the tables with the generation, its inputs, and the turn that names it
unfoldable pub claimed_tables :
    TurnRow → GenerationRow → List InboxRow → ℕ → List GenerationRow → Db → Db
unfolding insert_inputs
claimed_tables t g rows now generations db = record db {
  generations = generations;
  inputs = insert_inputs g.generation_id 1 rows db.inputs;
  turns = update_where (turn_is t.chat_id) (name_active g.generation_id now) db.turns;
}

-- `TelegramGenerationWork`
unfoldable pub work_of : TurnRow → GenerationRow → List InboxRow → ℕ → Db → GenerationWork
unfolding number_inputs visible_texts accepted_ids
work_of t g rows now claimed = record {
  generation_id = g.generation_id;
  burst_id = g.burst_id;
  chat_id = t.chat_id;
  tomo_id = g.tomo_id;
  revision = t.revision;
  session_id = g.session_id;
  inputs = number_inputs 1 rows;
  visible_assistant_utterances = visible_texts g.burst_id claimed;
  accepted_generation_ids = accepted_ids t.chat_id claimed;
  eligible_at = t.quiet_until;
  claimed_at = now;
}

unfoldable pub claim_rows :
    (String → String)
    → TurnRow
    → String
    → List InboxRow
    → ℕ
    → Db
    → Result StoreError (Option GenerationWork × Db)
unfolding insert_generation generation_for claimed_tables work_of
claim_rows sha256 t burst_id [] now db = ok (none, db)
claim_rows sha256 t burst_id (row ∷ rows) now db =
    let g = generation_for sha256 t burst_id (row ∷ rows) now db.generations in
    do
      generations ← insert_generation g db.generations
      let claimed = claimed_tables t g (row ∷ rows) now generations db
      ok (some (work_of t g (row ∷ rows) now claimed), claimed)

unfoldable pub claim_turn :
    (String → String) → Option TurnRow → ℕ → Db → Result StoreError (Option GenerationWork × Db)
unfolding claim_rows waiting_rows
claim_turn sha256 none now db = ok (none, db)
claim_turn sha256 (some t) now db = elim t.burst_id [
  | none ↦ ok (none, db)
  | some burst_id ↦ claim_rows sha256 t burst_id (waiting_rows t.chat_id burst_id db.inbox) now db
]

-- `claim_next_work`
unfoldable pub claim_next_work :
    (String → String) → ℕ → Db → Result StoreError (Option GenerationWork × Db)
unfolding claim_turn is_due turn_before
claim_next_work sha256 now db =
    claim_turn sha256 (least_by turn_before (select_where (is_due now) db.turns)) now db
