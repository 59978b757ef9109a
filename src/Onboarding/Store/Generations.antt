-- ===== src/Onboarding/Store/Generations.antt =====
-- How generations end, and what is recovered after a restart
-- (tomo_core/src/tomo_core/onboarding_store.py).
use tomo_v.Common.{
  ℕ, zero, suc, ◌+◌, ◌-◌, ◌*◌, ◌^◌, max, min, String, Bool, true, false, ◌&&◌, ◌||◌, Option, none,
  some, List, [], ◌∷◌, map, ltb, leb, ◌==◌, if◌then◌else◌, str_eq, Result, ok, err, first_where,
  exists_where, update_where, select_where, count_where, sort_by,
}
use tomo_v.Onboarding.Ids.{Unicode, safe_error_code}
use tomo_v.Onboarding.Rows.{
  Db, InboxRow, InboxStatus, GenerationRow, GenerationStatus, EventStatus, StoreError, bad_limit,
  InterruptedGeneration, equals, is_running, is_superseded, is_reserved, generation_is, running_is,
  current_is, turn_runs,
}
use tomo_v.Onboarding.Store.Turns.{supersede}

-- a second, where a time is in microseconds
abbrev pub second : ℕ
second = 1000000

-- `is_generation_active`
unfoldable pub is_generation_active : String → ℕ → Db → Bool
is_generation_active generation_id revision db =
    exists_where (current_is generation_id revision) db.generations

-- UPDATE telegram_inbox … WHERE burst_id = ?
abbrev pub complete_burst : String → (InboxRow → InboxRow) → List InboxRow → List InboxRow
complete_burst burst_id f inbox = update_where (λ r. equals r.burst_id burst_id) f inbox

abbrev pub complete_row : ℕ → InboxRow → InboxRow
complete_row now r = record r { status = InboxStatus.completed; updated_at = now }

unfoldable pub complete_found : Option GenerationRow → String → ℕ → Db → Bool × Db
complete_found none generation_id now db = (false, db)
complete_found (some g) generation_id now db = (
  true,
  record db {
    generations =
        update_where (generation_is generation_id)
          (λ h. record h { status = GenerationStatus.completed; updated_at = now }) db.generations;
    inbox = complete_burst g.burst_id (complete_row now) db.inbox;
    turns =
        update_where (turn_runs g.chat_id generation_id)
          (λ t. record t { burst_id = none; active_generation_id = none; updated_at = now })
          db.turns;
  },
)

-- `complete_generation`
unfoldable pub complete_generation : String → ℕ → ℕ → Db → Bool × Db
unfolding complete_found
complete_generation generation_id revision now db =
    complete_found (first_where (current_is generation_id revision) db.generations) generation_id
      now db

-- max_attempts is not None and attempt_count >= max_attempts
abbrev pub is_spent : Option ℕ → ℕ → Bool
is_spent none attempts = false
is_spent (some max_attempts) attempts = leb max_attempts attempts

-- one second after the first attempt, then twice as long each time, up to a minute
unfoldable pub retry_time : Option ℕ → ℕ → ℕ → ℕ
retry_time none attempts now = now
retry_time (some max_attempts) attempts now = now + min 60 (2 ^ (attempts - 1)) * second

abbrev pub or_zero : Option ℕ → ℕ
or_zero none = 0
or_zero (some n) = n

abbrev pub fail_row : String → ℕ → GenerationRow → GenerationRow
fail_row error now g = record g {
  status = GenerationStatus.failed;
  error_code = some error;
  updated_at = now;
}

-- the burst is given up
unfoldable pub give_up : GenerationRow → String → String → ℕ → Db → Db
give_up g generation_id error now db = record db {
  inbox =
      complete_burst g.burst_id
        (λ r. record r {
          status = InboxStatus.completed;
          error_code = some error;
          updated_at = now;
        })
        db.inbox;
  turns =
      update_where (turn_runs g.chat_id generation_id)
        (λ t. record t {
          burst_id = none;
          active_generation_id = none;
          quiet_until = now;
          updated_at = now;
        })
        db.turns;
}

-- the burst waits for another attempt
unfoldable pub try_again : GenerationRow → String → ℕ → ℕ → ℕ → Db → Db
try_again g generation_id next retry_at now db = record db {
  turns =
      update_where (turn_runs g.chat_id generation_id)
        (λ t. record t {
          revision = max (t.revision + 1) next;
          active_generation_id = none;
          quiet_until = retry_at;
          updated_at = now;
        })
        db.turns;
}

unfoldable pub fail_found :
    Option GenerationRow → String → String → ℕ → Option ℕ → Option ℕ → Db → Bool × Db
unfolding give_up try_again retry_time
fail_found none generation_id error now max_attempts next db = (false, db)
fail_found (some g) generation_id error now max_attempts next db =
    let failed = record db {
      generations = update_where (running_is generation_id) (fail_row error now) db.generations;
    } in
    let attempts = count_where (λ h. str_eq h.burst_id g.burst_id) failed.generations in
    (
      true,
      if is_spent max_attempts attempts
          then give_up g generation_id error now failed
          else try_again g generation_id (or_zero next) (retry_time max_attempts attempts now) now
              failed,
    )

-- `fail_generation`; that `minimum_next_revision` is not negative is its type
unfoldable pub fail_generation :
    Unicode → String → String → ℕ → Option ℕ → Option ℕ → Db → Bool × Db
unfolding fail_found
fail_generation unicode generation_id error_code now max_attempts minimum_next_revision db =
    fail_found (first_where (running_is generation_id) db.generations) generation_id
      (safe_error_code unicode error_code) now max_attempts minimum_next_revision db

abbrev pub interrupted_of : GenerationRow → InterruptedGeneration
interrupted_of g = record {
  generation_id = g.generation_id;
  chat_id = g.chat_id;
  tomo_id = g.tomo_id;
  revision = g.revision;
  session_id = g.session_id;
}

-- what a row that is still active gives up when the program starts again
unfoldable pub recover_row : ℕ → GenerationRow → Db → Db
recover_row now g db = record db {
  events =
      update_where (λ e. str_eq e.generation_id g.generation_id && is_reserved e.status)
        (λ e. record e { status = EventStatus.unknown; updated_at = now }) db.events;
  generations = update_where (running_is g.generation_id) (supersede now) db.generations;
  turns =
      update_where (turn_runs g.chat_id g.generation_id)
        (λ t. record t {
          revision = t.revision + 1;
          active_generation_id = none;
          quiet_until = now;
          updated_at = now;
        })
        db.turns;
}

unfoldable pub recover_rows : ℕ → List GenerationRow → Db → Db
unfolding recover_row
recover_rows now [] db = db
recover_rows now (g ∷ gs) db =
    recover_rows now gs (if is_running g.status then recover_row now g db else db)

-- status = 'active' or (status = 'superseded' and cleanup_pending = 1)
unfoldable pub is_interrupted : GenerationRow → Bool
is_interrupted g = is_running g.status || (is_superseded g.status && g.cleanup_pending)

abbrev pub created_before : GenerationRow → GenerationRow → Bool
created_before g h = ltb g.created_at h.created_at

-- `recover_interrupted_generations`
unfoldable pub recover_interrupted_generations : ℕ → Db → List InterruptedGeneration × Db
unfolding recover_rows is_interrupted
recover_interrupted_generations now db =
    let rows = sort_by created_before (select_where is_interrupted db.generations) in
    (map interrupted_of rows, recover_rows now rows db)

abbrev pub needs_cleanup : String → GenerationRow → Bool
needs_cleanup generation_id g = str_eq g.generation_id generation_id && g.cleanup_pending

-- `complete_generation_cleanup`
unfoldable pub complete_generation_cleanup : String → Db → Bool × Db
complete_generation_cleanup generation_id db = (
  count_where (needs_cleanup generation_id) db.generations == 1,
  record db {
    generations =
        update_where (needs_cleanup generation_id) (λ g. record g { cleanup_pending = false })
          db.generations;
  },
)

-- LIMIT n
unfoldable pub limit_rows : ℕ → List GenerationRow → List GenerationRow
limit_rows zero gs = []
limit_rows (suc n) [] = []
limit_rows (suc n) (g ∷ gs) = g ∷ limit_rows n gs

-- `pending_generation_cleanups`
unfoldable pub pending_generation_cleanups : ℕ → Db → Result StoreError (List InterruptedGeneration)
unfolding limit_rows
pending_generation_cleanups limit db =
    if ltb limit 1
    then err bad_limit
    else ok (
        map interrupted_of (
          limit_rows limit (
            sort_by created_before
              (select_where (λ g. is_superseded g.status && g.cleanup_pending) db.generations))))
