-- ===== src/Cron/Tests.antt =====
-- Small ledgers, and the theorems of the cron modules at them.
use tomo_v.Common.{
  ℕ, zero, suc, ◌+◌, ◌-◌, ◌*◌, ◌/◌, ◌%◌, String, Bool, true, false, Option, none, some, List, [],
  ◌∷◌, ◌≡◌, refl, ◌≤◌, ◌<◌, arith, All, Result, ok, err, str_eq, update_where, first_where,
  exists_where,
}
use tomo_v.Cron.Errors.{CronError, idempotency_conflict, integrity, now_before_since}
use tomo_v.Cron.Fields.{CronFields, cron_fields, codes, field_values, contains}
use tomo_v.Cron.Fields.Values.{field_values-InField}
use tomo_v.Cron.Schedule.{
  Zones, LocalTime, minute, ScheduleSpec, Kind, interval, next_cron, next_interval,
  catch_up_interval, catch_up, next_occurrence,
}
use tomo_v.Cron.Schedule.Interval.{grid, IsLatest, next_interval_least, catch_up_interval-IsLatest}
use tomo_v.Cron.Schedule.Search.{
  Occurs, IsFirstAfter, IsLatestOf, next_cron-IsFirstAfter, cron_schedule, catch_up_cron-IsLatest,
}
use tomo_v.Cron.Rows.{
  is_terminal, find_job, Db, JobRow, RunRow, DeliveryRow, CronJob, JobStatus, RunStatus,
  DeliveryStatus, RunOutcome, Trigger, token_is, any_sending,
}
use tomo_v.Cron.Store.Jobs.{row_of_job, pause_job}
use tomo_v.Cron.Store.Runs.{succeed}
use tomo_v.Cron.Store.Mutations.{mutate_idempotently}
use tomo_v.Cron.Store.Claim.{claim_due_run}
use tomo_v.Cron.Moves.Finish.{numbered}
use tomo_v.Cron.Ledger.{pauses, delivers, start, call}
use tomo_v.Cron.Ledger.Settled.{Stays, History-Stays}
use tomo_v.Cron.Laws.Changes.{Change, pausing, change, NoStaleRun, change-once}
use tomo_v.Cron.Laws.Redaction.{Erased, redact-Erased}
use tomo_v.Cron.Store.Parts.{redact_terminal_if_ready, any_open}
use tomo_v.Cron.Laws.Replay.{mutate-replays}
use tomo_v.Cron.Store.Deliveries.{complete_delivery}

-- days of 24 hours in months of 31
abbrev utc : Zones
utc zone t = record {
  minute = t / minute % 60;
  hour = t / (60 * minute) % 24;
  day = t / (1440 * minute) % 31 + 1;
  month = t / (44640 * minute) % 12 + 1;
  weekday = t / (1440 * minute) % 7;
  fold = 0;
}

abbrev hourly : ScheduleSpec
hourly = record { kind = interval (60 * minute); timezone_name = "UTC"; starts_at = some minute }

abbrev water : CronJob
water = record {
  job_id = "job";
  owner_id = "owner";
  destination = "telegram:1";
  intent = "Drink water";
  constraints = [];
  schedule = hourly;
  ends_at = none;
  max_successful_runs = none;
  status = JobStatus.active;
  revision = 1;
}

abbrev water_run : RunRow
water_run = record {
  run_id = "run";
  job_id = "job";
  scheduled_for = minute;
  trigger = Trigger.schedule;
  revision = 1;
  status = RunStatus.executing;
  attempts = 0;
  available_at = minute;
  lease_until = some (2 * minute);
  lease_token = some "token";
  outcome = none;
  output = none;
  error = none;
  created_at = minute;
  updated_at = minute;
}

abbrev old_frame : DeliveryRow
old_frame = record {
  delivery_id = "old";
  run_id = "earlier";
  sequence = 0;
  attempts = 1;
  status = DeliveryStatus.sending;
  available_at = some 0;
  lease_until = some (2 * minute);
  lease_token = some "sender";
  created_at = 0;
  updated_at = 0;
  output = some "Drink";
  error = none;
  destination = some "telegram:1";
  job_revision = 1;
  receipt_id = none;
}

abbrev ledger : Db
ledger = record {
  jobs = row_of_job water 0 ∷ [];
  runs = water_run ∷ [];
  deliveries = old_frame ∷ [];
  events = [];
  receipts = [];
}

abbrev frames : List String
frames = "Drink water" ∷ "Please" ∷ []

abbrev draw : ℕ → String
draw zero = "first"
draw (suc n) = "second"

abbrev completed : Db
completed = record ledger {
  runs = succeed frames RunOutcome.succeeded minute water_run ∷ [];
  deliveries = old_frame ∷ numbered draw water_run (row_of_job water 0) minute 0 frames;
  jobs = record (row_of_job water 0) { successful_runs = 1; updated_at = minute } ∷ [];
}

abbrev delivered : Db
delivered = (complete_delivery "old" "sender" (some "receipt") minute 0 ledger).1

History-Stays_example : Stays ledger (pause_job "owner" "job" 1 minute delivered).1
unfolding complete_delivery first_where token_is update_where
History-Stays_example = History-Stays ledger (pause_job "owner" "job" 1 minute delivered).1 (
    call ((tt, tt), (tt, tt)) (delivers "old" "sender" (some "receipt") minute 0 ledger)
      (call ((tt, tt), (tt, tt)) (pauses "owner" "job" 1 minute delivered)
        (start (pause_job "owner" "job" 1 minute delivered).1)))

abbrev paused : Db
paused = (change pausing "owner" "job" 1 minute delivered).1

pauses_job : change pausing "owner" "job" 1 minute delivered ≡ (true, paused)
unfolding pause_job complete_delivery exists_where first_where token_is any_sending update_where
pauses_job = refl

change-once_example :
    All (NoStaleRun "job" 2) paused.runs
    × ((other : Change) (other_owner : String) (later : ℕ)
        → change other other_owner "job" 1 later paused ≡ (false, paused))
unfolding complete_delivery first_where token_is update_where pause_job exists_where any_sending
change-once_example =
    change-once pausing "owner" "job" 1 minute delivered paused (tt, tt) pauses_job

-- a digest for the tests: the text itself
abbrev digest : String → String
digest s = s

abbrev mutation : Result CronError ((Option CronJob × Bool) × Db)
mutation =
    mutate_idempotently digest "owner" "pause" "key" "body" none (some "job") (some 1) "run2" minute
      delivered

abbrev tables_of : Result CronError ((Option CronJob × Bool) × Db) → Db
tables_of (ok answer) = answer.1
tables_of (err e) = ledger

abbrev paused_water : CronJob
paused_water = record water { status = JobStatus.paused; revision = 2 }

mutates_job : mutation ≡ ok ((some paused_water, false), tables_of mutation)
unfolding mutate_idempotently first_where complete_delivery token_is pause_job exists_where
    any_sending update_where
mutates_job = refl

mutate-replays_example :
    (mutate_idempotently digest "owner" "pause" "key" "body" none
        (some "job")
        (some 1)
        "run3"
        (2 * minute)
        (tables_of mutation)
      ≡ ok ((some paused_water, true), tables_of mutation))
    × (str_eq "body" "other" ≡ false
        → mutate_idempotently digest "owner" "pause" "key" "other" none
            (some "job")
            (some 1)
            "run3"
            (2 * minute)
            (tables_of mutation)
          ≡ err idempotency_conflict)
mutate-replays_example =
    mutate-replays digest "owner" "pause" "key" "body" none (some "job") (some 1) "run2" minute
      delivered (tables_of mutation) paused_water mutates_job "other" none (some "job") (some 1)
      "run3" (2 * minute)

abbrev half_hours : CronFields
half_hours = record {
  minute = 0 ∷ 30 ∷ [];
  hour = 9 ∷ [];
  day = 1 ∷ 2 ∷ [];
  month = 1 ∷ [];
  weekday = 0 ∷ 1 ∷ [];
  day_is_wildcard = false;
  weekday_is_wildcard = false;
}

reads_expression : cron_fields "*/30 9 1-2 1 0,1" ≡ ok half_hours
unfolding cron_fields
reads_expression = refl

-- nine o'clock on the first day, in microseconds
abbrev nine : ℕ
nine = 540 * minute

next_cron-IsFirstAfter_example : IsFirstAfter utc half_hours "UTC" (nine - minute) nine
unfolding next_cron cron_fields tomo_v.Cron.Schedule.search_minutes
    tomo_v.Cron.Schedule.search_bound tomo_v.Cron.Schedule.matches contains
next_cron-IsFirstAfter_example =
    next_cron-IsFirstAfter utc "*/30 9 1-2 1 0,1" "UTC" (nine - minute) nine half_hours
      reads_expression refl

catch_up_cron-IsLatest_example :
    IsLatestOf (Occurs utc half_hours "UTC") (nine - minute) nine (some nine)
unfolding catch_up cron_fields tomo_v.Cron.Schedule.catch_up_by_search next_occurrence next_cron
    tomo_v.Cron.Schedule.search_minutes tomo_v.Cron.Schedule.search_bound
    tomo_v.Cron.Schedule.matches contains tomo_v.Cron.Schedule.catch_up_loop
catch_up_cron-IsLatest_example =
    catch_up_cron-IsLatest utc "*/30 9 1-2 1 0,1" "UTC" none half_hours (nine - minute) nine
      (some nine) reads_expression refl

catch_up_interval-IsLatest_example :
    IsLatest (grid (60 * minute) minute) 0 nine (catch_up_interval (60 * minute) minute 0 nine)
catch_up_interval-IsLatest_example =
    catch_up_interval-IsLatest (60 * minute) minute 0 nine (omega arith)

next_interval_least_example :
    let next = next_interval (60 * minute) minute nine in
    (nine < next)
    × ((k : ℕ) × (next ≡ grid (60 * minute) minute k))
    × ((k : ℕ) → nine < grid (60 * minute) minute k → next ≤ grid (60 * minute) minute k)
next_interval_least_example = next_interval_least (60 * minute) minute nine (omega arith)

field_values-InField_example : (0 ≤ 15) × (15 ≤ 59)
unfolding field_values contains
field_values-InField_example =
    field_values-InField 0 59 (codes "*/15") (0 ∷ 15 ∷ 30 ∷ 45 ∷ []) 15 refl refl

-- An interval job with a start was updated after its run at the start had succeeded: the claim
-- computes that same run anew, and SQLite refuses it.
abbrev updated : Db
updated = record ledger {
  runs = succeed frames RunOutcome.succeeded minute water_run ∷ [];
  deliveries = [];
  jobs = record (row_of_job water 0) { schedule_anchor = 30 * minute } ∷ [];
}

updated_job_clashes : claim_due_run utc "token2" (30 * minute) 60 "run2" updated ≡ err integrity
unfolding claim_due_run tomo_v.Common.select_where exists_where tomo_v.Cron.Schedule.or_else
    catch_up catch_up_interval tomo_v.Cron.Store.Parts.run_clashes
updated_job_clashes = refl

-- A cron job whose end lies before its anchor: the claim raises, whatever else is due.
abbrev over : CronJob
over = record water { schedule = cron_schedule "0 9 * * *" "UTC" none; ends_at = some minute }

abbrev ended : Db
ended = record ledger { runs = []; deliveries = []; jobs = row_of_job over (30 * minute) ∷ [] }

ended_job_blocks : claim_due_run utc "token2" (31 * minute) 60 "run2" ended ≡ err now_before_since
unfolding claim_due_run tomo_v.Common.select_where exists_where catch_up
    tomo_v.Cron.Schedule.or_else
ended_job_blocks = refl

abbrev queued : Db
queued = record ledger {
  deliveries = record old_frame { run_id = "run"; status = DeliveryStatus.pending } ∷ [];
}

abbrev cancelled_row : JobRow
cancelled_row = record (row_of_job water 0) { status = JobStatus.cancelled }

abbrev closed : Db
closed = record ledger {
  jobs = cancelled_row ∷ [];
  deliveries = record old_frame { run_id = "run"; status = DeliveryStatus.delivered } ∷ [];
}

abbrev erased : Db
erased = (redact_terminal_if_ready "job" closed).1

redacts_job : redact_terminal_if_ready "job" closed ≡ (true, erased)
unfolding redact_terminal_if_ready find_job first_where any_open exists_where
redacts_job = refl

redact-Erased_example :
    (j : JobRow) × (find_job "job" closed.jobs ≡ some j)
    × (is_terminal j.status ≡ true)
    × (any_open closed "job" ≡ false)
    × Erased "job" j closed erased
redact-Erased_example = redact-Erased "job" closed erased redacts_job
