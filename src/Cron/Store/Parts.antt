-- ===== src/Cron/Store/Parts.antt =====
-- The private helpers of `CronStore` (tomo_core/src/tomo_core/cron_store.py).
use tomo_v.Common.{
  ℕ, ◌-◌, String, Bool, true, false, ◌&&◌, ◌||◌, not, Option, none, some, List, [], ◌∷◌, ◌++◌, ltb,
  leb, ◌==◌, if◌then◌else◌, Result, ok, err, ◌>>=◌, str_eq, is_empty, exists_where, update_where,
}
use tomo_v.Cron.Errors.{CronError, integrity}
use tomo_v.Cron.Schedule.{
  ScheduleSpec, Kind, once, interval, cron, Zones, next_occurrence, catch_up, or_else,
}
use tomo_v.Cron.Rows.{
  Db, JobRow, RunRow, DeliveryRow, CronJob, RunStatus, DeliveryStatus, Trigger, RunOutcome,
  is_terminal, is_unfinished, is_finished, is_droppable, is_open, is_lifecycle, is_scheduled,
  same_trigger, find_job, run_of_job, job_is,
}

-- `_job`: tombstones retain identity and status while exposing no stored content.
unfoldable pub job_of_row : JobRow → CronJob
job_of_row j = record {
  job_id = j.job_id;
  owner_id = j.owner_id;
  destination = if is_empty j.destination then "telegram:redacted" else j.destination;
  intent = if is_empty j.intent_text then "[redacted]" else j.intent_text;
  constraints = j.constraints;
  schedule = j.schedule;
  ends_at = j.ends_at;
  max_successful_runs = j.max_successes;
  status = j.status;
  revision = j.revision;
}

abbrev pub invalidate_run : ℕ → RunRow → RunRow
invalidate_run now r = record r {
  status = RunStatus.invalidated;
  lease_until = none;
  updated_at = now;
}

abbrev pub suppress : ℕ → DeliveryRow → DeliveryRow
suppress now d = record d {
  status = DeliveryStatus.suppressed;
  lease_until = none;
  updated_at = now;
}

-- a run of the job under another revision
abbrev pub stale_run : String → ℕ → RunRow → Bool
stale_run job_id current r = str_eq r.job_id job_id && not (r.revision == current)

unfoldable pub stale_delivery : List RunRow → String → ℕ → DeliveryRow → Bool
stale_delivery runs job_id current d =
    exists_where (λ r. str_eq r.run_id d.run_id && stale_run job_id current r) runs

-- `_invalidate_stale_work`
unfoldable pub invalidate_stale_work : String → ℕ → ℕ → Db → Db
invalidate_stale_work job_id current now db =
    let runs =
      update_where (λ r. stale_run job_id current r && is_unfinished r.status) (invalidate_run now)
        db.runs in
    record db {
      runs = runs;
      deliveries =
          update_where (λ d. stale_delivery runs job_id current d && is_droppable d.status)
            (suppress now) db.deliveries;
    }

-- a delivery of the job that is not settled
unfoldable pub any_open : Db → String → Bool
any_open db job_id =
    exists_where (λ d. is_open d.status && run_of_job db.runs d.run_id job_id) db.deliveries

abbrev pub redact_job : JobRow → JobRow
redact_job j = record j { intent_text = ""; constraints = []; destination = "" }

unfoldable pub redact_tables : JobRow → Db → Db
unfolding job_of_row
redact_tables j db = record db {
  runs =
      update_where (λ r. str_eq r.job_id j.job_id) (λ r. record r { output = none; error = none })
        db.runs;
  deliveries =
      update_where (λ d. run_of_job db.runs d.run_id j.job_id)
        (λ d. record d { output = none; error = none }) db.deliveries;
  jobs = update_where (job_is j.job_id) redact_job db.jobs;
  receipts =
      update_where (λ c. str_eq c.owner_id j.owner_id && str_eq c.job_id j.job_id)
        (λ c. record c { response = job_of_row (redact_job j) }) db.receipts;
}

unfoldable pub redact_found : Option JobRow → String → Db → Bool × Db
unfolding redact_tables
redact_found none job_id db = (false, db)
redact_found (some j) job_id db =
    if not (is_terminal j.status) || any_open db job_id
    then (false, db)
    else (true, redact_tables j db)

-- `_redact_terminal_if_ready`
unfoldable pub redact_terminal_if_ready : String → Db → Bool × Db
unfolding redact_found
redact_terminal_if_ready job_id db = redact_found (find_job job_id db.jobs) job_id db

-- `_active_run`: a run of the job, or one of its deliveries, is not over
unfoldable pub active_run : Db → String → Bool
active_run db job_id =
    exists_where
      (λ r.
        str_eq r.job_id job_id
        && (is_unfinished r.status
            || exists_where (λ d. str_eq d.run_id r.run_id && is_open d.status) db.deliveries))
      db.runs

abbrev pub new_run : String → JobRow → ℕ → Trigger → ℕ → RunRow
new_run run_id j due trigger now = record {
  run_id = run_id;
  job_id = j.job_id;
  scheduled_for = due;
  trigger = trigger;
  revision = j.revision;
  status = RunStatus.pending;
  attempts = 0;
  available_at = now;
  lease_until = none;
  lease_token = none;
  outcome = none;
  output = none;
  error = none;
  created_at = now;
  updated_at = now;
}

-- primary key(run_id), unique(job_id, scheduled_for, trigger)
unfoldable pub run_clashes : RunRow → RunRow → Bool
run_clashes new r =
    str_eq r.run_id new.run_id
    || str_eq r.job_id new.job_id
      && r.scheduled_for == new.scheduled_for
      && same_trigger r.trigger new.trigger

-- `_run`
unfoldable pub add_run : String → JobRow → ℕ → Trigger → ℕ → Db → Result CronError (RunRow × Db)
add_run run_id j due trigger now db =
    let run = new_run run_id j due trigger now in
    if exists_where (run_clashes run) db.runs
    then err integrity
    else ok (
      run,
      record db {
        runs = db.runs ++ run ∷ [];
        jobs =
            if is_scheduled trigger
            then update_where (job_is j.job_id)
                (λ x. record x { last_due = some due; updated_at = now }) db.jobs
            else db.jobs;
      },
    )

unfoldable pub delivery_clashes : DeliveryRow → DeliveryRow → Bool
delivery_clashes new d =
    str_eq d.delivery_id new.delivery_id || str_eq d.run_id new.run_id && d.sequence == new.sequence

abbrev pub later_run : Option RunRow → RunRow → Option RunRow
later_run none r = some r
later_run (some best) r =
    if ltb best.updated_at r.updated_at
      || best.updated_at == r.updated_at && ltb best.created_at r.created_at
    then some r
    else some best

unfoldable pub latest_run : (RunRow → Bool) → Option RunRow → List RunRow → Option RunRow
latest_run p best [] = best
latest_run p best (r ∷ rs) = latest_run p (if p r then later_run best r else best) rs

abbrev pub has_outcome : Option RunOutcome → Bool
has_outcome none = false
has_outcome (some o) = true

-- `JobProgress`: the successful runs, and the outcome of the previous finished run
unfoldable pub progress : Db → String → String → ℕ → ℕ × Option RunOutcome
unfolding latest_run
progress db job_id current_run_id successful_runs = (
  successful_runs,
  elim (latest_run
      (λ r.
        str_eq r.job_id job_id
        && not (str_eq r.run_id current_run_id)
        && is_finished r.status
        && has_outcome r.outcome)
      none db.runs) [ none ↦ none | some r ↦ r.outcome ],
)

unfoldable pub is_once : Kind → Bool
is_once (once at) = true
is_once _ = false

-- `next_due is None or next_due >= ends_at`
unfoldable pub past_end : Option ℕ → ℕ → Bool
past_end none ends = true
past_end (some due) ends = leb ends due

abbrev pub has_end : Option ℕ → Bool
has_end none = false
has_end (some t) = true

module _ (zones : Zones) where
  unfoldable pub due_interval : ScheduleSpec → ℕ → ℕ → ℕ → Result CronError (Option ℕ)
  due_interval s every now anchor =
      let origin = or_else s.starts_at anchor in
      let anchored = record s { starts_at = some origin } in
      let since = if has_end s.starts_at then origin - 1 else origin in
      if ltb now origin then ok none else catch_up zones anchored since now

  unfoldable pub first_due : Kind → ScheduleSpec → ℕ → ℕ → Result CronError (Option ℕ)
  unfolding due_interval
  first_due (once at) s now anchor = ok (if leb at now then some at else none)
  first_due (interval every) s now anchor = due_interval s every now anchor
  first_due (cron expression) s now anchor = catch_up zones s anchor now

  -- `_due`
  unfoldable pub due : ScheduleSpec → Option ℕ → ℕ → ℕ → Result CronError (Option ℕ)
  unfolding first_due
  due s none now anchor = first_due s.kind s now anchor
  due s (some last) now anchor = catch_up zones s last now

  -- the end of the job's life comes before the occurrence after `due`
  unfoldable pub ends_before_next : ScheduleSpec → Option ℕ → ℕ → Result CronError Bool
  ends_before_next s none due_at = ok false
  ends_before_next s (some ends) due_at = do
    next_due ← next_occurrence zones s due_at
    ok (past_end next_due ends)

  -- `_will_end_after_run`
  unfoldable pub will_end_after_run : ScheduleSpec → Option ℕ → ℕ → Trigger → Result CronError Bool
  unfolding is_once ends_before_next
  will_end_after_run s ends_at due_at trigger =
      if is_lifecycle trigger || is_once s.kind then ok true else ends_before_next s ends_at due_at
