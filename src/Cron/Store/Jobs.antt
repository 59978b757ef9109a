-- ===== src/Cron/Store/Jobs.antt =====
-- The operations on jobs: create, update, pause, resume, cancel, delete, manual runs and idempotent
-- mutations (tomo_core/src/tomo_core/cron_store.py).
use tomo_v.Common.{
  ℕ, ◌+◌, String, Bool, true, false, ◌&&◌, not, Option, none, some, List, [], ◌∷◌, ◌++◌, ◌==◌,
  if◌then◌else◌, Result, ok, err, ◌>>=◌, str_eq, exists_where, update_where, first_where,
  select_where, map,
}
use tomo_v.Cron.Errors.{CronError, other_owner, idempotency_conflict}
use tomo_v.Cron.Schedule.{or_else}
use tomo_v.Cron.Rows.{
  Db, JobRow, RunRow, CronJob, JobStatus, Action, is_active, is_live, find_job, any_sending,
  record_event, create, update, pause, resume, cancel, delete, manual,
}
use tomo_v.Cron.Store.Parts.{
  job_of_row, invalidate_stale_work, redact_terminal_if_ready, active_run, add_run,
}

abbrev pub row_of_job : CronJob → ℕ → JobRow
row_of_job job now = record {
  job_id = job.job_id;
  owner_id = job.owner_id;
  destination = job.destination;
  intent_text = job.intent;
  constraints = job.constraints;
  schedule = job.schedule;
  ends_at = job.ends_at;
  max_successes = job.max_successful_runs;
  status = job.status;
  revision = job.revision;
  successful_runs = 0;
  last_due = none;
  paused_at = none;
  created_at = now;
  updated_at = now;
  schedule_anchor = or_else job.schedule.starts_at now;
}

unfoldable pub insert_job : CronJob → ℕ → Db → Db
insert_job job now db =
    record_event job.job_id create now (record db { jobs = db.jobs ++ row_of_job job now ∷ [] })

module _ (same_job : CronJob → CronJob → Bool) where
  unfoldable pub create_found : Option JobRow → CronJob → ℕ → Db → Result CronError (CronJob × Db)
  unfolding insert_job job_of_row
  create_found none job now db = ok (job, insert_job job now db)
  create_found (some row) job now db =
      if not (str_eq row.owner_id job.owner_id)
      then err other_owner
      else if not (same_job (job_of_row row) job)
      then err idempotency_conflict
      else ok (job_of_row row, db)

  -- `create`; `same_job` is the dataclass's `==`
  unfoldable pub create_job : CronJob → ℕ → Db → Result CronError (CronJob × Db)
  unfolding create_found
  create_job job now db = create_found (find_job job.job_id db.jobs) job now db

-- `list`
unfoldable pub list_jobs : String → Db → List CronJob
unfolding job_of_row
list_jobs owner_id db = map job_of_row (select_where (λ j. str_eq j.owner_id owner_id) db.jobs)

-- `get`
unfoldable pub get_job : String → String → Db → Option CronJob
unfolding job_of_row
get_job owner_id job_id db =
    elim (first_where (λ j. str_eq j.owner_id owner_id && str_eq j.job_id job_id) db.jobs) [
      | none ↦ none
      | some j ↦ some (job_of_row j)
    ]

-- The test of the mutations: the owner's job, at the revision that the caller saw, in a status that
-- may change, with no delivery on its way.
unfoldable pub may_change : (JobStatus → Bool) → String → String → ℕ → Db → JobRow → Bool
may_change allowed owner_id job_id expected db j =
    str_eq j.owner_id owner_id
    && str_eq j.job_id job_id
    && j.revision == expected
    && allowed j.status
    && not (any_sending db j.job_id)

abbrev pub set_status : JobStatus → ℕ → JobRow → JobRow
set_status JobStatus.paused now j = record j {
  status = JobStatus.paused;
  revision = j.revision + 1;
  paused_at = some now;
  updated_at = now;
}
set_status status now j = record j { status = status; revision = j.revision + 1; updated_at = now }

-- What follows a change: work of older revisions is invalidated, the event recorded, a cancelled job
-- redacted. The new revision is `expected + 1`, which the source reads back from the row.
unfoldable pub after_change : String → ℕ → Action → Bool → ℕ → Db → Db
unfolding invalidate_stale_work redact_terminal_if_ready
after_change job_id current action cancelled now db =
    let db' = record_event job_id action now (invalidate_stale_work job_id current now db) in
    if cancelled then (redact_terminal_if_ready job_id db').1 else db'

-- any status: `delete` asks for ('active','paused','ended','cancelled')
abbrev pub any_status : JobStatus → Bool
any_status status = true

-- an UPDATE of the job, and what follows it if it changed a row
unfoldable pub change_job :
    (JobStatus → Bool)
    → (JobRow → JobRow)
    → String
    → String
    → ℕ
    → Action
    → Bool
    → ℕ
    → Db
    → Bool × Db
unfolding may_change after_change
change_job allowed f owner_id job_id expected action cancelled now db =
    let test = may_change allowed owner_id job_id expected db in
    if exists_where test db.jobs
    then (
      true,
      after_change job_id (expected + 1) action cancelled now
          (record db { jobs = update_where test f db.jobs }),
    )
    else (false, db)

-- `_change` for pause, resume and cancel
unfoldable pub pause_job : String → String → ℕ → ℕ → Db → Bool × Db
unfolding change_job
pause_job owner_id job_id expected now =
    change_job is_live (set_status JobStatus.paused now) owner_id job_id expected pause false now

unfoldable pub resume_job : String → String → ℕ → ℕ → Db → Bool × Db
unfolding change_job
resume_job owner_id job_id expected now =
    change_job is_live (set_status JobStatus.active now) owner_id job_id expected resume false now

unfoldable pub cancel_job : String → String → ℕ → ℕ → Db → Bool × Db
unfolding change_job
cancel_job owner_id job_id expected now =
    change_job is_live (set_status JobStatus.cancelled now) owner_id job_id expected cancel true now

-- `delete`
unfoldable pub delete_job : String → String → ℕ → ℕ → Db → Bool × Db
unfolding change_job
delete_job owner_id job_id expected now =
    change_job any_status (set_status JobStatus.cancelled now) owner_id job_id expected delete true
      now

abbrev pub set_definition : CronJob → ℕ → JobRow → JobRow
set_definition job now j = record j {
  destination = job.destination;
  intent_text = job.intent;
  constraints = job.constraints;
  schedule = job.schedule;
  ends_at = job.ends_at;
  max_successes = job.max_successful_runs;
  revision = j.revision + 1;
  last_due = none;
  paused_at = none;
  schedule_anchor = now;
  updated_at = now;
}

-- `update`
unfoldable pub update_job : String → CronJob → ℕ → ℕ → Db → Bool × Db
unfolding change_job
update_job owner_id job expected now =
    change_job is_live (set_definition job now) owner_id job.job_id expected update false now

abbrev pub revision_fits : Option ℕ → ℕ → Bool
revision_fits none revision = true
revision_fits (some expected) revision = revision == expected

unfoldable pub manual_run : Option JobRow → String → ℕ → Db → Result CronError (Option RunRow × Db)
unfolding add_run
manual_run none run_id now db = ok (none, db)
manual_run (some j) run_id now db =
    if active_run db j.job_id
    then ok (none, db)
    else do added ← add_run run_id j now manual now db; ok (some added.0, added.1)

-- `request_manual_run`
unfoldable pub request_manual_run :
    String → String → Option ℕ → String → ℕ → Db → Result CronError (Option RunRow × Db)
unfolding manual_run
request_manual_run owner_id job_id expected run_id now db =
    manual_run
      (first_where
        (λ j.
          str_eq j.owner_id owner_id
          && str_eq j.job_id job_id
          && is_active j.status
          && revision_fits expected j.revision)
        db.jobs)
      run_id now db
