-- ===== src/Cron/Store/Runs.antt =====
-- The operations on a run that a worker holds (tomo_core/src/tomo_core/cron_store.py).
use tomo_v.Common.{
  ℕ, suc, ◌+◌, ◌*◌, ◌-◌, ◌^◌, String, Bool, true, false, ◌&&◌, ◌||◌, not, Option, none, some, List,
  [], ◌∷◌, ◌++◌, length, leb, if◌then◌else◌, Result, ok, err, ◌>>=◌, ◌>>◌, guard, str_eq, is_empty,
  strip, str_length, exists_where, update_where, first_where,
}
use tomo_v.Cron.Errors.{CronError, bad_frames, bad_delay, integrity}
use tomo_v.Cron.Schedule.{Zones, next_occurrence}
use tomo_v.Cron.Rows.{
  Db, JobRow, RunRow, DeliveryRow, JobStatus, RunStatus, DeliveryStatus, RunOutcome, is_leased,
  is_held, is_scheduled, is_success, job_is, run_is, token_is, second, fences, run_fenced,
}
use tomo_v.Cron.Store.Parts.{is_once, past_end, delivery_clashes}

-- the worker's run: its id, the token that it was claimed with, a status of the list, and the fence
unfoldable pub holds : (RunStatus → Bool) → String → String → List JobRow → RunRow → Bool
holds allowed run_id token jobs r =
    str_eq r.run_id run_id && token_is r.lease_token token && allowed r.status && run_fenced jobs r

unfoldable pub update_held :
    (RunStatus → Bool) → (RunRow → RunRow) → String → String → Db → Bool × Db
unfolding holds
update_held allowed f run_id token db =
    let test = holds allowed run_id token db.jobs in
    (exists_where test db.runs, record db { runs = update_where test f db.runs })

-- `renew_run_lease`
unfoldable pub renew_run_lease : String → String → ℕ → ℕ → Db → Bool × Db
unfolding update_held
renew_run_lease run_id token now lease_seconds =
    update_held is_held
      (λ r. record r { lease_until = some (now + lease_seconds * second); updated_at = now }) run_id
      token

-- `begin_run`: fence execution before invoking an external sandbox.
unfoldable pub begin_run : String → String → ℕ → ℕ → Db → Bool × Db
unfolding update_held
begin_run run_id token now lease_seconds =
    update_held is_leased
      (λ r. record r {
        status = RunStatus.executing;
        lease_until = some (now + lease_seconds * second);
        updated_at = now;
      })
      run_id token

-- `defer_run`: release a run without consuming an execution attempt.
unfoldable pub defer_run : String → String → ℕ → ℕ → Db → Result CronError (Bool × Db)
unfolding update_held
defer_run run_id token now delay_seconds db = do
  guard (leb 1 delay_seconds && leb delay_seconds 60) bad_delay
  ok (
      update_held is_held
        (λ r. record r {
          status = RunStatus.retry_wait;
          available_at = now + delay_seconds * second;
          lease_until = none;
          updated_at = now;
        })
        run_id token db)

unfoldable pub good_frame : String → Bool
good_frame frame = not (is_empty (strip frame)) && leb (str_length frame) 4096

unfoldable pub all_good : List String → Bool
all_good [] = true
all_good (f ∷ fs) = good_frame f && all_good fs

-- one to three frames that are not blank and have at most 4096 characters
unfoldable pub frames_ok : List String → Bool
unfolding good_frame all_good
frames_ok frames = leb 1 (length frames) && leb (length frames) 3 && all_good frames

abbrev pub new_delivery : String → String → ℕ → ℕ → String → Option String → ℕ → DeliveryRow
new_delivery delivery_id run_id sequence now frame destination job_revision = record {
  delivery_id = delivery_id;
  run_id = run_id;
  sequence = sequence;
  attempts = 0;
  status = DeliveryStatus.pending;
  available_at = some now;
  lease_until = none;
  lease_token = none;
  created_at = now;
  updated_at = now;
  output = some frame;
  error = none;
  destination = destination;
  job_revision = job_revision;
  receipt_id = none;
}

-- INSERT, under the primary key and unique(run_id, sequence)
unfoldable pub add_delivery : DeliveryRow → List DeliveryRow → Result CronError (List DeliveryRow)
unfolding delivery_clashes
add_delivery d ds =
    if exists_where (delivery_clashes d) ds then err integrity else ok (ds ++ d ∷ [])

-- one delivery for each frame, numbered from `sequence` on; `ids` draws their ids
unfoldable pub add_frames :
    (ℕ → String)
    → RunRow
    → JobRow
    → ℕ
    → ℕ
    → List String
    → List DeliveryRow
    → Result CronError (List DeliveryRow)
unfolding add_delivery
add_frames ids r j now sequence [] ds = ok ds
add_frames ids r j now sequence (frame ∷ frames) ds = do
  more ←
      add_delivery
        (new_delivery (ids sequence) r.run_id sequence now frame (some j.destination) r.revision) ds
  add_frames ids r j now (suc sequence) frames more

unfoldable pub reached : Option ℕ → ℕ → Bool
reached none successes = false
reached (some max) successes = leb max successes

unfoldable pub with_job : List JobRow → Option RunRow → Option (RunRow × JobRow)
with_job jobs none = none
with_job jobs (some r) = elim (first_where (fences r) jobs) [ none ↦ none | some j ↦ some (r, j) ]

-- the run and its job, where the worker still holds the run
unfoldable pub find_held : String → String → Db → Option (RunRow × JobRow)
unfolding holds with_job
find_held run_id token db =
    with_job db.jobs (first_where (holds is_held run_id token db.jobs) db.runs)

abbrev pub succeed : List String → RunOutcome → ℕ → RunRow → RunRow
succeed frames outcome now r = record r {
  status = RunStatus.succeeded;
  output = some frames;
  outcome = some outcome;
  lease_until = none;
  updated_at = now;
}

-- one more attempt is spent, and the run waits for the next or fails
abbrev pub spend : ℕ → Bool → String → ℕ → RunRow → RunRow
spend attempts exhausted error now r = record r {
  attempts = attempts;
  status = if exhausted then RunStatus.failed else RunStatus.retry_wait;
  available_at = now + 2 ^ (attempts - 1) * second;
  error = some error;
  outcome = if exhausted then some RunOutcome.failed else r.outcome;
  lease_until = none;
  updated_at = now;
}

abbrev pub add_success : RunOutcome → ℕ → ℕ
add_success outcome n = if is_success outcome then suc n else n

module _ (zones : Zones) where
  unfoldable pub complete_found :
      Option (RunRow × JobRow)
      → RunOutcome
      → List String
      → (ℕ → String)
      → ℕ
      → Db
      → Result CronError (Bool × Db)
  unfolding is_once past_end reached frames_ok add_frames
  complete_found none outcome frames ids now db = ok (false, db)
  complete_found (some (r, j)) outcome frames ids now db = do
    guard (frames_ok frames) bad_frames
    deliveries ← add_frames ids r j now 0 frames db.deliveries
    next_due ← next_occurrence zones j.schedule r.scheduled_for
    let successes = add_success outcome j.successful_runs
    let terminal =
        is_once j.schedule.kind
        || elim j.ends_at [ none ↦ false | some ends ↦ past_end next_due ends ]
        || reached j.max_successes successes
    ok (
      true,
      record db {
        runs = update_where (run_is r.run_id) (succeed frames outcome now) db.runs;
        deliveries = deliveries;
        jobs =
            update_where (job_is j.job_id)
              (λ x. record x {
                successful_runs = successes;
                status = if terminal then JobStatus.ended else j.status;
                updated_at = now;
              })
              db.jobs;
      },
    )

  -- `complete_run`; the output `None` is no frame, a text is one frame
  unfoldable pub complete_run :
      String
      → String
      → RunOutcome
      → List String
      → (ℕ → String)
      → ℕ
      → Db
      → Result CronError (Bool × Db)
  unfolding complete_found find_held
  complete_run run_id token outcome frames ids now db =
      complete_found (find_held run_id token db) outcome frames ids now db

  -- the job of a run whose attempts are used up ends if it has no later occurrence
  unfoldable pub fail_job : RunRow → JobRow → ℕ → List JobRow → Result CronError (List JobRow)
  unfolding is_once past_end
  fail_job r j now jobs = do
    next_due ← next_occurrence zones j.schedule r.scheduled_for
    let final =
        is_scheduled r.trigger
        && elim j.ends_at [ none ↦ false | some ends ↦ past_end next_due ends ]
    ok (
        if is_once j.schedule.kind || final
        then update_where (job_is j.job_id)
            (λ x. record x { status = JobStatus.ended; updated_at = now }) jobs
        else jobs)

  unfoldable pub fail_found :
      Option (RunRow × JobRow) → String → String → ℕ → ℕ → Db → Result CronError (Bool × Db)
  unfolding fail_job add_delivery
  fail_found none error delivery_id now max_attempts db = ok (false, db)
  fail_found (some (r, j)) error delivery_id now max_attempts db =
      let attempts = r.attempts + 1 in
      let exhausted = leb max_attempts attempts in
      let runs = update_where (run_is r.run_id) (spend attempts exhausted error now) db.runs in
      if exhausted
      then (do
        jobs ← fail_job r j now db.jobs
        deliveries ←
            add_delivery
              (new_delivery delivery_id r.run_id 0 now "Scheduled task could not be completed."
                (some j.destination) j.revision)
              db.deliveries
        ok (true, record db { runs = runs; jobs = jobs; deliveries = deliveries }))
      else ok (true, record db { runs = runs })

  -- `fail_run`
  unfoldable pub fail_run :
      String → String → String → String → ℕ → ℕ → Db → Result CronError (Bool × Db)
  unfolding fail_found find_held
  fail_run run_id token error delivery_id now max_attempts db =
      fail_found (find_held run_id token db) error delivery_id now max_attempts db
