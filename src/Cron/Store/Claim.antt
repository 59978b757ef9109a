-- ===== src/Cron/Store/Claim.antt =====
-- `claim_due_run` (tomo_core/src/tomo_core/cron_store.py).
use Prim.Native.String.{compare as str_compare}
use text.Mathlib.Text.{is_lt}
use tomo_v.Common.{
  ℕ, ◌+◌, ◌*◌, ◌-◌, String, Bool, true, false, ◌&&◌, ◌||◌, not, Option, none, some, List, [], ◌∷◌,
  ltb, leb, ◌==◌, if◌then◌else◌, Result, ok, ◌>>=◌, ◌>>◌, guard, str_eq, is_empty, strip,
  exists_where, update_where, select_where,
}
use tomo_v.Cron.Errors.{CronError, bad_intent}
use tomo_v.Cron.Schedule.{Zones, catch_up}
use tomo_v.Cron.Rows.{
  Db, JobRow, RunRow, JobStatus, RunStatus, RunOutcome, Trigger, schedule, catchup, lifecycle,
  is_active, is_ended, is_claimable, is_lifecycle, find_job, job_is, run_is, second, run_fenced,
}
use tomo_v.Cron.Store.Parts.{
  job_of_row, invalidate_run, active_run, add_run, progress, due, will_end_after_run,
}

-- `CronExecutionClaim`
pub record Claim : Type 0 where
  pub run : RunRow
  pub lease_token : String
  pub owner_id : String
  pub destination : String
  pub intent : String
  pub constraints : List String
  pub progress : ℕ × Option RunOutcome
  pub will_end_after_run : Bool

unfoldable pub insert_pending : RunRow × JobRow → List (RunRow × JobRow) → List (RunRow × JobRow)
insert_pending p [] = p ∷ []
insert_pending p (q ∷ qs) =
    if ltb p.0.created_at q.0.created_at then p ∷ q ∷ qs else q ∷ insert_pending p qs

unfoldable pub sort_pending :
    List (RunRow × JobRow) → List (RunRow × JobRow) → List (RunRow × JobRow)
unfolding insert_pending
sort_pending sorted [] = sorted
sort_pending sorted (p ∷ ps) = sort_pending (insert_pending p sorted) ps

unfoldable pub join_jobs : List JobRow → List RunRow → List (RunRow × JobRow)
unfolding find_job
join_jobs jobs [] = []
join_jobs jobs (r ∷ rs) =
    let rest = join_jobs jobs rs in
    elim (find_job r.job_id jobs) [ none ↦ rest | some j ↦ (r, j) ∷ rest ]

-- the runs that wait and are available, with their jobs, by the time of their creation
unfoldable pub pending_rows : ℕ → Db → List (RunRow × JobRow)
unfolding sort_pending join_jobs
pending_rows now db = sort_pending [] (
    join_jobs db.jobs (select_where (λ r. is_claimable r.status && leb r.available_at now) db.runs))

-- the run's revision is not its job's, or its job's status does not admit it
unfoldable pub outdated : RunRow → JobRow → Bool
outdated r j =
    let lifecycle_retry = is_lifecycle r.trigger && r.revision == j.revision && is_ended j.status in
    not (is_active j.status) && not lifecycle_retry || not (r.revision == j.revision)

abbrev pub lease_run : String → ℕ → ℕ → RunRow → RunRow
lease_run token now lease_seconds r = record r {
  status = RunStatus.leased;
  lease_until = some (now + lease_seconds * second);
  lease_token = some token;
  updated_at = now;
}

-- the guarded UPDATE that claims a waiting run
unfoldable pub claims : RunRow → List JobRow → RunRow → Bool
claims p jobs r =
    str_eq r.run_id p.run_id
    && is_claimable r.status
    && r.revision == p.revision
    && run_fenced jobs r

abbrev pub set_runs : (RunRow → Bool) → (RunRow → RunRow) → Db → Db
set_runs p f db = record db { runs = update_where p f db.runs }

module _ (zones : Zones) (token : String) (now lease_seconds : ℕ) where
  unfoldable pub claim_of : RunRow → JobRow → Db → Result CronError (Option Claim × Db)
  unfolding progress will_end_after_run
  claim_of r j db = do
    guard (not (is_empty (strip j.intent_text)) && not (is_empty (strip j.destination))) bad_intent
    final ← will_end_after_run zones j.schedule j.ends_at r.scheduled_for r.trigger
    ok (
      some (record {
        run = lease_run token now lease_seconds r;
        lease_token = token;
        owner_id = j.owner_id;
        destination = j.destination;
        intent = j.intent_text;
        constraints = j.constraints;
        progress = progress db r.job_id r.run_id j.successful_runs;
        will_end_after_run = final;
      }),
      db,
    )

  -- the loop over the runs that wait; runs that are outdated are invalidated on the way
  unfoldable pub claim_pending : List (RunRow × JobRow) → Db → Result CronError (Option Claim × Db)
  unfolding outdated claims claim_of
  claim_pending [] db = ok (none, db)
  claim_pending ((r, j) ∷ ps) db = elim (outdated r j) [
    | true ↦
        claim_pending ps (
          set_runs (λ x. str_eq x.run_id r.run_id && is_claimable x.status) (invalidate_run now) db)
    | false ↦ elim (exists_where (claims r db.jobs) db.runs) [
      | true ↦ claim_of r j (set_runs (claims r db.jobs) (lease_run token now lease_seconds) db)
      | false ↦ claim_pending ps db
    ]
  ]

  unfoldable pub insert_by_creation : JobRow → List JobRow → List JobRow
  insert_by_creation j [] = j ∷ []
  insert_by_creation j (k ∷ ks) =
      if ltb j.created_at k.created_at
        || j.created_at == k.created_at && is_lt (str_compare j.job_id k.job_id)
      then j ∷ k ∷ ks
      else k ∷ insert_by_creation j ks

  unfoldable pub sort_jobs : List JobRow → List JobRow
  unfolding insert_by_creation
  sort_jobs [] = []
  sort_jobs (j ∷ js) = insert_by_creation j (sort_jobs js)

  abbrev pub end_job : JobRow → JobRow
  end_job j = record j { status = JobStatus.ended; revision = j.revision + 1; updated_at = now }

  abbrev pub set_job : String → (JobRow → JobRow) → Db → Db
  set_job job_id f db = record db { jobs = update_where (job_is job_id) f db.jobs }

  -- the end of the job's life has come: an occurrence before it is still owed, or else the job ends
  -- with a lifecycle run
  unfoldable pub plan_end : JobRow → ℕ → Db → Result CronError (Option (Trigger × ℕ) × JobRow × Db)
  unfolding due
  plan_end j ends db = do
    owed ← due zones j.schedule j.last_due (ends - 1) j.schedule_anchor
    ok (elim owed [
      | some t ↦ (some (schedule, t), j, db)
      | none ↦ (some (lifecycle, now), end_job j, set_job j.job_id end_job db)
    ])

  -- a job that was resumed: its missed occurrences coalesce into one
  unfoldable pub plan_resumed :
      JobRow → ℕ → Db → Result CronError (Option (Trigger × ℕ) × JobRow × Db)
  plan_resumed j paused db = do
    missed ← catch_up zones j.schedule paused now
    ok (
      elim missed [ none ↦ none | some t ↦ some (catchup, t) ],
      j,
      set_job j.job_id (λ x. record x { paused_at = none }) db,
    )

  unfoldable pub plan_due : JobRow → Db → Result CronError (Option (Trigger × ℕ) × JobRow × Db)
  unfolding due
  plan_due j db = do
    owed ← due zones j.schedule j.last_due now j.schedule_anchor
    ok (elim owed [ none ↦ none | some t ↦ some (schedule, t) ], j, db)

  abbrev pub has_ended : Option ℕ → Bool
  has_ended none = false
  has_ended (some ends) = leb ends now

  unfoldable pub plan_going :
      Option ℕ → JobRow → Db → Result CronError (Option (Trigger × ℕ) × JobRow × Db)
  unfolding plan_resumed plan_due
  plan_going none j db = plan_due j db
  plan_going (some paused) j db = plan_resumed j paused db

  -- what is due of a job: the trigger and the time of a run, the job's row and the tables
  unfoldable pub plan_job : JobRow → Db → Result CronError (Option (Trigger × ℕ) × JobRow × Db)
  unfolding plan_end plan_going
  plan_job j db = elim j.ends_at [
    | none ↦ plan_going j.paused_at j db
    | some ends ↦ if leb ends now then plan_end j ends db else plan_going j.paused_at j db
  ]

  unfoldable pub claim_new :
      String → JobRow → Trigger × ℕ → Db → Result CronError (Option Claim × Db)
  unfolding add_run progress will_end_after_run job_of_row
  claim_new run_id j (trigger, at) db = do
    added ← add_run run_id j at trigger now db
    let run = added.0
    let db' = set_runs (run_is run.run_id) (lease_run token now lease_seconds) added.1
    final ← will_end_after_run zones j.schedule j.ends_at at trigger
    let fresh = job_of_row j
    ok (
      some (record {
        run = lease_run token now lease_seconds run;
        lease_token = token;
        owner_id = fresh.owner_id;
        destination = fresh.destination;
        intent = fresh.intent;
        constraints = fresh.constraints;
        progress = progress db' run.job_id run.run_id j.successful_runs;
        will_end_after_run = final;
      }),
      db',
    )

  -- the loop over the active jobs
  unfoldable pub claim_jobs : String → List JobRow → Db → Result CronError (Option Claim × Db)
  unfolding plan_job claim_new active_run
  claim_jobs run_id [] db = ok (none, db)
  claim_jobs run_id (j ∷ js) db = elim (active_run db j.job_id) [
    | true ↦ claim_jobs run_id js db
    | false ↦ plan_job j db >>= λ plan. elim plan.0 [
      | none ↦ claim_jobs run_id js plan.2
      | some due_at ↦ claim_new run_id plan.1 due_at plan.2
    ]
  ]

  -- `claim_due_run`; `run_id` and `token` are the ids that it draws
  unfoldable pub claim_due_run : String → Db → Result CronError (Option Claim × Db)
  unfolding pending_rows claim_pending claim_jobs sort_jobs
  claim_due_run run_id db = do
    waiting ← claim_pending (pending_rows now db) db
    elim waiting.0 [
      | some claim ↦ ok (some claim, waiting.1)
      | none ↦
          claim_jobs run_id (sort_jobs (select_where (λ j. is_active j.status) waiting.1.jobs))
            waiting.1
    ]
