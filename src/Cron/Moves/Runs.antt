-- ===== src/Cron/Moves/Runs.antt =====
-- The operations on jobs and runs under the diagrams (tomo_core/src/tomo_core/cron_store.py).
use tomo_v.Common.{
  ℕ, ◌+◌, String, Bool, true, false, Option, none, some, [], ◌∷◌, ◌++◌, ◌≡◌, refl, arith, ◌&&◌, leb,
  Evolves-refl, Evolves-update, Evolves-append, All-of, Bool-cases, inl, inr, update_where,
  exists_where, ok, >>=-eq-ok, ok-injective, guard,
}
use tomo_v.Cron.Rows.{
  Db, JobRow, RunRow, JobStatus, RunStatus, Action, Trigger, is_leased, is_held, record_event,
}
use tomo_v.Cron.Store.Parts.{
  invalidate_stale_work, redact_terminal_if_ready, add_run, new_run, run_clashes, active_run,
}
use tomo_v.Cron.Store.Jobs.{may_change, after_change, change_job, manual_run}
use tomo_v.Cron.Errors.{bad_delay}
use mathlib.Core.Path.{subst}
use tomo_v.Cron.Store.Runs.{update_held, renew_run_lease, begin_run, defer_run}
use tomo_v.Cron.Moves.{RunRel, run_step, DeliveryRel, delivery_step, Moved}
use tomo_v.Cron.Moves.Parts.{
  RunSame-of, run_step_refl, RunRel-refl, DeliveryRel-refl, Moved-Kept, redact-Kept,
  invalidate-Moved, Moved-refl,
}

after_change-Moved :
    (job_id : String) (current : ℕ) (action : Action) (cancelled : Bool) (now : ℕ) (db : Db)
    → Moved db (after_change job_id current action cancelled now db)
unfolding after_change
after_change-Moved job_id current action true now db =
    let invalidated = invalidate_stale_work job_id current now db in
    let noted = record_event job_id action now invalidated in
    Moved-Kept db invalidated (redact_terminal_if_ready job_id noted).1
      (invalidate-Moved job_id current now db) (redact-Kept job_id noted)
after_change-Moved job_id current action false now db = invalidate-Moved job_id current now db

-- pause, resume, cancel, delete and update
pub change-Moved :
    (allowed : JobStatus → Bool) (f : JobRow → JobRow) (owner_id job_id : String) (expected : ℕ)
    (action : Action) (cancelled : Bool) (now : ℕ) (db : Db)
    → Moved db (change_job allowed f owner_id job_id expected action cancelled now db).1
unfolding change_job
change-Moved allowed f owner_id job_id expected action cancelled now db =
    let test = may_change allowed owner_id job_id expected db in
    elim (Bool-cases (exists_where test db.jobs)) [
      | inl e ↦ rw e (
          after_change-Moved job_id (expected + 1) action cancelled now
            (record db { jobs = update_where test f db.jobs }))
      | inr e ↦ rw e (Moved-refl db)
    ]

-- what a run that is added leaves in the tables
pub add_run-parts :
    (run_id : String) (j : JobRow) (due : ℕ) (trigger : Trigger) (now : ℕ) (db : Db)
    (added : RunRow × Db)
    → add_run run_id j due trigger now db ≡ ok added
    → (added.0 ≡ new_run run_id j due trigger now)
      × (added.1.runs ≡ db.runs ++ new_run run_id j due trigger now ∷ [])
      × (added.1.deliveries ≡ db.deliveries)
      × (exists_where (run_clashes (new_run run_id j due trigger now)) db.runs ≡ false)
unfolding add_run
add_run-parts run_id j due trigger now db added h =
    elim (Bool-cases (exists_where (run_clashes (new_run run_id j due trigger now)) db.runs)) [
      | inl e ↦ absurd (cc (e, h))
      | inr e ↦ (ground arith, ground arith, ground arith, e)
    ]

pub add_run-Moved :
    (run_id : String) (j : JobRow) (due : ℕ) (trigger : Trigger) (now : ℕ) (db : Db)
    (added : RunRow × Db)
    → add_run run_id j due trigger now db ≡ ok added
    → Moved db added.1
add_run-Moved run_id j due trigger now db added h =
    let (a, runs, deliveries, fresh) = add_run-parts run_id j due trigger now db added h in
    rw (runs, deliveries)
      (
        Evolves-append (RunRel run_step) RunRel-refl db.runs _,
        Evolves-refl (DeliveryRel delivery_step) DeliveryRel-refl db.deliveries,
      )

-- an UPDATE of the runs that a worker holds
update_held-Moved :
    (allowed : RunStatus → Bool) (f : RunRow → RunRow) (run_id token : String) (db : Db)
    → ((r : RunRow) → allowed r.status ≡ true → RunRel run_step r (f r))
    → Moved db (update_held allowed f run_id token db).1
unfolding update_held
update_held-Moved allowed f run_id token db moves = (
  Evolves-update (RunRel run_step) RunRel-refl _ f db.runs
      (All-of (λ r hit. moves r (ground arith)) db.runs),
  Evolves-refl (DeliveryRel delivery_step) DeliveryRel-refl db.deliveries,
)

pub manual_run-Moved :
    (o : Option JobRow) (run_id : String) (now : ℕ) (db : Db) (answer : Option RunRow × Db)
    → manual_run o run_id now db ≡ ok answer
    → Moved db answer.1
unfolding manual_run
manual_run-Moved none run_id now db answer h =
    subst (λ a. Moved db a.1) (ok-injective h) (Moved-refl db)
manual_run-Moved (some j) run_id now db answer h = elim (Bool-cases (active_run db j.job_id)) [
  | inl e ↦ subst (λ a. Moved db a.1) (ok-injective (rw e at h)) (Moved-refl db)
  | inr e ↦
      let (added, ha, h1) = >>=-eq-ok (add_run run_id j now Trigger.manual now db) _ (rw e at h) in
      subst (λ a. Moved db a.1) (ok-injective h1)
        (add_run-Moved run_id j now Trigger.manual now db added ha)
]

pub renew-Moved :
    (run_id token : String) (now lease_seconds : ℕ) (db : Db)
    → Moved db (renew_run_lease run_id token now lease_seconds db).1
unfolding renew_run_lease
renew-Moved run_id token now lease_seconds db =
    update_held-Moved is_held _ run_id token db (λ r held. record {
      same = RunSame-of r _ refl refl refl refl refl;
      step = run_step_refl r.status;
    })

pub begin-Moved :
    (run_id token : String) (now lease_seconds : ℕ) (db : Db)
    → Moved db (begin_run run_id token now lease_seconds db).1
unfolding begin_run
begin-Moved run_id token now lease_seconds db =
    update_held-Moved is_leased _ run_id token db (λ r leased. record {
      same = RunSame-of r _ refl refl refl refl refl;
      step = begins r.status leased;
    })
  where
    begins : (s : RunStatus) → is_leased s ≡ true → run_step s RunStatus.executing ≡ true
    begins s h = ground arith

pub defer-Moved :
    (run_id token : String) (now delay_seconds : ℕ) (db : Db) (answer : Bool × Db)
    → defer_run run_id token now delay_seconds db ≡ ok answer
    → Moved db answer.1
unfolding defer_run
defer-Moved run_id token now delay_seconds db answer h =
    let (u, hu, h1) =
      >>=-eq-ok (guard (leb 1 delay_seconds && leb delay_seconds 60) bad_delay) _ h in
    subst (λ a. Moved db a.1) (ok-injective h1)
      (update_held-Moved is_held _ run_id token db (λ r held. record {
        same = RunSame-of r _ refl refl refl refl refl;
        step = waits r.status held;
      }))
  where
    waits : (s : RunStatus) → is_held s ≡ true → run_step s RunStatus.retry_wait ≡ true
    waits s h = ground arith
