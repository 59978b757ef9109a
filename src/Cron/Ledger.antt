-- ===== src/Cron/Ledger.antt =====
-- The ledger as a state machine: a step is one call of `CronStore`
-- (tomo_core/src/tomo_core/cron_store.py), and a history is any sequence of calls, by the scheduler,
-- the workers, the senders and the owner's tools, in any order.
pub mod Settled
use tomo_v.Common.{ℕ, String, Bool, true, Option, List, map, ◌≡◌, Unique}
use tomo_v.Cron.Errors.{CronError}
use tomo_v.Common.{Result, ok}
use tomo_v.Cron.Schedule.{Zones}
use tomo_v.Cron.Rows.{Db, RunRow, DeliveryRow, RunOutcome, CronJob}
use tomo_v.Cron.Store.Parts.{redact_terminal_if_ready}
use tomo_v.Cron.Store.Jobs.{
  create_job, update_job, pause_job, resume_job, cancel_job, delete_job, request_manual_run,
}
use tomo_v.Cron.Store.Mutations.{mutate_idempotently}
use tomo_v.Cron.Store.Runs.{renew_run_lease, begin_run, defer_run, complete_run, fail_run}
use tomo_v.Cron.Store.Claim.{Claim, claim_due_run}
use tomo_v.Cron.Store.Deliveries.{
  claim_delivery, admit_delivery, complete_delivery, suppress_delivery, mark_delivery_unknown,
  fail_delivery,
}
use tomo_v.Cron.Store.Recovery.{recover_expired_leases}

-- One call that changes the tables, from the tables before it to the tables after it. A call that
-- raises changes nothing, since the transaction is rolled back.
pub data Step : Db → Db → Type 0 where
  creates :
      (same_job : CronJob → CronJob → Bool) (job : CronJob) (now : ℕ) (db : Db)
      (answer : CronJob × Db)
      → create_job same_job job now db ≡ ok answer
      → Step db answer.1
  updates :
      (owner_id : String) (job : CronJob) (expected now : ℕ) (db : Db)
      → Step db (update_job owner_id job expected now db).1
  pauses :
      (owner_id job_id : String) (expected now : ℕ) (db : Db)
      → Step db (pause_job owner_id job_id expected now db).1
  resumes :
      (owner_id job_id : String) (expected now : ℕ) (db : Db)
      → Step db (resume_job owner_id job_id expected now db).1
  cancels :
      (owner_id job_id : String) (expected now : ℕ) (db : Db)
      → Step db (cancel_job owner_id job_id expected now db).1
  deletes :
      (owner_id job_id : String) (expected now : ℕ) (db : Db)
      → Step db (delete_job owner_id job_id expected now db).1
  mutates :
      (sha256 : String → String) (owner_id operation key request : String) (job : Option CronJob)
      (job_id : Option String) (revision : Option ℕ) (run_id : String) (now : ℕ) (db : Db)
      (answer : (Option CronJob × Bool) × Db)
      → mutate_idempotently sha256 owner_id operation key request job job_id revision run_id now db
        ≡ ok answer
      → Step db answer.1
  requests :
      (owner_id job_id : String) (expected : Option ℕ) (run_id : String) (now : ℕ) (db : Db)
      (answer : Option RunRow × Db)
      → request_manual_run owner_id job_id expected run_id now db ≡ ok answer
      → Step db answer.1
  claims_run :
      (zones : Zones) (token : String) (now lease_seconds : ℕ) (run_id : String) (db : Db)
      (answer : Option Claim × Db)
      → claim_due_run zones token now lease_seconds run_id db ≡ ok answer
      → Step db answer.1
  renews :
      (run_id token : String) (now lease_seconds : ℕ) (db : Db)
      → Step db (renew_run_lease run_id token now lease_seconds db).1
  begins :
      (run_id token : String) (now lease_seconds : ℕ) (db : Db)
      → Step db (begin_run run_id token now lease_seconds db).1
  defers :
      (run_id token : String) (now delay_seconds : ℕ) (db : Db) (answer : Bool × Db)
      → defer_run run_id token now delay_seconds db ≡ ok answer
      → Step db answer.1
  completes :
      (zones : Zones) (run_id token : String) (outcome : RunOutcome) (frames : List String)
      (ids : ℕ → String) (now : ℕ) (db : Db) (answer : Bool × Db)
      → complete_run zones run_id token outcome frames ids now db ≡ ok answer
      → Step db answer.1
  fails :
      (zones : Zones) (run_id token error delivery_id : String) (now max_attempts : ℕ) (db : Db)
      (answer : Bool × Db)
      → fail_run zones run_id token error delivery_id now max_attempts db ≡ ok answer
      → Step db answer.1
  claims_delivery :
      (token : String) (now lease_seconds : ℕ) (db : Db)
      → Step db (claim_delivery token now lease_seconds db).1
  admits_delivery :
      (delivery_id token : String) (now : ℕ) (db : Db)
      → Step db (admit_delivery delivery_id token now db).1
  delivers :
      (delivery_id token : String) (receipt : Option String) (now pace : ℕ) (db : Db)
      → Step db (complete_delivery delivery_id token receipt now pace db).1
  suppresses :
      (delivery_id token : String) (now : ℕ) (db : Db)
      → Step db (suppress_delivery delivery_id token now db).1
  marks_unknown :
      (delivery_id token : String) (now pace : ℕ) (db : Db)
      → Step db (mark_delivery_unknown delivery_id token now pace db).1
  rejects :
      (delivery_id token error : String) (now max_attempts pace : ℕ) (db : Db)
      → Step db (fail_delivery delivery_id token error now max_attempts pace db).1
  recovers : (now pace : ℕ) (db : Db) → Step db (recover_expired_leases now pace db).1
  redacts : (job_id : String) (db : Db) → Step db (redact_terminal_if_ready job_id db).1

-- the primary keys of cron_runs and cron_deliveries
abbrev pub HasKeys : Db → Type 0
HasKeys db =
    Unique (map (λ (r : RunRow). r.run_id) db.runs)
    × Unique (map (λ (d : DeliveryRow). d.delivery_id) db.deliveries)

-- a sequence of calls; the database keeps its primary keys at each of them
pub data History : Db → Db → Type 0 where
  start : (db : Db) → History db db
  call : {a b c : Db} → HasKeys a → Step a b → History b c → History a c
