-- ===== src/Cron/Store/Mutations.antt =====
-- `mutate_idempotently`, and the questions whether a run or a delivery is current
-- (tomo_core/src/tomo_core/cron_store.py).
use tomo_v.Common.{
  ℕ, String, Bool, true, false, ◌&&◌, Option, none, some, [], ◌∷◌, ◌++◌, ◌==◌, if◌then◌else◌,
  Result, ok, err, ◌>>=◌, str_eq, first_where, exists_where,
}
use tomo_v.Cron.Errors.{CronError, idempotency_conflict, invalid_mutation, missing_row}
use tomo_v.Cron.Rows.{
  Db, JobRow, RunRow, CronJob, ReceiptRow, is_shown, is_held, run_is, find_job, token_is,
}
use tomo_v.Cron.Store.Parts.{job_of_row, redact_terminal_if_ready}
use tomo_v.Cron.Store.Jobs.{
  insert_job, update_job, pause_job, resume_job, delete_job, request_manual_run,
}
use tomo_v.Cron.Store.Deliveries.{delivery_is}

-- primary key(owner_id, operation, idempotency_key_hash)
unfoldable pub receipt_is : String → String → String → ReceiptRow → Bool
receipt_is owner_id operation key_hash c =
    str_eq c.owner_id owner_id && str_eq c.operation operation && str_eq c.key_hash key_hash

-- the tables after a change, if it changed a row
abbrev pub if_changed : Bool × Db → Result CronError (Option Db)
if_changed (true, db) = ok (some db)
if_changed (false, db) = ok none

unfoldable pub mutate_create : Option CronJob → ℕ → Db → Result CronError (Option Db)
unfolding insert_job
mutate_create none now db = err invalid_mutation
mutate_create (some job) now db = elim (find_job job.job_id db.jobs) [
  | none ↦ ok (some (insert_job job now db))
  | some row ↦ err idempotency_conflict
]

unfoldable pub mutate_update :
    String → Option CronJob → Option ℕ → ℕ → Db → Result CronError (Option Db)
mutate_update owner_id (some job) (some revision) now db =
    if_changed (update_job owner_id job revision now db)
mutate_update owner_id (some job) none now db = err invalid_mutation
mutate_update owner_id none revision now db = err invalid_mutation

abbrev pub if_started : Option RunRow × Db → Option Db
if_started (none, db) = none
if_started (some run, db) = some db

unfoldable pub mutate_run : String → String → ℕ → String → ℕ → Db → Result CronError (Option Db)
mutate_run owner_id job_id revision run_id now db =
    request_manual_run owner_id job_id (some revision) run_id now db >>= λ answer.
    ok (if_started answer)

unfoldable pub mutate_status :
    String → String → Option String → Option ℕ → String → ℕ → Db → Result CronError (Option Db)
unfolding mutate_run
mutate_status owner_id operation (some job_id) (some revision) run_id now db =
    if str_eq operation "run_now"
    then mutate_run owner_id job_id revision run_id now db
    else if str_eq operation "pause"
    then if_changed (pause_job owner_id job_id revision now db)
    else if str_eq operation "resume"
    then if_changed (resume_job owner_id job_id revision now db)
    else if str_eq operation "delete"
    then if_changed (delete_job owner_id job_id revision now db)
    else err invalid_mutation
mutate_status owner_id operation (some job_id) none run_id now db = err invalid_mutation
mutate_status owner_id operation none revision run_id now db = err invalid_mutation

-- the operation itself; `none` where it changed nothing
unfoldable pub apply_mutation :
    String
    → String
    → Option CronJob
    → Option String
    → Option ℕ
    → String
    → ℕ
    → Db
    → Result CronError (Option Db)
unfolding mutate_create mutate_update mutate_status
apply_mutation owner_id operation job job_id revision run_id now db =
    if str_eq operation "create"
    then mutate_create job now db
    else if str_eq operation "update"
    then mutate_update owner_id job revision now db
    else mutate_status owner_id operation job_id revision run_id now db

abbrev pub mutated_id : Option CronJob → Option String → Option String
mutated_id (some job) job_id = some job.job_id
mutated_id none job_id = job_id

unfoldable pub mutated_row : Option String → Db → Option JobRow
mutated_row none db = none
mutated_row (some job_id) db = find_job job_id db.jobs

-- the receipt of a mutation, with the job as it is now
unfoldable pub add_receipt :
    String
    → String
    → String
    → String
    → ℕ
    → Option JobRow
    → Db
    → Result CronError ((Option CronJob × Bool) × Db)
unfolding job_of_row
add_receipt owner_id operation key_hash request_hash now none db = err missing_row
add_receipt owner_id operation key_hash request_hash now (some row) db =
    let current = job_of_row row in
    ok (
      (some current, false),
      record db {
        receipts =
            db.receipts
            ++ record {
              owner_id = owner_id;
              operation = operation;
              job_id = current.job_id;
              key_hash = key_hash;
              request_hash = request_hash;
              response = current;
              created_at = now;
            }
              ∷ [];
      },
    )

unfoldable pub finish_mutation :
    String
    → String
    → String
    → String
    → Option String
    → ℕ
    → Option Db
    → Db
    → Result CronError ((Option CronJob × Bool) × Db)
unfolding mutated_row add_receipt
finish_mutation owner_id operation key_hash request_hash id now none db = ok ((none, false), db)
finish_mutation owner_id operation key_hash request_hash id now (some changed) db =
    add_receipt owner_id operation key_hash request_hash now (mutated_row id changed) changed

unfoldable pub replay : ReceiptRow → String → Db → Result CronError ((Option CronJob × Bool) × Db)
replay c request_hash db =
    if str_eq c.request_hash request_hash
    then ok ((some c.response, true), db)
    else err idempotency_conflict

module _ (sha256 : String → String) where
  -- `mutate_idempotently`; `run_id` is the id that a new run draws
  unfoldable pub mutate_idempotently :
      String
      → String
      → String
      → String
      → Option CronJob
      → Option String
      → Option ℕ
      → String
      → ℕ
      → Db
      → Result CronError ((Option CronJob × Bool) × Db)
  unfolding replay apply_mutation finish_mutation
  mutate_idempotently owner_id operation key request job job_id revision run_id now db =
      elim (first_where (receipt_is owner_id operation (sha256 key)) db.receipts) [
        | some c ↦ replay c (sha256 request) db
        | none ↦ apply_mutation owner_id operation job job_id revision run_id now db >>= λ changed.
            finish_mutation owner_id operation (sha256 key) (sha256 request) (mutated_id job job_id)
              now changed db
      ]

-- `run_is_current`: whether a run may still contribute visible automation output
abbrev pub held_with : Option String → RunRow → Bool
held_with none r = true
held_with (some token) r = token_is r.lease_token token && is_held r.status

abbrev pub shows : Option JobRow → ℕ → Bool
shows none revision = false
shows (some j) revision = j.revision == revision && is_shown j.status

unfoldable pub run_is_current : String → ℕ → Option String → Db → Bool
run_is_current run_id revision token db = elim (first_where (run_is run_id) db.runs) [
  | none ↦ false
  | some r ↦
      r.revision == revision && shows (find_job r.job_id db.jobs) revision && held_with token r
]

-- `delivery_is_current`
unfoldable pub delivery_is_current : String → Db → Bool
delivery_is_current delivery_id db = elim (first_where (delivery_is delivery_id) db.deliveries) [
  | none ↦ false
  | some d ↦ elim (first_where (run_is d.run_id) db.runs) [
    | none ↦ false
    | some r ↦ shows (find_job r.job_id db.jobs) d.job_revision
  ]
]

-- `redact_terminal_job`
unfoldable pub redact_terminal_job : String → String → Db → Bool × Db
redact_terminal_job owner_id job_id db =
    if exists_where (λ j. str_eq j.owner_id owner_id && str_eq j.job_id job_id) db.jobs
    then redact_terminal_if_ready job_id db
    else (false, db)
