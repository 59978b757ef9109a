-- ===== src/Cron/Rows.antt =====
-- The tables of the cron ledger (tomo_core/src/tomo_core/cron_store.py, `_migrate_to_v1` and later)
-- and the states of cron_models.py. A row is found by its key, as SQLite's primary keys do.
use tomo_v.Common.{
  ℕ, String, Bool, true, false, ◌&&◌, ◌||◌, Option, none, some, List, [], ◌∷◌, ◌++◌, ltb, ◌==◌,
  str_eq, first_where, exists_where,
}
use tomo_v.Cron.Schedule.{ScheduleSpec}

pub data JobStatus : Type 0 where
  active paused ended cancelled : JobStatus

pub data RunStatus : Type 0 where
  pending leased executing succeeded retry_wait failed invalidated : RunStatus

pub data DeliveryStatus : Type 0 where
  pending leased sending delivered retry_wait exhausted suppressed unknown : DeliveryStatus

pub data RunOutcome : Type 0 where
  succeeded partial failed approval_needed control_notice : RunOutcome

pub data Trigger : Type 0 where
  schedule catchup manual lifecycle : Trigger

pub data Action : Type 0 where
  create update pause resume cancel delete : Action

abbrev pub is_active : JobStatus → Bool
is_active JobStatus.active = true
is_active _ = false

abbrev pub is_ended : JobStatus → Bool
is_ended JobStatus.ended = true
is_ended _ = false

-- status in ('active','paused')
abbrev pub is_live : JobStatus → Bool
is_live JobStatus.active = true
is_live JobStatus.paused = true
is_live _ = false

-- status in ('ended','cancelled')
abbrev pub is_terminal : JobStatus → Bool
is_terminal JobStatus.ended = true
is_terminal JobStatus.cancelled = true
is_terminal _ = false

-- status in ('active','ended')
abbrev pub is_shown : JobStatus → Bool
is_shown JobStatus.active = true
is_shown JobStatus.ended = true
is_shown _ = false

abbrev pub is_cancelled : JobStatus → Bool
is_cancelled JobStatus.cancelled = true
is_cancelled _ = false

-- status in ('pending','retry_wait')
abbrev pub is_claimable : RunStatus → Bool
is_claimable RunStatus.pending = true
is_claimable RunStatus.retry_wait = true
is_claimable _ = false

abbrev pub is_leased : RunStatus → Bool
is_leased RunStatus.leased = true
is_leased _ = false

-- status in ('leased','executing')
abbrev pub is_held : RunStatus → Bool
is_held RunStatus.leased = true
is_held RunStatus.executing = true
is_held _ = false

-- status in ('pending','leased','executing','retry_wait')
abbrev pub is_unfinished : RunStatus → Bool
is_unfinished RunStatus.pending = true
is_unfinished RunStatus.leased = true
is_unfinished RunStatus.executing = true
is_unfinished RunStatus.retry_wait = true
is_unfinished _ = false

-- status in ('succeeded','failed')
abbrev pub is_finished : RunStatus → Bool
is_finished RunStatus.succeeded = true
is_finished RunStatus.failed = true
is_finished _ = false

-- status in ('pending','retry_wait')
abbrev pub is_waiting : DeliveryStatus → Bool
is_waiting DeliveryStatus.pending = true
is_waiting DeliveryStatus.retry_wait = true
is_waiting _ = false

abbrev pub is_delivery_leased : DeliveryStatus → Bool
is_delivery_leased DeliveryStatus.leased = true
is_delivery_leased _ = false

-- status in ('pending','leased','retry_wait')
abbrev pub is_droppable : DeliveryStatus → Bool
is_droppable DeliveryStatus.pending = true
is_droppable DeliveryStatus.leased = true
is_droppable DeliveryStatus.retry_wait = true
is_droppable _ = false

-- status in ('leased','sending')
abbrev pub is_in_flight : DeliveryStatus → Bool
is_in_flight DeliveryStatus.leased = true
is_in_flight DeliveryStatus.sending = true
is_in_flight _ = false

abbrev pub is_sending : DeliveryStatus → Bool
is_sending DeliveryStatus.sending = true
is_sending _ = false

abbrev pub is_unknown : DeliveryStatus → Bool
is_unknown DeliveryStatus.unknown = true
is_unknown _ = false

-- status in ('pending','leased','sending','retry_wait')
abbrev pub is_open : DeliveryStatus → Bool
is_open DeliveryStatus.pending = true
is_open DeliveryStatus.leased = true
is_open DeliveryStatus.sending = true
is_open DeliveryStatus.retry_wait = true
is_open _ = false

abbrev pub is_lifecycle : Trigger → Bool
is_lifecycle Trigger.lifecycle = true
is_lifecycle _ = false

-- trigger in ('schedule','catchup')
abbrev pub is_scheduled : Trigger → Bool
is_scheduled Trigger.schedule = true
is_scheduled Trigger.catchup = true
is_scheduled _ = false

abbrev pub is_success : RunOutcome → Bool
is_success RunOutcome.succeeded = true
is_success _ = false

-- UNIQUE compares the texts of the triggers
abbrev pub same_trigger : Trigger → Trigger → Bool
same_trigger schedule schedule = true
same_trigger catchup catchup = true
same_trigger manual manual = true
same_trigger lifecycle lifecycle = true
same_trigger _ _ = false

pub record JobRow : Type 0 where
  pub job_id : String
  pub owner_id : String
  pub destination : String
  pub intent_text : String
  pub constraints : List String
  pub schedule : ScheduleSpec
  pub ends_at : Option ℕ
  pub max_successes : Option ℕ
  pub status : JobStatus
  pub revision : ℕ
  pub successful_runs : ℕ
  pub last_due : Option ℕ
  pub paused_at : Option ℕ
  pub created_at : ℕ
  pub updated_at : ℕ
  pub schedule_anchor : ℕ

pub record RunRow : Type 0 where
  pub run_id : String
  pub job_id : String
  pub scheduled_for : ℕ
  pub trigger : Trigger
  pub revision : ℕ
  pub status : RunStatus
  pub attempts : ℕ
  pub available_at : ℕ
  pub lease_until : Option ℕ
  pub lease_token : Option String
  pub outcome : Option RunOutcome
  pub output : Option (List String)
  pub error : Option String
  pub created_at : ℕ
  pub updated_at : ℕ

pub record DeliveryRow : Type 0 where
  pub delivery_id : String
  pub run_id : String
  pub sequence : ℕ
  pub attempts : ℕ
  pub status : DeliveryStatus
  pub available_at : Option ℕ
  pub lease_until : Option ℕ
  pub lease_token : Option String
  pub created_at : ℕ
  pub updated_at : ℕ
  pub output : Option String
  pub error : Option String
  pub destination : Option String
  pub job_revision : ℕ
  pub receipt_id : Option String

pub record EventRow : Type 0 where
  pub job_id : String
  pub action : Action
  pub created_at : ℕ

-- `CronJob` of cron_models.py
pub record CronJob : Type 0 where
  pub job_id : String
  pub owner_id : String
  pub destination : String
  pub intent : String
  pub constraints : List String
  pub schedule : ScheduleSpec
  pub ends_at : Option ℕ
  pub max_successful_runs : Option ℕ
  pub status : JobStatus
  pub revision : ℕ

-- a row of cron_mutation_receipts; the response is the stored snapshot of the job
pub record ReceiptRow : Type 0 where
  pub owner_id : String
  pub operation : String
  pub job_id : String
  pub key_hash : String
  pub request_hash : String
  pub response : CronJob
  pub created_at : ℕ

pub record Db : Type 0 where
  pub jobs : List JobRow
  pub runs : List RunRow
  pub deliveries : List DeliveryRow
  pub events : List EventRow
  pub receipts : List ReceiptRow

-- `lease_token = ?`, which NULL does not satisfy
unfoldable pub token_is : Option String → String → Bool
token_is none token = false
token_is (some held) token = str_eq held token

-- `lease_until < ?`, which NULL does not satisfy
unfoldable pub expired : Option ℕ → ℕ → Bool
expired none now = false
expired (some until) now = ltb until now

abbrev pub second : ℕ
second = 1000000

abbrev pub job_is : String → JobRow → Bool
job_is job_id j = str_eq j.job_id job_id

abbrev pub run_is : String → RunRow → Bool
run_is run_id r = str_eq r.run_id run_id

unfoldable pub find_job : String → List JobRow → Option JobRow
find_job job_id jobs = first_where (job_is job_id) jobs

-- run_id in (select run_id from cron_runs where job_id=?)
unfoldable pub run_of_job : List RunRow → String → String → Bool
run_of_job runs run_id job_id =
    exists_where (λ r. str_eq r.run_id run_id && str_eq r.job_id job_id) runs

-- a delivery of the job is in status 'sending'
unfoldable pub any_sending : Db → String → Bool
any_sending db job_id =
    exists_where (λ d. is_sending d.status && run_of_job db.runs d.run_id job_id) db.deliveries

-- The fence of a run: its job has the run's revision, and is active or, for a lifecycle run, ended.
unfoldable pub fences : RunRow → JobRow → Bool
fences r j =
    str_eq j.job_id r.job_id
    && j.revision == r.revision
    && (is_active j.status || is_lifecycle r.trigger && is_ended j.status)

unfoldable pub run_fenced : List JobRow → RunRow → Bool
unfolding fences
run_fenced jobs r = exists_where (fences r) jobs

abbrev pub record_event : String → Action → ℕ → Db → Db
record_event job_id action now db = record db {
  events = db.events ++ record { job_id = job_id; action = action; created_at = now } ∷ [];
}
