-- ===== src/Cron/Moves.antt =====
-- The life of a run and of a delivery, as diagrams over their statuses, and the proof that every
-- operation of the ledger (tomo_core/src/tomo_core/cron_store.py) follows them.
pub mod Runs
pub mod Finish
pub mod Deliveries
pub mod Parts
pub mod ClaimDelivery
pub mod ClaimRun
use tomo_v.Common.{Bool, true, false, ◌≡◌, Evolves}
use tomo_v.Cron.Rows.{Db, RunRow, DeliveryRow, RunStatus, DeliveryStatus}

-- what may become of a run's status in one operation
abbrev pub run_step : RunStatus → RunStatus → Bool
run_step RunStatus.pending RunStatus.pending = true
run_step RunStatus.pending RunStatus.leased = true
run_step RunStatus.pending RunStatus.invalidated = true
run_step RunStatus.leased _ = true
run_step RunStatus.executing RunStatus.leased = false
run_step RunStatus.executing _ = true
run_step RunStatus.retry_wait RunStatus.retry_wait = true
run_step RunStatus.retry_wait RunStatus.leased = true
run_step RunStatus.retry_wait RunStatus.invalidated = true
run_step RunStatus.succeeded RunStatus.succeeded = true
run_step RunStatus.failed RunStatus.failed = true
run_step RunStatus.invalidated RunStatus.invalidated = true
run_step _ _ = false

-- A run keeps its identity: what it is a run of, when it was due, and the revision it belongs to.
pub record RunSame (r s : RunRow) : Type 0 where
  pub run_id : s.run_id ≡ r.run_id
  pub job_id : s.job_id ≡ r.job_id
  pub scheduled_for : s.scheduled_for ≡ r.scheduled_for
  pub trigger : s.trigger ≡ r.trigger
  pub revision : s.revision ≡ r.revision

pub record RunRel (t : RunStatus → RunStatus → Bool) (r s : RunRow) : Type 0 where
  pub same : RunSame r s
  pub step : t r.status s.status ≡ true

-- the run is the same, status included
pub record RunKept (r s : RunRow) : Type 0 where
  pub same : RunSame r s
  pub status : s.status ≡ r.status

-- what may become of a delivery's status in one operation
abbrev pub delivery_step : DeliveryStatus → DeliveryStatus → Bool
delivery_step DeliveryStatus.pending DeliveryStatus.pending = true
delivery_step DeliveryStatus.pending DeliveryStatus.leased = true
delivery_step DeliveryStatus.pending DeliveryStatus.suppressed = true
delivery_step DeliveryStatus.leased DeliveryStatus.leased = true
delivery_step DeliveryStatus.leased DeliveryStatus.pending = true
delivery_step DeliveryStatus.leased DeliveryStatus.sending = true
delivery_step DeliveryStatus.leased DeliveryStatus.suppressed = true
delivery_step DeliveryStatus.sending DeliveryStatus.pending = false
delivery_step DeliveryStatus.sending DeliveryStatus.leased = false
delivery_step DeliveryStatus.sending _ = true
delivery_step DeliveryStatus.retry_wait DeliveryStatus.retry_wait = true
delivery_step DeliveryStatus.retry_wait DeliveryStatus.leased = true
delivery_step DeliveryStatus.retry_wait DeliveryStatus.suppressed = true
delivery_step DeliveryStatus.delivered DeliveryStatus.delivered = true
delivery_step DeliveryStatus.exhausted DeliveryStatus.exhausted = true
delivery_step DeliveryStatus.suppressed DeliveryStatus.suppressed = true
delivery_step DeliveryStatus.unknown DeliveryStatus.unknown = true
delivery_step _ _ = false

pub record DeliverySame (d e : DeliveryRow) : Type 0 where
  pub delivery_id : e.delivery_id ≡ d.delivery_id
  pub run_id : e.run_id ≡ d.run_id
  pub sequence : e.sequence ≡ d.sequence
  pub job_revision : e.job_revision ≡ d.job_revision

pub record DeliveryRel (t : DeliveryStatus → DeliveryStatus → Bool) (d e : DeliveryRow)
    : Type 0 where
  pub same : DeliverySame d e
  pub step : t d.status e.status ≡ true

pub record DeliveryKept (d e : DeliveryRow) : Type 0 where
  pub same : DeliverySame d e
  pub status : e.status ≡ d.status

-- Statements that change no status: the texts, the leases and the times of the rows may differ.
abbrev pub Kept : Db → Db → Type 0
Kept a b = Evolves RunKept a.runs b.runs × Evolves DeliveryKept a.deliveries b.deliveries

-- Every run and every delivery takes at most one step of its diagram, and none is lost.
abbrev pub Moved : Db → Db → Type 0
Moved a b =
    Evolves (RunRel run_step) a.runs b.runs
    × Evolves (DeliveryRel delivery_step) a.deliveries b.deliveries
