-- ===== src/Cron/Moves/Parts.antt =====
-- The helpers of the ledger under the diagrams: what invalidation, redaction and pacing do to the
-- rows (tomo_core/src/tomo_core/cron_store.py).
use tomo_v.Common.{
  ℕ, String, true, Option, none, some, ◌≡◌, refl, arith, ◌||◌, not, Evolves-refl, Evolves-update,
  Evolves-trans, All-of, Bool-cases, inl, inr,
}
use tomo_v.Cron.Rows.{
  Db, JobRow, RunRow, DeliveryRow, RunStatus, DeliveryStatus, is_terminal, is_unfinished,
  is_droppable, find_job,
}
use tomo_v.Cron.Store.Parts.{
  invalidate_stale_work, redact_terminal_if_ready, redact_found, redact_tables, any_open,
}
use tomo_v.Cron.Moves.{
  RunSame, RunRel, RunKept, run_step, DeliverySame, DeliveryRel, DeliveryKept, delivery_step, Kept,
  Moved,
}

pub RunSame-refl : (r : RunRow) → RunSame r r
RunSame-refl r = record {
  run_id = refl;
  job_id = refl;
  scheduled_for = refl;
  trigger = refl;
  revision = refl;
}

pub RunSame-of :
    (r s : RunRow)
    → s.run_id ≡ r.run_id
    → s.job_id ≡ r.job_id
    → s.scheduled_for ≡ r.scheduled_for
    → s.trigger ≡ r.trigger
    → s.revision ≡ r.revision
    → RunSame r s
RunSame-of r s a b c d e = record {
  run_id = a;
  job_id = b;
  scheduled_for = c;
  trigger = d;
  revision = e;
}

pub DeliverySame-of :
    (d e : DeliveryRow)
    → e.delivery_id ≡ d.delivery_id
    → e.run_id ≡ d.run_id
    → e.sequence ≡ d.sequence
    → e.job_revision ≡ d.job_revision
    → DeliverySame d e
DeliverySame-of d e a b c f = record { delivery_id = a; run_id = b; sequence = c; job_revision = f }

pub RunKept-refl : (r : RunRow) → RunKept r r
RunKept-refl r = record { same = RunSame-refl r; status = refl }

pub run_step_refl : (s : RunStatus) → run_step s s ≡ true
run_step_refl s = ground arith

pub RunRel-refl : (r : RunRow) → RunRel run_step r r
RunRel-refl r = record { same = RunSame-refl r; step = run_step_refl r.status }

pub DeliverySame-refl : (d : DeliveryRow) → DeliverySame d d
DeliverySame-refl d = record {
  delivery_id = refl;
  run_id = refl;
  sequence = refl;
  job_revision = refl;
}

pub DeliveryKept-refl : (d : DeliveryRow) → DeliveryKept d d
DeliveryKept-refl d = record { same = DeliverySame-refl d; status = refl }

pub delivery_step_refl : (s : DeliveryStatus) → delivery_step s s ≡ true
delivery_step_refl s = ground arith

pub DeliveryRel-refl : (d : DeliveryRow) → DeliveryRel delivery_step d d
DeliveryRel-refl d = record { same = DeliverySame-refl d; step = delivery_step_refl d.status }

pub RunSame-trans : (x y z : RunRow) → RunSame x y → RunSame y z → RunSame x z
RunSame-trans x y z a b = ground arith

pub DeliverySame-trans :
    (x y z : DeliveryRow) → DeliverySame x y → DeliverySame y z → DeliverySame x z
DeliverySame-trans x y z a b = ground arith

pub Kept-refl : (db : Db) → Kept db db
Kept-refl db = (
  Evolves-refl RunKept RunKept-refl db.runs,
  Evolves-refl DeliveryKept DeliveryKept-refl db.deliveries,
)

pub Moved-refl : (db : Db) → Moved db db
Moved-refl db = (
  Evolves-refl (RunRel run_step) RunRel-refl db.runs,
  Evolves-refl (DeliveryRel delivery_step) DeliveryRel-refl db.deliveries,
)

pub Kept-trans : (a b c : Db) → Kept a b → Kept b c → Kept a c
Kept-trans a b c h k = (
  Evolves-trans RunKept RunKept RunKept
      (λ x y z p q. record {
        same = RunSame-trans x y z p.same q.same;
        status = cc (p.status, q.status);
      })
      a.runs b.runs c.runs h.0 k.0,
  Evolves-trans DeliveryKept DeliveryKept DeliveryKept
      (λ x y z p q. record {
        same = DeliverySame-trans x y z p.same q.same;
        status = cc (p.status, q.status);
      })
      a.deliveries b.deliveries c.deliveries h.1 k.1,
)

pub Moved-Kept : (a b c : Db) → Moved a b → Kept b c → Moved a c
Moved-Kept a b c h k = (
  Evolves-trans (RunRel run_step) RunKept (RunRel run_step)
      (λ x y z p q. record { same = RunSame-trans x y z p.same q.same; step = rw q.status p.step })
      a.runs b.runs c.runs h.0 k.0,
  Evolves-trans (DeliveryRel delivery_step) DeliveryKept (DeliveryRel delivery_step)
      (λ x y z p q. record {
        same = DeliverySame-trans x y z p.same q.same;
        step = rw q.status p.step;
      })
      a.deliveries b.deliveries c.deliveries h.1 k.1,
)

pub Kept-Moved : (a b c : Db) → Kept a b → Moved b c → Moved a c
Kept-Moved a b c h k = (
  Evolves-trans RunKept (RunRel run_step) (RunRel run_step)
      (λ x y z p q. record {
        same = RunSame-trans x y z p.same q.same;
        step = rw p.status at q.step;
      })
      a.runs b.runs c.runs h.0 k.0,
  Evolves-trans DeliveryKept (DeliveryRel delivery_step) (DeliveryRel delivery_step)
      (λ x y z p q. record {
        same = DeliverySame-trans x y z p.same q.same;
        step = rw p.status at q.step;
      })
      a.deliveries b.deliveries c.deliveries h.1 k.1,
)

redact_tables-Kept : (j : JobRow) (db : Db) → Kept db (redact_tables j db)
unfolding redact_tables
redact_tables-Kept j db = (
  Evolves-update RunKept RunKept-refl _ _ db.runs (
      All-of
        (λ r hit. record {
          same = record {
            run_id = refl;
            job_id = refl;
            scheduled_for = refl;
            trigger = refl;
            revision = refl;
          };
          status = refl;
        })
        db.runs),
  Evolves-update DeliveryKept DeliveryKept-refl _ _ db.deliveries (
      All-of
        (λ d hit. record {
          same = record { delivery_id = refl; run_id = refl; sequence = refl; job_revision = refl };
          status = refl;
        })
        db.deliveries),
)

redact_found-Kept :
    (o : Option JobRow) (job_id : String) (db : Db) → Kept db (redact_found o job_id db).1
unfolding redact_found
redact_found-Kept none job_id db = Kept-refl db
redact_found-Kept (some j) job_id db =
    elim (Bool-cases (not (is_terminal j.status) || any_open db job_id)) [
      | inl e ↦ rw e (Kept-refl db)
      | inr e ↦ rw e (redact_tables-Kept j db)
    ]

-- the redaction of a job keeps its runs and deliveries, but for their texts
pub redact-Kept : (job_id : String) (db : Db) → Kept db (redact_terminal_if_ready job_id db).1
unfolding redact_terminal_if_ready
redact-Kept job_id db = redact_found-Kept (find_job job_id db.jobs) job_id db

invalidates : (s : RunStatus) → is_unfinished s ≡ true → run_step s RunStatus.invalidated ≡ true
invalidates s h = ground arith

suppresses :
    (s : DeliveryStatus) → is_droppable s ≡ true → delivery_step s DeliveryStatus.suppressed ≡ true
suppresses s h = ground arith

-- invalidation ends runs that are not over, and suppresses deliveries that are not on their way
pub invalidate-Moved :
    (job_id : String) (current now : ℕ) (db : Db)
    → Moved db (invalidate_stale_work job_id current now db)
unfolding invalidate_stale_work
invalidate-Moved job_id current now db = (
  Evolves-update (RunRel run_step) RunRel-refl _ _ db.runs (
      All-of
        (λ r hit. record {
          same = record {
            run_id = refl;
            job_id = refl;
            scheduled_for = refl;
            trigger = refl;
            revision = refl;
          };
          step = invalidates r.status (ground arith);
        })
        db.runs),
  Evolves-update (DeliveryRel delivery_step) DeliveryRel-refl _ _ db.deliveries (
      All-of
        (λ d hit. record {
          same = record { delivery_id = refl; run_id = refl; sequence = refl; job_revision = refl };
          step = suppresses d.status (ground arith);
        })
        db.deliveries),
)
