-- ===== src/Cron/Ledger/Settled.antt =====
-- What no call of `CronStore` (tomo_core/src/tomo_core/cron_store.py) undoes.
use mathlib.Core.Path.{subst}
use tomo_v.Common.{
  ℕ, String, Bool, true, false, Option, none, some, ◌≡◌, refl, ◌∙◌, arith, Bool-cases, Option-cases,
  inl, inr, str_eq, Evolves, Evolves-refl, Evolves-trans, Evolves-map, ok, ok-injective, >>=-eq-ok,
  first_where, ap,
}
use tomo_v.Cron.Rows.{
  Db, JobRow, RunRow, DeliveryRow, CronJob, ReceiptRow, RunStatus, DeliveryStatus, find_job,
  is_unfinished, is_open,
}
use tomo_v.Cron.Store.Parts.{job_of_row, redact_terminal_if_ready}
use tomo_v.Cron.Store.Jobs.{
  insert_job, create_found, create_job, update_job, pause_job, resume_job, cancel_job, delete_job,
  request_manual_run,
}
use tomo_v.Cron.Store.Deliveries.{complete_delivery, suppress_delivery, mark_delivery_unknown}
use tomo_v.Cron.Laws.Mutation.{apply_mutation-keeps}
use tomo_v.Cron.Store.Mutations.{
  receipt_is, apply_mutation, mutated_id, mutated_row, add_receipt, finish_mutation, replay,
  mutate_idempotently,
}
use tomo_v.Cron.Moves.{RunSame, RunRel, run_step, DeliverySame, DeliveryRel, delivery_step, Moved}
use tomo_v.Cron.Moves.Parts.{
  Moved-refl, Moved-Kept, redact-Kept, RunSame-refl, RunSame-trans, DeliverySame-refl,
  DeliverySame-trans,
}
use tomo_v.Cron.Moves.Runs.{change-Moved, manual_run-Moved, renew-Moved, begin-Moved, defer-Moved}
use tomo_v.Cron.Moves.Finish.{complete-Moved, fail-Moved}
use tomo_v.Cron.Moves.Deliveries.{admit-Moved, finish-Moved, fail_delivery-Moved, recover-Moved}
use tomo_v.Cron.Moves.ClaimDelivery.{claim_delivery-Moved}
use tomo_v.Cron.Moves.ClaimRun.{claim_run-Moved}
use tomo_v.Cron.Ledger.{
  Step, creates, updates, pauses, resumes, cancels, deletes, mutates, requests, claims_run, renews,
  begins, defers, completes, fails, claims_delivery, admits_delivery, delivers, suppresses,
  marks_unknown, rejects, recovers, redacts, HasKeys, History, start, call,
}

create_found-Moved :
    (same_job : CronJob → CronJob → Bool) (o : Option JobRow) (job : CronJob) (now : ℕ) (db : Db)
    (answer : CronJob × Db)
    → create_found same_job o job now db ≡ ok answer
    → Moved db answer.1
unfolding create_found insert_job
create_found-Moved same_job none job now db answer h =
    subst (λ a. Moved db a.1) (ok-injective h) (Moved-refl db)
create_found-Moved same_job (some row) job now db answer h =
    elim (Bool-cases (str_eq row.owner_id job.owner_id)) [
      | inr other ↦ absurd (cc (rw other at h))
      | inl own ↦ elim (Bool-cases (same_job (job_of_row row) job)) [
        | inr different ↦ absurd (cc (rw (own, different) at h))
        | inl same ↦ subst (λ a. Moved db a.1) (ok-injective (rw (own, same) at h)) (Moved-refl db)
      ]
    ]

insert_job-Moved : (job : CronJob) (now : ℕ) (db : Db) → Moved db (insert_job job now db)
unfolding insert_job
insert_job-Moved job now db = Moved-refl db

apply-Moved :
    (owner_id operation : String) (job : Option CronJob) (job_id : Option String)
    (revision : Option ℕ) (run_id : String) (now : ℕ) (db changed : Db)
    → apply_mutation owner_id operation job job_id revision run_id now db ≡ ok (some changed)
    → Moved db changed
apply-Moved owner_id operation job job_id revision run_id now db changed h =
    apply_mutation-keeps (Moved db) now db (λ j. insert_job-Moved j now db)
      (λ allowed f owner id expected action cancelled.
        change-Moved allowed f owner id expected action cancelled now db)
      (λ o run answer started. manual_run-Moved o run now db answer started) owner_id operation job
      job_id revision run_id changed h

receipt-Moved :
    (owner_id operation key_hash request_hash : String) (now : ℕ) (o : Option JobRow)
    (db changed : Db) (answer : (Option CronJob × Bool) × Db)
    → Moved db changed
    → add_receipt owner_id operation key_hash request_hash now o changed ≡ ok answer
    → Moved db answer.1
unfolding add_receipt
receipt-Moved owner_id operation key_hash request_hash now none db changed answer m h =
    absurd (cc h)
receipt-Moved owner_id operation key_hash request_hash now (some row) db changed answer m h =
    subst (λ a. Moved db a.1) (ok-injective h) m

replay-Moved :
    (c : ReceiptRow) (request_hash : String) (db : Db) (answer : (Option CronJob × Bool) × Db)
    → replay c request_hash db ≡ ok answer
    → Moved db answer.1
unfolding replay
replay-Moved c request_hash db answer h = elim (Bool-cases (str_eq c.request_hash request_hash)) [
  | inl e ↦ subst (λ a. Moved db a.1) (ok-injective (rw e at h)) (Moved-refl db)
  | inr e ↦ absurd (cc (rw e at h))
]

mutate-Moved :
    (sha256 : String → String) (owner_id operation key request : String) (job : Option CronJob)
    (job_id : Option String) (revision : Option ℕ) (run_id : String) (now : ℕ) (db : Db)
    (answer : (Option CronJob × Bool) × Db)
    → mutate_idempotently sha256 owner_id operation key request job job_id revision run_id now db
      ≡ ok answer
    → Moved db answer.1
unfolding mutate_idempotently finish_mutation
mutate-Moved sha256 owner_id operation key request job job_id revision run_id now db answer h =
    elim (Option-cases (first_where (receipt_is owner_id operation (sha256 key)) db.receipts)) [
      | inr (c, e) ↦ replay-Moved c (sha256 request) db answer (rw (e, mutate_idempotently) at h)
      | inl e ↦
          let (o, ho, h1) =
            >>=-eq-ok (apply_mutation owner_id operation job job_id revision run_id now db) _
              (rw (e, mutate_idempotently) at h) in
          elim (Option-cases o) [
            | inl n ↦
                subst (λ a. Moved db a.1) (ok-injective (rw (n, finish_mutation) at h1))
                  (Moved-refl db)
            | inr (changed, n) ↦
                receipt-Moved owner_id operation (sha256 key) (sha256 request) now
                  (mutated_row (mutated_id job job_id) changed) db changed answer
                  (apply-Moved owner_id operation job job_id revision run_id now db changed
                    (ho ∙ ap ok n))
                  (rw (n, finish_mutation) at h1)
          ]
    ]

-- Every call follows the diagrams of the runs and of the deliveries.
Step-Moved : (a b : Db) → HasKeys a → Step a b → Moved a b
unfolding create_job update_job pause_job resume_job cancel_job delete_job request_manual_run
    complete_delivery suppress_delivery mark_delivery_unknown
Step-Moved a b keys (creates same_job job now db answer h) =
    create_found-Moved same_job (find_job job.job_id a.jobs) job now a answer h
Step-Moved a b keys (updates owner_id job expected now db) =
    change-Moved _ _ owner_id job.job_id expected _ false now a
Step-Moved a b keys (pauses owner_id job_id expected now db) =
    change-Moved _ _ owner_id job_id expected _ false now a
Step-Moved a b keys (resumes owner_id job_id expected now db) =
    change-Moved _ _ owner_id job_id expected _ false now a
Step-Moved a b keys (cancels owner_id job_id expected now db) =
    change-Moved _ _ owner_id job_id expected _ true now a
Step-Moved a b keys (deletes owner_id job_id expected now db) =
    change-Moved _ _ owner_id job_id expected _ true now a
Step-Moved a b keys
      (mutates sha256 owner_id operation key request job job_id revision run_id now db answer h) =
    mutate-Moved sha256 owner_id operation key request job job_id revision run_id now a answer h
Step-Moved a b keys (requests owner_id job_id expected run_id now db answer h) =
    manual_run-Moved _ run_id now a answer h
Step-Moved a b keys (claims_run zones token now lease_seconds run_id db answer h) =
    claim_run-Moved zones token now lease_seconds run_id a answer h
Step-Moved a b keys (renews run_id token now lease_seconds db) =
    renew-Moved run_id token now lease_seconds a
Step-Moved a b keys (begins run_id token now lease_seconds db) =
    begin-Moved run_id token now lease_seconds a
Step-Moved a b keys (defers run_id token now delay_seconds db answer h) =
    defer-Moved run_id token now delay_seconds a answer h
Step-Moved a b keys (completes zones run_id token outcome frames ids now db answer h) =
    complete-Moved zones run_id token outcome frames ids now a answer keys.0 h
Step-Moved a b keys (fails zones run_id token error delivery_id now max_attempts db answer h) =
    fail-Moved zones run_id token error delivery_id now max_attempts a answer keys.0 h
Step-Moved a b keys (claims_delivery token now lease_seconds db) =
    claim_delivery-Moved token now lease_seconds a keys.1
Step-Moved a b keys (admits_delivery delivery_id token now db) = admit-Moved delivery_id token now a
Step-Moved a b keys (delivers delivery_id token receipt now pace db) =
    finish-Moved delivery_id token DeliveryStatus.delivered now receipt pace a refl
Step-Moved a b keys (suppresses delivery_id token now db) =
    finish-Moved delivery_id token DeliveryStatus.suppressed now none 0 a refl
Step-Moved a b keys (marks_unknown delivery_id token now pace db) =
    finish-Moved delivery_id token DeliveryStatus.unknown now none pace a refl
Step-Moved a b keys (rejects delivery_id token error now max_attempts pace db) =
    fail_delivery-Moved delivery_id token error now max_attempts pace a
Step-Moved a b keys (recovers now pace db) = recover-Moved now pace a
Step-Moved a b keys (redacts job_id db) =
    Moved-Kept a a (redact_terminal_if_ready job_id a).1 (Moved-refl a) (redact-Kept job_id a)

-- a delivery whose fate is decided stays as it is; so does a run that is over
abbrev pub DeliveryStays : DeliveryRow → DeliveryRow → Type 0
DeliveryStays d e = DeliverySame d e × (is_open d.status ≡ false → e.status ≡ d.status)

abbrev pub RunStays : RunRow → RunRow → Type 0
RunStays r s = RunSame r s × (is_unfinished r.status ≡ false → s.status ≡ r.status)

delivery_end : (s t : DeliveryStatus) → delivery_step s t ≡ true → is_open s ≡ false → t ≡ s
delivery_end s t h k = ground arith

run_end : (s t : RunStatus) → run_step s t ≡ true → is_unfinished s ≡ false → t ≡ s
run_end s t h k = ground arith

abbrev pub Stays : Db → Db → Type 0
Stays a b = Evolves RunStays a.runs b.runs × Evolves DeliveryStays a.deliveries b.deliveries

Stays-refl : (db : Db) → Stays db db
Stays-refl db = (
  Evolves-refl RunStays (λ r. (RunSame-refl r, λ over. refl)) db.runs,
  Evolves-refl DeliveryStays (λ d. (DeliverySame-refl d, λ over. refl)) db.deliveries,
)

Moved-Stays : (a b : Db) → Moved a b → Stays a b
Moved-Stays a b h = (
  Evolves-map (RunRel run_step) RunStays (λ r s k. (k.same, run_end r.status s.status k.step))
      a.runs b.runs h.0,
  Evolves-map (DeliveryRel delivery_step) DeliveryStays
      (λ d e k. (k.same, delivery_end d.status e.status k.step)) a.deliveries b.deliveries h.1,
)

Stays-trans : (a b c : Db) → Stays a b → Stays b c → Stays a c
Stays-trans a b c h k = (
  Evolves-trans RunStays RunStays RunStays
      (λ x y z p q.
        (RunSame-trans x y z p.0 q.0, λ over. let first = p.1 over in q.1 (rw first over) ∙ first))
      a.runs b.runs c.runs h.0 k.0,
  Evolves-trans DeliveryStays DeliveryStays DeliveryStays
      (λ x y z p q. (
        DeliverySame-trans x y z p.0 q.0,
        λ over. let first = p.1 over in q.1 (rw first over) ∙ first,
      ))
      a.deliveries b.deliveries c.deliveries h.1 k.1,
)

-- Whatever calls are made of the store, in whatever order: every run and every delivery that was in
-- its table is still in the same place with the same identity, a run that succeeded, failed or was
-- invalidated keeps that status, and so does a delivery that is delivered, exhausted, suppressed or
-- of unknown fate. The tables have unique keys at each call.
pub History-Stays : (a b : Db) → History a b → Stays a b
History-Stays a b (start db) = Stays-refl a
History-Stays a c (call {b = b} keys step rest) =
    Stays-trans a b c (Moved-Stays a b (Step-Moved a b keys step)) (History-Stays b c rest)
