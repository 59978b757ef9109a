-- ===== src/Cron/Laws/Replay.antt =====
-- `mutate_idempotently` of tomo_core/src/tomo_core/cron_store.py: a retried request is answered from
-- its receipt.
use mathlib.Core.Path.{subst}
use tomo_v.Common.{
  first_where-append, ℕ, ◌+◌, String, Bool, true, false, ◌&&◌, ◌||◌, not, Option, none, some, ◌≡◌,
  refl, ap, ◌∙◌, Bool-cases, Option-cases, inl, inr, ok, err, ◌>>=◌, >>=-eq-ok, ok-injective,
  str_eq, eq_refl, first_where, first_where-none, exists_where, exists_where-false, update_where,
  All, All-update_where,
}
use tomo_v.Cron.Errors.{idempotency_conflict}
use tomo_v.Cron.Rows.{
  Db, JobRow, RunRow, CronJob, ReceiptRow, JobStatus, Action, Trigger, find_job, is_terminal,
  record_event,
}
use tomo_v.Cron.Store.Parts.{
  job_of_row, invalidate_stale_work, redact_terminal_if_ready, redact_found, redact_tables,
  any_open, active_run, add_run, run_clashes, new_run,
}
use tomo_v.Cron.Store.Jobs.{insert_job, manual_run, change_job, after_change, may_change}
use tomo_v.Cron.Laws.Mutation.{apply_mutation-keeps}
use tomo_v.Cron.Store.Mutations.{
  receipt_is, apply_mutation, mutated_id, mutated_row, add_receipt, finish_mutation, replay,
  mutate_idempotently,
}

module _ (owner_id operation key_hash : String) where
  -- no receipt has the key
  abbrev NoReceipt : Db → Type 0
  NoReceipt db = All (λ c. receipt_is owner_id operation key_hash c ≡ false) db.receipts

  redact_found-NoReceipt :
      (o : Option JobRow) (job_id : String) (db : Db)
      → NoReceipt db
      → NoReceipt (redact_found o job_id db).1
  unfolding redact_found redact_tables receipt_is
  redact_found-NoReceipt none job_id db a = a
  redact_found-NoReceipt (some j) job_id db a =
      elim (Bool-cases (not (is_terminal j.status) || any_open db job_id)) [
        | inl e ↦ rw e a
        | inr e ↦ rw e (
            All-update_where {P = λ c. receipt_is owner_id operation key_hash c ≡ false}
              {Q = λ c. receipt_is owner_id operation key_hash c ≡ false}
              (λ c. str_eq c.owner_id j.owner_id && str_eq c.job_id j.job_id) _ db.receipts
              (λ x hit p. p) (λ x miss p. p) a)
      ]

  after_change-NoReceipt :
      (job_id : String) (current : ℕ) (action : Action) (cancelled : Bool) (now : ℕ) (db : Db)
      → NoReceipt db
      → NoReceipt (after_change job_id current action cancelled now db)
  unfolding after_change redact_terminal_if_ready invalidate_stale_work
  after_change-NoReceipt job_id current action true now db a =
      let noted = record_event job_id action now (invalidate_stale_work job_id current now db) in
      redact_found-NoReceipt (find_job job_id noted.jobs) job_id noted a
  after_change-NoReceipt job_id current action false now db a = a

  change-NoReceipt :
      (allowed : JobStatus → Bool) (f : JobRow → JobRow) (owner job_id : String) (expected : ℕ)
      (action : Action) (cancelled : Bool) (now : ℕ) (db : Db)
      → NoReceipt db
      → NoReceipt (change_job allowed f owner job_id expected action cancelled now db).1
  unfolding change_job
  change-NoReceipt allowed f owner job_id expected action cancelled now db a =
      let test = may_change allowed owner job_id expected db in
      elim (Bool-cases (exists_where test db.jobs)) [
        | inr e ↦ rw e a
        | inl e ↦ rw e (
            after_change-NoReceipt job_id (expected + 1) action cancelled now
              (record db { jobs = update_where test f db.jobs }) a)
      ]

  add_run-NoReceipt :
      (run_id : String) (j : JobRow) (due : ℕ) (now : ℕ) (db : Db) (added : RunRow × Db)
      → NoReceipt db
      → add_run run_id j due Trigger.manual now db ≡ ok added
      → NoReceipt added.1
  unfolding add_run
  add_run-NoReceipt run_id j due now db added a h =
      elim (Bool-cases
        (exists_where (run_clashes (new_run run_id j due Trigger.manual now)) db.runs)) [
          | inl e ↦ absurd (cc (e, h))
          | inr e ↦ subst (λ x. NoReceipt x.1) (ok-injective (rw e at h)) a
        ]

  manual_run-NoReceipt :
      (o : Option JobRow) (run_id : String) (now : ℕ) (db : Db) (answer : Option RunRow × Db)
      → NoReceipt db
      → manual_run o run_id now db ≡ ok answer
      → NoReceipt answer.1
  unfolding manual_run
  manual_run-NoReceipt none run_id now db answer a h = subst (λ x. NoReceipt x.1) (ok-injective h) a
  manual_run-NoReceipt (some j) run_id now db answer a h =
      elim (Bool-cases (active_run db j.job_id)) [
        | inl e ↦ subst (λ x. NoReceipt x.1) (ok-injective (rw e at h)) a
        | inr e ↦
            let (added, ha, h1) =
              >>=-eq-ok (add_run run_id j now Trigger.manual now db) _ (rw e at h) in
            subst (λ x. NoReceipt x.1) (ok-injective h1)
              (add_run-NoReceipt run_id j now now db added a ha)
      ]

insert_job-NoReceipt :
    (owner_id operation key_hash : String) (job : CronJob) (now : ℕ) (db : Db)
    → NoReceipt owner_id operation key_hash db
    → NoReceipt owner_id operation key_hash (insert_job job now db)
unfolding insert_job
insert_job-NoReceipt owner_id operation key_hash job now db a = a

apply-NoReceipt :
    (owner_id operation key_hash : String) (job : Option CronJob) (job_id : Option String)
    (revision : Option ℕ) (run_id : String) (now : ℕ) (db changed : Db)
    → first_where (receipt_is owner_id operation key_hash) db.receipts ≡ none
    → apply_mutation owner_id operation job job_id revision run_id now db ≡ ok (some changed)
    → NoReceipt owner_id operation key_hash changed
apply-NoReceipt owner_id operation key_hash job job_id revision run_id now db changed free h =
    let a : NoReceipt owner_id operation key_hash db =
      exists_where-false (receipt_is owner_id operation key_hash) db.receipts
        (first_where-none (receipt_is owner_id operation key_hash) db.receipts free) in
    apply_mutation-keeps (NoReceipt owner_id operation key_hash) now db
      (λ j. insert_job-NoReceipt owner_id operation key_hash j now db a)
      (λ allowed f owner id expected action cancelled.
        change-NoReceipt owner_id operation key_hash allowed f owner id expected action cancelled
          now db a)
      (λ o run answer started.
        manual_run-NoReceipt owner_id operation key_hash o run now db answer a started)
      owner_id operation job job_id revision run_id changed h

-- the receipt that `add_receipt` appends
receipt_added :
    (owner_id operation key_hash request_hash : String) (now : ℕ) (o : Option JobRow)
    (changed after : Db) (current : CronJob)
    → NoReceipt owner_id operation key_hash changed
    → add_receipt owner_id operation key_hash request_hash now o changed
      ≡ ok ((some current, false), after)
    → (c : ReceiptRow) × (first_where (receipt_is owner_id operation key_hash) after.receipts
        ≡ some c)
      × (c.response ≡ current)
      × (c.request_hash ≡ request_hash)
unfolding add_receipt receipt_is
receipt_added owner_id operation key_hash request_hash now none changed after current a h =
    absurd (cc h)
receipt_added owner_id operation key_hash request_hash now (some row) changed after current a h =
    let job = job_of_row row in
    let c : ReceiptRow = record {
      owner_id = owner_id;
      operation = operation;
      job_id = job.job_id;
      key_hash = key_hash;
      request_hash = request_hash;
      response = job;
      created_at = now;
    } in
    let q = ok-injective h in
    let answered : some job ≡ some current = ap (λ x. x.0.0) q in
    let found =
      first_where-append (receipt_is owner_id operation key_hash) changed.receipts c a
        (rw (eq_refl owner_id, eq_refl operation, eq_refl key_hash) refl) in
    (
      c,
      subst (λ l. first_where (receipt_is owner_id operation key_hash) l ≡ some c)
          (ap (λ x. x.1.receipts) q) found,
      cc answered,
      refl,
    )

-- a replay says that it is one
not_replayed :
    (c : ReceiptRow) (request_hash : String) (db : Db) (answer : (Option CronJob × Bool) × Db)
    → answer.0.1 ≡ false
    → replay c request_hash db ≡ ok answer
    → ⊥
unfolding replay
not_replayed c request_hash db answer fresh h =
    elim (Bool-cases (str_eq c.request_hash request_hash)) [
      | inl e ↦
          let q : true ≡ answer.0.1 = ap (λ x. x.0.1) (ok-injective (rw e at h)) in cc (q, fresh)
      | inr e ↦ cc (rw e at h)
    ]

mutation_receipt :
    (sha256 : String → String) (owner_id operation key request : String) (job : Option CronJob)
    (job_id : Option String) (revision : Option ℕ) (run_id : String) (now : ℕ) (db after : Db)
    (current : CronJob)
    → first_where (receipt_is owner_id operation (sha256 key)) db.receipts ≡ none
    → (apply_mutation owner_id operation job job_id revision run_id now db >>= λ changed.
        finish_mutation owner_id operation
          (sha256 key)
          (sha256 request)
          (mutated_id job job_id)
          now
          changed
          db)
      ≡ ok ((some current, false), after)
    → (c : ReceiptRow) × (first_where (receipt_is owner_id operation (sha256 key)) after.receipts
        ≡ some c)
      × (c.response ≡ current)
      × (c.request_hash ≡ sha256 request)
unfolding finish_mutation
mutation_receipt sha256 owner_id operation key request job job_id revision run_id now db after
      current e h =
    let (o, ho, h1) =
      >>=-eq-ok (apply_mutation owner_id operation job job_id revision run_id now db) _ h in
    elim (Option-cases o) [
      | inl n ↦
          let q : none ≡ some current =
            ap (λ x. x.0.0) (ok-injective (rw (n, finish_mutation) at h1)) in
          absurd (cc q)
      | inr (changed, n) ↦
          receipt_added owner_id operation (sha256 key) (sha256 request) now
            (mutated_row (mutated_id job job_id) changed) changed after current
            (apply-NoReceipt owner_id operation (sha256 key) job job_id revision run_id now db
              changed e (ho ∙ ap ok n))
            (rw (n, finish_mutation) at h1)
    ]

replay_same :
    (c : ReceiptRow) (request_hash : String) (db : Db)
    → c.request_hash ≡ request_hash
    → replay c request_hash db ≡ ok ((some c.response, true), db)
unfolding replay
replay_same c request_hash db h = rw (h, eq_refl request_hash) refl

replay_other :
    (c : ReceiptRow) (request_hash other : String) (db : Db)
    → c.request_hash ≡ request_hash
    → str_eq request_hash other ≡ false
    → replay c other db ≡ err idempotency_conflict
unfolding replay
replay_other c request_hash other db h different = rw (h, different) refl

-- A mutation that was applied and answered with a job is answered from its receipt ever after while
-- the receipt stands: the same request under the same key, at any later time and with whatever
-- arguments, gets the same job, says that it is a replay and writes nothing; another request under
-- the key (one with another digest) is refused as a conflict.
pub mutate-replays :
    (sha256 : String → String) (owner_id operation key request : String) (job : Option CronJob)
    (job_id : Option String) (revision : Option ℕ) (run_id : String) (now : ℕ) (db after : Db)
    (current : CronJob)
    → mutate_idempotently sha256 owner_id operation key request job job_id revision run_id now db
      ≡ ok ((some current, false), after)
    → (other : String) (job' : Option CronJob) (job_id' : Option String) (revision' : Option ℕ)
      (run_id' : String) (later : ℕ)
    → (mutate_idempotently sha256 owner_id operation key request job' job_id' revision' run_id'
          later after
        ≡ ok ((some current, true), after))
      × (str_eq (sha256 request) (sha256 other) ≡ false
          → mutate_idempotently sha256 owner_id operation key other job' job_id' revision' run_id'
              later after
            ≡ err idempotency_conflict)
unfolding mutate_idempotently
mutate-replays sha256 owner_id operation key request job job_id revision run_id now db after current
      h other job' job_id' revision' run_id' later =
    elim (Option-cases (first_where (receipt_is owner_id operation (sha256 key)) db.receipts)) [
      | inr (c, e) ↦ absurd (
          not_replayed c (sha256 request) db ((some current, false), after) refl
            (rw (e, mutate_idempotently) at h))
      | inl e ↦
          let (c, found, response, request_hash) =
            mutation_receipt sha256 owner_id operation key request job job_id revision run_id now db
              after current e (rw (e, mutate_idempotently) at h) in
          (
            rw (found, mutate_idempotently)
                (replay_same c (sha256 request) after request_hash
                  ∙ ap (λ r. ok ((some r, true), after)) response),
            λ different.
                rw (found, mutate_idempotently)
                  (replay_other c (sha256 request) (sha256 other) after request_hash different),
          )
    ]
