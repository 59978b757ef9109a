-- ===== src/Cron/Laws/Redaction.antt =====
-- `_redact_terminal_if_ready` of tomo_core/src/tomo_core/cron_store.py: what a redaction erases.
use mathlib.Core.Path.{subst}
use tomo_v.Common.{
  String, true, false, ◌&&◌, ◌||◌, not, none, some, List, [], ◌≡◌, refl, ap, arith, Bool-cases,
  Option-cases, inl, inr, str_eq, eq_iff, All-of, All-first_where, Bool, Evolves, update_where,
  update_where-Evolves,
}
use tomo_v.Cron.Rows.{
  Db, JobRow, RunRow, DeliveryRow, ReceiptRow, is_terminal, find_job, job_is, run_of_job,
}
use tomo_v.Cron.Store.Parts.{
  job_of_row, any_open, redact_tables, redact_found, redact_terminal_if_ready,
}

-- what a redaction makes of a row: it is erased where it belongs to the job, and else it is left alone
abbrev Redacts {ℓ} : {A : Type ℓ} → (A → Bool) → (A → A → Type 0) → A → A → Type ℓ
Redacts test Gone a b = (test a ≡ true → Gone a b) × (test a ≡ false → b ≡ a)

-- the job's intent, constraints and destination are gone
abbrev pub ErasedJob : JobRow → JobRow → Type 0
ErasedJob a b =
    (b.intent_text ≡ "")
    × (b.constraints ≡ [])
    × (b.destination ≡ "")
    × (b.job_id ≡ a.job_id)
    × (b.status ≡ a.status)

abbrev pub ErasedRun : RunRow → RunRow → Type 0
ErasedRun a b = (b.output ≡ none) × (b.error ≡ none) × (b.run_id ≡ a.run_id) × (b.status ≡ a.status)

-- a delivery keeps its destination
abbrev pub ErasedDelivery : DeliveryRow → DeliveryRow → Type 0
ErasedDelivery a b =
    (b.output ≡ none)
    × (b.error ≡ none)
    × (b.destination ≡ a.destination)
    × (b.delivery_id ≡ a.delivery_id)
    × (b.status ≡ a.status)

-- what a receipt of the job answers is the tombstone
abbrev pub ErasedReceipt : ReceiptRow → ReceiptRow → Type 0
ErasedReceipt a b =
    (b.response.intent ≡ "[redacted]")
    × (b.response.constraints ≡ [])
    × (b.response.destination ≡ "telegram:redacted")

abbrev pub Erased : String → JobRow → Db → Db → Type 0
Erased job_id j db after =
    Evolves (Redacts (job_is job_id) ErasedJob) db.jobs after.jobs
    × Evolves (Redacts (λ r. str_eq r.job_id job_id) ErasedRun) db.runs after.runs
    × Evolves (Redacts (λ d. run_of_job db.runs d.run_id job_id) ErasedDelivery) db.deliveries
        after.deliveries
    × Evolves (Redacts (λ c. str_eq c.owner_id j.owner_id && str_eq c.job_id job_id) ErasedReceipt)
        db.receipts after.receipts

redacted :
    {A : Type 0} (test : A → Bool) (Gone : A → A → Type 0) (f : A → A) (l : List A)
    → ((x : A) → Gone x (f x))
    → Evolves (Redacts test Gone) l (update_where test f l)
redacted test Gone f l gone =
    update_where-Evolves (Redacts test Gone) test f l
      (λ x hit. (λ _. gone x, λ miss. absurd (cc (hit, miss))))
      (λ x miss. (λ hit. absurd (cc (hit, miss)), λ _. refl))

tables-Erased : (j : JobRow) (db : Db) → Erased j.job_id j db (redact_tables j db)
unfolding redact_tables job_of_row
tables-Erased j db = (
  redacted _ ErasedJob _ db.jobs (λ x. (refl, refl, refl, refl, refl)),
  redacted _ ErasedRun _ db.runs (λ x. (refl, refl, refl, refl)),
  redacted _ ErasedDelivery _ db.deliveries (λ x. (refl, refl, refl, refl, refl)),
  redacted _ ErasedReceipt _ db.receipts (λ x. (refl, refl, refl)),
)

job_of-found :
    (job_id : String) (db : Db) (j : JobRow) → find_job job_id db.jobs ≡ some j → j.job_id ≡ job_id
unfolding find_job
job_of-found job_id db j h =
    (eq_iff j.job_id job_id).0
      (All-first_where (λ _. Unit {0}) (job_is job_id) db.jobs j h (All-of (λ _. tt) db.jobs)).1

-- Where a job is redacted, it was ended or cancelled and no delivery of its runs was still open; and
-- then its intent, constraints and destination are empty, its runs and their deliveries hold neither
-- an output nor an error, and the receipts of its owner's mutations answer with a tombstone, while ids
-- and statuses stay. The deliveries keep the destination that they were sent to. Rows of other jobs
-- are left as they were.
pub redact-Erased :
    (job_id : String) (db after : Db)
    → redact_terminal_if_ready job_id db ≡ (true, after)
    → (j : JobRow) × (find_job job_id db.jobs ≡ some j)
      × (is_terminal j.status ≡ true)
      × (any_open db job_id ≡ false)
      × Erased job_id j db after
unfolding redact_terminal_if_ready redact_found
redact-Erased job_id db after h = elim (Option-cases (find_job job_id db.jobs)) [
  | inl e ↦ absurd (cc (ap (λ a. a.0) (rw (e, redact_found) at h)))
  | inr (j, e) ↦ elim (Bool-cases (not (is_terminal j.status) || any_open db job_id)) [
    | inl f ↦ absurd (cc (ap (λ a. a.0) (rw (e, f, redact_found) at h)))
    | inr f ↦
        let q : redact_tables j db ≡ after = ap (λ a. a.1) (rw (e, f, redact_found) at h) in
        let same = job_of-found job_id db j e in
        (
          j,
          e,
          ground arith,
          ground arith,
          subst (λ i. Erased i j db after) same
              (subst (Erased j.job_id j db) q (tables-Erased j db)),
        )
  ]
]
