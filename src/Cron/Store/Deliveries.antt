-- ===== src/Cron/Store/Deliveries.antt =====
-- The operations on deliveries (tomo_core/src/tomo_core/cron_store.py).
use tomo_v.Common.{
  ℕ, zero, suc, ◌+◌, ◌*◌, ◌-◌, ◌^◌, String, Bool, true, false, ◌&&◌, ◌||◌, not, Option, none, some,
  List, [], ◌∷◌, ltb, leb, ◌==◌, if◌then◌else◌, str_eq, exists_where, update_where, first_where,
  count_where,
}
use tomo_v.Cron.Rows.{
  Db, JobRow, DeliveryRow, DeliveryStatus, is_waiting, is_delivery_leased, is_sending, is_open,
  is_shown, is_cancelled, find_job, run_is, token_is, second,
}
use tomo_v.Cron.Store.Parts.{redact_terminal_if_ready}

abbrev pub delivery_is : String → DeliveryRow → Bool
delivery_is delivery_id d = str_eq d.delivery_id delivery_id

-- the delivery that a sender holds: its id, its token and its status
unfoldable pub sends : (DeliveryStatus → Bool) → String → String → DeliveryRow → Bool
sends allowed delivery_id token d =
    str_eq d.delivery_id delivery_id && token_is d.lease_token token && allowed d.status

-- the job of a delivery, through its run
unfoldable pub job_of_delivery : Db → DeliveryRow → Option JobRow
unfolding find_job
job_of_delivery db d = elim (first_where (run_is d.run_id) db.runs) [
  | none ↦ none
  | some r ↦ find_job r.job_id db.jobs
]

abbrev pub is_ready : Option ℕ → ℕ → Bool
is_ready none now = true
is_ready (some t) now = leb t now

-- an earlier frame of the run is not settled
unfoldable pub blocked : List DeliveryRow → DeliveryRow → Bool
blocked ds d =
    exists_where (λ e. str_eq e.run_id d.run_id && ltb e.sequence d.sequence && is_open e.status) ds

abbrev pub is_some {ℓ} : {A : Type ℓ} → Option A → Bool
is_some none = false
is_some (some x) = true

unfoldable pub deliverable : Db → ℕ → DeliveryRow → Bool
unfolding blocked job_of_delivery
deliverable db now d =
    is_waiting d.status
    && is_ready d.available_at now
    && not (blocked db.deliveries d)
    && is_some (job_of_delivery db d)

-- `order by created_at, sequence limit 1`
abbrev pub earlier_of : DeliveryRow → DeliveryRow → DeliveryRow
earlier_of d e =
    if ltb e.created_at d.created_at || e.created_at == d.created_at && ltb e.sequence d.sequence
    then e
    else d

unfoldable pub first_delivery : (DeliveryRow → Bool) → List DeliveryRow → Option DeliveryRow
first_delivery p [] = none
first_delivery p (d ∷ ds) =
    let rest = first_delivery p ds in
    if p d then some (elim rest [ none ↦ d | some e ↦ earlier_of d e ]) else rest

-- the delivery's run is of an older revision, or its job is cancelled (the join has found both)
unfoldable pub superseded : Db → DeliveryRow → Bool
superseded db d = elim (first_where (run_is d.run_id) db.runs) [
  | none ↦ false
  | some r ↦ elim (find_job r.job_id db.jobs) [
    | none ↦ false
    | some j ↦ not (r.revision == j.revision) || is_cancelled j.status
  ]
]

abbrev pub set_delivery : (DeliveryRow → Bool) → (DeliveryRow → DeliveryRow) → Db → Db
set_delivery p f db = record db { deliveries = update_where p f db.deliveries }

-- the job of a delivery, redacted if it is over
unfoldable pub redact_job_of : DeliveryRow → Db → Db
unfolding redact_terminal_if_ready job_of_delivery
redact_job_of d db = elim (job_of_delivery db d) [
  | none ↦ db
  | some j ↦ (redact_terminal_if_ready j.job_id db).1
]

unfoldable pub suppress_superseded : ℕ → DeliveryRow → Db → Db
unfolding redact_job_of
suppress_superseded now d db = redact_job_of d (
    set_delivery (delivery_is d.delivery_id)
      (λ x. record x { status = DeliveryStatus.suppressed; updated_at = now }) db)

abbrev pub lease_delivery : String → ℕ → ℕ → DeliveryRow → DeliveryRow
lease_delivery token now lease_seconds d = record d {
  status = DeliveryStatus.leased;
  attempts = d.attempts + 1;
  lease_token = some token;
  lease_until = some (now + lease_seconds * second);
  updated_at = now;
}

-- the loop of `claim_delivery`: each round suppresses one waiting delivery or ends
unfoldable pub claim_delivery_loop : ℕ → String → ℕ → ℕ → Db → Option DeliveryRow × Db
unfolding suppress_superseded
claim_delivery_loop zero token now lease_seconds db = (none, db)
claim_delivery_loop (suc fuel) token now lease_seconds db =
    elim (first_delivery (deliverable db now) db.deliveries) [
      | none ↦ (none, db)
      | some d ↦ elim (superseded db d) [
        | true ↦ claim_delivery_loop fuel token now lease_seconds (suppress_superseded now d db)
        | false ↦ (
          some (lease_delivery token now lease_seconds d),
          set_delivery (λ x. delivery_is d.delivery_id x && is_waiting x.status)
              (lease_delivery token now lease_seconds) db,
        )
      ]
    ]

-- `claim_delivery`; there are no more rounds than waiting deliveries, and one
unfoldable pub claim_delivery : String → ℕ → ℕ → Db → Option DeliveryRow × Db
unfolding claim_delivery_loop
claim_delivery token now lease_seconds db =
    claim_delivery_loop (suc (count_where (λ d. is_waiting d.status) db.deliveries)) token now
      lease_seconds db

-- `admit_delivery`: fence a leased delivery immediately before its connector send.
unfoldable pub admits : Db → String → String → DeliveryRow → Bool
unfolding sends
admits db delivery_id token d =
    sends is_delivery_leased delivery_id token d
    && exists_where
        (λ r.
          str_eq r.run_id d.run_id
          && exists_where
              (λ j. str_eq j.job_id r.job_id && d.job_revision == j.revision && is_shown j.status)
              db.jobs)
        db.runs

unfoldable pub admit_delivery : String → String → ℕ → Db → Bool × Db
unfolding admits
admit_delivery delivery_id token now db =
    let test = admits db delivery_id token in
    (
      exists_where test db.deliveries,
      set_delivery test (λ d. record d { status = DeliveryStatus.sending; updated_at = now }) db,
    )

-- a waiting delivery is not sent before `at`
abbrev pub hold_back : ℕ → ℕ → DeliveryRow → DeliveryRow
hold_back at now d = record d {
  available_at = if is_ready d.available_at at then some at else d.available_at;
  updated_at = now;
}

unfoldable pub min_waiting : String → List DeliveryRow → Option ℕ
min_waiting run_id [] = none
min_waiting run_id (d ∷ ds) =
    let rest = min_waiting run_id ds in
    if str_eq d.run_id run_id && is_waiting d.status
    then some
        (elim rest [ none ↦ d.sequence | some s ↦ if ltb s d.sequence then s else d.sequence ])
    else rest

unfoldable pub pace_sequence : String → ℕ → ℕ → ℕ → Db → Db
pace_sequence run_id now pace sequence =
    set_delivery (λ d. str_eq d.run_id run_id && d.sequence == sequence && is_waiting d.status)
      (hold_back (now + pace) now)

-- `_pace_next_delivery`, the pace in microseconds
unfoldable pub pace_next_delivery : String → ℕ → ℕ → Option ℕ → Db → Db
unfolding pace_sequence min_waiting
pace_next_delivery run_id now pace (some sequence) db =
    if pace == 0 then db else pace_sequence run_id now pace sequence db
pace_next_delivery run_id now pace none db =
    if pace == 0 then db else elim (min_waiting run_id db.deliveries) [
      | none ↦ db
      | some sequence ↦ pace_sequence run_id now pace sequence db
    ]

abbrev pub is_suppressed : DeliveryStatus → Bool
is_suppressed DeliveryStatus.suppressed = true
is_suppressed _ = false

-- what follows a delivery that was finished
unfoldable pub after_finish : DeliveryStatus → ℕ → ℕ → DeliveryRow → Db → Db
unfolding pace_next_delivery redact_job_of
after_finish status now pace d db = redact_job_of d (
    if is_suppressed status
    then db
    else pace_next_delivery d.run_id now pace (some (d.sequence + 1)) db)

abbrev pub settle : DeliveryStatus → Option String → ℕ → DeliveryRow → DeliveryRow
settle status receipt now d = record d {
  status = status;
  lease_until = none;
  receipt_id = receipt;
  updated_at = now;
}

-- `_finish_delivery`
unfoldable pub finish_delivery :
    String → String → DeliveryStatus → ℕ → Option String → ℕ → Db → Bool × Db
unfolding sends after_finish
finish_delivery delivery_id token status now receipt pace db =
    elim (first_where (sends is_sending delivery_id token) db.deliveries) [
      | none ↦ (false, db)
      | some d ↦ (
        true,
        after_finish status now pace d
            (set_delivery (sends is_sending delivery_id token) (settle status receipt now) db),
      )
    ]

-- `complete_delivery`, `suppress_delivery` and `mark_delivery_unknown`; a pace is not negative here
unfoldable pub complete_delivery : String → String → Option String → ℕ → ℕ → Db → Bool × Db
unfolding finish_delivery
complete_delivery delivery_id token receipt now pace =
    finish_delivery delivery_id token DeliveryStatus.delivered now receipt pace

unfoldable pub suppress_delivery : String → String → ℕ → Db → Bool × Db
unfolding finish_delivery
suppress_delivery delivery_id token now =
    finish_delivery delivery_id token DeliveryStatus.suppressed now none 0

unfoldable pub mark_delivery_unknown : String → String → ℕ → ℕ → Db → Bool × Db
unfolding finish_delivery
mark_delivery_unknown delivery_id token now pace =
    finish_delivery delivery_id token DeliveryStatus.unknown now none pace

abbrev pub reject : Bool → ℕ → String → ℕ → DeliveryRow → DeliveryRow
reject exhausted attempts error now d = record d {
  status = if exhausted then DeliveryStatus.exhausted else DeliveryStatus.retry_wait;
  available_at = some (now + 2 ^ (attempts - 1) * second);
  lease_until = none;
  error = some error;
  updated_at = now;
}

-- a delivery whose attempts are used up lets the next one go
unfoldable pub after_reject : Bool → ℕ → ℕ → DeliveryRow → Db → Db
after_reject true now pace d db = redact_job_of d (pace_next_delivery d.run_id now pace none db)
after_reject false now pace d db = db

-- `fail_delivery`
unfoldable pub fail_delivery : String → String → String → ℕ → ℕ → ℕ → Db → Bool × Db
fail_delivery delivery_id token error now max_attempts pace db =
    elim (first_where (sends is_sending delivery_id token) db.deliveries) [
      | none ↦ (false, db)
      | some d ↦
          let exhausted = leb max_attempts d.attempts in
          let db' =
            set_delivery (sends is_sending delivery_id token)
              (reject exhausted d.attempts error now) db in
          (true, after_reject exhausted now pace d db')
    ]
