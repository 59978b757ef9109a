-- ===== src/Cron/Moves/Deliveries.antt =====
-- The operations on deliveries under the diagrams (tomo_core/src/tomo_core/cron_store.py).
use tomo_v.Common.{
  ℕ, ◌+◌, String, Bool, true, false, Option, none, some, List, [], ◌∷◌, ◌≡◌, refl, arith, ◌&&◌, leb,
  ◌==◌, if◌then◌else◌, Evolves-refl, Evolves-update, All, All-of, Bool-cases, inl, inr,
  Option-cases, first_where, select_where,
}
use tomo_v.Cron.Rows.{
  Db, DeliveryRow, DeliveryStatus, RunStatus, is_delivery_leased, is_sending, is_in_flight, is_held,
  is_unknown, expired,
}
use tomo_v.Cron.Store.Deliveries.{
  sends, job_of_delivery, set_delivery, redact_job_of, admits, admit_delivery, hold_back,
  min_waiting, pace_sequence, pace_next_delivery, is_suppressed, after_finish, settle,
  finish_delivery, reject, after_reject, fail_delivery,
}
use tomo_v.Cron.Store.Recovery.{pace_all, redact_all, recover_rows, recover_expired_leases}
use tomo_v.Cron.Moves.{
  RunRel, RunKept, run_step, DeliveryRel, DeliveryKept, delivery_step, Kept, Moved,
}
use tomo_v.Cron.Moves.Parts.{
  RunSame-of, DeliverySame-of, RunRel-refl, DeliveryRel-refl, RunKept-refl, DeliveryKept-refl,
  Kept-refl, Moved-refl, Kept-trans, Moved-Kept, redact-Kept,
}

pub redact_job_of-Kept : (d : DeliveryRow) (db : Db) → Kept db (redact_job_of d db)
unfolding redact_job_of
redact_job_of-Kept d db = elim (Option-cases (job_of_delivery db d)) [
  | inl e ↦ rw (e, redact_job_of) (Kept-refl db)
  | inr (j, e) ↦ rw (e, redact_job_of) (redact-Kept j.job_id db)
]

-- an UPDATE of deliveries that relates what it writes
set_delivery-Moved :
    (p : DeliveryRow → Bool) (f : DeliveryRow → DeliveryRow) (db : Db)
    → All (λ d. p d ≡ true → DeliveryRel delivery_step d (f d)) db.deliveries
    → Moved db (set_delivery p f db)
set_delivery-Moved p f db a = (
  Evolves-refl (RunRel run_step) RunRel-refl db.runs,
  Evolves-update (DeliveryRel delivery_step) DeliveryRel-refl p f db.deliveries a,
)

set_delivery-Kept :
    (p : DeliveryRow → Bool) (f : DeliveryRow → DeliveryRow) (db : Db)
    → ((d : DeliveryRow) → DeliveryKept d (f d))
    → Kept db (set_delivery p f db)
set_delivery-Kept p f db a = (
  Evolves-refl RunKept RunKept-refl db.runs,
  Evolves-update DeliveryKept DeliveryKept-refl p f db.deliveries
      (All-of (λ d hit. a d) db.deliveries),
)

pace_sequence-Kept :
    (run_id : String) (now pace sequence : ℕ) (db : Db)
    → Kept db (pace_sequence run_id now pace sequence db)
unfolding pace_sequence
pace_sequence-Kept run_id now pace sequence db =
    set_delivery-Kept _ (hold_back (now + pace) now) db
      (λ d. record { same = DeliverySame-of d _ refl refl refl refl; status = refl })

-- pacing changes no status
pub pace-Kept :
    (run_id : String) (now pace : ℕ) (sequence : Option ℕ) (db : Db)
    → Kept db (pace_next_delivery run_id now pace sequence db)
unfolding pace_next_delivery
pace-Kept run_id now pace (some sequence) db = elim (Bool-cases (pace == 0)) [
  | inl e ↦ rw e (Kept-refl db)
  | inr e ↦ rw e (pace_sequence-Kept run_id now pace sequence db)
]
pace-Kept run_id now pace none db = elim (Bool-cases (pace == 0)) [
  | inl e ↦ rw e (Kept-refl db)
  | inr e ↦ elim (Option-cases (min_waiting run_id db.deliveries)) [
    | inl m ↦ rw (e, m) (Kept-refl db)
    | inr (sequence, m) ↦ rw (e, m) (pace_sequence-Kept run_id now pace sequence db)
  ]
]

admits_step :
    (s : DeliveryStatus)
    → is_delivery_leased s ≡ true
    → delivery_step s DeliveryStatus.sending ≡ true
admits_step s h = ground arith

pub admit-Moved :
    (delivery_id token : String) (now : ℕ) (db : Db)
    → Moved db (admit_delivery delivery_id token now db).1
unfolding admit_delivery
admit-Moved delivery_id token now db = set_delivery-Moved (admits db delivery_id token) _ db (
    All-of
      (λ d hit. record {
        same = DeliverySame-of d _ refl refl refl refl;
        step = admits_step d.status (ground arith);
      })
      db.deliveries)

-- where a sending delivery may go
abbrev settles : DeliveryStatus → Bool
settles s = delivery_step DeliveryStatus.sending s

sends_step :
    (s t : DeliveryStatus) → is_sending s ≡ true → settles t ≡ true → delivery_step s t ≡ true
sends_step s t h k = ground arith

sends-is_sending :
    (delivery_id token : String) (d : DeliveryRow)
    → sends is_sending delivery_id token d ≡ true
    → is_sending d.status ≡ true
unfolding sends
sends-is_sending delivery_id token d h = ground arith

rejects :
    (exhausted : Bool)
    → settles (if exhausted then DeliveryStatus.exhausted else DeliveryStatus.retry_wait) ≡ true
rejects exhausted = ground arith

set_sending-Moved :
    (delivery_id token : String) (f : DeliveryRow → DeliveryRow) (db : Db)
    → ((d : DeliveryRow) → is_sending d.status ≡ true → DeliveryRel delivery_step d (f d))
    → Moved db (set_delivery (sends is_sending delivery_id token) f db)
set_sending-Moved delivery_id token f db moves =
    set_delivery-Moved (sends is_sending delivery_id token) f db
      (All-of (λ d hit. moves d (sends-is_sending delivery_id token d hit)) db.deliveries)

after_finish-Kept :
    (status : DeliveryStatus) (now pace : ℕ) (d : DeliveryRow) (db : Db)
    → Kept db (after_finish status now pace d db)
unfolding after_finish
after_finish-Kept status now pace d db = elim (Bool-cases (is_suppressed status)) [
  | inl e ↦ rw e (redact_job_of-Kept d db)
  | inr e ↦
      let paced = pace_next_delivery d.run_id now pace (some (d.sequence + 1)) db in
      rw e (
        Kept-trans db paced (redact_job_of d paced)
          (pace-Kept d.run_id now pace (some (d.sequence + 1)) db) (redact_job_of-Kept d paced))
]

pub finish-Moved :
    (delivery_id token : String) (status : DeliveryStatus) (now : ℕ) (receipt : Option String)
    (pace : ℕ) (db : Db)
    → settles status ≡ true
    → Moved db (finish_delivery delivery_id token status now receipt pace db).1
unfolding finish_delivery
finish-Moved delivery_id token status now receipt pace db ok_status =
    elim (Option-cases (first_where (sends is_sending delivery_id token) db.deliveries)) [
      | inl e ↦ rw (e, finish_delivery) (Moved-refl db)
      | inr (d, e) ↦
          let sent =
            set_delivery (sends is_sending delivery_id token) (settle status receipt now) db in
          rw (e, finish_delivery)
            (Moved-Kept db sent (after_finish status now pace d sent)
              (set_sending-Moved delivery_id token (settle status receipt now) db (λ x sending.
                record {
                  same = DeliverySame-of x _ refl refl refl refl;
                  step = sends_step x.status status sending ok_status;
                }))
              (after_finish-Kept status now pace d sent))
    ]

after_reject-Kept :
    (exhausted : Bool) (now pace : ℕ) (d : DeliveryRow) (db : Db)
    → Kept db (after_reject exhausted now pace d db)
unfolding after_reject
after_reject-Kept true now pace d db =
    let paced = pace_next_delivery d.run_id now pace none db in
    Kept-trans db paced (redact_job_of d paced) (pace-Kept d.run_id now pace none db)
      (redact_job_of-Kept d paced)
after_reject-Kept false now pace d db = Kept-refl db

pub fail_delivery-Moved :
    (delivery_id token error : String) (now max_attempts pace : ℕ) (db : Db)
    → Moved db (fail_delivery delivery_id token error now max_attempts pace db).1
unfolding fail_delivery
fail_delivery-Moved delivery_id token error now max_attempts pace db =
    elim (Option-cases (first_where (sends is_sending delivery_id token) db.deliveries)) [
      | inl e ↦ rw (e, fail_delivery) (Moved-refl db)
      | inr (d, e) ↦
          let exhausted = leb max_attempts d.attempts in
          let failed =
            set_delivery (sends is_sending delivery_id token)
              (reject exhausted d.attempts error now) db in
          let moved =
            set_sending-Moved delivery_id token (reject exhausted d.attempts error now) db
              (λ x sending. record {
                same = DeliverySame-of x _ refl refl refl refl;
                step = sends_step x.status _ sending (rejects exhausted);
              }) in
          rw (e, fail_delivery)
            (Moved-Kept db failed (after_reject exhausted now pace d failed) moved
              (after_reject-Kept exhausted now pace d failed))
    ]

-- what becomes of a delivery whose lease expired
recovers :
    (s : DeliveryStatus)
    → is_in_flight s ≡ true
    → delivery_step s (if is_sending s then DeliveryStatus.unknown else DeliveryStatus.pending)
      ≡ true
recovers s h = ground arith

lost_run : (s : RunStatus) → is_held s ≡ true → run_step s RunStatus.pending ≡ true
lost_run s h = ground arith

recover_rows-Moved : (now : ℕ) (db : Db) → Moved db (recover_rows now db)
unfolding recover_rows
recover_rows-Moved now db = (
  Evolves-update (RunRel run_step) RunRel-refl _ _ db.runs (
      All-of
        (λ r hit. record {
          same = RunSame-of r _ refl refl refl refl refl;
          step = lost_run r.status (ground arith);
        })
        db.runs),
  Evolves-update (DeliveryRel delivery_step) DeliveryRel-refl _ _ db.deliveries (
      All-of
        (λ d hit. record {
          same = DeliverySame-of d _ refl refl refl refl;
          step = recovers d.status (ground arith);
        })
        db.deliveries),
)

pace_all-Kept : (now pace : ℕ) (ds : List DeliveryRow) (db : Db) → Kept db (pace_all now pace ds db)
unfolding pace_all
pace_all-Kept now pace [] db = Kept-refl db
pace_all-Kept now pace (d ∷ ds) db =
    let paced = pace_next_delivery d.run_id now pace none db in
    Kept-trans db paced (pace_all now pace ds paced) (pace-Kept d.run_id now pace none db)
      (pace_all-Kept now pace ds paced)

redact_all-Kept : (ds : List DeliveryRow) (db : Db) → Kept db (redact_all ds db)
unfolding redact_all
redact_all-Kept [] db = Kept-refl db
redact_all-Kept (d ∷ ds) db =
    Kept-trans db (redact_job_of d db) (redact_all ds (redact_job_of d db))
      (redact_job_of-Kept d db) (redact_all-Kept ds (redact_job_of d db))

pub recover-Moved : (now pace : ℕ) (db : Db) → Moved db (recover_expired_leases now pace db).1
unfolding recover_expired_leases
recover-Moved now pace db =
    let expired_sends =
      select_where (λ d. is_sending d.status && expired d.lease_until now) db.deliveries in
    let recovered = recover_rows now db in
    let paced = pace_all now pace expired_sends recovered in
    let unknown = select_where (λ d. is_unknown d.status && d.updated_at == now) paced.deliveries in
    Moved-Kept db recovered (redact_all unknown paced) (recover_rows-Moved now db) (
      Kept-trans recovered paced (redact_all unknown paced)
        (pace_all-Kept now pace expired_sends recovered) (redact_all-Kept unknown paced))
