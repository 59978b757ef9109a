-- ===== src/Cron/Moves/ClaimDelivery.antt =====
-- `claim_delivery` of tomo_core/src/tomo_core/cron_store.py under the diagrams. Delivery ids are
-- unique, as the primary key keeps them.
use mathlib.Core.Path.{subst}
use tomo_v.Common.{
  ℕ, zero, suc, String, Bool, true, false, Option, none, some, List, [], ◌∷◌, map, ◌≡◌, refl, sym,
  ◌∙◌, arith, ◌&&◌, ◌||◌, not, ltb, ◌==◌, Evolves, Evolves-refl, Evolves-trans, Evolves-map, All,
  All-of, All-map, Bool-cases, ◌⊎◌, inl, inr, Option-cases, update_where, Unique, In, In-only,
  map-update_where, count_where,
}
use tomo_v.Cron.Rows.{Db, JobRow, DeliveryRow, DeliveryStatus, is_waiting, is_terminal, find_job}
use tomo_v.Cron.Store.Parts.{redact_terminal_if_ready, redact_tables, redact_found, any_open}
use tomo_v.Cron.Store.Deliveries.{
  delivery_is, job_of_delivery, deliverable, earlier_of, first_delivery, superseded, set_delivery,
  redact_job_of, suppress_superseded, lease_delivery, claim_delivery_loop, claim_delivery,
}
use tomo_v.Cron.Moves.{
  DeliverySame, RunRel, RunKept, run_step, DeliveryRel, DeliveryKept, delivery_step, Kept, Moved,
}
use tomo_v.Cron.Moves.Parts.{
  DeliverySame-of, DeliverySame-trans, RunSame-trans, RunKept-refl, DeliverySame-refl,
  run_step_refl,
}
use tomo_v.Cron.Moves.Deliveries.{redact_job_of-Kept}

abbrev pub delivery_ids : Db → List String
delivery_ids db = map (λ (d : DeliveryRow). d.delivery_id) db.deliveries

redact_found-ids :
    (o : Option JobRow) (job_id : String) (db : Db)
    → delivery_ids (redact_found o job_id db).1 ≡ delivery_ids db
unfolding redact_found redact_tables
redact_found-ids none job_id db = refl
redact_found-ids (some j) job_id db =
    elim (Bool-cases (not (is_terminal j.status) || any_open db job_id)) [
      | inl e ↦ rw e
      | inr e ↦
          rw e (map-update_where (λ (d : DeliveryRow). d.delivery_id) _ _ db.deliveries (λ d. refl))
    ]

pub redact-ids :
    (job_id : String) (db : Db)
    → delivery_ids (redact_terminal_if_ready job_id db).1 ≡ delivery_ids db
unfolding redact_terminal_if_ready
redact-ids job_id db = redact_found-ids (find_job job_id db.jobs) job_id db

pub redact_job_of-ids :
    (d : DeliveryRow) (db : Db) → delivery_ids (redact_job_of d db) ≡ delivery_ids db
unfolding redact_job_of
redact_job_of-ids d db = elim (Option-cases (job_of_delivery db d)) [
  | inl e ↦ rw (e, redact_job_of)
  | inr (j, e) ↦ rw (e, redact_job_of) (redact-ids j.job_id db)
]

pub suppress_superseded-ids :
    (now : ℕ) (d : DeliveryRow) (db : Db)
    → delivery_ids (suppress_superseded now d db) ≡ delivery_ids db
unfolding suppress_superseded
suppress_superseded-ids now d db =
    redact_job_of-ids d _
    ∙ map-update_where (λ (d : DeliveryRow). d.delivery_id) _ _ db.deliveries (λ d. refl)

-- The row that is chosen is one of the table, and passes the test.
earlier_of-either : (d e : DeliveryRow) → (earlier_of d e ≡ d) ⊎ (earlier_of d e ≡ e)
earlier_of-either d e =
    elim (Bool-cases (
      ltb e.created_at d.created_at || e.created_at == d.created_at && ltb e.sequence d.sequence)) [
        | inl h ↦ rw h (inr refl)
        | inr h ↦ rw h (inl refl)
      ]

pub first_delivery-In :
    (p : DeliveryRow → Bool) (ds : List DeliveryRow) (d : DeliveryRow)
    → first_delivery p ds ≡ some d
    → In d ds × (p d ≡ true)
unfolding first_delivery
first_delivery-In p [] d h = cc
first_delivery-In p (x ∷ xs) d h = elim (Bool-cases (p x)) [
  | inr miss ↦
      let (i, hy) = first_delivery-In p xs d (rw (miss, first_delivery) at h) in (inr i, hy)
  | inl hit ↦ elim (Option-cases (first_delivery p xs)) [
    | inl e ↦ let q : x ≡ d = ground arith in (inl (sym q), subst (λ y. p y ≡ true) q hit)
    | inr (y, e) ↦
        let (i, hy) = first_delivery-In p xs y e in
        let chosen : some (earlier_of x y) ≡ some d = rw (hit, e, first_delivery) at h in
        let q : earlier_of x y ≡ d = cc chosen in
        elim (earlier_of-either x y) [
          | inl l ↦ (inl (sym q ∙ l), subst (λ z. p z ≡ true) (sym l ∙ q) hit)
          | inr l ↦
              (inr (subst (λ z. In z xs) (sym l ∙ q) i), subst (λ z. p z ≡ true) (sym l ∙ q) hy)
        ]
  ]
]

-- the rounds of the loop: waiting deliveries that are suppressed
abbrev pub drop_step : DeliveryStatus → DeliveryStatus → Bool
drop_step DeliveryStatus.pending DeliveryStatus.pending = true
drop_step DeliveryStatus.pending DeliveryStatus.suppressed = true
drop_step DeliveryStatus.retry_wait DeliveryStatus.retry_wait = true
drop_step DeliveryStatus.retry_wait DeliveryStatus.suppressed = true
drop_step DeliveryStatus.leased DeliveryStatus.leased = true
drop_step DeliveryStatus.sending DeliveryStatus.sending = true
drop_step DeliveryStatus.delivered DeliveryStatus.delivered = true
drop_step DeliveryStatus.exhausted DeliveryStatus.exhausted = true
drop_step DeliveryStatus.suppressed DeliveryStatus.suppressed = true
drop_step DeliveryStatus.unknown DeliveryStatus.unknown = true
drop_step _ _ = false

drop_step_trans :
    (a b c : DeliveryStatus) → drop_step a b ≡ true → drop_step b c ≡ true → drop_step a c ≡ true
drop_step_trans a b c h k = ground arith

drop_step-step : (a b : DeliveryStatus) → drop_step a b ≡ true → delivery_step a b ≡ true
drop_step-step a b h = ground arith

drop_then_lease :
    (a b : DeliveryStatus)
    → drop_step a b ≡ true
    → is_waiting b ≡ true
    → delivery_step a DeliveryStatus.leased ≡ true
drop_then_lease a b h k = ground arith

-- the rounds so far: deliveries were dropped, and runs are as they were
abbrev pub Dropped : Db → Db → Type 0
Dropped a b =
    Evolves RunKept a.runs b.runs × Evolves (DeliveryRel drop_step) a.deliveries b.deliveries

drop_step_refl : (s : DeliveryStatus) → drop_step s s ≡ true
drop_step_refl s = ground arith

pub Dropped-refl : (db : Db) → Dropped db db
Dropped-refl db = (
  Evolves-refl RunKept RunKept-refl db.runs,
  Evolves-refl (DeliveryRel drop_step)
      (λ d. record { same = DeliverySame-refl d; step = drop_step_refl d.status }) db.deliveries,
)

Dropped-Moved : (a b : Db) → Dropped a b → Moved a b
Dropped-Moved a b h = (
  Evolves-map RunKept (RunRel run_step)
      (λ x y k. record { same = k.same; step = rw k.status (run_step_refl x.status) }) a.runs b.runs
      h.0,
  Evolves-map (DeliveryRel drop_step) (DeliveryRel delivery_step)
      (λ x y k. record { same = k.same; step = drop_step-step x.status y.status k.step })
      a.deliveries b.deliveries h.1,
)

Dropped-Kept : (a b c : Db) → Dropped a b → Kept b c → Dropped a c
Dropped-Kept a b c h k = (
  Evolves-trans RunKept RunKept RunKept
      (λ x y z p q. record {
        same = RunSame-trans x y z p.same q.same;
        status = cc (p.status, q.status);
      })
      a.runs b.runs c.runs h.0 k.0,
  Evolves-trans (DeliveryRel drop_step) DeliveryKept (DeliveryRel drop_step)
      (λ x y z p q. record {
        same = DeliverySame-trans x y z p.same q.same;
        step = rw q.status p.step;
      })
      a.deliveries b.deliveries c.deliveries h.1 k.1,
)

-- An UPDATE of the delivery that was chosen, after the rounds so far.
update_chosen :
    (t : DeliveryStatus → DeliveryStatus → Bool) (p : DeliveryRow → Bool)
    (f : DeliveryRow → DeliveryRow) (a b : List DeliveryRow)
    → ((s u : DeliveryStatus) → drop_step s u ≡ true → t s u ≡ true)
    → Evolves (DeliveryRel drop_step) a b
    → All
        (λ y.
          p y ≡ true
          → DeliverySame y (f y)
            × ((s : DeliveryStatus) → drop_step s y.status ≡ true → t s (f y).status ≡ true))
        b
    → Evolves (DeliveryRel t) a (update_where p f b)
unfolding update_where
update_chosen t p f [] b widen h all = tt
update_chosen t p f (x ∷ xs) [] widen h all = elim h [ ]
update_chosen t p f (x ∷ xs) (y ∷ ys) widen h all = elim (Bool-cases (p y)) [
  | inl hit ↦
      let (same, step) = all.0 hit in
      (
        rw hit (record {
          same = DeliverySame-trans x y (f y) h.0.same same;
          step = step x.status h.0.step;
        }),
        update_chosen t p f xs ys widen h.1 all.1,
      )
  | inr miss ↦ (
    rw miss (record { same = h.0.same; step = widen x.status y.status h.0.step }),
    update_chosen t p f xs ys widen h.1 all.1,
  )
]

drop_again :
    (s u : DeliveryStatus)
    → is_waiting u ≡ true
    → drop_step s u ≡ true
    → drop_step s DeliveryStatus.suppressed ≡ true
drop_again s u w h = ground arith

pub deliverable-is_waiting :
    (db : Db) (now : ℕ) (d : DeliveryRow) → deliverable db now d ≡ true → is_waiting d.status ≡ true
unfolding deliverable
deliverable-is_waiting db now d h = ground arith

-- a round that suppresses the delivery it chose
pub suppress-Dropped :
    (now : ℕ) (d : DeliveryRow) (db0 db : Db)
    → Dropped db0 db
    → Unique (delivery_ids db)
    → In d db.deliveries
    → is_waiting d.status ≡ true
    → Dropped db0 (suppress_superseded now d db)
unfolding suppress_superseded
suppress-Dropped now d db0 db dropped unique i waiting =
    let f : DeliveryRow → DeliveryRow =
      λ x. record x { status = DeliveryStatus.suppressed; updated_at = now } in
    let next = set_delivery (delivery_is d.delivery_id) f db in
    Dropped-Kept db0 next (redact_job_of d next)
      (
        dropped.0,
        update_chosen drop_step (delivery_is d.delivery_id) f db0.deliveries db.deliveries
            (λ s u h. h) dropped.1
            (All-map db.deliveries
              (λ y only hit.
                let q : y ≡ d = only hit in
                (
                  DeliverySame-of y (f y) refl refl refl refl,
                  λ s h.
                      drop_again s y.status
                        (subst (λ z. is_waiting z.status ≡ true) (sym q) waiting) h,
                ))
              (In-only (λ (x : DeliveryRow). x.delivery_id) db.deliveries d unique i)),
      )
      (redact_job_of-Kept d next)

-- the round that leases the delivery it chose
lease-Moved :
    (token : String) (now lease_seconds : ℕ) (d : DeliveryRow) (db0 db : Db)
    → Dropped db0 db
    → Moved db0 (
        set_delivery
          (λ x. delivery_is d.delivery_id x && is_waiting x.status)
          (lease_delivery token now lease_seconds)
          db)
lease-Moved token now lease_seconds d db0 db dropped = (
  (Dropped-Moved db0 db dropped).0,
  update_chosen delivery_step (λ x. delivery_is d.delivery_id x && is_waiting x.status)
      (lease_delivery token now lease_seconds) db0.deliveries db.deliveries drop_step-step dropped.1
      (All-of
        (λ y hit. (
          DeliverySame-of y (lease_delivery token now lease_seconds y) refl refl refl refl,
          λ s h. drop_then_lease s y.status h (ground arith),
        ))
        db.deliveries),
)

loop-Moved :
    (fuel : ℕ) (token : String) (now lease_seconds : ℕ) (db0 db : Db)
    → Dropped db0 db
    → Unique (delivery_ids db)
    → Moved db0 (claim_delivery_loop fuel token now lease_seconds db).1
unfolding claim_delivery_loop
loop-Moved zero token now lease_seconds db0 db dropped unique = Dropped-Moved db0 db dropped
loop-Moved (suc fuel) token now lease_seconds db0 db dropped unique =
    elim (Option-cases (first_delivery (deliverable db now) db.deliveries)) [
      | inl e ↦ rw (e, claim_delivery_loop) (Dropped-Moved db0 db dropped)
      | inr (d, e) ↦
          let (i, hit) = first_delivery-In (deliverable db now) db.deliveries d e in
          elim (Bool-cases (superseded db d)) [
            | inl old ↦
                rw (e, old, claim_delivery_loop)
                  (loop-Moved fuel token now lease_seconds db0 (suppress_superseded now d db)
                    (suppress-Dropped now d db0 db dropped unique i
                      (deliverable-is_waiting db now d hit))
                    (subst Unique (sym (suppress_superseded-ids now d db)) unique))
            | inr current ↦
                rw (e, current, claim_delivery_loop)
                  (lease-Moved token now lease_seconds d db0 db dropped)
          ]
    ]

pub claim_delivery-Moved :
    (token : String) (now lease_seconds : ℕ) (db : Db)
    → Unique (delivery_ids db)
    → Moved db (claim_delivery token now lease_seconds db).1
unfolding claim_delivery
claim_delivery-Moved token now lease_seconds db unique =
    loop-Moved (suc (count_where (λ (d : DeliveryRow). is_waiting d.status) db.deliveries)) token
      now lease_seconds db db (Dropped-refl db) unique
