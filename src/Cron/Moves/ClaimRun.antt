-- ===== src/Cron/Moves/ClaimRun.antt =====
-- `claim_due_run` of tomo_core/src/tomo_core/cron_store.py under the diagrams.
use mathlib.Core.Path.{subst}
use tomo_v.Common.{
  ℕ, ◌-◌, String, Bool, true, false, Option, none, some, List, [], ◌∷◌, ◌≡◌, refl, sym, ap, arith,
  ◌&&◌, not, leb, Evolves, Evolves-refl, Evolves-update_added, Evolves-map, All-map, Bool-cases,
  inl, inr, Option-cases, update_where, exists_where, exists_where-false, ok, >>=-eq-ok,
  ok-injective, guard, is_empty, strip, select_where, str_eq,
}
use tomo_v.Cron.Errors.{bad_intent}
use tomo_v.Cron.Schedule.{Zones, catch_up}
use tomo_v.Cron.Rows.{Db, JobRow, RunRow, RunStatus, Trigger, is_claimable, is_active, run_is}
use tomo_v.Cron.Store.Parts.{
  invalidate_run, active_run, add_run, new_run, run_clashes, due, will_end_after_run,
}
use tomo_v.Cron.Store.Claim.{
  Claim, pending_rows, outdated, lease_run, claims, set_runs, claim_of, claim_pending, sort_jobs,
  plan_end, plan_resumed, plan_due, plan_going, plan_job, claim_new, claim_jobs, claim_due_run,
}
use tomo_v.Cron.Moves.{
  RunSame, RunRel, RunKept, run_step, DeliveryRel, DeliveryKept, delivery_step, Kept, Moved,
}
use tomo_v.Cron.Moves.Parts.{
  RunSame-of, RunSame-refl, RunSame-trans, RunKept-refl, DeliveryRel-refl, DeliveryKept-refl,
  Kept-refl, Kept-trans, Moved-Kept,
}
use tomo_v.Cron.Moves.Runs.{add_run-parts}

-- the rounds of the first loop: runs that wait and are invalidated
abbrev pub skip_step : RunStatus → RunStatus → Bool
skip_step RunStatus.pending RunStatus.pending = true
skip_step RunStatus.pending RunStatus.invalidated = true
skip_step RunStatus.retry_wait RunStatus.retry_wait = true
skip_step RunStatus.retry_wait RunStatus.invalidated = true
skip_step RunStatus.leased RunStatus.leased = true
skip_step RunStatus.executing RunStatus.executing = true
skip_step RunStatus.succeeded RunStatus.succeeded = true
skip_step RunStatus.failed RunStatus.failed = true
skip_step RunStatus.invalidated RunStatus.invalidated = true
skip_step _ _ = false

skip_step_refl : (s : RunStatus) → skip_step s s ≡ true
skip_step_refl s = ground arith

skip_step-step : (s u : RunStatus) → skip_step s u ≡ true → run_step s u ≡ true
skip_step-step s u h = ground arith

skip_again :
    (s u : RunStatus)
    → is_claimable u ≡ true
    → skip_step s u ≡ true
    → skip_step s RunStatus.invalidated ≡ true
skip_again s u w h = ground arith

skip_then_lease :
    (s u : RunStatus)
    → is_claimable u ≡ true
    → skip_step s u ≡ true
    → run_step s RunStatus.leased ≡ true
skip_then_lease s u w h = ground arith

-- the rounds so far: runs were invalidated, and the deliveries are as they were
abbrev Skipped : Db → Db → Type 0
Skipped a b = Evolves (RunRel skip_step) a.runs b.runs × (b.deliveries ≡ a.deliveries)

Skipped-refl : (db : Db) → Skipped db db
Skipped-refl db = (
  Evolves-refl (RunRel skip_step)
      (λ r. record { same = RunSame-refl r; step = skip_step_refl r.status }) db.runs,
  refl,
)

same_deliveries :
    (a b : Db)
    → b.deliveries ≡ a.deliveries
    → Evolves (DeliveryRel delivery_step) a.deliveries b.deliveries
same_deliveries a b h =
    rw h (Evolves-refl (DeliveryRel delivery_step) DeliveryRel-refl a.deliveries)

Skipped-Moved : (a b : Db) → Skipped a b → Moved a b
Skipped-Moved a b h = (
  Evolves-map (RunRel skip_step) (RunRel run_step)
      (λ x y k. record { same = k.same; step = skip_step-step x.status y.status k.step }) a.runs
      b.runs h.0,
  same_deliveries a b h.1,
)

-- an UPDATE of runs that wait, after the rounds so far
update_waiting :
    (t : RunStatus → RunStatus → Bool) (p : RunRow → Bool) (f : RunRow → RunRow)
    → ((s u : RunStatus) → skip_step s u ≡ true → t s u ≡ true)
    → ((r : RunRow)
        → p r ≡ true
        → RunSame r (f r)
          × ((s : RunStatus) → skip_step s r.status ≡ true → t s (f r).status ≡ true))
    → (a b : List RunRow) → Evolves (RunRel skip_step) a b
    → Evolves (RunRel t) a (update_where p f b)
unfolding update_where
update_waiting t p f widen writes [] b h = tt
update_waiting t p f widen writes (x ∷ xs) [] h = elim h [ ]
update_waiting t p f widen writes (x ∷ xs) (y ∷ ys) h = elim (Bool-cases (p y)) [
  | inl hit ↦
      let (same, step) = writes y hit in
      (
        rw hit (record {
          same = RunSame-trans x y (f y) h.0.same same;
          step = step x.status h.0.step;
        }),
        update_waiting t p f widen writes xs ys h.1,
      )
  | inr miss ↦ (
    rw miss (record { same = h.0.same; step = widen x.status y.status h.0.step }),
    update_waiting t p f widen writes xs ys h.1,
  )
]

claims-is_claimable :
    (p : RunRow) (jobs : List JobRow) (r : RunRow)
    → claims p jobs r ≡ true
    → is_claimable r.status ≡ true
unfolding claims
claims-is_claimable p jobs r h = ground arith

module _ (zones : Zones) (token : String) (now lease_seconds : ℕ) where
  claim_of-db :
      (r : RunRow) (j : JobRow) (db : Db) (answer : Option Claim × Db)
      → claim_of zones token now lease_seconds r j db ≡ ok answer
      → answer.1 ≡ db
  unfolding claim_of
  claim_of-db r j db answer h =
      let (u, hu, h1) =
        >>=-eq-ok
          (guard (not (is_empty (strip j.intent_text)) && not (is_empty (strip j.destination)))
            bad_intent)
          _ h in
      let (final, hf, h2) =
        >>=-eq-ok (will_end_after_run zones j.schedule j.ends_at r.scheduled_for r.trigger) _ h1 in
      sym (ap (λ a. a.1) (ok-injective h2))

  claim_pending-Moved :
      (ps : List (RunRow × JobRow)) (db0 db : Db) (answer : Option Claim × Db)
      → Skipped db0 db
      → claim_pending zones token now lease_seconds ps db ≡ ok answer
      → Moved db0 answer.1
  unfolding claim_pending
  claim_pending-Moved [] db0 db answer skipped h =
      subst (λ a. Moved db0 a.1) (ok-injective h) (Skipped-Moved db0 db skipped)
  claim_pending-Moved ((r, j) ∷ ps) db0 db answer skipped h = elim (Bool-cases (outdated r j)) [
    | inl old ↦
        let p : RunRow → Bool = λ x. str_eq x.run_id r.run_id && is_claimable x.status in
        claim_pending-Moved ps db0 (set_runs p (invalidate_run now) db) answer
          (
            update_waiting skip_step p (invalidate_run now) (λ s u k. k)
                (λ x hit. (
                  RunSame-of x (invalidate_run now x) refl refl refl refl refl,
                  λ s k. skip_again s x.status (ground arith) k,
                ))
                db0.runs db.runs skipped.0,
            skipped.1,
          )
          (rw (old, claim_pending) at h)
    | inr current ↦ elim (Bool-cases (exists_where (claims r db.jobs) db.runs)) [
      | inr lost ↦
          claim_pending-Moved ps db0 db answer skipped (rw (current, lost, claim_pending) at h)
      | inl won ↦
          let claimed = set_runs (claims r db.jobs) (lease_run token now lease_seconds) db in
          let e = claim_of-db r j claimed answer (rw (current, won, claim_pending) at h) in
          subst (Moved db0) (sym e) (
            update_waiting run_step (claims r db.jobs) (lease_run token now lease_seconds)
                skip_step-step
                (λ x hit. (
                  RunSame-of x (lease_run token now lease_seconds x) refl refl refl refl refl,
                  λ s k. skip_then_lease s x.status (claims-is_claimable r db.jobs x hit) k,
                ))
                db0.runs db.runs skipped.0,
            same_deliveries db0 claimed skipped.1,
          )
    ]
  ]

  -- planning leaves the runs and the deliveries as they are
  SameWork : Db → Db → Type 0
  SameWork a b = (b.runs ≡ a.runs) × (b.deliveries ≡ a.deliveries)

  plan_end-SameWork :
      (j : JobRow) (ends : ℕ) (db : Db) (plan : Option (Trigger × ℕ) × JobRow × Db)
      → plan_end zones token now lease_seconds j ends db ≡ ok plan
      → SameWork db plan.2
  unfolding plan_end SameWork
  plan_end-SameWork j ends db plan h =
      let (owed, ho, h1) =
        >>=-eq-ok (due zones j.schedule j.last_due (ends - 1) j.schedule_anchor) _ h in
      elim (Option-cases owed) [
        | inl e ↦ subst (λ a. SameWork db a.2) (ok-injective (rw e at h1)) (refl, refl)
        | inr (t, e) ↦ subst (λ a. SameWork db a.2) (ok-injective (rw e at h1)) (refl, refl)
      ]

  plan_due-SameWork :
      (j : JobRow) (db : Db) (plan : Option (Trigger × ℕ) × JobRow × Db)
      → plan_due zones token now lease_seconds j db ≡ ok plan
      → SameWork db plan.2
  unfolding plan_due SameWork
  plan_due-SameWork j db plan h =
      let (owed, ho, h1) = >>=-eq-ok (due zones j.schedule j.last_due now j.schedule_anchor) _ h in
      subst (λ a. SameWork db a.2) (ok-injective h1) (refl, refl)

  plan_resumed-SameWork :
      (j : JobRow) (paused : ℕ) (db : Db) (plan : Option (Trigger × ℕ) × JobRow × Db)
      → plan_resumed zones token now lease_seconds j paused db ≡ ok plan
      → SameWork db plan.2
  unfolding plan_resumed SameWork
  plan_resumed-SameWork j paused db plan h =
      let (missed, hm, h1) = >>=-eq-ok (catch_up zones j.schedule paused now) _ h in
      subst (λ a. SameWork db a.2) (ok-injective h1) (refl, refl)

  plan_going-SameWork :
      (o : Option ℕ) (j : JobRow) (db : Db) (plan : Option (Trigger × ℕ) × JobRow × Db)
      → plan_going zones token now lease_seconds o j db ≡ ok plan
      → SameWork db plan.2
  unfolding plan_going
  plan_going-SameWork none j db plan h = plan_due-SameWork j db plan h
  plan_going-SameWork (some paused) j db plan h = plan_resumed-SameWork j paused db plan h

  plan_job-SameWork :
      (j : JobRow) (db : Db) (plan : Option (Trigger × ℕ) × JobRow × Db)
      → plan_job zones token now lease_seconds j db ≡ ok plan
      → SameWork db plan.2
  unfolding plan_job
  plan_job-SameWork j db plan h = elim (Option-cases j.ends_at) [
    | inl e ↦ plan_going-SameWork j.paused_at j db plan (rw (e, plan_job) at h)
    | inr (ends, e) ↦ elim (Bool-cases (leb ends now)) [
      | inl over ↦ plan_end-SameWork j ends db plan (rw (e, over, plan_job) at h)
      | inr going ↦ plan_going-SameWork j.paused_at j db plan (rw (e, going, plan_job) at h)
    ]
  ]

  -- a new run does not have the id of another
  fresh_id : (new r : RunRow) → run_clashes new r ≡ false → run_is new.run_id r ≡ false
  unfolding run_clashes
  fresh_id new r h = ground arith

  claim_new-Kept :
      (run_id : String) (j : JobRow) (due_at : Trigger × ℕ) (db : Db) (answer : Option Claim × Db)
      → claim_new zones token now lease_seconds run_id j due_at db ≡ ok answer
      → Kept db answer.1
  unfolding claim_new
  claim_new-Kept run_id j (trigger, at) db answer h =
      let new = new_run run_id j at trigger now in
      let (added, ha, h1) = >>=-eq-ok (add_run run_id j at trigger now db) _ h in
      let (e, runs, deliveries, fresh) = add_run-parts run_id j at trigger now db added ha in
      let (final, hf, h2) =
        >>=-eq-ok (will_end_after_run zones j.schedule j.ends_at at trigger) _ h1 in
      subst (λ a. Kept db a.1) (ok-injective h2)
        (rw (e, runs, deliveries)
          (
            Evolves-update_added RunKept RunKept-refl (run_is new.run_id)
                (lease_run token now lease_seconds) db.runs (new ∷ [])
                (All-map db.runs (λ r f. fresh_id new r f)
                  (exists_where-false (run_clashes new) db.runs fresh)),
            Evolves-refl DeliveryKept DeliveryKept-refl db.deliveries,
          ))

  SameWork-Kept : (a b : Db) → SameWork a b → Kept a b
  unfolding SameWork
  SameWork-Kept a b h = (
    rw h.0 (Evolves-refl RunKept RunKept-refl a.runs),
    rw h.1 (Evolves-refl DeliveryKept DeliveryKept-refl a.deliveries),
  )

  claim_jobs-Kept :
      (run_id : String) (js : List JobRow) (db : Db) (answer : Option Claim × Db)
      → claim_jobs zones token now lease_seconds run_id js db ≡ ok answer
      → Kept db answer.1
  unfolding claim_jobs
  claim_jobs-Kept run_id [] db answer h = subst (λ a. Kept db a.1) (ok-injective h) (Kept-refl db)
  claim_jobs-Kept run_id (j ∷ js) db answer h = elim (Bool-cases (active_run db j.job_id)) [
    | inl busy ↦ claim_jobs-Kept run_id js db answer (rw (busy, claim_jobs) at h)
    | inr free ↦
        let (plan, hp, h1) =
          >>=-eq-ok (plan_job zones token now lease_seconds j db) _ (rw (free, claim_jobs) at h) in
        let planned = SameWork-Kept db plan.2 (plan_job-SameWork j db plan hp) in
        elim (Option-cases plan.0) [
          | inl e ↦
              Kept-trans db plan.2 answer.1 planned
                (claim_jobs-Kept run_id js plan.2 answer (rw (e, claim_jobs) at h1))
          | inr (due_at, e) ↦
              Kept-trans db plan.2 answer.1 planned
                (claim_new-Kept run_id plan.1 due_at plan.2 answer (rw (e, claim_jobs) at h1))
        ]
  ]

  pub claim_run-Moved :
      (run_id : String) (db : Db) (answer : Option Claim × Db)
      → claim_due_run zones token now lease_seconds run_id db ≡ ok answer
      → Moved db answer.1
  unfolding claim_due_run
  claim_run-Moved run_id db answer h =
      let (waiting, hw, h1) =
        >>=-eq-ok (claim_pending zones token now lease_seconds (pending_rows now db) db) _ h in
      let moved = claim_pending-Moved (pending_rows now db) db db waiting (Skipped-refl db) hw in
      elim (Option-cases waiting.0) [
        | inr (claim, e) ↦
            subst (λ a. Moved db a.1) (ok-injective (rw (e, claim_due_run) at h1)) moved
        | inl e ↦ Moved-Kept db waiting.1 answer.1 moved (
            claim_jobs-Kept run_id
              (sort_jobs zones token now lease_seconds
                (select_where (λ j. is_active j.status) waiting.1.jobs))
              waiting.1 answer (rw (e, claim_due_run) at h1))
      ]
