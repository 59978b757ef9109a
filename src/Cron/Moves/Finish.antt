-- ===== src/Cron/Moves/Finish.antt =====
-- How a run ends: `complete_run` and `fail_run` of tomo_core/src/tomo_core/cron_store.py, under the
-- diagrams, and the deliveries that they leave. Run ids are unique, as the primary key keeps them.
use mathlib.Core.List.{append-nil, append_assoc}
use mathlib.Core.Path.{subst}
use tomo_v.Common.{
  ℕ, suc, ◌+◌, String, Bool, true, false, Option, none, some, List, [], ◌∷◌, ◌++◌, map, ◌≡◌, refl,
  sym, ap, ◌∙◌, arith, if◌then◌else◌, Evolves-refl, Evolves-update, Evolves-append, All, All-of,
  All-map, Bool-cases, inl, inr, Option-cases, update_where, exists_where, first_where, Unique,
  first_where-only, All-first_where, ok, >>=-eq-ok, ok-injective, guard, leb,
}
use tomo_v.Cron.Errors.{bad_frames}
use tomo_v.Cron.Schedule.{Zones, next_occurrence}
use tomo_v.Cron.Rows.{
  Db, JobRow, RunRow, DeliveryRow, RunStatus, RunOutcome, is_held, fences, run_is,
}
use tomo_v.Cron.Store.Parts.{delivery_clashes}
use tomo_v.Cron.Store.Runs.{
  holds, with_job, find_held, frames_ok, add_delivery, add_frames, complete_found, complete_run,
  fail_found, fail_run, fail_job, new_delivery, succeed, spend,
}
use tomo_v.Cron.Moves.{RunRel, run_step, DeliveryRel, delivery_step, Moved}
use tomo_v.Cron.Moves.Parts.{RunSame-of, Moved-refl, RunRel-refl, DeliveryRel-refl}

-- What `complete_run` is to store: a pending delivery for each frame, in order, numbered from
-- `sequence` on, under the run's revision.
abbrev pub numbered : (ℕ → String) → RunRow → JobRow → ℕ → ℕ → List String → List DeliveryRow
numbered ids r j now sequence [] = []
numbered ids r j now sequence (frame ∷ frames) =
    new_delivery (ids sequence) r.run_id sequence now frame (some j.destination) r.revision
    ∷ numbered ids r j now (suc sequence) frames

add_delivery-eq-append :
    (d : DeliveryRow) (ds more : List DeliveryRow)
    → add_delivery d ds ≡ ok more
    → (more ≡ ds ++ d ∷ []) × (exists_where (delivery_clashes d) ds ≡ false)
unfolding add_delivery
add_delivery-eq-append d ds more h = elim (Bool-cases (exists_where (delivery_clashes d) ds)) [
  | inl e ↦ absurd (cc (e, h))
  | inr e ↦ (ground arith, e)
]

add_frames-eq-append :
    (ids : ℕ → String) (r : RunRow) (j : JobRow) (now sequence : ℕ) (frames : List String)
    (ds more : List DeliveryRow)
    → add_frames ids r j now sequence frames ds ≡ ok more
    → more ≡ ds ++ numbered ids r j now sequence frames
unfolding add_frames
add_frames-eq-append ids r j now sequence [] ds more h = sym (ok-injective h) ∙ sym (append-nil ds)
add_frames-eq-append ids r j now sequence (frame ∷ frames) ds more h =
    let d =
      new_delivery (ids sequence) r.run_id sequence now frame (some j.destination) r.revision in
    let (ds', hd, h1) = >>=-eq-ok (add_delivery d ds) _ h in
    let e = (add_delivery-eq-append d ds ds' hd).0 in
    add_frames-eq-append ids r j now (suc sequence) frames ds' more h1
    ∙ (rw e (append_assoc ds (d ∷ []) (numbered ids r j now (suc sequence) frames)))

with_job-parts :
    (jobs : List JobRow) (o : Option RunRow) (r : RunRow) (j : JobRow)
    → with_job jobs o ≡ some (r, j)
    → (o ≡ some r) × (first_where (fences r) jobs ≡ some j)
unfolding with_job
with_job-parts jobs none r j h = cc
with_job-parts jobs (some x) r j h = elim (Option-cases (first_where (fences x) jobs)) [
  | inl e ↦ absurd (cc (rw (e, with_job) at h))
  | inr (k, e) ↦
      let p : some (x, k) ≡ some (r, j) = rw (e, with_job) at h in
      let q : x ≡ r = cc p in
      let s : k ≡ j = cc p in
      (ap some q, subst (λ y. first_where (fences y) jobs ≡ some j) q (e ∙ ap some s))
]

pub find_held-parts :
    (run_id token : String) (db : Db) (r : RunRow) (j : JobRow)
    → find_held run_id token db ≡ some (r, j)
    → (first_where (holds is_held run_id token db.jobs) db.runs ≡ some r)
      × (first_where (fences r) db.jobs ≡ some j)
unfolding find_held
find_held-parts run_id token db r j h =
    with_job-parts db.jobs (first_where (holds is_held run_id token db.jobs) db.runs) r j h

holds-held :
    (run_id token : String) (jobs : List JobRow) (r : RunRow)
    → holds is_held run_id token jobs r ≡ true
    → is_held r.status ≡ true
unfolding holds
holds-held run_id token jobs r h = ground arith

succeeds : (s : RunStatus) → is_held s ≡ true → run_step s RunStatus.succeeded ≡ true
succeeds s h = ground arith

-- The run that a worker holds is the only one that an UPDATE by its id writes.
held_only :
    (run_id token : String) (db : Db) (r : RunRow)
    → Unique (map (λ (x : RunRow). x.run_id) db.runs)
    → first_where (holds is_held run_id token db.jobs) db.runs ≡ some r
    → All (λ x. run_is r.run_id x ≡ true → is_held x.status ≡ true) db.runs
held_only run_id token db r keys h =
    let held =
      holds-held run_id token db.jobs r
        (All-first_where (λ _. Unit {0}) (holds is_held run_id token db.jobs) db.runs r h
          (All-of (λ _. tt) db.runs)).1 in
    All-map {P = λ x. run_is r.run_id x ≡ true → x ≡ r} db.runs
      (λ x only same. subst (λ y. is_held y.status ≡ true) (sym (only same)) held)
      (first_where-only (λ x. x.run_id) (holds is_held run_id token db.jobs) db.runs r keys h)

pub complete_found-parts :
    (zones : Zones) (r : RunRow) (j : JobRow) (outcome : RunOutcome) (frames : List String)
    (ids : ℕ → String) (now : ℕ) (db : Db) (answer : Bool × Db)
    → complete_found zones (some (r, j)) outcome frames ids now db ≡ ok answer
    → (answer.0 ≡ true)
      × (frames_ok frames ≡ true)
      × (answer.1.runs ≡ update_where (run_is r.run_id) (succeed frames outcome now) db.runs)
      × (answer.1.deliveries ≡ db.deliveries ++ numbered ids r j now 0 frames)
unfolding complete_found
complete_found-parts zones r j outcome frames ids now db answer h =
    let (u, hu, h1) = >>=-eq-ok (guard (frames_ok frames) bad_frames) _ h in
    let (ds, hd, h2) = >>=-eq-ok (add_frames ids r j now 0 frames db.deliveries) _ h1 in
    let (due, hn, h3) = >>=-eq-ok (next_occurrence zones j.schedule r.scheduled_for) _ h2 in
    let e = add_frames-eq-append ids r j now 0 frames db.deliveries ds hd in
    (
      ground arith,
      ground arith,
      ap (λ a. a.1.runs) (sym (ok-injective h3)),
      ap (λ a. a.1.deliveries) (sym (ok-injective h3)) ∙ e,
    )

complete_found-Moved :
    (zones : Zones) (r : RunRow) (j : JobRow) (outcome : RunOutcome) (frames : List String)
    (ids : ℕ → String) (now : ℕ) (db : Db) (answer : Bool × Db)
    → All (λ x. run_is r.run_id x ≡ true → is_held x.status ≡ true) db.runs
    → complete_found zones (some (r, j)) outcome frames ids now db ≡ ok answer
    → Moved db answer.1
complete_found-Moved zones r j outcome frames ids now db answer held h =
    let (t, good, runs, deliveries) =
      complete_found-parts zones r j outcome frames ids now db answer h in
    rw (runs, deliveries)
      (
        Evolves-update (RunRel run_step) RunRel-refl _ _ db.runs (
            All-map {P = λ x. run_is r.run_id x ≡ true → is_held x.status ≡ true} db.runs
              (λ x k hit. record {
                same = RunSame-of x _ refl refl refl refl refl;
                step = succeeds x.status (k hit);
              })
              held),
        Evolves-append (DeliveryRel delivery_step) DeliveryRel-refl db.deliveries _,
      )

pub complete-Moved :
    (zones : Zones) (run_id token : String) (outcome : RunOutcome) (frames : List String)
    (ids : ℕ → String) (now : ℕ) (db : Db) (answer : Bool × Db)
    → Unique (map (λ (x : RunRow). x.run_id) db.runs)
    → complete_run zones run_id token outcome frames ids now db ≡ ok answer
    → Moved db answer.1
unfolding complete_run
complete-Moved zones run_id token outcome frames ids now db answer keys h =
    elim (Option-cases (find_held run_id token db)) [
      | inl e ↦ subst (λ a. Moved db a.1) (ok-injective (rw e at h)) (Moved-refl db)
      | inr ((r, j), e) ↦
          let found = find_held-parts run_id token db r j e in
          complete_found-Moved zones r j outcome frames ids now db answer
            (held_only run_id token db r keys found.0) (rw e at h)
    ]

spends :
    (s : RunStatus) (exhausted : Bool)
    → is_held s ≡ true
    → run_step s (if exhausted then RunStatus.failed else RunStatus.retry_wait) ≡ true
spends s exhausted h = ground arith

fail_found-parts :
    (zones : Zones) (r : RunRow) (j : JobRow) (error delivery_id : String) (now max_attempts : ℕ)
    (db : Db) (answer : Bool × Db)
    → fail_found zones (some (r, j)) error delivery_id now max_attempts db ≡ ok answer
    → let exhausted = leb max_attempts (r.attempts + 1) in
      (answer.1.runs
        ≡ update_where (run_is r.run_id) (spend (r.attempts + 1) exhausted error now) db.runs)
      × (answer.1.deliveries ≡ (
          if exhausted
          then db.deliveries
            ++ new_delivery delivery_id r.run_id 0 now "Scheduled task could not be completed."
                (some j.destination)
                j.revision
              ∷ []
          else db.deliveries))
unfolding fail_found
fail_found-parts zones r j error delivery_id now max_attempts db answer h =
    elim (Bool-cases (leb max_attempts (r.attempts + 1))) [
      | inl e ↦
          let (jobs, hj, h1) = >>=-eq-ok (fail_job zones r j now db.jobs) _ (rw e at h) in
          let (ds, hd, h2) =
            >>=-eq-ok
              (add_delivery
                (new_delivery delivery_id r.run_id 0 now "Scheduled task could not be completed."
                  (some j.destination) j.revision)
                db.deliveries)
              _ h1 in
          rw e (
            ap (λ a. a.1.runs) (sym (ok-injective h2)),
            ap (λ a. a.1.deliveries) (sym (ok-injective h2))
                ∙ (add_delivery-eq-append _ db.deliveries ds hd).0,
          )
      | inr e ↦
          let h1 = ok-injective (rw e at h) in
          rw e (ap (λ a. a.1.runs) (sym h1), ap (λ a. a.1.deliveries) (sym h1))
    ]

fail_found-Moved :
    (zones : Zones) (r : RunRow) (j : JobRow) (error delivery_id : String) (now max_attempts : ℕ)
    (db : Db) (answer : Bool × Db)
    → All (λ x. run_is r.run_id x ≡ true → is_held x.status ≡ true) db.runs
    → fail_found zones (some (r, j)) error delivery_id now max_attempts db ≡ ok answer
    → Moved db answer.1
fail_found-Moved zones r j error delivery_id now max_attempts db answer held h =
    let exhausted = leb max_attempts (r.attempts + 1) in
    let (runs, deliveries) =
      fail_found-parts zones r j error delivery_id now max_attempts db answer h in
    (
      rw runs (
          Evolves-update (RunRel run_step) RunRel-refl _ _ db.runs (
            All-map {P = λ x. run_is r.run_id x ≡ true → is_held x.status ≡ true} db.runs
              (λ x k hit. record {
                same = RunSame-of x _ refl refl refl refl refl;
                step = spends x.status exhausted (k hit);
              })
              held)),
      rw deliveries (elim (Bool-cases exhausted) [
        | inl e ↦ rw e (Evolves-append (DeliveryRel delivery_step) DeliveryRel-refl db.deliveries _)
        | inr e ↦ rw e (Evolves-refl (DeliveryRel delivery_step) DeliveryRel-refl db.deliveries)
      ]),
    )

pub fail-Moved :
    (zones : Zones) (run_id token error delivery_id : String) (now max_attempts : ℕ) (db : Db)
    (answer : Bool × Db)
    → Unique (map (λ (x : RunRow). x.run_id) db.runs)
    → fail_run zones run_id token error delivery_id now max_attempts db ≡ ok answer
    → Moved db answer.1
unfolding fail_run
fail-Moved zones run_id token error delivery_id now max_attempts db answer keys h =
    elim (Option-cases (find_held run_id token db)) [
      | inl e ↦ subst (λ a. Moved db a.1) (ok-injective (rw e at h)) (Moved-refl db)
      | inr ((r, j), e) ↦
          let found = find_held-parts run_id token db r j e in
          fail_found-Moved zones r j error delivery_id now max_attempts db answer
            (held_only run_id token db r keys found.0) (rw e at h)
    ]
