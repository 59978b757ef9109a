-- ===== src/Cron/Laws/Changes.antt =====
-- The owner's changes of a job: `update`, `pause`, `resume`, `cancel` and `delete` of
-- tomo_core/src/tomo_core/cron_store.py.
use mathlib.Core.Path.{subst}
use tomo_v.Common.{
  exists_where-All, exists_where-In, ℕ, ◌+◌, String, Bool, true, false, Option, none, some, List,
  map, ◌≡◌, refl, sym, ap, ◌∙◌, arith, ◌||◌, not, Bool-cases, inl, inr, All, All-of, All-map,
  All-update_where, exists_where, update_where, str_eq, Unique, In-only, eq_iff,
}
use tomo_v.Cron.Rows.{
  Db, JobRow, RunRow, CronJob, JobStatus, Action, is_live, is_terminal, is_unfinished, job_is,
  find_job, record_event,
}
use tomo_v.Cron.Store.Parts.{
  stale_run, invalidate_run, invalidate_stale_work, any_open, redact_tables, redact_found,
  redact_terminal_if_ready, redact_job,
}
use tomo_v.Cron.Store.Jobs.{
  may_change, set_status, set_definition, after_change, change_job, update_job, pause_job,
  resume_job, cancel_job, delete_job, any_status,
}

-- a change that an owner asks for
pub data Change : Type 0 where
  pausing resuming cancelling deleting : Change
  updating : CronJob → Change

-- the call of the change of a job at the revision that the owner saw
abbrev pub change : Change → String → String → ℕ → ℕ → Db → Bool × Db
change pausing owner_id job_id expected now db = pause_job owner_id job_id expected now db
change resuming owner_id job_id expected now db = resume_job owner_id job_id expected now db
change cancelling owner_id job_id expected now db = cancel_job owner_id job_id expected now db
change deleting owner_id job_id expected now db = delete_job owner_id job_id expected now db
change (updating job) owner_id job_id expected now db =
    update_job owner_id (record job { job_id = job_id }) expected now db

-- What holds of every job row survives a redaction that keeps it.
redact_found-All :
    (P : JobRow → Type 0)
    → ((j : JobRow) → P j → P (redact_job j))
    → (o : Option JobRow) (job_id : String) (db : Db) → All P db.jobs
    → All P (redact_found o job_id db).1.jobs
unfolding redact_found redact_tables
redact_found-All P keep none job_id db a = a
redact_found-All P keep (some j) job_id db a =
    elim (Bool-cases (not (is_terminal j.status) || any_open db job_id)) [
      | inl e ↦ rw e a
      | inr e ↦ rw e (
          All-update_where {P = P} {Q = P} (job_is j.job_id) redact_job db.jobs
            (λ x hit p. keep x p) (λ x miss p. p) a)
    ]

-- the redaction writes neither the statuses nor the identities of runs and deliveries
redact_found-runs :
    (P : RunRow → Type 0)
    → ((r : RunRow) (output : Option (List String)) (error : Option String)
        → P r
        → P (record r { output = output; error = error }))
    → (o : Option JobRow) (job_id : String) (db : Db) → All P db.runs
    → All P (redact_found o job_id db).1.runs
unfolding redact_found redact_tables
redact_found-runs P keep none job_id db a = a
redact_found-runs P keep (some j) job_id db a =
    elim (Bool-cases (not (is_terminal j.status) || any_open db job_id)) [
      | inl e ↦ rw e a
      | inr e ↦ rw e (
          All-update_where {P = P} {Q = P} (λ r. str_eq r.job_id j.job_id)
            (λ r. record r { output = none; error = none }) db.runs (λ x hit p. keep x none none p)
            (λ x miss p. p) a)
    ]

-- The change has taken the job's rows to the next revision.
abbrev AtRevision : String → ℕ → JobRow → Type 0
AtRevision job_id revision j = job_is job_id j ≡ true → j.revision ≡ revision

after_change-All :
    (P : JobRow → Type 0)
    → ((j : JobRow) → P j → P (redact_job j))
    → (job_id : String) (current : ℕ) (action : Action) (cancelled : Bool) (now : ℕ) (db : Db)
    → All P db.jobs
    → All P (after_change job_id current action cancelled now db).jobs
unfolding after_change redact_terminal_if_ready invalidate_stale_work
after_change-All P keep job_id current action true now db a =
    let noted = record_event job_id action now (invalidate_stale_work job_id current now db) in
    redact_found-All P keep (find_job job_id noted.jobs) job_id noted a
after_change-All P keep job_id current action false now db a = a

-- no run of the job at an older revision is still to be done
abbrev pub NoStaleRun : String → ℕ → RunRow → Type 0
NoStaleRun job_id current r = stale_run job_id current r ≡ true → is_unfinished r.status ≡ false

invalidate-NoStaleRun :
    (job_id : String) (current now : ℕ) (db : Db)
    → All (NoStaleRun job_id current) (invalidate_stale_work job_id current now db).runs
unfolding invalidate_stale_work
invalidate-NoStaleRun job_id current now db =
    All-update_where {P = λ _. Unit {0}} _ (invalidate_run now) db.runs (λ r hit u stale. refl)
      (λ r miss u stale. ground arith) (All-of (λ _. tt) db.runs)

after_change-NoStaleRun :
    (job_id : String) (current : ℕ) (action : Action) (cancelled : Bool) (now : ℕ) (db : Db)
    → All (NoStaleRun job_id current) (after_change job_id current action cancelled now db).runs
unfolding after_change redact_terminal_if_ready
after_change-NoStaleRun job_id current action true now db =
    let noted = record_event job_id action now (invalidate_stale_work job_id current now db) in
    redact_found-runs (NoStaleRun job_id current) (λ r output error p. p)
      (find_job job_id noted.jobs) job_id noted (invalidate-NoStaleRun job_id current now db)
after_change-NoStaleRun job_id current action false now db =
    invalidate-NoStaleRun job_id current now db

may_change-parts :
    (allowed : JobStatus → Bool) (owner_id job_id : String) (expected : ℕ) (db : Db) (j : JobRow)
    → may_change allowed owner_id job_id expected db j ≡ true
    → (job_is job_id j ≡ true) × (j.revision ≡ expected)
unfolding may_change
may_change-parts allowed owner_id job_id expected db j h = (ground arith, ground arith)

same_id :
    (x w : JobRow) (job_id : String)
    → job_is job_id x ≡ true
    → job_is job_id w ≡ true
    → str_eq x.job_id w.job_id ≡ true
same_id x w job_id h k =
    (eq_iff x.job_id w.job_id).1 ((eq_iff x.job_id job_id).0 h ∙ sym ((eq_iff w.job_id job_id).0 k))

arith_absurd : (revision expected : ℕ) → revision ≡ expected → revision ≡ expected + 1 → ⊥
arith_absurd revision expected h k = omega arith

-- An UPDATE that raises the revision takes every row of the job to the next revision.
update-AtRevision :
    (allowed : JobStatus → Bool) (f : JobRow → JobRow) (owner_id job_id : String) (expected : ℕ)
    (db : Db)
    → ((j : JobRow) → (f j).revision ≡ j.revision + 1)
    → Unique (map (λ (j : JobRow). j.job_id) db.jobs)
    → exists_where (may_change allowed owner_id job_id expected db) db.jobs ≡ true
    → All
        (AtRevision job_id (expected + 1))
        (update_where (may_change allowed owner_id job_id expected db) f db.jobs)
update-AtRevision allowed f owner_id job_id expected db raises keys won =
    let test = may_change allowed owner_id job_id expected db in
    let (w, i, hit) = exists_where-In test db.jobs won in
    let only =
      All-map {P = λ x. str_eq x.job_id w.job_id ≡ true → x ≡ w}
        {Q = λ x. job_is job_id x ≡ true → x ≡ w} db.jobs
        (λ x k same.
          k (
            same_id x w job_id same (may_change-parts allowed owner_id job_id expected db w hit).0))
        (In-only (λ x. x.job_id) db.jobs w keys i) in
    All-update_where {P = λ x. job_is job_id x ≡ true → x ≡ w} test f db.jobs
      (λ x yes k same.
        raises x ∙ ap (λ n. n + 1) (may_change-parts allowed owner_id job_id expected db x yes).1)
      (λ x miss k same. absurd (cc (subst (λ y. test y ≡ false) (k same) miss, hit))) only

may_change-AtRevision :
    (allowed : JobStatus → Bool) (owner_id job_id : String) (expected : ℕ) (db : Db) (j : JobRow)
    → AtRevision job_id (expected + 1) j
    → may_change allowed owner_id job_id expected db j ≡ false
may_change-AtRevision allowed owner_id job_id expected db j at =
    elim (Bool-cases (may_change allowed owner_id job_id expected db j)) [
      | inr e ↦ e
      | inl e ↦
          let (same, current) = may_change-parts allowed owner_id job_id expected db j e in
          let next = at same in absurd (arith_absurd j.revision expected current next)
    ]

-- A change that succeeded, whatever it writes, makes a change from the same revision fail.
change_job-AtRevision :
    (allowed : JobStatus → Bool) (f : JobRow → JobRow) (owner_id job_id : String) (expected : ℕ)
    (action : Action) (cancelled : Bool) (now : ℕ) (db after : Db)
    → ((j : JobRow) → (f j).revision ≡ j.revision + 1)
    → Unique (map (λ (j : JobRow). j.job_id) db.jobs)
    → change_job allowed f owner_id job_id expected action cancelled now db ≡ (true, after)
    → All (AtRevision job_id (expected + 1)) after.jobs
      × All (NoStaleRun job_id (expected + 1)) after.runs
unfolding change_job
change_job-AtRevision allowed f owner_id job_id expected action cancelled now db after raises keys
      h =
    elim (Bool-cases (exists_where (may_change allowed owner_id job_id expected db) db.jobs)) [
      | inr e ↦ absurd (cc (rw e at h))
      | inl e ↦
          let changed : Db = record db {
            jobs = update_where (may_change allowed owner_id job_id expected db) f db.jobs;
          } in
          let q : after_change job_id (expected + 1) action cancelled now changed ≡ after =
            ap (λ a. a.1) (rw e at h) in
          (
            subst (λ d. All (AtRevision job_id (expected + 1)) d.jobs) q
                (after_change-All (AtRevision job_id (expected + 1)) (λ j at. at) job_id
                  (expected + 1) action cancelled now changed
                  (update-AtRevision allowed f owner_id job_id expected db raises keys e)),
            subst (λ d. All (NoStaleRun job_id (expected + 1)) d.runs) q
                (after_change-NoStaleRun job_id (expected + 1) action cancelled now changed),
          )
    ]

change_job-stale :
    (allowed : JobStatus → Bool) (f : JobRow → JobRow) (owner_id job_id : String) (expected : ℕ)
    (action : Action) (cancelled : Bool) (now : ℕ) (db : Db)
    → All (AtRevision job_id (expected + 1)) db.jobs
    → change_job allowed f owner_id job_id expected action cancelled now db ≡ (false, db)
unfolding change_job
change_job-stale allowed f owner_id job_id expected action cancelled now db a =
    rw
      (exists_where-All (may_change allowed owner_id job_id expected db) db.jobs (
        All-map db.jobs (λ j at. may_change-AtRevision allowed owner_id job_id expected db j at) a))
      refl

change-AtRevision :
    (c : Change) (owner_id job_id : String) (expected now : ℕ) (db after : Db)
    → Unique (map (λ (j : JobRow). j.job_id) db.jobs)
    → change c owner_id job_id expected now db ≡ (true, after)
    → All (AtRevision job_id (expected + 1)) after.jobs
      × All (NoStaleRun job_id (expected + 1)) after.runs
unfolding pause_job resume_job cancel_job delete_job update_job
change-AtRevision pausing owner_id job_id expected now db after keys h =
    change_job-AtRevision is_live (set_status JobStatus.paused now) owner_id job_id expected
      Action.pause false now db after (λ j. refl) keys h
change-AtRevision resuming owner_id job_id expected now db after keys h =
    change_job-AtRevision is_live (set_status JobStatus.active now) owner_id job_id expected
      Action.resume false now db after (λ j. refl) keys h
change-AtRevision cancelling owner_id job_id expected now db after keys h =
    change_job-AtRevision is_live (set_status JobStatus.cancelled now) owner_id job_id expected
      Action.cancel true now db after (λ j. refl) keys h
change-AtRevision deleting owner_id job_id expected now db after keys h =
    change_job-AtRevision any_status (set_status JobStatus.cancelled now) owner_id job_id expected
      Action.delete true now db after (λ j. refl) keys h
change-AtRevision (updating job) owner_id job_id expected now db after keys h =
    change_job-AtRevision is_live (set_definition (record job { job_id = job_id }) now) owner_id
      job_id expected Action.update false now db after (λ j. refl) keys h

change-stale :
    (c : Change) (owner_id job_id : String) (expected now : ℕ) (db : Db)
    → All (AtRevision job_id (expected + 1)) db.jobs
    → change c owner_id job_id expected now db ≡ (false, db)
unfolding pause_job resume_job cancel_job delete_job update_job
change-stale pausing owner_id job_id expected now db a =
    change_job-stale is_live (set_status JobStatus.paused now) owner_id job_id expected Action.pause
      false now db a
change-stale resuming owner_id job_id expected now db a =
    change_job-stale is_live (set_status JobStatus.active now) owner_id job_id expected
      Action.resume false now db a
change-stale cancelling owner_id job_id expected now db a =
    change_job-stale is_live (set_status JobStatus.cancelled now) owner_id job_id expected
      Action.cancel true now db a
change-stale deleting owner_id job_id expected now db a =
    change_job-stale any_status (set_status JobStatus.cancelled now) owner_id job_id expected
      Action.delete true now db a
change-stale (updating job) owner_id job_id expected now db a =
    change_job-stale is_live (set_definition (record job { job_id = job_id }) now) owner_id job_id
      expected Action.update false now db a

-- Job ids being unique, where a change of a job (an update, a pause, a resume, a cancellation or a
-- deletion) at the revision that its caller saw succeeds, no run of the job at an older revision is
-- left to be done, and every further change at that same revision, of any kind and by any owner,
-- fails and writes nothing.
pub change-once :
    (c : Change) (owner_id job_id : String) (expected now : ℕ) (db after : Db)
    → Unique (map (λ (j : JobRow). j.job_id) db.jobs)
    → change c owner_id job_id expected now db ≡ (true, after)
    → All (NoStaleRun job_id (expected + 1)) after.runs
      × ((other : Change) (other_owner : String) (later : ℕ)
          → change other other_owner job_id expected later after ≡ (false, after))
change-once c owner_id job_id expected now db after keys h =
    let (revision, runs) = change-AtRevision c owner_id job_id expected now db after keys h in
    (
      runs,
      λ other other_owner later.
          change-stale other other_owner job_id expected later after revision,
    )
