-- ===== src/Cron/Laws/Mutation.antt =====
-- The statements that `mutate_idempotently` of tomo_core/src/tomo_core/cron_store.py may run.
use mathlib.Core.Path.{subst}
use tomo_v.Common.{
  ℕ, String, Bool, true, false, ◌&&◌, Option, none, some, ◌≡◌, Bool-cases, Option-cases, inl, inr,
  ok, >>=-eq-ok, ok-injective, str_eq, first_where,
}
use tomo_v.Cron.Rows.{Db, JobRow, RunRow, CronJob, JobStatus, Action, is_live, find_job, is_active}
use tomo_v.Cron.Store.Jobs.{
  insert_job, set_status, set_definition, any_status, revision_fits, update_job, pause_job,
  resume_job, delete_job, request_manual_run, manual_run, change_job,
}
use tomo_v.Cron.Store.Mutations.{
  if_changed, if_started, mutate_create, mutate_update, mutate_run, mutate_status, apply_mutation,
}

-- What holds after each of the statements that a mutation may run holds after the mutation.
module _ (P : Db → Type 0) (now : ℕ) (db : Db) where
  if_changed-some :
      (answer : Bool × Db) (changed : Db)
      → if_changed answer ≡ ok (some changed)
      → answer.1 ≡ changed
  if_changed-some (true, after) changed h =
      let q : some after ≡ some changed = ok-injective h in cc q
  if_changed-some (false, after) changed h =
      let q : none ≡ some changed = ok-injective h in absurd (cc q)

  if_started-some :
      (answer : Option RunRow × Db) (changed : Db)
      → if_started answer ≡ some changed
      → answer.1 ≡ changed
  if_started-some (some run, after) changed h = cc h
  if_started-some (none, after) changed h = absurd (cc h)

  module _ (inserts : (job : CronJob) → P (insert_job job now db))
      (changes : (allowed : JobStatus → Bool) (f : JobRow → JobRow) (owner job_id : String)
          (expected : ℕ) (action : Action) (cancelled : Bool)
        → P (change_job allowed f owner job_id expected action cancelled now db).1)
      (starts : (o : Option JobRow) (run_id : String) (answer : Option RunRow × Db)
        → manual_run o run_id now db ≡ ok answer
        → P answer.1) where
    mutate_create-keeps :
        (job : Option CronJob) (changed : Db)
        → mutate_create job now db ≡ ok (some changed)
        → P changed
    unfolding mutate_create
    mutate_create-keeps none changed h = absurd (cc h)
    mutate_create-keeps (some job) changed h = elim (Option-cases (find_job job.job_id db.jobs)) [
      | inl e ↦
          let q : some (insert_job job now db) ≡ some changed =
            ok-injective (rw (e, mutate_create) at h) in
          let q' : insert_job job now db ≡ changed = cc q in subst P q' (inserts job)
      | inr (row, e) ↦ absurd (cc (rw (e, mutate_create) at h))
    ]

    mutate_update-keeps :
        (owner_id : String) (job : Option CronJob) (revision : Option ℕ) (changed : Db)
        → mutate_update owner_id job revision now db ≡ ok (some changed)
        → P changed
    unfolding mutate_update update_job
    mutate_update-keeps owner_id (some job) (some revision) changed h =
        subst P (if_changed-some (update_job owner_id job revision now db) changed h) (
          changes is_live (set_definition job now) owner_id job.job_id revision Action.update false)
    mutate_update-keeps owner_id (some job) none changed h = absurd (cc h)
    mutate_update-keeps owner_id none revision changed h = absurd (cc h)

    mutate_run-keeps :
        (owner_id job_id : String) (revision : ℕ) (run_id : String) (changed : Db)
        → mutate_run owner_id job_id revision run_id now db ≡ ok (some changed)
        → P changed
    unfolding mutate_run request_manual_run
    mutate_run-keeps owner_id job_id revision run_id changed h =
        let (answer, ha, h1) =
          >>=-eq-ok (request_manual_run owner_id job_id (some revision) run_id now db) _ h in
        subst P (if_started-some answer changed (ok-injective h1)) (
          starts
            (first_where
              (λ j.
                str_eq j.owner_id owner_id
                && str_eq j.job_id job_id
                && is_active j.status
                && revision_fits (some revision) j.revision)
              db.jobs)
            run_id answer ha)

    mutate_status-keeps :
        (owner_id operation : String) (job_id : Option String) (revision : Option ℕ)
        (run_id : String) (changed : Db)
        → mutate_status owner_id operation job_id revision run_id now db ≡ ok (some changed)
        → P changed
    unfolding mutate_status pause_job resume_job delete_job
    mutate_status-keeps owner_id operation none revision run_id changed h = absurd (cc h)
    mutate_status-keeps owner_id operation (some job_id) none run_id changed h = absurd (cc h)
    mutate_status-keeps owner_id operation (some job_id) (some revision) run_id changed h =
        elim (Bool-cases (str_eq operation "run_now")) [
          | inl run ↦ mutate_run-keeps owner_id job_id revision run_id changed (rw run at h)
          | inr a ↦ elim (Bool-cases (str_eq operation "pause")) [
            | inl pausing ↦
                subst P
                  (if_changed-some (pause_job owner_id job_id revision now db) changed
                    (rw (a, pausing) at h))
                  (changes is_live (set_status JobStatus.paused now) owner_id job_id revision
                    Action.pause false)
            | inr b ↦ elim (Bool-cases (str_eq operation "resume")) [
              | inl resuming ↦
                  subst P
                    (if_changed-some (resume_job owner_id job_id revision now db) changed
                      (rw (a, b, resuming) at h))
                    (changes is_live (set_status JobStatus.active now) owner_id job_id revision
                      Action.resume false)
              | inr c ↦ elim (Bool-cases (str_eq operation "delete")) [
                | inl deleting ↦
                    subst P
                      (if_changed-some (delete_job owner_id job_id revision now db) changed
                        (rw (a, b, c, deleting) at h))
                      (changes any_status (set_status JobStatus.cancelled now) owner_id job_id
                        revision Action.delete true)
                | inr d ↦ absurd (cc (rw (a, b, c, d) at h))
              ]
            ]
          ]
        ]

    pub apply_mutation-keeps :
        (owner_id operation : String) (job : Option CronJob) (job_id : Option String)
        (revision : Option ℕ) (run_id : String) (changed : Db)
        → apply_mutation owner_id operation job job_id revision run_id now db ≡ ok (some changed)
        → P changed
    unfolding apply_mutation
    apply_mutation-keeps owner_id operation job job_id revision run_id changed h =
        elim (Bool-cases (str_eq operation "create")) [
          | inl a ↦ mutate_create-keeps job changed (rw a at h)
          | inr a ↦ elim (Bool-cases (str_eq operation "update")) [
            | inl b ↦ mutate_update-keeps owner_id job revision changed (rw (a, b) at h)
            | inr b ↦
                mutate_status-keeps owner_id operation job_id revision run_id changed
                  (rw (a, b) at h)
          ]
        ]
