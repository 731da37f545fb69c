-- ===== src/Execution/Others.antt =====
-- The calls of executeJobWithLock after the acquisition, among other clients of the database.
use cron_lib.Base.{
  ℕ, ◌<◌, ◌≡◌, ◌≢◌, refl, String, str_eq, ◌==◌, ◌||◌, false, Option, some, arith, Bool-cases, inl,
  inr, Distinct, find_where, update_where,
}
use cron_lib.Jobs.{
  Jobs, has_key, has_id, unlocked_row, update_job_status_to_completed, update_job_status_to_failed,
}
use cron_lib.Schema.{CronJob}
use cron_lib.Jobs.Constraints.{same_key}
use cron_lib.Jobs.Release.{IsFree, unlock-IsFree, old-IsFree, stale-IsFree}
use cron_lib.Manager.State.{Job, refused}
use cron_lib.Execution.World.{
  AdvisoryApi, Db, Outcome, succeeded, failed, panicked, Env, State, Statement, call, expired,
}
use cron_lib.Execution.{
  update_audit_log_status, update_status_to_failed, update_status_to_completed, clean_up, conclude,
  run_job,
}
use cron_lib.Execution.Runs.{settle-db, call-keeps}
use cron_lib.Execution.Calls.{jobs_of, start-frame, stop-jobs}

-- Keys are distinct, and the row of the key is the one of the id.
pub record IsTaken (tenant_id lock : String) (id : ℕ) (rows : Jobs) : Type 0 where
  pub distinct : Distinct same_key rows
  pub held : (r : CronJob) × (find_where (has_key tenant_id lock) rows ≡ some r) × (r.id ≡ id)

-- What the other clients do between the calls of an execution: they leave a free lock of the job free,
-- the row of the lock where it is, and keys distinct.
pub record IsRely {L : Type 0} (env : Env L) (job : Job) : Type 0 where
  pub free :
      (n : ℕ) (db : Db L)
      → IsFree job.tenant_id job.lock db.jobs
      → IsFree job.tenant_id job.lock (env.interfere n db).jobs
  pub taken :
      (id n : ℕ) (db : Db L)
      → IsTaken job.tenant_id job.lock id db.jobs
      → IsTaken job.tenant_id job.lock id (env.interfere n db).jobs
  pub distinct :
      (n : ℕ) (db : Db L) → Distinct same_key db.jobs → Distinct same_key (env.interfere n db).jobs

module _ {L : Type 0} (api : AdvisoryApi L) (env : Env L) (instance_id : String) (job : Job)
    (rely : IsRely env job) (delivered : (n : ℕ) → env.fault n ≢ refused) where
  abbrev Free : State L → Type 0
  Free s = IsFree job.tenant_id job.lock (jobs_of s)

  -- A call keeps the lock free if its statement does, sent or not.
  pub call-IsFree :
      {A : Type 0} (ctx : Option ℕ) (statement : Statement L A) (s : State L)
      → ((now id session : ℕ) (db : Db L)
          → IsFree job.tenant_id job.lock db.jobs
          → IsFree job.tenant_id job.lock (statement now id session db).1.jobs)
      → Free s
      → Free (call env ctx statement s).1
  call-IsFree ctx statement s =
      call-keeps env (λ db. IsFree job.tenant_id job.lock db.jobs) ctx statement s rely.free

  clean_up-IsFree :
      (ctx : Option ℕ) (now : ℕ) (s : State L)
      → Free s
      → Free (clean_up api env instance_id job ctx now s).1
  unfolding clean_up
  clean_up-IsFree ctx now s f =
      elim (Bool-cases (str_eq job.name "system.cleanup" || env.minute_of now == 0)) [
        | inr not_due ↦ rw not_due f
        | inl due ↦ rw due (
            call-IsFree ctx _ _ (λ at _ _ db g. g)
              (call-IsFree ctx _ _ (λ at _ _ db g. stale-IsFree _ _ at job.tenant_id db.jobs g)
                (call-IsFree ctx _ s (λ at _ _ db g. old-IsFree _ _ at job.tenant_id db.jobs g) f)))
      ]

  report-IsFree :
      (id : ℕ) (status : String) (output error : Option String) (s : State L)
      → Free s
      → Free (update_audit_log_status api env instance_id job id status output error s).1
  unfolding update_audit_log_status
  report-IsFree id status output error s f = call-IsFree _ _ s (λ at _ _ db g. g) f

  -- A call in time whose statement unlocks the row of the id.
  call-frees :
      {A : Type 0} (d id : ℕ) (statement : Statement L A) (s : State L)
      → env.local_clock s.calls < d
      → ((now new_id session : ℕ) (db : Db L)
          → IsTaken job.tenant_id job.lock id db.jobs
          → IsFree job.tenant_id job.lock (statement now new_id session db).1.jobs)
      → IsTaken job.tenant_id job.lock id (jobs_of s)
      → Free (call env (some d) statement s).1
  unfolding call
  call-frees d id statement s early frees k =
      rw (timely, settle-db env s.calls _ _ _ (delivered s.calls))
        (frees _ _ _ _ (rely.taken id s.calls s.db k))
    where
      timely : expired (some d) (env.local_clock s.calls) ≡ false
      timely = ground arith

  unlocked-IsFree :
      (id now : ℕ) (status : String) (rows : Jobs)
      → str_eq status "running" ≡ false
      → IsTaken job.tenant_id job.lock id rows
      → IsFree job.tenant_id job.lock (update_where (has_id id) (unlocked_row status now) rows)
  unlocked-IsFree id now status rows e k =
      unlock-IsFree _ _ id status now rows (k.held.0) e k.distinct (k.held.1) (k.held.2)

  completed-IsFree :
      (d id : ℕ) (s : State L)
      → env.local_clock s.calls < d
      → IsTaken job.tenant_id job.lock id (jobs_of s)
      → Free (update_status_to_completed api env instance_id job (some d) id s).1
  unfolding update_status_to_completed update_job_status_to_completed
  completed-IsFree d id s early k =
      call-frees d id _ s early (λ at _ _ db t. unlocked-IsFree id at "completed" db.jobs refl t) k

  failed-IsFree :
      (d id : ℕ) (s : State L)
      → env.local_clock s.calls < d
      → IsTaken job.tenant_id job.lock id (jobs_of s)
      → Free (update_status_to_failed api env instance_id job (some d) id s).1
  unfolding update_status_to_failed update_job_status_to_failed
  failed-IsFree d id s early k =
      call-frees d id _ s early (λ at _ _ db t. unlocked-IsFree id at "failed" db.jobs refl t) k

  conclude-IsFree :
      (d now audit_id id : ℕ) (o : Outcome) (s : State L)
      → env.local_clock s.calls < d
      → IsTaken job.tenant_id job.lock id (jobs_of s)
      → Free (conclude api env instance_id job (some d) now audit_id id o s).1
  unfolding conclude
  conclude-IsFree d now audit_id id succeeded s early k =
      clean_up-IsFree (some d) now _
        (report-IsFree audit_id _ _ _ _ (completed-IsFree d id s early k))
  conclude-IsFree d now audit_id id (failed text) s early k =
      clean_up-IsFree (some d) now _ (report-IsFree audit_id _ _ _ _ (failed-IsFree d id s early k))
  conclude-IsFree d now audit_id id (panicked text) s early k =
      report-IsFree audit_id _ _ _ _ (failed-IsFree _ id s (omega arith) k)

  pub run_job-IsFree :
      (d now audit_id id : ℕ) (s : State L)
      → env.local_clock s.calls < d
      → IsTaken job.tenant_id job.lock id (jobs_of s)
      → Free (run_job api env instance_id job (some d) now audit_id id s).1
  unfolding run_job
  run_job-IsFree d now audit_id id s early k =
      let (jobs, calls) = start-frame api env instance_id job job.is_long_running id s in
      rw (stop-jobs api env instance_id job job.is_long_running id _)
        (conclude-IsFree d now audit_id id env.outcome _ (rw calls early) (rw jobs k))
