-- ===== src/Execution/Release.antt =====
-- The executions of executeJobWithLock that keep within the context of the locks.
use mathlib.Core.Path.{subst₂}
use cron_lib.Base.{
  ℕ, ◌+◌, ◌<◌, ◌≡◌, refl, sym, ap, ◌∙◌, false, Bool, String, str_eq, ◌==◌, ◌||◌, true, Option, some,
  [], arith, Bool-cases, inl, inr, Distinct,
}
use cron_lib.Schema.{row}
use cron_lib.Jobs.{AcquireParams, acquire_job_lock_in_db}
use cron_lib.Jobs.Constraints.{same_key}
use cron_lib.Jobs.Lease.{granted}
use cron_lib.Manager.State.{Job, answered}
use cron_lib.Execution.World.{
  AdvisoryApi, Db, Outcome, succeeded, failed, panicked, Env, State, call,
}
use cron_lib.Execution.{
  update_audit_log_status, create_audit_log, release_advisory_lock, stop_heartbeat, clean_up_tables,
  lock_id, try_advisory_lock, update_status_to_failed, update_status_to_completed, clean_up,
  conclude, run_job, after_lease, with_lock, after_try, execute_job_with_lock,
}
use cron_lib.Execution.Calls.{jobs_of, create-jobs, try-granted, acquire-granted, sent}
use cron_lib.Execution.Runs.{has_run}
use cron_lib.Execution.Others.{IsRely}
use cron_lib.Execution.Rely.{run_job_frees_lock}
use cron_lib.Execution.Deadline.{minute}

module _ {L : Type 0} (api : AdvisoryApi L) (env : Env L) (instance_id : String) (job : Job)
    (quiet : (n : ℕ) (db : Db L) → env.interfere n db ≡ db)
    (reached : (n : ℕ) → env.fault n ≡ answered) where
  rely : IsRely env job
  rely = record {
    free = λ n db f. rw (quiet n db) f;
    taken = λ id n db k. rw (quiet n db) k;
    distinct = λ n db d. rw (quiet n db) d;
  }

  clean_up-has_run :
      (ctx : Option ℕ) (now : ℕ) (s : State L)
      → has_run (clean_up api env instance_id job ctx now s).1.trace ≡ has_run s.trace
  unfolding clean_up clean_up_tables call
  clean_up-has_run ctx now s =
      elim (Bool-cases (str_eq job.name "system.cleanup" || env.minute_of now == 0)) [
        | inr not_due ↦ rw not_due refl
        | inl due ↦ rw due refl
      ]

  conclude-has_run :
      (ctx : Option ℕ) (now audit_id id : ℕ) (o : Outcome) (s : State L)
      → has_run (conclude api env instance_id job ctx now audit_id id o s).1.trace ≡ has_run s.trace
  unfolding conclude update_status_to_completed update_status_to_failed update_audit_log_status call
  conclude-has_run ctx now audit_id id (panicked text) s = refl
  conclude-has_run ctx now audit_id id (failed text) s = clean_up-has_run ctx now _
  conclude-has_run ctx now audit_id id succeeded s = clean_up-has_run ctx now _

  stop-has_run :
      (long : Bool) (id : ℕ) (s : State L)
      → has_run (stop_heartbeat api env instance_id job long id s).1.trace ≡ has_run s.trace
  unfolding stop_heartbeat
  stop-has_run true id s = refl
  stop-has_run false id s = refl

  run_job-has_run :
      (ctx : Option ℕ) (now audit_id id : ℕ) (s : State L)
      → has_run (run_job api env instance_id job ctx now audit_id id s).1.trace ≡ true
  unfolding run_job
  run_job-has_run ctx now audit_id id s =
      stop-has_run job.is_long_running id _ ∙ conclude-has_run ctx now audit_id id env.outcome _

  with_lock-has_run :
      (d now audit_id id : ℕ) (s : State L)
      → env.local_clock s.calls < d
      → (sent api env instance_id job quiet reached now s.calls (jobs_of s)).0 ≡ row id
      → has_run (with_lock api env instance_id job (some d) now audit_id s).1.trace ≡ true
  unfolding with_lock after_lease
  with_lock-has_run d now audit_id id s early leased =
      let (ok_id, _, _) =
        acquire-granted api env instance_id job quiet reached d now id s early leased in
      rw ok_id (run_job-has_run (some d) now audit_id id _)

  -- The executions that this is about: the first call is still to come, both locks are free, and every
  -- call comes within the minute of the context.
  pub record IsPrompt (id : ℕ) (s : State L) : Type 0 where
    pub fresh : s.trace ≡ []
    pub first : s.calls ≡ 0
    pub free : (api.try_lock (env.session 1) (lock_id api env instance_id job) s.db.locks).0 ≡ true
    pub keyed : Distinct same_key s.db.jobs
    pub leased :
        (sent api env instance_id job quiet reached (env.local_clock 0) 2 s.db.jobs).0 ≡ row id
    pub prompt : (m : ℕ) → env.local_clock m < env.local_clock 1 + minute

  after_try-has_run :
      (d now audit_id id : ℕ) (s : State L)
      → s.calls ≡ 1
      → (api.try_lock (env.session 1) (lock_id api env instance_id job) s.db.locks).0 ≡ true
      → ((m : ℕ) → env.local_clock m < d)
      → (sent api env instance_id job quiet reached now 2 (jobs_of s)).0 ≡ row id
      → let (r, s') = try_advisory_lock api env instance_id job (some d) s in
        has_run (after_try api env instance_id job (some d) now audit_id r s').1.trace ≡ true
  unfolding after_try
  after_try-has_run d now audit_id id s one free prompt leased =
      let t = (try_advisory_lock api env instance_id job (some d) s).1 in
      let (ok_true, jobs, calls) =
        try-granted api env instance_id job quiet reached d s (prompt s.calls) (rw one free) in
      let two : t.calls ≡ 2 = omega (arith, calls, one) in
      rw ok_true (
        unfold release_advisory_lock call in
        with_lock-has_run d now audit_id id t (prompt t.calls) (
          subst₂ (λ n rows. (sent api env instance_id job quiet reached now n rows).0 ≡ row id)
            (sym two) (sym jobs) leased))

  execute-has_run :
      (id : ℕ) (s : State L)
      → IsPrompt id s
      → has_run (execute_job_with_lock api env instance_id job s).1.trace ≡ true
  unfolding execute_job_with_lock
  execute-has_run id s h =
      let now = env.local_clock s.calls in
      let t = (create_audit_log api env instance_id job now s).1 in
      let (jobs, locks, calls) = create-jobs api env instance_id job quiet reached now s in
      let one : t.calls ≡ 1 = omega (arith, calls, h.first) in
      let due : env.local_clock t.calls + minute ≡ env.local_clock 1 + minute =
        ap (λ n. env.local_clock n + minute) one in
      after_try-has_run (env.local_clock t.calls + minute) now _ id t one (rw locks h.free)
        (λ m. rw due (h.prompt m))
        (subst₂ (λ n rows. (sent api env instance_id job quiet reached n 2 rows).0 ≡ row id)
          (sym (ap env.local_clock h.first)) (sym jobs) h.leased)

  -- Where no call fails, no other client intervenes and `cron_jobs` has distinct keys: an execution that
  -- starts with an empty trace,
  -- is granted both locks and makes all its calls within a minute from asking for the advisory lock
  -- leaves the row's lock free. However the job ended (success, error or panic), and whether the
  -- tables were cleaned up or not, the next acquisition of the lock is granted, at any time.
  pub prompt_job_frees_lock :
      (id : ℕ) (s : State L)
      → IsPrompt id s
      → (later later_id : ℕ) (q : AcquireParams) → q.tenant_id ≡ job.tenant_id
      → q.lock ≡ job.lock
      → granted
          (acquire_job_lock_in_db later later_id q
            (jobs_of (execute_job_with_lock api env instance_id job s).1)).0
        ≡ true
  prompt_job_frees_lock id s h later later_id q t l =
      run_job_frees_lock api env instance_id job rely (λ n e. ground (arith, reached n, e)) s
        h.fresh h.keyed (rw (ap (λ n. env.local_clock (n + 1)) h.first) h.prompt)
        (execute-has_run id s h) later later_id q t l
