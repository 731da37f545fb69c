-- ===== src/Execution.antt =====
-- `executeJobWithLock` and `updateAuditLogStatus` of pkg/job-manager.go: one execution of a job, from
-- the first audit log entry to the release of the advisory lock.
pub mod World
pub mod Locks
pub mod Grants
pub mod Calls
pub mod Deadline
pub mod Release
pub mod Runs
pub mod Exclusion
pub mod Entries
pub mod Audited
pub mod Others
pub mod Rely
use Prim.Native.String.{◌++◌}
use cron_lib.Base.{
  ℕ, ◌+◌, ◌*◌, String, str_eq, Bool, true, false, ◌||◌, ◌==◌, Option, none, some, List, [], ◌∷◌,
  if◌then◌else◌,
}
use cron_lib.Schema.{Reply, row, CronJobAuditLog, nil_uuid}
use cron_lib.Jobs.{
  Jobs, AcquireParams, acquire_job_lock_in_db, update_job_status_to_completed,
  update_job_status_to_failed, cleanup_old_tasks, cleanup_stale_locks,
}
use cron_lib.Audit.{
  AuditLogs, CreateParams, UpdateParams, create_job_audit_log, update_job_audit_log,
}
use cron_lib.Registry.{cleanup_stale_registered_jobs}
use cron_lib.Manager.Keys.{job_lock_to_lock_id}
use cron_lib.Manager.State.{Job}
use World.{
  AdvisoryApi, Db, Outcome, succeeded, failed, panicked, Env, Event, opened, tried, leased,
  heartbeat_started, heartbeat_stopped, ran, marked, reported, cleaned, released, State, Result, ok,
  err, M, ◌>>=◌, ◌>>◌, emit, skip, Statement, call,
}

module _ {L : Type 0} (api : AdvisoryApi L) (env : Env L) (instance_id : String) (job : Job) where
  -- context.WithTimeout: the deadline lies that many seconds after the present.
  abbrev pub with_timeout : ℕ → M L (Option ℕ)
  with_timeout seconds s = (some (env.local_clock s.calls + seconds * 1000000), s)

  abbrev pub time_now : M L ℕ
  time_now s = (env.local_clock s.calls, s)

  abbrev pub on_jobs : {A : Type 0} → (Jobs → Reply A × Jobs) → Db L → Reply A × Db L
  on_jobs f db = let (reply, jobs) = f db.jobs in (reply, record db { jobs = jobs })

  abbrev pub done : Jobs → Reply (Unit {0}) × Jobs
  done jobs = (row tt, jobs)

  unfoldable pub update_audit_log_status :
      ℕ → String → Option String → Option String → M L (Unit {0})
  update_audit_log_status audit_log_id status output error = do
    ctx ← with_timeout 5
    end_time ← time_now
    _ ← call env ctx λ now _ _ db.
        let (reply, logs) =
          update_job_audit_log now
            (record {
              id = audit_log_id;
              end_time = some end_time;
              status = status;
              output = output;
              error = error;
              tenant_id = job.tenant_id;
            })
            db.audit_logs in
        (reply, record db { audit_logs = logs })
    emit (reported status)

  -- The first entry of the audit log. If the call fails, Go's zero value leaves the id `uuid.Nil`.
  unfoldable pub create_audit_log : ℕ → M L ℕ
  create_audit_log now = do
    ctx ← with_timeout 60
    result ← call env ctx λ at new_id _ db.
        let (entry, logs) =
          create_job_audit_log at new_id
            (record {
              user_id = "system";
              app_id = instance_id;
              request_id = env.request_id;
              job_name = job.name;
              scheduled_time = some now;
              start_time = some now;
              end_time = none;
              status = "started";
              output = none;
              error = none;
              tenant_id = job.tenant_id;
            })
            db.audit_logs in
        (row entry, record db { audit_logs = logs })
    emit opened
    λ s. (elim result [ ok entry ↦ entry.id | err _ ↦ nil_uuid ], s)

  abbrev pub lock_id : ℕ
  lock_id = job_lock_to_lock_id job.lock job.tenant_id

  abbrev pub granted : Result Bool → Bool
  granted (ok b) = b
  granted (err _) = false

  unfoldable pub try_advisory_lock : Option ℕ → M L (Result Bool)
  try_advisory_lock ctx = do
    result ← call env ctx λ _ _ session db.
        let (acquired, locks) = api.try_lock session lock_id db.locks in
        (row acquired, record db { locks = locks })
    emit (tried lock_id (granted result))
    λ s. (result, s)

  -- The deferred release, with its own context. Its error is logged.
  unfoldable pub release_advisory_lock : M L (Unit {0})
  release_advisory_lock = do
    ctx ← with_timeout 5
    _ ← call {A = Unit {0}} env ctx λ _ _ session db.
        let (_, locks) = api.unlock session lock_id db.locks in
        (row tt, record db { locks = locks })
    emit (released lock_id)

  unfoldable pub acquire_params : ℕ → ℕ → AcquireParams
  acquire_params now next_run_time = record {
    tenant_id = job.tenant_id;
    lock = job.lock;
    job_name = job.name;
    now = now;
    next_run_time = next_run_time;
    instance_id = instance_id;
  }

  abbrev pub leased_id : Result ℕ → Option ℕ
  leased_id (ok id) = some id
  leased_id (err _) = none

  unfoldable pub acquire_job_lock : Option ℕ → ℕ → M L (Result ℕ)
  acquire_job_lock ctx now = do
    present ← time_now
    result ← call env ctx λ at new_id _ db.
        on_jobs (acquire_job_lock_in_db at new_id (acquire_params now (job.next_run_time present)))
          db
    emit (leased (leased_id result))
    λ s. (result, s)

  unfoldable pub update_status_to_failed : Option ℕ → ℕ → M L (Unit {0})
  update_status_to_failed ctx job_id = do
    _ ←
        call env ctx
          λ at _ _ db. on_jobs (λ jobs. done (update_job_status_to_failed at job_id jobs)) db
    emit (marked job_id "failed")

  unfoldable pub update_status_to_completed : Option ℕ → ℕ → M L (Unit {0})
  update_status_to_completed ctx job_id = do
    _ ←
        call env ctx
          λ at _ _ db. on_jobs (λ jobs. done (update_job_status_to_completed at job_id jobs)) db
    emit (marked job_id "completed")

  unfoldable pub clean_up_tables : Option ℕ → M L (Unit {0})
  clean_up_tables ctx = do
    _ ←
        call env ctx
          λ at _ _ db. on_jobs (λ jobs. done (cleanup_old_tasks at job.tenant_id jobs)) db
    emit cleaned
    _ ←
        call env ctx
          λ at _ _ db. on_jobs (λ jobs. done (cleanup_stale_locks at job.tenant_id jobs)) db
    emit cleaned
    _ ← call {A = Unit {0}} env ctx λ at _ _ db. (
      row tt,
      record db { registered = cleanup_stale_registered_jobs at job.tenant_id db.registered },
    )
    emit cleaned

  -- Old tasks, stale locks and stale registrations, on the hour or by the clean-up job.
  unfoldable pub clean_up : Option ℕ → ℕ → M L (Unit {0})
  unfolding clean_up_tables
  clean_up ctx now =
      if str_eq job.name "system.cleanup" || env.minute_of now == 0
      then clean_up_tables ctx
      else skip

  -- What follows `job.Run`: for a panic the deferred recovery, with a context of its own, which skips
  -- the clean-up; for an error or a success the rest of the function, under the context of the locks.
  unfoldable pub conclude : Option ℕ → ℕ → ℕ → ℕ → Outcome → M L (Unit {0})
  conclude ctx now audit_log_id job_id (panicked text) = do
    fresh ← with_timeout 5
    update_status_to_failed fresh job_id
    update_audit_log_status audit_log_id "failed" none (some ("Panic: " ++ text))
  conclude ctx now audit_log_id job_id (failed text) = do
    update_status_to_failed ctx job_id
    update_audit_log_status audit_log_id "failed" none (some text)
    clean_up ctx now
  conclude ctx now audit_log_id job_id succeeded = do
    update_status_to_completed ctx job_id
    update_audit_log_status audit_log_id "completed" (some "Job completed successfully") none
    clean_up ctx now

  unfoldable pub start_heartbeat : Bool → ℕ → M L (Unit {0})
  start_heartbeat true job_id = emit (heartbeat_started job_id)
  start_heartbeat false job_id = skip

  unfoldable pub stop_heartbeat : Bool → ℕ → M L (Unit {0})
  stop_heartbeat true job_id = emit (heartbeat_stopped job_id)
  stop_heartbeat false job_id = skip

  -- The job runs under a heartbeat if it is long-running; the heartbeat is stopped on every way out.
  unfoldable pub run_job : Option ℕ → ℕ → ℕ → ℕ → M L (Unit {0})
  run_job ctx now audit_log_id job_id = do
    start_heartbeat job.is_long_running job_id
    emit (ran env.outcome)
    conclude ctx now audit_log_id job_id env.outcome
    stop_heartbeat job.is_long_running job_id

  -- Under the advisory lock: the row of `cron_jobs`, and the job.
  unfoldable pub after_lease : Option ℕ → ℕ → ℕ → Result ℕ → M L (Unit {0})
  after_lease ctx now audit_log_id (ok job_id) = run_job ctx now audit_log_id job_id
  after_lease ctx now audit_log_id (err text) =
      if str_eq env.no_rows_text text
      then update_audit_log_status audit_log_id "skipped" none
          (some "Job already locked in database")
      else update_audit_log_status audit_log_id "failed" none (some text)

  unfoldable pub with_lock : Option ℕ → ℕ → ℕ → M L (Unit {0})
  with_lock ctx now audit_log_id = acquire_job_lock ctx now >>= after_lease ctx now audit_log_id

  unfoldable pub after_try : Option ℕ → ℕ → ℕ → Result Bool → M L (Unit {0})
  after_try ctx now audit_log_id (err text) =
      update_audit_log_status audit_log_id "failed" none (some text)
  after_try ctx now audit_log_id (ok false) =
      update_audit_log_status audit_log_id "skipped" none
        (some "Job already running in another instance")
  after_try ctx now audit_log_id (ok true) = with_lock ctx now audit_log_id >> release_advisory_lock

  unfoldable pub execute_job_with_lock : M L (Unit {0})
  execute_job_with_lock = do
    now ← time_now
    audit_log_id ← create_audit_log now
    ctx ← with_timeout 60
    result ← try_advisory_lock ctx
    after_try ctx now audit_log_id result
