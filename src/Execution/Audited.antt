-- ===== src/Execution/Audited.antt =====
-- What an execution of executeJobWithLock leaves in `cron_job_audit_logs`.
use cron_lib.Base.{
  ℕ, ◌+◌, ◌*◌, ◌≡◌, ◌≢◌, refl, sym, ap, ◌∙◌, String, str_eq, Bool, true, false, Option, none, some,
  [], ◌∷◌, arith, Bool-cases, inl, inr,
}
use cron_lib.Schema.{CronJobAuditLog, no_rows}
use cron_lib.Audit.{CreateParams, created_row, create_job_audit_log, get_job_audit_log_by_id}
use cron_lib.Audit.Laws.{get-create_job_audit_log}
use cron_lib.Manager.State.{Job, answered, refused}
use cron_lib.Execution.World.{
  AdvisoryApi, Db, Outcome, succeeded, failed, panicked, Env, Event, State, Result, ok, err, call,
  expired,
}
use cron_lib.Execution.{
  create_audit_log, try_advisory_lock, conclude, start_heartbeat, run_job, after_lease, with_lock,
  after_try, execute_job_with_lock,
}
use cron_lib.Execution.Entries.{
  Entry, IsOpen, IsClosed, is_success, has_succeeded, report-IsClosed, Frame-IsClosed, Frame-IsOpen,
  try-Frame, acquire-Frame, completed-Frame, failed-Frame, release-Frame, clean_up-Frame,
  start-Frame, stop-Frame,
}

module _ {L : Type 0} (api : AdvisoryApi L) (env : Env L) (instance_id : String) (job : Job)
    (id start : ℕ)
    (spares : (n : ℕ) (db : Db L) (r : CronJobAuditLog)
      → Entry api env instance_id job id start r db
      → Entry api env instance_id job id start r (env.interfere n db))
    (delivered : (n : ℕ) → env.fault n ≢ refused) where
  conclude-IsClosed :
      (ctx : Option ℕ) (now job_id : ℕ) (o : Outcome) (r : CronJobAuditLog) (s : State L)
      → IsOpen api env instance_id job id start r s
      → has_succeeded s.trace ≡ is_success o
      → IsClosed api env instance_id job id start
          (conclude api env instance_id job ctx now id job_id o s).1
  unfolding conclude
  conclude-IsClosed ctx now job_id succeeded r s h e =
      let f = completed-Frame api env instance_id job id start spares delivered ctx job_id s in
      Frame-IsClosed api env instance_id job id start spares delivered _ _
        (clean_up-Frame api env instance_id job id start spares delivered ctx now _)
        (report-IsClosed api env instance_id job id start spares delivered "completed" _ _ r _
          (Frame-IsOpen api env instance_id job id start spares delivered r s _ f h) refl
          (sym (f.same ∙ e)))
  conclude-IsClosed ctx now job_id (failed text) r s h e =
      let f = failed-Frame api env instance_id job id start spares delivered ctx job_id s in
      Frame-IsClosed api env instance_id job id start spares delivered _ _
        (clean_up-Frame api env instance_id job id start spares delivered ctx now _)
        (report-IsClosed api env instance_id job id start spares delivered "failed" _ _ r _
          (Frame-IsOpen api env instance_id job id start spares delivered r s _ f h) refl
          (sym (f.same ∙ e)))
  conclude-IsClosed ctx now job_id (panicked text) r s h e =
      let f = failed-Frame api env instance_id job id start spares delivered _ job_id s in
      report-IsClosed api env instance_id job id start spares delivered "failed" _ _ r _
        (Frame-IsOpen api env instance_id job id start spares delivered r s _ f h) refl
        (sym (f.same ∙ e))

  run_job-IsClosed :
      (ctx : Option ℕ) (now job_id : ℕ) (r : CronJobAuditLog) (s : State L)
      → IsOpen api env instance_id job id start r s
      → has_succeeded s.trace ≡ false
      → IsClosed api env instance_id job id start
          (run_job api env instance_id job ctx now id job_id s).1
  unfolding run_job
  run_job-IsClosed ctx now job_id r s h e =
      let f =
        start-Frame api env instance_id job id start spares delivered job.is_long_running job_id
          s in
      let s' = (start_heartbeat api env instance_id job job.is_long_running job_id s).1 in
      let ran : State L = record s' { trace = Event.ran env.outcome ∷ s'.trace } in
      let o = Frame-IsOpen api env instance_id job id start spares delivered r s s' f h in
      let still_open : IsOpen api env instance_id job id start r ran = record {
        found = o.found;
        name = o.name;
        started = o.started;
      } in
      Frame-IsClosed api env instance_id job id start spares delivered _ _
        (stop-Frame api env instance_id job id start spares delivered job.is_long_running job_id _)
        (conclude-IsClosed ctx now job_id env.outcome r ran still_open (ground (arith, f.same, e)))

  after_lease-IsClosed :
      (ctx : Option ℕ) (now : ℕ) (result : Result ℕ) (r : CronJobAuditLog) (s : State L)
      → IsOpen api env instance_id job id start r s
      → has_succeeded s.trace ≡ false
      → IsClosed api env instance_id job id start
          (after_lease api env instance_id job ctx now id result s).1
  unfolding after_lease
  after_lease-IsClosed ctx now (ok job_id) r s h e = run_job-IsClosed ctx now job_id r s h e
  after_lease-IsClosed ctx now (err text) r s h e =
      elim (Bool-cases (str_eq env.no_rows_text text)) [
        | inl none_there ↦ rw none_there (
            report-IsClosed api env instance_id job id start spares delivered "skipped" _ _ r s h
              refl (sym e))
        | inr other ↦ rw other (
            report-IsClosed api env instance_id job id start spares delivered "failed" _ _ r s h
              refl (sym e))
      ]

  with_lock-IsClosed :
      (ctx : Option ℕ) (now : ℕ) (r : CronJobAuditLog) (s : State L)
      → IsOpen api env instance_id job id start r s
      → has_succeeded s.trace ≡ false
      → IsClosed api env instance_id job id start (with_lock api env instance_id job ctx now id s).1
  unfolding with_lock
  with_lock-IsClosed ctx now r s h e =
      let f = acquire-Frame api env instance_id job id start spares delivered ctx now s in
      after_lease-IsClosed ctx now _ r _
        (Frame-IsOpen api env instance_id job id start spares delivered r s _ f h) (f.same ∙ e)

  after_try-IsClosed :
      (ctx : Option ℕ) (now : ℕ) (result : Result Bool) (r : CronJobAuditLog) (s : State L)
      → IsOpen api env instance_id job id start r s
      → has_succeeded s.trace ≡ false
      → IsClosed api env instance_id job id start
          (after_try api env instance_id job ctx now id result s).1
  unfolding after_try
  after_try-IsClosed ctx now (err text) r s h e =
      report-IsClosed api env instance_id job id start spares delivered "failed" _ _ r s h refl
        (sym e)
  after_try-IsClosed ctx now (ok false) r s h e =
      report-IsClosed api env instance_id job id start spares delivered "skipped" _ _ r s h refl
        (sym e)
  after_try-IsClosed ctx now (ok true) r s h e =
      Frame-IsClosed api env instance_id job id start spares delivered _ _
        (release-Frame api env instance_id job id start spares delivered _)
        (with_lock-IsClosed ctx now r s h e)

  after_create-IsClosed :
      (ctx : Option ℕ) (now : ℕ) (r : CronJobAuditLog) (s : State L)
      → IsOpen api env instance_id job id start r s
      → has_succeeded s.trace ≡ false
      → let (result, s') = try_advisory_lock api env instance_id job ctx s in
        IsClosed api env instance_id job id start
          (after_try api env instance_id job ctx now id result s').1
  after_create-IsClosed ctx now r s h e =
      let f = try-Frame api env instance_id job id start spares delivered ctx s in
      after_try-IsClosed ctx now _ r _
        (Frame-IsOpen api env instance_id job id start spares delivered r s _ f h) (f.same ∙ e)

-- The creation of the entry that is answered.
create-IsOpen :
    {L : Type 0} (api : AdvisoryApi L) (env : Env L) (instance_id : String) (job : Job)
    (s : State L)
    → env.fault s.calls ≡ answered
    → get_job_audit_log_by_id
        (env.new_id s.calls)
        job.tenant_id
        (env.interfere s.calls s.db).audit_logs
      ≡ no_rows
    → let start = env.local_clock s.calls in
      let (id, s') = create_audit_log api env instance_id job start s in
      (id ≡ env.new_id s.calls)
      × ((r : CronJobAuditLog) × IsOpen api env instance_id job (env.new_id s.calls) start r s')
create-IsOpen api env instance_id job s reached free = (
  unfold create_audit_log call create_job_audit_log in rw (timely, reached) refl,
  (
    created_row (env.server_clock s.calls) id p,
    record { found = found; name = refl; started = refl },
  ),
)
  where
    id : ℕ
    id = env.new_id s.calls

    start : ℕ
    start = env.local_clock s.calls

    p : CreateParams
    p = record {
      user_id = "system";
      app_id = instance_id;
      request_id = env.request_id;
      job_name = job.name;
      scheduled_time = some start;
      start_time = some start;
      end_time = none;
      status = "started";
      output = none;
      error = none;
      tenant_id = job.tenant_id;
    }

    timely : expired (some (start + 60 * 1000000)) start ≡ false
    timely = ground arith

    found :
        Entry api env instance_id job id start
          (created_row (env.server_clock s.calls) id p)
          (create_audit_log api env instance_id job start s).1.db
    found =
        unfold create_audit_log call in
        rw (timely, reached) (get-create_job_audit_log (env.server_clock s.calls) id p _ free)

-- Where other clients leave the entry that the execution creates, under an id that the tenant did not
-- use, the creation of it is answered, and every later call that is sent is executed, though its
-- answer may be lost: an execution that starts with an empty trace leaves the entry with the
-- job's name, the time of the start, an end, and a final status, which is completed exactly if the
-- job was run and succeeded.
pub execution_is_audited :
    {L : Type 0} (api : AdvisoryApi L) (env : Env L) (instance_id : String) (job : Job)
    (s : State L)
    → (spares : (n : ℕ) (db : Db L) (r : CronJobAuditLog)
        → Entry api env instance_id job (env.new_id s.calls) (env.local_clock s.calls) r db
        → Entry api env instance_id job
            (env.new_id s.calls)
            (env.local_clock s.calls)
            r
            (env.interfere n db))
    → ((n : ℕ) → env.fault n ≢ refused)
    → env.fault s.calls ≡ answered
    → get_job_audit_log_by_id
        (env.new_id s.calls)
        job.tenant_id
        (env.interfere s.calls s.db).audit_logs
      ≡ no_rows
    → s.trace ≡ []
    → IsClosed api env instance_id job
        (env.new_id s.calls)
        (env.local_clock s.calls)
        (execute_job_with_lock api env instance_id job s).1
unfolding execute_job_with_lock
execution_is_audited api env instance_id job s spares delivered reached free e =
    let start = env.local_clock s.calls in
    let (same, (r, created)) = create-IsOpen api env instance_id job s reached free in
    rw same (
      after_create-IsClosed api env instance_id job (env.new_id s.calls) start spares delivered _
        start r _ created (unfold create_audit_log call in ap has_succeeded e))
