-- ===== src/Execution/Deadline.antt =====
-- The context of the locks lasts sixty seconds, and the status of the row is written under it.
use mathlib.Core.Path.{ap₂, subst₂}
use cron_lib.Base.{
  ℕ, ◌+◌, ◌≤◌, ◌<◌, ◌≡◌, ◌≢◌, refl, sym, ap, ◌∙◌, String, true, Option, some, [], arith,
}
use cron_lib.Jobs.Statements.{run}
use cron_lib.Schema.{row, no_rows, minutes}
use cron_lib.Jobs.{AcquireParams, acquire_job_lock_in_db}
use cron_lib.Jobs.Exclusion.{lease_excludes}
use cron_lib.Manager.State.{Job, answered}
use cron_lib.Execution.World.{
  AdvisoryApi, Db, Outcome, succeeded, failed, panicked, Env, State, call,
}
use cron_lib.Execution.{
  update_audit_log_status, create_audit_log, lock_id, try_advisory_lock, acquire_params,
  update_status_to_failed, update_status_to_completed, clean_up, conclude, run_job, after_lease,
  with_lock, after_try, execute_job_with_lock,
}
use cron_lib.Execution.Calls.{
  jobs_of, report-jobs, create-jobs, try-granted, acquisition, acquire-granted, report-calls,
  release-jobs, start-frame, stop-jobs, sent,
}

abbrev pub minute : ℕ
minute = 60000000

module _ {L : Type 0} (api : AdvisoryApi L) (env : Env L) (instance_id : String) (job : Job)
    (quiet : (n : ℕ) (db : Db L) → env.interfere n db ≡ db)
    (reached : (n : ℕ) → env.fault n ≡ answered) where
  completed-late :
      (d id : ℕ) (s : State L)
      → d ≤ env.local_clock s.calls
      → let s' = (update_status_to_completed api env instance_id job (some d) id s).1 in
        (jobs_of s' ≡ jobs_of s) × (s'.calls ≡ s.calls + 1)
  unfolding update_status_to_completed call
  completed-late d id s late = ground (arith, quiet s.calls s.db)

  failed-late :
      (d id : ℕ) (s : State L)
      → d ≤ env.local_clock s.calls
      → let s' = (update_status_to_failed api env instance_id job (some d) id s).1 in
        (jobs_of s' ≡ jobs_of s) × (s'.calls ≡ s.calls + 1)
  unfolding update_status_to_failed call
  failed-late d id s late = ground (arith, quiet s.calls s.db)

  -- From its call number `n` on, the execution is past the deadline.
  abbrev LateFrom : ℕ → ℕ → Type 0
  LateFrom d n = (m : ℕ) → n ≤ m → d ≤ env.local_clock m

  clean_up-late :
      (d now : ℕ) (s : State L)
      → LateFrom d s.calls
      → jobs_of (clean_up api env instance_id job (some d) now s).1 ≡ jobs_of s
  unfolding clean_up call
  clean_up-late d now s late = ground (
    arith,
    quiet s.calls s.db,
    quiet (s.calls + 1) s.db,
    quiet (s.calls + 1 + 1) s.db,
    late s.calls,
    late (s.calls + 1),
    late (s.calls + 1 + 1),
  )

  -- What follows the marking of the row.
  rest-late :
      (d now audit_id : ℕ) (status : String) (output error : Option String) (s t : State L)
      → LateFrom d s.calls
      → (jobs_of t ≡ jobs_of s) × (t.calls ≡ s.calls + 1)
      → let u =
          (update_audit_log_status api env instance_id job audit_id status output error t).1 in
        jobs_of (clean_up api env instance_id job (some d) now u).1 ≡ jobs_of s
  rest-late d now audit_id status output error s t late (jobs, calls) =
      clean_up-late d now _ (λ m le. late m (
        omega (
          arith,
          report-calls api env instance_id job quiet reached audit_id status output error t,
          calls,
        )))
      ∙ report-jobs api env instance_id job quiet reached audit_id status output error t
      ∙ jobs

  conclude-late :
      (d now audit_id id : ℕ) (o : Outcome) (s : State L)
      → ((text : String) → o ≢ panicked text)
      → LateFrom d s.calls
      → jobs_of (conclude api env instance_id job (some d) now audit_id id o s).1 ≡ jobs_of s
  unfolding conclude
  conclude-late d now audit_id id succeeded s calm late =
      rest-late d now audit_id _ _ _ s _ late (completed-late d id s (late s.calls (omega arith)))
  conclude-late d now audit_id id (failed text) s calm late =
      rest-late d now audit_id _ _ _ s _ late (failed-late d id s (late s.calls (omega arith)))
  conclude-late d now audit_id id (panicked text) s calm late = absurd (calm text refl)

  run_job-late :
      (d now audit_id id : ℕ) (s : State L)
      → ((text : String) → env.outcome ≢ panicked text)
      → LateFrom d s.calls
      → jobs_of (run_job api env instance_id job (some d) now audit_id id s).1 ≡ jobs_of s
  unfolding run_job
  run_job-late d now audit_id id s calm late =
      let (jobs, calls) = start-frame api env instance_id job job.is_long_running id s in
      stop-jobs api env instance_id job job.is_long_running id _
      ∙ conclude-late d now audit_id id env.outcome _ calm (λ m le. late m (omega (arith, calls)))
      ∙ jobs

  with_lock-late :
      (d now audit_id id : ℕ) (s : State L)
      → env.local_clock s.calls < d
      → (acquire_job_lock_in_db
          (env.server_clock s.calls)
          (env.new_id s.calls)
          (acquisition api env instance_id job quiet reached now s.calls)
          (jobs_of s)).0
        ≡ row id
      → ((text : String) → env.outcome ≢ panicked text)
      → LateFrom d (s.calls + 1)
      → jobs_of (with_lock api env instance_id job (some d) now audit_id s).1
        ≡ (acquire_job_lock_in_db
            (env.server_clock s.calls)
            (env.new_id s.calls)
            (acquisition api env instance_id job quiet reached now s.calls)
            (jobs_of s)).1
  unfolding with_lock after_lease
  with_lock-late d now audit_id id s early leased calm late =
      let (ok_id, jobs, calls) =
        acquire-granted api env instance_id job quiet reached d now id s early leased in
      rw ok_id
        (run_job-late d now audit_id id _ calm (λ m le. late m (omega (arith, calls))) ∙ jobs)

  -- The executions that this is about: the first call is still to come, both locks are free, the row
  -- is granted within the minute of the context, and what comes after the job comes later than that.
  pub record IsSlow (id : ℕ) (s : State L) : Type 0 where
    pub first : s.calls ≡ 0
    pub free : (api.try_lock (env.session 1) (lock_id api env instance_id job) s.db.locks).0 ≡ true
    pub quick : env.local_clock 2 < env.local_clock 1 + minute
    pub leased :
        (acquire_job_lock_in_db
          (env.server_clock 2)
          (env.new_id 2)
          (acquisition api env instance_id job quiet reached (env.local_clock 0) 2)
          s.db.jobs).0
        ≡ row id
    pub slow : LateFrom (env.local_clock 1 + minute) 3
    pub calm : (text : String) → env.outcome ≢ panicked text

  after_try-late :
      (d now audit_id id : ℕ) (s : State L)
      → s.calls ≡ 1
      → (api.try_lock (env.session 1) (lock_id api env instance_id job) s.db.locks).0 ≡ true
      → env.local_clock 1 < d
      → env.local_clock 2 < d
      → (sent api env instance_id job quiet reached now 2 (jobs_of s)).0 ≡ row id
      → LateFrom d 3
      → ((text : String) → env.outcome ≢ panicked text)
      → let (r, s') = try_advisory_lock api env instance_id job (some d) s in
        jobs_of (after_try api env instance_id job (some d) now audit_id r s').1
        ≡ (sent api env instance_id job quiet reached now 2 (jobs_of s)).1
  unfolding after_try
  after_try-late d now audit_id id s one free early quick leased slow calm =
      let t = (try_advisory_lock api env instance_id job (some d) s).1 in
      let (ok_true, jobs, calls) =
        try-granted api env instance_id job quiet reached d s (rw one early) (rw one free) in
      let two : t.calls ≡ 2 = omega (arith, calls, one) in
      rw ok_true (
        release-jobs api env instance_id job quiet reached _
        ∙ with_lock-late d now audit_id id t (rw two quick)
            (subst₂ (λ n rows. (sent api env instance_id job quiet reached now n rows).0 ≡ row id)
              (sym two) (sym jobs) leased)
            calm (λ m le. slow m (omega (arith, two)))
        ∙ ap₂ (λ n rows. (sent api env instance_id job quiet reached now n rows).1) two jobs)

  execute-late :
      (id : ℕ) (s : State L)
      → IsSlow id s
      → jobs_of (execute_job_with_lock api env instance_id job s).1
        ≡ (sent api env instance_id job quiet reached (env.local_clock 0) 2 s.db.jobs).1
  unfolding execute_job_with_lock
  execute-late id s h =
      let now = env.local_clock s.calls in
      let t = (create_audit_log api env instance_id job now s).1 in
      let (jobs, locks, calls) = create-jobs api env instance_id job quiet reached now s in
      let one : t.calls ≡ 1 = omega (arith, calls, h.first) in
      let zero_now : now ≡ env.local_clock 0 = ap env.local_clock h.first in
      let due : env.local_clock t.calls + minute ≡ env.local_clock 1 + minute =
        ap (λ n. env.local_clock n + minute) one in
      after_try-late (env.local_clock t.calls + minute) now _ id t one (rw locks h.free)
        (rw due (omega arith)) (rw due h.quick)
        (subst₂ (λ n rows. (sent api env instance_id job quiet reached n 2 rows).0 ≡ row id)
          (sym zero_now) (sym jobs) h.leased)
        (λ m le. rw due (h.slow m le)) h.calm
      ∙ ap₂ (λ n rows. (sent api env instance_id job quiet reached n 2 rows).1) zero_now jobs

  -- Where no call fails and no other client intervenes: if both locks are granted, the job does not
  -- panic, and all calls after it come a minute or more after the execution asked for the advisory
  -- lock, the execution leaves `cron_jobs` as the acquisition made it, although it may have
  -- succeeded. Until ten minutes after its start every acquisition of the same lock is refused and
  -- changes nothing.
  pub slow_job_keeps_lease :
      (id : ℕ) (s : State L)
      → IsSlow id s
      → (later later_id : ℕ) (q : AcquireParams) → q.tenant_id ≡ job.tenant_id
      → q.lock ≡ job.lock
      → q.now ≤ env.local_clock 0 + minutes 10
      → let rows = jobs_of (execute_job_with_lock api env instance_id job s).1 in
        (rows ≡ (sent api env instance_id job quiet reached (env.local_clock 0) 2 s.db.jobs).1)
        × (acquire_job_lock_in_db later later_id q rows ≡ (no_rows, rows))
  unfolding acquire_params run
  slow_job_keeps_lease id s h later later_id q t l le = (
    execute-late id s h,
    rw (execute-late id s h) (
        lease_excludes (env.server_clock 2) (env.new_id 2)
          (acquisition api env instance_id job quiet reached (env.local_clock 0) 2) s.db.jobs id
          h.leased [] tt later later_id q t l le),
  )
