-- ===== src/Execution/Grants.antt =====
-- What the database answered in an execution of executeJobWithLock that runs the job.
use cron_lib.Base.{ℕ, ◌+◌, ◌≡◌, refl, ap, String, Bool, true, false, Option, some, [], arith}
use cron_lib.Schema.{row}
use cron_lib.Jobs.{acquire_job_lock_in_db}
use cron_lib.Manager.State.{Job}
use cron_lib.Execution.World.{AdvisoryApi, Env, State, Result, ok, err, call}
use cron_lib.Execution.{
  update_audit_log_status, create_audit_log, lock_id, try_advisory_lock, release_advisory_lock,
  acquire_job_lock, acquire_params, after_lease, with_lock, after_try, execute_job_with_lock,
}
use cron_lib.Execution.Runs.{has_run, after_lease-has_run, call-ok}

module _ {L : Type 0} (api : AdvisoryApi L) (env : Env L) (instance_id : String) (job : Job) where
  after_lease-granted :
      (ctx : Option ℕ) (now audit_id : ℕ) (r : Result ℕ) (s : State L)
      → has_run s.trace ≡ false
      → has_run (after_lease api env instance_id job ctx now audit_id r s).1.trace ≡ true
      → (id : ℕ) × (r ≡ ok id)
  after_lease-granted ctx now audit_id (ok id) s before ran = (id, refl)
  after_lease-granted ctx now audit_id (err text) s before ran =
      let same = after_lease-has_run api env instance_id job ctx now audit_id (err text) s refl in
      absurd (ground (arith, same, before, ran))

  -- The upsert of the execution in the state `s`, on the database as the statement finds it, is granted.
  abbrev pub IsLeased : ℕ → State L → Type 0
  IsLeased now s =
      (id : ℕ) × ((acquire_job_lock_in_db (env.server_clock s.calls) (env.new_id s.calls)
          (acquire_params api env instance_id job now (job.next_run_time (env.local_clock s.calls)))
          (env.interfere s.calls s.db).jobs).0
        ≡ row id)

  -- The try of the execution in the state `s`, on the database as the statement finds it, is granted.
  abbrev pub IsAdmitted : State L → Type 0
  IsAdmitted s =
      (api.try_lock (env.session s.calls) (lock_id api env instance_id job)
        (env.interfere s.calls s.db).locks).0
      ≡ true

  acquired :
      (s : State L) (ctx : Option ℕ) (now id : ℕ)
      → (acquire_job_lock api env instance_id job ctx now s).0 ≡ ok id
      → (acquire_job_lock_in_db
          (env.server_clock s.calls)
          (env.new_id s.calls)
          (acquire_params api env instance_id job now (job.next_run_time (env.local_clock s.calls)))
          (env.interfere s.calls s.db).jobs).0
        ≡ row id
  unfolding acquire_job_lock
  acquired s ctx now id e = (call-ok env ctx id _ s e).0

  admitted :
      (s : State L) (ctx : Option ℕ)
      → (try_advisory_lock api env instance_id job ctx s).0 ≡ ok true
      → IsAdmitted s
  unfolding try_advisory_lock
  admitted s ctx e = let (granted, _) = call-ok env ctx true _ s e in ground (arith, granted)

  with_lock-IsLeased :
      (ctx : Option ℕ) (now audit_id : ℕ) (s : State L)
      → has_run s.trace ≡ false
      → has_run (with_lock api env instance_id job ctx now audit_id s).1.trace ≡ true
      → IsLeased now s
  unfolding with_lock
  with_lock-IsLeased ctx now audit_id s before ran =
      let s' = (acquire_job_lock api env instance_id job ctx now s).1 in
      let still : has_run s'.trace ≡ false = unfold acquire_job_lock call in before in
      let (id, e) = after_lease-granted ctx now audit_id _ s' still ran in
      (id, acquired s ctx now id e)

  after_try-granted :
      (ctx : Option ℕ) (now audit_id : ℕ) (r : Result Bool) (s : State L)
      → has_run s.trace ≡ false
      → has_run (after_try api env instance_id job ctx now audit_id r s).1.trace ≡ true
      → (r ≡ ok true) × IsLeased now s
  unfolding after_try update_audit_log_status release_advisory_lock call
  after_try-granted ctx now audit_id (err text) s before ran = absurd (ground (arith, before, ran))
  after_try-granted ctx now audit_id (ok false) s before ran = absurd (ground (arith, before, ran))
  after_try-granted ctx now audit_id (ok true) s before ran =
      (refl, with_lock-IsLeased ctx now audit_id s before ran)

  -- An execution that starts with an empty trace runs the job only if PostgreSQL granted it both locks:
  -- the try of the advisory lock, on the locks as the second statement found them, and the upsert of
  -- the row, on the table as the third statement found it, with the time at which the execution
  -- started. This holds whatever calls fail, lose their answers or are not sent, and whatever other
  -- clients do in between.
  pub run_job_needs_both_locks :
      (s : State L)
      → s.trace ≡ []
      → has_run (execute_job_with_lock api env instance_id job s).1.trace ≡ true
      → let now = env.local_clock s.calls in
        let opened = (create_audit_log api env instance_id job now s).1 in
        let ctx = some (env.local_clock opened.calls + 60000000) in
        IsAdmitted opened × IsLeased now (try_advisory_lock api env instance_id job ctx opened).1
  unfolding execute_job_with_lock
  run_job_needs_both_locks s e ran =
      let now = env.local_clock s.calls in
      let opened = (create_audit_log api env instance_id job now s).1 in
      let ctx : Option ℕ = some (env.local_clock opened.calls + 60000000) in
      let tried = (try_advisory_lock api env instance_id job ctx opened).1 in
      let before : has_run tried.trace ≡ false =
        unfold try_advisory_lock create_audit_log call in ap has_run e in
      let (granted, held) = after_try-granted ctx now _ _ tried before ran in
      (admitted opened ctx granted, held)
