-- ===== src/Execution/Rely.antt =====
-- The end of an execution of executeJobWithLock among other clients of the database.
use mathlib.Core.Path.{subst₂}
use cron_lib.Base.{
  sym, ℕ, ◌+◌, ◌<◌, ◌≡◌, ◌≢◌, refl, ap, String, Bool, true, false, Option, some, [], arith,
  Distinct,
}
use cron_lib.Schema.{row}
use cron_lib.Jobs.{Jobs, AcquireParams, acquire_job_lock_in_db}
use cron_lib.Jobs.Constraints.{same_key, acquire-keys}
use cron_lib.Jobs.Exclusion.{acquire-Held}
use cron_lib.Jobs.Release.{IsFree, acquire-IsFree}
use cron_lib.Manager.State.{Job, refused}
use cron_lib.Execution.World.{AdvisoryApi, Env, State, Result, ok, err, call}
use cron_lib.Execution.{
  update_audit_log_status, acquire_job_lock, acquire_params, after_lease, with_lock, after_try,
  execute_job_with_lock, create_audit_log, try_advisory_lock, release_advisory_lock,
}
use cron_lib.Execution.Runs.{has_run, call-ok, call-keeps, after_lease-has_run}
use cron_lib.Execution.Deadline.{minute}
use cron_lib.Jobs.Lease.{granted}
use cron_lib.Execution.Calls.{jobs_of}
use cron_lib.Execution.Others.{IsTaken, IsRely, call-IsFree, run_job-IsFree}

module _ {L : Type 0} (api : AdvisoryApi L) (env : Env L) (instance_id : String) (job : Job)
    (rely : IsRely env job) (delivered : (n : ℕ) → env.fault n ≢ refused) where
  abbrev Free : State L → Type 0
  Free s = IsFree job.tenant_id job.lock (jobs_of s)

  -- The upsert that returned an id has taken the row of that id.
  upsert-IsTaken :
      (at new_id now next id : ℕ) (rows : Jobs)
      → Distinct same_key rows
      → (acquire_job_lock_in_db at new_id (acquire_params api env instance_id job now next) rows).0
        ≡ row id
      → IsTaken job.tenant_id job.lock id
          (acquire_job_lock_in_db at new_id
            (acquire_params api env instance_id job now next)
            rows).1
  unfolding acquire_params
  upsert-IsTaken at new_id now next id rows d e =
      let p = acquire_params api env instance_id job now next in
      let (r, found, h) = acquire-Held at new_id p rows id e in
      record { distinct = acquire-keys at new_id p rows d; held = (r, found, h.same) }

  acquire-IsTaken :
      (ctx : Option ℕ) (now id : ℕ) (s : State L)
      → Distinct same_key (jobs_of s)
      → (acquire_job_lock api env instance_id job ctx now s).0 ≡ ok id
      → IsTaken job.tenant_id job.lock id
          (jobs_of (acquire_job_lock api env instance_id job ctx now s).1)
  unfolding acquire_job_lock
  acquire-IsTaken ctx now id s d e =
      let (got, new) = call-ok env ctx id _ s e in
      rw (ap (λ db. db.jobs) new) (upsert-IsTaken _ _ now _ id _ (rely.distinct s.calls s.db d) got)

  after_lease-frees :
      (d now audit_id : ℕ) (r : Result ℕ) (s : State L)
      → ((m : ℕ) → env.local_clock m < d)
      → ((id : ℕ) → r ≡ ok id → IsTaken job.tenant_id job.lock id (jobs_of s))
      → has_run s.trace ≡ false
      → has_run (after_lease api env instance_id job (some d) now audit_id r s).1.trace ≡ true
      → Free (after_lease api env instance_id job (some d) now audit_id r s).1
  after_lease-frees d now audit_id (ok id) s prompt k before ran =
      unfold after_lease in
      run_job-IsFree api env instance_id job rely delivered d now audit_id id s (prompt s.calls)
        (k id refl)
  after_lease-frees d now audit_id (err text) s prompt k before ran =
      let same =
        after_lease-has_run api env instance_id job (some d) now audit_id (err text) s refl in
      absurd (ground (arith, same, before, ran))

  with_lock-frees :
      (d now audit_id : ℕ) (s : State L)
      → ((m : ℕ) → env.local_clock m < d)
      → Distinct same_key (jobs_of s)
      → has_run s.trace ≡ false
      → has_run (with_lock api env instance_id job (some d) now audit_id s).1.trace ≡ true
      → Free (with_lock api env instance_id job (some d) now audit_id s).1
  unfolding with_lock
  with_lock-frees d now audit_id s prompt k before ran =
      after_lease-frees d now audit_id _ _ prompt (λ id e. acquire-IsTaken _ now id s k e) same ran
    where
      same : has_run (acquire_job_lock api env instance_id job (some d) now s).1.trace ≡ false
      same = unfold acquire_job_lock call in before

  release-IsFree : (s : State L) → Free s → Free (release_advisory_lock api env instance_id job s).1
  unfolding release_advisory_lock
  release-IsFree s f = call-IsFree api env instance_id job rely delivered _ _ s (λ at _ _ db g. g) f

  after_try-frees :
      (d now audit_id : ℕ) (r : Result Bool) (s : State L)
      → ((m : ℕ) → env.local_clock m < d)
      → Distinct same_key (jobs_of s)
      → has_run s.trace ≡ false
      → has_run (after_try api env instance_id job (some d) now audit_id r s).1.trace ≡ true
      → Free (after_try api env instance_id job (some d) now audit_id r s).1
  unfolding after_try update_audit_log_status release_advisory_lock call
  after_try-frees d now audit_id (err text) s prompt k before ran = absurd (ground (arith, before))
  after_try-frees d now audit_id (ok false) s prompt k before ran = absurd (ground (arith, before))
  after_try-frees d now audit_id (ok true) s prompt k before ran =
      release-IsFree (with_lock api env instance_id job (some d) now audit_id s).1
        (with_lock-frees d now audit_id s prompt k before ran)

  create-Distinct :
      (now : ℕ) (s : State L)
      → Distinct same_key (jobs_of s)
      → Distinct same_key (jobs_of (create_audit_log api env instance_id job now s).1)
  unfolding create_audit_log
  create-Distinct now s =
      call-keeps env (λ db. Distinct same_key db.jobs) _ _ s rely.distinct (λ at _ _ db k. k)

  try-Distinct :
      (ctx : Option ℕ) (s : State L)
      → Distinct same_key (jobs_of s)
      → Distinct same_key (jobs_of (try_advisory_lock api env instance_id job ctx s).1)
  unfolding try_advisory_lock
  try-Distinct ctx s =
      call-keeps env (λ db. Distinct same_key db.jobs) ctx _ s rely.distinct (λ at _ _ db k. k)

  execute-frees :
      (s : State L)
      → s.trace ≡ []
      → Distinct same_key (jobs_of s)
      → ((m : ℕ) → env.local_clock m < env.local_clock (s.calls + 1) + minute)
      → has_run (execute_job_with_lock api env instance_id job s).1.trace ≡ true
      → Free (execute_job_with_lock api env instance_id job s).1
  unfolding execute_job_with_lock
  execute-frees s e k prompt ran =
      let now = env.local_clock s.calls in
      after_try-frees _ now _ _ _ (unfold create_audit_log call in prompt)
        (try-Distinct _ _ (create-Distinct now s k))
        (unfold try_advisory_lock create_audit_log call in ap has_run e) ran

  -- Where other clients leave a free lock of the job free, its row in place and keys distinct, and every
  -- call that is sent is executed, though its answer may be lost: an execution that starts with an
  -- empty trace and distinct keys, runs the job, and finds the clock at each call within a minute
  -- from asking for the advisory lock leaves the row's lock free. However the job ended (success,
  -- error or panic), and whether the tables were cleaned up or not, the next acquisition of the
  -- lock is granted, at any time.
  pub run_job_frees_lock :
      (s : State L)
      → s.trace ≡ []
      → Distinct same_key (jobs_of s)
      → ((m : ℕ) → env.local_clock m < env.local_clock (s.calls + 1) + minute)
      → has_run (execute_job_with_lock api env instance_id job s).1.trace ≡ true
      → (later later_id : ℕ) (q : AcquireParams) → q.tenant_id ≡ job.tenant_id
      → q.lock ≡ job.lock
      → granted
          (acquire_job_lock_in_db later later_id q
            (jobs_of (execute_job_with_lock api env instance_id job s).1)).0
        ≡ true
  run_job_frees_lock s e k prompt ran later later_id q t l = acquire-IsFree later later_id q _ (
      subst₂ (λ x y. IsFree x y (jobs_of (execute_job_with_lock api env instance_id job s).1))
        (sym t) (sym l) (execute-frees s e k prompt ran))
