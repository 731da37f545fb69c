-- ===== src/Execution/Calls.antt =====
-- What each part of an execution does to `cron_jobs` where every call is answered and no other client
-- intervenes, and how many calls it makes.
use cron_lib.Base.{ℕ, ◌+◌, ◌<◌, ◌≡◌, refl, String, Bool, true, false, Option, some, arith}
use cron_lib.Schema.{Reply, row}
use cron_lib.Jobs.{Jobs, AcquireParams, acquire_job_lock_in_db}
use cron_lib.Manager.State.{Job, answered}
use cron_lib.Execution.World.{AdvisoryApi, Db, Env, State, ok, call}
use cron_lib.Execution.{
  update_audit_log_status, create_audit_log, lock_id, try_advisory_lock, release_advisory_lock,
  acquire_params, acquire_job_lock, start_heartbeat, stop_heartbeat,
}

abbrev pub jobs_of : {L : Type 0} → State L → Jobs
jobs_of s = s.db.jobs

module _ {L : Type 0} (api : AdvisoryApi L) (env : Env L) (instance_id : String) (job : Job) where
  pub start-frame :
      (long : Bool) (id : ℕ) (s : State L)
      → let s' = (start_heartbeat api env instance_id job long id s).1 in
        (jobs_of s' ≡ jobs_of s) × (s'.calls ≡ s.calls)
  unfolding start_heartbeat
  start-frame true id s = (refl, refl)
  start-frame false id s = (refl, refl)

  pub stop-jobs :
      (long : Bool) (id : ℕ) (s : State L)
      → jobs_of (stop_heartbeat api env instance_id job long id s).1 ≡ jobs_of s
  unfolding stop_heartbeat
  stop-jobs true id s = refl
  stop-jobs false id s = refl

module _ {L : Type 0} (api : AdvisoryApi L) (env : Env L) (instance_id : String) (job : Job)
    (quiet : (n : ℕ) (db : Db L) → env.interfere n db ≡ db)
    (reached : (n : ℕ) → env.fault n ≡ answered) where
  pub report-jobs :
      (id : ℕ) (status : String) (output error : Option String) (s : State L)
      → jobs_of (update_audit_log_status api env instance_id job id status output error s).1
        ≡ jobs_of s
  unfolding update_audit_log_status call
  report-jobs id status output error s = ground (arith, quiet s.calls s.db, reached s.calls)

  pub create-jobs :
      (now : ℕ) (s : State L)
      → let s' = (create_audit_log api env instance_id job now s).1 in
        (jobs_of s' ≡ jobs_of s) × (s'.db.locks ≡ s.db.locks) × (s'.calls ≡ s.calls + 1)
  unfolding create_audit_log call
  create-jobs now s = ground (arith, quiet s.calls s.db, reached s.calls)

  pub try-granted :
      (d : ℕ) (s : State L)
      → env.local_clock s.calls < d
      → (api.try_lock (env.session s.calls) (lock_id api env instance_id job) s.db.locks).0 ≡ true
      → let (r, s') = try_advisory_lock api env instance_id job (some d) s in
        (r ≡ ok true) × (jobs_of s' ≡ jobs_of s) × (s'.calls ≡ s.calls + 1)
  unfolding try_advisory_lock call
  try-granted d s early free = ground (arith, quiet s.calls s.db, reached s.calls)

  -- The upsert that the execution sends as its call number `n`.
  abbrev pub acquisition : ℕ → ℕ → AcquireParams
  acquisition now n =
      acquire_params api env instance_id job now (job.next_run_time (env.local_clock n))

  pub acquire-granted :
      (d now id : ℕ) (s : State L)
      → env.local_clock s.calls < d
      → (acquire_job_lock_in_db
          (env.server_clock s.calls)
          (env.new_id s.calls)
          (acquisition now s.calls)
          (jobs_of s)).0
        ≡ row id
      → let (r, s') = acquire_job_lock api env instance_id job (some d) now s in
        (r ≡ ok id)
        × (jobs_of s'
            ≡ (acquire_job_lock_in_db
                (env.server_clock s.calls)
                (env.new_id s.calls)
                (acquisition now s.calls)
                (jobs_of s)).1)
        × (s'.calls ≡ s.calls + 1)
  unfolding acquire_job_lock call
  acquire-granted d now id s early free = ground (arith, quiet s.calls s.db, reached s.calls)

  pub report-calls :
      (id : ℕ) (status : String) (output error : Option String) (s : State L)
      → (update_audit_log_status api env instance_id job id status output error s).1.calls
        ≡ s.calls + 1
  unfolding update_audit_log_status call
  report-calls id status output error s = refl

  pub release-jobs :
      (s : State L) → jobs_of (release_advisory_lock api env instance_id job s).1 ≡ jobs_of s
  unfolding release_advisory_lock call
  release-jobs s = ground (arith, quiet s.calls s.db, reached s.calls)

  -- The upsert as call number `n`, on a table.
  abbrev pub sent : ℕ → ℕ → Jobs → Reply ℕ × Jobs
  sent now n jobs =
      acquire_job_lock_in_db (env.server_clock n) (env.new_id n) (acquisition now n) jobs
