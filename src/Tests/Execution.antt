-- ===== src/Tests/Execution.antt =====
-- `executeJobWithLock` of job-manager.go, run against small tables.
use cron_lib.Base.{
  ℕ, ◌+◌, ◌-◌, ◌≡◌, ◌≢◌, refl, ◌==◌, ◌&&◌, not, ltb, Bool, true, false, some, List, [], ◌∷◌,
  if◌then◌else◌, arith,
}
use cron_lib.Schema.{no_rows}
use cron_lib.Jobs.{AcquireParams, acquire_job_lock_in_db}
use cron_lib.Manager.State.{Job, answered, lost, refused}
use cron_lib.Execution.World.{AdvisoryApi, Db, succeeded, panicked, Env, State, call}
use cron_lib.Execution.{
  execute_job_with_lock, acquire_params, create_audit_log, try_advisory_lock, after_try, with_lock,
  acquire_job_lock, after_lease, run_job, conclude, start_heartbeat, stop_heartbeat,
  release_advisory_lock, update_audit_log_status, update_status_to_failed, clean_up,
}
use cron_lib.Execution.Locks.{HoldLaws, execution_returns_advisory_lock}
use cron_lib.Execution.Grants.{IsAdmitted, IsLeased, run_job_needs_both_locks}
use cron_lib.Manager.Keys.{job_lock_to_lock_id}
use cron_lib.Jobs.Lease.{granted}
use cron_lib.Execution.Calls.{sent}
use cron_lib.Execution.Runs.{has_run}
use cron_lib.Execution.Others.{IsRely}
use cron_lib.Execution.Rely.{run_job_frees_lock}
use cron_lib.Audit.{get_job_audit_log_by_id}
use cron_lib.Execution.Entries.{IsClosed}
use cron_lib.Execution.Audited.{execution_is_audited}
use cron_lib.Execution.Exclusion.{leased_job_is_skipped}
use cron_lib.Jobs.{update_job_heartbeat}
use cron_lib.Jobs.Held.{Held, heartbeat-Held}
use cron_lib.Schema.{CronJob}
use cron_lib.Execution.Deadline.{IsSlow, slow_job_keeps_lease}

-- Advisory locks as a list of (session, key); one lock is held by one session, as often as it took it.
abbrev Locks : Type 0
Locks = List (ℕ × ℕ)

abbrev taken : ℕ → ℕ → Locks → Bool
taken session key [] = false
taken session key ((s, k) ∷ locks) =
    if k == key && not (s == session) then true else taken session key locks

abbrev give_back : ℕ → ℕ → Locks → Bool × Locks
give_back session key [] = (false, [])
give_back session key ((s, k) ∷ locks) =
    let (found, rest) = give_back session key locks in
    if k == key && s == session then (true, locks) else (found, (s, k) ∷ rest)

abbrev locks_api : AdvisoryApi Locks
locks_api = record {
  try_lock = λ session key locks.
      if taken session key locks then (false, locks) else (true, (session, key) ∷ locks);
  unlock = give_back;
}

abbrev mail : Job
mail = record {
  name = "mail";
  lock = "mail";
  tenant_id = "t";
  schedule = "@hourly";
  is_long_running = true;
  next_run_time = λ now. now + 3600000000;
}

-- Everything is answered on one session; the job takes a hundred seconds.
abbrev slow_env : Env Locks
slow_env = record {
  fault = λ n. answered;
  error = λ n. "";
  server_clock = λ n. n;
  local_clock = λ n. if ltb n 3 then n else 100000000;
  new_id = λ n. n + 7;
  session = λ n. 1;
  interfere = λ n db. db;
  outcome = succeeded;
  request_id = "r";
  minute_of = λ now. 30;
  no_rows_text = "no rows in result set";
  unique_text = "duplicate key";
  too_long_text = "value too long";
  deadline_text = "context deadline exceeded";
}

abbrev empty : State Locks
empty = record {
  db = record { jobs = []; audit_logs = []; registered = []; locks = [] };
  calls = 0;
  trace = [];
}

quiet : (n : ℕ) (db : Db Locks) → slow_env.interfere n db ≡ db
quiet n db = refl

reached : (n : ℕ) → slow_env.fault n ≡ answered
reached n = refl

empty-IsSlow : IsSlow locks_api slow_env "i" mail quiet reached 9 empty
unfolding acquire_job_lock_in_db
empty-IsSlow = record {
  first = refl;
  free = refl;
  quick = omega arith;
  leased = refl;
  slow = λ m le. ground arith;
  calm = λ text e. ground arith;
}

abbrev rival : AcquireParams
rival = acquire_params locks_api slow_env "j" mail 500000000 4100000000

slow_job_keeps_lease_example :
    let rows = (execute_job_with_lock locks_api slow_env "i" mail empty).1.db.jobs in
    (rows ≡ (sent locks_api slow_env "i" mail quiet reached 0 2 []).1)
    × (acquire_job_lock_in_db 3 30 rival rows ≡ (no_rows, rows))
unfolding acquire_params
slow_job_keeps_lease_example =
    slow_job_keeps_lease locks_api slow_env "i" mail quiet reached 9 empty empty-IsSlow 3 30 rival
      refl refl (omega arith)

-- The job panics at once; the answer to the report of it is lost, and the audit log is cleared at every
-- call.
abbrev prompt_env : Env Locks
prompt_env = record slow_env {
  fault = λ n. if n == 3 then lost else answered;
  local_clock = λ n. 5;
  outcome = panicked "no connection";
  interfere = λ n db. record db { audit_logs = [] };
}

prompt-IsRely : IsRely prompt_env mail
prompt-IsRely = record { free = λ n db f. f; taken = λ id n db k. k; distinct = λ n db d. d }

fault-delivered : (b : Bool) → (if b then lost else answered) ≢ refused
fault-delivered true e = absurd (ground (arith, e))
fault-delivered false e = absurd (ground (arith, e))

delivered : (n : ℕ) → prompt_env.fault n ≢ refused
delivered n = fault-delivered (n == 3)

ran_once : has_run (execute_job_with_lock locks_api prompt_env "i" mail empty).1.trace ≡ true
ran_once =
    unfold execute_job_with_lock create_audit_log try_advisory_lock after_try with_lock
      acquire_job_lock after_lease run_job conclude start_heartbeat stop_heartbeat
      release_advisory_lock update_audit_log_status update_status_to_failed acquire_params
      acquire_job_lock_in_db clean_up call in
    refl

run_job_frees_lock_example :
    granted
      (acquire_job_lock_in_db 3 30 rival
        (execute_job_with_lock locks_api prompt_env "i" mail empty).1.db.jobs).0
    ≡ true
unfolding acquire_params
run_job_frees_lock_example =
    run_job_frees_lock locks_api prompt_env "i" mail prompt-IsRely delivered empty refl tt
      (λ m. omega arith) ran_once 3 30 rival refl refl

-- The row of the lock is held by "j", which renews it at every call.
abbrev held_row : CronJob
held_row = record {
  id = 9;
  lock = "mail";
  job_name = "mail";
  status = "running";
  last_execution_time = some 0;
  next_execution_time = some 3600000000;
  locked_by = some "j";
  locked_at = some 0;
  tenant_id = "t";
  created_at = 0;
  updated_at = 0;
}

abbrev kept_state : State Locks
kept_state = record empty { db = record empty.db { jobs = held_row ∷ [] } }

abbrev renewed : ℕ → Db Locks → Db Locks
renewed n db = record db { jobs = update_job_heartbeat n 9 "j" db.jobs }

abbrev renewed_env : Env Locks
renewed_env = record slow_env { interfere = renewed }

renewed-IsHeld :
    (n : ℕ) (db : Db Locks)
    → Held "t" "mail" 9 0 "j" db.jobs
    → Held "t" "mail" 9 0 "j" (renewed n db).jobs
renewed-IsHeld n db h = heartbeat-Held "t" "mail" 9 0 "j" n 9 "j" db.jobs (omega arith) h

kept_state-Held : Held "t" "mail" 9 0 "j" kept_state.db.jobs
kept_state-Held = (
  held_row,
  refl,
  record {
    at = 0;
    same = refl;
    running = refl;
    by_owner = refl;
    locked = refl;
    recent = omega arith;
  },
)

leased_job_is_skipped_example :
    let s' = (execute_job_with_lock locks_api renewed_env "i" mail kept_state).1 in
    (has_run s'.trace ≡ false) × Held "t" "mail" 9 0 "j" s'.db.jobs
leased_job_is_skipped_example =
    leased_job_is_skipped locks_api renewed_env "i" mail 9 0 "j" renewed-IsHeld kept_state refl
      (omega arith) kept_state-Held

-- The job panics, and no other client intervenes.
abbrev panic_env : Env Locks
panic_env = record prompt_env { interfere = λ n db. db }

execution_is_audited_example :
    IsClosed locks_api panic_env "i" mail 7 5
      (execute_job_with_lock locks_api panic_env "i" mail empty).1
execution_is_audited_example =
    execution_is_audited locks_api panic_env "i" mail empty (λ n db r found. found) delivered refl
      (unfold get_job_audit_log_by_id in refl) refl

abbrev holds : ℕ → ℕ → Locks → ℕ
holds session key [] = 0
holds session key ((s, k) ∷ locks) =
    let rest = holds session key locks in if k == key && s == session then rest + 1 else rest

holds-give_back :
    (session key : ℕ) (locks : Locks)
    → holds session key (give_back session key locks).1 ≡ holds session key locks - 1
holds-give_back session key [] = refl
holds-give_back session key ((s, k) ∷ locks) = ground (arith, holds-give_back session key locks)

locks_api-HoldLaws : HoldLaws locks_api holds
locks_api-HoldLaws = record {
  granted = λ session key locks e. ground arith;
  not_granted = λ session key locks e. ground arith;
  unlocked = holds-give_back;
}

-- Before every call another session takes a lock, and the job panics.
abbrev crowded : ℕ → Db Locks → Db Locks
crowded n db = record db { locks = (2, n) ∷ db.locks }

abbrev crowded_env : Env Locks
crowded_env = record slow_env {
  fault = λ n. if n == 3 then lost else answered;
  outcome = panicked "no connection";
  interfere = crowded;
}

crowded-holds :
    (key n : ℕ) (db : Db Locks) → holds 1 key (crowded n db).locks ≡ holds 1 key db.locks
crowded-holds key n db = ground arith

execution_returns_advisory_lock_example :
    holds 1
      (job_lock_to_lock_id "mail" "t")
      (execute_job_with_lock locks_api crowded_env "i" mail empty).1.db.locks
    ≡ 0
execution_returns_advisory_lock_example =
    execution_returns_advisory_lock locks_api crowded_env "i" mail holds locks_api-HoldLaws 1
      (λ n. refl) (crowded-holds (job_lock_to_lock_id "mail" "t")) delivered empty refl

run_job_needs_both_locks_example :
    let opened = (create_audit_log locks_api prompt_env "i" mail 5 empty).1 in
    IsAdmitted locks_api prompt_env "i" mail opened
    × IsLeased locks_api prompt_env "i" mail 5
        (try_advisory_lock locks_api prompt_env "i" mail (some 60000005) opened).1
run_job_needs_both_locks_example =
    run_job_needs_both_locks locks_api prompt_env "i" mail empty refl ran_once
