-- ===== src/Tests/Sweep.antt =====
-- `cleanupStaleJobs` of job-manager.go at a small table.
use cron_lib.Base.{ℕ, ◌+◌, ◌≡◌, refl, ◌==◌, String, false, none, some, List, [], ◌∷◌, if◌then◌else◌}
use cron_lib.Schema.{CronJob}
use cron_lib.Jobs.{Jobs, cleanup_stale_locks}
use cron_lib.Manager.State.{Job, Call, answered, refused}
use cron_lib.Manager.Sweep.{sweep, cleanup_stale_jobs}

abbrev feed : Job
feed = record {
  name = "feed";
  lock = "feed";
  tenant_id = "t";
  schedule = "@hourly";
  is_long_running = false;
  next_run_time = λ now. now + 3600000000;
}

abbrev registered_jobs : List Job
registered_jobs = feed ∷ record feed { name = "feed of u"; tenant_id = "u" } ∷ []

-- Locked at time 5 by an instance that has died.
abbrev dead_row : CronJob
dead_row = record {
  id = 7;
  lock = "feed";
  job_name = "feed";
  status = "running";
  last_execution_time = some 5;
  next_execution_time = none;
  locked_by = some "a";
  locked_at = some 5;
  tenant_id = "t";
  created_at = 6;
  updated_at = 6;
}

abbrev rows : Jobs
rows = dead_row ∷ record dead_row { id = 8; tenant_id = "v" } ∷ []

-- The second call fails.
abbrev calls : ℕ → Call
calls n = record { fault = if n == 1 then refused else answered; now = n + 900000006; new_id = 0 }

abbrev all_answered : ℕ → Call
all_answered n = record { fault = answered; now = n + 900000006; new_id = 0 }

abbrev as_is : List String → List String
as_is ts = ts

one_cleaned : (cleanup_stale_jobs calls as_is registered_jobs rows).0 ≡ 1
unfolding cleanup_stale_jobs sweep cleanup_stale_locks
one_cleaned = refl

-- A second pass finds nothing.
none_left :
    (cleanup_stale_jobs all_answered as_is registered_jobs
      (cleanup_stale_jobs all_answered as_is registered_jobs rows).1).0
    ≡ 0
unfolding cleanup_stale_jobs sweep cleanup_stale_locks
none_left = refl
