-- ===== src/Tests/Routines.antt =====
-- The goroutines of job-manager.go at small tables and with a scheduler that keeps nothing.
use cron_lib.Base.{
  ℕ, ◌+◌, ◌≡◌, ◌≢◌, ◌≤◌, refl, String, true, false, none, some, List, [], ◌∷◌, ◌++◌, map, arith,
  All,
}
use cron_lib.Schema.{CronJob}
use cron_lib.Jobs.{no_rows, AcquireParams, acquire_job_lock_in_db}
use cron_lib.Jobs.Statements.{Stmt, run}
use cron_lib.Manager.State.{Job, Call, CronApi, answered, lost, refused}
use cron_lib.Manager.Sweep.{cleanup_stale_jobs}
use cron_lib.Manager.Methods.{
  new_job_manager, register_job, start_scheduler, start_cleanup_routine, schedule_all, schedule_job,
}
use cron_lib.Manager.Lifecycle.{register, start, stop, step, init}
use cron_lib.Routines.{tick, Beat, start_heartbeat, Pass, cleanup_routine}
use cron_lib.Routines.Beats.{start_heartbeat_renews}
use cron_lib.Routines.Passes.{is_dead, IsExecuted, cleanup_routine-frees}
use cron_lib.Routines.Process.{
  sweeping, returned, absent, selecting, Process, call, called, swept, ◌⟶*◌, here, then,
  new_process,
}
use cron_lib.Routines.Stop.{on_nil, routine_ends_with_context}
use cron_lib.Routines.Silence.{stop_silences}

abbrev request : String → ℕ → AcquireParams
request instance_id now = record {
  tenant_id = "t";
  lock = "feed";
  job_name = "feed";
  now = now;
  next_run_time = now + 3600000000;
  instance_id = instance_id;
}

-- Two heartbeats that are executed, one whose answer is lost, and one that does not reach the database.
abbrev beats : List Beat
beats =
    record {
      others =
          (
            9,
            Stmt.create 8 (record {
              lock = "mail";
              job_name = "mail";
              last_execution_time = none;
              next_execution_time = none;
              locked_by = none;
              locked_at = none;
              tenant_id = "t";
            }),
          )
          ∷ [];
      fault = answered;
      now = 120000005;
    }
    ∷ record { others = []; fault = lost; now = 240000005 }
    ∷ record { others = []; fault = refused; now = 360000005 }
    ∷ []

start_heartbeat_renews_example :
    let leased = (acquire_job_lock_in_db 6 7 (request "a" 5) []).1 in
    let table =
      run
        ((800000000, Stmt.clean_stale "t") ∷ [])
        (start_heartbeat 7 "a" (map tick beats) leased).1 in
    acquire_job_lock_in_db 20 12 (request "b" 840000005) table ≡ (no_rows, table)
unfolding acquire_job_lock_in_db
start_heartbeat_renews_example =
    start_heartbeat_renews 6 7 (request "a" 5) [] 7 refl beats ((tt, tt), (tt, (tt, tt)))
      ((800000000, Stmt.clean_stale "t") ∷ []) (omega arith, tt) 20 12 (request "b" 840000005) refl
      refl (omega arith)

abbrev pass_at : ℕ → Pass
pass_at at = record {
  at = at;
  others = λ rows. rows;
  calls = λ n. record { fault = answered; now = at + n; new_id = 0 };
  order = λ ts. ts;
}

pass-IsExecuted : (at : ℕ) → IsExecuted (pass_at at)
pass-IsExecuted at = record {
  sent = λ n e. ground arith;
  clock = λ n. omega arith;
  all_tenants = λ t ts. refl;
}

abbrev feed : Job
feed = record {
  name = "feed";
  lock = "feed";
  tenant_id = "t";
  schedule = "@hourly";
  is_long_running = false;
  next_run_time = λ now. now + 3600000000;
}

-- Locked at time 5 by an instance that has died.
abbrev dead_row : CronJob
dead_row = record {
  id = 7;
  lock = "feed";
  job_name = "feed";
  status = "running";
  last_execution_time = some 5;
  next_execution_time = none;
  locked_by = some "a";
  locked_at = some 5;
  tenant_id = "t";
  created_at = 6;
  updated_at = 6;
}

abbrev passes : List Pass
passes = pass_at 600000000 ∷ pass_at 900000000 ∷ pass_at 1200000000 ∷ []

cleanup_routine-frees_example :
    (early : List Pass) × (pass : Pass) × (late : List Pass) × (passes ≡ early ++ pass ∷ late)
    × (pass.at ≤ 1200000005)
    × All
        (λ r. is_dead 5 "t" r ≡ false)
        (cleanup_routine
          (feed ∷ [])
          (pass_at 300000000)
          (map tick (early ++ pass ∷ []))
          (dead_row ∷ [])).1
cleanup_routine-frees_example =
    cleanup_routine-frees [] feed [] 5 (pass_at 300000000) passes (dead_row ∷ []) (omega arith)
      (omega arith, (omega arith, (omega arith, tt)))
      (pass-IsExecuted 600000000, (pass-IsExecuted 900000000, (pass-IsExecuted 1200000000, tt)))
      refl

-- A scheduler that counts the entries ever made and keeps nothing of them.
abbrev counter : CronApi ℕ
counter = record {
  new = 0;
  add_func = λ schedule job n. some (n, n + 1);
  remove = λ id n. n;
  start = λ n. n;
  stop = λ n. n;
  entry = λ id n. none;
}

abbrev fresh : Process ℕ
fresh = new_process counter "i" [] (dead_row ∷ [])

abbrev calls : ℕ → Call
calls n = record { fault = answered; now = n + 900000006; new_id = 0 }

-- Registered, started, and after the first pass.
abbrev waiting : Process ℕ
waiting =
    let p = call counter start (call counter (register feed (calls 0)) fresh) in
    record p {
      routine = selecting p.world.jm.stop_cleanup;
      rows = (cleanup_stale_jobs calls (λ ts. ts) p.world.jm.jobs p.rows).1;
    }

waiting_reached : ◌⟶*◌ counter fresh waiting
unfolding call step init new_job_manager register_job start_scheduler start_cleanup_routine
    schedule_all schedule_job
waiting_reached =
    then (called (register feed (calls 0)))
      (then (called start) (then (swept calls (λ ts. ts) refl) here))

routine_ends_with_context_example :
    (on_nil waiting.routine ≡ true)
    × (waiting.routine ≡ returned → waiting.is_done ≡ true)
    × (waiting.world.jm.is_running ≡ false → waiting.routine ≡ absent)
routine_ends_with_context_example =
    routine_ends_with_context counter "i" [] (dead_row ∷ []) waiting waiting_reached

-- Stopped, and started again.
abbrev again : Process ℕ
again = call counter start (call counter stop waiting)

stop_silences_example : (again.routine ≢ sweeping) × (again.world.jm.is_running ≡ true)
unfolding call step init new_job_manager register_job start_scheduler start_cleanup_routine
    schedule_all schedule_job
stop_silences_example =
    stop_silences counter "i" [] (dead_row ∷ []) waiting again waiting_reached refl
      (λ e. ground arith) (then (called start) here)
