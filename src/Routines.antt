-- ===== src/Routines.antt =====
-- The goroutines of pkg/job-manager.go: the clean-up routine that startCleanupRoutine starts, and the
-- heartbeat of a long-running job, startHeartbeat with updateJobHeartbeat.
pub mod Beats
pub mod Passes
pub mod Process
pub mod Stop
pub mod Silence
use cron_lib.Base.{ℕ, String, Bool, true, false, List, [], ◌∷◌}
use cron_lib.Jobs.{Jobs}
use cron_lib.Jobs.Statements.{Timed, run}
use cron_lib.Manager.State.{Job, Call, Fault, executed}
use cron_lib.Manager.Sweep.{cleanup_stale_jobs}

-- Which case of the `select` is taken: the ticker's, with what happens then; the one of the channel
-- that is closed to stop the routine; or the one of the manager's context.
pub data Signal (A : Type 0) : Type 0 where
  tick : A → Signal A
  stopped : Signal A
  context_done : Signal A

-- `for { select { ... } }` over the signals that come: whether it has returned, and the state.
unfoldable pub loop : {A S : Type 0} → (A → S → S) → List (Signal A) → S → Bool × S
loop body [] s = (false, s)
loop body (tick a ∷ signals) s = loop body signals (body a s)
loop body (stopped ∷ signals) s = (true, s)
loop body (context_done ∷ signals) s = (true, s)

-- A heartbeat, after the statements of others since the one before: how its call ends, and the
-- server's time.
pub record Beat : Type 0 where
  pub others : List Timed
  pub fault : Fault
  pub now : ℕ

-- updateJobHeartbeat; an error is logged.
unfoldable pub update_job_heartbeat : ℕ → String → Beat → Jobs → Jobs
update_job_heartbeat job_id instance_id beat rows =
    let current = run beat.others rows in
    executed beat.fault current
      (cron_lib.Jobs.update_job_heartbeat beat.now job_id instance_id current)

-- startHeartbeat
unfoldable pub start_heartbeat : ℕ → String → List (Signal Beat) → Jobs → Bool × Jobs
start_heartbeat job_id instance_id signals rows =
    loop (update_job_heartbeat job_id instance_id) signals rows

-- A pass of the clean-up, after what others did since the one before: the time of its tick, its calls,
-- and the order in which it ranges over the tenants.
pub record Pass : Type 0 where
  pub at : ℕ
  pub others : Jobs → Jobs
  pub calls : ℕ → Call
  pub order : List String → List String

unfoldable pub clean : List Job → Pass → Jobs → Jobs
clean jobs pass rows = (cleanup_stale_jobs pass.calls pass.order jobs (pass.others rows)).1

-- The goroutine of startCleanupRoutine: a pass at once, and one for every tick.
unfoldable pub cleanup_routine : List Job → Pass → List (Signal Pass) → Jobs → Bool × Jobs
cleanup_routine jobs first signals rows = loop (clean jobs) signals (clean jobs first rows)
