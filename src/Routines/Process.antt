-- ===== src/Routines/Process.antt =====
-- The clean-up routine and the manager that starts and stops it, step by step: the goroutine, the calls
-- of the manager's methods, the context, and the other clients of the database.
use cron_lib.Base.{
  ℕ, ◌≡◌, String, Bool, true, false, ◌||◌, ◌==◌, Option, none, some, List, [], ◌∷◌, if◌then◌else◌,
}
use cron_lib.Jobs.{Jobs}
use cron_lib.Registry.{Registered}
use cron_lib.Manager.State.{CronApi, ticking, JobManager, World, Call}
use cron_lib.Manager.Sweep.{cleanup_stale_jobs}
use cron_lib.Manager.Lifecycle.{Op, register, unregister, start, stop, step, init}

-- Where the goroutine is: not started; in cleanupStaleJobs; in the `select`, with the channel that
-- `jm.stopCleanup` was when it came there; or returned.
pub data Routine : Type 0 where
  absent sweeping returned : Routine
  selecting : Option ℕ → Routine

-- The manager with its table of registrations, the routine, the channels that are closed, whether the
-- manager's context is done, and the table of jobs.
pub record Process (C : Type 0) : Type 0 where
  pub world : World C
  pub routine : Routine
  pub closed : List ℕ
  pub is_done : Bool
  pub rows : Jobs

abbrev pub is_closed : ℕ → List ℕ → Bool
is_closed c [] = false
is_closed c (d ∷ ds) = c == d || is_closed c ds

module _ {C : Type 0} (api : CronApi C) where
  -- The `go` statement of startCleanupRoutine, which StartScheduler comes to if it is not running.
  abbrev pub spawned : Op → JobManager C → Routine → Routine
  spawned start jm routine = if jm.is_running then routine else sweeping
  spawned (register job call) jm routine = routine
  spawned (unregister job_name tenant_id call) jm routine = routine
  spawned stop jm routine = routine

  abbrev pub closes : Option ℕ → List ℕ → List ℕ
  closes none closed = closed
  closes (some c) closed = c ∷ closed

  -- The `close` of stopCleanupRoutine.
  abbrev pub closed_by : Op → JobManager C → List ℕ → List ℕ
  closed_by stop jm closed =
      if jm.is_running
      then elim jm.cleanup_ticker [ none ↦ closed | some _ ↦ closes jm.stop_cleanup closed ]
      else closed
  closed_by start jm closed = closed
  closed_by (register job call) jm closed = closed
  closed_by (unregister job_name tenant_id call) jm closed = closed

  unfoldable pub call : Op → Process C → Process C
  call op p = record p {
    world = step api op p.world;
    routine = spawned op p.world.jm p.routine;
    closed = closed_by op p.world.jm p.closed;
  }

  infix 40 ◌⟶◌ ◌⟶*◌
  pub data ◌⟶◌ : Process C → Process C → Type 0 where
    called : {p : Process C} → (op : Op) → p ⟶ call op p
    swept :
        {p : Process C}
        → (calls : ℕ → Call) (order : List String → List String) → p.routine ≡ sweeping
        → p ⟶ record p {
          routine = selecting p.world.jm.stop_cleanup;
          rows = (cleanup_stale_jobs calls order p.world.jm.jobs p.rows).1;
        }
    ticked :
        {p : Process C}
        → (c : Option ℕ) → p.routine ≡ selecting c
        → p.world.jm.cleanup_ticker ≡ some ticking
        → p ⟶ record p { routine = sweeping }
    told :
        {p : Process C}
        → (c : ℕ) → p.routine ≡ selecting (some c)
        → is_closed c p.closed ≡ true
        → p ⟶ record p { routine = returned }
    cancelled :
        {p : Process C}
        → (c : Option ℕ) → p.routine ≡ selecting c
        → p.is_done ≡ true
        → p ⟶ record p { routine = returned }
    done : {p : Process C} → p ⟶ record p { is_done = true }
    others : {p : Process C} → (rows : Jobs) → p ⟶ record p { rows = rows }

  pub data ◌⟶*◌ : Process C → Process C → Type 0 where
    here : {p : Process C} → p ⟶* p
    then : {p q r : Process C} → p ⟶ q → q ⟶* r → p ⟶* r

  -- The process with a manager that newJobManager made.
  abbrev pub new_process : String → Registered → Jobs → Process C
  new_process instance_id registered rows = record {
    world = init api instance_id registered;
    routine = absent;
    closed = [];
    is_done = false;
    rows = rows;
  }
