-- ===== src/Routines/Silence.antt =====
-- The clean-up routine after a StopScheduler.
use cron_lib.Base.{◌≡◌, ◌≢◌, refl, String, true, some, [], ◌∷◌, ◌++◌, arith}
use cron_lib.Jobs.{Jobs}
use cron_lib.Registry.{Registered}
use cron_lib.Manager.Keys.{job_key}
use cron_lib.Manager.State.{CronApi, stopped, JobManager, World}
use cron_lib.Manager.Methods.{register_job, unregister_job, start_scheduler}
use cron_lib.Manager.Lifecycle.{
  Op, register, unregister, start, stop, step, IsBare, step-IsBare, step-running,
  schedule_job-frame, unschedule-frame, stop-panics,
}
use cron_lib.Routines.Process.{
  Routine, sweeping, Process, spawned, call, ◌⟶◌, called, swept, ticked, told, cancelled, done,
  others, ◌⟶*◌, here, then, new_process,
}
use cron_lib.Routines.Stop.{steps-IsSound, new-IsSound}

module _ {C : Type 0} (api : CronApi C) where
  record IsSilent (p : Process C) : Type 0 where
    bare : IsBare api p.world.jm
    runs : p.world.jm.is_running ≡ true
    no_ticks : p.world.jm.cleanup_ticker ≡ some stopped
    waits : p.routine ≢ sweeping

  step-stopped :
      (op : Op) (w : World C)
      → IsBare api w.jm
      → w.jm.is_running ≡ true
      → w.jm.cleanup_ticker ≡ some stopped
      → (step api op w).jm.cleanup_ticker ≡ some stopped
  unfolding step register_job unregister_job start_scheduler
  step-stopped (register job c) w b r e =
      ground (arith, schedule_job-frame api job (record (w.jm) { jobs = w.jm.jobs ++ job ∷ [] }))
  step-stopped (unregister job_name tenant_id c) w b r e =
      ground (arith, unschedule-frame api (job_key job_name tenant_id) w.jm)
  step-stopped start w b r e = ground arith
  step-stopped stop w b r e = ground (arith, stop-panics api w.jm b r)

  spawned_same :
      (op : Op) (jm : JobManager C) (routine : Routine)
      → jm.is_running ≡ true
      → spawned api op jm routine ≡ routine
  spawned_same start jm routine r = ground arith
  spawned_same (register job c) jm routine r = refl
  spawned_same (unregister job_name tenant_id c) jm routine r = refl
  spawned_same stop jm routine r = refl

  step-IsSilent : (p q : Process C) → ◌⟶◌ api p q → IsSilent p → IsSilent q
  unfolding call
  step-IsSilent p q (called op) h = record {
    bare = step-IsBare api op p.world h.bare;
    runs = step-running api op p.world h.bare h.runs;
    no_ticks = step-stopped op p.world h.bare h.runs h.no_ticks;
    waits = λ e. h.waits (ground (arith, spawned_same op p.world.jm p.routine h.runs));
  }
  step-IsSilent p q (swept calls order e) h = absurd (h.waits e)
  step-IsSilent p q (ticked c e t) h = absurd (ground (arith, h.no_ticks))
  step-IsSilent p q (told c e k) h = record {
    bare = h.bare;
    runs = h.runs;
    no_ticks = h.no_ticks;
    waits = λ e. ground arith;
  }
  step-IsSilent p q (cancelled c e k) h = record {
    bare = h.bare;
    runs = h.runs;
    no_ticks = h.no_ticks;
    waits = λ e. ground arith;
  }
  step-IsSilent p q done h = record {
    bare = h.bare;
    runs = h.runs;
    no_ticks = h.no_ticks;
    waits = h.waits;
  }
  step-IsSilent p q (others rows) h = record {
    bare = h.bare;
    runs = h.runs;
    no_ticks = h.no_ticks;
    waits = h.waits;
  }

  steps-IsSilent : (p q : Process C) → ◌⟶*◌ api p q → IsSilent p → IsSilent q
  steps-IsSilent p q here h = h
  steps-IsSilent p q (then {q = m} s t) h = steps-IsSilent m q t (step-IsSilent p m s h)

  stop-IsSilent :
      (p : Process C)
      → IsBare api p.world.jm
      → p.world.jm.is_running ≡ true
      → p.routine ≢ sweeping
      → IsSilent (call api stop p)
  unfolding call step
  stop-IsSilent p b r w = record {
    bare = step-IsBare api stop p.world b;
    runs = step-running api stop p.world b r;
    no_ticks = ground (arith, stop-panics api p.world.jm b r);
    waits = w;
  }

  -- Once StopScheduler was called on the running scheduler of a process that began with a new manager,
  -- at a time when no pass was under way, there is never a pass of the clean-up again, although the
  -- scheduler runs on; starting it again does not help.
  pub stop_silences :
      (instance_id : String) (registered : Registered) (rows : Jobs) (p q : Process C)
      → ◌⟶*◌ api (new_process api instance_id registered rows) p
      → p.world.jm.is_running ≡ true
      → p.routine ≢ sweeping
      → ◌⟶*◌ api (call api stop p) q
      → (q.routine ≢ sweeping) × (q.world.jm.is_running ≡ true)
  stop_silences instance_id registered rows p q before r w after =
      let sound = steps-IsSound api _ p before (new-IsSound api instance_id registered rows) in
      let silent = steps-IsSilent _ q after (stop-IsSilent p sound.bare r w) in
      (silent.waits, silent.runs)
