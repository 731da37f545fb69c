-- ===== src/Manager/Frames.antt =====
-- What one call of a method of `JobManager` does to each part of its state.
use cron_lib.Base.{◌≡◌, String, true, false, [], ◌∷◌, ◌++◌, arith}
use cron_lib.Manager.Keys.{job_key}
use cron_lib.Manager.State.{Job, CronApi, JobManager, World, Call}
use cron_lib.Manager.Methods.{
  key_of, already_registered, remove_job, schedule_job, register_job, unschedule, unregister_job,
  schedule_all, start_scheduler, start_cleanup_routine, stop_scheduler, stop_cleanup_routine,
}
use cron_lib.Manager.Lifecycle.{schedule_all-frame, unschedule-frame}

module _ {C : Type 0} (api : CronApi C) where
  abbrev pub added : Job → JobManager C → JobManager C
  added job jm = record jm { jobs = jm.jobs ++ job ∷ [] }

  pub register-running :
      (job : Job) (call : Call) (w : World C)
      → already_registered (key_of job) w.jm.jobs ≡ false
      → w.jm.is_running ≡ true
      → (register_job api job call w).jm ≡ schedule_job api job (added job w.jm)
  unfolding register_job
  register-running job call w new runs = ground arith

  pub register-idle :
      (job : Job) (call : Call) (w : World C)
      → already_registered (key_of job) w.jm.jobs ≡ false
      → w.jm.is_running ≡ false
      → (register_job api job call w).jm ≡ added job w.jm
  unfolding register_job
  register-idle job call w new idle = ground arith

  pub register-old :
      (job : Job) (call : Call) (w : World C)
      → already_registered (key_of job) w.jm.jobs ≡ true
      → (register_job api job call w).jm ≡ w.jm
  unfolding register_job
  register-old job call w old = ground arith

  pub unregister-jobs :
      (name t : String) (call : Call) (w : World C)
      → (unregister_job api name t call w).jm.jobs ≡ remove_job name t w.jm.jobs
  unfolding unregister_job
  unregister-jobs name t call w = ground (arith, unschedule-frame api (job_key name t) w.jm)

  pub unregister-running :
      (name t : String) (call : Call) (w : World C)
      → (unregister_job api name t call w).jm.is_running ≡ w.jm.is_running
  unfolding unregister_job
  unregister-running name t call w = ground (arith, unschedule-frame api (job_key name t) w.jm)

  pub unregister-entry_ids :
      (name t : String) (call : Call) (w : World C)
      → w.jm.is_running ≡ true
      → (unregister_job api name t call w).jm.entry_ids
        ≡ (unschedule api (job_key name t) w.jm).entry_ids
  unfolding unregister_job
  unregister-entry_ids name t call w runs = ground arith

  pub start-running : (jm : JobManager C) → jm.is_running ≡ true → start_scheduler api jm ≡ jm
  unfolding start_scheduler
  start-running jm runs = ground arith

  pub start-jobs : (jm : JobManager C) → (start_scheduler api jm).jobs ≡ jm.jobs
  unfolding start_scheduler start_cleanup_routine
  start-jobs jm = ground (arith, schedule_all-frame api jm.jobs jm)

  pub start-entry_ids :
      (jm : JobManager C)
      → jm.is_running ≡ false
      → (start_scheduler api jm).entry_ids ≡ (schedule_all api jm.jobs jm).entry_ids
  unfolding start_scheduler start_cleanup_routine
  start-entry_ids jm idle = ground arith

  pub stop-jobs : (jm : JobManager C) → (stop_scheduler api jm).1.jobs ≡ jm.jobs
  unfolding stop_scheduler stop_cleanup_routine
  stop-jobs jm = ground arith

  -- A stop either ends the running or leaves the entries.
  pub stop-entry_ids :
      (jm : JobManager C)
      → (stop_scheduler api jm).1.is_running ≡ true
      → (jm.is_running ≡ true) × ((stop_scheduler api jm).1.entry_ids ≡ jm.entry_ids)
  unfolding stop_scheduler stop_cleanup_routine
  stop-entry_ids jm r = ground arith
