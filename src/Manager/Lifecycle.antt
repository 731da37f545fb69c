-- ===== src/Manager/Lifecycle.antt =====
-- The scheduler's life from `newJobManager` on, over every sequence of calls of its methods.
use cron_lib.Base.{
  ◌≡◌, ◌≢◌, refl, String, true, none, some, List, [], ◌∷◌, ◌++◌, arith, Option-cases, inl, inr,
}
use cron_lib.Registry.{Registered}
use cron_lib.Manager.Keys.{job_key}
use cron_lib.Manager.State.{Job, CronApi, stopped, JobManager, World, Call, panicked}
use cron_lib.Manager.Methods.{
  new_job_manager, schedule_job, register_job, unschedule, unregister_job, schedule_all,
  start_scheduler, start_cleanup_routine, stop_cleanup_routine, stop_scheduler,
}

-- A call of a method.
pub data Op : Type 0 where
  register : Job → Call → Op
  unregister : String → String → Call → Op
  start stop : Op

module _ {C : Type 0} (api : CronApi C) where
  unfoldable pub step : Op → World C → World C
  step (register job call) w = register_job api job call w
  step (unregister job_name tenant_id call) w = unregister_job api job_name tenant_id call w
  step start w = record w { jm = start_scheduler api w.jm }
  step stop w = record w { jm = (stop_scheduler api w.jm).1 }

  unfoldable pub run : List Op → World C → World C
  run [] w = w
  run (op ∷ ops) w = run ops (step op w)

  unfoldable pub init : String → Registered → World C
  init instance_id registered = record {
    jm = new_job_manager api instance_id;
    registered = registered;
  }

  -- Only a ticker that was made runs the clean-up, and no channel was made.
  pub record IsBare (jm : JobManager C) : Type 0 where
    pub no_channel : jm.stop_cleanup ≡ none
    pub has_ticker : jm.is_running ≡ true → jm.cleanup_ticker ≢ none

  pub schedule_job-frame :
      (job : Job) (jm : JobManager C)
      → let jm' = schedule_job api job jm in
        (jm'.stop_cleanup ≡ jm.stop_cleanup)
        × (jm'.is_running ≡ jm.is_running)
        × (jm'.cleanup_ticker ≡ jm.cleanup_ticker)
        × (jm'.jobs ≡ jm.jobs)
  unfolding schedule_job
  schedule_job-frame job jm = ground arith

  pub schedule_all-frame :
      (jobs : List Job) (jm : JobManager C)
      → let jm' = schedule_all api jobs jm in
        (jm'.stop_cleanup ≡ jm.stop_cleanup)
        × (jm'.is_running ≡ jm.is_running)
        × (jm'.cleanup_ticker ≡ jm.cleanup_ticker)
        × (jm'.jobs ≡ jm.jobs)
  unfolding schedule_all
  schedule_all-frame [] jm = (refl, refl, refl, refl)
  schedule_all-frame (job ∷ jobs) jm =
      ground (arith, schedule_job-frame job jm, schedule_all-frame jobs (schedule_job api job jm))

  register-IsBare :
      (job : Job) (call : Call) (w : World C)
      → IsBare w.jm
      → IsBare (register_job api job call w).jm
  unfolding register_job
  register-IsBare job call w b =
      ground (arith, schedule_job-frame job (record (w.jm) { jobs = w.jm.jobs ++ job ∷ [] }))

  pub unschedule-frame :
      (key : String) (jm : JobManager C)
      → let jm' = unschedule api key jm in
        (jm'.stop_cleanup ≡ jm.stop_cleanup)
        × (jm'.is_running ≡ jm.is_running)
        × (jm'.cleanup_ticker ≡ jm.cleanup_ticker)
        × (jm'.jobs ≡ jm.jobs)
  unfolding unschedule
  unschedule-frame key jm = ground arith

  pub step-IsBare : (op : Op) (w : World C) → IsBare w.jm → IsBare (step op w).jm
  unfolding step unregister_job start_scheduler start_cleanup_routine stop_scheduler
      stop_cleanup_routine
  step-IsBare (register job call) w b = register-IsBare job call w b
  step-IsBare (unregister job_name tenant_id call) w b =
      ground (arith, unschedule-frame (job_key job_name tenant_id) w.jm)
  step-IsBare start w b = ground (arith, schedule_all-frame w.jm.jobs w.jm)
  step-IsBare stop w b = ground arith

  run-IsBare : (ops : List Op) (w : World C) → IsBare w.jm → IsBare (run ops w).jm
  unfolding run
  run-IsBare [] w b = b
  run-IsBare (op ∷ ops) w b = run-IsBare ops (step op w) (step-IsBare op w b)

  pub init-IsBare :
      (instance_id : String) (registered : Registered) → IsBare (init instance_id registered).jm
  unfolding init new_job_manager
  init-IsBare instance_id registered = ground arith

  pub stop-panics :
      (jm : JobManager C)
      → IsBare jm
      → jm.is_running ≡ true
      → stop_scheduler api jm ≡ (panicked, record jm { cleanup_ticker = some stopped })
  unfolding stop_scheduler stop_cleanup_routine
  stop-panics jm b r = elim (Option-cases jm.cleanup_ticker) [
    | inl e ↦ absurd (b.has_ticker r e)
    | inr (t, e) ↦ ground arith
  ]

  -- After any calls of the methods of a manager that `newJobManager` made, stopping the running
  -- scheduler panics. The ticker of the clean-up is then stopped, and all else of the manager is as
  -- before: the scheduler is running with all its entries.
  pub stop_scheduler_panics :
      (instance_id : String) (registered : Registered) (ops : List Op)
      → let w = run ops (init instance_id registered) in
        w.jm.is_running ≡ true
        → stop_scheduler api w.jm ≡ (panicked, record (w.jm) { cleanup_ticker = some stopped })
  stop_scheduler_panics instance_id registered ops r =
      stop-panics _
        (run-IsBare ops (init instance_id registered) (init-IsBare instance_id registered)) r

  pub step-running :
      (op : Op) (w : World C)
      → IsBare w.jm
      → w.jm.is_running ≡ true
      → (step op w).jm.is_running ≡ true
  unfolding step register_job unregister_job start_scheduler
  step-running (register job call) w b r =
      ground (arith, schedule_job-frame job (record (w.jm) { jobs = w.jm.jobs ++ job ∷ [] }))
  step-running (unregister job_name tenant_id call) w b r =
      ground (arith, unschedule-frame (job_key job_name tenant_id) w.jm)
  step-running start w b r = ground arith
  step-running stop w b r = ground (arith, stop-panics w.jm b r)

  run-running :
      (ops : List Op) (w : World C)
      → IsBare w.jm
      → w.jm.is_running ≡ true
      → (run ops w).jm.is_running ≡ true
  unfolding run
  run-running [] w b r = r
  run-running (op ∷ ops) w b r =
      run-running ops (step op w) (step-IsBare op w b) (step-running op w b r)

  -- A scheduler that was started, after any calls of the methods of a new manager, is running after
  -- every further sequence of calls.
  pub start_scheduler_for_good :
      (instance_id : String) (registered : Registered) (before after : List Op)
      → (run after (step start (run before (init instance_id registered)))).jm.is_running ≡ true
  start_scheduler_for_good instance_id registered before after =
      run-running after (step start w) (step-IsBare start w bare) (started w)
    where
      w : World C
      w = run before (init instance_id registered)

      bare : IsBare w.jm
      bare = run-IsBare before (init instance_id registered) (init-IsBare instance_id registered)

      started : (v : World C) → (step start v).jm.is_running ≡ true
      started v = unfold step start_scheduler start_cleanup_routine in ground arith
