-- ===== src/Manager/Methods.antt =====
-- The methods of `JobManager` in pkg/job-manager.go that change its state. Each holds the mutex from
-- its first line to its return, so each is one step on the state.
use cron_lib.Base.{
  Option, ◌+◌, String, str_eq, Bool, true, false, ◌&&◌, none, some, List, [], ◌∷◌, ◌++◌,
  if◌then◌else◌,
}
use cron_lib.Base.Dict.{lookup, insert, erase}
use cron_lib.Registry.{UpsertParams, upsert_registered_job, delete_registered_job}
use cron_lib.Manager.Keys.{job_key}
use cron_lib.Manager.State.{
  Job, CronApi, ticking, stopped, JobManager, World, Call, executed, Exit, returned, panicked,
}

abbrev pub key_of : Job → String
key_of job = job_key job.name job.tenant_id

-- `for _, existingJob := range jm.jobs { if jobKey(...) == key { return } }`
abbrev pub already_registered : String → List Job → Bool
already_registered key [] = false
already_registered key (job ∷ jobs) =
    if str_eq (key_of job) key then true else already_registered key jobs

abbrev pub is_named : String → String → Job → Bool
is_named job_name tenant_id job = str_eq job.name job_name && str_eq job.tenant_id tenant_id

-- The loop that cuts the first such job out of the slice, and then breaks.
abbrev pub remove_job : String → String → List Job → List Job
remove_job job_name tenant_id [] = []
remove_job job_name tenant_id (job ∷ jobs) =
    if is_named job_name tenant_id job then jobs else job ∷ remove_job job_name tenant_id jobs

abbrev pub upsert_params : String → Job → UpsertParams
upsert_params instance_id job = record {
  job_name = job.name;
  schedule = job.schedule;
  is_long_running = job.is_long_running;
  is_enabled = true;
  instance_id = instance_id;
  tenant_id = job.tenant_id;
}

module _ {C : Type 0} (api : CronApi C) where
  -- newJobManager: no ticker, and no channel.
  unfoldable pub new_job_manager : String → JobManager C
  new_job_manager instance_id = record {
    cron = api.new;
    jobs = [];
    entry_ids = [];
    instance_id = instance_id;
    is_running = false;
    cleanup_ticker = none;
    stop_cleanup = none;
    channels = 0;
  }

  -- InitJobManager: `instanceOnce` makes the singleton at the first call. `new_id` is the text of the
  -- `uuid.New()` that a new manager would get.
  unfoldable pub init_job_manager : String → Option (JobManager C) → JobManager C
  init_job_manager new_id none = new_job_manager new_id
  init_job_manager new_id (some manager) = manager

  unfoldable pub schedule_job : Job → JobManager C → JobManager C
  schedule_job job jm = elim (api.add_func job.schedule job jm.cron) [
    | none ↦ jm
    | some (entry_id, cron) ↦ record jm {
      cron = cron;
      entry_ids = insert (key_of job) entry_id jm.entry_ids;
    }
  ]

  -- An error of the upsert is logged, and the job registered all the same.
  unfoldable pub register_job : Job → Call → World C → World C
  register_job job call w = if already_registered (key_of job) w.jm.jobs then w else record {
    jm = if w.jm.is_running then schedule_job job added else added;
    registered =
        executed call.fault w.registered
          (upsert_registered_job call.now call.new_id (upsert_params w.jm.instance_id job)
            w.registered).1;
  }
    where
      added : JobManager C
      added = record (w.jm) { jobs = w.jm.jobs ++ job ∷ [] }

  unfoldable pub unschedule : String → JobManager C → JobManager C
  unschedule key jm = elim (lookup key jm.entry_ids) [
    | none ↦ jm
    | some entry_id ↦ record jm {
      cron = api.remove entry_id jm.cron;
      entry_ids = erase key jm.entry_ids;
    }
  ]

  unfoldable pub unregister_job : String → String → Call → World C → World C
  unregister_job job_name tenant_id call w = record {
    jm = record jm { jobs = remove_job job_name tenant_id jm.jobs };
    registered =
        executed call.fault w.registered (delete_registered_job job_name tenant_id w.registered);
  }
    where
      jm : JobManager C
      jm = if w.jm.is_running then unschedule (job_key job_name tenant_id) w.jm else w.jm

  unfoldable pub schedule_all : List Job → JobManager C → JobManager C
  schedule_all [] jm = jm
  schedule_all (job ∷ jobs) jm = schedule_all jobs (schedule_job job jm)

  -- `jm.cleanupTicker = time.NewTicker(5 * time.Minute)`; the routine itself is a goroutine.
  unfoldable pub start_cleanup_routine : JobManager C → JobManager C
  start_cleanup_routine jm = record jm { cleanup_ticker = some ticking }

  unfoldable pub start_scheduler : JobManager C → JobManager C
  start_scheduler jm =
      if jm.is_running
      then jm
      else start_cleanup_routine
          (record scheduled { cron = api.start scheduled.cron; is_running = true })
    where
      scheduled : JobManager C
      scheduled = schedule_all jm.jobs jm

  -- Closing the nil channel panics. Otherwise the channel is closed, and a new one made.
  unfoldable pub stop_cleanup_routine : JobManager C → Exit × JobManager C
  stop_cleanup_routine jm = elim jm.cleanup_ticker [
    | none ↦ (returned, jm)
    | some _ ↦ elim jm.stop_cleanup [
      | none ↦ (panicked, record jm { cleanup_ticker = some stopped })
      | some _ ↦ (
        returned,
        record jm {
          cleanup_ticker = some stopped;
          stop_cleanup = some jm.channels;
          channels = jm.channels + 1;
        },
      )
    ]
  ]

  -- The wait for running jobs, up to thirty seconds, changes nothing of the state.
  abbrev pub after_cleanup : Exit × JobManager C → Exit × JobManager C
  after_cleanup (panicked, jm) = (panicked, jm)
  after_cleanup (returned, jm) =
      (returned, record jm { cron = api.stop jm.cron; entry_ids = []; is_running = false })

  unfoldable pub stop_scheduler : JobManager C → Exit × JobManager C
  stop_scheduler jm =
      if jm.is_running then after_cleanup (stop_cleanup_routine jm) else (returned, jm)
