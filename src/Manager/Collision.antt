-- ===== src/Manager/Collision.antt =====
-- What a shared key does to the entries: `UnregisterJob` looks the entry up by the key alone.
use cron_lib.Base.{◌≡◌, refl, ◌∙◌, String, true, false, none, List, [], ◌∷◌, arith, All}
use cron_lib.Base.Dict.{lookup, lookup-erase_self}
use cron_lib.Manager.Keys.{job_key}
use cron_lib.Manager.State.{Job, CronApi, World, Call}
use cron_lib.Manager.Methods.{key_of, is_named, remove_job, unschedule, unregister_job}
use cron_lib.Manager.Frames.{unregister-jobs, unregister-entry_ids}

remove_absent :
    (name t : String) (jobs : List Job)
    → All (λ j. is_named name t j ≡ false) jobs
    → remove_job name t jobs ≡ jobs
remove_absent name t [] a = refl
remove_absent name t (job ∷ jobs) a = ground (arith, remove_absent name t jobs a.1)

module _ {C : Type 0} (api : CronApi C) where
  -- With a colon the wrong job loses its entry: while the scheduler runs, unregistering under a name
  -- and tenant that no registered job has, but whose key is that of some job, removes no job, and
  -- takes away that job's entry.
  pub unregister_job_wrong :
      (job : Job) (name t : String) (call : Call) (w : World C)
      → w.jm.is_running ≡ true
      → job_key name t ≡ key_of job
      → All (λ j. is_named name t j ≡ false) w.jm.jobs
      → let jm = (unregister_job api name t call w).jm in
        (jm.jobs ≡ w.jm.jobs) × (lookup (key_of job) jm.entry_ids ≡ none)
  unfolding unschedule
  unregister_job_wrong job name t call w runs same others = (
    unregister-jobs api name t call w ∙ remove_absent name t w.jm.jobs others,
    rw (unregister-entry_ids api name t call w runs, same)
        (ground (arith, lookup-erase_self (key_of job) w.jm.entry_ids)),
  )
