-- ===== src/Manager/Entries.antt =====
-- Registering, unregistering and starting, seen at the scheduler's entries.
use cron_lib.Base.{
  ℕ, ◌≡◌, refl, ap, ◌∙◌, eq_iff, eq_refl, true, false, none, List, [], ◌∷◌, ◌++◌, arith, Bool-cases,
  Option-cases, inl, inr,
}
use cron_lib.Base.Dict.{lookup, lookup-insert, erase-insert}
use cron_lib.Registry.{delete_registered_job}
use cron_lib.Registry.Laws.{delete-upsert}
use cron_lib.Manager.State.{Job, CronApi, CronLaws, JobManager, World, Call, executed}
use cron_lib.Manager.Methods.{
  key_of, already_registered, is_named, remove_job, schedule_job, register_job, unschedule,
  unregister_job, upsert_params,
}
use cron_lib.Manager.Lifecycle.{schedule_job-frame}
use cron_lib.Manager.Registration.{IsConsistent, Owned-absent, named-key}
use cron_lib.Manager.Frames.{added, register-running, register-idle}

-- Cutting out the job that was appended.
remove-snoc :
    (job : Job) (jobs : List Job)
    → already_registered (key_of job) jobs ≡ false
    → remove_job job.name job.tenant_id (jobs ++ job ∷ []) ≡ jobs
remove-snoc job [] h = simp eq_refl
remove-snoc job (j ∷ jobs) h = elim (Bool-cases (is_named job.name job.tenant_id j)) [
  | inl named ↦
      absurd
        (ground (arith, named-key job.name job.tenant_id j named, eq_iff (key_of j) (key_of job)))
  | inr other ↦ rw other (ground (arith, remove-snoc job jobs))
]

module _ {C : Type 0} (api : CronApi C) (laws : CronLaws api) where
  -- The same manager, with a scheduler that has the same entries.
  abbrev pub IsSame : JobManager C → JobManager C → Type 0
  IsSame jm' jm =
      (jm' ≡ record jm { cron = jm'.cron }) × ((i : ℕ) → api.entry i jm'.cron ≡ api.entry i jm.cron)

  unschedule-schedule :
      (job : Job) (jm : JobManager C)
      → lookup (key_of job) jm.entry_ids ≡ none
      → IsSame (unschedule api (key_of job) (schedule_job api job jm)) jm
  unfolding schedule_job unschedule
  unschedule-schedule job jm absent = elim (Option-cases (api.add_func job.schedule job jm.cron)) [
    | inl e ↦ rw (e, schedule_job) (rw (absent, unschedule) (refl, λ i. refl))
    | inr ((id, cron), e) ↦ ground (
      arith,
      lookup-insert (key_of job) id jm.entry_ids (key_of job),
      eq_refl (key_of job),
      erase-insert (key_of job) id jm.entry_ids absent,
      laws.remove-add_func job.schedule job jm.cron id cron e,
    )
  ]

  unregister-registered :
      (job : Job) (c d : Call) (w : World C)
      → already_registered (key_of job) w.jm.jobs ≡ false
      → (unregister_job api job.name job.tenant_id d (register_job api job c w)).registered
        ≡ executed d.fault
            (register_job api job c w).registered
            (delete_registered_job job.name job.tenant_id w.registered)
  unfolding register_job unregister_job
  unregister-registered job c d w new =
      ground (arith, delete-upsert c.now c.new_id (upsert_params w.jm.instance_id job) w.registered)

  -- `UnregisterJob` on the manager.
  abbrev cut : Job → JobManager C → JobManager C
  cut job jm = record jm { jobs = remove_job job.name job.tenant_id jm.jobs }

  cut-IsSame :
      (job : Job) (u jm : JobManager C)
      → already_registered (key_of job) jm.jobs ≡ false
      → IsSame u (added api job jm)
      → IsSame (cut job u) jm
  cut-IsSame job u jm new (e, entries) = (cut-eq u.cron e, entries)
    where
      cut-eq :
          (c : C) → u ≡ record (added api job jm) { cron = c } → cut job u ≡ record jm { cron = c }
      cut-eq c q = rw (q, remove-snoc job jm.jobs new) refl

  unregister-running_jm :
      (job : Job) (d : Call) (w : World C)
      → w.jm.is_running ≡ true
      → (unregister_job api job.name job.tenant_id d w).jm
        ≡ cut job (unschedule api (key_of job) w.jm)
  unfolding unregister_job
  unregister-running_jm job d w runs = ground arith

  unregister-idle_jm :
      (job : Job) (d : Call) (w : World C)
      → w.jm.is_running ≡ false
      → (unregister_job api job.name job.tenant_id d w).jm ≡ cut job w.jm
  unfolding unregister_job
  unregister-idle_jm job d w idle = ground arith

  manager-IsSame :
      (job : Job) (c d : Call) (w : World C)
      → IsConsistent api w.jm
      → already_registered (key_of job) w.jm.jobs ≡ false
      → IsSame (unregister_job api job.name job.tenant_id d (register_job api job c w)).jm w.jm
  manager-IsSame job c d w k new = elim (Bool-cases w.jm.is_running) [
    | inl runs ↦
        let e = register-running api job c w new runs in
        rw
          (
            unregister-running_jm job d (register_job api job c w) (
                ap (λ jm. jm.is_running) e
                ∙ (schedule_job-frame api job (added api job w.jm)).1
                ∙ runs),
            e,
          )
          (cut-IsSame job _ w.jm new (
            unschedule-schedule job (added api job w.jm)
              (Owned-absent w.jm.jobs (key_of job) w.jm.entry_ids new k.owned)))
    | inr idle ↦
        let e = register-idle api job c w new idle in
        rw
          (
            unregister-idle_jm job d (register_job api job c w) (ap (λ jm. jm.is_running) e ∙ idle),
            e,
          )
          (cut-IsSame job (added api job w.jm) w.jm new (refl, λ i. refl))
  ]

  -- Unregistering undoes registering: a job whose key is not in use, once registered and unregistered,
  -- leaves the manager as it was but for the scheduler's own state, and that with the same entry under
  -- every id, whether the scheduler is running or not, whether the schedule parses or not, and whatever
  -- the database answers. If the deletion reaches the database, the table is as if only the deletion
  -- had been made, and else as the registration left it.
  pub unregister-register :
      (job : Job) (c d : Call) (w : World C)
      → IsConsistent api w.jm
      → already_registered (key_of job) w.jm.jobs ≡ false
      → let w' = unregister_job api job.name job.tenant_id d (register_job api job c w) in
        IsSame w'.jm w.jm
        × (w'.registered
            ≡ executed d.fault
                (register_job api job c w).registered
                (delete_registered_job job.name job.tenant_id w.registered))
  unregister-register job c d w k new =
      (manager-IsSame job c d w k new, unregister-registered job c d w new)
