-- ===== src/Manager/Restart.antt =====
-- What `RegisterJob` and the clean-up of registrations do to the registration of a running job.
use cron_lib.Base.{
  ℕ, ◌+◌, ◌<◌, ◌≡◌, ◌≢◌, refl, String, str_eq, eq_iff, Bool, true, false, none, some, [], ◌∷◌, ◌++◌,
  arith, All, Distinct, find_where, delete_where, find-holds,
}
use cron_lib.Schema.{CronRegisteredJob, minutes}
use cron_lib.Registry.{
  Registered, has_name, is_outdated, upsert_registered_job, cleanup_stale_registered_jobs,
}
use cron_lib.Registry.Laws.{same_name, upsert_registered_job-lookup}
use cron_lib.Manager.State.{Job, CronApi, World, Call, refused}
use cron_lib.Manager.Methods.{key_of, already_registered, register_job, upsert_params}
use cron_lib.Manager.Lifecycle.{schedule_job-frame}

module _ (tenant_id job_name : String) where
  name-clash :
      (r x : CronRegisteredJob)
      → has_name tenant_id job_name r ≡ true
      → same_name r x ≡ false
      → has_name tenant_id job_name x ≡ false
  name-clash r x h d = ground (
    arith,
    eq_iff r.tenant_id tenant_id,
    eq_iff x.tenant_id tenant_id,
    eq_iff x.tenant_id r.tenant_id,
    eq_iff r.job_name job_name,
    eq_iff x.job_name job_name,
    eq_iff x.job_name r.job_name,
  )

  rest_unnamed :
      (p : CronRegisteredJob → Bool) (r : CronRegisteredJob) (rows : Registered)
      → has_name tenant_id job_name r ≡ true
      → All (λ x. same_name r x ≡ false) rows
      → find_where (has_name tenant_id job_name) (delete_where p rows) ≡ none
  rest_unnamed p r [] h a = refl
  rest_unnamed p r (x ∷ xs) h a = ground (arith, name-clash r x h, rest_unnamed p r xs h a.1)

  -- Where names are distinct, deleting the row of a name leaves none of the name.
  delete_named :
      (p : CronRegisteredJob → Bool) (rows : Registered) (r : CronRegisteredJob)
      → Distinct same_name rows
      → find_where (has_name tenant_id job_name) rows ≡ some r
      → p r ≡ true
      → find_where (has_name tenant_id job_name) (delete_where p rows) ≡ none
  delete_named p [] r d e h = refl
  delete_named p (x ∷ xs) r d e h = ground (arith, rest_unnamed p x xs, delete_named p xs r d.1)

outdated :
    (now at : ℕ) (t : String) (r : CronRegisteredJob)
    → r.last_registered_at ≡ at
    → str_eq r.tenant_id t ≡ true
    → at + minutes 1440 < now
    → is_outdated now t r ≡ true
outdated now at t r e h lt = ground arith

module _ {C : Type 0} (api : CronApi C) where
  register-registered :
      (job : Job) (c : Call) (w : World C)
      → already_registered (key_of job) w.jm.jobs ≡ false
      → c.fault ≢ refused
      → (register_job api job c w).registered
        ≡ (upsert_registered_job c.now c.new_id (upsert_params w.jm.instance_id job) w.registered).1
  unfolding register_job
  register-registered job c w new reached = ground arith

  -- Where names are distinct: registering a job that the manager does not have yet, as at every
  -- start of an instance, leaves its registration enabled, whatever flag it had before, at the time
  -- of the call, and names distinct, if the statement is executed.
  pub register_job-enables :
      (job : Job) (c : Call) (w : World C)
      → already_registered (key_of job) w.jm.jobs ≡ false
      → c.fault ≢ refused
      → Distinct same_name w.registered
      → (r : CronRegisteredJob) × (find_where
            (has_name job.tenant_id job.name)
            (register_job api job c w).registered
          ≡ some r)
        × (r.is_enabled ≡ true)
        × (r.last_registered_at ≡ c.now)
        × Distinct same_name (register_job api job c w).registered
  register_job-enables job c w new reached d =
      let p = upsert_params w.jm.instance_id job in
      let (distinct, found, registered) =
        upsert_registered_job-lookup c.now c.new_id p w.registered d in
      rw (register-registered job c w new reached) (
        (upsert_registered_job c.now c.new_id p w.registered).0,
        found,
        registered.enabled,
        registered.time,
        distinct,
      )

  register-jobs :
      (job : Job) (c : Call) (w : World C)
      → already_registered (key_of job) w.jm.jobs ≡ false
      → (register_job api job c w).jm.jobs ≡ w.jm.jobs ++ job ∷ []
  unfolding register_job
  register-jobs job c w new =
      ground (arith, schedule_job-frame api job (record (w.jm) { jobs = w.jm.jobs ++ job ∷ [] }))

  -- Where names are distinct and the statement is executed: a clean-up for the tenant more than 24
  -- hours after a job that the manager did not have was registered leaves no registration of it,
  -- although the job stands in the manager's list.
  pub registration_expires :
      (job : Job) (c : Call) (w : World C) (now : ℕ)
      → already_registered (key_of job) w.jm.jobs ≡ false
      → c.fault ≢ refused
      → Distinct same_name w.registered
      → c.now + minutes 1440 < now
      → let w' = register_job api job c w in
        (w'.jm.jobs ≡ w.jm.jobs ++ job ∷ [])
        × (find_where
              (has_name job.tenant_id job.name)
              (cleanup_stale_registered_jobs now job.tenant_id w'.registered)
            ≡ none)
  unfolding cleanup_stale_registered_jobs
  registration_expires job c w now new reached d lt =
      let (r, found, enabled, time, distinct) = register_job-enables job c w new reached d in
      let named = find-holds (has_name job.tenant_id job.name) _ r found in
      (
        register-jobs job c w new,
        delete_named job.tenant_id job.name (is_outdated now job.tenant_id) _ r distinct found
            (outdated now c.now job.tenant_id r time (ground arith) lt),
      )
