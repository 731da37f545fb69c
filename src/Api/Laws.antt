-- ===== src/Api/Laws.antt =====
-- What a client of pkg/api sees of its changes, and what other tenants see of them.
use cron_lib.Base.{
  refl, ℕ, ◌≡◌, ◌≢◌, String, eq_iff, eq_refl, Bool, true, false, Option, none, some, arith,
  find_where, find-delete_none, find-delete_frame, find-update_frame, find-update_some,
}
use cron_lib.Schema.{CronJob, CronJobAuditLog, CronRegisteredJob}
use cron_lib.Jobs.{Jobs}
use cron_lib.Audit.{AuditLogs}
use cron_lib.Registry.{
  Registered, enabled_row, update_registered_job_enabled, get_registered_job_by_id,
}
use cron_lib.Manager.State.{answered}
use cron_lib.Execution.World.{ok}
use cron_lib.Api.{
  no_body, error_response, entity, Response, respond, Link, RegisteredJob, api_job, delete_job,
  get_job_by_id, delete_job_audit_log, get_job_audit_log_by_id, get_registered_job,
  update_registered_job,
}

-- The answer of a deletion to which the database replied.
abbrev pub deletion {ℓ} : {A : Type ℓ} → String → Option A → Response ℕ
deletion no_rows_text none = respond 500 (error_response no_rows_text)
deletion no_rows_text (some _) = respond 204 no_body

other_job :
    (id j : ℕ) (t u : String) (r : CronJob)
    → u ≢ t
    → cron_lib.Jobs.has_id_in id t r ≡ true
    → cron_lib.Jobs.has_id_in j u r ≡ false
other_job id j t u r ne h = ground (arith, eq_iff r.tenant_id t, eq_iff r.tenant_id u)

other_entry :
    (id j : ℕ) (t u : String) (r : CronJobAuditLog)
    → u ≢ t
    → cron_lib.Audit.has_id_in id t r ≡ true
    → cron_lib.Audit.has_id_in j u r ≡ false
other_entry id j t u r ne h = ground (arith, eq_iff r.tenant_id t, eq_iff r.tenant_id u)

other_registration :
    (id j : ℕ) (t u : String) (r : CronRegisteredJob)
    → u ≢ t
    → cron_lib.Registry.has_id_in id t r ≡ true
    → cron_lib.Registry.has_id_in j u r ≡ false
other_registration id j t u r ne h = ground (arith, eq_iff r.tenant_id t, eq_iff r.tenant_id u)

module _ (no_rows_text : String) where
  -- Where the database replies to the calls: deleting a job answers 204 if the tenant has a job of the
  -- id and 500 otherwise; afterwards reading the job answers 404, and another tenant reads what it
  -- read before, whatever id it asks for.
  pub delete_job-get_job_by_id :
      (t u : String) (id j : ℕ) (first second : Link) (jobs : Jobs)
      → first.fault ≡ answered
      → second.fault ≡ answered
      → u ≢ t
      → let (response, jobs') = delete_job no_rows_text (some t) id first jobs in
        (response ≡ deletion no_rows_text (find_where (cron_lib.Jobs.has_id_in id t) jobs))
        × (get_job_by_id no_rows_text (some t) id second jobs'
            ≡ respond 404 (error_response no_rows_text))
        × (get_job_by_id no_rows_text (some u) j second jobs'
            ≡ get_job_by_id no_rows_text (some u) j second jobs)
  unfolding delete_job get_job_by_id cron_lib.Jobs.delete_job cron_lib.Jobs.get_job_by_id
  delete_job-get_job_by_id t u id j first second jobs f s ne = ground (
    arith,
    eq_refl no_rows_text,
    find-delete_none (cron_lib.Jobs.has_id_in id t) jobs,
    find-delete_frame (cron_lib.Jobs.has_id_in j u) (cron_lib.Jobs.has_id_in id t) jobs
        (λ r. other_job id j t u r ne),
  )

  -- The same of audit entries, where the database replies: deleting answers 204 if the tenant has an
  -- entry of the id and 500 otherwise, then reading it answers 404, and other tenants notice nothing.
  pub delete_job_audit_log-get_job_audit_log_by_id :
      (t u : String) (id j : ℕ) (first second : Link) (logs : AuditLogs)
      → first.fault ≡ answered
      → second.fault ≡ answered
      → u ≢ t
      → let (response, logs') = delete_job_audit_log no_rows_text (some t) id first logs in
        (response ≡ deletion no_rows_text (find_where (cron_lib.Audit.has_id_in id t) logs))
        × (get_job_audit_log_by_id no_rows_text (some t) id second logs'
            ≡ respond 404 (error_response no_rows_text))
        × (get_job_audit_log_by_id no_rows_text (some u) j second logs'
            ≡ get_job_audit_log_by_id no_rows_text (some u) j second logs)
  unfolding delete_job_audit_log get_job_audit_log_by_id cron_lib.Audit.delete_job_audit_log
      cron_lib.Audit.get_job_audit_log_by_id
  delete_job_audit_log-get_job_audit_log_by_id t u id j first second logs f s ne = ground (
    arith,
    eq_refl no_rows_text,
    find-delete_none (cron_lib.Audit.has_id_in id t) logs,
    find-delete_frame (cron_lib.Audit.has_id_in j u) (cron_lib.Audit.has_id_in id t) logs
        (λ r. other_entry id j t u r ne),
  )

  switch-found :
      (t : String) (id : ℕ) (is_enabled : Bool) (now : ℕ) (registered : Registered)
      (r : CronRegisteredJob)
      → find_where (cron_lib.Registry.has_id_in id t) registered ≡ some r
      → find_where
          (cron_lib.Registry.has_id_in id t)
          (update_registered_job_enabled now is_enabled id t registered)
        ≡ some (enabled_row now is_enabled r)
  unfolding update_registered_job_enabled
  switch-found t id is_enabled now registered r e =
      find-update_some (cron_lib.Registry.has_id_in id t) (enabled_row now is_enabled) registered r
        (λ x h. h) e

  switch-others :
      (t u : String) (id j : ℕ) (is_enabled : Bool) (now : ℕ) (registered : Registered)
      → u ≢ t
      → find_where
          (cron_lib.Registry.has_id_in j u)
          (update_registered_job_enabled now is_enabled id t registered)
        ≡ find_where (cron_lib.Registry.has_id_in j u) registered
  unfolding update_registered_job_enabled
  switch-others t u id j is_enabled now registered ne =
      find-update_frame (cron_lib.Registry.has_id_in j u) (cron_lib.Registry.has_id_in id t)
        (enabled_row now is_enabled) registered (λ r. other_registration id j t u r ne)
        (λ r. other_registration id j t u r ne)

  -- Where the database replies to the calls: switching a registration of the tenant on or off answers
  -- 200 with the registration, its flag as asked for, the server's time as that of the update, and its
  -- other columns as they were; reading it afterwards answers the same; and another tenant reads what it
  -- read before, whatever id it asks for.
  pub update_registered_job-get_registered_job :
      (t u : String) (id j : ℕ) (is_enabled : Bool) (first second third : Link)
      (registered : Registered) (r : CronRegisteredJob)
      → first.fault ≡ answered
      → second.fault ≡ answered
      → third.fault ≡ answered
      → find_where (cron_lib.Registry.has_id_in id t) registered ≡ some r
      → u ≢ t
      → let (response, registered') =
          update_registered_job no_rows_text
            (some t)
            id
            (ok (some is_enabled))
            first
            second
            registered in
        ((j : RegisteredJob) × (response ≡ respond 200 (entity j))
          × (j.id ≡ r.id)
          × (j.is_enabled ≡ is_enabled)
          × (j.updated_at ≡ first.now)
          × (j.job_name ≡ r.job_name)
          × (j.schedule ≡ r.schedule)
          × (j.is_long_running ≡ r.is_long_running)
          × (j.instance_id ≡ r.instance_id)
          × (j.tenant_id ≡ r.tenant_id)
          × (j.created_at ≡ r.created_at)
          × (j.last_registered_at ≡ r.last_registered_at))
        × (get_registered_job no_rows_text (some t) id third registered' ≡ response)
        × (get_registered_job no_rows_text (some u) j third registered'
            ≡ get_registered_job no_rows_text (some u) j third registered)
  unfolding update_registered_job get_registered_job get_registered_job_by_id
  update_registered_job-get_registered_job t u id j is_enabled first second third registered r f s h
        e ne =
      (
        (
          api_job (enabled_row first.now is_enabled r),
          answer,
          refl,
          refl,
          refl,
          refl,
          refl,
          refl,
          refl,
          refl,
          refl,
          refl,
        ),
        ground (arith, found),
        ground (arith, switch-others t u id j is_enabled first.now registered ne),
      )
    where
      found :
          find_where
            (cron_lib.Registry.has_id_in id t)
            (update_registered_job_enabled first.now is_enabled id t registered)
          ≡ some (enabled_row first.now is_enabled r)
      found = switch-found t id is_enabled first.now registered r e

      answer :
          (update_registered_job no_rows_text
            (some t)
            id
            (ok (some is_enabled))
            first
            second
            registered).0
          ≡ respond 200 (entity (api_job (enabled_row first.now is_enabled r)))
      answer = unfold update_registered_job get_registered_job_by_id in ground (arith, found)
