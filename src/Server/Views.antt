-- ===== src/Server/Views.antt =====
-- The handlers on the whole tables and on the rows of the tenant of the request alone.
use cron_lib.Base.{
  ℕ, ◌≡◌, refl, ap, ◌∙◌, String, str_eq, Bool, true, Option, none, some, arith, find_where,
  select_where, find-select, select-delete, select-update,
}
use cron_lib.Schema.{CronJob, CronJobAuditLog, CronRegisteredJob, Reply, row, or_no_rows}
use cron_lib.Jobs.{Jobs, of_tenant}
use cron_lib.Audit.{AuditLogs}
use cron_lib.Registry.{
  Registered, enabled_row, update_registered_job_enabled, get_registered_job_by_id,
}
use cron_lib.Manager.State.{Fault, answered, lost, refused}
use cron_lib.Execution.World.{Result, ok, err}
use cron_lib.Api.{
  Response, Link, over, read, fetched, shown, deleted, delete_job, get_job_by_id,
  delete_job_audit_log, get_job_audit_log_by_id, get_registered_job, update_registered_job,
  then_shown,
}

abbrev pub entry_of : String → CronJobAuditLog → Bool
entry_of t r = str_eq r.tenant_id t

abbrev pub registration_of : String → CronRegisteredJob → Bool
registration_of t r = str_eq r.tenant_id t

-- An operation on the rows of a class does what it does on the table, and to the rest nothing.
abbrev pub Commutes : {S R : Type 0} → (S → S) → (S → R × S) → S → Type 0
Commutes view f s = f (view s) ≡ ((f s).0, view (f s).1)

module _ (no_rows_text : String) where
  over-Commutes :
      {S A : Type 0} (view : S → S) (link : Link) (f : S → Reply A × S) (s : S)
      → Commutes view f s
      → Commutes view (over no_rows_text link f) s
  over-Commutes view link f s h = settled_over link.fault
    where
      settled_over :
          (x : Fault)
          → cron_lib.Api.settled no_rows_text link x (view s) (f (view s)) ≡ (
            (cron_lib.Api.settled no_rows_text link x s (f s)).0,
            view (cron_lib.Api.settled no_rows_text link x s (f s)).1,
          )
      settled_over answered = rw h refl
      settled_over lost = rw h refl
      settled_over refused = refl

  pub read-view :
      {S A : Type 0} (link : Link) (query : S → Reply A) (old s : S)
      → query old ≡ query s
      → read no_rows_text link query old ≡ read no_rows_text link query s
  read-view link query old s h = settled_read link.fault
    where
      settled_read :
          (x : Fault)
          → (cron_lib.Api.settled no_rows_text link x old (query old, old)).0
            ≡ (cron_lib.Api.settled no_rows_text link x s (query s, s)).0
      settled_read answered = rw h refl
      settled_read lost = refl
      settled_read refused = refl

  deleted-Commutes :
      {S : Type 0} (view : S → S) (f : S → Result ℕ × S) (s : S)
      → Commutes view f s
      → Commutes view (λ x. deleted no_rows_text (f x)) s
  deleted-Commutes view f s h = ap (deleted no_rows_text) h ∙ answer (f s)
    where
      answer :
          (x : Result ℕ × _)
          → deleted no_rows_text (x.0, view x.1)
            ≡ ((deleted no_rows_text x).0, view (deleted no_rows_text x).1)
      answer (ok id, s') = refl
      answer (err text, s') = refl

  -- The rows of the tenant.
  module _ (t : String) where
    abbrev pub jobs_of : Jobs → Jobs
    jobs_of = select_where (of_tenant t)

    abbrev pub entries_of : AuditLogs → AuditLogs
    entries_of = select_where (entry_of t)

    abbrev pub registrations_of : Registered → Registered
    registrations_of = select_where (registration_of t)

    job_in : (id : ℕ) (r : CronJob) → cron_lib.Jobs.has_id_in id t r ≡ true → of_tenant t r ≡ true
    job_in id r h = ground arith

    entry_in :
        (id : ℕ) (r : CronJobAuditLog)
        → cron_lib.Audit.has_id_in id t r ≡ true
        → entry_of t r ≡ true
    entry_in id r h = ground arith

    registration_in :
        (id : ℕ) (r : CronRegisteredJob)
        → cron_lib.Registry.has_id_in id t r ≡ true
        → registration_of t r ≡ true
    registration_in id r h = ground arith

    find-jobs_of :
        (id : ℕ) (rows : Jobs)
        → find_where (cron_lib.Jobs.has_id_in id t) (jobs_of rows)
          ≡ find_where (cron_lib.Jobs.has_id_in id t) rows
    find-jobs_of id rows = find-select _ (of_tenant t) rows (job_in id)

    find-entries_of :
        (id : ℕ) (rows : AuditLogs)
        → find_where (cron_lib.Audit.has_id_in id t) (entries_of rows)
          ≡ find_where (cron_lib.Audit.has_id_in id t) rows
    find-entries_of id rows = find-select _ (entry_of t) rows (entry_in id)

    pub find-registrations_of :
        (id : ℕ) (rows : Registered)
        → find_where (cron_lib.Registry.has_id_in id t) (registrations_of rows)
          ≡ find_where (cron_lib.Registry.has_id_in id t) rows
    find-registrations_of id rows = find-select _ (registration_of t) rows (registration_in id)

    pub delete_job-Commutes :
        (id : ℕ) (link : Link) (rows : Jobs)
        → Commutes jobs_of (delete_job no_rows_text (some t) id link) rows
    unfolding delete_job cron_lib.Jobs.delete_job
    delete_job-Commutes id link rows =
        deleted-Commutes jobs_of (over no_rows_text link (cron_lib.Jobs.delete_job id t)) rows (
          over-Commutes jobs_of link (cron_lib.Jobs.delete_job id t) rows (
            rw
              (
                find-jobs_of id rows,
                select-delete (cron_lib.Jobs.has_id_in id t) (of_tenant t) rows,
              )
              refl))

    pub delete_job_audit_log-Commutes :
        (id : ℕ) (link : Link) (rows : AuditLogs)
        → Commutes entries_of (delete_job_audit_log no_rows_text (some t) id link) rows
    unfolding delete_job_audit_log cron_lib.Audit.delete_job_audit_log
    delete_job_audit_log-Commutes id link rows =
        deleted-Commutes entries_of
          (over no_rows_text link (cron_lib.Audit.delete_job_audit_log id t)) rows
          (over-Commutes entries_of link (cron_lib.Audit.delete_job_audit_log id t) rows (
            rw
              (
                find-entries_of id rows,
                select-delete (cron_lib.Audit.has_id_in id t) (entry_of t) rows,
              )
              refl))

    pub get_registered_job-view :
        (id : ℕ) (link : Link) (rows : Registered)
        → get_registered_job no_rows_text (some t) id link (registrations_of rows)
          ≡ get_registered_job no_rows_text (some t) id link rows
    unfolding get_registered_job get_registered_job_by_id
    get_registered_job-view id link rows = ap (shown no_rows_text) (
        read-view link (get_registered_job_by_id id t) _ rows
          (ap or_no_rows (find-registrations_of id rows)))

    abbrev switch : ℕ → ℕ → Bool → Registered → Reply (Unit {0}) × Registered
    switch now id is_enabled rows = (row tt, update_registered_job_enabled now is_enabled id t rows)

    switch-Commutes :
        (now id : ℕ) (is_enabled : Bool) (rows : Registered)
        → Commutes registrations_of (switch now id is_enabled) rows
    unfolding update_registered_job_enabled
    switch-Commutes now id is_enabled rows =
        rw
          (select-update (cron_lib.Registry.has_id_in id t) (registration_of t)
            (enabled_row now is_enabled) rows (λ r. refl))
          refl

    then_shown-Commutes :
        (id : ℕ) (link : Link) (r : Result (Unit {0})) (rows : Registered)
        → Commutes registrations_of (λ rs. then_shown no_rows_text t id link (r, rs)) rows
    unfolding get_registered_job
    then_shown-Commutes id link (err text) rows = refl
    then_shown-Commutes id link (ok u) rows =
        ap (λ x. (x, registrations_of rows)) (get_registered_job-view id link rows)

    pub update_registered_job-Commutes :
        (id : ℕ) (body : Result (Option Bool)) (first second : Link) (rows : Registered)
        → Commutes registrations_of
            (update_registered_job no_rows_text (some t) id body first second)
            rows
    unfolding update_registered_job
    update_registered_job-Commutes id (err text) first second rows = refl
    update_registered_job-Commutes id (ok none) first second rows =
        then_shown-Commutes id second (ok tt) rows
    update_registered_job-Commutes id (ok (some is_enabled)) first second rows =
        ap (then_shown no_rows_text t id second) (
          over-Commutes registrations_of first (switch first.now id is_enabled) rows
            (switch-Commutes first.now id is_enabled rows))
        ∙ then_shown-Commutes id second
            (over no_rows_text first (switch first.now id is_enabled) rows).0
            (over no_rows_text first (switch first.now id is_enabled) rows).1

    pub get_job_by_id-view :
        (id : ℕ) (link : Link) (rows : Jobs)
        → get_job_by_id no_rows_text (some t) id link (jobs_of rows)
          ≡ get_job_by_id no_rows_text (some t) id link rows
    unfolding get_job_by_id cron_lib.Jobs.get_job_by_id
    get_job_by_id-view id link rows = ap (fetched no_rows_text) (
        read-view link (cron_lib.Jobs.get_job_by_id id t) _ rows
          (ap or_no_rows (find-jobs_of id rows)))

    pub get_job_audit_log_by_id-view :
        (id : ℕ) (link : Link) (rows : AuditLogs)
        → get_job_audit_log_by_id no_rows_text (some t) id link (entries_of rows)
          ≡ get_job_audit_log_by_id no_rows_text (some t) id link rows
    unfolding get_job_audit_log_by_id cron_lib.Audit.get_job_audit_log_by_id
    get_job_audit_log_by_id-view id link rows = ap (fetched no_rows_text) (
        read-view link (cron_lib.Audit.get_job_audit_log_by_id id t) _ rows
          (ap or_no_rows (find-entries_of id rows)))
