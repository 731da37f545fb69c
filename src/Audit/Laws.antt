-- ===== src/Audit/Laws.antt =====
-- The life of an audit entry: `CreateJobAuditLog`, then `UpdateJobAuditLog`, then `GetJobAuditLogByID`.
use cron_lib.Base.{
  ℕ, ◌≡◌, refl, sym, ap, ◌∙◌, Option-cases, inl, inr, eq_refl, none, some, arith, find_where,
  find-snoc_new, find-update_some,
}
use cron_lib.Schema.{CronJobAuditLog, row, no_rows, unique_violation, too_long, or_no_rows}
use cron_lib.Audit.{
  AuditLogs, CreateParams, UpdateParams, has_id_in, created_row, updated_row, create_job_audit_log,
  update_job_audit_log, get_job_audit_log_by_id,
}

new-found :
    (now : ℕ) (c : CreateParams) (u : UpdateParams) (logs : AuditLogs)
    → find_where (has_id_in u.id u.tenant_id) logs ≡ none
    → c.tenant_id ≡ u.tenant_id
    → let (entry, opened) = create_job_audit_log now u.id c logs in
      find_where (has_id_in u.id u.tenant_id) opened ≡ some entry
unfolding create_job_audit_log
new-found now c u logs free tenant =
    find-snoc_new (has_id_in u.id u.tenant_id) logs (created_row now u.id c) free
      (ground (arith, eq_refl u.tenant_id))

update-get :
    (later : ℕ) (u : UpdateParams) (logs : AuditLogs) (r : CronJobAuditLog)
    → find_where (has_id_in u.id u.tenant_id) logs ≡ some r
    → let (reply, reported) = update_job_audit_log later u logs in
      (reply ≡ row (updated_row later u r))
      × (get_job_audit_log_by_id u.id u.tenant_id reported ≡ reply)
unfolding update_job_audit_log get_job_audit_log_by_id
update-get later u logs r e =
    rw (e, update_job_audit_log)
      (
        refl,
        ap or_no_rows (
            find-update_some (has_id_in u.id u.tenant_id) (updated_row later u) logs r (λ x h. h)
              e),
      )

-- The entry that an execution opens and reports on: created under an id that the tenant does not use,
-- updated by that id, it is read back with the times and the names of its creation, and with the
-- status, the end, the output and the error of the update where they are given.
pub get-update_job_audit_log-create :
    (now later : ℕ) (c : CreateParams) (u : UpdateParams) (logs : AuditLogs)
    → find_where (has_id_in u.id u.tenant_id) logs ≡ none
    → c.tenant_id ≡ u.tenant_id
    → let (entry, opened) = create_job_audit_log now u.id c logs in
      let (reply, reported) = update_job_audit_log later u opened in
      (entry ≡ created_row now u.id c)
      × (reply ≡ row (updated_row later u entry))
      × (get_job_audit_log_by_id u.id u.tenant_id reported ≡ reply)
unfolding create_job_audit_log
get-update_job_audit_log-create now later c u logs free tenant =
    let (replied, read) = update-get later u _ _ (new-found now c u logs free tenant) in
    (refl, replied, read)

-- An update of an entry that is there, read back.
pub get-update_job_audit_log :
    (later : ℕ) (u : UpdateParams) (logs : AuditLogs) (r : CronJobAuditLog)
    → get_job_audit_log_by_id u.id u.tenant_id logs ≡ row r
    → get_job_audit_log_by_id u.id u.tenant_id (update_job_audit_log later u logs).1
      ≡ row (updated_row later u r)
get-update_job_audit_log later u logs r e =
    elim (Option-cases (find_where (has_id_in u.id u.tenant_id) logs)) [
      | inl none_there ↦ absurd (unfold get_job_audit_log_by_id in ground (arith, none_there, e))
      | inr (x, found) ↦
          let (replied, read) = update-get later u logs x found in
          let same : row x ≡ row r =
            sym (ap or_no_rows found) ∙ (unfold get_job_audit_log_by_id in e) in
          read
          ∙ replied
          ∙ ap
              (λ y. elim y [
                | row z ↦ row (updated_row later u z)
                | no_rows ↦ no_rows
                | unique_violation ↦ no_rows
                | too_long ↦ no_rows
              ])
              same
    ]

-- An entry that is created under an id that the tenant does not use, read back.
pub get-create_job_audit_log :
    (now id : ℕ) (c : CreateParams) (logs : AuditLogs)
    → get_job_audit_log_by_id id c.tenant_id logs ≡ no_rows
    → get_job_audit_log_by_id id c.tenant_id (create_job_audit_log now id c logs).1
      ≡ row (created_row now id c)
unfolding get_job_audit_log_by_id create_job_audit_log
get-create_job_audit_log now id c logs e =
    elim (Option-cases (find_where (has_id_in id c.tenant_id) logs)) [
      | inl free ↦ ap or_no_rows (
          find-snoc_new (has_id_in id c.tenant_id) logs (created_row now id c) free
            (ground (arith, eq_refl c.tenant_id)))
      | inr (x, found) ↦ absurd (ground (arith, found, e))
    ]
