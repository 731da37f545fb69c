-- ===== src/Audit.antt =====
-- pkg/db/repository/job_audit_logs.sql.go: the queries over `cron_job_audit_logs` that change it or
-- read one row. `now` is the server's clock, `new_id` the id of an inserted row; the trigger
-- `update_cron_job_audit_logs_modtime` sets `updated_at` on every UPDATE.
pub mod Laws
use cron_lib.Base.{
  ℕ, String, str_eq, Bool, ◌&&◌, ◌==◌, Option, none, some, List, [], ◌∷◌, ◌++◌, find_where,
  update_where, delete_where,
}
use cron_lib.Schema.{CronJobAuditLog, Reply, row, no_rows, or_no_rows, coalesce}

abbrev pub AuditLogs : Type 0
AuditLogs = List CronJobAuditLog

abbrev pub has_id_in : ℕ → String → CronJobAuditLog → Bool
has_id_in id tenant_id r = r.id == id && str_eq r.tenant_id tenant_id

pub record CreateParams : Type 0 where
  pub user_id : String
  pub app_id : String
  pub request_id : String
  pub job_name : String
  pub scheduled_time : Option ℕ
  pub start_time : Option ℕ
  pub end_time : Option ℕ
  pub status : String
  pub output : Option String
  pub error : Option String
  pub tenant_id : String

abbrev pub created_row : ℕ → ℕ → CreateParams → CronJobAuditLog
created_row now new_id p = record {
  id = new_id;
  app_id = p.app_id;
  request_id = p.request_id;
  job_name = p.job_name;
  scheduled_time = p.scheduled_time;
  start_time = p.start_time;
  end_time = p.end_time;
  status = p.status;
  output = p.output;
  error = p.error;
  user_id = p.user_id;
  tenant_id = p.tenant_id;
  created_at = some now;
  updated_at = some now;
}

unfoldable pub create_job_audit_log : ℕ → ℕ → CreateParams → AuditLogs → CronJobAuditLog × AuditLogs
create_job_audit_log now new_id p rows =
    (created_row now new_id p, rows ++ created_row now new_id p ∷ [])

pub record UpdateParams : Type 0 where
  pub id : ℕ
  pub end_time : Option ℕ
  pub status : String
  pub output : Option String
  pub error : Option String
  pub tenant_id : String

abbrev pub updated_row : ℕ → UpdateParams → CronJobAuditLog → CronJobAuditLog
updated_row now p r = record r {
  end_time = coalesce p.end_time r.end_time;
  status = p.status;
  output = coalesce p.output r.output;
  error = coalesce p.error r.error;
  updated_at = some now;
}

unfoldable pub update_job_audit_log :
    ℕ → UpdateParams → AuditLogs → Reply CronJobAuditLog × AuditLogs
update_job_audit_log now p rows = elim (find_where (has_id_in p.id p.tenant_id) rows) [
  | none ↦ (no_rows, rows)
  | some r ↦ (
    row (updated_row now p r),
    update_where (has_id_in p.id p.tenant_id) (updated_row now p) rows,
  )
]

unfoldable pub get_job_audit_log_by_id : ℕ → String → AuditLogs → Reply CronJobAuditLog
get_job_audit_log_by_id id tenant_id rows = or_no_rows (find_where (has_id_in id tenant_id) rows)

unfoldable pub delete_job_audit_log : ℕ → String → AuditLogs → Reply ℕ × AuditLogs
delete_job_audit_log id tenant_id rows = (
  elim (find_where (has_id_in id tenant_id) rows) [ none ↦ no_rows | some r ↦ row r.id ],
  delete_where (has_id_in id tenant_id) rows,
)
