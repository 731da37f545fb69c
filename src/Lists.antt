-- ===== src/Lists.antt =====
-- The list and count queries of pkg/db/repository: ListJobs, ListJobAuditLogs,
-- ListJobAuditLogsByJobName, ListRegisteredJobs and the two counts.
--
-- LIMIT and OFFSET are not negative here; PostgreSQL refuses a negative one. Where the ORDER BY leaves
-- the order of rows open, they stand here in the order of the table.
pub mod Orders
pub mod Pages
pub mod Handlers
pub mod Defaults
use cron_lib.Base.{
  ℕ, String, str_eq, Bool, true, false, ◌&&◌, ◌||◌, not, Option, none, some, List, map,
  if◌then◌else◌, leb, select_where, count_where,
}
use cron_lib.Base.Sorting.{limit, offset, sort}
use cron_lib.Schema.{CronJob, CronJobAuditLog, CronRegisteredJob}
use cron_lib.Jobs.{Jobs, of_tenant}
use cron_lib.Audit.{AuditLogs}
use cron_lib.Registry.{Registered}

-- What the ORDER BY compares: the CASE expressions of all other columns are NULL in every row.
pub data Column {ℓ} (A : Type ℓ) : Type ℓ where
  text_column : (A → Option String) → Column A
  number_column : (A → Option ℕ) → Column A
  flag_column : (A → Bool) → Column A
  no_column : Column A

-- Ascending, NULLS LAST.
abbrev pub option_le {ℓ} : {B : Type ℓ} → (B → B → Bool) → Option B → Option B → Bool
option_le le none none = true
option_le le none (some b) = false
option_le le (some a) none = true
option_le le (some a) (some b) = le a b

abbrev pub jobs_column : String → Column CronJob
jobs_column sort_by =
    if str_eq sort_by "lock"
    then text_column (λ r. some r.lock)
    else if str_eq sort_by "job_name"
    then text_column (λ r. some r.job_name)
    else if str_eq sort_by "status"
    then text_column (λ r. some r.status)
    else if str_eq sort_by "last_execution_time"
    then number_column (λ r. r.last_execution_time)
    else if str_eq sort_by "next_execution_time"
    then number_column (λ r. r.next_execution_time)
    else if str_eq sort_by "locked_by"
    then text_column (λ r. r.locked_by)
    else if str_eq sort_by "locked_at"
    then number_column (λ r. r.locked_at)
    else no_column

-- ListJobAuditLogsByJobName.
abbrev pub history_column : String → Column CronJobAuditLog
history_column sort_by =
    if str_eq sort_by "scheduled_time"
    then number_column (λ r. r.scheduled_time)
    else if str_eq sort_by "start_time"
    then number_column (λ r. r.start_time)
    else if str_eq sort_by "end_time"
    then number_column (λ r. r.end_time)
    else if str_eq sort_by "status"
    then text_column (λ r. some r.status)
    else no_column

-- ListJobAuditLogs has five columns more.
abbrev pub audit_column : String → Column CronJobAuditLog
audit_column sort_by =
    if str_eq sort_by "app_id"
    then text_column (λ r. some r.app_id)
    else if str_eq sort_by "request_id"
    then text_column (λ r. some r.request_id)
    else if str_eq sort_by "job_name"
    then text_column (λ r. some r.job_name)
    else if str_eq sort_by "output"
    then text_column (λ r. r.output)
    else if str_eq sort_by "error"
    then text_column (λ r. r.error)
    else history_column sort_by

abbrev pub registered_column : String → Column CronRegisteredJob
registered_column sort_by =
    if str_eq sort_by "job_name"
    then text_column (λ r. some r.job_name)
    else if str_eq sort_by "schedule"
    then text_column (λ r. some r.schedule)
    else if str_eq sort_by "last_registered_at"
    then number_column (λ r. some r.last_registered_at)
    else if str_eq sort_by "is_enabled"
    then flag_column (λ r. r.is_enabled)
    else no_column

pub record ListParams : Type 0 where
  pub limit : ℕ
  pub offset : ℕ
  pub tenant_id : String
  pub like : Option String
  pub sort_by : String
  pub order : String

pub record ListRegisteredJobsRow : Type 0 where
  pub job : CronRegisteredJob
  pub execution_count : ℕ

-- Of PostgreSQL: `UPPER(value) LIKE UPPER(pattern)`, and the order of texts by the collation.
module _ (like text_le : String → String → Bool) where
  abbrev pub column_le {ℓ} : {A : Type ℓ} → Column A → A → A → Bool
  column_le (text_column f) r s = option_le text_le (f r) (f s)
  column_le (number_column f) r s = option_le leb (f r) (f s)
  column_le (flag_column f) r s = not (f r) || f s
  column_le no_column r s = true

  -- DESC is the converse of ASC, NULLS FIRST included; any other text than 'asc' means DESC.
  abbrev pub order_le {ℓ} : {A : Type ℓ} → String → Column A → A → A → Bool
  order_le order column r s =
      if str_eq order "asc" then column_le column r s else column_le column s r

  abbrev pub list_rows {ℓ} : {A : Type ℓ} → (A → Bool) → Column A → String → ℕ → ℕ → List A → List A
  list_rows p column order n o rows =
      limit n (offset o (sort (order_le order column) (select_where p rows)))

  -- `(UPPER(name) LIKE UPPER($4) OR $4 IS NULL)`
  abbrev pub matches : Option String → String → Bool
  matches none name = true
  matches (some pattern) name = like name pattern

  abbrev pub lists_job : ListParams → CronJob → Bool
  lists_job p r = of_tenant p.tenant_id r && matches p.like r.job_name

  unfoldable pub list_jobs : ListParams → Jobs → Jobs
  list_jobs p rows = list_rows (lists_job p) (jobs_column p.sort_by) p.order p.limit p.offset rows

  abbrev pub lists_entry : ListParams → CronJobAuditLog → Bool
  lists_entry p r = str_eq r.tenant_id p.tenant_id && matches p.like r.job_name

  unfoldable pub list_job_audit_logs : ListParams → AuditLogs → AuditLogs
  list_job_audit_logs p rows =
      list_rows (lists_entry p) (audit_column p.sort_by) p.order p.limit p.offset rows

  abbrev pub of_job : String → String → CronJobAuditLog → Bool
  of_job job_name tenant_id r = str_eq r.job_name job_name && str_eq r.tenant_id tenant_id

  unfoldable pub list_job_audit_logs_by_job_name :
      String → String → String → String → ℕ → ℕ → AuditLogs → AuditLogs
  list_job_audit_logs_by_job_name job_name tenant_id sort_by order n o rows =
      list_rows (of_job job_name tenant_id) (history_column sort_by) order n o rows

  unfoldable pub count_job_audit_logs_by_job_name : String → String → AuditLogs → ℕ
  count_job_audit_logs_by_job_name job_name tenant_id rows =
      count_where (of_job job_name tenant_id) rows

  abbrev pub lists_registration : String → Option String → CronRegisteredJob → Bool
  lists_registration tenant_id term r = str_eq r.tenant_id tenant_id && matches term r.job_name

  abbrev pub with_count : AuditLogs → CronRegisteredJob → ListRegisteredJobsRow
  with_count logs r = record {
    job = r;
    execution_count = count_where (of_job r.job_name r.tenant_id) logs;
  }

  unfoldable pub list_registered_jobs :
      ListParams → AuditLogs → Registered → List ListRegisteredJobsRow
  list_registered_jobs p logs rows = map (with_count logs) (
      list_rows (lists_registration p.tenant_id p.like) (registered_column p.sort_by) p.order
        p.limit p.offset rows)

  unfoldable pub count_registered_jobs : String → Option String → Registered → ℕ
  count_registered_jobs tenant_id term rows = count_where (lists_registration tenant_id term) rows
