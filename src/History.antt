-- ===== src/History.antt =====
-- `GetJobAuditLogs` of pkg/api/registered_job_handler.go: a page of the audit log of one registered job.
pub mod Atoi
pub mod Laws
use cron_lib.Base.{ℕ, String, Bool, Option, none, some, List, [], ◌∷◌, if◌then◌else◌}
use cron_lib.Schema.{CronJobAuditLog, CronRegisteredJob, Reply, row}
use cron_lib.Audit.{AuditLogs}
use cron_lib.Registry.{Registered, get_registered_job_by_id}
use cron_lib.Execution.World.{Result, ok, err}
use cron_lib.Api.{empty_object, error_text, entity, Response, respond, Link, read}
use cron_lib.Lists.{list_job_audit_logs_by_job_name, count_job_audit_logs_by_job_name}
use cron_lib.Lists.Handlers.{listed}
use Atoi.{atoi, int32, is_negative, page_offset}

-- `api.JobAuditLog`. Its `created_at` is `none` for Go's zero time.
pub record JobAuditLog : Type 0 where
  pub app_id : String
  pub created_at : Option ℕ
  pub end_time : Option ℕ
  pub error : Option String
  pub id : ℕ
  pub job_name : String
  pub output : Option String
  pub request_id : String
  pub scheduled_time : ℕ
  pub start_time : Option ℕ
  pub status : String
  pub tenant_id : String
  pub updated_at : Option ℕ

-- How a handler ends: with a response, or with a panic.
pub data Handled (A : Type 0) : Type 0 where
  responds : Response A → Handled A
  panics : Handled A

-- `c.DefaultQuery`: the parameter of the query, or the default where the query has none of the name.
abbrev pub default_query : (String → Option String) → String → String → String
default_query query name default = elim (query name) [ none ↦ default | some text ↦ text ]

-- PostgreSQL refuses a negative LIMIT and a negative OFFSET.
abbrev pub bounded : {A : Type 0} → Link → ℕ → ℕ → List A → Result (List A)
bounded link n o rows =
    if is_negative n
    then err link.error
    else if is_negative o
    then err link.error
    else listed link rows

-- A slice that nothing was appended to is nil, which JSON writes as `null`.
abbrev pub slice : {A : Type 0} → List A → Option (List A)
slice [] = none
slice (x ∷ xs) = some (x ∷ xs)

-- The parameters are the library functions util.FromNullableTimestamp and util.FromNullableText.
module _ (from_timestamp : Option ℕ → Option ℕ) (from_text : Option String → Option String) where
  abbrev pub api_log : CronJobAuditLog → ℕ → JobAuditLog
  api_log log scheduled_time = record {
    app_id = log.app_id;
    created_at = log.created_at;
    end_time = from_timestamp log.end_time;
    error = from_text log.error;
    id = log.id;
    job_name = log.job_name;
    output = from_text log.output;
    request_id = log.request_id;
    scheduled_time = scheduled_time;
    start_time = from_timestamp log.start_time;
    status = log.status;
    tenant_id = log.tenant_id;
    updated_at = from_timestamp log.updated_at;
  }

  -- `*util.FromNullableTimestamp(log.ScheduledTime)` panics at a nil pointer.
  abbrev pub append_log :
      CronJobAuditLog → Option ℕ → Option (List JobAuditLog) → Option (List JobAuditLog)
  append_log log none rest = none
  append_log log (some scheduled_time) none = none
  append_log log (some scheduled_time) (some rest) = some (api_log log scheduled_time ∷ rest)

  -- The loop over the entries.
  unfoldable pub convert : List CronJobAuditLog → Option (List JobAuditLog)
  convert [] = some []
  convert (log ∷ logs) = append_log log (from_timestamp log.scheduled_time) (convert logs)

  abbrev pub converted : Option (List JobAuditLog) → Handled (Option (List JobAuditLog))
  converted none = panics
  converted (some logs) = responds (respond 200 (entity (slice logs)))

  abbrev pub counted : List CronJobAuditLog → Result ℕ → Handled (Option (List JobAuditLog))
  counted logs (err text) = responds (respond 500 (error_text text))
  counted logs (ok total_count) = converted (convert logs)

  abbrev pub then_counted :
      Result ℕ → Result (List CronJobAuditLog) → Handled (Option (List JobAuditLog))
  then_counted count (err text) = responds (respond 500 (error_text text))
  then_counted count (ok logs) = counted logs count

  module _ (like text_le : String → String → Bool) (no_rows_text : String) where
    abbrev pub count_query : String → String → AuditLogs → Reply ℕ
    count_query job_name tenant_id logs =
        row (count_job_audit_logs_by_job_name like text_le job_name tenant_id logs)

    -- The page that the parameters of the query ask for.
    abbrev pub page_of :
        String
        → String
        → (String → Option String)
        → Link
        → AuditLogs
        → Result (List CronJobAuditLog)
    page_of job_name tenant_id query link logs =
        let page = atoi (default_query query "page" "1") in
        let page_size = atoi (default_query query "pageSize" "10") in
        let n = int32 page_size in
        let o = page_offset page page_size in
        bounded link n o (
          list_job_audit_logs_by_job_name like text_le job_name tenant_id
            (default_query query "sortBy" "start_time") (default_query query "order" "desc") n o
            logs)

    -- The page of entries, and their number, which is read and not used.
    abbrev pub history :
        String
        → (String → Option String)
        → Link
        → Link
        → AuditLogs
        → Result CronRegisteredJob
        → Handled (Option (List JobAuditLog))
    history tenant_id query second third logs (err text) =
        responds (respond 404 (error_text "job not found"))
    history tenant_id query second third logs (ok job) =
        then_counted (read no_rows_text third (count_query job.job_name tenant_id) logs)
          (page_of job.job_name tenant_id query second logs)

    -- RegisteredJobHandler.GetJobAuditLogs, with the links of its three calls.
    unfoldable pub handle_get_job_audit_logs :
        Option String
        → ℕ
        → (String → Option String)
        → Link
        → Link
        → Link
        → AuditLogs
        → Registered
        → Handled (Option (List JobAuditLog))
    handle_get_job_audit_logs none job_id query first second third logs registered =
        responds (respond 500 empty_object)
    handle_get_job_audit_logs (some tenant_id) job_id query first second third logs registered =
        history tenant_id query second third logs
          (read no_rows_text first (get_registered_job_by_id job_id tenant_id) registered)
