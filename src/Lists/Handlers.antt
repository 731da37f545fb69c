-- ===== src/Lists/Handlers.antt =====
-- The list handlers of pkg/api: ListJobs, ListJobAuditLogs and ListRegisteredJobs. What
-- helpers.GetPagingSQL makes of a request is a parameter.
use Prim.Native.String.{◌++◌}
use cron_lib.Base.{ℕ, String, str_eq, Bool, false, Option, none, some, List, map, if◌then◌else◌}
use cron_lib.Schema.{CronJob, CronJobAuditLog}
use cron_lib.Jobs.{Jobs}
use cron_lib.Audit.{AuditLogs}
use cron_lib.Registry.{Registered}
use cron_lib.Manager.State.{answered, lost, refused}
use cron_lib.Execution.World.{Result, ok, err}
use cron_lib.Api.{
  empty_object, error_response, error_text, entity, Response, respond, Link, RegisteredJob, api_job,
}
use cron_lib.Lists.{
  ListParams, ListRegisteredJobsRow, list_jobs, list_job_audit_logs, list_registered_jobs,
}

-- The parameters of the query.
pub record ListRequest : Type 0 where
  pub page : Option ℕ
  pub page_size : Option ℕ
  pub sort_by : Option String
  pub order : Option String
  pub q : Option String
  pub detail : Option String

pub record PagingRequest : Type 0 where
  pub max_page_size : ℕ
  pub default_page : ℕ
  pub default_page_size : ℕ
  pub default_sort_by : String
  pub default_order : String
  pub page : Option ℕ
  pub page_size : Option ℕ
  pub sort_by : Option String
  pub order : Option String

pub record PagingSql : Type 0 where
  pub page_size : ℕ
  pub offset : ℕ
  pub sort_by : String
  pub order : String

pub record BasicEntity : Type 0 where
  pub id : ℕ
  pub name : String

-- What a list is answered with.
pub data Listing (A : Type 0) : Type 0 where
  full : List A → Listing A
  basic : List BasicEntity → Listing A

abbrev pub paging_request : String → String → ListRequest → PagingRequest
paging_request default_sort_by default_order r = record {
  max_page_size = 50;
  default_page = 1;
  default_page_size = 10;
  default_sort_by = default_sort_by;
  default_order = default_order;
  page = r.page;
  page_size = r.page_size;
  sort_by = r.sort_by;
  order = r.order;
}

-- `*params.Q + "%"`, or NULL.
abbrev pub prefix_pattern : Option String → Option String
prefix_pattern none = none
prefix_pattern (some q) = some (q ++ "%")

-- `"%" + *params.Q + "%"`, or the empty text.
abbrev pub search_term : Option String → String
search_term none = ""
search_term (some q) = "%" ++ (q ++ "%")

abbrev pub list_params : String → Option String → PagingSql → ListParams
list_params tenant_id like sql = record {
  limit = sql.page_size;
  offset = sql.offset;
  tenant_id = tenant_id;
  like = like;
  sort_by = sql.sort_by;
  order = sql.order;
}

abbrev pub listed : {A : Type 0} → Link → List A → Result (List A)
listed link rows = elim link.fault [
  | answered ↦ ok rows
  | lost ↦ err link.error
  | refused ↦ err link.error
]

abbrev pub wants_basic : Option String → Bool
wants_basic none = false
wants_basic (some detail) = str_eq detail "basic"

abbrev pub job_entity : CronJob → BasicEntity
job_entity r = record { id = r.id; name = r.job_name }

abbrev pub entry_entity : CronJobAuditLog → BasicEntity
entry_entity r = record { id = r.id; name = r.job_name }

abbrev pub listing :
    {A : Type 0} → (A → BasicEntity) → Option String → Result (List A) → Response (Listing A)
listing basic_of detail (err text) = respond 500 (error_response text)
listing basic_of detail (ok rows) =
    respond 200 (entity (if wants_basic detail then basic (map basic_of rows) else full rows))

module _ (like text_le : String → String → Bool) (paging : PagingRequest → PagingSql) where
  -- CronHandler.ListJobs
  unfoldable pub handle_list_jobs :
      Option String → ListRequest → Link → Jobs → Response (Listing CronJob)
  handle_list_jobs none r link jobs = respond 500 empty_object
  handle_list_jobs (some tenant_id) r link jobs = listing job_entity r.detail (
      listed link (
        list_jobs like text_le
          (list_params tenant_id (prefix_pattern r.q) (paging (paging_request "name" "asc" r)))
          jobs))

  -- JobAuditLogHandler.ListJobAuditLogs
  unfoldable pub handle_list_job_audit_logs :
      Option String → ListRequest → Link → AuditLogs → Response (Listing CronJobAuditLog)
  handle_list_job_audit_logs none r link logs = respond 500 empty_object
  handle_list_job_audit_logs (some tenant_id) r link logs = listing entry_entity r.detail (
      listed link (
        list_job_audit_logs like text_le
          (list_params tenant_id (prefix_pattern r.q)
            (paging (paging_request "scheduled_time" "desc" r)))
          logs))

  abbrev pub api_jobs : Result (List ListRegisteredJobsRow) → Response (List RegisteredJob)
  api_jobs (err text) = respond 500 (error_text text)
  api_jobs (ok rows) = respond 200 (entity (map (λ r. api_job r.job) rows))

  -- RegisteredJobHandler.ListRegisteredJobs
  unfoldable pub handle_list_registered_jobs :
      Option String → ListRequest → Link → AuditLogs → Registered → Response (List RegisteredJob)
  handle_list_registered_jobs none r link logs registered = respond 500 empty_object
  handle_list_registered_jobs (some tenant_id) r link logs registered = api_jobs (
      listed link (
        list_registered_jobs like text_le
          (list_params tenant_id (some (search_term r.q))
            (paging (paging_request "job_name" "asc" r)))
          logs registered))
