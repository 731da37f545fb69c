-- ===== src/Tests/Lists.antt =====
-- The list queries and handlers at small tables, with patterns that are compared as whole texts.
use cron_lib.Base.{
  ◌≡◌, ◌≢◌, refl, String, str_eq, eq_iff, Bool, true, false, ◌||◌, not, ap, Option, none, some, [],
  ◌∷◌, arith, select_where, ne_of_test,
}
use cron_lib.Base.Sorting.{limit, offset}
use cron_lib.Schema.{CronJob, CronJobAuditLog}
use cron_lib.Jobs.{Jobs}
use cron_lib.Audit.{AuditLogs}
use cron_lib.Registry.{Registered}
use cron_lib.Manager.State.{answered}
use cron_lib.Api.{entity, respond, Link}
use cron_lib.Lists.{ListParams, list_jobs, lists_job, list_job_audit_logs}
use cron_lib.Lists.Handlers.{
  ListRequest, PagingRequest, PagingSql, paging_request, list_params, full, handle_list_jobs,
  handle_list_registered_jobs,
}
use cron_lib.Lists.Defaults.{handle_list_jobs-unsorted, handle_list_registered_jobs-empty}

-- An order of texts in which the empty text stands before all others.
abbrev text_le : String → String → Bool
text_le a b = str_eq a "" || not (str_eq b "")

abbrev audit_job : CronJob
audit_job = record {
  id = 1;
  lock = "audit";
  job_name = "audit";
  status = "completed";
  last_execution_time = some 9;
  next_execution_time = none;
  locked_by = none;
  locked_at = none;
  tenant_id = "t";
  created_at = 6;
  updated_at = 6;
}

abbrev jobs : Jobs
jobs =
    audit_job
    ∷ record audit_job { id = 2; last_execution_time = some 3 }
    ∷ record audit_job { id = 3; tenant_id = "u" }
    ∷ record audit_job { id = 4; last_execution_time = none }
    ∷ []

abbrev by_time : ListParams
by_time = record {
  limit = 2;
  offset = 0;
  tenant_id = "t";
  like = none;
  sort_by = "last_execution_time";
  order = "asc";
}

sorted_by_time :
    list_jobs str_eq text_le by_time jobs
    ≡ record audit_job { id = 2; last_execution_time = some 3 } ∷ audit_job ∷ []
unfolding list_jobs
sorted_by_time = refl

abbrev first_entry : CronJobAuditLog
first_entry = record {
  id = 1;
  app_id = "i";
  request_id = "r";
  job_name = "audit";
  scheduled_time = some 5;
  start_time = some 5;
  end_time = none;
  status = "started";
  output = none;
  error = none;
  user_id = "system";
  tenant_id = "t";
  created_at = some 5;
  updated_at = some 5;
}

abbrev logs : AuditLogs
logs = first_entry ∷ record first_entry { id = 2; start_time = some 8 } ∷ []

abbrev latest : ListParams
latest = record {
  limit = 1;
  offset = 0;
  tenant_id = "t";
  like = none;
  sort_by = "start_time";
  order = "desc";
}

latest_first :
    list_job_audit_logs str_eq text_le latest logs
    ≡ record first_entry { id = 2; start_time = some 8 } ∷ []
unfolding list_job_audit_logs
latest_first = refl

abbrev bare_request : ListRequest
bare_request = record {
  page = none;
  page_size = none;
  sort_by = none;
  order = none;
  q = none;
  detail = none;
}

abbrev or_default : Option String → String → String
or_default none default = default
or_default (some text) default = text

-- The first page of the default size.
abbrev paging : PagingRequest → PagingSql
paging r = record {
  page_size = r.default_page_size;
  offset = 0;
  sort_by = or_default r.sort_by r.default_sort_by;
  order = or_default r.order r.default_order;
}

passes_default : (p : PagingRequest) → p.sort_by ≡ none → (paging p).sort_by ≡ p.default_sort_by
passes_default p e = ap (λ s. or_default s p.default_sort_by) e

abbrev link : Link
link = record { fault = answered; error = ""; now = 9 }

handle_list_jobs-unsorted_example :
    let sql = paging (paging_request "name" "asc" bare_request) in
    let p = list_params "t" none sql in
    handle_list_jobs str_eq text_le paging (some "t") bare_request link jobs
    ≡ respond 200 (
        entity (
          full (
            limit sql.page_size
              (offset sql.offset (select_where (lists_job str_eq text_le p) jobs)))))
handle_list_jobs-unsorted_example =
    handle_list_jobs-unsorted str_eq text_le paging "t" bare_request link jobs refl refl refl
      passes_default

abbrev registered : Registered
registered =
    record {
      id = 3;
      job_name = "audit";
      schedule = "@daily";
      is_long_running = true;
      is_enabled = true;
      last_registered_at = 5;
      instance_id = "i";
      tenant_id = "t";
      created_at = 5;
      updated_at = 5;
    }
    ∷ []

empty_pattern : (v : String) → v ≢ "" → str_eq v "" ≡ false
empty_pattern v ne = ground (arith, eq_iff v "")

handle_list_registered_jobs-empty_example :
    handle_list_registered_jobs str_eq text_le paging (some "t") bare_request link logs registered
    ≡ respond 200 (entity [])
handle_list_registered_jobs-empty_example =
    handle_list_registered_jobs-empty str_eq text_le paging empty_pattern "t" bare_request link logs
      registered refl refl (ne_of_test "audit" "" refl, tt)
