-- ===== src/Server/ListViews.antt =====
-- The list handlers and GetJobAuditLogs on the whole tables and on the rows of the tenant alone.
use mathlib.Core.Path.{ap₂}
use cron_lib.Base.{
  ℕ, ◌≡◌, refl, ap, ◌∙◌, String, Bool, true, Option, some, arith, select_where, select-select,
  All-selected, map-All, str_eq, eq_iff, eq_refl, All-mono, length,
}
use cron_lib.Base.Sorting.{All-limit, All-offset, All-sort}
use cron_lib.Schema.{CronRegisteredJob, row, or_no_rows}
use cron_lib.Jobs.{Jobs, of_tenant}
use cron_lib.Audit.{AuditLogs}
use cron_lib.Registry.{Registered, get_registered_job_by_id}
use cron_lib.Execution.World.{Result, ok, err}
use cron_lib.Api.{Link}
use cron_lib.Lists.{
  ListParams, list_jobs, list_job_audit_logs, list_registered_jobs, list_job_audit_logs_by_job_name,
  count_job_audit_logs_by_job_name, lists_job, lists_entry, lists_registration, of_job, with_count,
}
use cron_lib.Lists.Handlers.{
  ListRequest, PagingRequest, PagingSql, listing, listed, job_entity, entry_entity, api_jobs,
  handle_list_jobs, handle_list_job_audit_logs, handle_list_registered_jobs,
}
use cron_lib.History.Atoi.{atoi, int32, page_offset}
use cron_lib.History.{
  default_query, count_query, page_of, then_counted, history, handle_get_job_audit_logs,
}
use cron_lib.Server.Views.{entry_of, registration_of, read-view, find-registrations_of}

module _ (like text_le : String → String → Bool) where
  list_jobs-view :
      (p : ListParams) (rows : Jobs)
      → list_jobs like text_le p (select_where (of_tenant p.tenant_id) rows)
        ≡ list_jobs like text_le p rows
  unfolding list_jobs
  list_jobs-view p rows =
      rw
        (select-select (lists_job like text_le p) (of_tenant p.tenant_id) rows
          (λ r h. ground arith))
        refl

  list_job_audit_logs-view :
      (p : ListParams) (rows : AuditLogs)
      → list_job_audit_logs like text_le p (select_where (entry_of p.tenant_id) rows)
        ≡ list_job_audit_logs like text_le p rows
  unfolding list_job_audit_logs
  list_job_audit_logs-view p rows =
      rw
        (select-select (lists_entry like text_le p) (entry_of p.tenant_id) rows
          (λ r h. ground arith))
        refl

  entries-select :
      (job_name u t : String) (rows : AuditLogs)
      → str_eq u t ≡ true
      → select_where (of_job like text_le job_name u) (select_where (entry_of t) rows)
        ≡ select_where (of_job like text_le job_name u) rows
  entries-select job_name u t rows e =
      select-select (of_job like text_le job_name u) (entry_of t) rows
        (λ r h. ground (arith, eq_iff u t, eq_iff r.tenant_id t, eq_iff r.tenant_id u))

  -- The count of the executions of a registration of the tenant.
  with_count-view :
      (t : String) (logs : AuditLogs) (r : CronRegisteredJob)
      → registration_of t r ≡ true
      → with_count like text_le (select_where (entry_of t) logs) r ≡ with_count like text_le logs r
  with_count-view t logs r h =
      ap (λ rows. record { job = r; execution_count = length rows })
        (entries-select r.job_name r.tenant_id t logs h)

  list_registered_jobs-view :
      (p : ListParams) (logs : AuditLogs) (rows : Registered)
      → list_registered_jobs like text_le p
          (select_where (entry_of p.tenant_id) logs)
          (select_where (registration_of p.tenant_id) rows)
        ≡ list_registered_jobs like text_le p logs rows
  unfolding list_registered_jobs
  list_registered_jobs-view p logs rows =
      rw
        (select-select (lists_registration like text_le p.tenant_id p.like)
          (registration_of p.tenant_id) rows (λ r h. ground arith))
        (map-All (λ r. registration_of p.tenant_id r ≡ true) _ _ _
          (with_count-view p.tenant_id logs)
          (All-limit _ p.limit _ (
            All-offset _ p.offset _ (
              All-sort _ _ _ (
                All-mono _ _ _ (λ r h. ground arith)
                  (All-selected (lists_registration like text_le p.tenant_id p.like) rows))))))

  list_job_audit_logs_by_job_name-view :
      (job_name t sort_by order : String) (n o : ℕ) (logs : AuditLogs)
      → list_job_audit_logs_by_job_name like text_le job_name t sort_by order n o
          (select_where (entry_of t) logs)
        ≡ list_job_audit_logs_by_job_name like text_le job_name t sort_by order n o logs
  unfolding list_job_audit_logs_by_job_name
  list_job_audit_logs_by_job_name-view job_name t sort_by order n o logs =
      rw (entries-select job_name t t logs (eq_refl t)) refl

  count_job_audit_logs_by_job_name-view :
      (job_name t : String) (logs : AuditLogs)
      → count_job_audit_logs_by_job_name like text_le job_name t (select_where (entry_of t) logs)
        ≡ count_job_audit_logs_by_job_name like text_le job_name t logs
  unfolding count_job_audit_logs_by_job_name
  count_job_audit_logs_by_job_name-view job_name t logs =
      ap length (entries-select job_name t t logs (eq_refl t))

  module _ (paging : PagingRequest → PagingSql) where
    pub handle_list_jobs-view :
        (t : String) (r : ListRequest) (link : Link) (rows : Jobs)
        → handle_list_jobs like text_le paging (some t) r link (select_where (of_tenant t) rows)
          ≡ handle_list_jobs like text_le paging (some t) r link rows
    unfolding handle_list_jobs
    handle_list_jobs-view t r link rows =
        ap (λ xs. listing job_entity r.detail (listed link xs)) (list_jobs-view _ rows)

    pub handle_list_job_audit_logs-view :
        (t : String) (r : ListRequest) (link : Link) (rows : AuditLogs)
        → handle_list_job_audit_logs like text_le paging
            (some t)
            r
            link
            (select_where (entry_of t) rows)
          ≡ handle_list_job_audit_logs like text_le paging (some t) r link rows
    unfolding handle_list_job_audit_logs
    handle_list_job_audit_logs-view t r link rows =
        ap (λ xs. listing entry_entity r.detail (listed link xs)) (list_job_audit_logs-view _ rows)

    pub handle_list_registered_jobs-view :
        (t : String) (r : ListRequest) (link : Link) (logs : AuditLogs) (rows : Registered)
        → handle_list_registered_jobs like text_le paging
            (some t)
            r
            link
            (select_where (entry_of t) logs)
            (select_where (registration_of t) rows)
          ≡ handle_list_registered_jobs like text_le paging (some t) r link logs rows
    unfolding handle_list_registered_jobs
    handle_list_registered_jobs-view t r link logs rows =
        ap (λ xs. api_jobs like text_le paging (listed link xs))
          (list_registered_jobs-view _ logs rows)

  module _ (from_timestamp : Option ℕ → Option ℕ) (from_text : Option String → Option String)
      (no_rows_text : String) where
    page_of-view :
        (job_name t : String) (query : String → Option String) (link : Link) (logs : AuditLogs)
        → page_of from_timestamp from_text like text_le no_rows_text job_name t query link
            (select_where (entry_of t) logs)
          ≡ page_of from_timestamp from_text like text_le no_rows_text job_name t query link logs
    page_of-view job_name t query link logs =
        rw
          (list_job_audit_logs_by_job_name-view job_name t
            (default_query query "sortBy" "start_time") (default_query query "order" "desc")
            (int32 (atoi (default_query query "pageSize" "10")))
            (page_offset (atoi (default_query query "page" "1"))
              (atoi (default_query query "pageSize" "10")))
            logs)
          refl

    history-view :
        (t : String) (query : String → Option String) (second third : Link) (logs : AuditLogs)
        (r : Result CronRegisteredJob)
        → history from_timestamp from_text like text_le no_rows_text t query second third
            (select_where (entry_of t) logs)
            r
          ≡ history from_timestamp from_text like text_le no_rows_text t query second third logs r
    history-view t query second third logs (err text) = refl
    history-view t query second third logs (ok job) =
        ap₂ (then_counted from_timestamp from_text)
          (read-view no_rows_text third
            (count_query from_timestamp from_text like text_le no_rows_text job.job_name t)
            (select_where (entry_of t) logs) logs
            (ap row (count_job_audit_logs_by_job_name-view job.job_name t logs)))
          (page_of-view job.job_name t query second logs)

    pub handle_get_job_audit_logs-view :
        (t : String) (id : ℕ) (query : String → Option String) (first second third : Link)
        (logs : AuditLogs) (registered : Registered)
        → handle_get_job_audit_logs from_timestamp from_text like text_le no_rows_text
            (some t)
            id
            query
            first
            second
            third
            (select_where (entry_of t) logs)
            (select_where (registration_of t) registered)
          ≡ handle_get_job_audit_logs from_timestamp from_text like text_le no_rows_text
              (some t)
              id
              query
              first
              second
              third
              logs
              registered
    unfolding handle_get_job_audit_logs get_registered_job_by_id
    handle_get_job_audit_logs-view t id query first second third logs registered =
        history-view t query second third logs _
        ∙ ap (history from_timestamp from_text like text_le no_rows_text t query second third logs)
            (read-view no_rows_text first (get_registered_job_by_id id t) _ registered
              (ap or_no_rows (find-registrations_of no_rows_text t id registered)))
