-- ===== src/Lists/Pages.antt =====
-- What a page of a list holds.
use cron_lib.Base.{
  ℕ, ◌-◌, ◌≤◌, ◌≡◌, refl, ap, ◌∙◌, String, Bool, true, List, [], ◌∷◌, arith, All, All-selected,
  length, select_where,
}
use cron_lib.Base.Sorting.{
  limit, offset, sort, IsSorted, IsOrder, All-limit, All-offset, All-sort, length-limit,
  length-sort, sort-IsSorted, IsSorted-limit, IsSorted-offset,
}
use cron_lib.Jobs.{Jobs}
use cron_lib.Audit.{AuditLogs}
use cron_lib.Lists.{
  Column, order_le, list_rows, ListParams, lists_job, list_jobs, jobs_column, lists_entry,
  list_job_audit_logs, audit_column, of_job, list_job_audit_logs_by_job_name,
  count_job_audit_logs_by_job_name, history_column,
}
use cron_lib.Lists.Orders.{order-IsOrder}

limit-length : {A : Type 0} (n : ℕ) (xs : List A) → length xs ≤ n → limit n xs ≡ xs
limit-length n [] le = refl
limit-length n (x ∷ xs) le = ground (arith, limit-length (n - 1) xs)

offset_zero : {A : Type 0} (xs : List A) → offset 0 xs ≡ xs
offset_zero [] = refl
offset_zero (x ∷ xs) = refl

module _ (like text_le : String → String → Bool) where
  -- The number that CountJobAuditLogsByJobName gives for a job is that of the entries that the list
  -- has on its first page, in whatever order, if the page is large enough.
  pub list-count_job_audit_logs_by_job_name :
      (job_name tenant_id sort_by order : String) (n : ℕ) (logs : AuditLogs)
      → count_job_audit_logs_by_job_name like text_le job_name tenant_id logs ≤ n
      → length
          (list_job_audit_logs_by_job_name like text_le job_name tenant_id sort_by order n 0 logs)
        ≡ count_job_audit_logs_by_job_name like text_le job_name tenant_id logs
  unfolding list_job_audit_logs_by_job_name count_job_audit_logs_by_job_name
  list-count_job_audit_logs_by_job_name job_name tenant_id sort_by order n logs le =
      ap (λ xs. length (limit n xs)) (offset_zero sorted)
      ∙ ap length (limit-length n sorted (omega (arith, all)))
      ∙ all
    where
      chosen : AuditLogs
      chosen = select_where (of_job like text_le job_name tenant_id) logs

      sorted : AuditLogs
      sorted = sort (order_le like text_le order (history_column sort_by)) chosen

      all : length sorted ≡ length chosen
      all = length-sort (order_le like text_le order (history_column sort_by)) chosen

  module _ (text_order : IsOrder text_le) where
    list_rows-page :
        {A : Type 0} (p : A → Bool) (column : Column A) (order : String) (n o : ℕ) (rows : List A)
        → let page = list_rows like text_le p column order n o rows in
          (length page ≤ n)
          × All (λ r. p r ≡ true) page
          × IsSorted (order_le like text_le order column) page
    list_rows-page {A = A} p column order n o rows = (
      length-limit n (offset o sorted),
      All-limit _ n _
          (All-offset _ o _ (All-sort le _ (select_where p rows) (All-selected p rows))),
      IsSorted-limit le n _ (
          IsSorted-offset le o _ (
            sort-IsSorted le (order-IsOrder like text_le text_order order column)
              (select_where p rows))),
    )
      where
        le : A → A → Bool
        le = order_le like text_le order column

        sorted : List A
        sorted = sort le (select_where p rows)

    -- Where the collation orders texts: a page of ListJobs has at most as many rows as its limit, each of
    -- them of the tenant and with a name that matches, sorted by the column asked for.
    pub list_jobs-page :
        (p : ListParams) (jobs : Jobs)
        → let page = list_jobs like text_le p jobs in
          (length page ≤ p.limit)
          × All (λ r. lists_job like text_le p r ≡ true) page
          × IsSorted (order_le like text_le p.order (jobs_column p.sort_by)) page
    unfolding list_jobs
    list_jobs-page p jobs =
        list_rows-page (lists_job like text_le p) (jobs_column p.sort_by) p.order p.limit p.offset
          jobs

    -- The same of ListJobAuditLogs, where the collation orders texts: at most as many entries as the
    -- limit, each of the tenant and matching, sorted by the column asked for.
    pub list_job_audit_logs-page :
        (p : ListParams) (logs : AuditLogs)
        → let page = list_job_audit_logs like text_le p logs in
          (length page ≤ p.limit)
          × All (λ r. lists_entry like text_le p r ≡ true) page
          × IsSorted (order_le like text_le p.order (audit_column p.sort_by)) page
    unfolding list_job_audit_logs
    list_job_audit_logs-page p logs =
        list_rows-page (lists_entry like text_le p) (audit_column p.sort_by) p.order p.limit
          p.offset logs
