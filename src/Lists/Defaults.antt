-- ===== src/Lists/Defaults.antt =====
-- What the list handlers answer to a request that leaves the parameters out.
use cron_lib.Base.{
  ◌≡◌, ◌≢◌, refl, ap, String, str_eq, Bool, true, false, none, some, [], ◌∷◌, arith, All,
  select_where, Bool-cases, inl, inr,
}
use cron_lib.Base.Sorting.{limit, offset, sort_trivial}
use cron_lib.Schema.{CronJob}
use cron_lib.Jobs.{Jobs}
use cron_lib.Audit.{AuditLogs}
use cron_lib.Registry.{Registered}
use cron_lib.Manager.State.{answered}
use cron_lib.Api.{entity, respond, Link}
use cron_lib.Lists.{
  no_column, order_le, lists_job, lists_registration, list_jobs, list_registered_jobs, ListParams,
}
use cron_lib.Lists.Handlers.{
  ListRequest, PagingRequest, PagingSql, paging_request, prefix_pattern, list_params, full,
  handle_list_jobs, handle_list_registered_jobs, search_term,
}

module _ (like text_le : String → String → Bool) (paging : PagingRequest → PagingSql) where
  no_column-equal :
      (order : String) (r s : CronJob) → order_le like text_le order no_column r s ≡ true
  no_column-equal order r s = elim (Bool-cases (str_eq order "asc")) [
    | inl e ↦ rw e refl
    | inr e ↦ rw e refl
  ]

  list_jobs-name :
      (p : ListParams) (jobs : Jobs)
      → p.sort_by ≡ "name"
      → list_jobs like text_le p jobs
        ≡ limit p.limit (offset p.offset (select_where (lists_job like text_le p) jobs))
  unfolding list_jobs
  list_jobs-name p jobs e = rw e (
      ap (λ rows. limit p.limit (offset p.offset rows))
        (sort_trivial (order_le like text_le p.order no_column)
          (select_where (lists_job like text_le p) jobs) (no_column-equal p.order)))

  -- A request to ListJobs that names no column is sorted by "name", which is none of the columns that
  -- the query knows: where the paging helper passes the default on, the page is answered unsorted.
  pub handle_list_jobs-unsorted :
      (t : String) (r : ListRequest) (link : Link) (jobs : Jobs)
      → link.fault ≡ answered
      → r.sort_by ≡ none
      → r.detail ≡ none
      → ((p : PagingRequest) → p.sort_by ≡ none → (paging p).sort_by ≡ p.default_sort_by)
      → let sql = paging (paging_request "name" "asc" r) in
        let p = list_params t (prefix_pattern r.q) sql in
        handle_list_jobs like text_le paging (some t) r link jobs
        ≡ respond 200 (
            entity (
              full (
                limit sql.page_size
                  (offset sql.offset (select_where (lists_job like text_le p) jobs)))))
  unfolding handle_list_jobs
  handle_list_jobs-unsorted t r link jobs f s d h =
      let sql = paging (paging_request "name" "asc" r) in
      let p = list_params t (prefix_pattern r.q) sql in
      rw (f, d)
        (ap (λ rows. respond 200 (entity (full rows)))
          (list_jobs-name p jobs (h (paging_request "name" "asc" r) s)))

  module _ (like_empty : (v : String) → v ≢ "" → like v "" ≡ false) where
    none_match :
        (t : String) (registered : Registered)
        → All (λ r. r.job_name ≢ "") registered
        → select_where (lists_registration like text_le t (some "")) registered ≡ []
    none_match t [] a = refl
    none_match t (r ∷ rs) a = ground (arith, like_empty r.job_name, none_match t rs a.1)

    list-none :
        (p : ListParams) (logs : AuditLogs) (registered : Registered)
        → p.like ≡ some ""
        → All (λ r. r.job_name ≢ "") registered
        → list_registered_jobs like text_le p logs registered ≡ []
    unfolding list_registered_jobs
    list-none p logs registered e a = rw (e, none_match p.tenant_id registered a) refl

    -- A request to ListRegisteredJobs without a search text searches for the empty pattern, which
    -- matches the empty text alone: where every registration has a name, it is answered by the empty
    -- list, whatever is registered.
    pub handle_list_registered_jobs-empty :
        (t : String) (r : ListRequest) (link : Link) (logs : AuditLogs) (registered : Registered)
        → link.fault ≡ answered
        → r.q ≡ none
        → All (λ r. r.job_name ≢ "") registered
        → handle_list_registered_jobs like text_le paging (some t) r link logs registered
          ≡ respond 200 (entity [])
    unfolding handle_list_registered_jobs
    handle_list_registered_jobs-empty t r link logs registered f q a =
        let sql = paging (paging_request "job_name" "asc" r) in
        let p = list_params t (some (search_term r.q)) sql in
        rw (list-none p logs registered (ap (λ x. some (search_term x)) q) a) (rw f refl)
