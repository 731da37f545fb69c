-- ===== src/Server/Routes.antt =====
-- The routing table of RegisterHandlersWithOptions in api/openapi/cron-service.go.
use Prim.Native.String.{◌++◌}
use cron_lib.Base.{String, str_eq, ◌&&◌, Option, none, some, List, [], ◌∷◌, if◌then◌else◌}

-- The operations of the interface, by the names of their wrappers.
pub data Operation : Type 0 where
  list_job_audit_logs delete_job_audit_log get_job_audit_log_by_id : Operation
  list_jobs delete_job get_job_by_id : Operation
  migrate_down migrate_up : Operation
  list_registered_jobs get_registered_job update_registered_job get_job_audit_logs : Operation
  seed_reference_data seed_sample_data : Operation

pub record Route : Type 0 where
  pub method : String
  pub path : String
  pub operation : Operation

abbrev pub route : String → String → Operation → Route
route method path operation = record { method = method; path = path; operation = operation }

-- The calls of the router, in order.
unfoldable pub routes : String → List Route
routes base_url =
    route "GET" (base_url ++ "/api/v1/cron/job-audit-logs") list_job_audit_logs
    ∷ route "DELETE" (base_url ++ "/api/v1/cron/job-audit-logs/:id") delete_job_audit_log
    ∷ route "GET" (base_url ++ "/api/v1/cron/job-audit-logs/:id") get_job_audit_log_by_id
    ∷ route "GET" (base_url ++ "/api/v1/cron/jobs") list_jobs
    ∷ route "DELETE" (base_url ++ "/api/v1/cron/jobs/:id") delete_job
    ∷ route "GET" (base_url ++ "/api/v1/cron/jobs/:id") get_job_by_id
    ∷ route "POST" (base_url ++ "/api/v1/cron/migrate/down") migrate_down
    ∷ route "POST" (base_url ++ "/api/v1/cron/migrate/up") migrate_up
    ∷ route "GET" (base_url ++ "/api/v1/cron/registered-jobs") list_registered_jobs
    ∷ route "GET" (base_url ++ "/api/v1/cron/registered-jobs/:id") get_registered_job
    ∷ route "PATCH" (base_url ++ "/api/v1/cron/registered-jobs/:id") update_registered_job
    ∷ route "GET" (base_url ++ "/api/v1/cron/registered-jobs/:id/audit-logs") get_job_audit_logs
    ∷ route "POST" (base_url ++ "/api/v1/cron/seed/reference") seed_reference_data
    ∷ route "POST" (base_url ++ "/api/v1/cron/seed/sample") seed_sample_data
    ∷ []

-- What a method and a registered path are routed to.
abbrev pub find_route : String → String → List Route → Option Operation
find_route method path [] = none
find_route method path (r ∷ rs) =
    if str_eq r.method method && str_eq r.path path
    then some r.operation
    else find_route method path rs
