-- ===== src/Tests/Server.antt =====
-- The wrapped operations of cron-service.go and the handlers behind them at small tables.
use Prim.Native.String.{◌++◌}
use cron_lib.Base.{
  ℕ, ◌≡◌, refl, String, str_eq, Bool, true, false, Option, none, some, List, [], ◌∷◌, arith,
  if◌then◌else◌, ne_of_test, not, ◌||◌, ◌↔◌,
}
use cron_lib.Schema.{CronJob}
use cron_lib.Manager.State.{answered}
use cron_lib.Execution.World.{Result, ok, err}
use cron_lib.Api.{entity, respond, delete_job}
use cron_lib.Lists.Handlers.{PagingRequest, PagingSql}
use cron_lib.Server.Runtime.{Runtime}
use cron_lib.Server.Params.{bind_list_jobs, bind_delete_job}
use cron_lib.Server.Routes.{Operation, routes, find_route}
use cron_lib.Server.Handlers.{Tables, Environment, Calls, msg, responds, aborted, handle}
use cron_lib.Server.Wrapper.{GinServerOptions, run_middlewares, bind, serve}
use cron_lib.Server.Tenants.{rows_of, serve-confined}
use cron_lib.Server.Isolation.{serve-others}
use cron_lib.Server.Paths.{method_of, path_of, find_route-documented}
use cron_lib.Server.Reading.{serve-get, serve-bad_parameter}

-- A request, and what the middlewares make of it.
record Request : Type 0 where
  is_aborted : Bool
  tenant_id : Option String
  id : String
  page : List String

abbrev uuid : String → Result ℕ
uuid text = if str_eq text "seven" then ok 7 else err "invalid UUID"

abbrev int : List String → Result (Option ℕ)
int [] = ok none
int (v ∷ vs) = if str_eq v "one" then ok (some 1) else err "not a number"

abbrev rt : Runtime Request
rt = record {
  is_aborted = λ c. c.is_aborted;
  tenant_id = λ c. c.tenant_id;
  is_admin = λ c. true;
  is_super_admin = λ c. false;
  values = λ c name. if str_eq name "page" then c.page else [];
  param = λ c name. c.id;
  body = λ c. ok (some false);
  bind_int32 = λ name values. int (values name);
  bind_string = λ name values. ok none;
  bind_uuid = λ name text. uuid text;
}

abbrev first_page : PagingRequest → PagingSql
first_page p = record { page_size = 10; offset = 0; sort_by = p.default_sort_by; order = "asc" }

abbrev env : Environment
env = record {
  like = str_eq;
  text_le = λ a b. str_eq a "" || not (str_eq b "");
  no_rows_text = "no rows in result set";
  paging = first_page;
  from_timestamp = λ t. t;
  from_text = λ t. t;
  up = λ s. (none, s);
  down = λ s. (none, s);
}

-- The middleware that finds the tenant, or aborts.
abbrev authenticate : Request → Request
authenticate c =
    if str_eq c.id "" then record c { is_aborted = true } else record c { tenant_id = some "t" }

abbrev options : GinServerOptions Request
options = record { base_url = ""; middlewares = authenticate ∷ []; error_handler = none }

abbrev calls : Calls
calls = record {
  link = λ n. record { fault = answered; error = ""; now = 9 };
  tx = record { begin_error = none; rollback_error = none; commit = answered; commit_error = "" };
}

abbrev request : Request
request = record { is_aborted = false; tenant_id = none; id = "seven"; page = [] }

abbrev feed : CronJob
feed = record {
  id = 7;
  lock = "feed";
  job_name = "feed";
  status = "completed";
  last_execution_time = some 5;
  next_execution_time = none;
  locked_by = none;
  locked_at = none;
  tenant_id = "t";
  created_at = 6;
  updated_at = 6;
}

abbrev tables : Tables
tables = record {
  jobs = record feed { tenant_id = "u" } ∷ feed ∷ [];
  audit_logs = [];
  registered = [];
}

-- The job of the tenant is deleted, and the other of the same id stays.
deleted :
    (serve env rt options Operation.delete_job calls request tables).1.jobs
    ≡ record feed { tenant_id = "u" } ∷ []
unfolding serve bind bind_delete_job run_middlewares handle delete_job cron_lib.Jobs.delete_job
deleted = refl

stopped_at_gate :
    (serve env rt options Operation.list_jobs calls (record request { id = "" }) tables).0
    ≡ aborted (record request { id = ""; is_aborted = true })
unfolding serve bind bind_list_jobs run_middlewares
stopped_at_gate = refl

serve-confined_example :
    serve env rt options Operation.delete_job calls request (rows_of "t" tables) ≡ (
      (serve env rt options Operation.delete_job calls request tables).0,
      rows_of "t" (serve env rt options Operation.delete_job calls request tables).1,
    )
unfolding run_middlewares
serve-confined_example =
    serve-confined env rt options Operation.delete_job calls request tables "t" refl refl

serve-others_example :
    rows_of "u" (serve env rt options Operation.delete_job calls request tables).1
    ≡ rows_of "u" tables
unfolding run_middlewares
serve-others_example =
    serve-others env rt "u" options Operation.delete_job calls request tables refl
      (λ e. ground (arith, ne_of_test "t" "u" refl))

serve-get_example : (serve env rt options Operation.get_job_by_id calls request tables).1 ≡ tables
unfolding routes
serve-get_example =
    serve-get env rt options "/api/v1/cron/jobs/:id" Operation.get_job_by_id calls request tables
      refl

abbrev bad_page : Request
bad_page = record request { page = "two" ∷ [] }

serve-bad_parameter_example : serve env rt options Operation.list_jobs calls bad_page tables ≡ (
  responds (respond 400 (entity (msg "Invalid format for parameter page: not a number"))),
  tables,
)
serve-bad_parameter_example =
    serve-bad_parameter env rt options Operation.list_jobs calls bad_page tables
      "Invalid format for parameter page: not a number" refl refl

find_route-documented_example :
    (find_route "PATCH" "/v2/api/v1/cron/registered-jobs/:id" (routes "/v2")
      ≡ some Operation.update_registered_job)
    ↔ ((◌≡◌ {A = String} "PATCH" (method_of Operation.update_registered_job))
        × ("/v2/api/v1/cron/registered-jobs/:id"
            ≡ "/v2" ++ path_of Operation.update_registered_job))
find_route-documented_example =
    find_route-documented "/v2" "PATCH" "/v2/api/v1/cron/registered-jobs/:id"
      Operation.update_registered_job
