-- ===== src/Server/Paths.antt =====
-- The routing table and the paths of the documentation.
use Prim.Native.String.{◌++◌}
use text.Mathlib.TextLemmas.{nil-append, cons-append, tail-eq_of_cons-eq}
use cron_lib.Base.{
  ◌≡◌, refl, sym, ap, ◌∙◌, ◌↔◌, String, str_eq, eq_iff, ◌&&◌, some, List, [], ◌∷◌, arith, All,
  Bool-cases, inl, inr,
}
use cron_lib.Server.Routes.{Operation, Route, route, routes, find_route}

-- The requests of the documentation, pkg/api/openapi/cron-api.yaml.
abbrev pub method_of : Operation → String
method_of Operation.delete_job_audit_log = "DELETE"
method_of Operation.delete_job = "DELETE"
method_of Operation.update_registered_job = "PATCH"
method_of Operation.migrate_down = "POST"
method_of Operation.migrate_up = "POST"
method_of Operation.seed_reference_data = "POST"
method_of Operation.seed_sample_data = "POST"
method_of _ = "GET"

abbrev pub path_of : Operation → String
path_of Operation.list_job_audit_logs = "/api/v1/cron/job-audit-logs"
path_of Operation.delete_job_audit_log = "/api/v1/cron/job-audit-logs/:id"
path_of Operation.get_job_audit_log_by_id = "/api/v1/cron/job-audit-logs/:id"
path_of Operation.list_jobs = "/api/v1/cron/jobs"
path_of Operation.delete_job = "/api/v1/cron/jobs/:id"
path_of Operation.get_job_by_id = "/api/v1/cron/jobs/:id"
path_of Operation.migrate_down = "/api/v1/cron/migrate/down"
path_of Operation.migrate_up = "/api/v1/cron/migrate/up"
path_of Operation.list_registered_jobs = "/api/v1/cron/registered-jobs"
path_of Operation.get_registered_job = "/api/v1/cron/registered-jobs/:id"
path_of Operation.update_registered_job = "/api/v1/cron/registered-jobs/:id"
path_of Operation.get_job_audit_logs = "/api/v1/cron/registered-jobs/:id/audit-logs"
path_of Operation.seed_reference_data = "/api/v1/cron/seed/reference"
path_of Operation.seed_sample_data = "/api/v1/cron/seed/sample"

append-cancel : (base a b : String) → base ++ a ≡ base ++ b → a ≡ b
append-cancel String.[] a b e = sym (nil-append a) ∙ e ∙ nil-append b
append-cancel (String.◌∷◌ c base) a b e =
    append-cancel base a b
      (tail-eq_of_cons-eq (sym (cons-append c base a) ∙ e ∙ cons-append c base b))

eq-append : (base a b : String) → str_eq (base ++ a) (base ++ b) ≡ str_eq a b
eq-append base a b =
    ground
      (arith, eq_iff (base ++ a) (base ++ b), eq_iff a b, append-cancel base a b, ap (◌++◌ base))

-- The routes below a base.
based : String → List Route → List Route
based base [] = []
based base (r ∷ rs) = route r.method (base ++ r.path) r.operation ∷ based base rs

find_route-based :
    (base method path : String) (rs : List Route)
    → find_route method (base ++ path) (based base rs) ≡ find_route method path rs
unfolding based
find_route-based base method path [] = refl
find_route-based base method path (r ∷ rs) =
    rw (eq-append base r.path path, find_route-based base method path rs) refl

routes-based : (base : String) → routes base ≡ based base (routes "")
unfolding routes based
routes-based base = refl

find_route-table :
    (operation : Operation)
    → find_route (method_of operation) (path_of operation) (routes "") ≡ some operation
unfolding routes
find_route-table Operation.list_job_audit_logs = refl
find_route-table Operation.delete_job_audit_log = refl
find_route-table Operation.get_job_audit_log_by_id = refl
find_route-table Operation.list_jobs = refl
find_route-table Operation.delete_job = refl
find_route-table Operation.get_job_by_id = refl
find_route-table Operation.migrate_down = refl
find_route-table Operation.migrate_up = refl
find_route-table Operation.list_registered_jobs = refl
find_route-table Operation.get_registered_job = refl
find_route-table Operation.update_registered_job = refl
find_route-table Operation.get_job_audit_logs = refl
find_route-table Operation.seed_reference_data = refl
find_route-table Operation.seed_sample_data = refl

find_route-found :
    (base method path : String) (operation : Operation)
    → method ≡ method_of operation
    → path ≡ base ++ path_of operation
    → find_route method path (routes base) ≡ some operation
find_route-found base method path operation m p =
    rw (m, p, routes-based base)
      (find_route-based base (method_of operation) (path_of operation) (routes "")
        ∙ find_route-table operation)

-- A route as documented.
abbrev IsDocumented : String → Route → Type 0
IsDocumented base r = (r.method ≡ method_of r.operation) × (r.path ≡ base ++ path_of r.operation)

routes-IsDocumented : (base : String) → All (IsDocumented base) (routes base)
unfolding routes
routes-IsDocumented base = ground arith

found-IsDocumented :
    (base method path : String) (operation : Operation) (rs : List Route)
    → All (IsDocumented base) rs
    → find_route method path rs ≡ some operation
    → (method ≡ method_of operation) × (path ≡ base ++ path_of operation)
found-IsDocumented base method path operation [] a e = absurd (ground arith)
found-IsDocumented base method path operation (r ∷ rs) a e =
    elim (Bool-cases (str_eq r.method method && str_eq r.path path)) [
      | inl t ↦
          let o : r.operation ≡ operation = ground arith in
          let m : r.method ≡ method = ground (arith, eq_iff r.method method) in
          let p : r.path ≡ path = ground (arith, eq_iff r.path path) in
          (sym m ∙ a.0.0 ∙ ap method_of o, sym p ∙ a.0.1 ∙ ap (λ x. base ++ path_of x) o)
      | inr f ↦ found-IsDocumented base method path operation rs a.1 (ground arith)
    ]

-- A request of a method and a registered path is routed to an operation exactly if the documentation
-- has the operation under that method and path, below the base URL: no operation is left out, and
-- none is hidden by another or answers a request that is not its own.
pub find_route-documented :
    (base_url method path : String) (operation : Operation)
    → (find_route method path (routes base_url) ≡ some operation)
      ↔ ((method ≡ method_of operation) × (path ≡ base_url ++ path_of operation))
find_route-documented base_url method path operation = (
  found-IsDocumented base_url method path operation (routes base_url)
      (routes-IsDocumented base_url),
  λ h. find_route-found base_url method path operation h.0 h.1,
)
