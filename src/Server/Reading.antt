-- ===== src/Server/Reading.antt =====
-- The requests that change nothing: those of the method GET, and those whose handler is not called.
use mathlib.Core.Path.{subst}
use cron_lib.Base.{
  ◌≡◌, refl, String, str_eq, Bool, true, false, ◌&&◌, not, Option, none, some, List, [], ◌∷◌, arith,
  All,
}
use cron_lib.Execution.World.{Result, ok, err}
use cron_lib.Api.{entity, respond}
use cron_lib.Server.Runtime.{Runtime}
use cron_lib.Server.Params.{Action}
use cron_lib.Server.Routes.{Operation, Route, routes, find_route}
use cron_lib.Server.Handlers.{Tables, Environment, Calls, responds, msg, handle}
use cron_lib.Server.Wrapper.{
  GinServerOptions, Gate, stopped, passed, run_middlewares, bind, through, bound, serve,
}
use cron_lib.Server.Binding.{operation_of, parameters, first_error, IsBinding, bind-IsBinding}

abbrev is_read : Operation → Bool
is_read Operation.list_job_audit_logs = true
is_read Operation.get_job_audit_log_by_id = true
is_read Operation.list_jobs = true
is_read Operation.get_job_by_id = true
is_read Operation.list_registered_jobs = true
is_read Operation.get_registered_job = true
is_read Operation.get_job_audit_logs = true
is_read _ = false

-- A route of the method GET to an operation that changes something.
abbrev is_unsafe : Route → Bool
is_unsafe r = str_eq r.method "GET" && not (is_read r.operation)

find_route-is_read :
    (path : String) (rs : List Route) (operation : Operation)
    → All (λ r. is_unsafe r ≡ false) rs
    → find_route "GET" path rs ≡ some operation
    → is_read operation ≡ true
find_route-is_read path [] operation a e = ground arith
find_route-is_read path (r ∷ rs) operation a e =
    ground (arith, find_route-is_read path rs operation a.1)

routes-safe : (base_url : String) → All (λ r. is_unsafe r ≡ false) (routes base_url)
unfolding routes
routes-safe base_url = ground arith

module _ {C : Type 0} (env : Environment) (rt : Runtime C) where
  handle-same :
      (calls : Calls) (action : Action) (tenant : Option String) (c : C) (s : Tables)
      → is_read (operation_of action) ≡ true
      → (handle env rt calls action tenant c s).1 ≡ s
  unfolding handle
  handle-same calls (Action.list_job_audit_logs p) tenant c s h = refl
  handle-same calls (Action.get_job_audit_log_by_id id) tenant c s h = refl
  handle-same calls (Action.list_jobs p) tenant c s h = refl
  handle-same calls (Action.get_job_by_id id p) tenant c s h = refl
  handle-same calls (Action.list_registered_jobs p) tenant c s h = refl
  handle-same calls (Action.get_registered_job id) tenant c s h = refl
  handle-same calls (Action.get_job_audit_logs id p) tenant c s h = refl
  handle-same calls action tenant c s h = ground arith

  through-same :
      (calls : Calls) (action : Action) (gate : Gate C) (s : Tables)
      → is_read (operation_of action) ≡ true
      → (through env rt calls action gate s).1 ≡ s
  through-same calls action (stopped c) s h = refl
  through-same calls action (passed c) s h = handle-same calls action (rt.tenant_id c) c s h

  bound-same :
      (options : GinServerOptions C) (operation : Operation) (calls : Calls) (c : C)
      (r : Result Action) (s : Tables) (e : Option String)
      → IsBinding operation e r
      → is_read operation ≡ true
      → (bound env rt options calls c r s).1 ≡ s
  bound-same options operation calls c (err text) s e b h = refl
  bound-same options operation calls c (ok action) s e b h =
      through-same calls action (run_middlewares env rt options.middlewares c) s (rw b.0 h)

  -- A request of the method GET changes no table, whatever operation its path is routed to, whatever
  -- its parameters are and however the middlewares and the database behave.
  pub serve-get :
      (options : GinServerOptions C) (path : String) (operation : Operation) (calls : Calls) (c : C)
      (s : Tables)
      → find_route "GET" path (routes options.base_url) ≡ some operation
      → (serve env rt options operation calls c s).1 ≡ s
  unfolding serve
  serve-get options path operation calls c s e =
      bound-same options operation calls c (bind env rt operation c) s
        (first_error env rt (parameters operation) c) (bind-IsBinding env rt operation c)
        (find_route-is_read path (routes options.base_url) operation (routes-safe options.base_url)
          e)

  refused :
      (options : GinServerOptions C) (operation : Operation) (calls : Calls) (c : C)
      (r : Result Action) (s : Tables) (text : String)
      → IsBinding operation (some text) r
      → options.error_handler ≡ none
      → bound env rt options calls c r s ≡ (responds (respond 400 (entity (msg text))), s)
  refused options operation calls c (ok action) s text b h = ground arith
  refused options operation calls c (err other) s text b h = ground arith

  -- Where a parameter of an operation does not bind, and the options have no error handler, the answer
  -- is 400 with the error of the first such parameter, in the order in which the documentation lists
  -- them; no middleware and no handler is called, and the tables stay as they are.
  pub serve-bad_parameter :
      (options : GinServerOptions C) (operation : Operation) (calls : Calls) (c : C) (s : Tables)
      (text : String)
      → first_error env rt (parameters operation) c ≡ some text
      → options.error_handler ≡ none
      → serve env rt options operation calls c s ≡ (responds (respond 400 (entity (msg text))), s)
  unfolding serve
  serve-bad_parameter options operation calls c s text e h =
      refused options operation calls c (bind env rt operation c) s text
        (subst (λ x. IsBinding operation x (bind env rt operation c)) e
          (bind-IsBinding env rt operation c))
        h
