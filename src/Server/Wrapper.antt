-- ===== src/Server/Wrapper.antt =====
-- The ServerInterfaceWrapper of api/openapi/cron-service.go: the parameters, the middlewares, and the
-- handler.
use cron_lib.Base.{ℕ, String, Option, none, some, List, [], ◌∷◌, if◌then◌else◌}
use cron_lib.Execution.World.{Result, ok, err}
use cron_lib.Api.{entity, Response, respond}
use cron_lib.Server.Runtime.{Runtime}
use cron_lib.Server.Params.{
  Action, bind_list_job_audit_logs, bind_delete_job_audit_log, bind_get_job_audit_log_by_id,
  bind_list_jobs, bind_delete_job, bind_get_job_by_id, bind_list_registered_jobs,
  bind_get_registered_job, bind_update_registered_job, bind_get_job_audit_logs,
}
use cron_lib.Server.Routes.{Operation}
use cron_lib.Server.Handlers.{
  Tables, Environment, Calls, Payload, msg, Answer, aborted, responds, handle,
}

-- GinServerOptions. A middleware is what it makes of the context.
pub record GinServerOptions (C : Type 0) : Type 0 where
  pub base_url : String
  pub middlewares : List (C → C)
  pub error_handler : Option (C → String → ℕ → Response Payload)

-- Where the loop over the middlewares has ended.
pub data Gate (C : Type 0) : Type 0 where
  stopped passed : C → Gate C

module _ {C : Type 0} (env : Environment) (rt : Runtime C) where
  -- `for _, middleware := range siw.HandlerMiddlewares { middleware(c); if c.IsAborted() { return } }`
  unfoldable pub run_middlewares : List (C → C) → C → Gate C
  run_middlewares [] c = passed c
  run_middlewares (m ∷ ms) c =
      let rest = run_middlewares ms (m c) in if rt.is_aborted (m c) then stopped (m c) else rest

  -- The error handler of the options, or the default.
  abbrev pub error_handler : GinServerOptions C → C → String → ℕ → Response Payload
  error_handler options c text code = elim options.error_handler [
    | none ↦ respond code (entity (msg text))
    | some f ↦ f c text code
  ]

  -- The parameters that the wrapper of an operation binds.
  unfoldable pub bind : Operation → C → Result Action
  bind Operation.list_job_audit_logs c = bind_list_job_audit_logs rt c
  bind Operation.delete_job_audit_log c = bind_delete_job_audit_log rt c
  bind Operation.get_job_audit_log_by_id c = bind_get_job_audit_log_by_id rt c
  bind Operation.list_jobs c = bind_list_jobs rt c
  bind Operation.delete_job c = bind_delete_job rt c
  bind Operation.get_job_by_id c = bind_get_job_by_id rt c
  bind Operation.migrate_down c = ok Action.migrate_down
  bind Operation.migrate_up c = ok Action.migrate_up
  bind Operation.list_registered_jobs c = bind_list_registered_jobs rt c
  bind Operation.get_registered_job c = bind_get_registered_job rt c
  bind Operation.update_registered_job c = bind_update_registered_job rt c
  bind Operation.get_job_audit_logs c = bind_get_job_audit_logs rt c
  bind Operation.seed_reference_data c = ok Action.seed_reference_data
  bind Operation.seed_sample_data c = ok Action.seed_sample_data

  abbrev pub through : Calls → Action → Gate C → Tables → Answer C × Tables
  through calls action (stopped c) s = (aborted c, s)
  through calls action (passed c) s = handle env rt calls action (rt.tenant_id c) c s

  abbrev pub bound : GinServerOptions C → Calls → C → Result Action → Tables → Answer C × Tables
  bound options calls c (err text) s = (responds (error_handler options c text 400), s)
  bound options calls c (ok action) s =
      through calls action (run_middlewares options.middlewares c) s

  -- The wrapper of an operation.
  unfoldable pub serve : GinServerOptions C → Operation → Calls → C → Tables → Answer C × Tables
  serve options operation calls c s = bound options calls c (bind operation c) s
