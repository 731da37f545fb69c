-- ===== src/Server/Isolation.antt =====
-- What a wrapped operation does to the rows of other tenants than that of the request.
use cron_lib.Base.{◌≡◌, ◌≢◌, refl, sym, ap, String, false, Option, none, some, arith}
use cron_lib.Execution.World.{Result, ok, err}
use cron_lib.Api.{delete_job, delete_job_audit_log, update_registered_job}
use cron_lib.Server.Runtime.{Runtime}
use cron_lib.Server.Params.{Action}
use cron_lib.Server.Routes.{Operation}
use cron_lib.Server.Handlers.{Tables, Environment, Calls, handle}
use cron_lib.Server.Wrapper.{
  GinServerOptions, Gate, stopped, passed, run_middlewares, bind, through, bound, serve,
}
use cron_lib.Server.Binding.{
  operation_of, is_migration, parameters, first_error, IsBinding, bind-IsBinding,
}
use cron_lib.Server.Tenants.{rows_of, tenant_at}
use cron_lib.Server.Frames.{
  delete_job-Keeps, delete_job_audit_log-Keeps, update_registered_job-Keeps, seed_reference-same,
  seed_sample-same,
}

module _ {C : Type 0} (env : Environment) (rt : Runtime C) (u : String) where
  handle-others :
      (calls : Calls) (action : Action) (tenant : Option String) (c : C) (s : Tables)
      → is_migration (operation_of action) ≡ false
      → tenant ≢ some u
      → rows_of u (handle env rt calls action tenant c s).1 ≡ rows_of u s
  unfolding handle delete_job delete_job_audit_log update_registered_job
  handle-others calls (Action.list_job_audit_logs p) tenant c s h ne = refl
  handle-others calls (Action.get_job_audit_log_by_id id) tenant c s h ne = refl
  handle-others calls (Action.list_jobs p) tenant c s h ne = refl
  handle-others calls (Action.get_job_by_id id p) tenant c s h ne = refl
  handle-others calls (Action.list_registered_jobs p) tenant c s h ne = refl
  handle-others calls (Action.get_registered_job id) tenant c s h ne = refl
  handle-others calls (Action.get_job_audit_logs id p) tenant c s h ne = refl
  handle-others calls (Action.delete_job id) none c s h ne = refl
  handle-others calls (Action.delete_job id) (some t) c s h ne =
      ap (λ rows. record (rows_of u s) { jobs = rows })
        (delete_job-Keeps env.no_rows_text t u (λ e. ne (ap some (sym e))) id (calls.link 0) s.jobs)
  handle-others calls (Action.delete_job_audit_log id) none c s h ne = refl
  handle-others calls (Action.delete_job_audit_log id) (some t) c s h ne =
      ap (λ rows. record (rows_of u s) { audit_logs = rows })
        (delete_job_audit_log-Keeps env.no_rows_text t u (λ e. ne (ap some (sym e))) id
          (calls.link 0) s.audit_logs)
  handle-others calls (Action.update_registered_job id) none c s h ne = refl
  handle-others calls (Action.update_registered_job id) (some t) c s h ne =
      ap (λ rows. record (rows_of u s) { registered = rows })
        (update_registered_job-Keeps env.no_rows_text t u (λ e. ne (ap some (sym e))) id (rt.body c)
          (calls.link 0) (calls.link 1) s.registered)
  handle-others calls Action.seed_reference_data tenant c s h ne =
      ap (rows_of u) (seed_reference-same calls.tx (rt.is_admin c) tenant s)
  handle-others calls Action.seed_sample_data tenant c s h ne =
      ap (rows_of u) (seed_sample-same calls.tx (rt.is_admin c) tenant s)
  handle-others calls Action.migrate_up tenant c s h ne = ground arith
  handle-others calls Action.migrate_down tenant c s h ne = ground arith

  through-others :
      (calls : Calls) (action : Action) (gate : Gate C) (s : Tables)
      → is_migration (operation_of action) ≡ false
      → tenant_at env rt gate ≢ some u
      → rows_of u (through env rt calls action gate s).1 ≡ rows_of u s
  through-others calls action (stopped c) s h ne = refl
  through-others calls action (passed c) s h ne =
      handle-others calls action (rt.tenant_id c) c s h ne

  bound-others :
      (options : GinServerOptions C) (operation : Operation) (calls : Calls) (c : C)
      (r : Result Action) (s : Tables) (e : Option String)
      → IsBinding operation e r
      → is_migration operation ≡ false
      → tenant_at env rt (run_middlewares env rt options.middlewares c) ≢ some u
      → rows_of u (bound env rt options calls c r s).1 ≡ rows_of u s
  bound-others options operation calls c (err text) s e b h ne = refl
  bound-others options operation calls c (ok action) s e b h ne =
      through-others calls action (run_middlewares env rt options.middlewares c) s (rw b.0 h) ne

  -- An operation other than a migration leaves the rows of every tenant, in all three tables, as they
  -- are, but for the tenant that the middlewares give to the request; so it leaves all rows as they are
  -- where they give it none, or abort it.
  pub serve-others :
      (options : GinServerOptions C) (operation : Operation) (calls : Calls) (c : C) (s : Tables)
      → is_migration operation ≡ false
      → tenant_at env rt (run_middlewares env rt options.middlewares c) ≢ some u
      → rows_of u (serve env rt options operation calls c s).1 ≡ rows_of u s
  unfolding serve
  serve-others options operation calls c s h ne =
      bound-others options operation calls c (bind env rt operation c) s
        (first_error env rt (parameters operation) c) (bind-IsBinding env rt operation c) h ne
