-- ===== src/Server/Tenants.antt =====
-- The wrapped operations and the tenant that the middlewares find.
use cron_lib.Base.{
  ◌≡◌, refl, ap, ◌∙◌, String, Bool, true, false, Option, none, some, select_where, arith,
}
use cron_lib.Jobs.{of_tenant}
use cron_lib.Execution.World.{Result, ok, err}
use cron_lib.Store.{TxCalls, handle_seed, seeded, seed_reference_data, seed_sample_data}
use cron_lib.Server.Runtime.{Runtime, get_query}
use cron_lib.Server.Params.{Action}
use cron_lib.Server.Routes.{Operation}
use cron_lib.Server.Binding.{
  operation_of, is_migration, parameters, first_error, IsBinding, bind-IsBinding,
}
use cron_lib.Server.Handlers.{Tables, Environment, Calls, handle}
use cron_lib.Server.Wrapper.{
  GinServerOptions, Gate, stopped, passed, run_middlewares, bind, through, bound, serve,
}
use cron_lib.Server.Views.{
  entry_of, registration_of, delete_job-Commutes, get_job_by_id-view, delete_job_audit_log-Commutes,
  get_job_audit_log_by_id-view, get_registered_job-view, update_registered_job-Commutes, Commutes,
}
use cron_lib.Server.ListViews.{
  handle_list_jobs-view, handle_list_job_audit_logs-view, handle_list_registered_jobs-view,
  handle_get_job_audit_logs-view,
}

-- The rows of a tenant in the three tables.
abbrev pub rows_of : String → Tables → Tables
rows_of t s = record {
  jobs = select_where (of_tenant t) s.jobs;
  audit_logs = select_where (entry_of t) s.audit_logs;
  registered = select_where (registration_of t) s.registered;
}

-- The seeding changes nothing so far, and its answer does not depend on the tables.
reference-Commutes :
    {S : Type 0} (view : S → S) (calls : TxCalls) (t : String) (s : S)
    → Commutes view (seed_reference_data calls t) s
unfolding seed_reference_data
reference-Commutes view calls t s = ground arith

sample-Commutes :
    {S : Type 0} (view : S → S) (calls : TxCalls) (t : String) (s : S)
    → Commutes view (seed_sample_data calls t) s
unfolding seed_sample_data
sample-Commutes view calls t s = ground arith

seed-Commutes :
    {S : Type 0} (view : S → S) (seed : String → S → Option String × S) (admin : Bool) (t : String)
    (s : S)
    → Commutes view (seed t) s
    → Commutes view (handle_seed seed admin (some t)) s
unfolding handle_seed
seed-Commutes view seed false t s h = refl
seed-Commutes view seed true t s h = ap seeded h ∙ answer (seed t s)
  where
    answer : (x : Option String × _) → seeded (x.0, view x.1) ≡ ((seeded x).0, view (seeded x).1)
    answer (none, s') = refl
    answer (some text, s') = refl

module _ {C : Type 0} (env : Environment) (rt : Runtime C) where
  handle-Commutes :
      (calls : Calls) (action : Action) (t : String) (c : C) (s : Tables)
      → is_migration (operation_of action) ≡ false
      → Commutes (rows_of t) (handle env rt calls action (some t) c) s
  unfolding handle
  handle-Commutes calls (Action.list_job_audit_logs p) t c s h =
      rw
        (handle_list_job_audit_logs-view env.like env.text_le env.paging t _ (calls.link 0)
          s.audit_logs)
        refl
  handle-Commutes calls (Action.delete_job_audit_log id) t c s h =
      rw (delete_job_audit_log-Commutes env.no_rows_text t id (calls.link 0) s.audit_logs) refl
  handle-Commutes calls (Action.get_job_audit_log_by_id id) t c s h =
      rw (get_job_audit_log_by_id-view env.no_rows_text t id (calls.link 0) s.audit_logs) refl
  handle-Commutes calls (Action.list_jobs p) t c s h =
      rw (handle_list_jobs-view env.like env.text_le env.paging t _ (calls.link 0) s.jobs) refl
  handle-Commutes calls (Action.delete_job id) t c s h =
      rw (delete_job-Commutes env.no_rows_text t id (calls.link 0) s.jobs) refl
  handle-Commutes calls (Action.get_job_by_id id p) t c s h =
      rw (get_job_by_id-view env.no_rows_text t id (calls.link 0) s.jobs) refl
  handle-Commutes calls Action.migrate_down t c s h = ground arith
  handle-Commutes calls Action.migrate_up t c s h = ground arith
  handle-Commutes calls (Action.list_registered_jobs p) t c s h =
      rw
        (handle_list_registered_jobs-view env.like env.text_le env.paging t _ (calls.link 0)
          s.audit_logs s.registered)
        refl
  handle-Commutes calls (Action.get_registered_job id) t c s h =
      rw (get_registered_job-view env.no_rows_text t id (calls.link 0) s.registered) refl
  handle-Commutes calls (Action.update_registered_job id) t c s h =
      rw
        (update_registered_job-Commutes env.no_rows_text t id (rt.body c) (calls.link 0)
          (calls.link 1) s.registered)
        refl
  handle-Commutes calls (Action.get_job_audit_logs id p) t c s h =
      rw
        (handle_get_job_audit_logs-view env.like env.text_le env.from_timestamp env.from_text
          env.no_rows_text t id (get_query rt c) (calls.link 0) (calls.link 1) (calls.link 2)
          s.audit_logs s.registered)
        refl
  handle-Commutes calls Action.seed_reference_data t c s h =
      rw
        (seed-Commutes (rows_of t) (seed_reference_data calls.tx) (rt.is_admin c) t s
          (reference-Commutes (rows_of t) calls.tx t s))
        refl
  handle-Commutes calls Action.seed_sample_data t c s h =
      rw
        (seed-Commutes (rows_of t) (seed_sample_data calls.tx) (rt.is_admin c) t s
          (sample-Commutes (rows_of t) calls.tx t s))
        refl

  -- The tenant of the context with which the handler is called, if it is.
  abbrev pub tenant_at : Gate C → Option String
  tenant_at (stopped c) = none
  tenant_at (passed c) = rt.tenant_id c

  through-Commutes :
      (calls : Calls) (action : Action) (t : String) (gate : Gate C) (s : Tables)
      → is_migration (operation_of action) ≡ false
      → tenant_at gate ≡ some t
      → Commutes (rows_of t) (through env rt calls action gate) s
  through-Commutes calls action t (stopped c) s h e = refl
  through-Commutes calls action t (passed c) s h e = rw e (handle-Commutes calls action t c s h)

  bound-Commutes :
      (options : GinServerOptions C) (operation : Operation) (calls : Calls) (t : String) (c : C)
      (r : Result Action) (s : Tables) (e : Option String)
      → IsBinding operation e r
      → is_migration operation ≡ false
      → tenant_at (run_middlewares env rt options.middlewares c) ≡ some t
      → Commutes (rows_of t) (bound env rt options calls c r) s
  bound-Commutes options operation calls t c (err text) s p k h e = refl
  bound-Commutes options operation calls t c (ok action) s p k h e =
      through-Commutes calls action t (run_middlewares env rt options.middlewares c) s (rw k.0 h) e

  -- An operation other than a migration, in a request to which the middlewares give a tenant, answers
  -- from the rows of that tenant alone, and changes those rows as it would if there were no others:
  -- what it answers is what it answers on the tables without all other rows, and the tenant's rows are
  -- afterwards what they would be there.
  pub serve-confined :
      (options : GinServerOptions C) (operation : Operation) (calls : Calls) (c : C) (s : Tables)
      (t : String)
      → is_migration operation ≡ false
      → tenant_at (run_middlewares env rt options.middlewares c) ≡ some t
      → serve env rt options operation calls c (rows_of t s) ≡ (
        (serve env rt options operation calls c s).0,
        rows_of t (serve env rt options operation calls c s).1,
      )
  unfolding serve
  serve-confined options operation calls c s t h e =
      bound-Commutes options operation calls t c (bind env rt operation c) s
        (first_error env rt (parameters operation) c) (bind-IsBinding env rt operation c) h e
