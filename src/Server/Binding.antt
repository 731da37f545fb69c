-- ===== src/Server/Binding.antt =====
-- The parameters that the wrapper of each operation binds, and the method that it calls.
use cron_lib.Base.{String, arith, ◌≡◌, refl, Bool, true, false, Option, none, some, List, [], ◌∷◌}
use cron_lib.Execution.World.{Result, ok, err}
use cron_lib.Server.Runtime.{Runtime}
use cron_lib.Server.Params.{
  Action, int32_query, string_query, id_param, bind_list_job_audit_logs, bind_delete_job_audit_log,
  bind_get_job_audit_log_by_id, bind_list_jobs, bind_delete_job, bind_get_job_by_id,
  bind_list_registered_jobs, bind_get_registered_job, bind_update_registered_job,
  bind_get_job_audit_logs,
}
use cron_lib.Server.Routes.{Operation}
use cron_lib.Server.Handlers.{Environment}
use cron_lib.Server.Wrapper.{bind}

abbrev pub operation_of : Action → Operation
operation_of (Action.list_job_audit_logs p) = Operation.list_job_audit_logs
operation_of (Action.delete_job_audit_log id) = Operation.delete_job_audit_log
operation_of (Action.get_job_audit_log_by_id id) = Operation.get_job_audit_log_by_id
operation_of (Action.list_jobs p) = Operation.list_jobs
operation_of (Action.delete_job id) = Operation.delete_job
operation_of (Action.get_job_by_id id p) = Operation.get_job_by_id
operation_of Action.migrate_down = Operation.migrate_down
operation_of Action.migrate_up = Operation.migrate_up
operation_of (Action.list_registered_jobs p) = Operation.list_registered_jobs
operation_of (Action.get_registered_job id) = Operation.get_registered_job
operation_of (Action.update_registered_job id) = Operation.update_registered_job
operation_of (Action.get_job_audit_logs id p) = Operation.get_job_audit_logs
operation_of Action.seed_reference_data = Operation.seed_reference_data
operation_of Action.seed_sample_data = Operation.seed_sample_data

-- The migrations are those of the whole database.
abbrev pub is_migration : Operation → Bool
is_migration Operation.migrate_up = true
is_migration Operation.migrate_down = true
is_migration _ = false

-- A parameter of an operation: the id in the path, or a number or a text of the query.
pub data Parameter : Type 0 where
  path_id : Parameter
  int_query text_query : String → Parameter

-- The parameters of the operations in the files of pkg/api/openapi, in their order.
abbrev pub listing : List Parameter → List Parameter
listing ps =
    int_query "page"
    ∷ int_query "pageSize"
    ∷ text_query "sortBy"
    ∷ text_query "order"
    ∷ text_query "q"
    ∷ ps

abbrev pub parameters : Operation → List Parameter
parameters Operation.list_job_audit_logs = listing (text_query "detail" ∷ [])
parameters Operation.list_jobs = listing (text_query "detail" ∷ text_query "lang" ∷ [])
parameters Operation.list_registered_jobs = listing []
parameters Operation.get_job_audit_logs = path_id ∷ listing []
parameters Operation.get_job_by_id = path_id ∷ text_query "lang" ∷ []
parameters Operation.delete_job_audit_log = path_id ∷ []
parameters Operation.get_job_audit_log_by_id = path_id ∷ []
parameters Operation.delete_job = path_id ∷ []
parameters Operation.get_registered_job = path_id ∷ []
parameters Operation.update_registered_job = path_id ∷ []
parameters Operation.migrate_down = []
parameters Operation.migrate_up = []
parameters Operation.seed_reference_data = []
parameters Operation.seed_sample_data = []

-- The error of the first of two steps, or else of the second.
abbrev pub error_or : {A : Type 0} → Result A → Option String → Option String
error_or (ok a) rest = rest
error_or (err text) rest = some text

-- With no error, a call of the operation's own method; with an error, that one.
abbrev pub IsBinding : Operation → Option String → Result Action → Type 0
IsBinding operation e (ok action) = (operation_of action ≡ operation) × (e ≡ none)
IsBinding operation e (err text) = e ≡ some text

module _ {C : Type 0} (env : Environment) (rt : Runtime C) where
  -- The error of the first parameter that does not bind.
  abbrev pub first_error : List Parameter → C → Option String
  first_error [] c = none
  first_error (path_id ∷ ps) c = error_or (id_param rt c) (first_error ps c)
  first_error (int_query name ∷ ps) c = error_or (int32_query rt name c) (first_error ps c)
  first_error (text_query name ∷ ps) c = error_or (string_query rt name c) (first_error ps c)

  pub bind-IsBinding :
      (operation : Operation) (c : C)
      → IsBinding operation (first_error (parameters operation) c) (bind env rt operation c)
  unfolding bind bind_list_job_audit_logs bind_delete_job_audit_log bind_get_job_audit_log_by_id
      bind_list_jobs bind_delete_job bind_get_job_by_id bind_list_registered_jobs
      bind_get_registered_job bind_update_registered_job bind_get_job_audit_logs
  bind-IsBinding Operation.list_job_audit_logs c = ground arith
  bind-IsBinding Operation.delete_job_audit_log c = ground arith
  bind-IsBinding Operation.get_job_audit_log_by_id c = ground arith
  bind-IsBinding Operation.list_jobs c = ground arith
  bind-IsBinding Operation.delete_job c = ground arith
  bind-IsBinding Operation.get_job_by_id c = ground arith
  bind-IsBinding Operation.migrate_down c = (refl, refl)
  bind-IsBinding Operation.migrate_up c = (refl, refl)
  bind-IsBinding Operation.list_registered_jobs c = ground arith
  bind-IsBinding Operation.get_registered_job c = ground arith
  bind-IsBinding Operation.update_registered_job c = ground arith
  bind-IsBinding Operation.get_job_audit_logs c = ground arith
  bind-IsBinding Operation.seed_reference_data c = (refl, refl)
  bind-IsBinding Operation.seed_sample_data c = (refl, refl)
