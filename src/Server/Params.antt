-- ===== src/Server/Params.antt =====
-- The parameters of the operations of api/openapi/cron-service.go, and how each wrapper reads them from
-- the context before it does anything else.
use Prim.Native.String.{◌++◌}
use cron_lib.Base.{ℕ, String, Option}
use cron_lib.Execution.World.{Result, ok, err}
use cron_lib.Server.Runtime.{Runtime}

pub record ListJobAuditLogsParams : Type 0 where
  pub page : Option ℕ
  pub page_size : Option ℕ
  pub sort_by : Option String
  pub order : Option String
  pub q : Option String
  pub detail : Option String

pub record ListJobsParams : Type 0 where
  pub page : Option ℕ
  pub page_size : Option ℕ
  pub sort_by : Option String
  pub order : Option String
  pub q : Option String
  pub detail : Option String
  pub lang : Option String

pub record GetJobByIdParams : Type 0 where
  pub lang : Option String

pub record ListRegisteredJobsParams : Type 0 where
  pub page : Option ℕ
  pub page_size : Option ℕ
  pub sort_by : Option String
  pub order : Option String
  pub q : Option String

pub record GetJobAuditLogsParams : Type 0 where
  pub page : Option ℕ
  pub page_size : Option ℕ
  pub sort_by : Option String
  pub order : Option String
  pub q : Option String

-- A call of a method of the ServerInterface, with its arguments besides the context.
pub data Action : Type 0 where
  list_job_audit_logs : ListJobAuditLogsParams → Action
  delete_job_audit_log : (id : ℕ) → Action
  get_job_audit_log_by_id : (id : ℕ) → Action
  list_jobs : ListJobsParams → Action
  delete_job : (id : ℕ) → Action
  get_job_by_id : (id : ℕ) → GetJobByIdParams → Action
  migrate_down : Action
  migrate_up : Action
  list_registered_jobs : ListRegisteredJobsParams → Action
  get_registered_job : (id : ℕ) → Action
  update_registered_job : (id : ℕ) → Action
  get_job_audit_logs : (id : ℕ) → GetJobAuditLogsParams → Action
  seed_reference_data : Action
  seed_sample_data : Action

infixl 5 ◌>>=◌
abbrev pub ◌>>=◌ : {A B : Type 0} → Result A → (A → Result B) → Result B
ok a >>= k = k a
err text >>= k = err text

-- `fmt.Errorf("Invalid format for parameter ...: %w", err)`
abbrev pub named : {A : Type 0} → String → Result A → Result A
named name (ok a) = ok a
named name (err text) = err ("Invalid format for parameter " ++ (name ++ (": " ++ text)))

module _ {C : Type 0} (rt : Runtime C) where
  abbrev pub int32_query : String → C → Result (Option ℕ)
  int32_query name c = named name (rt.bind_int32 name (rt.values c))

  abbrev pub string_query : String → C → Result (Option String)
  string_query name c = named name (rt.bind_string name (rt.values c))

  abbrev pub id_param : C → Result ℕ
  id_param c = named "id" (rt.bind_uuid "id" (rt.param c "id"))

  unfoldable pub bind_list_job_audit_logs : C → Result Action
  bind_list_job_audit_logs c = do
    page ← int32_query "page" c
    page_size ← int32_query "pageSize" c
    sort_by ← string_query "sortBy" c
    order ← string_query "order" c
    q ← string_query "q" c
    detail ← string_query "detail" c
    ok (
        list_job_audit_logs (record {
          page = page;
          page_size = page_size;
          sort_by = sort_by;
          order = order;
          q = q;
          detail = detail;
        }))

  unfoldable pub bind_delete_job_audit_log : C → Result Action
  bind_delete_job_audit_log c = do id ← id_param c; ok (delete_job_audit_log id)

  unfoldable pub bind_get_job_audit_log_by_id : C → Result Action
  bind_get_job_audit_log_by_id c = do id ← id_param c; ok (get_job_audit_log_by_id id)

  unfoldable pub bind_list_jobs : C → Result Action
  bind_list_jobs c = do
    page ← int32_query "page" c
    page_size ← int32_query "pageSize" c
    sort_by ← string_query "sortBy" c
    order ← string_query "order" c
    q ← string_query "q" c
    detail ← string_query "detail" c
    lang ← string_query "lang" c
    ok (
        list_jobs (record {
          page = page;
          page_size = page_size;
          sort_by = sort_by;
          order = order;
          q = q;
          detail = detail;
          lang = lang;
        }))

  unfoldable pub bind_delete_job : C → Result Action
  bind_delete_job c = do id ← id_param c; ok (delete_job id)

  unfoldable pub bind_get_job_by_id : C → Result Action
  bind_get_job_by_id c = do
    id ← id_param c
    lang ← string_query "lang" c
    ok (get_job_by_id id (record { lang = lang }))

  unfoldable pub bind_list_registered_jobs : C → Result Action
  bind_list_registered_jobs c = do
    page ← int32_query "page" c
    page_size ← int32_query "pageSize" c
    sort_by ← string_query "sortBy" c
    order ← string_query "order" c
    q ← string_query "q" c
    ok (
        list_registered_jobs
          (record { page = page; page_size = page_size; sort_by = sort_by; order = order; q = q }))

  unfoldable pub bind_get_registered_job : C → Result Action
  bind_get_registered_job c = do id ← id_param c; ok (get_registered_job id)

  unfoldable pub bind_update_registered_job : C → Result Action
  bind_update_registered_job c = do id ← id_param c; ok (update_registered_job id)

  unfoldable pub bind_get_job_audit_logs : C → Result Action
  bind_get_job_audit_logs c = do
    id ← id_param c
    page ← int32_query "page" c
    page_size ← int32_query "pageSize" c
    sort_by ← string_query "sortBy" c
    order ← string_query "order" c
    q ← string_query "q" c
    ok (
        get_job_audit_logs id
          (record { page = page; page_size = page_size; sort_by = sort_by; order = order; q = q }))
