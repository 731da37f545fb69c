-- ===== src/Server/Handlers.antt =====
-- The ServerInterface of api/openapi/cron-service.go as CronHandler of pkg/api/cron_handler.go implements
-- it: each method is the handler that it embeds, on the tables of the database.
use cron_lib.Base.{ℕ, String, Bool, Option, List}
use cron_lib.Schema.{CronJob, CronJobAuditLog}
use cron_lib.Jobs.{Jobs}
use cron_lib.Audit.{AuditLogs}
use cron_lib.Registry.{Registered}
use cron_lib.Api.{
  Body, no_body, empty_object, error_response, error_text, entity, Response, respond, Link,
  RegisteredJob, delete_job, get_job_by_id, delete_job_audit_log, get_job_audit_log_by_id,
  get_registered_job, update_registered_job,
}
use cron_lib.Lists.Handlers.{
  ListRequest, PagingRequest, PagingSql, Listing, handle_list_jobs, handle_list_job_audit_logs,
  handle_list_registered_jobs,
}
use cron_lib.History.{JobAuditLog, Handled, handle_get_job_audit_logs}
use cron_lib.Store.{TxCalls, handle_seed, seed_reference_data, seed_sample_data}
use cron_lib.Migrations.{handle_migrate_up, handle_migrate_down}
use cron_lib.Server.Runtime.{Runtime, get_query}
use cron_lib.Server.Params.{
  Action, ListJobAuditLogsParams, ListJobsParams, ListRegisteredJobsParams,
}

pub record Tables : Type 0 where
  pub jobs : Jobs
  pub audit_logs : AuditLogs
  pub registered : Registered

-- What the handlers take from libraries and from PostgreSQL.
pub record Environment : Type 0 where
  pub like : String → String → Bool
  pub text_le : String → String → Bool
  pub no_rows_text : String
  pub paging : PagingRequest → PagingSql
  pub from_timestamp : Option ℕ → Option ℕ
  pub from_text : Option String → Option String
  pub up : Tables → Option String × Tables
  pub down : Tables → Option String × Tables

-- How the calls of the database of one request end.
pub record Calls : Type 0 where
  pub link : ℕ → Link
  pub tx : TxCalls

-- What is sent: `{"msg": text}`, or what a handler sends.
pub data Payload : Type 0 where
  msg : String → Payload
  none_sent : Payload
  deleted_id : ℕ → Payload
  job : CronJob → Payload
  jobs : Listing CronJob → Payload
  log : CronJobAuditLog → Payload
  logs : Listing CronJobAuditLog → Payload
  registered_job : RegisteredJob → Payload
  registered_jobs : List RegisteredJob → Payload
  history : Option (List JobAuditLog) → Payload

-- How a request ends: a middleware has aborted it and left its context, or it is responded to, or the
-- handler panics.
pub data Answer (C : Type 0) : Type 0 where
  aborted : C → Answer C
  responds : Response Payload → Answer C
  panics : Answer C

abbrev pub sent_body : {A : Type 0} → (A → Payload) → Body A → Body Payload
sent_body f no_body = no_body
sent_body f empty_object = empty_object
sent_body f (error_response text) = error_response text
sent_body f (error_text text) = error_text text
sent_body f (entity a) = entity (f a)

abbrev pub jobs_request : ListJobsParams → ListRequest
jobs_request p = record {
  page = p.page;
  page_size = p.page_size;
  sort_by = p.sort_by;
  order = p.order;
  q = p.q;
  detail = p.detail;
}

abbrev pub logs_request : ListJobAuditLogsParams → ListRequest
logs_request p = record {
  page = p.page;
  page_size = p.page_size;
  sort_by = p.sort_by;
  order = p.order;
  q = p.q;
  detail = p.detail;
}

abbrev pub registered_request : ListRegisteredJobsParams → ListRequest
registered_request p = record {
  page = p.page;
  page_size = p.page_size;
  sort_by = p.sort_by;
  order = p.order;
  q = p.q;
  detail = Option.none;
}

module _ {C : Type 0} where
  abbrev pub sent : {A : Type 0} → (A → Payload) → Response A → Answer C
  sent f r = responds (respond r.code (sent_body f r.body))

  -- A handler that only reads, and one that changes a table.
  abbrev pub reads : {A : Type 0} → (A → Payload) → Response A → Tables → Answer C × Tables
  reads f r s = (sent f r, s)

  abbrev pub changes :
      {A T : Type 0} → (A → Payload) → (T → Tables) → Response A × T → Answer C × Tables
  changes f put (r, table) = (sent f r, put table)

  abbrev pub sent_history : Handled (Option (List JobAuditLog)) → Answer C
  sent_history (Handled.responds r) = sent history r
  sent_history Handled.panics = panics

  module _ (env : Environment) (rt : Runtime C) where
    -- A call of a method with the tenant of the context, on the context and the tables.
    unfoldable pub handle : Calls → Action → Option String → C → Tables → Answer C × Tables
    handle calls (Action.list_job_audit_logs p) tenant c s =
        reads logs
          (handle_list_job_audit_logs env.like env.text_le env.paging tenant (logs_request p)
            (calls.link 0) s.audit_logs)
          s
    handle calls (Action.delete_job_audit_log id) tenant c s =
        changes deleted_id (λ t. record s { audit_logs = t })
          (delete_job_audit_log env.no_rows_text tenant id (calls.link 0) s.audit_logs)
    handle calls (Action.get_job_audit_log_by_id id) tenant c s =
        reads log (get_job_audit_log_by_id env.no_rows_text tenant id (calls.link 0) s.audit_logs) s
    handle calls (Action.list_jobs p) tenant c s =
        reads jobs
          (handle_list_jobs env.like env.text_le env.paging tenant (jobs_request p) (calls.link 0)
            s.jobs)
          s
    handle calls (Action.delete_job id) tenant c s =
        changes deleted_id (λ t. record s { jobs = t })
          (delete_job env.no_rows_text tenant id (calls.link 0) s.jobs)
    handle calls (Action.get_job_by_id id p) tenant c s =
        reads job (get_job_by_id env.no_rows_text tenant id (calls.link 0) s.jobs) s
    handle calls Action.migrate_down tenant c s =
        changes (λ _. none_sent) (λ t. t) (handle_migrate_down env.down (rt.is_super_admin c) s)
    handle calls Action.migrate_up tenant c s =
        changes (λ _. none_sent) (λ t. t) (handle_migrate_up env.up (rt.is_super_admin c) s)
    handle calls (Action.list_registered_jobs p) tenant c s =
        reads registered_jobs
          (handle_list_registered_jobs env.like env.text_le env.paging tenant (registered_request p)
            (calls.link 0) s.audit_logs s.registered)
          s
    handle calls (Action.get_registered_job id) tenant c s =
        reads registered_job
          (get_registered_job env.no_rows_text tenant id (calls.link 0) s.registered) s
    handle calls (Action.update_registered_job id) tenant c s =
        changes registered_job (λ t. record s { registered = t })
          (update_registered_job env.no_rows_text tenant id (rt.body c) (calls.link 0)
            (calls.link 1) s.registered)
    handle calls (Action.get_job_audit_logs id p) tenant c s = (
      sent_history (
          handle_get_job_audit_logs env.from_timestamp env.from_text env.like env.text_le
            env.no_rows_text tenant id (get_query rt c) (calls.link 0) (calls.link 1) (calls.link 2)
            s.audit_logs s.registered),
      s,
    )
    handle calls Action.seed_reference_data tenant c s =
        changes (λ _. none_sent) (λ t. t)
          (handle_seed (seed_reference_data calls.tx) (rt.is_admin c) tenant s)
    handle calls Action.seed_sample_data tenant c s =
        changes (λ _. none_sent) (λ t. t)
          (handle_seed (seed_sample_data calls.tx) (rt.is_admin c) tenant s)
