-- ===== src/Api.antt =====
-- The handlers of pkg/api that read or change one row: job_handler.go, job_audit_log_handler.go and
-- registered_job_handler.go. A handler is a function of what the request gives it, of how its calls
-- of the database end, and of the table.
pub mod Laws
use Prim.Native.String.{◌++◌}
use cron_lib.Base.{ℕ, String, str_eq, Bool, true, false, Option, none, some, if◌then◌else◌}
use cron_lib.Schema.{
  CronJob, CronJobAuditLog, CronRegisteredJob, Reply, row, no_rows, unique_violation, too_long,
}
use cron_lib.Jobs.{Jobs}
use cron_lib.Audit.{AuditLogs}
use cron_lib.Registry.{Registered, update_registered_job_enabled, get_registered_job_by_id}
use cron_lib.Manager.State.{Fault, answered, lost, refused}
use cron_lib.Execution.World.{Result, ok, err}

-- What is sent as the body: nothing; `{}`, which is how an `errors.New` is encoded; what the library
-- function helpers.ErrorResponse makes of an error; `{"error": text}`; or a row.
pub data Body {ℓ} (A : Type ℓ) : Type ℓ where
  no_body empty_object : Body A
  error_response error_text : String → Body A
  entity : A → Body A

pub record Response {ℓ} (A : Type ℓ) : Type ℓ where
  pub code : ℕ
  pub body : Body A

abbrev pub respond {ℓ} : {A : Type ℓ} → ℕ → Body A → Response A
respond code body = record { code = code; body = body }

-- How a call of the database ends, the text of its error if it fails, and the server's time.
pub record Link : Type 0 where
  pub fault : Fault
  pub error : String
  pub now : ℕ

-- The `api.RegisteredJob` of a row: its fields, without the description, which is never set.
pub record RegisteredJob : Type 0 where
  pub created_at : ℕ
  pub description : Option String
  pub id : ℕ
  pub instance_id : String
  pub is_enabled : Bool
  pub is_long_running : Bool
  pub job_name : String
  pub last_registered_at : ℕ
  pub schedule : String
  pub tenant_id : String
  pub updated_at : ℕ

abbrev pub api_job : CronRegisteredJob → RegisteredJob
api_job r = record {
  created_at = r.created_at;
  description = none;
  id = r.id;
  instance_id = r.instance_id;
  is_enabled = r.is_enabled;
  is_long_running = r.is_long_running;
  job_name = r.job_name;
  last_registered_at = r.last_registered_at;
  schedule = r.schedule;
  tenant_id = r.tenant_id;
  updated_at = r.updated_at;
}

-- The parameter is `pgx.ErrNoRows.Error()`.
module _ (no_rows_text : String) where
  abbrev pub of_reply : {A : Type 0} → Link → Reply A → Result A
  of_reply link (row a) = ok a
  of_reply link no_rows = err no_rows_text
  of_reply link unique_violation = err link.error
  of_reply link too_long = err link.error

  abbrev pub settled : {S A : Type 0} → Link → Fault → S → Reply A × S → Result A × S
  settled link answered old (reply, new) = (of_reply link reply, new)
  settled link lost old (reply, new) = (err link.error, new)
  settled link refused old (reply, new) = (err link.error, old)

  -- A statement on a table over a link, and one that only reads.
  abbrev pub over : {S A : Type 0} → Link → (S → Reply A × S) → S → Result A × S
  over link statement old = settled link link.fault old (statement old)

  abbrev pub read : {S A : Type 0} → Link → (S → Reply A) → S → Result A
  read link query table = (over link (λ s. (query s, s)) table).0

  abbrev pub tenant_missing : {A : Type 0} → Response A
  tenant_missing = respond 500 empty_object

  abbrev pub deleted : {S : Type 0} → Result ℕ × S → Response ℕ × S
  deleted (ok id, table) = (respond 204 no_body, table)
  deleted (err text, table) = (respond 500 (error_response text), table)

  abbrev pub fetched : {A : Type 0} → Result A → Response A
  fetched (ok a) = respond 200 (entity a)
  fetched (err text) =
      if str_eq text no_rows_text
      then respond 404 (error_response text)
      else respond 500 (error_response text)

  -- CronHandler.DeleteJob
  unfoldable pub delete_job : Option String → ℕ → Link → Jobs → Response ℕ × Jobs
  delete_job none id link jobs = (tenant_missing, jobs)
  delete_job (some tenant_id) id link jobs =
      deleted (over link (cron_lib.Jobs.delete_job id tenant_id) jobs)

  -- CronHandler.GetJobByID
  unfoldable pub get_job_by_id : Option String → ℕ → Link → Jobs → Response CronJob
  get_job_by_id none id link jobs = tenant_missing
  get_job_by_id (some tenant_id) id link jobs =
      fetched (read link (cron_lib.Jobs.get_job_by_id id tenant_id) jobs)

  -- JobAuditLogHandler.DeleteJobAuditLog
  unfoldable pub delete_job_audit_log :
      Option String → ℕ → Link → AuditLogs → Response ℕ × AuditLogs
  delete_job_audit_log none id link logs = (tenant_missing, logs)
  delete_job_audit_log (some tenant_id) id link logs =
      deleted (over link (cron_lib.Audit.delete_job_audit_log id tenant_id) logs)

  -- JobAuditLogHandler.GetJobAuditLogByID
  unfoldable pub get_job_audit_log_by_id :
      Option String → ℕ → Link → AuditLogs → Response CronJobAuditLog
  get_job_audit_log_by_id none id link logs = tenant_missing
  get_job_audit_log_by_id (some tenant_id) id link logs =
      fetched (read link (cron_lib.Audit.get_job_audit_log_by_id id tenant_id) logs)

  -- Any error of this read is answered as a missing job.
  abbrev pub shown : Result CronRegisteredJob → Response RegisteredJob
  shown (ok r) = respond 200 (entity (api_job r))
  shown (err _) = respond 404 (error_text "job not found")

  -- RegisteredJobHandler.GetRegisteredJob
  unfoldable pub get_registered_job : Option String → ℕ → Link → Registered → Response RegisteredJob
  get_registered_job none job_id link registered = tenant_missing
  get_registered_job (some tenant_id) job_id link registered =
      shown (read link (get_registered_job_by_id job_id tenant_id) registered)

  abbrev pub then_shown :
      String → ℕ → Link → Result (Unit {0}) × Registered → Response RegisteredJob × Registered
  then_shown tenant_id job_id link (err text, registered) =
      (respond 500 (error_text text), registered)
  then_shown tenant_id job_id link (ok _, registered) =
      (shown (read link (get_registered_job_by_id job_id tenant_id) registered), registered)

  -- RegisteredJobHandler.UpdateRegisteredJob. The request's body is an error of the JSON binding, or an
  -- object that has the flag or leaves it out; the two links are those of the update and of the read.
  unfoldable pub update_registered_job :
      Option String
      → ℕ
      → Result (Option Bool)
      → Link
      → Link
      → Registered
      → Response RegisteredJob × Registered
  update_registered_job none job_id body first second registered = (tenant_missing, registered)
  update_registered_job (some tenant_id) job_id (err text) first second registered =
      (respond 400 (error_text text), registered)
  update_registered_job (some tenant_id) job_id (ok none) first second registered =
      then_shown tenant_id job_id second (ok tt, registered)
  update_registered_job (some tenant_id) job_id (ok (some is_enabled)) first second registered =
      then_shown tenant_id job_id second (
        over first
          (λ rows.
            (row tt, update_registered_job_enabled first.now is_enabled job_id tenant_id rows))
          registered)
