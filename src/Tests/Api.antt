-- ===== src/Tests/Api.antt =====
-- The handlers of pkg/api at small tables.
use cron_lib.Base.{◌≡◌, refl, String, true, false, none, some, [], ◌∷◌, ne_of_test, find_where}
use cron_lib.Schema.{CronJob, CronRegisteredJob}
use cron_lib.Jobs.{Jobs}
use cron_lib.Manager.State.{answered}
use cron_lib.Execution.World.{ok}
use cron_lib.Api.{
  respond, entity, error_response, Link, RegisteredJob, delete_job, get_job_by_id,
  get_registered_job, update_registered_job,
}
use cron_lib.Api.Laws.{deletion, delete_job-get_job_by_id, update_registered_job-get_registered_job}

abbrev no_rows_text : String
no_rows_text = "no rows in result set"

abbrev link : Link
link = record { fault = answered; error = ""; now = 9 }

abbrev backup : CronJob
backup = record {
  id = 7;
  lock = "backup";
  job_name = "backup";
  status = "completed";
  last_execution_time = some 5;
  next_execution_time = none;
  locked_by = none;
  locked_at = none;
  tenant_id = "t";
  created_at = 6;
  updated_at = 6;
}

abbrev jobs : Jobs
jobs = backup ∷ []

delete_job-get_job_by_id_example :
    let (response, jobs') = delete_job no_rows_text (some "t") 7 link jobs in
    (response ≡ deletion no_rows_text (find_where (cron_lib.Jobs.has_id_in 7 "t") jobs))
    × (get_job_by_id no_rows_text (some "t") 7 link jobs'
        ≡ respond 404 (error_response no_rows_text))
    × (get_job_by_id no_rows_text (some "u") 7 link jobs'
        ≡ get_job_by_id no_rows_text (some "u") 7 link jobs)
delete_job-get_job_by_id_example =
    delete_job-get_job_by_id no_rows_text "t" "u" 7 7 link link jobs refl refl
      (ne_of_test "u" "t" refl)

-- The documentation, pkg/api/openapi/parts/jobs-id-path.yaml, says 404.
delete_missing : (delete_job no_rows_text (some "t") 8 link jobs).0.code ≡ 500
unfolding delete_job cron_lib.Jobs.delete_job
delete_missing = refl

abbrev registration : CronRegisteredJob
registration = record {
  id = 3;
  job_name = "backup";
  schedule = "@daily";
  is_long_running = true;
  is_enabled = true;
  last_registered_at = 5;
  instance_id = "i";
  tenant_id = "t";
  created_at = 5;
  updated_at = 5;
}

update_registered_job-get_registered_job_example :
    let (response, registered) =
      update_registered_job no_rows_text
        (some "t")
        3
        (ok (some false))
        link
        link
        (registration ∷ []) in
    ((j : RegisteredJob) × (response ≡ respond 200 (entity j))
      × (j.id ≡ 3)
      × (j.is_enabled ≡ false)
      × (j.updated_at ≡ 9)
      × (j.job_name ≡ "backup")
      × (j.schedule ≡ "@daily")
      × (j.is_long_running ≡ true)
      × (j.instance_id ≡ "i")
      × (j.tenant_id ≡ "t")
      × (j.created_at ≡ 5)
      × (j.last_registered_at ≡ 5))
    × (get_registered_job no_rows_text (some "t") 3 link registered ≡ response)
    × (get_registered_job no_rows_text (some "u") 3 link registered
        ≡ get_registered_job no_rows_text (some "u") 3 link (registration ∷ []))
update_registered_job-get_registered_job_example =
    update_registered_job-get_registered_job no_rows_text "t" "u" 3 3 false link link link
      (registration ∷ []) registration refl refl refl refl (ne_of_test "u" "t" refl)
