-- ===== src/Tests/Registry.antt =====
-- The queries of registered_jobs.sql.go at a small table.
use cron_lib.Base.{◌≡◌, refl, true, false, [], ◌∷◌}
use cron_lib.Schema.{CronRegisteredJob}
use cron_lib.Registry.{Registered, UpsertParams, upsert_registered_job}

abbrev params : UpsertParams
params = record {
  job_name = "echo";
  schedule = "@daily";
  is_long_running = false;
  is_enabled = true;
  instance_id = "j";
  tenant_id = "t";
}

abbrev disabled_row : CronRegisteredJob
disabled_row = record {
  id = 4;
  job_name = "echo";
  schedule = "@hourly";
  is_long_running = false;
  is_enabled = false;
  last_registered_at = 5;
  instance_id = "i";
  tenant_id = "t";
  created_at = 5;
  updated_at = 5;
}

abbrev registered : Registered
registered = disabled_row ∷ []

-- The upsert of a name that is there keeps the id and the time of creation.
upsert_known : upsert_registered_job 9 8 params registered ≡ (
  record disabled_row {
    schedule = "@daily";
    is_enabled = true;
    last_registered_at = 9;
    instance_id = "j";
    updated_at = 9;
  },
  record disabled_row {
    schedule = "@daily";
    is_enabled = true;
    last_registered_at = 9;
    instance_id = "j";
    updated_at = 9;
  }
      ∷ [],
)
unfolding upsert_registered_job
upsert_known = refl
