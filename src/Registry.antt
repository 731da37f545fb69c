-- ===== src/Registry.antt =====
-- pkg/db/repository/registered_jobs.sql.go: the queries over `cron_registered_jobs` that change it or
-- read one row. `now` is the server's clock, `new_id` the id of an inserted row; the trigger
-- `update_cron_registered_jobs_modtime` sets `updated_at` on every UPDATE.
pub mod Laws
use cron_lib.Base.{
  ℕ, ◌+◌, String, str_eq, Bool, ◌&&◌, ◌==◌, List, [], ◌∷◌, find_where, update_where, delete_where,
  if◌then◌else◌, ltb,
}
use cron_lib.Schema.{CronRegisteredJob, minutes, Reply, row, or_no_rows}

abbrev pub Registered : Type 0
Registered = List CronRegisteredJob

-- The columns of `cron_registered_jobs_uniq`.
abbrev pub has_name : String → String → CronRegisteredJob → Bool
has_name tenant_id job_name r = str_eq r.tenant_id tenant_id && str_eq r.job_name job_name

abbrev pub has_id_in : ℕ → String → CronRegisteredJob → Bool
has_id_in id tenant_id r = r.id == id && str_eq r.tenant_id tenant_id

pub record UpsertParams : Type 0 where
  pub job_name : String
  pub schedule : String
  pub is_long_running : Bool
  pub is_enabled : Bool
  pub instance_id : String
  pub tenant_id : String

abbrev pub registered_row : ℕ → UpsertParams → CronRegisteredJob → CronRegisteredJob
registered_row now p r = record r {
  schedule = p.schedule;
  is_long_running = p.is_long_running;
  is_enabled = p.is_enabled;
  last_registered_at = now;
  instance_id = p.instance_id;
  updated_at = now;
}

abbrev pub new_row : ℕ → ℕ → UpsertParams → CronRegisteredJob
new_row now new_id p = record {
  id = new_id;
  job_name = p.job_name;
  schedule = p.schedule;
  is_long_running = p.is_long_running;
  is_enabled = p.is_enabled;
  last_registered_at = now;
  instance_id = p.instance_id;
  tenant_id = p.tenant_id;
  created_at = now;
  updated_at = now;
}

abbrev keep_row :
    CronRegisteredJob → CronRegisteredJob × Registered → CronRegisteredJob × Registered
keep_row r (result, rows) = (result, r ∷ rows)

-- INSERT ... ON CONFLICT (tenant_id, job_name) DO UPDATE ... RETURNING *
unfoldable pub upsert_registered_job :
    ℕ → ℕ → UpsertParams → Registered → CronRegisteredJob × Registered
upsert_registered_job now new_id p [] = (new_row now new_id p, new_row now new_id p ∷ [])
upsert_registered_job now new_id p (r ∷ rs) =
    if has_name p.tenant_id p.job_name r
    then (registered_row now p r, registered_row now p r ∷ rs)
    else keep_row r (upsert_registered_job now new_id p rs)

unfoldable pub delete_registered_job : String → String → Registered → Registered
delete_registered_job job_name tenant_id = delete_where (has_name tenant_id job_name)

-- `last_registered_at < NOW() - INTERVAL '24 hours'`
abbrev pub is_outdated : ℕ → String → CronRegisteredJob → Bool
is_outdated now tenant_id r =
    ltb (r.last_registered_at + minutes 1440) now && str_eq r.tenant_id tenant_id

unfoldable pub cleanup_stale_registered_jobs : ℕ → String → Registered → Registered
cleanup_stale_registered_jobs now tenant_id = delete_where (is_outdated now tenant_id)

abbrev pub enabled_row : ℕ → Bool → CronRegisteredJob → CronRegisteredJob
enabled_row now is_enabled r = record r { is_enabled = is_enabled; updated_at = now }

unfoldable pub update_registered_job_enabled : ℕ → Bool → ℕ → String → Registered → Registered
update_registered_job_enabled now is_enabled id tenant_id =
    update_where (has_id_in id tenant_id) (enabled_row now is_enabled)

unfoldable pub get_registered_job_by_id : ℕ → String → Registered → Reply CronRegisteredJob
get_registered_job_by_id id tenant_id rows = or_no_rows (find_where (has_id_in id tenant_id) rows)
