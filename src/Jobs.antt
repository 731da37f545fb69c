-- ===== src/Jobs.antt =====
-- pkg/db/repository/jobs.sql.go: each query over `cron_jobs` as a function of the table. `now` is the
-- server's clock at the statement, and `new_id` what `gen_random_uuid()` gives to an inserted row.
--
-- The trigger `update_cron_jobs_modtime` (pkg/db/migration/000001_job_schema.up.sql) overwrites
-- `updated_at` on every UPDATE, also that of ON CONFLICT DO UPDATE.
pub mod Statements
pub mod Constraints
pub mod Lease
pub mod Held
pub mod Exclusion
pub mod Heartbeat
pub mod Takeover
pub mod Cleanup
pub mod Tenants
pub mod Status
pub mod Release
use cron_lib.Base.{
  ℕ, String, str_eq, Bool, true, false, not, ◌&&◌, ◌||◌, ◌==◌, Option, none, some, List, [], ◌∷◌,
  ◌++◌, map, select_where, find_where, update_where, delete_where, if◌then◌else◌, ltb, ◌+◌,
}
use cron_lib.Schema.{CronJob, minutes, older_than, or_no_rows, coalesce, varchar}
pub use cron_lib.Schema.{Reply, row, no_rows, unique_violation, too_long}

abbrev pub Jobs : Type 0
Jobs = List CronJob

abbrev pub is_running : CronJob → Bool
is_running r = str_eq r.status "running"

-- The columns of `cron_jobs_uniq`.
abbrev pub has_key : String → String → CronJob → Bool
has_key tenant_id lock r = str_eq r.tenant_id tenant_id && str_eq r.lock lock

abbrev pub has_id : ℕ → CronJob → Bool
has_id id r = r.id == id

abbrev pub of_tenant : String → CronJob → Bool
of_tenant tenant_id r = str_eq r.tenant_id tenant_id

abbrev pub has_id_in : ℕ → String → CronJob → Bool
has_id_in id tenant_id r = r.id == id && str_eq r.tenant_id tenant_id

pub record AcquireParams : Type 0 where
  pub tenant_id : String
  pub lock : String
  pub job_name : String
  pub now : ℕ
  pub next_run_time : ℕ
  pub instance_id : String

-- The WHERE clause of ON CONFLICT DO UPDATE.
unfoldable pub is_acquirable : ℕ → CronJob → Bool
is_acquirable now r =
    elim r.locked_at [ none ↦ true | some _ ↦ false ]
    || older_than now (minutes 10) r.locked_at
    || not (is_running r)

unfoldable pub acquired_row : ℕ → AcquireParams → CronJob → CronJob
acquired_row now p r = record r {
  status = "running";
  last_execution_time = some p.now;
  next_execution_time = some p.next_run_time;
  locked_by = some p.instance_id;
  locked_at = some p.now;
  updated_at = now;
}

unfoldable pub inserted_row : ℕ → ℕ → AcquireParams → CronJob
inserted_row now new_id p = record {
  id = new_id;
  lock = p.lock;
  job_name = p.job_name;
  status = "running";
  last_execution_time = some p.now;
  next_execution_time = some p.next_run_time;
  locked_by = some p.instance_id;
  locked_at = some p.now;
  tenant_id = p.tenant_id;
  created_at = now;
  updated_at = now;
}

abbrev keep_row : CronJob → Reply ℕ × Jobs → Reply ℕ × Jobs
keep_row r (reply, rows) = (reply, r ∷ rows)

-- INSERT ... ON CONFLICT (tenant_id, lock) DO UPDATE ... WHERE ... RETURNING id
unfoldable pub acquire_job_lock_in_db : ℕ → ℕ → AcquireParams → Jobs → Reply ℕ × Jobs
unfolding acquired_row inserted_row is_acquirable
acquire_job_lock_in_db now new_id p [] = (row new_id, inserted_row now new_id p ∷ [])
acquire_job_lock_in_db now new_id p (r ∷ rs) =
    if has_key p.tenant_id p.lock r
    then if is_acquirable p.now r then (row r.id, acquired_row now p r ∷ rs) else (no_rows, r ∷ rs)
    else keep_row r (acquire_job_lock_in_db now new_id p rs)

abbrev is_finished : CronJob → Bool
is_finished r = str_eq r.status "completed" || str_eq r.status "failed"

abbrev pub is_old : ℕ → String → CronJob → Bool
is_old now tenant_id r =
    is_finished r && ltb (r.updated_at + minutes 10080) now && of_tenant tenant_id r

unfoldable pub cleanup_old_tasks : ℕ → String → Jobs → Jobs
cleanup_old_tasks now tenant_id = delete_where (is_old now tenant_id)

abbrev pub is_stale : ℕ → String → CronJob → Bool
is_stale now tenant_id r =
    is_running r && older_than now (minutes 15) r.locked_at && of_tenant tenant_id r

-- `SET status = ..., locked_by = NULL, locked_at = NULL`
abbrev pub unlocked_row : String → ℕ → CronJob → CronJob
unlocked_row status now r = record r {
  status = status;
  locked_by = none;
  locked_at = none;
  updated_at = now;
}

unfoldable pub cleanup_stale_locks : ℕ → String → Jobs → Jobs
cleanup_stale_locks now tenant_id =
    update_where (is_stale now tenant_id) (unlocked_row "failed" now)

pub record StaleJobRow : Type 0 where
  pub id : ℕ
  pub lock : String
  pub job_name : String
  pub tenant_id : String
  pub locked_by : Option String
  pub locked_at : Option ℕ
  pub status : String

abbrev pub stale_job_row : CronJob → StaleJobRow
stale_job_row r = record {
  id = r.id;
  lock = r.lock;
  job_name = r.job_name;
  tenant_id = r.tenant_id;
  locked_by = r.locked_by;
  locked_at = r.locked_at;
  status = r.status;
}

unfoldable pub get_stale_jobs : ℕ → String → Jobs → List StaleJobRow
get_stale_jobs now tenant_id rows = map stale_job_row (select_where (is_stale now tenant_id) rows)

unfoldable pub force_unlock_job : ℕ → ℕ → String → Jobs → Jobs
force_unlock_job now job_id tenant_id =
    update_where (has_id_in job_id tenant_id) (unlocked_row "failed" now)

unfoldable pub release_task_lock : ℕ → ℕ → String → Jobs → Jobs
release_task_lock now id tenant_id =
    update_where (has_id_in id tenant_id) (unlocked_row "completed" now)

-- These two name the row by its id alone.
unfoldable pub update_job_status_to_completed : ℕ → ℕ → Jobs → Jobs
update_job_status_to_completed now job_id =
    update_where (has_id job_id) (unlocked_row "completed" now)

unfoldable pub update_job_status_to_failed : ℕ → ℕ → Jobs → Jobs
update_job_status_to_failed now job_id = update_where (has_id job_id) (unlocked_row "failed" now)

abbrev pub is_locked_by : String → CronJob → Bool
is_locked_by instance_id r = elim r.locked_by [ none ↦ false | some w ↦ str_eq w instance_id ]

abbrev pub heartbeat_row : ℕ → CronJob → CronJob
heartbeat_row now r = record r { locked_at = some now; updated_at = now }

abbrev pub beats : ℕ → String → CronJob → Bool
beats job_id instance_id r = has_id job_id r && is_locked_by instance_id r && is_running r

unfoldable pub update_job_heartbeat : ℕ → ℕ → String → Jobs → Jobs
update_job_heartbeat now job_id instance_id =
    update_where (beats job_id instance_id) (heartbeat_row now)

unfoldable pub get_job_by_id : ℕ → String → Jobs → Reply CronJob
get_job_by_id id tenant_id rows = or_no_rows (find_where (has_id_in id tenant_id) rows)

unfoldable pub delete_job : ℕ → String → Jobs → Reply ℕ × Jobs
delete_job id tenant_id rows = (
  elim (find_where (has_id_in id tenant_id) rows) [ none ↦ no_rows | some r ↦ row r.id ],
  delete_where (has_id_in id tenant_id) rows,
)

pub record IsJobLockedRow : Type 0 where
  pub id : ℕ
  pub is_locked : Bool
  pub locked_by : Option String
  pub locked_at : Option ℕ

-- `status = 'running' AND locked_at > NOW() - INTERVAL '10 minutes'`
abbrev pub is_live : ℕ → CronJob → Bool
is_live now r =
    is_running r && elim r.locked_at [ none ↦ false | some at ↦ ltb now (at + minutes 10) ]

abbrev lock_row : ℕ → CronJob → IsJobLockedRow
lock_row now r = record {
  id = r.id;
  is_locked = is_live now r;
  locked_by = r.locked_by;
  locked_at = r.locked_at;
}

unfoldable pub is_job_locked : ℕ → String → String → Jobs → Reply IsJobLockedRow
is_job_locked now tenant_id lock rows = elim (find_where (has_key tenant_id lock) rows) [
  | none ↦ no_rows
  | some r ↦ row (lock_row now r)
]

pub record CreateJobParams : Type 0 where
  pub lock : String
  pub job_name : String
  pub last_execution_time : Option ℕ
  pub next_execution_time : Option ℕ
  pub locked_by : Option String
  pub locked_at : Option ℕ
  pub tenant_id : String

abbrev pub created_row : ℕ → ℕ → String → CreateJobParams → CronJob
created_row now new_id status p = record {
  id = new_id;
  lock = p.lock;
  job_name = p.job_name;
  status = status;
  last_execution_time = p.last_execution_time;
  next_execution_time = p.next_execution_time;
  locked_by = p.locked_by;
  locked_at = p.locked_at;
  tenant_id = p.tenant_id;
  created_at = now;
  updated_at = now;
}

unfoldable pub insert_job : ℕ → ℕ → String → CreateJobParams → Jobs → Reply CronJob × Jobs
insert_job now new_id status p rows = elim (find_where (has_key p.tenant_id p.lock) rows) [
  | none ↦ (row (created_row now new_id status p), rows ++ created_row now new_id status p ∷ [])
  | some _ ↦ (unique_violation, rows)
]

-- `VALUES ($1, $2, $7, $2, $3, ...)`: the status, a VARCHAR(20), is the parameter of the job's name.
unfoldable pub create_job : ℕ → ℕ → CreateJobParams → Jobs → Reply CronJob × Jobs
create_job now new_id p rows = elim (varchar 20 p.job_name) [
  | none ↦ (too_long, rows)
  | some status ↦ insert_job now new_id status p rows
]

pub record UpdateJobParams : Type 0 where
  pub id : ℕ
  pub lock : String
  pub job_name : String
  pub status : String
  pub last_execution_time : Option ℕ
  pub next_execution_time : Option ℕ
  pub locked_by : Option String
  pub locked_at : Option ℕ
  pub tenant_id : String

abbrev pub updated_row : ℕ → UpdateJobParams → CronJob → CronJob
updated_row now p r = record r {
  lock = p.lock;
  job_name = p.job_name;
  status = p.status;
  last_execution_time = coalesce p.last_execution_time r.last_execution_time;
  next_execution_time = coalesce p.next_execution_time r.next_execution_time;
  locked_by = coalesce p.locked_by r.locked_by;
  locked_at = coalesce p.locked_at r.locked_at;
  updated_at = now;
}

-- A row other than the updated one that holds the new key.
abbrev pub clashes : UpdateJobParams → CronJob → Bool
clashes p r = has_key p.tenant_id p.lock r && not (r.id == p.id)

unfoldable pub write_job : ℕ → UpdateJobParams → Jobs → Reply CronJob × Jobs
write_job now p rows = elim (find_where (has_id_in p.id p.tenant_id) rows) [
  | none ↦ (no_rows, rows)
  | some r ↦ elim (find_where (clashes p) rows) [
    | some _ ↦ (unique_violation, rows)
    | none ↦ (
      row (updated_row now p r),
      update_where (has_id_in p.id p.tenant_id) (updated_row now p) rows,
    )
  ]
]

-- The status is a VARCHAR(20).
unfoldable pub update_job : ℕ → UpdateJobParams → Jobs → Reply CronJob × Jobs
update_job now p rows = elim (find_where (has_id_in p.id p.tenant_id) rows) [
  | none ↦ (no_rows, rows)
  | some _ ↦ elim (varchar 20 p.status) [
    | none ↦ (too_long, rows)
    | some status ↦ write_job now (record p { status = status }) rows
  ]
]
