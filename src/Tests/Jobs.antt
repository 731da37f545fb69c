-- ===== src/Tests/Jobs.antt =====
-- The queries of jobs.sql.go at a small table.
use cron_lib.Base.{
  ℕ, ◌+◌, ◌≡◌, refl, String, Bool, true, Option, none, some, List, [], ◌∷◌, arith, select_where,
  count_where, length, ne_of_test,
}
use cron_lib.Schema.{CronJob, row, no_rows, too_long, varchar, minutes}
use cron_lib.Jobs.{
  Jobs, AcquireParams, CreateJobParams, acquire_job_lock_in_db, cleanup_old_tasks,
  cleanup_stale_locks, create_job, get_stale_jobs, is_running, of_tenant,
  update_job_status_to_completed,
}
use cron_lib.Jobs.Statements.{Stmt, exec, run, Timed}
use cron_lib.Jobs.Constraints.{IsKeyed, exec-IsKeyed}
use cron_lib.Jobs.Lease.{Lease, granted, lease, try_lease, acquire-try_lease}
use cron_lib.Jobs.Held.{Held}
use cron_lib.Jobs.Exclusion.{lease_excludes}
use cron_lib.Jobs.Takeover.{late_finish_frees}
use cron_lib.Jobs.Cleanup.{
  is_idle, is_expired, is_retained, cleanup_stale_locks-get_stale_jobs, cleanup_old_tasks-keeps,
}
use cron_lib.Jobs.Tenants.{exec-other_tenants}
use cron_lib.Jobs.Status.{create_job-not_leased}

-- A request by one of the instances "a", "b" and "c" for the lock "echo" of tenant "t".
abbrev request : String → ℕ → AcquireParams
request instance_id now = record {
  tenant_id = "t";
  lock = "echo";
  job_name = "echo job";
  now = now;
  next_run_time = now + minutes 1;
  instance_id = instance_id;
}

abbrev echo_row : CronJob
echo_row = record {
  id = 7;
  lock = "echo";
  job_name = "echo job";
  status = "running";
  last_execution_time = some 5;
  next_execution_time = some 60000005;
  locked_by = some "a";
  locked_at = some 5;
  tenant_id = "t";
  created_at = 6;
  updated_at = 6;
}

-- A finished job of another tenant.
abbrev old_row : CronJob
old_row = record echo_row {
  id = 3;
  tenant_id = "u";
  status = "completed";
  locked_by = none;
  locked_at = none;
}

abbrev table : Jobs
table = old_row ∷ echo_row ∷ []

acquire_fresh : acquire_job_lock_in_db 6 7 (request "a" 5) (old_row ∷ []) ≡ (row 7, table)
unfolding acquire_job_lock_in_db
acquire_fresh = refl

acquire_twice : (acquire_job_lock_in_db 9 8 (request "b" 600000005) table).0 ≡ no_rows
unfolding acquire_job_lock_in_db
acquire_twice = refl

acquire_later : (acquire_job_lock_in_db 9 8 (request "b" 600000006) table).0 ≡ row 7
unfolding acquire_job_lock_in_db
acquire_later = refl

abbrev history : List Timed
history =
    (8, Stmt.heartbeat 7 "a")
    ∷ (9, Stmt.acquire 11 (request "c" 9))
    ∷ (9, Stmt.set_completed 3)
    ∷ (10, Stmt.clean_stale "t")
    ∷ []

lease_excludes_example :
    let rows = run history (acquire_job_lock_in_db 6 7 (request "a" 5) (old_row ∷ [])).1 in
    acquire_job_lock_in_db 20 12 (request "b" 20) rows ≡ (no_rows, rows)
unfolding acquire_job_lock_in_db
lease_excludes_example =
    lease_excludes 6 7 (request "a" 5) (old_row ∷ []) 7 refl history (omega arith) 20 12
      (request "b" 20) refl refl (omega arith)

acquire-try_lease_example :
    let (reply, rows) = acquire_job_lock_in_db 9 8 (request "b" 600000006) table in
    ◌≡◌ {A = Bool × Option Lease}
      (granted reply, lease "t" "echo" rows)
      (try_lease 600000006 "b" (lease "t" "echo" table))
acquire-try_lease_example = acquire-try_lease 9 8 (request "b" 600000006) table

late_finish_frees_example :
    let (reply, taken) = acquire_job_lock_in_db 9 8 (request "b" 600000006) table in
    (reply ≡ row 7)
    × Held "t" "echo" 7 600000006 "b" taken
    × ((acquire_job_lock_in_db 10 8
          (request "c" 600000007)
          (update_job_status_to_completed 10 7 taken)).0
        ≡ row 7)
late_finish_frees_example =
    late_finish_frees "t" "echo" 9 10 8 7 5 (request "b" 600000006) (request "c" 600000007) table
      echo_row refl refl refl (omega arith) (refl, refl) (refl, refl)

table-IsKeyed : IsKeyed table
table-IsKeyed = record { ids = ((refl, tt), (tt, tt)); keys = ((refl, tt), (tt, tt)) }

exec-IsKeyed_example : IsKeyed (exec 9 (Stmt.acquire 8 (request "b" 600000006)) table)
exec-IsKeyed_example =
    exec-IsKeyed 9 (Stmt.acquire 8 (request "b" 600000006)) table (refl, (refl, tt)) table-IsKeyed

exec-other_tenants_example :
    select_where (of_tenant "u") (exec 900000006 (Stmt.clean_stale "t") table)
    ≡ select_where (of_tenant "u") table
exec-other_tenants_example =
    exec-other_tenants 900000006 (Stmt.clean_stale "t") table "t" "u" refl (ne_of_test "u" "t" refl)

stale_listed : length (get_stale_jobs 900000006 "t" table) ≡ 1
unfolding get_stale_jobs
stale_listed = refl

cleanup_stale_locks-get_stale_jobs_example :
    let cleaned = cleanup_stale_locks 900000006 "t" table in
    (get_stale_jobs 900000006 "t" cleaned ≡ [])
    × (count_where is_running cleaned + length (get_stale_jobs 900000006 "t" table)
        ≡ count_where is_running table)
    × (select_where is_idle cleaned ≡ select_where is_idle table)
cleanup_stale_locks-get_stale_jobs_example = cleanup_stale_locks-get_stale_jobs 900000006 "t" table

old_deleted : cleanup_old_tasks 604800000007 "u" table ≡ echo_row ∷ []
unfolding cleanup_old_tasks
old_deleted = refl

cleanup_old_tasks-keeps_example :
    let cleaned = cleanup_old_tasks 604800000007 "u" table in
    (select_where (is_expired 604800000007 "u") cleaned ≡ [])
    × (select_where (is_retained 604800000007 "u") cleaned
        ≡ select_where (is_retained 604800000007 "u") table)
    × (select_where is_running cleaned ≡ select_where is_running table)
    × (select_where (of_tenant "t") cleaned ≡ select_where (of_tenant "t") table)
cleanup_old_tasks-keeps_example =
    cleanup_old_tasks-keeps 604800000007 "u" "t" table (ne_of_test "t" "u" refl)

abbrev created : CreateJobParams
created = record {
  lock = "mail";
  job_name = "mail job";
  last_execution_time = none;
  next_execution_time = none;
  locked_by = some "a";
  locked_at = some 5;
  tenant_id = "t";
}

create_job-not_leased_example :
    let (reply, rows) = create_job 6 9 created table in
    ((r : CronJob) × (reply ≡ row r)
      × (r.id ≡ 9)
      × (r.status ≡ "mail job")
      × (r.locked_by ≡ some "a")
      × (r.locked_at ≡ some 5))
    × (granted (acquire_job_lock_in_db 7 10 (record (request "b" 6) { lock = "mail" }) rows).0
        ≡ true)
create_job-not_leased_example =
    create_job-not_leased 6 7 9 10 created (record (request "b" 6) { lock = "mail" }) table
      (omega arith) (ne_of_test "mail job" "running" refl) refl refl refl

-- The status is a VARCHAR(20).
create_long :
    (create_job 6 9 (record created { job_name = "mail job of the head office" }) table)
    ≡ (too_long, table)
unfolding create_job varchar
create_long = refl
