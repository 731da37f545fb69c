-- ===== src/Jobs/Statements.antt =====
-- The statements of jobs.sql.go that change `cron_jobs`, and histories of them. Each statement is one
-- transaction, so any interleaving of the instances of the program is a sequence of statements.
use cron_lib.Base.{ℕ, String, List, [], ◌∷◌}
use cron_lib.Jobs.{
  Jobs, AcquireParams, CreateJobParams, UpdateJobParams, acquire_job_lock_in_db, cleanup_old_tasks,
  cleanup_stale_locks, force_unlock_job, release_task_lock, update_job_status_to_completed,
  update_job_status_to_failed, update_job_heartbeat, delete_job, create_job, update_job,
}

-- An inserting statement carries the id that the row would get.
pub data Stmt : Type 0 where
  acquire : ℕ → AcquireParams → Stmt
  create : ℕ → CreateJobParams → Stmt
  update : UpdateJobParams → Stmt
  delete force_unlock release_task : ℕ → String → Stmt
  set_completed set_failed : ℕ → Stmt
  heartbeat : ℕ → String → Stmt
  clean_old clean_stale : String → Stmt

unfoldable pub exec : ℕ → Stmt → Jobs → Jobs
exec now (acquire new_id p) rows = (acquire_job_lock_in_db now new_id p rows).1
exec now (create new_id p) rows = (create_job now new_id p rows).1
exec now (update p) rows = (update_job now p rows).1
exec now (delete id tenant_id) rows = (delete_job id tenant_id rows).1
exec now (force_unlock id tenant_id) rows = force_unlock_job now id tenant_id rows
exec now (release_task id tenant_id) rows = release_task_lock now id tenant_id rows
exec now (set_completed id) rows = update_job_status_to_completed now id rows
exec now (set_failed id) rows = update_job_status_to_failed now id rows
exec now (heartbeat id instance_id) rows = update_job_heartbeat now id instance_id rows
exec now (clean_old tenant_id) rows = cleanup_old_tasks now tenant_id rows
exec now (clean_stale tenant_id) rows = cleanup_stale_locks now tenant_id rows

-- A statement with the server's time at which it runs.
abbrev pub Timed : Type 0
Timed = ℕ × Stmt

unfoldable pub run : List Timed → Jobs → Jobs
run [] rows = rows
run ((now, stmt) ∷ later) rows = run later (exec now stmt rows)
