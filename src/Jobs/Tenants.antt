-- ===== src/Jobs/Tenants.antt =====
-- The tenants that the statements of jobs.sql.go name.
use cron_lib.Base.{
  find_where, Option-cases, inl, inr, refl, ℕ, ◌≡◌, ◌≢◌, String, eq_iff, Bool, true, false, Option,
  none, some, [], ◌∷◌, ◌++◌, arith, select_where, update_where, select-update_frame,
  select-delete_frame,
}
use cron_lib.Schema.{CronJob}
use cron_lib.Schema.{varchar}
use cron_lib.Jobs.{
  Jobs, AcquireParams, CreateJobParams, UpdateJobParams, of_tenant, has_id_in, is_old, is_stale,
  unlocked_row, updated_row, created_row, acquired_row, inserted_row, acquire_job_lock_in_db,
  create_job, insert_job, update_job, write_job, delete_job, force_unlock_job, release_task_lock,
  cleanup_old_tasks, cleanup_stale_locks,
}
use cron_lib.Jobs.Statements.{Stmt, exec}

-- The tenant that a statement names, if it names one.
abbrev pub scope : Stmt → Option String
scope (Stmt.acquire new_id p) = some p.tenant_id
scope (Stmt.create new_id p) = some p.tenant_id
scope (Stmt.update p) = some p.tenant_id
scope (Stmt.delete id t) = some t
scope (Stmt.force_unlock id t) = some t
scope (Stmt.release_task id t) = some t
scope (Stmt.set_completed id) = none
scope (Stmt.set_failed id) = none
scope (Stmt.heartbeat id w) = none
scope (Stmt.clean_old t) = some t
scope (Stmt.clean_stale t) = some t

module _ (u : String) where
  others : Jobs → Jobs
  others rows = select_where (of_tenant u) rows

  acquire-others :
      (now new_id : ℕ) (p : AcquireParams) (rows : Jobs)
      → u ≢ p.tenant_id
      → others (acquire_job_lock_in_db now new_id p rows).1 ≡ others rows
  unfolding acquire_job_lock_in_db acquired_row inserted_row others
  acquire-others now new_id p [] ne = ground (arith, eq_iff p.tenant_id u)
  acquire-others now new_id p (r ∷ rs) ne = ground (
    arith,
    acquire-others now new_id p rs ne,
    eq_iff r.tenant_id u,
    eq_iff r.tenant_id p.tenant_id,
  )

  snoc-others :
      (rows : Jobs) (x : CronJob) → of_tenant u x ≡ false → others (rows ++ x ∷ []) ≡ others rows
  unfolding others
  snoc-others [] x h = ground arith
  snoc-others (r ∷ rs) x h = ground (arith, snoc-others rs x h)

  insert-others :
      (now new_id : ℕ) (status : String) (p : CreateJobParams) (rows : Jobs)
      → u ≢ p.tenant_id
      → others (insert_job now new_id status p rows).1 ≡ others rows
  unfolding insert_job
  insert-others now new_id status p rows ne =
      ground (arith, eq_iff p.tenant_id u, snoc-others rows (created_row now new_id status p))

  create-others :
      (now new_id : ℕ) (p : CreateJobParams) (rows : Jobs)
      → u ≢ p.tenant_id
      → others (create_job now new_id p rows).1 ≡ others rows
  unfolding create_job
  create-others now new_id p rows ne = elim (Option-cases (varchar 20 p.job_name)) [
    | inl e ↦ rw (e, create_job) refl
    | inr (status, e) ↦ rw (e, create_job) (insert-others now new_id status p rows ne)
  ]

  in_tenant :
      (id : ℕ) (t : String) (r : CronJob) → u ≢ t → has_id_in id t r ≡ true → of_tenant u r ≡ false
  in_tenant id t r ne h = ground (arith, eq_iff r.tenant_id t, eq_iff r.tenant_id u)

  write-others :
      (now : ℕ) (p : UpdateJobParams) (rows : Jobs)
      → u ≢ p.tenant_id
      → others (write_job now p rows).1 ≡ others rows
  unfolding write_job others
  write-others now p rows ne = ground (
    arith,
    select-update_frame (of_tenant u) (has_id_in p.id p.tenant_id) (updated_row now p) rows
        (λ r. in_tenant p.id p.tenant_id r ne) (λ r. in_tenant p.id p.tenant_id r ne),
  )

  update-others :
      (now : ℕ) (p : UpdateJobParams) (rows : Jobs)
      → u ≢ p.tenant_id
      → others (update_job now p rows).1 ≡ others rows
  unfolding update_job
  update-others now p rows ne = elim (Option-cases (find_where (has_id_in p.id p.tenant_id) rows)) [
    | inl e ↦ rw (e, update_job) refl
    | inr (r, e) ↦ elim (Option-cases (varchar 20 p.status)) [
      | inl long ↦ rw (e, update_job, long) refl
      | inr (status, fits) ↦
          rw (e, update_job, fits) (write-others now (record p { status = status }) rows ne)
    ]
  ]

  unlock-others :
      (p : CronJob → Bool) (status : String) (now : ℕ) (rows : Jobs)
      → ((r : CronJob) → p r ≡ true → of_tenant u r ≡ false)
      → others (update_where p (unlocked_row status now) rows) ≡ others rows
  unfolding others
  unlock-others p status now rows h =
      select-update_frame (of_tenant u) p (unlocked_row status now) rows h h

  old_in :
      (now : ℕ) (t : String) (r : CronJob) → u ≢ t → is_old now t r ≡ true → of_tenant u r ≡ false
  old_in now t r ne h = ground (arith, eq_iff r.tenant_id t, eq_iff r.tenant_id u)

  stale_in :
      (now : ℕ) (t : String) (r : CronJob) → u ≢ t → is_stale now t r ≡ true → of_tenant u r ≡ false
  stale_in now t r ne h = ground (arith, eq_iff r.tenant_id t, eq_iff r.tenant_id u)

-- A statement that names a tenant leaves every other tenant's rows, their contents and their order,
-- as they are.
pub exec-other_tenants :
    (now : ℕ) (stmt : Stmt) (rows : Jobs) (t u : String)
    → scope stmt ≡ some t
    → u ≢ t
    → select_where (of_tenant u) (exec now stmt rows) ≡ select_where (of_tenant u) rows
unfolding exec others delete_job force_unlock_job release_task_lock cleanup_old_tasks
    cleanup_stale_locks
exec-other_tenants now (Stmt.acquire new_id p) rows t u e ne =
    acquire-others u now new_id p rows (ground arith)
exec-other_tenants now (Stmt.create new_id p) rows t u e ne =
    create-others u now new_id p rows (ground arith)
exec-other_tenants now (Stmt.update p) rows t u e ne = update-others u now p rows (ground arith)
exec-other_tenants now (Stmt.delete id s) rows t u e ne =
    select-delete_frame (of_tenant u) _ rows (λ r. in_tenant u id s r (ground arith))
exec-other_tenants now (Stmt.force_unlock id s) rows t u e ne =
    unlock-others u _ "failed" now rows (λ r. in_tenant u id s r (ground arith))
exec-other_tenants now (Stmt.release_task id s) rows t u e ne =
    unlock-others u _ "completed" now rows (λ r. in_tenant u id s r (ground arith))
exec-other_tenants now (Stmt.set_completed id) rows t u e ne = cc
exec-other_tenants now (Stmt.set_failed id) rows t u e ne = cc
exec-other_tenants now (Stmt.heartbeat id w) rows t u e ne = cc
exec-other_tenants now (Stmt.clean_old s) rows t u e ne =
    select-delete_frame (of_tenant u) _ rows (λ r. old_in u now s r (ground arith))
exec-other_tenants now (Stmt.clean_stale s) rows t u e ne =
    unlock-others u _ "failed" now rows (λ r. stale_in u now s r (ground arith))
