-- ===== src/Jobs/Release.antt =====
-- When a (tenant_id, lock) is free, and the statements that free it.
use cron_lib.Base.{
  ℕ, ◌≡◌, refl, String, str_eq, eq_iff, Bool, true, false, ◌&&◌, some, [], ◌∷◌, arith, All,
  All-update, All-delete, Distinct, find_where, update_where,
}
use cron_lib.Schema.{CronJob}
use cron_lib.Jobs.{
  Jobs, AcquireParams, has_key, has_id, is_running, is_acquirable, acquire_job_lock_in_db,
  cleanup_old_tasks, cleanup_stale_locks, unlocked_row,
}
use cron_lib.Jobs.Constraints.{same_key}
use cron_lib.Jobs.Lease.{granted}

module _ (tenant_id lock : String) where
  abbrev pub is_busy : CronJob → Bool
  is_busy r = has_key tenant_id lock r && is_running r

  -- No row of the key is running.
  abbrev pub IsFree : Jobs → Type 0
  IsFree = All (λ r. is_busy r ≡ false)

  other-idle :
      (r x : CronJob) → has_key tenant_id lock r ≡ true → same_key r x ≡ false → is_busy x ≡ false
  other-idle r x k d = ground (
    arith,
    eq_iff r.tenant_id tenant_id,
    eq_iff x.tenant_id tenant_id,
    eq_iff x.tenant_id r.tenant_id,
    eq_iff r.lock lock,
    eq_iff x.lock lock,
    eq_iff x.lock r.lock,
  )

  unlocked-idle :
      (status : String) (now : ℕ) (r : CronJob)
      → str_eq status "running" ≡ false
      → is_busy (unlocked_row status now r) ≡ false
  unlocked-idle status now r h = ground arith

  -- The other rows of the key, of which there are none, and what an unlocking makes of them.
  rest-IsFree :
      (id : ℕ) (status : String) (now : ℕ) (r : CronJob) (rows : Jobs)
      → str_eq status "running" ≡ false
      → has_key tenant_id lock r ≡ true
      → All (λ x. same_key r x ≡ false) rows
      → IsFree (update_where (has_id id) (unlocked_row status now) rows)
  rest-IsFree id status now r [] h k a = tt
  rest-IsFree id status now r (x ∷ xs) h k a =
      ground
        (arith, other-idle r x k, unlocked-idle status now x, rest-IsFree id status now r xs h k)

  -- Where keys are distinct, unlocking the key's row by its id frees the key.
  pub unlock-IsFree :
      (id : ℕ) (status : String) (now : ℕ) (rows : Jobs) (r : CronJob)
      → str_eq status "running" ≡ false
      → Distinct same_key rows
      → find_where (has_key tenant_id lock) rows ≡ some r
      → r.id ≡ id
      → IsFree (update_where (has_id id) (unlocked_row status now) rows)
  unlock-IsFree id status now [] r h d e same = tt
  unlock-IsFree id status now (x ∷ xs) r h d e same = ground (
    arith,
    unlocked-idle status now x,
    rest-IsFree id status now x xs h,
    unlock-IsFree id status now xs r h d.1,
  )

  pub old-IsFree :
      (now : ℕ) (t : String) (rows : Jobs) → IsFree rows → IsFree (cleanup_old_tasks now t rows)
  unfolding cleanup_old_tasks
  old-IsFree now t rows f = All-delete _ _ rows f

  pub stale-IsFree :
      (now : ℕ) (t : String) (rows : Jobs) → IsFree rows → IsFree (cleanup_stale_locks now t rows)
  unfolding cleanup_stale_locks
  stale-IsFree now t rows f =
      All-update (λ r. is_busy r ≡ false) _ (unlocked_row "failed" now) rows
        (λ r h. unlocked-idle "failed" now r refl) f

idle-acquirable : (now : ℕ) (r : CronJob) → is_running r ≡ false → is_acquirable now r ≡ true
unfolding is_acquirable
idle-acquirable now r h = ground arith

-- A free key can be acquired at any time.
pub acquire-IsFree :
    (now new_id : ℕ) (p : AcquireParams) (rows : Jobs)
    → IsFree p.tenant_id p.lock rows
    → granted (acquire_job_lock_in_db now new_id p rows).0 ≡ true
unfolding acquire_job_lock_in_db
acquire-IsFree now new_id p [] f = refl
acquire-IsFree now new_id p (r ∷ rs) f =
    ground (arith, idle-acquirable p.now r, acquire-IsFree now new_id p rs f.1)
