-- ===== src/Jobs/Cleanup.antt =====
-- `CleanupStaleLocks`, `GetStaleJobs` and `CleanupOldTasks` of jobs.sql.go.
use cron_lib.Base.{
  ℕ, ◌+◌, ◌≡◌, refl, ap, String, str_eq, ◌≢◌, eq_iff, Bool, true, false, not, ◌&&◌, ◌||◌, ◌*◌, ltb,
  [], ◌∷◌, map, arith, select_where, count_where, length, count-update_out, Bool-cases, inl, inr,
  select-update_none, select-update_frame, select-delete_frame, select-delete_none,
}
use cron_lib.Schema.{CronJob}
use cron_lib.Jobs.{
  Jobs, is_running, is_stale, is_old, is_finished, of_tenant, unlocked_row, cleanup_stale_locks,
  cleanup_old_tasks, get_stale_jobs, stale_job_row,
}

stale-running : (now : ℕ) (t : String) (r : CronJob) → is_stale now t r ≡ true → is_running r ≡ true
stale-running now t r h = ground arith

pub count-running :
    (now : ℕ) (t : String) (rows : Jobs)
    → count_where is_running (cleanup_stale_locks now t rows) + count_where (is_stale now t) rows
      ≡ count_where is_running rows
unfolding cleanup_stale_locks
count-running now t rows =
    count-update_out is_running (is_stale now t) (unlocked_row "failed" now) rows
      (λ r h. stale-running now t r h) (λ r h. refl)

-- A row whose status is neither "running" nor "failed".
abbrev pub is_idle : CronJob → Bool
is_idle r = not (is_running r) && not (str_eq r.status "failed")

stale-not_idle : (now : ℕ) (t : String) (r : CronJob) → is_stale now t r ≡ true → is_idle r ≡ false
stale-not_idle now t r h = ground arith

length-map_stale : (rows : Jobs) → length (map stale_job_row rows) ≡ length rows
length-map_stale [] = refl
length-map_stale (r ∷ rs) = omega (arith, length-map_stale rs)

-- The clean-up of stale locks marks the rows that `GetStaleJobs` lists: at the same time afterwards it
-- lists none, as many rows fewer are running as it listed before, and the rows whose status is
-- neither "running" nor "failed" stay as they were.
pub cleanup_stale_locks-get_stale_jobs :
    (now : ℕ) (tenant_id : String) (rows : Jobs)
    → let cleaned = cleanup_stale_locks now tenant_id rows in
      (get_stale_jobs now tenant_id cleaned ≡ [])
      × (count_where is_running cleaned + length (get_stale_jobs now tenant_id rows)
          ≡ count_where is_running rows)
      × (select_where is_idle cleaned ≡ select_where is_idle rows)
unfolding get_stale_jobs
cleanup_stale_locks-get_stale_jobs now t rows = (
  ap (map stale_job_row) none_left,
  rw (length-map_stale (select_where (is_stale now t) rows)) (count-running now t rows),
  others,
)
  where
    none_left : select_where (is_stale now t) (cleanup_stale_locks now t rows) ≡ []
    none_left =
        unfold cleanup_stale_locks in
        select-update_none (is_stale now t) (is_stale now t) (unlocked_row "failed" now) rows
          (λ r h. h) (λ r h. refl)

    others : select_where is_idle (cleanup_stale_locks now t rows) ≡ select_where is_idle rows
    others =
        unfold cleanup_stale_locks in
        select-update_frame is_idle (is_stale now t) (unlocked_row "failed" now) rows
          (λ r h. stale-not_idle now t r h) (λ r h. refl)

running-not_finished : (r : CronJob) → is_running r ≡ true → is_finished r ≡ false
running-not_finished r h = rw ((eq_iff r.status "running").0 h)

old-not_running :
    (now : ℕ) (t : String) (r : CronJob) → is_old now t r ≡ true → is_running r ≡ false
old-not_running now t r h = elim (Bool-cases (is_running r)) [
  | inr idle ↦ idle
  | inl runs ↦ absurd (ground (arith, running-not_finished r runs))
]

-- A finished row of the tenant that was updated more than seven days ago.
abbrev pub is_expired : ℕ → String → CronJob → Bool
is_expired now tenant_id r =
    (str_eq r.status "completed" || str_eq r.status "failed")
    && str_eq r.tenant_id tenant_id
    && ltb (r.updated_at + 7 * 24 * 60 * 60 * 1000000) now

abbrev pub is_retained : ℕ → String → CronJob → Bool
is_retained now tenant_id r = not (is_expired now tenant_id r)

old-is_expired : (now : ℕ) (t : String) (r : CronJob) → is_old now t r ≡ is_expired now t r
old-is_expired now t r = ground arith

-- The clean-up of old tasks leaves no completed or failed row of the tenant that was updated more than
-- seven days ago, and all other rows as they are and in their order: among them every running row
-- and every row of another tenant.
pub cleanup_old_tasks-keeps :
    (now : ℕ) (tenant_id other : String) (rows : Jobs)
    → other ≢ tenant_id
    → let cleaned = cleanup_old_tasks now tenant_id rows in
      (select_where (is_expired now tenant_id) cleaned ≡ [])
      × (select_where (is_retained now tenant_id) cleaned
          ≡ select_where (is_retained now tenant_id) rows)
      × (select_where is_running cleaned ≡ select_where is_running rows)
      × (select_where (of_tenant other) cleaned ≡ select_where (of_tenant other) rows)
unfolding cleanup_old_tasks
cleanup_old_tasks-keeps now t other rows ne = (
  select-delete_none (is_expired now t) (is_old now t) rows
      (λ r h. ground (arith, old-is_expired now t r)),
  select-delete_frame (is_retained now t) (is_old now t) rows
      (λ r h. ground (arith, old-is_expired now t r)),
  select-delete_frame is_running (is_old now t) rows (λ r h. old-not_running now t r h),
  select-delete_frame (of_tenant other) (is_old now t) rows
      (λ r h. ground (arith, eq_iff r.tenant_id t, eq_iff r.tenant_id other)),
)
