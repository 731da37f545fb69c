-- ===== src/Registry/Laws.antt =====
-- What the statements over `cron_registered_jobs` do to a registration.
use cron_lib.Base.{
  ℕ, ◌≡◌, str_eq_comm, eq_refl, Bool, true, false, some, [], ◌∷◌, arith, All, Distinct, find_where,
}
use cron_lib.Schema.{CronRegisteredJob}
use cron_lib.Registry.{
  Registered, UpsertParams, has_name, upsert_registered_job, delete_registered_job,
}

abbrev pub same_name : CronRegisteredJob → CronRegisteredJob → Bool
same_name r s = has_name r.tenant_id r.job_name s

upsert-other_name :
    (now new_id : ℕ) (p : UpsertParams) (x : CronRegisteredJob) (rows : Registered)
    → has_name p.tenant_id p.job_name x ≡ false
    → All (λ y. same_name x y ≡ false) rows
    → All (λ y. same_name x y ≡ false) (upsert_registered_job now new_id p rows).1
unfolding upsert_registered_job
upsert-other_name now new_id p x [] h a =
    ground (arith, str_eq_comm x.tenant_id p.tenant_id, str_eq_comm x.job_name p.job_name)
upsert-other_name now new_id p x (y ∷ ys) h a =
    ground (arith, upsert-other_name now new_id p x ys h a.1)

upsert-Distinct :
    (now new_id : ℕ) (p : UpsertParams) (rows : Registered)
    → Distinct same_name rows
    → Distinct same_name (upsert_registered_job now new_id p rows).1
unfolding upsert_registered_job
upsert-Distinct now new_id p [] d = (tt, tt)
upsert-Distinct now new_id p (r ∷ rs) d =
    ground (arith, upsert-Distinct now new_id p rs d.1, upsert-other_name now new_id p r rs)

upsert-found :
    (now new_id : ℕ) (p : UpsertParams) (rows : Registered)
    → let (r, table) = upsert_registered_job now new_id p rows in
      find_where (has_name p.tenant_id p.job_name) table ≡ some r
unfolding upsert_registered_job
upsert-found now new_id p [] = simp eq_refl
upsert-found now new_id p (r ∷ rs) = ground (arith, upsert-found now new_id p rs)

-- The columns that an upsert writes.
pub record IsRegistered (now : ℕ) (p : UpsertParams) (r : CronRegisteredJob) : Type 0 where
  pub named : has_name p.tenant_id p.job_name r ≡ true
  pub schedule : r.schedule ≡ p.schedule
  pub long_running : r.is_long_running ≡ p.is_long_running
  pub enabled : r.is_enabled ≡ p.is_enabled
  pub instance_id : r.instance_id ≡ p.instance_id
  pub time : r.last_registered_at ≡ now

upsert-IsRegistered :
    (now new_id : ℕ) (p : UpsertParams) (rows : Registered)
    → IsRegistered now p (upsert_registered_job now new_id p rows).0
unfolding upsert_registered_job
upsert-IsRegistered now new_id p [] = ground (arith, eq_refl p.tenant_id, eq_refl p.job_name)
upsert-IsRegistered now new_id p (r ∷ rs) = ground (arith, upsert-IsRegistered now new_id p rs)

-- The upsert of a table with distinct names keeps them distinct, and the row that it returns is the one
-- that the table then holds for the job's name and tenant, with the schedule, the flags, the instance
-- and the time of this registration.
pub upsert_registered_job-lookup :
    (now new_id : ℕ) (p : UpsertParams) (rows : Registered)
    → Distinct same_name rows
    → let (r, table) = upsert_registered_job now new_id p rows in
      Distinct same_name table
      × (find_where (has_name p.tenant_id p.job_name) table ≡ some r)
      × IsRegistered now p r
upsert_registered_job-lookup now new_id p rows d = (
  upsert-Distinct now new_id p rows d,
  upsert-found now new_id p rows,
  upsert-IsRegistered now new_id p rows,
)

-- Deleting a registration undoes the upsert, whichever row it wrote.
pub delete-upsert :
    (now new_id : ℕ) (p : UpsertParams) (rows : Registered)
    → delete_registered_job p.job_name p.tenant_id (upsert_registered_job now new_id p rows).1
      ≡ delete_registered_job p.job_name p.tenant_id rows
unfolding upsert_registered_job delete_registered_job
delete-upsert now new_id p [] = simp eq_refl
delete-upsert now new_id p (r ∷ rs) = ground (arith, delete-upsert now new_id p rs)
