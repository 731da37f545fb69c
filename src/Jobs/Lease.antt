-- ===== src/Jobs/Lease.antt =====
-- The abstract view of one (tenant_id, lock) of `cron_jobs`: a lease of ten minutes.
use cron_lib.Base.{
  ℕ, ◌+◌, ◌≡◌, String, eq_iff, Bool, true, false, Option, none, some, [], ◌∷◌, ltb, if◌then◌else◌,
  arith,
}
use cron_lib.Schema.{CronJob, minutes}
use cron_lib.Jobs.{
  Jobs, Reply, row, no_rows, unique_violation, too_long, AcquireParams, has_key, is_running,
  is_acquirable, acquired_row, inserted_row, acquire_job_lock_in_db,
}

-- The abstract lock: since when it is held, and by whom.
pub record Lease : Type 0 where
  pub since : ℕ
  pub owner : Option String

abbrev pub granted {ℓ} : {A : Type ℓ} → Reply A → Bool
granted (row _) = true
granted no_rows = false
granted unique_violation = false
granted too_long = false

-- A lease is granted if there is none, or if the one there is more than ten minutes old.
abbrev pub try_lease : ℕ → String → Option Lease → Bool × Option Lease
try_lease now instance_id none = (true, some (record { since = now; owner = some instance_id }))
try_lease now instance_id (some l) =
    if ltb (l.since + minutes 10) now
    then (true, some (record { since = now; owner = some instance_id }))
    else (false, some l)

-- A row is a lease while it is running and has a time of locking.
pub row_lease : CronJob → Option Lease
row_lease r =
    if is_running r
    then elim r.locked_at [
      | none ↦ none
      | some at ↦ some (record { since = at; owner = r.locked_by })
    ]
    else none

-- The lease that the table shows for a key.
unfoldable pub lease : String → String → Jobs → Option Lease
lease tenant_id lock [] = none
lease tenant_id lock (r ∷ rs) =
    if has_key tenant_id lock r then row_lease r else lease tenant_id lock rs

-- The upsert implements the abstract lock: it is granted exactly when the lease that the table shows
-- for the key is absent or over ten minutes old, the new lease is the caller's from its own clock's
-- time on, and a refusal leaves the lease as it was.
pub acquire-try_lease :
    (now new_id : ℕ) (p : AcquireParams) (rows : Jobs)
    → let (reply, rows') = acquire_job_lock_in_db now new_id p rows in
      ◌≡◌ {A = Bool × Option Lease}
        (granted reply, lease p.tenant_id p.lock rows')
        (try_lease p.now p.instance_id (lease p.tenant_id p.lock rows))
unfolding acquire_job_lock_in_db lease row_lease acquired_row inserted_row is_acquirable
acquire-try_lease now new_id p [] =
    ground (arith, eq_iff p.tenant_id p.tenant_id, eq_iff p.lock p.lock)
acquire-try_lease now new_id p (r ∷ rs) = ground (arith, acquire-try_lease now new_id p rs)

-- An acquisition leaves the lease of every other key as it was.
pub acquire-other_lease :
    (now new_id : ℕ) (p : AcquireParams) (tenant_id lock : String) (rows : Jobs)
    → has_key tenant_id lock (inserted_row now new_id p) ≡ false
    → lease tenant_id lock (acquire_job_lock_in_db now new_id p rows).1 ≡ lease tenant_id lock rows
unfolding acquire_job_lock_in_db lease row_lease acquired_row inserted_row
acquire-other_lease now new_id p tenant_id lock [] h = ground arith
acquire-other_lease now new_id p tenant_id lock (r ∷ rs) h = ground (
  arith,
  acquire-other_lease now new_id p tenant_id lock rs h,
  eq_iff r.tenant_id p.tenant_id,
  eq_iff r.tenant_id tenant_id,
  eq_iff p.tenant_id tenant_id,
  eq_iff r.lock p.lock,
  eq_iff r.lock lock,
  eq_iff p.lock lock,
)
