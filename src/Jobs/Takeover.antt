-- ===== src/Jobs/Takeover.antt =====
-- What the id-only updates of jobs.sql.go do once a lease has changed hands.
use mathlib.Core.Path.{subst₂}
use cron_lib.Base.{
  String, ℕ, ◌+◌, ◌<◌, ◌≡◌, refl, sym, ◌∙◌, ap, true, some, [], ◌∷◌, arith, find_where, find-update,
}
use cron_lib.Schema.{CronJob, minutes}
use cron_lib.Jobs.{
  Jobs, row, AcquireParams, has_key, has_id, is_acquirable, acquire_job_lock_in_db,
  update_job_status_to_completed, unlocked_row,
}
use cron_lib.Jobs.Held.{Held, IsLeased}
use cron_lib.Jobs.Exclusion.{acquire-Held}

-- The upsert of a key whose row may be taken.
acquire-taken :
    (now new_id : ℕ) (p : AcquireParams) (rows : Jobs) (r : CronJob)
    → is_acquirable p.now r ≡ true
    → find_where (has_key p.tenant_id p.lock) rows ≡ some r
    → (acquire_job_lock_in_db now new_id p rows).0 ≡ row r.id
unfolding acquire_job_lock_in_db
acquire-taken now new_id p [] r a e = ground arith
acquire-taken now new_id p (x ∷ xs) r a e = ground (arith, acquire-taken now new_id p xs r a)

-- A row that was unlocked can be taken at any time, and so can one whose lease has run out.
unlocked-acquirable :
    (now later : ℕ) (r : CronJob) → is_acquirable later (unlocked_row "completed" now r) ≡ true
unfolding is_acquirable
unlocked-acquirable now later r = refl

module _ (tenant_id lock : String) where
  abbrev pub IsFor : AcquireParams → Type 0
  IsFor p = (p.tenant_id ≡ tenant_id) × (p.lock ≡ lock)

  taken-reply :
      (now new_id : ℕ) (p : AcquireParams) (rows : Jobs) (r : CronJob)
      → IsFor p
      → is_acquirable p.now r ≡ true
      → find_where (has_key tenant_id lock) rows ≡ some r
      → (acquire_job_lock_in_db now new_id p rows).0 ≡ row r.id
  taken-reply now new_id p rows r (t, l) a e =
      acquire-taken now new_id p rows r a
        (subst₂ (λ x y. find_where (has_key x y) rows ≡ some r) (sym t) (sym l) e)

  granted-Held :
      (now new_id : ℕ) (p : AcquireParams) (rows : Jobs) (id : ℕ)
      → IsFor p
      → (acquire_job_lock_in_db now new_id p rows).0 ≡ row id
      → Held tenant_id lock id p.now p.instance_id (acquire_job_lock_in_db now new_id p rows).1
  granted-Held now new_id p rows id (t, l) g =
      subst₂ (λ x y. Held x y id p.now p.instance_id (acquire_job_lock_in_db now new_id p rows).1) t
        l (acquire-Held now new_id p rows id g)

  mine :
      {id since : ℕ} {owner : String} (r : CronJob) → IsLeased id since owner r → has_id id r ≡ true
  mine r h = ground arith

  -- A report of completion for the row's id ends the lease that the row shows, whoever holds it.
  completion_frees :
      (done new_id id since : ℕ) (owner : String) (p : AcquireParams) (rows : Jobs)
      → IsFor p
      → Held tenant_id lock id since owner rows
      → (acquire_job_lock_in_db done new_id p (update_job_status_to_completed done id rows)).0
        ≡ row id
  unfolding update_job_status_to_completed
  completion_frees done new_id id since owner p rows f (r, e, h) =
      taken-reply done new_id p _ (unlocked_row "completed" done r) f
        (unlocked-acquirable done p.now r)
        (find-update _ (has_id id) (unlocked_row "completed" done) rows r (λ x. refl) e
          ∙ rw (mine r h))
      ∙ ap row h.same

-- Where the row of a key was locked more than ten minutes before a second instance asks for it, that
-- instance is granted the row and holds its lease. A report of completion for the row's id, which
-- names no holder, then frees it: any third acquisition of the key is granted, whatever its clock.
pub late_finish_frees :
    (tenant_id lock : String) (later done new_id id at : ℕ) (q third : AcquireParams) (rows : Jobs)
    (r : CronJob)
    → find_where (has_key tenant_id lock) rows ≡ some r
    → r.id ≡ id
    → r.locked_at ≡ some at
    → at + minutes 10 < q.now
    → IsFor tenant_id lock q
    → IsFor tenant_id lock third
    → let (reply, taken) = acquire_job_lock_in_db later new_id q rows in
      (reply ≡ row id)
      × Held tenant_id lock id q.now q.instance_id taken
      × ((acquire_job_lock_in_db done new_id third (update_job_status_to_completed done id taken)).0
          ≡ row id)
unfolding is_acquirable
late_finish_frees tenant_id lock later done new_id id at q third rows r e same locked old fq ft =
    let granted : (acquire_job_lock_in_db later new_id q rows).0 ≡ row id =
      taken-reply tenant_id lock later new_id q rows r fq (ground arith) e ∙ ap row same in
    let held = granted-Held tenant_id lock later new_id q rows id fq granted in
    (
      granted,
      held,
      completion_frees tenant_id lock done new_id id q.now q.instance_id third _ ft held,
    )
