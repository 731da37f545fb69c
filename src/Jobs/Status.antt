-- ===== src/Jobs/Status.antt =====
-- `IsJobLocked` beside the upsert, and the status that `CreateJob` writes.
use Prim.Native.Nat.{zero, suc}
use cron_lib.Manager.Keys.{codes}
use mathlib.Core.Path.{subst₂}
use cron_lib.Base.{
  length, refl, String, ◌≤◌, ℕ, ◌+◌, ◌≡◌, ◌≢◌, ap, sym, eq_refl, find-snoc_new, ◌∙◌, eq_iff, true,
  not, none, some, [], ◌∷◌, ◌++◌, arith, find_where, Option-cases, inl, inr,
}
use cron_lib.Schema.{CronJob, minutes, varchar}
use cron_lib.Jobs.{
  Jobs, row, AcquireParams, CreateJobParams, has_key, is_live, is_acquirable, IsJobLockedRow,
  is_job_locked, lock_row, acquire_job_lock_in_db, create_job, insert_job, created_row,
}
use cron_lib.Jobs.Lease.{granted}

live-acquirable :
    (now : ℕ) (r : CronJob)
    → ((at : ℕ) → r.locked_at ≡ some at → at + minutes 10 ≢ now)
    → is_acquirable now r ≡ not (is_live now r)
unfolding is_acquirable
live-acquirable now r ne = elim (Option-cases r.locked_at) [
  | inl e ↦ ground arith
  | inr (at, e) ↦ ground (arith, ne at e)
]

acquire-found :
    (now new_id : ℕ) (p : AcquireParams) (rows : Jobs) (r : CronJob)
    → find_where (has_key p.tenant_id p.lock) rows ≡ some r
    → granted (acquire_job_lock_in_db now new_id p rows).0 ≡ is_acquirable p.now r
unfolding acquire_job_lock_in_db
acquire-found now new_id p [] r e = ground arith
acquire-found now new_id p (x ∷ xs) r e = ground (arith, acquire-found now new_id p xs r)

-- Where `IsJobLocked` finds the row of a key, it answers "locked" exactly when an acquisition at the same
-- time would be refused, unless that time is ten minutes to the microsecond after the locking.
pub is_job_locked-acquire :
    (now new_id : ℕ) (p : AcquireParams) (rows : Jobs) (i : IsJobLockedRow)
    → is_job_locked p.now p.tenant_id p.lock rows ≡ row i
    → ((at : ℕ) → i.locked_at ≡ some at → at + minutes 10 ≢ p.now)
    → granted (acquire_job_lock_in_db now new_id p rows).0 ≡ not i.is_locked
unfolding is_job_locked
is_job_locked-acquire now new_id p rows i e ne =
    elim (Option-cases (find_where (has_key p.tenant_id p.lock) rows)) [
      | inl missing ↦ ground arith
      | inr (r, found) ↦
          let shown : lock_row p.now r ≡ i = ground arith in
          acquire-found now new_id p rows r found
          ∙ live-acquirable p.now r (λ at l. ne at (rw (← shown) l))
          ∙ ap (λ j. not j.is_locked) shown
    ]

-- A text that is short enough is stored as it is.
varchar-short : (n : ℕ) (text : String) → length (codes text) ≤ n → varchar n text ≡ some text
unfolding varchar
varchar-short zero String.[] h = refl
varchar-short zero (String.◌∷◌ c text) h = absurd (ground arith)
varchar-short (suc n) String.[] h = refl
varchar-short (suc n) (String.◌∷◌ c text) h = rw (varchar-short n text (ground arith)) refl

created-acquirable :
    (now later new_id : ℕ) (c : CreateJobParams)
    → c.job_name ≢ "running"
    → is_acquirable later (created_row now new_id c.job_name c) ≡ true
unfolding is_acquirable
created-acquirable now later new_id c ne = ground (arith, eq_iff c.job_name "running")

-- `CreateJob` of a job whose name has at most twenty characters and is not "running", under a key that
-- is not in use, answers a row whose status is the name of the job, with the id and the locking that
-- it was given, and the next acquisition of the key is granted at any time, although the row may
-- have been created as locked.
pub create_job-not_leased :
    (now later new_id acquire_id : ℕ) (c : CreateJobParams) (p : AcquireParams) (rows : Jobs)
    → length (codes c.job_name) ≤ 20
    → c.job_name ≢ "running"
    → find_where (has_key c.tenant_id c.lock) rows ≡ none
    → p.tenant_id ≡ c.tenant_id
    → p.lock ≡ c.lock
    → let (reply, table) = create_job now new_id c rows in
      ((r : CronJob) × (reply ≡ row r)
        × (r.id ≡ new_id)
        × (r.status ≡ c.job_name)
        × (r.locked_by ≡ c.locked_by)
        × (r.locked_at ≡ c.locked_at))
      × (granted (acquire_job_lock_in_db later acquire_id p table).0 ≡ true)
unfolding create_job insert_job
create_job-not_leased now later new_id acquire_id c p rows short ne free t l = rw made (
  (x, refl, refl, refl, refl, refl),
  acquire-found later acquire_id p (rows ++ x ∷ []) x found
      ∙ created-acquirable now p.now new_id c ne,
)
  where
    x : CronJob
    x = created_row now new_id c.job_name c

    made : create_job now new_id c rows ≡ (row x, rows ++ x ∷ [])
    made = rw (create_job, varchar-short 20 c.job_name short) (rw (insert_job, free) refl)

    found : find_where (has_key p.tenant_id p.lock) (rows ++ x ∷ []) ≡ some x
    found =
        subst₂ (λ s k. find_where (has_key s k) (rows ++ x ∷ []) ≡ some x) (sym t) (sym l)
          (find-snoc_new (has_key c.tenant_id c.lock) rows x free (simp eq_refl))
