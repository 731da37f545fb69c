-- ===== src/Jobs/Exclusion.antt =====
-- Mutual exclusion through `cron_jobs`, over every interleaving of statements.
use cron_lib.Base.{
  ℕ, ◌+◌, ◌≤◌, ◌≡◌, ◌≢◌, refl, ◌∙◌, String, str_eq, eq_iff, eq_refl, true, false, ◌&&◌, some, List,
  [], ◌∷◌, arith, find_where, find-holds, find-eq-none_at, All, Bool-cases, Option-cases, inl, inr,
  update_where,
}
use cron_lib.Schema.{CronJob, minutes}
use cron_lib.Schema.{varchar}
use cron_lib.Jobs.{
  Jobs, row, no_rows, AcquireParams, UpdateJobParams, has_key, has_id_in, is_acquirable,
  acquired_row, inserted_row, acquire_job_lock_in_db, update_job, write_job, delete_job,
  cleanup_old_tasks, cleanup_stale_locks, force_unlock_job, release_task_lock,
  update_job_status_to_completed, update_job_status_to_failed, updated_row, clashes,
}
use cron_lib.Jobs.Statements.{Stmt, exec, Timed, run}
use cron_lib.Jobs.Held.{
  Spares, Held, other_id, other_id_in, not_stale, not_old, not_acquirable, unlock-Held, delete-Held,
  heartbeat-Held, create-Held,
}

module _ (tenant_id lock : String) (id since : ℕ) (owner : String) where
  -- An update of another row cannot take the key: it would clash with the leased row.
  find-updated :
      (now : ℕ) (p : UpdateJobParams) (rows : Jobs) (r : CronJob)
      → p.id ≢ r.id
      → (str_eq p.tenant_id tenant_id && str_eq p.lock lock) ≡ false
      → find_where (has_key tenant_id lock) rows ≡ some r
      → find_where
          (has_key tenant_id lock)
          (update_where (has_id_in p.id p.tenant_id) (updated_row now p) rows)
        ≡ some r
  find-updated now p [] r ne k e = ground arith
  find-updated now p (x ∷ xs) r ne k e = ground (
    arith,
    find-updated now p xs r ne k,
    eq_iff x.tenant_id p.tenant_id,
    eq_iff x.tenant_id tenant_id,
    eq_iff p.tenant_id tenant_id,
  )

  other_key :
      (p : UpdateJobParams) (r : CronJob)
      → p.id ≢ r.id
      → has_key tenant_id lock r ≡ true
      → clashes p r ≡ false
      → (str_eq p.tenant_id tenant_id && str_eq p.lock lock) ≡ false
  other_key p r ne k c = ground (
    arith,
    eq_iff r.tenant_id p.tenant_id,
    eq_iff r.tenant_id tenant_id,
    eq_iff p.tenant_id tenant_id,
    eq_iff r.lock p.lock,
    eq_iff r.lock lock,
    eq_iff p.lock lock,
  )

  write-Held :
      (now : ℕ) (p : UpdateJobParams) (rows : Jobs)
      → p.id ≢ id
      → Held tenant_id lock id since owner rows
      → Held tenant_id lock id since owner (write_job now p rows).1
  unfolding write_job
  write-Held now p rows ne (r, e, h) =
      elim (Option-cases (find_where (has_id_in p.id p.tenant_id) rows)) [
        | inl missing ↦ (r, rw (missing, write_job) e, h)
        | inr (s, found) ↦ elim (Option-cases (find_where (clashes p) rows)) [
          | inr (t, clash) ↦ (r, rw (found, write_job, clash) e, h)
          | inl free ↦ (
            r,
            rw (found, write_job, free)
                (find-updated now p rows r other
                  (other_key p r other (find-holds _ rows r e) (find-eq-none_at _ _ rows r free e))
                  e),
            h,
          )
        ]
      ]
    where
      other : p.id ≢ r.id
      other = λ q. ne (q ∙ h.same)

  update-Held :
      (now : ℕ) (p : UpdateJobParams) (rows : Jobs)
      → p.id ≢ id
      → Held tenant_id lock id since owner rows
      → Held tenant_id lock id since owner (update_job now p rows).1
  unfolding update_job
  update-Held now p rows ne h = elim (Option-cases (find_where (has_id_in p.id p.tenant_id) rows)) [
    | inl e ↦ rw (e, update_job) h
    | inr (r, e) ↦ elim (Option-cases (varchar 20 p.status)) [
      | inl long ↦ rw (e, update_job, long) h
      | inr (status, fits) ↦
          rw (e, update_job, fits) (write-Held now (record p { status = status }) rows ne h)
    ]
  ]

  -- The upsert of the leased key is refused; that of another key writes another row.
  acquire-keeps :
      (now new_id : ℕ) (p : AcquireParams) (rows : Jobs) (r : CronJob)
      → is_acquirable p.now r ≡ false
      → find_where (has_key tenant_id lock) rows ≡ some r
      → find_where (has_key tenant_id lock) (acquire_job_lock_in_db now new_id p rows).1 ≡ some r
  unfolding acquire_job_lock_in_db acquired_row
  acquire-keeps now new_id p [] r a e = ground arith
  acquire-keeps now new_id p (x ∷ xs) r a e = ground (
    arith,
    acquire-keeps now new_id p xs r a,
    eq_iff x.tenant_id p.tenant_id,
    eq_iff x.tenant_id tenant_id,
    eq_iff x.lock p.lock,
    eq_iff x.lock lock,
  )

  acquire-refused :
      (now new_id : ℕ) (p : AcquireParams) (rows : Jobs) (r : CronJob)
      → p.tenant_id ≡ tenant_id
      → p.lock ≡ lock
      → is_acquirable p.now r ≡ false
      → find_where (has_key tenant_id lock) rows ≡ some r
      → acquire_job_lock_in_db now new_id p rows ≡ (no_rows, rows)
  unfolding acquire_job_lock_in_db
  acquire-refused now new_id p [] r t l a e = ground arith
  acquire-refused now new_id p (x ∷ xs) r t l a e =
      ground (arith, acquire-refused now new_id p xs r t l a)

  -- One statement of any instance that does not end the lease keeps it.
  pub exec-Held :
      (now : ℕ) (stmt : Stmt) (rows : Jobs)
      → Spares id since (now, stmt)
      → Held tenant_id lock id since owner rows
      → Held tenant_id lock id since owner (exec now stmt rows)
  unfolding exec update_job_status_to_completed update_job_status_to_failed force_unlock_job
      release_task_lock cleanup_old_tasks cleanup_stale_locks delete_job
  exec-Held now (Stmt.acquire new_id p) rows s (r, e, h) =
      (r, acquire-keeps now new_id p rows r (not_acquirable id since owner p.now r s h) e, h)
  exec-Held now (Stmt.create new_id p) rows s held =
      create-Held tenant_id lock id since owner now new_id p rows held
  exec-Held now (Stmt.update p) rows s held = update-Held now p rows s held
  exec-Held now (Stmt.delete j t) rows s held =
      delete-Held tenant_id lock id since owner _ rows (λ r. other_id_in id since owner j t r s)
        held
  exec-Held now (Stmt.force_unlock j t) rows s held =
      unlock-Held tenant_id lock id since owner _ "failed" now rows
        (λ r. other_id_in id since owner j t r s) held
  exec-Held now (Stmt.release_task j t) rows s held =
      unlock-Held tenant_id lock id since owner _ "completed" now rows
        (λ r. other_id_in id since owner j t r s) held
  exec-Held now (Stmt.set_completed j) rows s held =
      unlock-Held tenant_id lock id since owner _ "completed" now rows
        (λ r. other_id id since owner j r s) held
  exec-Held now (Stmt.set_failed j) rows s held =
      unlock-Held tenant_id lock id since owner _ "failed" now rows
        (λ r. other_id id since owner j r s) held
  exec-Held now (Stmt.heartbeat j w) rows s held =
      heartbeat-Held tenant_id lock id since owner now j w rows s held
  exec-Held now (Stmt.clean_old t) rows s held =
      delete-Held tenant_id lock id since owner _ rows (λ r. not_old id since owner now t r) held
  exec-Held now (Stmt.clean_stale t) rows s held =
      unlock-Held tenant_id lock id since owner _ "failed" now rows
        (λ r. not_stale id since owner now t r s) held

  pub run-Held :
      (history : List Timed) (rows : Jobs)
      → All (Spares id since) history
      → Held tenant_id lock id since owner rows
      → Held tenant_id lock id since owner (run history rows)
  unfolding run
  run-Held [] rows s held = held
  run-Held ((now, stmt) ∷ later) rows s held =
      run-Held later (exec now stmt rows) s.1 (exec-Held now stmt rows s.0 held)

-- A granted acquisition gives the lease.
pub acquire-Held :
    (now new_id : ℕ) (p : AcquireParams) (rows : Jobs) (id : ℕ)
    → (acquire_job_lock_in_db now new_id p rows).0 ≡ row id
    → Held p.tenant_id p.lock id p.now p.instance_id (acquire_job_lock_in_db now new_id p rows).1
unfolding acquire_job_lock_in_db acquired_row inserted_row
acquire-Held now new_id p [] id e = (
  inserted_row now new_id p,
  simp eq_refl,
  record {
    at = p.now;
    same = ground arith;
    running = refl;
    by_owner = refl;
    locked = refl;
    recent = omega arith;
  },
)
acquire-Held now new_id p (r ∷ rs) id e = elim (Bool-cases (has_key p.tenant_id p.lock r)) [
  | inr other ↦
      let (s, found, h) = acquire-Held now new_id p rs id (ground arith) in (s, ground arith, h)
  | inl mine ↦ elim (Bool-cases (is_acquirable p.now r)) [
    | inr refused ↦ absurd (ground arith)
    | inl taken ↦ (
      acquired_row now p r,
      ground arith,
      record {
        at = p.now;
        same = ground arith;
        running = refl;
        by_owner = refl;
        locked = refl;
        recent = omega arith;
      },
    )
  ]
]

-- A held lease is refused to others.
pub Held-refused :
    (tenant_id lock : String) (id since : ℕ) (owner : String) (later later_id : ℕ)
    (q : AcquireParams) (rows : Jobs)
    → q.tenant_id ≡ tenant_id
    → q.lock ≡ lock
    → q.now ≤ since + minutes 10
    → Held tenant_id lock id since owner rows
    → acquire_job_lock_in_db later later_id q rows ≡ (no_rows, rows)
Held-refused tenant_id lock id since owner later later_id q rows t l le (r, found, h) =
    acquire-refused tenant_id lock id since owner later later_id q rows r t l
      (not_acquirable id since owner q.now r le h) found

-- Once one acquisition of a (tenant_id, lock) was granted, every later one is refused and changes
-- nothing, while its caller's clock shows at most ten minutes more than the holder's did, whatever
-- statements the instances ran in between, as long as none of them ends the lease (none finishes,
-- unlocks, deletes or edits the row, acquisitions come at most ten and clean-ups at most fifteen
-- minutes after the holder's, and no heartbeat sets the time back).
pub lease_excludes :
    (now new_id : ℕ) (p : AcquireParams) (rows : Jobs) (id : ℕ)
    → (acquire_job_lock_in_db now new_id p rows).0 ≡ row id
    → (history : List Timed) → All (Spares id p.now) history
    → (later later_id : ℕ) (q : AcquireParams) → q.tenant_id ≡ p.tenant_id
    → q.lock ≡ p.lock
    → q.now ≤ p.now + minutes 10
    → let table = run history (acquire_job_lock_in_db now new_id p rows).1 in
      acquire_job_lock_in_db later later_id q table ≡ (no_rows, table)
lease_excludes now new_id p rows id e history s later later_id q t l le =
    Held-refused p.tenant_id p.lock id p.now p.instance_id later later_id q _ t l le (
      run-Held p.tenant_id p.lock id p.now p.instance_id history
        (acquire_job_lock_in_db now new_id p rows).1 s (acquire-Held now new_id p rows id e))
