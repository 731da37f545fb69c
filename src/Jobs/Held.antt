-- ===== src/Jobs/Held.antt =====
-- A lease that `cron_jobs` shows for a key, and the simple statements that keep it.
use cron_lib.Base.{
  ℕ, ◌+◌, ◌≤◌, ◌≡◌, ◌≢◌, refl, ◌∙◌, String, eq_iff, Bool, true, false, some, arith, find_where,
  find-update, find-delete, find-snoc, Bool-cases, Option-cases, inl, inr, update_where,
  delete_where,
}
use cron_lib.Schema.{CronJob, minutes, varchar}
use cron_lib.Jobs.{
  Jobs, CreateJobParams, has_key, has_id, has_id_in, is_running, is_acquirable, is_old, is_stale,
  beats, create_job, insert_job, update_job_heartbeat, heartbeat_row, unlocked_row,
}
use cron_lib.Jobs.Statements.{Stmt, Timed}

-- The row is a lease of `owner`, taken or renewed at time `since` or later.
pub record IsLeased (id since : ℕ) (owner : String) (r : CronJob) : Type 0 where
  pub at : ℕ
  pub same : r.id ≡ id
  pub running : is_running r ≡ true
  pub by_owner : r.locked_by ≡ some owner
  pub locked : r.locked_at ≡ some at
  pub recent : since ≤ at

-- Statements that do not end the lease: those of other rows, a clean-up or an acquisition that does
-- not find it stale, and heartbeats.
abbrev pub Spares : ℕ → ℕ → Timed → Type 0
Spares id since (now, Stmt.acquire new_id p) = p.now ≤ since + minutes 10
Spares id since (now, Stmt.create new_id p) = Unit {0}
Spares id since (now, Stmt.update p) = p.id ≢ id
Spares id since (now, Stmt.delete j t) = j ≢ id
Spares id since (now, Stmt.force_unlock j t) = j ≢ id
Spares id since (now, Stmt.release_task j t) = j ≢ id
Spares id since (now, Stmt.set_completed j) = j ≢ id
Spares id since (now, Stmt.set_failed j) = j ≢ id
Spares id since (now, Stmt.heartbeat j w) = since ≤ now
Spares id since (now, Stmt.clean_old t) = Unit {0}
Spares id since (now, Stmt.clean_stale t) = now ≤ since + minutes 15

module _ (id since : ℕ) (owner : String) where
  pub other_id : (j : ℕ) (r : CronJob) → j ≢ id → IsLeased id since owner r → has_id j r ≡ false
  other_id j r ne h = ground arith

  pub other_id_in :
      (j : ℕ) (t : String) (r : CronJob)
      → j ≢ id
      → IsLeased id since owner r
      → has_id_in j t r ≡ false
  other_id_in j t r ne h = ground arith

  pub not_stale :
      (now : ℕ) (t : String) (r : CronJob)
      → now ≤ since + minutes 15
      → IsLeased id since owner r
      → is_stale now t r ≡ false
  not_stale now t r le h = ground arith

  pub not_old :
      (now : ℕ) (t : String) (r : CronJob) → IsLeased id since owner r → is_old now t r ≡ false
  not_old now t r h = rw ((eq_iff r.status "running").0 h.running)

  pub not_acquirable :
      (now : ℕ) (r : CronJob)
      → now ≤ since + minutes 10
      → IsLeased id since owner r
      → is_acquirable now r ≡ false
  unfolding is_acquirable
  not_acquirable now r le h = ground arith

module _ (tenant_id lock : String) (id since : ℕ) (owner : String) where
  -- The table shows such a lease for the key.
  abbrev pub Held : Jobs → Type 0
  Held rows =
      (r : CronJob) × (find_where (has_key tenant_id lock) rows ≡ some r)
      × IsLeased id since owner r

  pub unlock-Held :
      (p : CronJob → Bool) (status : String) (now : ℕ) (rows : Jobs)
      → ((r : CronJob) → IsLeased id since owner r → p r ≡ false)
      → Held rows
      → Held (update_where p (unlocked_row status now) rows)
  unlock-Held p status now rows spare (r, e, h) =
      (r, find-update _ p (unlocked_row status now) rows r (λ x. refl) e ∙ rw (spare r h), h)

  pub delete-Held :
      (p : CronJob → Bool) (rows : Jobs)
      → ((r : CronJob) → IsLeased id since owner r → p r ≡ false)
      → Held rows
      → Held (delete_where p rows)
  delete-Held p rows spare (r, e, h) = (r, find-delete _ p rows r (spare r h) e, h)

  -- A heartbeat of the owner renews the lease; any other leaves it.
  pub heartbeat-Held :
      (now j : ℕ) (w : String) (rows : Jobs)
      → since ≤ now
      → Held rows
      → Held (update_job_heartbeat now j w rows)
  unfolding update_job_heartbeat
  heartbeat-Held now j w rows le (r, e, h) = elim (Bool-cases (beats j w r)) [
    | inl b ↦ (
      heartbeat_row now r,
      find-update _ (beats j w) (heartbeat_row now) rows r (λ x. refl) e ∙ rw b,
      record {
        at = now;
        same = h.same;
        running = h.running;
        by_owner = h.by_owner;
        locked = refl;
        recent = le;
      },
    )
    | inr b ↦ (r, find-update _ (beats j w) (heartbeat_row now) rows r (λ x. refl) e ∙ rw b, h)
  ]

  insert-Held :
      (now new_id : ℕ) (status : String) (p : CreateJobParams) (rows : Jobs)
      → Held rows
      → Held (insert_job now new_id status p rows).1
  unfolding insert_job
  insert-Held now new_id status p rows (r, e, h) =
      elim (Option-cases (find_where (has_key p.tenant_id p.lock) rows)) [
        | inl none_there ↦ (r, rw (none_there, insert_job) (find-snoc _ rows _ r e), h)
        | inr (s, there) ↦ (r, rw (there, insert_job) e, h)
      ]

  pub create-Held :
      (now new_id : ℕ) (p : CreateJobParams) (rows : Jobs)
      → Held rows
      → Held (create_job now new_id p rows).1
  unfolding create_job
  create-Held now new_id p rows h = elim (Option-cases (varchar 20 p.job_name)) [
    | inl e ↦ rw (e, create_job) h
    | inr (status, e) ↦ rw (e, create_job) (insert-Held now new_id status p rows h)
  ]
