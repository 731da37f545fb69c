-- ===== src/Jobs/Heartbeat.antt =====
-- `UpdateJobHeartbeat` of jobs.sql.go and the lease of its row.
use cron_lib.Base.{
  ℕ, ◌+◌, ◌≤◌, ◌≡◌, refl, ◌∙◌, String, eq_refl, true, List, arith, All, find-update,
}
use cron_lib.Schema.{CronJob, minutes}
use cron_lib.Jobs.{
  Jobs, row, no_rows, AcquireParams, acquire_job_lock_in_db, beats, heartbeat_row,
  update_job_heartbeat,
}
use cron_lib.Jobs.Statements.{Timed, run}
use cron_lib.Jobs.Held.{IsLeased, Held, Spares}
use cron_lib.Jobs.Exclusion.{acquire-Held, run-Held, Held-refused}

module _ (id since : ℕ) (owner : String) where
  owner-beats : (r : CronJob) → IsLeased id since owner r → beats id owner r ≡ true
  owner-beats r h = rw (h.by_owner) (ground (arith, eq_refl owner))

  pub beat-Held :
      (tenant_id lock : String) (beat : ℕ) (rows : Jobs)
      → Held tenant_id lock id since owner rows
      → Held tenant_id lock id beat owner (update_job_heartbeat beat id owner rows)
  unfolding update_job_heartbeat
  beat-Held tenant_id lock beat rows (r, e, h) = (
    heartbeat_row beat r,
    find-update _ (beats id owner) (heartbeat_row beat) rows r (λ x. refl) e ∙ rw (owner-beats r h),
    record {
      at = beat;
      same = h.same;
      running = h.running;
      by_owner = h.by_owner;
      locked = refl;
      recent = omega arith;
    },
  )

-- The heartbeat of the holder counts as a new locking: after it, whatever came before and comes later
-- as long as none of it ends the lease, every acquisition of the (tenant_id, lock) is refused and
-- changes nothing while its caller's clock shows at most ten minutes more than the server's did at
-- the heartbeat.
pub heartbeat_renews :
    (now new_id : ℕ) (p : AcquireParams) (rows : Jobs) (id : ℕ)
    → (acquire_job_lock_in_db now new_id p rows).0 ≡ row id
    → (before : List Timed) → All (Spares id p.now) before
    → (beat : ℕ) → (after : List Timed) → All (Spares id beat) after
    → (later later_id : ℕ) (q : AcquireParams) → q.tenant_id ≡ p.tenant_id
    → q.lock ≡ p.lock
    → q.now ≤ beat + minutes 10
    → let held = run before (acquire_job_lock_in_db now new_id p rows).1 in
      let table = run after (update_job_heartbeat beat id p.instance_id held) in
      acquire_job_lock_in_db later later_id q table ≡ (no_rows, table)
heartbeat_renews now new_id p rows id g before sb beat after sa later later_id q t l le =
    Held-refused p.tenant_id p.lock id beat p.instance_id later later_id q _ t l le (
      run-Held p.tenant_id p.lock id beat p.instance_id after _ sa (
        beat-Held id p.now p.instance_id p.tenant_id p.lock beat _ (
          run-Held p.tenant_id p.lock id p.now p.instance_id before _ sb
            (acquire-Held now new_id p rows id g))))
