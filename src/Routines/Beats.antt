-- ===== src/Routines/Beats.antt =====
-- The heartbeats of startHeartbeat and the lease that they renew.
use cron_lib.Base.{ℕ, ◌+◌, ◌≤◌, ◌≡◌, String, List, [], ◌∷◌, map, All}
use cron_lib.Schema.{minutes}
use cron_lib.Jobs.{Jobs, row, no_rows, AcquireParams, acquire_job_lock_in_db}
use cron_lib.Jobs.Statements.{Timed, run}
use cron_lib.Jobs.Held.{Held, Spares}
use cron_lib.Jobs.Exclusion.{acquire-Held, run-Held, Held-refused}
use cron_lib.Jobs.Heartbeat.{beat-Held}
use cron_lib.Manager.State.{Fault, answered, lost, refused}
use cron_lib.Routines.{tick, loop, Beat, update_job_heartbeat, start_heartbeat}

-- The time of the last heartbeat that was executed, or else `since`.
abbrev pub renewal : Fault → ℕ → ℕ → ℕ
renewal answered since now = now
renewal lost since now = now
renewal refused since now = since

abbrev pub renewed : ℕ → List Beat → ℕ
renewed since [] = since
renewed since (beat ∷ beats) = renewed (renewal beat.fault since beat.now) beats

-- What others do before each heartbeat spares the lease as it then stands.
abbrev pub AllSpare : ℕ → ℕ → List Beat → Type 0
AllSpare id since [] = Unit
AllSpare id since (beat ∷ beats) =
    All (Spares id since) beat.others × AllSpare id (renewal beat.fault since beat.now) beats

module _ (tenant_id lock : String) (id : ℕ) (owner : String) where
  beat_once-Held :
      (since : ℕ) (beat : Beat) (rows : Jobs)
      → All (Spares id since) beat.others
      → Held tenant_id lock id since owner rows
      → Held tenant_id lock id
          (renewal beat.fault since beat.now)
          owner
          (update_job_heartbeat id owner beat rows)
  unfolding update_job_heartbeat
  beat_once-Held since beat rows spare held = ended beat.fault
    where
      current : Jobs
      current = run beat.others rows

      kept : Held tenant_id lock id since owner current
      kept = run-Held tenant_id lock id since owner beat.others rows spare held

      ended :
          (f : Fault)
          → Held tenant_id lock id (renewal f since beat.now) owner (
              cron_lib.Manager.State.executed f current
                (cron_lib.Jobs.update_job_heartbeat beat.now id owner current))
      ended answered = beat-Held id since owner tenant_id lock beat.now current kept
      ended lost = beat-Held id since owner tenant_id lock beat.now current kept
      ended refused = kept

  beats-Held :
      (since : ℕ) (beats : List Beat) (rows : Jobs)
      → AllSpare id since beats
      → Held tenant_id lock id since owner rows
      → Held tenant_id lock id
          (renewed since beats)
          owner
          (start_heartbeat id owner (map tick beats) rows).1
  unfolding start_heartbeat loop
  beats-Held since [] rows spare held = held
  beats-Held since (beat ∷ beats) rows spare held =
      beats-Held (renewal beat.fault since beat.now) beats (update_job_heartbeat id owner beat rows)
        spare.1 (beat_once-Held since beat rows spare.0 held)

-- The lease of a row that an acquisition was granted lasts as long as its heartbeat: after any number
-- of ticks, whatever else is done in between as long as none of it ends the lease as it then stands,
-- every acquisition of the (tenant_id, lock) is refused and changes nothing, while its caller's clock
-- shows at most ten minutes more than the last heartbeat that the database executed, or, if it
-- executed none, than the holder's clock at the acquisition.
pub start_heartbeat_renews :
    (now new_id : ℕ) (p : AcquireParams) (rows : Jobs) (id : ℕ)
    → (acquire_job_lock_in_db now new_id p rows).0 ≡ row id
    → (beats : List Beat) → AllSpare id p.now beats
    → (after : List Timed) → All (Spares id (renewed p.now beats)) after
    → (later later_id : ℕ) (q : AcquireParams) → q.tenant_id ≡ p.tenant_id
    → q.lock ≡ p.lock
    → q.now ≤ renewed p.now beats + minutes 10
    → let leased = (acquire_job_lock_in_db now new_id p rows).1 in
      let table = run after (start_heartbeat id p.instance_id (map tick beats) leased).1 in
      acquire_job_lock_in_db later later_id q table ≡ (no_rows, table)
start_heartbeat_renews now new_id p rows id g beats spare after sa later later_id q t l le =
    Held-refused p.tenant_id p.lock id (renewed p.now beats) p.instance_id later later_id q _ t l le
      (run-Held p.tenant_id p.lock id (renewed p.now beats) p.instance_id after _ sa (
        beats-Held p.tenant_id p.lock id p.instance_id p.now beats _ spare
          (acquire-Held now new_id p rows id g)))
