-- ===== src/Execution/Entries.antt =====
-- The audit entry of an execution of executeJobWithLock: open, and reported on.
use cron_lib.Base.{
  ℕ, ◌+◌, ◌*◌, ◌≡◌, ◌≢◌, refl, String, str_eq, Bool, true, false, ◌||◌, ◌==◌, Option, none, some,
  List, [], ◌∷◌, arith, Bool-cases, inl, inr,
}
use cron_lib.Schema.{CronJobAuditLog, row}
use cron_lib.Audit.{UpdateParams, updated_row, get_job_audit_log_by_id}
use cron_lib.Audit.Laws.{get-update_job_audit_log}
use cron_lib.Manager.State.{Job, refused}
use cron_lib.Execution.World.{
  AdvisoryApi, Db, Outcome, succeeded, Env, Event, State, call, Statement, expired,
}
use cron_lib.Execution.{
  update_audit_log_status, try_advisory_lock, release_advisory_lock, acquire_job_lock,
  update_status_to_failed, update_status_to_completed, clean_up, start_heartbeat, stop_heartbeat,
}
use cron_lib.Execution.Runs.{call-keeps, settle-db}

abbrev pub is_success : Outcome → Bool
is_success succeeded = true
is_success _ = false

abbrev pub is_success_event : Event → Bool
is_success_event (Event.ran o) = is_success o
is_success_event _ = false

-- The job was run, and succeeded.
abbrev pub has_succeeded : List Event → Bool
has_succeeded [] = false
has_succeeded (e ∷ es) = is_success_event e || has_succeeded es

-- An entry of the job that is finished, and as completed exactly if the job succeeded.
pub record IsFinal (job : Job) (start : ℕ) (ran_well : Bool) (r : CronJobAuditLog) : Type 0 where
  pub name : r.job_name ≡ job.name
  pub started : r.start_time ≡ some start
  pub ended : r.end_time ≢ none
  pub finished : str_eq r.status "started" ≡ false
  pub right : str_eq r.status "completed" ≡ ran_well

module _ {L : Type 0} (api : AdvisoryApi L) (env : Env L) (instance_id : String) (job : Job)
    (id start : ℕ) where
  abbrev pub Entry : CronJobAuditLog → Db L → Type 0
  Entry r db = get_job_audit_log_by_id id job.tenant_id db.audit_logs ≡ row r

  -- An open entry of the job.
  pub record IsOpen (r : CronJobAuditLog) (s : State L) : Type 0 where
    pub found : Entry r s.db
    pub name : r.job_name ≡ job.name
    pub started : r.start_time ≡ some start

  pub record IsClosed (s : State L) : Type 0 where
    pub entry : CronJobAuditLog
    pub found : Entry entry s.db
    pub final : IsFinal job start (has_succeeded s.trace) entry

  module _
      (spares : (n : ℕ) (db : Db L) (r : CronJobAuditLog)
        → Entry r db
        → Entry r (env.interfere n db))
      (delivered : (n : ℕ) → env.fault n ≢ refused) where
    pub report-IsClosed :
        (status : String) (output error : Option String) (r : CronJobAuditLog) (s : State L)
        → IsOpen r s
        → str_eq status "started" ≡ false
        → str_eq status "completed" ≡ has_succeeded s.trace
        → IsClosed (update_audit_log_status api env instance_id job id status output error s).1
    report-IsClosed status output error r s h fresh right = record {
      entry = updated_row (env.server_clock s.calls) u r;
      found = written;
      final = record {
        name = h.name;
        started = h.started;
        ended = λ e. absurd (ground (arith, e));
        finished = fresh;
        right = unfold update_audit_log_status call in right;
      };
    }
      where
        u : UpdateParams
        u = record {
          id = id;
          end_time = some (env.local_clock s.calls);
          status = status;
          output = output;
          error = error;
          tenant_id = job.tenant_id;
        }

        timely :
            expired (some (env.local_clock s.calls + 5 * 1000000)) (env.local_clock s.calls) ≡ false
        timely = ground arith

        written :
            Entry
              (updated_row (env.server_clock s.calls) u r)
              (update_audit_log_status api env instance_id job id status output error s).1.db
        written =
            unfold update_audit_log_status call in
            rw (timely, settle-db env s.calls _ _ _ (delivered s.calls))
              (get-update_job_audit_log (env.server_clock s.calls) u _ r
                (spares s.calls s.db r h.found))

    -- A part of the execution that leaves the entry, and does not run the job.
    pub record Frame (s s' : State L) : Type 0 where
      pub stays : (r : CronJobAuditLog) → Entry r s.db → Entry r s'.db
      pub same : has_succeeded s'.trace ≡ has_succeeded s.trace

    pub Frame-IsClosed : (s s' : State L) → Frame s s' → IsClosed s → IsClosed s'
    Frame-IsClosed s s' f h = record {
      entry = h.entry;
      found = f.stays h.entry h.found;
      final = rw f.same h.final;
    }

    pub Frame-IsOpen :
        (r : CronJobAuditLog) (s s' : State L) → Frame s s' → IsOpen r s → IsOpen r s'
    Frame-IsOpen r s s' f h = record {
      found = f.stays r h.found;
      name = h.name;
      started = h.started;
    }

    call-Entry :
        {A : Type 0} (ctx : Option ℕ) (statement : Statement L A) (s : State L)
        → ((now new_id session : ℕ) (db : Db L)
            → (statement now new_id session db).1.audit_logs ≡ db.audit_logs)
        → (r : CronJobAuditLog) → Entry r s.db
        → Entry r (call env ctx statement s).1.db
    call-Entry ctx statement s same r =
        call-keeps env (Entry r) ctx statement s (λ n db g. spares n db r g)
          (λ now new_id session db g. rw (same now new_id session db) g)

    pub try-Frame :
        (ctx : Option ℕ) (s : State L) → Frame s (try_advisory_lock api env instance_id job ctx s).1
    unfolding try_advisory_lock
    try-Frame ctx s = record {
      stays = call-Entry ctx _ s (λ at _ _ db. refl);
      same = unfold call in refl;
    }

    pub acquire-Frame :
        (ctx : Option ℕ) (now : ℕ) (s : State L)
        → Frame s (acquire_job_lock api env instance_id job ctx now s).1
    unfolding acquire_job_lock
    acquire-Frame ctx now s = record {
      stays = call-Entry ctx _ s (λ at _ _ db. refl);
      same = unfold call in refl;
    }

    pub completed-Frame :
        (ctx : Option ℕ) (job_id : ℕ) (s : State L)
        → Frame s (update_status_to_completed api env instance_id job ctx job_id s).1
    unfolding update_status_to_completed
    completed-Frame ctx job_id s = record {
      stays = call-Entry ctx _ s (λ at _ _ db. refl);
      same = unfold call in refl;
    }

    pub failed-Frame :
        (ctx : Option ℕ) (job_id : ℕ) (s : State L)
        → Frame s (update_status_to_failed api env instance_id job ctx job_id s).1
    unfolding update_status_to_failed
    failed-Frame ctx job_id s = record {
      stays = call-Entry ctx _ s (λ at _ _ db. refl);
      same = unfold call in refl;
    }

    pub release-Frame : (s : State L) → Frame s (release_advisory_lock api env instance_id job s).1
    unfolding release_advisory_lock
    release-Frame s = record {
      stays = call-Entry _ _ s (λ at _ _ db. refl);
      same = unfold call in refl;
    }

    pub clean_up-Frame :
        (ctx : Option ℕ) (now : ℕ) (s : State L)
        → Frame s (clean_up api env instance_id job ctx now s).1
    unfolding clean_up
    clean_up-Frame ctx now s =
        elim (Bool-cases (str_eq job.name "system.cleanup" || env.minute_of now == 0)) [
          | inr not_due ↦ rw not_due (record { stays = λ r g. g; same = refl })
          | inl due ↦ rw due (record {
            stays = λ r g.
                call-Entry ctx _ _ (λ at _ _ db. refl) r
                  (call-Entry ctx _ _ (λ at _ _ db. refl) r
                    (call-Entry ctx _ s (λ at _ _ db. refl) r g));
            same = unfold call in refl;
          })
        ]

    pub start-Frame :
        (long : Bool) (job_id : ℕ) (s : State L)
        → Frame s (start_heartbeat api env instance_id job long job_id s).1
    unfolding start_heartbeat
    start-Frame true job_id s = record { stays = λ r g. g; same = refl }
    start-Frame false job_id s = record { stays = λ r g. g; same = refl }

    pub stop-Frame :
        (long : Bool) (job_id : ℕ) (s : State L)
        → Frame s (stop_heartbeat api env instance_id job long job_id s).1
    unfolding stop_heartbeat
    stop-Frame true job_id s = record { stays = λ r g. g; same = refl }
    stop-Frame false job_id s = record { stays = λ r g. g; same = refl }
