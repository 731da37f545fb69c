-- ===== src/Execution/Exclusion.antt =====
-- An execution of executeJobWithLock while another instance holds the lease of the job's row.
use cron_lib.Base.{
  ℕ, ◌+◌, ◌≤◌, ◌≡◌, refl, ap, ◌∙◌, String, Bool, true, false, Option, str_eq, [], arith, Bool-cases,
  inl, inr,
}
use cron_lib.Schema.{minutes, no_rows}
use cron_lib.Jobs.{AcquireParams, acquire_job_lock_in_db}
use cron_lib.Jobs.Held.{Held}
use cron_lib.Jobs.Exclusion.{Held-refused}
use cron_lib.Manager.State.{Job, Fault, answered, lost, refused}
use cron_lib.Execution.World.{
  AdvisoryApi, Db, Env, State, Result, ok, err, Statement, call, expired, settle,
}
use cron_lib.Execution.{
  update_audit_log_status, create_audit_log, try_advisory_lock, release_advisory_lock,
  acquire_job_lock, acquire_params, after_lease, with_lock, after_try, execute_job_with_lock,
}
use cron_lib.Execution.Runs.{has_run, is_error, call-keeps, after_lease-has_run}

module _ {L : Type 0} (api : AdvisoryApi L) (env : Env L) (instance_id : String) (job : Job)
    (id since : ℕ) (owner : String) where
  abbrev pub IsHeld : Db L → Type 0
  IsHeld db = Held job.tenant_id job.lock id since owner db.jobs

  module _ (spares : (n : ℕ) (db : Db L) → IsHeld db → IsHeld (env.interfere n db)) where
    create-IsHeld :
        (now : ℕ) (s : State L)
        → IsHeld s.db
        → IsHeld (create_audit_log api env instance_id job now s).1.db
    unfolding create_audit_log
    create-IsHeld now s h = call-keeps env IsHeld _ _ s spares (λ at new_id session db g. g) h

    try-IsHeld :
        (ctx : Option ℕ) (s : State L)
        → IsHeld s.db
        → IsHeld (try_advisory_lock api env instance_id job ctx s).1.db
    unfolding try_advisory_lock
    try-IsHeld ctx s h = call-keeps env IsHeld ctx _ s spares (λ at new_id session db g. g) h

    -- A call whose statement finds no row returns an error, whatever becomes of it.
    call-error :
        {A : Type 0} (ctx : Option ℕ) (statement : Statement L A) (s : State L)
        → (statement
            (env.server_clock s.calls)
            (env.new_id s.calls)
            (env.session s.calls)
            (env.interfere s.calls s.db)).0
          ≡ no_rows
        → is_error (call env ctx statement s).0 ≡ true
    unfolding call
    call-error ctx statement s none_there =
        elim (Bool-cases (expired ctx (env.local_clock s.calls))) [
          | inl late ↦ rw late refl
          | inr timely ↦ rw timely (ended (env.fault s.calls))
        ]
      where
        ended :
            (f : Fault)
            → is_error
                (settle env s.calls f (env.interfere s.calls s.db) (
                  statement
                    (env.server_clock s.calls)
                    (env.new_id s.calls)
                    (env.session s.calls)
                    (env.interfere s.calls s.db))).0
              ≡ true
        ended answered = rw none_there refl
        ended lost = refl
        ended refused = refl

    acquire-error :
        (ctx : Option ℕ) (now : ℕ) (s : State L)
        → now ≤ since + minutes 10
        → IsHeld s.db
        → is_error (acquire_job_lock api env instance_id job ctx now s).0 ≡ true
    unfolding acquire_job_lock acquire_params
    acquire-error ctx now s le h = call-error ctx _ s (
        ap (λ x. x.0)
          (Held-refused job.tenant_id job.lock id since owner (env.server_clock s.calls)
            (env.new_id s.calls)
            (acquire_params api env instance_id job now
              (job.next_run_time (env.local_clock s.calls)))
            (env.interfere s.calls s.db).jobs refl refl le (spares s.calls s.db h)))

    acquire-IsHeld :
        (ctx : Option ℕ) (now : ℕ) (s : State L)
        → now ≤ since + minutes 10
        → IsHeld s.db
        → IsHeld (acquire_job_lock api env instance_id job ctx now s).1.db
    unfolding acquire_job_lock acquire_params
    acquire-IsHeld ctx now s le h =
        call-keeps env IsHeld ctx _ s spares (λ at new_id session db g. refusal at new_id db g) h
      where
        p : AcquireParams
        p = acquire_params api env instance_id job now (job.next_run_time (env.local_clock s.calls))

        refusal :
            (at new_id : ℕ) (db : Db L)
            → IsHeld db
            → Held job.tenant_id job.lock id since owner
                (acquire_job_lock_in_db at new_id p db.jobs).1
        refusal at new_id db g =
            rw
              (Held-refused job.tenant_id job.lock id since owner at new_id p db.jobs refl refl le
                g)
              g

    report-IsHeld :
        (audit_id : ℕ) (status : String) (output error : Option String) (s : State L)
        → IsHeld s.db
        → IsHeld
            (update_audit_log_status api env instance_id job audit_id status output error s).1.db
    unfolding update_audit_log_status
    report-IsHeld audit_id status output error s h =
        call-keeps env IsHeld _ _ s spares (λ at new_id session db g. g) h

    release-IsHeld :
        (s : State L) → IsHeld s.db → IsHeld (release_advisory_lock api env instance_id job s).1.db
    unfolding release_advisory_lock
    release-IsHeld s h = call-keeps env IsHeld _ _ s spares (λ at new_id session db g. g) h

    -- What an execution that is refused leaves.
    abbrev Skipped : State L → State L → Type 0
    Skipped s s' = (has_run s'.trace ≡ has_run s.trace) × IsHeld s'.db

    after_lease-Skipped :
        (ctx : Option ℕ) (now audit_id : ℕ) (r : Result ℕ) (s : State L)
        → is_error r ≡ true
        → IsHeld s.db
        → Skipped s (after_lease api env instance_id job ctx now audit_id r s).1
    unfolding after_lease
    after_lease-Skipped ctx now audit_id (ok a) s e h = absurd (ground (arith, e))
    after_lease-Skipped ctx now audit_id (err text) s e h = (
      after_lease-has_run api env instance_id job ctx now audit_id (err text) s e,
      elim (Bool-cases (str_eq env.no_rows_text text)) [
        | inl none_there ↦ rw none_there (report-IsHeld audit_id _ _ _ s h)
        | inr other ↦ rw other (report-IsHeld audit_id _ _ _ s h)
      ],
    )

    with_lock-Skipped :
        (ctx : Option ℕ) (now audit_id : ℕ) (s : State L)
        → now ≤ since + minutes 10
        → IsHeld s.db
        → Skipped s (with_lock api env instance_id job ctx now audit_id s).1
    unfolding with_lock
    with_lock-Skipped ctx now audit_id s le h =
        let s' = (acquire_job_lock api env instance_id job ctx now s).1 in
        let same : has_run s'.trace ≡ has_run s.trace = unfold acquire_job_lock call in refl in
        let (skipped, held) =
          after_lease-Skipped ctx now audit_id _ s' (acquire-error ctx now s le h)
            (acquire-IsHeld ctx now s le h) in
        (skipped ∙ same, held)

    after_try-Skipped :
        (ctx : Option ℕ) (now audit_id : ℕ) (r : Result Bool) (s : State L)
        → now ≤ since + minutes 10
        → IsHeld s.db
        → Skipped s (after_try api env instance_id job ctx now audit_id r s).1
    unfolding after_try
    after_try-Skipped ctx now audit_id (err text) s le h =
        (unfold update_audit_log_status call in refl, report-IsHeld audit_id _ _ _ s h)
    after_try-Skipped ctx now audit_id (ok false) s le h =
        (unfold update_audit_log_status call in refl, report-IsHeld audit_id _ _ _ s h)
    after_try-Skipped ctx now audit_id (ok true) s le h =
        let s' = (with_lock api env instance_id job ctx now audit_id s).1 in
        let (skipped, held) = with_lock-Skipped ctx now audit_id s le h in
        (unfold release_advisory_lock call in skipped, release-IsHeld s' held)

    -- While an instance holds the lease of a job's row, no other execution of the job runs it or ends the
    -- lease, whatever the database answers: where what the other clients do keeps the lease, and the
    -- execution starts with an empty trace at most ten minutes, by its own clock, after the lease
    -- was taken or renewed, it does not run the job, and the lease is held after it.
    pub leased_job_is_skipped :
        (s : State L)
        → s.trace ≡ []
        → env.local_clock s.calls ≤ since + minutes 10
        → IsHeld s.db
        → let s' = (execute_job_with_lock api env instance_id job s).1 in
          (has_run s'.trace ≡ false) × IsHeld s'.db
    unfolding execute_job_with_lock
    leased_job_is_skipped s e le h =
        let now = env.local_clock s.calls in
        let (skipped, held) =
          after_try-Skipped _ now _ _ _ le (try-IsHeld _ _ (create-IsHeld now s h)) in
        (skipped ∙ (unfold try_advisory_lock create_audit_log call in ap has_run e), held)
