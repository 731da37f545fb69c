-- ===== src/Execution/Locks.antt =====
-- The advisory lock of an execution of executeJobWithLock, as the session that carries its calls holds
-- it.
use cron_lib.Base.{
  ℕ, ◌+◌, ◌-◌, ◌*◌, ◌≡◌, ◌≢◌, refl, ap, ◌∙◌, String, str_eq, Bool, true, false, ◌||◌, ◌==◌, Option,
  some, arith, Bool-cases, inl, inr,
}
use cron_lib.Manager.State.{Job, answered, refused}
use cron_lib.Execution.World.{
  AdvisoryApi, Db, Outcome, succeeded, failed, panicked, Env, State, Result, ok, err, Statement,
  call, expired,
}
use cron_lib.Execution.{
  update_audit_log_status, create_audit_log, lock_id, try_advisory_lock, release_advisory_lock,
  acquire_job_lock, update_status_to_failed, update_status_to_completed, clean_up, conclude,
  start_heartbeat, stop_heartbeat, run_job, after_lease, with_lock, after_try,
  execute_job_with_lock,
}
use cron_lib.Execution.Runs.{call-keeps, settle-db}

-- What PostgreSQL documents of advisory locks, where a session holds a key a number of times: a try that
-- is granted adds one, a try that is not leaves it, and an unlock takes one away.
pub record HoldLaws {L : Type 0} (api : AdvisoryApi L) (holds : ℕ → ℕ → L → ℕ) : Type 0 where
  pub granted :
      (session key : ℕ) (locks : L)
      → (api.try_lock session key locks).0 ≡ true
      → holds session key (api.try_lock session key locks).1 ≡ holds session key locks + 1
  pub not_granted :
      (session key : ℕ) (locks : L)
      → (api.try_lock session key locks).0 ≡ false
      → holds session key (api.try_lock session key locks).1 ≡ holds session key locks
  pub unlocked :
      (session key : ℕ) (locks : L)
      → holds session key (api.unlock session key locks).1 ≡ holds session key locks - 1

module _ {L : Type 0} (api : AdvisoryApi L) (env : Env L) (instance_id : String) (job : Job)
    (holds : ℕ → ℕ → L → ℕ) (laws : HoldLaws api holds) (session : ℕ)
    (pinned : (n : ℕ) → env.session n ≡ session)
    (apart : (n : ℕ) (db : Db L)
      → holds session (lock_id api env instance_id job) (env.interfere n db).locks
        ≡ holds session (lock_id api env instance_id job) db.locks)
    (delivered : (n : ℕ) → env.fault n ≢ refused) where
  abbrev key : ℕ
  key = lock_id api env instance_id job

  -- How often the session holds the lock of the job.
  abbrev count_of : State L → ℕ
  count_of s = holds session key s.db.locks

  -- A part of the execution that leaves the session's hold on the lock.
  record Same (s s' : State L) : Type 0 where
    same : count_of s' ≡ count_of s

  then-Same : (s t u : State L) → Same s t → Same t u → Same s u
  then-Same s t u a b = record { same = b.same ∙ a.same }

  call-count_of :
      {A : Type 0} (ctx : Option ℕ) (statement : Statement L A) (s : State L)
      → ((now new_id session' : ℕ) (db : Db L)
          → (statement now new_id session' db).1.locks ≡ db.locks)
      → count_of (call env ctx statement s).1 ≡ count_of s
  call-count_of ctx statement s leaves =
      call-keeps env (λ db. holds session key db.locks ≡ count_of s) ctx statement s
        (λ n db e. apart n db ∙ e)
        (λ now new_id session' db e. ap (holds session key) (leaves now new_id session' db) ∙ e)
        refl

  create-Same : (now : ℕ) (s : State L) → Same s (create_audit_log api env instance_id job now s).1
  unfolding create_audit_log
  create-Same now s = record { same = call-count_of _ _ s (λ at _ _ db. refl) }

  report-Same :
      (id : ℕ) (status : String) (output error : Option String) (s : State L)
      → Same s (update_audit_log_status api env instance_id job id status output error s).1
  unfolding update_audit_log_status
  report-Same id status output error s = record { same = call-count_of _ _ s (λ at _ _ db. refl) }

  acquire-Same :
      (ctx : Option ℕ) (now : ℕ) (s : State L)
      → Same s (acquire_job_lock api env instance_id job ctx now s).1
  unfolding acquire_job_lock
  acquire-Same ctx now s = record { same = call-count_of ctx _ s (λ at _ _ db. refl) }

  completed-Same :
      (ctx : Option ℕ) (id : ℕ) (s : State L)
      → Same s (update_status_to_completed api env instance_id job ctx id s).1
  unfolding update_status_to_completed
  completed-Same ctx id s = record { same = call-count_of ctx _ s (λ at _ _ db. refl) }

  failed-Same :
      (ctx : Option ℕ) (id : ℕ) (s : State L)
      → Same s (update_status_to_failed api env instance_id job ctx id s).1
  unfolding update_status_to_failed
  failed-Same ctx id s = record { same = call-count_of ctx _ s (λ at _ _ db. refl) }

  clean_up-Same :
      (ctx : Option ℕ) (now : ℕ) (s : State L)
      → Same s (clean_up api env instance_id job ctx now s).1
  unfolding clean_up
  clean_up-Same ctx now s =
      elim (Bool-cases (str_eq job.name "system.cleanup" || env.minute_of now == 0)) [
        | inr not_due ↦ rw not_due (record { same = refl })
        | inl due ↦ rw due (record {
          same =
              call-count_of ctx _ _ (λ at _ _ db. refl)
              ∙ call-count_of ctx _ _ (λ at _ _ db. refl)
              ∙ call-count_of ctx _ s (λ at _ _ db. refl);
        })
      ]

  start-Same :
      (long : Bool) (id : ℕ) (s : State L)
      → Same s (start_heartbeat api env instance_id job long id s).1
  unfolding start_heartbeat
  start-Same true id s = record { same = refl }
  start-Same false id s = record { same = refl }

  stop-Same :
      (long : Bool) (id : ℕ) (s : State L)
      → Same s (stop_heartbeat api env instance_id job long id s).1
  unfolding stop_heartbeat
  stop-Same true id s = record { same = refl }
  stop-Same false id s = record { same = refl }

  conclude-Same :
      (ctx : Option ℕ) (now audit_id id : ℕ) (o : Outcome) (s : State L)
      → Same s (conclude api env instance_id job ctx now audit_id id o s).1
  unfolding conclude
  conclude-Same ctx now audit_id id succeeded s =
      then-Same _ _ _ (completed-Same ctx id s)
        (then-Same _ _ _ (report-Same audit_id _ _ _ _) (clean_up-Same ctx now _))
  conclude-Same ctx now audit_id id (failed text) s =
      then-Same _ _ _ (failed-Same ctx id s)
        (then-Same _ _ _ (report-Same audit_id _ _ _ _) (clean_up-Same ctx now _))
  conclude-Same ctx now audit_id id (panicked text) s =
      then-Same _ _ _ (failed-Same _ id s) (report-Same audit_id _ _ _ _)

  run_job-Same :
      (ctx : Option ℕ) (now audit_id id : ℕ) (s : State L)
      → Same s (run_job api env instance_id job ctx now audit_id id s).1
  unfolding run_job
  run_job-Same ctx now audit_id id s = record {
    same =
        (stop-Same job.is_long_running id _).same
        ∙ (conclude-Same ctx now audit_id id env.outcome _).same
        ∙ (start-Same job.is_long_running id s).same;
  }

  after_lease-Same :
      (ctx : Option ℕ) (now audit_id : ℕ) (r : Result ℕ) (s : State L)
      → Same s (after_lease api env instance_id job ctx now audit_id r s).1
  unfolding after_lease
  after_lease-Same ctx now audit_id (ok id) s = run_job-Same ctx now audit_id id s
  after_lease-Same ctx now audit_id (err text) s =
      elim (Bool-cases (str_eq env.no_rows_text text)) [
        | inl none_there ↦ rw none_there (report-Same audit_id _ _ _ s)
        | inr other ↦ rw other (report-Same audit_id _ _ _ s)
      ]

  with_lock-Same :
      (ctx : Option ℕ) (now audit_id : ℕ) (s : State L)
      → Same s (with_lock api env instance_id job ctx now audit_id s).1
  unfolding with_lock
  with_lock-Same ctx now audit_id s =
      then-Same _ _ _ (acquire-Same ctx now s) (after_lease-Same ctx now audit_id _ _)

  -- The hold after a try with the answer `r`.
  abbrev bumped : Result Bool → ℕ → ℕ
  bumped (ok true) n = n + 1
  bumped (ok false) n = n
  bumped (err text) n = n

  release-count_of :
      (s : State L) → count_of (release_advisory_lock api env instance_id job s).1 ≡ count_of s - 1
  unfolding release_advisory_lock call
  release-count_of s =
      rw (timely, settle-db env s.calls _ _ _ (delivered s.calls), pinned s.calls)
        (laws.unlocked session key (env.interfere s.calls s.db).locks
          ∙ ap (λ n. n - 1) (apart s.calls s.db))
    where
      timely :
          expired (some (env.local_clock s.calls + 5 * 1000000)) (env.local_clock s.calls) ≡ false
      timely = ground arith

  try-count_of :
      (ctx : Option ℕ) (s : State L)
      → env.fault s.calls ≡ answered
      → let (r, s') = try_advisory_lock api env instance_id job ctx s in
        count_of s' ≡ bumped r (count_of s)
  unfolding try_advisory_lock call
  try-count_of ctx s reached = elim (Bool-cases (expired ctx (env.local_clock s.calls))) [
    | inl late ↦ rw late (apart s.calls s.db)
    | inr timely ↦
        rw (timely, reached, pinned s.calls)
          (elim (Bool-cases (api.try_lock session key (env.interfere s.calls s.db).locks).0) [
            | inl free ↦
                rw free (laws.granted session key _ free ∙ ap (λ n. n + 1) (apart s.calls s.db))
            | inr busy ↦ rw busy (laws.not_granted session key _ busy ∙ apart s.calls s.db)
          ])
  ]

  after_try-count_of :
      (ctx : Option ℕ) (now audit_id n : ℕ) (r : Result Bool) (s : State L)
      → count_of s ≡ bumped r n
      → count_of (after_try api env instance_id job ctx now audit_id r s).1 ≡ n
  unfolding after_try
  after_try-count_of ctx now audit_id n (err text) s e = (report-Same audit_id _ _ _ s).same ∙ e
  after_try-count_of ctx now audit_id n (ok false) s e = (report-Same audit_id _ _ _ s).same ∙ e
  after_try-count_of ctx now audit_id n (ok true) s e =
      release-count_of _
      ∙ ap (λ m. m - 1) ((with_lock-Same ctx now audit_id s).same ∙ e)
      ∙ (ground arith)

  -- Where all calls go over one session, whose hold on the lock other clients do not change, every call
  -- that is sent is executed, and the answer to the second, that of the try, is not lost: the session
  -- holds the job's advisory lock after an execution as often as before it. So the lock is given
  -- back whenever it was granted and only then, however the job ends, a panic included.
  pub execution_returns_advisory_lock :
      (s : State L)
      → env.fault (s.calls + 1) ≡ answered
      → holds session
          (lock_id api env instance_id job)
          (execute_job_with_lock api env instance_id job s).1.db.locks
        ≡ holds session (lock_id api env instance_id job) s.db.locks
  unfolding execute_job_with_lock
  execution_returns_advisory_lock s reached =
      let now = env.local_clock s.calls in
      let opened = (create_audit_log api env instance_id job now s).1 in
      let ctx = some (env.local_clock opened.calls + 60000000) in
      let r = (try_advisory_lock api env instance_id job ctx opened).0 in
      let answered_in_time : env.fault opened.calls ≡ answered =
        unfold create_audit_log call in reached in
      after_try-count_of ctx now _ (count_of s) r _
        (try-count_of ctx opened answered_in_time ∙ ap (bumped r) (create-Same now s).same)
