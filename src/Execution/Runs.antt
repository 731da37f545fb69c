-- ===== src/Execution/Runs.antt =====
-- Which executions of executeJobWithLock come to run the job.
use cron_lib.Base.{
  ℕ, ◌≡◌, ◌≢◌, refl, String, str_eq, Bool, true, false, ◌||◌, Option, List, [], ◌∷◌, arith,
  Bool-cases, inl, inr,
}
use cron_lib.Schema.{Reply, row, no_rows, unique_violation, too_long}
use cron_lib.Manager.State.{Job, Fault, answered, lost, refused}
use cron_lib.Execution.World.{
  AdvisoryApi, Db, Env, Event, State, Result, ok, err, Statement, call, expired, settle,
}
use cron_lib.Execution.{update_audit_log_status, after_lease}

abbrev pub is_run : Event → Bool
is_run (Event.ran o) = true
is_run _ = false

-- The job was run.
abbrev pub has_run : List Event → Bool
has_run [] = false
has_run (e ∷ es) = is_run e || has_run es

abbrev pub is_error : {A : Type 0} → Result A → Bool
is_error (ok a) = false
is_error (err text) = true

module _ {L : Type 0} (api : AdvisoryApi L) (env : Env L) (instance_id : String) (job : Job) where
  pub after_lease-has_run :
      (ctx : Option ℕ) (now audit_id : ℕ) (r : Result ℕ) (s : State L)
      → is_error r ≡ true
      → has_run (after_lease api env instance_id job ctx now audit_id r s).1.trace ≡ has_run s.trace
  unfolding after_lease update_audit_log_status call
  after_lease-has_run ctx now audit_id (ok a) s e = ground arith
  after_lease-has_run ctx now audit_id (err text) s e =
      elim (Bool-cases (str_eq env.no_rows_text text)) [
        | inl none_there ↦ rw none_there refl
        | inr other ↦ rw other refl
      ]

-- A predicate of the database that the other clients keep, whatever becomes of the call, is kept by it
-- if the statement keeps it.
pub call-keeps :
    {L A : Type 0} (env : Env L) (P : Db L → Type 0) (ctx : Option ℕ) (statement : Statement L A)
    (s : State L)
    → ((n : ℕ) (db : Db L) → P db → P (env.interfere n db))
    → ((now new_id session : ℕ) (db : Db L) → P db → P (statement now new_id session db).1)
    → P s.db
    → P (call env ctx statement s).1.db
unfolding call
call-keeps env P ctx statement s stable keeps h =
    elim (Bool-cases (expired ctx (env.local_clock s.calls))) [
      | inl late ↦ rw late old
      | inr timely ↦ rw timely (ended (env.fault s.calls))
    ]
  where
    old : P (env.interfere s.calls s.db)
    old = stable s.calls s.db h

    ended :
        (f : Fault)
        → P
            (settle env s.calls f (env.interfere s.calls s.db) (
              statement
                (env.server_clock s.calls)
                (env.new_id s.calls)
                (env.session s.calls)
                (env.interfere s.calls s.db))).1
    ended answered = keeps _ _ _ _ old
    ended lost = keeps _ _ _ _ old
    ended refused = old

-- A call that was not refused has executed its statement.
pub settle-db :
    {L A : Type 0} (env : Env L) (n : ℕ) (f : Fault) (old : Db L) (p : Reply A × Db L)
    → f ≢ refused
    → (settle env n f old p).1 ≡ p.1
settle-db env n answered old p ne = refl
settle-db env n lost old p ne = refl
settle-db env n refused old p ne = absurd (ne refl)

settle-ok :
    {L A : Type 0} (env : Env L) (n : ℕ) (a : A) (f : Fault) (old : Db L) (p : Reply A × Db L)
    → (settle env n f old p).0 ≡ ok a
    → (p.0 ≡ row a) × ((settle env n f old p).1 ≡ p.1)
settle-ok env n a answered old (row b, db) e = (ground (arith, e), refl)
settle-ok env n a answered old (no_rows, db) e = absurd (ground (arith, e))
settle-ok env n a answered old (unique_violation, db) e = absurd (ground (arith, e))
settle-ok env n a answered old (too_long, db) e = absurd (ground (arith, e))
settle-ok env n a lost old p e = absurd (ground (arith, e))
settle-ok env n a refused old p e = absurd (ground (arith, e))

-- A call that returns a value has executed its statement.
pub call-ok :
    {L A : Type 0} (env : Env L) (ctx : Option ℕ) (a : A) (statement : Statement L A) (s : State L)
    → (call env ctx statement s).0 ≡ ok a
    → let p =
        statement
          (env.server_clock s.calls)
          (env.new_id s.calls)
          (env.session s.calls)
          (env.interfere s.calls s.db) in
      (p.0 ≡ row a) × ((call env ctx statement s).1.db ≡ p.1)
unfolding call
call-ok env ctx a statement s = elim (Bool-cases (expired ctx (env.local_clock s.calls))) [
  | inl late ↦ rw late (λ e. absurd (ground (arith, e)))
  | inr timely ↦ rw timely (λ e. settle-ok env s.calls a (env.fault s.calls) _ _ e)
]
