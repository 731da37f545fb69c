-- ===== src/Execution/World.antt =====
-- One execution of a job against the database: the database that all instances share, what the
-- environment decides, and the call of one statement.
use cron_lib.Base.{ℕ, ◌+◌, String, Bool, false, Option, none, some, List, ◌∷◌, if◌then◌else◌, leb}
use cron_lib.Schema.{Reply, row, no_rows, unique_violation, too_long}
use cron_lib.Jobs.{Jobs}
use cron_lib.Audit.{AuditLogs}
use cron_lib.Registry.{Registered}
use cron_lib.Manager.State.{Fault, answered, lost, refused}

-- PostgreSQL's session-level advisory locks with state `L`: `pg_try_advisory_lock` and
-- `pg_advisory_unlock`, called on a session, with the lock's key.
pub record AdvisoryApi (L : Type 0) : Type 0 where
  pub try_lock : ℕ → ℕ → L → Bool × L
  pub unlock : ℕ → ℕ → L → Bool × L

pub record Db (L : Type 0) : Type 0 where
  pub jobs : Jobs
  pub audit_logs : AuditLogs
  pub registered : Registered
  pub locks : L

-- How `job.Run` ends. A panic carries the text that `%v` prints of its value.
pub data Outcome : Type 0 where
  succeeded : Outcome
  failed panicked : String → Outcome

-- What the environment decides of an execution. The calls of the database are numbered in order; for
-- each: how it ends and with which error, the server's and the instance's clock, the id for an inserted
-- row, the pooled connection (a session) that carries it, and what the other clients of the database,
-- the heartbeats of this job among them, have done since the call before.
pub record Env (L : Type 0) : Type 0 where
  pub fault : ℕ → Fault
  pub error : ℕ → String
  pub server_clock : ℕ → ℕ
  pub local_clock : ℕ → ℕ
  pub new_id : ℕ → ℕ
  pub session : ℕ → ℕ
  pub interfere : ℕ → Db L → Db L
  pub outcome : Outcome
  pub request_id : String
  pub minute_of : ℕ → ℕ
  pub no_rows_text : String
  pub unique_text : String
  pub too_long_text : String
  pub deadline_text : String

-- What the execution asks of the database and of the job, with the answers, newest first.
pub data Event : Type 0 where
  opened : Event
  tried : ℕ → Bool → Event
  leased : Option ℕ → Event
  heartbeat_started heartbeat_stopped : ℕ → Event
  ran : Outcome → Event
  marked : ℕ → String → Event
  reported : String → Event
  cleaned : Event
  released : ℕ → Event

pub record State (L : Type 0) : Type 0 where
  pub db : Db L
  pub calls : ℕ
  pub trace : List Event

-- A value, or the text of an error.
pub data Result (A : Type 0) : Type 0 where
  ok : A → Result A
  err : String → Result A

abbrev pub M : Type 0 → Type 0 → Type 0
M L A = State L → A × State L

infixl 5 ◌>>=◌ ◌>>◌
abbrev pub ◌>>=◌ : {L A B : Type 0} → M L A → (A → M L B) → M L B
◌>>=◌ m f s = let (a, s') = m s in f a s'

abbrev pub ◌>>◌ : {L A B : Type 0} → M L A → M L B → M L B
m >> k = m >>= λ _. k

abbrev pub emit : {L : Type 0} → Event → M L (Unit {0})
emit e s = (tt, record s { trace = e ∷ s.trace })

abbrev pub skip : {L : Type 0} → M L (Unit {0})
skip s = (tt, s)

-- The statement of a call, at the server's time, with an id, on a session.
abbrev pub Statement : Type 0 → Type 0 → Type 0
Statement L A = ℕ → ℕ → ℕ → Db L → Reply A × Db L

abbrev pub of_reply : {L A : Type 0} → Env L → Reply A → Result A
of_reply env (row a) = ok a
of_reply env no_rows = err env.no_rows_text
of_reply env unique_violation = err env.unique_text
of_reply env too_long = err env.too_long_text

abbrev pub settle : {L A : Type 0} → Env L → ℕ → Fault → Db L → Reply A × Db L → Result A × Db L
settle env n answered old (reply, new) = (of_reply env reply, new)
settle env n lost old (reply, new) = (err (env.error n), new)
settle env n refused old (reply, new) = (err (env.error n), old)

abbrev pub expired : Option ℕ → ℕ → Bool
expired none now = false
expired (some deadline) now = leb deadline now

-- A call under a context with a deadline: once that has passed, the statement is not sent.
unfoldable pub call : {L A : Type 0} → Env L → Option ℕ → Statement L A → M L (Result A)
call env deadline statement s =
    let n = s.calls in
    let old = env.interfere n s.db in
    let sent = statement (env.server_clock n) (env.new_id n) (env.session n) old in
    let (result, new) =
      if expired deadline (env.local_clock n)
      then (err env.deadline_text, old)
      else settle env n (env.fault n) old sent in
    (result, record s { db = new; calls = s.calls + 1 })
