-- ===== src/Manager/State.antt =====
-- The types of pkg/job-manager.go: the `Job` interface, the `JobManager`, and what it uses of the
-- scheduler github.com/robfig/cron, which is a parameter.
use cron_lib.Base.{ℕ, ◌≡◌, String, Bool, Option, some, List}
use cron_lib.Registry.{Registered}

-- The values that the methods of a `Job` return; `next_run_time` reads the clock.
pub record Job : Type 0 where
  pub name : String
  pub lock : String
  pub tenant_id : String
  pub schedule : String
  pub is_long_running : Bool
  pub next_run_time : ℕ → ℕ

-- `*cron.Cron` with state `C`. `add_func` gives the entry's id, or `none` for a schedule that does not
-- parse, which leaves the scheduler as it was. `entry` is what the scheduler runs under an id.
pub record CronApi (C : Type 0) : Type 0 where
  pub new : C
  pub add_func : String → Job → C → Option (ℕ × C)
  pub remove : ℕ → C → C
  pub start : C → C
  pub stop : C → C
  pub entry : ℕ → C → Option Job

-- Documented behaviour: `AddFunc` adds an entry under a new id, and `Remove` takes the entry of an id
-- away, so after both every id has the entry that it had.
pub record CronLaws {C : Type 0} (api : CronApi C) : Type 0 where
  pub remove-add_func :
      (schedule : String) (job : Job) (c : C) (id : ℕ) (c' : C)
      → api.add_func schedule job c ≡ some (id, c')
      → (i : ℕ) → api.entry i (api.remove id c') ≡ api.entry i c

pub data Ticker : Type 0 where
  ticking stopped : Ticker

-- A channel is a number, and `none` the nil channel; `channels` counts the channels made so far.
pub record JobManager (C : Type 0) : Type 0 where
  pub cron : C
  pub jobs : List Job
  pub entry_ids : List (String × ℕ)
  pub instance_id : String
  pub is_running : Bool
  pub cleanup_ticker : Option Ticker
  pub stop_cleanup : Option ℕ
  pub channels : ℕ

-- The manager and the table that it registers its jobs in.
pub record World (C : Type 0) : Type 0 where
  pub jm : JobManager C
  pub registered : Registered

-- How the call of one statement ends: answered, with an error although it was executed, or with an
-- error and not executed.
pub data Fault : Type 0 where
  answered lost refused : Fault

abbrev pub executed {ℓ} : {S : Type ℓ} → Fault → S → S → S
executed answered old new = new
executed lost old new = new
executed refused old new = old

-- One call of the database: how it ends, the server's time, and the id for an inserted row.
pub record Call : Type 0 where
  pub fault : Fault
  pub now : ℕ
  pub new_id : ℕ

-- How a method ends: it returns, or it panics.
pub data Exit : Type 0 where
  returned panicked : Exit
