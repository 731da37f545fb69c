-- ===== src/Schema.antt =====
-- The rows of the three tables, pkg/db/repository/models.go and the migrations beside it.
--
-- A `uuid` is a number, and `uuid.Nil` is 0. A time is a number of microseconds, the unit that
-- PostgreSQL keeps. A nullable column is an `Option`.
use Prim.Native.Nat.{zero, suc}
use Prim.Native.Char.{Char, code}
use cron_lib.Base.{
  ℕ, ◌*◌, ◌+◌, String, Bool, true, false, ◌&&◌, ◌==◌, if◌then◌else◌, Option, none, some, ltb,
}

pub record CronJob : Type 0 where
  pub id : ℕ
  pub lock : String
  pub job_name : String
  pub status : String
  pub last_execution_time : Option ℕ
  pub next_execution_time : Option ℕ
  pub locked_by : Option String
  pub locked_at : Option ℕ
  pub tenant_id : String
  pub created_at : ℕ
  pub updated_at : ℕ

pub record CronJobAuditLog : Type 0 where
  pub id : ℕ
  pub app_id : String
  pub request_id : String
  pub job_name : String
  pub scheduled_time : Option ℕ
  pub start_time : Option ℕ
  pub end_time : Option ℕ
  pub status : String
  pub output : Option String
  pub error : Option String
  pub user_id : String
  pub tenant_id : String
  pub created_at : Option ℕ
  pub updated_at : Option ℕ

pub record CronRegisteredJob : Type 0 where
  pub id : ℕ
  pub job_name : String
  pub schedule : String
  pub is_long_running : Bool
  pub is_enabled : Bool
  pub last_registered_at : ℕ
  pub instance_id : String
  pub tenant_id : String
  pub created_at : ℕ
  pub updated_at : ℕ

abbrev pub nil_uuid : ℕ
nil_uuid = 0

abbrev pub minutes : ℕ → ℕ
minutes n = n * 60000000

-- SQL's `at < now - INTERVAL age`: a comparison with NULL is not true.
abbrev pub older_than : ℕ → ℕ → Option ℕ → Bool
older_than now age none = false
older_than now age (some at) = ltb (at + age) now

-- The one row of a `:one` query, or `pgx.ErrNoRows`, or a violated unique constraint,
-- or a value that is too long for the type of its column.
pub data Reply {ℓ} (A : Type ℓ) : Type ℓ where
  row : A → Reply A
  no_rows : Reply A
  unique_violation : Reply A
  too_long : Reply A

abbrev pub or_no_rows {ℓ} : {A : Type ℓ} → Option A → Reply A
or_no_rows none = no_rows
or_no_rows (some a) = row a

abbrev is_blank : String → Bool
is_blank String.[] = true
is_blank (String.◌∷◌ c s) = code c == 32 && is_blank s

abbrev prepend : Char → Option String → Option String
prepend c none = none
prepend c (some s) = some (String.◌∷◌ c s)

-- What a column of type VARCHAR(n) stores of a text: PostgreSQL cuts spaces off at the end, and refuses
-- any other text that is too long.
unfoldable pub varchar : ℕ → String → Option String
varchar zero s = if is_blank s then some "" else none
varchar (suc n) String.[] = some ""
varchar (suc n) (String.◌∷◌ c s) = prepend c (varchar n s)

-- SQL's COALESCE(new, old).
abbrev pub coalesce {ℓ} : {A : Type ℓ} → Option A → Option A → Option A
coalesce none old = old
coalesce (some new) old = some new
