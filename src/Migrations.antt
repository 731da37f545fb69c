-- ===== src/Migrations.antt =====
-- The migrations: NewStore and migrate of pkg/db/store.go, the handlers of pkg/api/migration_handler.go,
-- and RegisterHandler of pkg/api/cron_handler.go, which sets the library up. What the library function
-- sqlservice.MigrateUp or MigrateDown does to the database is a parameter: its error and the state after.
pub mod Laws
use Prim.Native.String.{String}
use cron_lib.Base.{
  ℕ, Bool, true, false, ◌&&◌, ◌||◌, ◌==◌, Option, none, some, List, [], ◌∷◌, if◌then◌else◌,
}
use cron_lib.Manager.Keys.{codes}
use cron_lib.Manager.State.{CronApi, JobManager}
use cron_lib.Manager.Methods.{init_job_manager, start_scheduler}
use cron_lib.Api.{no_body, error_text, Response, respond}

-- `strings.Contains`, on the code points.
unfoldable pub starts_with : List ℕ → List ℕ → Bool
starts_with [] text = true
starts_with (p ∷ ps) [] = false
starts_with (p ∷ ps) (c ∷ cs) = p == c && starts_with ps cs

unfoldable pub is_infix : List ℕ → List ℕ → Bool
is_infix pattern [] = starts_with pattern []
is_infix pattern (c ∷ cs) = starts_with pattern (c ∷ cs) || is_infix pattern cs

unfoldable pub contains : String → String → Bool
unfolding is_infix
contains text pattern = is_infix (codes pattern) (codes text)

module _ {S : Type 0} where
  -- `once.Do`: the flag of the `sync.Once`, and the state. The error of MigrateUp is dropped.
  unfoldable pub migrate : (S → Option String × S) → Bool × S → Bool × S
  migrate up (true, s) = (true, s)
  migrate up (false, s) = (true, (up s).1)

  -- NewStore
  unfoldable pub new_store : (S → Option String × S) → Bool → Bool × S → Bool × S
  new_store up skip_migration once = if skip_migration then once else migrate up once

  abbrev pub migrated_up : Option String × S → Response (Unit {0}) × S
  migrated_up (none, s) = (respond 201 no_body, s)
  migrated_up (some text, s) = (respond 500 (error_text text), s)

  -- MigrationHandler.MigrateUp; the flag is `access.IsSuperAdmin`.
  unfoldable pub handle_migrate_up : (S → Option String × S) → Bool → S → Response (Unit {0}) × S
  handle_migrate_up up false s = (respond 403 (error_text "Super Admin privileges required"), s)
  handle_migrate_up up true s = migrated_up (up s)

  abbrev pub migrated_down : Option String × S → Response (Unit {0}) × S
  migrated_down (none, s) = (respond 204 no_body, s)
  migrated_down (some text, s) =
      (if contains text "TRUNCATE" then respond 204 no_body else respond 500 (error_text text), s)

  -- MigrationHandler.MigrateDown
  unfoldable pub handle_migrate_down : (S → Option String × S) → Bool → S → Response (Unit {0}) × S
  handle_migrate_down down false s = (respond 403 (error_text "Super Admin privileges required"), s)
  handle_migrate_down down true s = migrated_down (down s)

  -- newJobManager makes a store that skips the migration.
  abbrev pub init_store {ℓ} :
      {J : Type ℓ} → (S → Option String × S) → Option J → Bool × S → Bool × S
  init_store up none once = new_store up true once
  init_store up (some _) once = once

-- A process: the singleton of the manager, and the flag of the `sync.Once` with the database.
pub record Process (C S : Type 0) : Type 0 where
  pub instance_of : Option (JobManager C)
  pub once : Bool × S

module _ {C S : Type 0} (api : CronApi C) (up : S → Option String × S) where
  -- RegisterHandler without its last call, the registration of the routes: the manager, its scheduler,
  -- and the store. `new_id` is the id that a new manager would get.
  unfoldable pub register_handler : String → Process C S → Process C S
  register_handler new_id p = record {
    instance_of = some (start_scheduler api (init_job_manager api new_id p.instance_of));
    once = new_store up false (init_store up p.instance_of p.once);
  }
