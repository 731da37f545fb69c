-- ===== src/Tests/Manager.antt =====
-- The job manager of job-manager.go with a small scheduler.
use Prim.Native.String.{String}
use cron_lib.Base.{
  ℕ, ◌+◌, ◌%◌, ◌^◌, ◌≤◌, ◌<◌, ◌≡◌, ◌≢◌, refl, ◌==◌, str_eq, true, false, Option, none, some, List,
  [], ◌∷◌, length, if◌then◌else◌, arith,
}
use cron_lib.Base.Dict.{lookup}
use cron_lib.Base.{Distinct, find_where, ◌++◌ as ◌+++◌}
use cron_lib.Schema.{CronRegisteredJob}
use cron_lib.Registry.{has_name, cleanup_stale_registered_jobs, delete_registered_job}
use cron_lib.Manager.Keys.{
  job_key, job_lock_to_lock_id, codes, horner, hash_loop, job_key-injective,
  job_lock_to_lock_id-horner,
}
use cron_lib.Manager.State.{
  Job, CronApi, CronLaws, World, Call, answered, executed, refused, panicked, stopped,
}
use cron_lib.Manager.Methods.{
  init_job_manager, key_of, register_job, unregister_job, stop_scheduler, new_job_manager,
  schedule_job, schedule_all, start_scheduler, start_cleanup_routine,
}
use cron_lib.Manager.Lifecycle.{Op, register, start, step, run, init, stop_scheduler_panics}
use cron_lib.Manager.Registration.{IsConsistent, reachable-IsConsistent}
use cron_lib.Manager.Entries.{IsSame, unregister-register}
use cron_lib.Manager.Coverage.{reachable-HasEntry}
use cron_lib.Manager.Restart.{register_job-enables, registration_expires}
use cron_lib.Registry.Laws.{same_name}
use cron_lib.Manager.Collision.{unregister_job_wrong}

-- A board has one place for each entry ever added, newest first, which a removal empties.
abbrev Board : Type 0
Board = List (Option Job)

abbrev on_board : ℕ → Board → Option Job
on_board i [] = none
on_board i (x ∷ xs) = if i == length xs then x else on_board i xs

abbrev take_off : ℕ → Board → Board
take_off i [] = []
take_off i (x ∷ xs) = if i == length xs then none ∷ xs else x ∷ take_off i xs

abbrev put_on : String → Job → Board → Option (ℕ × Board)
put_on schedule job board =
    if str_eq schedule "" then none else some (length board, some job ∷ board)

abbrev board_api : CronApi Board
board_api = record {
  new = [];
  add_func = put_on;
  remove = take_off;
  start = λ board. board;
  stop = λ board. board;
  entry = on_board;
}

on_board-past : (i : ℕ) (board : Board) → length board ≤ i → on_board i board ≡ none
on_board-past i [] le = refl
on_board-past i (x ∷ xs) le = ground (arith, on_board-past i xs)

board_laws : CronLaws board_api
board_laws = record {
  remove-add_func = λ schedule job c id c' e i. ground (arith, on_board-past i c);
}

-- The first letter of "t" is no colon.
not_colon : ◌≢◌ {A = ℕ} 116 58
not_colon e = omega (arith, e)

abbrev echo : Job
echo = record {
  name = "echo";
  lock = "echo";
  tenant_id = "t";
  schedule = "@hourly";
  is_long_running = false;
  next_run_time = λ now. now + 3600000000;
}

-- A job of a tenant "a:b".
abbrev clear : Job
clear = record echo { name = "clear"; tenant_id = "a:b" }

abbrev reply : Call
reply = record { fault = answered; now = 1; new_id = 1 }

abbrev started : List Op
started = register echo reply ∷ start ∷ []

abbrev world : World Board
world = init board_api "i" []

stop_scheduler_panics_example :
    let w = run board_api started world in
    stop_scheduler board_api w.jm ≡ (panicked, record (w.jm) { cleanup_ticker = some stopped })
unfolding run step init start_scheduler start_cleanup_routine schedule_all schedule_job register_job
    new_job_manager
stop_scheduler_panics_example = stop_scheduler_panics board_api "i" [] started refl

reachable-IsConsistent_example : IsConsistent board_api (run board_api started world).jm
reachable-IsConsistent_example = reachable-IsConsistent board_api "i" [] started

reachable-HasEntry_example : lookup (key_of echo) (run board_api started world).jm.entry_ids ≢ none
unfolding run step init start_scheduler start_cleanup_routine schedule_all schedule_job register_job
    new_job_manager
reachable-HasEntry_example =
    reachable-HasEntry board_api "i" [] started ((not_colon, tt), (tt, tt)) refl [] echo [] refl
      parses
  where
    parses : (c : Board) → put_on "@hourly" echo c ≢ none
    parses c e = ground arith

unregister-register_example :
    let old = run board_api started world in
    let w = unregister_job board_api "clear" "a:b" reply (register_job board_api clear reply old) in
    IsSame board_api board_laws w.jm old.jm
    × (w.registered
        ≡ executed answered
            (register_job board_api clear reply old).registered
            (delete_registered_job "clear" "a:b" old.registered))
unfolding run step init start_scheduler start_cleanup_routine schedule_all schedule_job register_job
    new_job_manager job_key
unregister-register_example =
    unregister-register board_api board_laws clear reply reply (run board_api started world)
      (reachable-IsConsistent board_api "i" [] started) refl

abbrev with_clear : List Op
with_clear = register clear reply ∷ start ∷ []

unregister_job_wrong_example :
    let w = run board_api with_clear world in
    let jm = (unregister_job board_api "b:clear" "a" reply w).jm in
    (jm.jobs ≡ w.jm.jobs) × (lookup (key_of clear) jm.entry_ids ≡ none)
unfolding run step init start_scheduler start_cleanup_routine schedule_all schedule_job register_job
    new_job_manager job_key
unregister_job_wrong_example =
    unregister_job_wrong board_api clear "b:clear" "a" reply (run board_api with_clear world) refl
      refl (refl, tt)

job_key-injective_example : ◌≡◌ {A = String} "t" "t" × ◌≡◌ {A = String} "a:b" "a:b"
job_key-injective_example =
    job_key-injective "a:b" "a:b" "t" "t" (not_colon, tt) (not_colon, tt) refl

echo_lock_id : job_lock_to_lock_id "echo" "t" ≡ 449318962
unfolding job_lock_to_lock_id hash_loop job_key
echo_lock_id = refl

job_lock_to_lock_id-horner_example :
    (job_lock_to_lock_id "echo" "t" ≡ horner 5381 (codes (job_key "echo" "t")) % 2 ^ 32)
    × (job_lock_to_lock_id "echo" "t" < 2 ^ 32)
job_lock_to_lock_id-horner_example = job_lock_to_lock_id-horner "echo" "t"

-- A registration of an earlier instance that was switched off.
abbrev switched_off : CronRegisteredJob
switched_off = record {
  id = 3;
  job_name = "echo";
  schedule = "@hourly";
  is_long_running = false;
  is_enabled = false;
  last_registered_at = 5;
  instance_id = "h";
  tenant_id = "t";
  created_at = 5;
  updated_at = 6;
}

abbrev restarted : World Board
restarted = init board_api "i" (switched_off ∷ [])

not_refused : answered ≢ refused
not_refused e = cc

register_job-enables_example :
    (r : CronRegisteredJob) × (find_where
        (has_name "t" "echo")
        (register_job board_api echo reply restarted).registered
      ≡ some r)
    × (r.is_enabled ≡ true)
    × (r.last_registered_at ≡ 1)
    × Distinct same_name (register_job board_api echo reply restarted).registered
unfolding init new_job_manager
register_job-enables_example =
    register_job-enables board_api echo reply restarted refl not_refused (tt, tt)

registration_expires_example :
    let w = register_job board_api echo reply restarted in
    (w.jm.jobs ≡ restarted.jm.jobs +++ echo ∷ [])
    × (find_where (has_name "t" "echo") (cleanup_stale_registered_jobs 86400000002 "t" w.registered)
        ≡ none)
unfolding init new_job_manager
registration_expires_example =
    registration_expires board_api echo reply restarted 86400000002 refl not_refused (tt, tt)
      (omega arith)

-- The second call keeps the first one's manager.
initialised_once :
    init_job_manager board_api "j" (some (init_job_manager board_api "i" none))
    ≡ new_job_manager board_api "i"
unfolding init_job_manager
initialised_once = refl
