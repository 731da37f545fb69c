-- ===== src/Schedules.antt =====
-- `NextRunTime` of pkg/utils/schedule_utils.go. What the scheduler library's parser of six fields makes
-- of a text is a parameter: an error, or the schedule as the next time after a given one.
use Prim.Native.String.{◌++◌}
use cron_lib.Base.{ℕ, String}
use cron_lib.Execution.World.{Result, ok, err}

unfoldable next_run_time : (String → Result (ℕ → ℕ)) → ℕ → String → Result ℕ
next_run_time parse now cron_schedule = elim (parse cron_schedule) [
  | ok next ↦ ok (next now)
  | err text ↦ err ("failed to parse cron schedule '" ++ (cron_schedule ++ ("': " ++ text)))
]
