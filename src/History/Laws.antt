-- ===== src/History/Laws.antt =====
-- The page that GetJobAuditLogs asks the database for.
use cron_lib.Base.{
  ℕ, ◌^◌, ◌<◌, ◌≡◌, refl, String, Bool, true, Option, none, some, List, map, ◌≢◌, ap, inl, inr,
  Bool-cases, arith, find_where,
}
use cron_lib.Schema.{CronJobAuditLog, CronRegisteredJob}
use cron_lib.Audit.{AuditLogs}
use cron_lib.Registry.{Registered, has_id_in, get_registered_job_by_id}
use cron_lib.Manager.State.{answered}
use cron_lib.Execution.World.{err}
use cron_lib.Api.{error_text, respond, Link}
use cron_lib.History.{
  responds, default_query, api_log, JobAuditLog, bounded, then_counted, handle_get_job_audit_logs,
}
use cron_lib.History.Atoi.{atoi, page_offset, is_negative}

-- In two's complement the page before the first is at `-n`.
offset_zero : (n : ℕ) → 0 < n → n < 2 ^ 31 → is_negative (page_offset 0 n) ≡ true
unfolding page_offset
offset_zero n pos small = ground arith

module _ (from_timestamp : Option ℕ → Option ℕ) (from_text : Option String → Option String)
    (like text_le : String → String → Bool) (no_rows_text : String) where
  abbrev pub time_value : Option ℕ → ℕ
  time_value none = 0
  time_value (some t) = t

  abbrev pub api_logs : List CronJobAuditLog → List JobAuditLog
  api_logs = map (λ log. api_log from_timestamp from_text log (time_value log.scheduled_time))

  -- Only a nil scheduled time makes the conversion panic, and the column is NOT NULL.
  abbrev pub IsTimed : CronJobAuditLog → Type 0
  IsTimed log = log.scheduled_time ≢ none

  bounded_refused :
      {A : Type 0} (link : Link) (n o : ℕ) (rows : List A)
      → is_negative o ≡ true
      → bounded link n o rows ≡ err link.error
  bounded_refused link n o rows h = elim (Bool-cases (is_negative n)) [
    | inl e ↦ rw e refl
    | inr e ↦ rw (e, h) refl
  ]

  -- Page 0, which every text that is no number stands for too, is not the first page: PostgreSQL is
  -- asked for the rows from a negative OFFSET on, and the handler answers 500 with its error, for a
  -- registration that is there, where the text of the page size reads as a positive `int32`.
  pub handle_get_job_audit_logs-refused :
      (t : String) (id : ℕ) (query : String → Option String) (first second third : Link)
      (logs : AuditLogs) (registered : Registered) (job : CronRegisteredJob)
      → first.fault ≡ answered
      → find_where (has_id_in id t) registered ≡ some job
      → atoi (default_query query "page" "1") ≡ 0
      → 0 < atoi (default_query query "pageSize" "10")
      → atoi (default_query query "pageSize" "10") < 2 ^ 31
      → handle_get_job_audit_logs from_timestamp from_text like text_le no_rows_text
          (some t)
          id
          query
          first
          second
          third
          logs
          registered
        ≡ responds (respond 500 (error_text second.error))
  unfolding handle_get_job_audit_logs get_registered_job_by_id
  handle_get_job_audit_logs-refused t id query first second third logs registered job f e p pos
        small =
      rw (f, e, p)
        (ap (then_counted from_timestamp from_text _) (
          bounded_refused second _ _ _
            (offset_zero (atoi (default_query query "pageSize" "10")) pos small)))
