-- ===== src/Tests/History.antt =====
-- `GetJobAuditLogs` and the migrations at small inputs.
use cron_lib.Base.{
  ◌-◌, ◌^◌, ◌≡◌, refl, String, str_eq, Bool, true, false, ◌||◌, not, Option, none, some, [], ◌∷◌,
  arith, if◌then◌else◌,
}
use cron_lib.Schema.{CronJobAuditLog, CronRegisteredJob}
use cron_lib.Audit.{AuditLogs}
use cron_lib.Manager.State.{answered}
use cron_lib.Api.{Link, error_text, respond}
use cron_lib.History.{responds, handle_get_job_audit_logs}
use cron_lib.History.Atoi.{atoi, parse_uint, page_offset}
use cron_lib.History.Laws.{handle_get_job_audit_logs-refused}
use cron_lib.Migrations.{contains, is_infix, starts_with}

atoi_number : atoi "42" ≡ 42
unfolding atoi parse_uint
atoi_number = refl

atoi_minus : atoi "-1" ≡ 2 ^ 64 - 1
unfolding atoi parse_uint
atoi_minus = refl

atoi_syntax : atoi "4x" ≡ 0
unfolding atoi parse_uint
atoi_syntax = refl

atoi_range : atoi "99999999999999999999x" ≡ 2 ^ 63 - 1
unfolding atoi parse_uint
atoi_range = refl

-- The page after 2^30 pages of four entries is the first page again.
offset_wraps : page_offset 1073741825 4 ≡ 0
unfolding page_offset
offset_wraps = refl

mentions_truncate : contains "cannot TRUNCATE table" "TRUNCATE" ≡ true
unfolding contains is_infix starts_with
mentions_truncate = refl

abbrev log : CronJobAuditLog
log = record {
  id = 1;
  app_id = "a";
  request_id = "r";
  job_name = "feed";
  scheduled_time = some 5;
  start_time = some 5;
  end_time = none;
  status = "started";
  output = none;
  error = none;
  user_id = "system";
  tenant_id = "t";
  created_at = some 6;
  updated_at = some 6;
}

abbrev logs : AuditLogs
logs =
    log ∷ record log { id = 2; start_time = some 9 } ∷ record log { id = 3; tenant_id = "u" } ∷ []

abbrev feed : CronRegisteredJob
feed = record {
  id = 7;
  job_name = "feed";
  schedule = "@hourly";
  is_long_running = false;
  is_enabled = true;
  last_registered_at = 5;
  instance_id = "i";
  tenant_id = "t";
  created_at = 5;
  updated_at = 5;
}

abbrev link : Link
link = record { fault = answered; error = "OFFSET must not be negative"; now = 9 }

abbrev text_le : String → String → Bool
text_le a b = str_eq a "" || not (str_eq b "")

-- The second page of one entry.
abbrev second_page : String → Option String
second_page name =
    if str_eq name "page" then some "2" else if str_eq name "pageSize" then some "1" else none

abbrev page_zero : String → Option String
page_zero name = if str_eq name "page" then some "0" else none

handle_get_job_audit_logs-refused_example :
    handle_get_job_audit_logs
      (λ t. t)
      (λ t. t)
      str_eq
      text_le
      "no rows"
      (some "t")
      7
      page_zero
      link
      link
      link
      logs
      (feed ∷ [])
    ≡ responds (respond 500 (error_text "OFFSET must not be negative"))
unfolding atoi parse_uint
handle_get_job_audit_logs-refused_example =
    handle_get_job_audit_logs-refused (λ t. t) (λ t. t) str_eq text_le "no rows" "t" 7 page_zero
      link link link logs (feed ∷ []) feed refl refl refl (omega arith) (omega arith)
