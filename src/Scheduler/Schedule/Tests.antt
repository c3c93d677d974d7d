-- ===== src/Scheduler/Schedule/Tests.antt =====
-- Runs of the schedule's rules, and its theorems at concrete settings.
use Prim.Native.String.{String}
use cse_analysis.Base.{◌+◌, ◌*◌, ◌≤◌, ◌≡◌, refl, true, none, some, [], ◌∷◌, arith}
use cse_analysis.Scheduler.Schedule.{
  ScheduleSettings, Snapshot, aware, minute_us, colombo_date, colombo_moment, due_at,
  window_closes_at, candidate_dates, retry_delay_minutes, next_attempt_at,
}
use cse_analysis.Scheduler.Schedule.Dates.{colombo_date-moment, window-colombo_date}
use cse_analysis.Scheduler.Schedule.Retries.{delay_bounds, next_attempt-later}
use cse_analysis.Scheduler.Schedule.Settings.{validate, max_attempts}

abbrev bare : String → String
bare s = s

-- The defaults, armed.
abbrev pub settings : ScheduleSettings
settings = record {
  armed = true;
  id = some 1;
  work_kind = "daily_post_close";
  start_date = some 739500;
  earliest_start_local = 54900000000;
  window_close_local = 86399000000;
  retry_base_minutes = 20;
  retry_max_minutes = 120;
  max_attempts = 4;
  no_session_confirmations = 2;
  daily_request_budget = 150;
  max_catch_up_days = 14;
  stale_lease_minutes = 30;
  max_capture_actions_per_wakeup = 1;
  user_agent = some "cse-capture";
  host = some "server";
  expected_requests = some "about 60 a day";
  stop_conditions = "block" ∷ [];
  note = "armed by the owner";
  approved_by = some "owner";
}

abbrev pub snapshot : Snapshot
snapshot = record {
  settings_id = some 1;
  earliest_start_local = 54900000000;
  window_close_local = 86399000000;
  retry_base_minutes = 20;
  retry_max_minutes = 120;
  max_attempts = 4;
  no_session_confirmations = 2;
}

settings_pass : validate bare settings ≡ none
unfolding validate
settings_pass = refl

too_many_attempts : validate bare (record settings { max_attempts = 9 }) ≡ some max_attempts
unfolding validate
too_many_attempts = refl

-- 2024-06-28 is a Friday.
weekdays : candidate_dates 739065 739068 ≡ 739065 ∷ 739068 ∷ []
unfolding candidate_dates
weekdays = refl

delays : retry_delay_minutes snapshot 3 ≡ 80
unfolding retry_delay_minutes
delays = refl

colombo_date-moment_example : colombo_date (aware (colombo_moment 739065 54900000000)) ≡ some 739065
colombo_date-moment_example = colombo_date-moment 739065 54900000000 (omega arith) (omega arith)

window-colombo_date_example : colombo_date (aware (due_at 739065 snapshot)) ≡ some 739065
unfolding due_at window_closes_at
window-colombo_date_example =
    window-colombo_date 739065 (due_at 739065 snapshot) snapshot (omega arith) (omega arith)
      (omega arith) (omega arith)

delay_bounds_example :
    (20 ≤ retry_delay_minutes snapshot 5) × (retry_delay_minutes snapshot 5 ≤ 120)
delay_bounds_example = delay_bounds snapshot 5 (omega arith)

next_attempt-later_example : 5 + 20 * minute_us ≤ next_attempt_at snapshot 2 5
next_attempt-later_example = next_attempt-later snapshot 2 5 (omega arith)
