-- ===== src/Scheduler/Schedule.antt =====
-- worker/scheduler/schedule.py: the settings and their bounds, Colombo time, candidate trading days
-- and the retry schedule.
--
-- A date is its proleptic ordinal (`date.toordinal`), a local time the microseconds since midnight,
-- and an aware datetime the microseconds in UTC since the midnight that begins ordinal 0. Python's
-- dates begin at ordinal 1, so no moment of a Colombo day lies before that origin.
pub mod Dates
pub mod Retries
pub mod Settings
pub mod Tests
use Prim.Native.String as Text
use Prim.Native.String.{String}
use cse_analysis.Base.{
  ℕ, zero, suc, ◌+◌, ◌-◌, ◌*◌, ◌/◌, ◌%◌, ◌^◌, min, max, Bool, true, false, not, ◌&&◌, ◌||◌, Option,
  none, some, List, [], ◌∷◌, ltb, leb, ◌==◌, if◌then◌else◌, is_none, null?,
}

abbrev pub day_us : ℕ
day_us = 86400000000

abbrev pub minute_us : ℕ
minute_us = 60000000

-- `COLOMBO` (worker/market_capture/config.py): UTC+05:30
abbrev pub colombo_us : ℕ
colombo_us = 19800000000

-- A datetime with its zone, or without one.
pub data Datetime : Type 0 where
  aware naive : ℕ → Datetime

-- `colombo_date`; `none` is the `ScheduleError` on a naive datetime.
unfoldable pub colombo_date : Datetime → Option ℕ
colombo_date (aware t) = some ((t + colombo_us) / day_us)
colombo_date (naive t) = none

unfoldable pub colombo_moment : ℕ → ℕ → ℕ
colombo_moment day local = day * day_us + local - colombo_us

unfoldable pub colombo_day_bounds : ℕ → ℕ × ℕ
unfolding colombo_moment
colombo_day_bounds day = (colombo_moment day 0, colombo_moment (day + 1) 0)

-- The schedule that an item is created under (`schedule_snapshot`).
pub record Snapshot : Type 0 where
  pub settings_id : Option ℕ
  pub earliest_start_local : ℕ
  pub window_close_local : ℕ
  pub retry_base_minutes : ℕ
  pub retry_max_minutes : ℕ
  pub max_attempts : ℕ
  pub no_session_confirmations : ℕ

unfoldable pub due_at : ℕ → Snapshot → ℕ
unfolding colombo_moment
due_at day s = colombo_moment day s.earliest_start_local

unfoldable pub window_closes_at : ℕ → Snapshot → ℕ
unfolding colombo_moment
window_closes_at day s = colombo_moment day s.window_close_local

-- `date.weekday`: ordinal 1 is a Monday, and Monday is 0.
abbrev pub weekday : ℕ → ℕ
weekday day = (day + 6) % 7

abbrev pub is_candidate_trading_day : ℕ → Bool
is_candidate_trading_day day = ltb (weekday day) 5

-- The `while` loop of `candidate_dates`: the rounds that are left, and the day.
unfoldable pub candidates_from : ℕ → ℕ → List ℕ
candidates_from zero d = []
candidates_from (suc n) d =
    let rest = candidates_from n (d + 1) in if is_candidate_trading_day d then d ∷ rest else rest

unfoldable pub candidate_dates : ℕ → ℕ → List ℕ
unfolding candidates_from
candidate_dates first last = candidates_from (last + 1 - first) first

unfoldable pub retry_delay_minutes : Snapshot → ℕ → ℕ
retry_delay_minutes s capture_actions =
    min (s.retry_base_minutes * 2 ^ (max 1 capture_actions - 1)) s.retry_max_minutes

unfoldable pub next_attempt_at : Snapshot → ℕ → ℕ → ℕ
next_attempt_at s capture_actions last_outcome_at =
    last_outcome_at + retry_delay_minutes s capture_actions * minute_us

-- `OPERATOR_HARD_MAX_ATTEMPTS`, `MIN_START_REQUESTS`, `P2_RUN_REQUEST_CAP`
abbrev pub operator_hard_max_attempts : ℕ
operator_hard_max_attempts = 8

abbrev pub min_start_requests : ℕ
min_start_requests = 10

abbrev pub p2_run_request_cap : ℕ
p2_run_request_cap = 150

-- `ScheduleSettings`, but for the time of its row
pub record ScheduleSettings : Type 0 where
  pub armed : Bool
  pub id : Option ℕ
  pub work_kind : String
  pub start_date : Option ℕ
  pub earliest_start_local : ℕ
  pub window_close_local : ℕ
  pub retry_base_minutes : ℕ
  pub retry_max_minutes : ℕ
  pub max_attempts : ℕ
  pub no_session_confirmations : ℕ
  pub daily_request_budget : ℕ
  pub max_catch_up_days : ℕ
  pub stale_lease_minutes : ℕ
  pub max_capture_actions_per_wakeup : ℕ
  pub user_agent : Option String
  pub host : Option String
  pub expected_requests : Option String
  pub stop_conditions : List String
  pub note : String
  pub approved_by : Option String

unfoldable pub schedule_snapshot : ScheduleSettings → Snapshot
schedule_snapshot s = record {
  settings_id = s.id;
  earliest_start_local = s.earliest_start_local;
  window_close_local = s.window_close_local;
  retry_base_minutes = s.retry_base_minutes;
  retry_max_minutes = s.retry_max_minutes;
  max_attempts = s.max_attempts;
  no_session_confirmations = s.no_session_confirmations;
}
