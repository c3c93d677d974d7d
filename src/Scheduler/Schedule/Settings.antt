-- ===== src/Scheduler/Schedule/Settings.antt =====
-- `ScheduleSettings.validate`, and what settings that pass it promise.
use Prim.Native.String as Text
use Prim.Native.String.{String}
use text.Mathlib.Text.{◌==◌ as str_eq}
use cse_analysis.Base.{
  ℕ, ◌+◌, ◌≤◌, ◌<◌, ◌*◌, ◌≡◌, ◌↔◌, Bool, true, false, not, ◌&&◌, ◌||◌, Option, none, some, arith,
  ltb, leb, ◌==◌, if◌then◌else◌, is_none, null?,
}
use cse_analysis.Scheduler.Schedule.{
  ScheduleSettings, schedule_snapshot, day_us, colombo_us, due_at, window_closes_at,
  retry_delay_minutes,
}
use cse_analysis.Scheduler.Schedule.Retries.{delay_bounds}

-- What the `ScheduleError` of `validate` is about.
pub data ScheduleError : Type 0 where
  retry_base max_attempts no_session_confirmations daily_request_budget : ScheduleError
  max_catch_up_days stale_lease_minutes retry_max capture_actions work_kind : ScheduleError
  earliest_start window_close note arming : ScheduleError

-- `BOUNDS`, `EARLIEST_START_FLOOR` (14:30) and `WORK_KIND`
abbrev between : ℕ → ℕ → ℕ → Bool
between lo hi v = leb lo v && leb v hi

abbrev pub earliest_start_floor : ℕ
earliest_start_floor = 52200000000

abbrev pub daily_post_close : String
daily_post_close = "daily_post_close"

-- `not getattr(self, n)` for a text that may be absent
abbrev pub missing_text : Option String → Bool
missing_text none = true
missing_text (some t) = str_eq t ""

abbrev pub arming_incomplete : ScheduleSettings → Bool
arming_incomplete s =
    is_none s.start_date
    || (missing_text s.user_agent
        || (missing_text s.host || (missing_text s.expected_requests || null? s.stop_conditions)))

-- `validate`, over Python's `str.strip`; `none` where it returns the settings.
unfoldable pub validate : (String → String) → ScheduleSettings → Option ScheduleError
validate strip s =
    if not (between 5 240 s.retry_base_minutes)
    then some retry_base
    else if not (between 1 8 s.max_attempts)
    then some max_attempts
    else if not (between 1 3 s.no_session_confirmations)
    then some no_session_confirmations
    else if not (between 10 500 s.daily_request_budget)
    then some daily_request_budget
    else if not (between 1 60 s.max_catch_up_days)
    then some max_catch_up_days
    else if not (between 5 240 s.stale_lease_minutes)
    then some stale_lease_minutes
    else if not (between s.retry_base_minutes 480 s.retry_max_minutes)
    then some retry_max
    else if not (s.max_capture_actions_per_wakeup == 1)
    then some capture_actions
    else if not (str_eq s.work_kind daily_post_close)
    then some work_kind
    else if ltb s.earliest_start_local earliest_start_floor
    then some earliest_start
    else if not (ltb s.earliest_start_local s.window_close_local)
    then some window_close
    else if ltb (Text.count (strip s.note)) 10
    then some note
    else if s.armed && arming_incomplete s
    then some arming
    else none

-- What the rest of the scheduler relies on.
pub record IsSound (s : ScheduleSettings) : Type 0 where
  pub base_least : 5 ≤ s.retry_base_minutes
  pub base_most : s.retry_base_minutes ≤ 240
  pub attempts_least : 1 ≤ s.max_attempts
  pub attempts_most : s.max_attempts ≤ 8
  pub confirmations_least : 1 ≤ s.no_session_confirmations
  pub confirmations_most : s.no_session_confirmations ≤ 3
  pub budget_least : 10 ≤ s.daily_request_budget
  pub budget_most : s.daily_request_budget ≤ 500
  pub catch_up_least : 1 ≤ s.max_catch_up_days
  pub catch_up_most : s.max_catch_up_days ≤ 60
  pub lease_least : 5 ≤ s.stale_lease_minutes
  pub lease_most : s.stale_lease_minutes ≤ 240
  pub retry_ordered : s.retry_base_minutes ≤ s.retry_max_minutes
  pub retry_most : s.retry_max_minutes ≤ 480
  pub one_action : s.max_capture_actions_per_wakeup ≡ 1
  pub after_close : earliest_start_floor ≤ s.earliest_start_local
  pub window_open : s.earliest_start_local < s.window_close_local
  pub right_kind : str_eq s.work_kind daily_post_close ≡ true
  pub armed_fully : (s.armed && arming_incomplete s) ≡ false

validate_complete :
    (strip : String → String) (s : ScheduleSettings)
    → IsSound s
    → 10 ≤ Text.count (strip s.note)
    → validate strip s ≡ none
unfolding validate
validate_complete strip s v n = ground arith

-- `validate` accepts exactly the settings that keep every bound, name the work kind, carry a note of
-- ten characters at least and, when armed, name all that arming needs.
pub validate_iff :
    (strip : String → String) (s : ScheduleSettings)
    → (validate strip s ≡ none) ↔ (IsSound s × (10 ≤ Text.count (strip s.note)))
unfolding validate
validate_iff strip s = (λ h. (ground arith, ground arith), λ v. validate_complete strip s v.0 v.1)

-- Under settings that `validate` accepts, every day's capture falls due at 14:30 Colombo time or
-- later, before its window closes, and a retry waits between five minutes and eight hours.
pub validated_schedule :
    (strip : String → String) (s : ScheduleSettings) (day actions : ℕ)
    → validate strip s ≡ none
    → 1 ≤ day
    → let snap = schedule_snapshot s in
      (day * day_us + earliest_start_floor ≤ due_at day snap + colombo_us)
      × (due_at day snap < window_closes_at day snap)
      × (5 ≤ retry_delay_minutes snap actions)
      × (retry_delay_minutes snap actions ≤ 480)
unfolding schedule_snapshot due_at window_closes_at
validated_schedule strip s day actions h d =
    let v = ((validate_iff strip s).0 h).0 in
    let b = delay_bounds (schedule_snapshot s) actions v.retry_ordered in
    (
      omega (arith, v.after_close),
      omega (arith, v.window_open),
      omega (arith, v.base_least, b.0),
      omega (arith, v.retry_most, b.1),
    )
