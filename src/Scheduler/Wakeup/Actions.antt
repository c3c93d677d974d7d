-- ===== src/Scheduler/Wakeup/Actions.antt =====
-- worker/scheduler/wakeup.py: a wake-up's capture, and the wake-up (`_capture_one`, `run`).
use Prim.Native.String.{String}
use text.Mathlib.Text.{◌==◌ as str_eq}
use cse_analysis.Base.{
  ℕ, ◌+◌, ◌-◌, min, Bool, true, false, not, ◌&&◌, ◌||◌, Option, none, some, List, [], ◌∷◌, ◌++◌,
  ltb, ◌==◌, if◌then◌else◌, keep, null?, is_none,
}
use cse_analysis.Scheduler.Schedule.{
  ScheduleSettings, colombo_date, aware, min_start_requests, p2_run_request_cap,
}
use cse_analysis.Scheduler.Planner.{
  Item, ItemAction, pending, running, Decision, resume_request_estimate,
}
use cse_analysis.Scheduler.Wakeup.{
  of_run, Action, Answer, refused_by_p2, ended, P2, start_call, resume_call, Wake, open_items, Rows,
  discover, is_date,
}
use cse_analysis.Scheduler.Wakeup.Reconcile.{
  attend, calendar_row, evidence_at, finished, is_in_state, note, reconcile, reconcile_all,
  run_id_of,
}

abbrev pub is_start : Option ItemAction → Bool
is_start (some ItemAction.start) = true
is_start _ = false

abbrev pub is_only : Option ℕ → ℕ → Bool
is_only none d = true
is_only (some o) d = d == o

pub data ExitCode : Type 0 where
  exit_ok exit_attention exit_blocked exit_refused : ExitCode

-- What the host and its configuration answer: the user agent, and whether the spool is writable.
pub record Host : Type 0 where
  pub name : String
  pub synchronized : Option Bool
  pub user_agent : Option String
  pub spool_writable : Bool

abbrev same_text : Option String → String → Bool
same_text none t = false
same_text (some s) t = str_eq s t

abbrev pub agent_approved : ScheduleSettings → Option String → Bool
agent_approved s none = false
agent_approved s (some ua) = same_text s.user_agent ua

module _ {Archive : Type 0} (p2 : P2 Archive) (now : ℕ) where
  abbrev pub capture_of : Bool → Action
  capture_of true = Action.start
  capture_of false = Action.resume

  -- The events after a refusal by P2
  unfoldable pub refusal_recorded : Item → Wake Archive → Wake Archive
  refusal_recorded i w =
      let ev = evidence_at p2 now w i in
      if is_in_state pending (of_run ev.state) || is_none ev.run
      then note p2 now i (of_run pending) Action.refused none w
      else note p2 now i (of_run ev.state) Action.refused (run_id_of ev) w

  -- `_capture_one` once P2 has answered
  unfoldable pub answered : Item → Bool → Answer → Wake Archive → ExitCode × Wake Archive
  unfolding refusal_recorded calendar_row
  answered i starts refused_by_p2 w = (exit_refused, refusal_recorded i w)
  answered i starts (ended s id own) w =
      let w1 =
        calendar_row p2 now i own (note p2 now i (finished s) (capture_of starts) (some id) w) in
      (exit_ok, (reconcile p2 now i (p2.blocked w1.archive) false false w1).0)

  -- The call of P2, after the `running` event
  unfoldable pub start_run : Item → ℕ → Wake Archive → ExitCode × Wake Archive
  unfolding answered
  start_run i remaining w0 =
      let w = note p2 now i (of_run running) Action.start none w0 in
      let n = min p2_run_request_cap remaining in
      let (answer, archive) = p2.do_start w.archive i.trading_date n in
      answered i true answer
        (record w { archive = archive; calls = w.calls ++ start_call i.trading_date n ∷ [] })

  unfoldable pub resume_run : Item → ℕ → Wake Archive → ExitCode × Wake Archive
  unfolding answered
  resume_run i r w0 =
      let w = note p2 now i (of_run running) Action.resume (some r) w0 in
      let (answer, archive) = p2.do_resume w.archive r in
      answered i false answer
        (record w { archive = archive; calls = w.calls ++ resume_call i.trading_date r ∷ [] })

  abbrev defer : Item → Wake Archive → ExitCode × Wake Archive
  defer i w = (exit_attention, attend p2 now i w)

  -- `_capture_one` past the gates that do not depend on the action; `used` is what the day's runs used.
  -- A decision to resume names its run.
  unfoldable pub within_budget :
      ScheduleSettings → Item → Decision → ℕ → Wake Archive → ExitCode × Wake Archive
  unfolding start_run resume_run
  within_budget s i dec used w =
      if is_start dec.action
      then (if ltb s.daily_request_budget (used + min_start_requests)
          then defer i w
          else start_run i (s.daily_request_budget - used) w)
      else elim dec.run_id [
        | none ↦ (exit_refused, w)
        | some r ↦
            if ltb s.daily_request_budget
              (used + resume_request_estimate (p2.summary w.archive r) p2.attempts)
            then defer i w
            else resume_run i r w
      ]

  unfoldable pub capture_one :
      ScheduleSettings → Host → ℕ → Bool → Item × Decision → Wake Archive → ExitCode × Wake Archive
  unfolding within_budget
  capture_one s host today blocks c w =
      if blocks
      then (exit_blocked, w)
      else if not (agent_approved s host.user_agent)
      then (exit_refused, w)
      else if not host.spool_writable
      then (exit_refused, w)
      else within_budget s c.0 c.1 (p2.requests_on w.archive today) w

  unfoldable pub first_capture :
      ScheduleSettings
      → Host
      → ℕ
      → Bool
      → List (Item × Decision)
      → Wake Archive
      → ExitCode × Wake Archive
  first_capture s host today blocks [] w = (exit_ok, w)
  first_capture s host today blocks (c ∷ cs) w = capture_one s host today blocks c w

  abbrev closing_code : ExitCode × Wake Archive → ExitCode
  closing_code (exit_ok, w) =
      if p2.blocked w.archive
      then exit_blocked
      else if not (null? w.attention)
      then exit_attention
      else exit_ok
  closing_code (code, w) = code

  -- `run` past its first gates
  unfoldable pub run_on :
      ScheduleSettings → Host → ℕ → Option ℕ → Bool → Wake Archive → ExitCode × Wake Archive
  unfolding first_capture
  run_on s host today only ignore w =
      let blocks = p2.blocked w.archive in
      let (w1, cs) = reconcile_all p2 now blocks (λ d. ignore && is_date only d) (open_items w) w in
      let (code, w2) =
        first_capture s host today blocks (keep (λ c. is_only only c.0.trading_date) cs) w1 in
      (closing_code (code, w2), w2)

abbrev pub clock_back : ℕ → Option ℕ → Bool
clock_back now none = false
clock_back now (some last) = ltb (now + 300000000) last

abbrev pub is_synchronized : Option Bool → Bool
is_synchronized (some true) = true
is_synchronized _ = false

-- The gates of `run`: armed, on the armed host, with a clock that is synchronized and has not gone
-- back by more than `CLOCK_BACKWARDS_TOLERANCE`.
abbrev pub gates_open : ScheduleSettings → Host → ℕ → Option ℕ → Bool
gates_open s host now last =
    same_text s.host host.name && (is_synchronized host.synchronized && not (clock_back now last))

module _ {Archive : Type 0} (p2 : P2 Archive) where
  unfoldable pub with_rows : Rows → Wake Archive → Wake Archive
  with_rows r w = record w { items = r.items; events = r.events }

  -- What follows `_discover`
  unfoldable pub begun :
      ScheduleSettings
      → Host
      → ℕ
      → Option ℕ
      → Bool
      → ℕ
      → Option Rows
      → Wake Archive
      → ExitCode × Wake Archive
  unfolding with_rows
  begun s host now only ignore today none w = (exit_refused, w)
  begun s host now only ignore today (some r) w =
      run_on p2 now s host today only ignore (with_rows r w)

  abbrev pub current_rows : Wake Archive → Rows
  current_rows w = record { items = w.items; events = w.events }

  abbrev pub discovered :
      ScheduleSettings
      → Host
      → ℕ
      → Option ℕ
      → Option ℕ
      → Bool
      → ℕ
      → ℕ
      → Wake Archive
      → ExitCode × Wake Archive
  discovered s host now confirm only ignore first today w =
      begun s host now only ignore today (discover s first today confirm now (current_rows w)) w

  abbrev pub recovered : Wake Archive → Wake Archive
  recovered w = record w { archive = p2.recover w.archive }

  -- `run`. Armed settings have a start date (`validate`).
  unfoldable pub run :
      ScheduleSettings
      → Host
      → ℕ
      → Option ℕ
      → Option ℕ
      → Option ℕ
      → Bool
      → Wake Archive
      → ExitCode × Wake Archive
  unfolding begun
  run s host now last confirm only ignore w =
      if not s.armed
      then (exit_ok, recovered w)
      else if not (gates_open s host now last)
      then (exit_refused, recovered w)
      else elim s.start_date [
        | none ↦ (exit_refused, recovered w)
        | some first ↦ elim (colombo_date (aware now)) [
          | none ↦ (exit_refused, recovered w)
          | some today ↦ discovered s host now confirm only ignore first today (recovered w)
        ]
      ]
