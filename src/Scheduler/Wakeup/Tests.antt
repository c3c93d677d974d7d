-- ===== src/Scheduler/Wakeup/Tests.antt =====
-- Wake-ups: the theorems about them, for a P2 whose start succeeds.
use cse_analysis.Base.{
  ℕ, ◌+◌, ◌≡◌, refl, true, false, ◌⊎◌, none, some, List, [], ◌∷◌, map, arith, All, any, keep, ◌==◌,
}
use cse_analysis.Capture.Completeness as Completeness
use cse_analysis.Scheduler.Schedule.{
  candidates_from, candidate_dates, colombo_moment, colombo_date, aware, due_at, window_closes_at,
  schedule_snapshot,
}
use cse_analysis.Scheduler.Schedule.Tests.{settings}
use cse_analysis.Scheduler.Planner.{
  Item, Run, RunState, Decision, DecisionKind, DecisionReason, ItemAction, evidence, decide,
  decide_open, capture_attempts,
}
use cse_analysis.Scheduler.Wakeup.{
  ended, P2, Call, start_call, Wake, Rows, is_dated, insert_item, create_item, create_all,
  scheduled_item, missing_dates, discover, open_items, append_item_event,
}
use cse_analysis.Scheduler.Wakeup.Reconcile.{
  reconcile, reconcile_all, apply, miss, reprocess_run, reprocessed, noted, sync, calendar_row,
  opened,
}
use cse_analysis.Scheduler.Wakeup.Actions.{
  Host, run, capture_one, with_rows, begun, run_on, first_capture, within_budget, start_run,
  resume_run, answered, refusal_recorded, agent_approved,
}
use cse_analysis.Scheduler.Wakeup.Quiet.{is_request, IsQuiet}
use cse_analysis.Scheduler.Wakeup.Captures.{IsOutcome, capture_one-affordable}
use cse_analysis.Scheduler.Wakeup.Created.{IsKeptUp, discover_complete}
use cse_analysis.Scheduler.Wakeup.Calls.{run_gate, run-requests}
use cse_analysis.Scheduler.Wakeup.Bounded.{Timer, IsBounded, wake_ups, wake_ups-IsBounded}

-- The archive: the dates that were captured, and the requests that were used.
abbrev Archive : Type 0
Archive = List ℕ × ℕ

abbrev run_of : ℕ → Run
run_of day = record {
  id = day;
  state = RunState.succeeded;
  a_captured = true;
  e1 = true;
  session_date = some day;
  missed_record = false;
}

abbrev p2 : P2 Archive
p2 = record {
  runs = λ a d. map run_of (keep (λ x. x == d) a.0);
  blocked = λ a. false;
  requests_on = λ a d. a.1;
  summary = λ a r. record {
    universe_archived = true;
    trade_summary_archived = false;
    absent_not_archived = [];
    cross_check_not_archived = 7 ∷ [];
  };
  attempts = record { universe = 3; trade_summary = 3; absent_fallback = 2; cross_check = 2 };
  recover = λ a. a;
  do_start = λ a d n. (ended Completeness.succeeded d true, (d ∷ a.0, a.1 + n));
  do_resume = λ a r. (ended Completeness.succeeded r true, a);
  do_reprocess = λ a r. (ended Completeness.succeeded r true, a);
  do_miss = λ a d. (d, a);
}

abbrev host : Host
host = record {
  name = "server";
  synchronized = some true;
  user_agent = some "cse-capture";
  spool_writable = true;
}

-- 16:00 in Colombo on the Monday after the Saturday from which the scheduler is armed
abbrev afternoon : ℕ
afternoon = 63893010600000000

abbrev empty : Wake Archive
empty = record {
  items = [];
  events = λ d. [];
  calendar = λ d. none;
  archive = ([], 0);
  calls = [];
  attention = [];
}

abbrev no_rows : Rows
no_rows = record { items = []; events = λ d. [] }

today : colombo_date (aware afternoon) ≡ some 739502
unfolding colombo_date
today = refl

one_call :
    (run p2 settings host afternoon none none none false empty).1.calls ≡ start_call 739502 150 ∷ []
unfolding run begun run_on first_capture capture_one within_budget start_run resume_run answered
    refusal_recorded reconcile reconcile_all apply miss reprocess_run reprocessed noted sync
    calendar_row opened with_rows discover create_all create_item insert_item missing_dates
    scheduled_item open_items append_item_event candidate_dates candidates_from colombo_date
    colombo_moment due_at window_closes_at schedule_snapshot evidence decide decide_open
    capture_attempts
one_call = refl

run-requests_example :
    let w' = (run p2 settings host afternoon none none none false empty).1 in
    (keep is_request w'.calls ≡ [])
    ⊎ ((run_gate p2 settings host afternoon none ([], 0) ≡ true)
        × (call : Call) × (keep is_request w'.calls ≡ call ∷ []))
run-requests_example = run-requests p2 settings host afternoon none none none false empty

empty-IsKeptUp : IsKeptUp [] empty.events
empty-IsKeptUp = record { ordered = tt; told = tt }

abbrev timer : ℕ → Timer
timer t = record {
  settings = settings;
  host = host;
  now = t;
  last_time = none;
  confirm_through = none;
  only_date = none;
}

wake_ups-IsBounded_example :
    let w' = wake_ups p2 (timer afternoon ∷ timer (afternoon + 3600000000) ∷ []) empty in
    All (IsBounded w') w'.items
wake_ups-IsBounded_example =
    wake_ups-IsBounded p2 (timer afternoon ∷ timer (afternoon + 3600000000) ∷ []) empty
      empty-IsKeptUp refl

-- The rows after the first wake-up's `_discover`
abbrev monday : Rows
monday = create_item afternoon (scheduled_item (schedule_snapshot settings) 739502) no_rows

it_discovers : discover settings 739500 739502 none afternoon no_rows ≡ some monday
unfolding discover create_all missing_dates candidate_dates candidates_from
it_discovers = refl

discover_complete_example : any (is_dated 739502) monday.items ≡ true
discover_complete_example =
    discover_complete settings 739500 739502 none afternoon no_rows monday 739502 it_discovers
      (omega arith) (omega arith) (omega arith)

abbrev start_monday : Decision
start_monday = record {
  kind = DecisionKind.capture;
  reason = DecisionReason.start_run;
  action = some ItemAction.start;
  run_id = none;
  attention = false;
}

abbrev monday_item : Item
monday_item = scheduled_item (schedule_snapshot settings) 739502

capture_one-affordable_example :
    let w' =
      (capture_one p2 afternoon settings host 739502 false (monday_item, start_monday) empty).1 in
    IsQuiet monday_item.trading_date empty w'
    ⊎ ((false ≡ false)
        × (agent_approved settings host.user_agent ≡ true)
        × (true ≡ true)
        × IsOutcome p2 afternoon monday_item settings 0 empty w')
capture_one-affordable_example =
    capture_one-affordable p2 afternoon monday_item settings host 739502 false start_monday empty
