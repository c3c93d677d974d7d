-- ===== src/Scheduler/Wakeup.antt =====
-- worker/scheduler/wakeup.py: the state that a wake-up works on, and the creation of missing items
-- (`_discover`).
--
-- The rows of store.py are the items, in the order of `open_items` (by trading date, one for each), the
-- events of each date's item, oldest first, and the trading calendar. P2 (worker/market_capture) stands
-- behind an interface: what it finds in its archive, and what its start, resume and reprocess answer.
-- Leases, heartbeats, the marker of a finished capture and the report are left out, as are the reasons
-- and details of events.
pub mod Reconcile
pub mod Actions
pub mod Quiet
pub mod Captures
pub mod Created
pub mod Calls
pub mod Told
pub mod Paid
pub mod Bounded
mod Tests
use Prim.Native.String.{String}
use cse_analysis.Base.{
  ℕ, ◌+◌, ◌-◌, Bool, true, false, not, ◌&&◌, ◌||◌, Option, none, some, List, [], ◌∷◌, ◌++◌, map,
  ltb, leb, ◌==◌, if◌then◌else◌, any, keep, null?, last?,
}
use cse_analysis.Capture.Completeness as Completeness
use cse_analysis.Scheduler.Schedule.{
  Snapshot, ScheduleSettings, schedule_snapshot, due_at, window_closes_at, candidate_dates,
}
use cse_analysis.Scheduler.Planner.{
  Item, ItemEvent, ItemAction, Run, RunState, MarketStatus, pending, running, succeeded, missed,
  ResumeSummary, AttemptsByPurpose,
}

-- The states of an item are those of a run, and one more.
pub data ItemState : Type 0 where
  of_run : RunState → ItemState
  inapplicable : ItemState

pub data Action : Type 0 where
  create observe finalize record_missed reprocess start resume refused : Action

-- A row of market_schedule_item_events
pub record Event : Type 0 where
  pub state : ItemState
  pub action : Action
  pub run_id : Option ℕ
  pub scheduler_time : ℕ

abbrev is_running : ItemState → Bool
is_running (of_run running) = true
is_running _ = false

abbrev pub item_action : Action → ItemAction
item_action start = ItemAction.start
item_action resume = ItemAction.resume
item_action _ = ItemAction.other_action

-- An event as the planner reads it
abbrev pub planner_event : Event → ItemEvent
planner_event e = record {
  running = is_running e.state;
  action = item_action e.action;
  scheduler_time = e.scheduler_time;
}

-- What a P2 call ends in: a `RunRefused`, or the state of a run, its id, and whether its session evidence
-- is of the trading date.
pub data Answer : Type 0 where
  refused_by_p2 : Answer
  ended : Completeness.RunState → ℕ → Bool → Answer

-- P2, over its archive, with the summary of a run that can be resumed and the attempts of its request
-- policy
pub record P2 (Archive : Type 0) : Type 0 where
  pub runs : Archive → ℕ → List Run
  pub blocked : Archive → Bool
  pub requests_on : Archive → ℕ → ℕ
  pub summary : Archive → ℕ → ResumeSummary
  pub attempts : AttemptsByPurpose
  pub recover : Archive → Archive
  pub do_start : Archive → ℕ → ℕ → Answer × Archive
  pub do_resume : Archive → ℕ → Answer × Archive
  pub do_reprocess : Archive → ℕ → Answer × Archive
  pub do_miss : Archive → ℕ → ℕ × Archive

-- The calls that a wake-up made of P2; a start and a resumption with the date of their item
pub data Call : Type 0 where
  start_call : ℕ → ℕ → Call
  resume_call : ℕ → ℕ → Call
  reprocess_call : ℕ → Call
  missed_call : ℕ → Call

pub record Wake (Archive : Type 0) : Type 0 where
  pub items : List Item
  pub events : ℕ → List Event
  pub calendar : ℕ → Option MarketStatus
  pub archive : Archive
  pub calls : List Call
  pub attention : List ℕ

-- `FINAL_STATES`
abbrev is_final_item : ItemState → Bool
is_final_item (of_run succeeded) = true
is_final_item (of_run missed) = true
is_final_item inapplicable = true
is_final_item _ = false

abbrev is_finalize : Action → Bool
is_finalize finalize = true
is_finalize _ = false

abbrev is_open : Option Event → Bool
is_open none = false
is_open (some e) = not (is_final_item e.state) && not (is_finalize e.action)

module _ {Archive : Type 0} where
  -- `open_items`
  unfoldable pub open_items : Wake Archive → List Item
  open_items w = keep (λ i. is_open (last? (w.events i.trading_date))) w.items

  -- `append_item_event`, of the item of a date
  unfoldable pub append_item_event : ℕ → Event → Wake Archive → Wake Archive
  append_item_event day e w = record w {
    events = λ d. if d == day then w.events d ++ e ∷ [] else w.events d;
  }

abbrev pub is_dated : ℕ → Item → Bool
is_dated day i = i.trading_date == day

-- The row's place in the order of `open_items`
unfoldable pub insert_item : Item → List Item → List Item
insert_item i [] = i ∷ []
insert_item i (x ∷ xs) =
    let rest = insert_item i xs in
    if ltb i.trading_date x.trading_date then i ∷ x ∷ xs else x ∷ rest

-- The rows that `create_item` writes into: those of items, and of events by date.
pub record Rows : Type 0 where
  pub items : List Item
  pub events : ℕ → List Event

-- A new item's first event
abbrev pub with_created : ℕ → ℕ → (ℕ → List Event) → ℕ → List Event
with_created now day events d =
    if d == day
    then record { state = of_run pending; action = create; run_id = none; scheduler_time = now }
      ∷ []
    else events d

-- `create_item`: a second item of a date is never created.
unfoldable pub create_item : ℕ → Item → Rows → Rows
unfolding insert_item
create_item now i r =
    if any (is_dated i.trading_date) r.items
    then r
    else record { items = insert_item i r.items; events = with_created now i.trading_date r.events }

-- An item of the schedule; `by_operator` is the origin that only `add_item` gives.
unfoldable pub scheduled_item : Snapshot → ℕ → Item
scheduled_item s day = record {
  trading_date = day;
  due_at = due_at day s;
  window_closes_at = window_closes_at day s;
  by_operator = false;
  schedule = s;
}

-- `missing`
unfoldable pub missing_dates : ℕ → ℕ → List Item → List ℕ
missing_dates first today items =
    keep (λ d. not (any (is_dated d) items)) (candidate_dates first today)

unfoldable pub create_all : Snapshot → ℕ → List ℕ → Rows → Rows
create_all s now [] r = r
create_all s now (d ∷ ds) r = create_all s now ds (create_item now (scheduled_item s d) r)

abbrev pub is_date : Option ℕ → ℕ → Bool
is_date none d = false
is_date (some c) d = c == d

-- `_discover` from an armed start date: `none` is the refusal of an implausible gap that the operator
-- has not confirmed. An item is too old when it lies before the horizon.
unfoldable pub discover : ScheduleSettings → ℕ → ℕ → Option ℕ → ℕ → Rows → Option Rows
unfolding missing_dates create_all
discover s first today confirm now r =
    let missing = missing_dates first today r.items in
    if ltb today first
    then some r
    else if any (λ d. ltb (d + s.max_catch_up_days) today) missing && not (is_date confirm today)
    then none
    else some (create_all (schedule_snapshot s) now missing r)
