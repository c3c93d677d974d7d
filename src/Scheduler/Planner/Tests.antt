-- ===== src/Scheduler/Planner/Tests.antt =====
-- Runs of the planner, and its theorems at a concrete item.
use cse_analysis.Base.{◌≡◌, refl, ◌≢◌, ◌↔◌, true, false, none, some, [], ◌∷◌, ◌++◌}
use cse_analysis.Scheduler.Planner.{
  Run, partial, Item, ItemEvent, start, resume, Evidence, evidence, decide, decide_open, capture,
  not_applicable, record_missed, capture_attempts, market_closed,
}
use cse_analysis.Scheduler.Schedule.{next_attempt_at, retry_delay_minutes}
use cse_analysis.Scheduler.Schedule.Tests.{snapshot}
use cse_analysis.Scheduler.Planner.Decisions.{MayCapture, decide-capture_iff}
use cse_analysis.Scheduler.Planner.Outcomes.{archived_kept}
use cse_analysis.Scheduler.Planner.Story.{Story, new_item, wake}

abbrev item : Item
item = record {
  trading_date = 739065;
  due_at = 1000000000;
  window_closes_at = 9000000000;
  by_operator = false;
  schedule = snapshot;
}

abbrev partial_run : Run
partial_run = record {
  id = 7;
  state = partial;
  a_captured = true;
  e1 = true;
  session_date = some 739065;
  missed_record = false;
}

abbrev none_yet : Evidence
none_yet = evidence 739065 []

abbrev shown : Evidence
shown = evidence 739065 (partial_run ∷ [])

first_start : (decide item none_yet 1000000000 [] none false false).kind ≡ capture
unfolding decide decide_open evidence capture_attempts
first_start = refl

resumed : (decide item shown 1000000000 [] (some market_closed) false false).run_id ≡ some 7
unfolding decide decide_open evidence capture_attempts
resumed = refl

decide-capture_iff_example :
    ((decide item shown 1000000000 [] none false false).kind ≡ capture)
    ↔ MayCapture item shown 1000000000 [] none false false
decide-capture_iff_example = decide-capture_iff item shown 1000000000 [] none false false

archived_kept_example :
    let dec =
      decide item
        (evidence item.trading_date (partial_run ∷ []))
        9000000000
        []
        (some market_closed)
        false
        false in
    (dec.kind ≢ not_applicable) × (dec.kind ≢ record_missed)
archived_kept_example =
    archived_kept item (partial_run ∷ []) 9000000000 [] (some market_closed) false false refl

abbrev first_capture : ItemEvent
first_capture = record { running = true; action = start; scheduler_time = 1000000000 }

abbrev second_capture : ItemEvent
second_capture = record { running = true; action = resume; scheduler_time = 2200000000 }

two_captures : Story item (([] ++ first_capture ∷ []) ++ second_capture ∷ [])
unfolding decide decide_open evidence capture_attempts next_attempt_at retry_delay_minutes
two_captures =
    wake shown 2200000000 none false second_capture refl refl refl
      (wake none_yet 1000000000 none false first_capture refl refl refl new_item)
