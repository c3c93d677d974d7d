-- ===== src/Scheduler/Planner/Outcomes.antt =====
-- `decide` on the evidence of the date's own runs.
use mathlib.Core.List.{Memᴰ}
use cse_analysis.Base.{ℕ, ◌≡◌, ◌≢◌, ◌⊎◌, Bool, true, false, ◌||◌, Option, some, List, any, ◌∙◌}
use cse_analysis.Scheduler.Planner.{
  Run, Item, ItemEvent, MarketStatus, evidence, decide, not_applicable, record_missed, resume,
  run_succeeded?, shows_session?, no_session?, anomaly?, is_resumable,
}
use cse_analysis.Scheduler.Planner.Runs.{captured-eq, captured-run, resumable-mem}
use cse_analysis.Scheduler.Planner.Decisions.{captured_kept, resume-run}

module _ (item : Item) (runs : List Run) (now : ℕ) (events : List ItemEvent)
    (calendar : Option MarketStatus) (gate_blocked ignore : Bool) where
  -- An archived session is never given up: where some run of the date succeeded or archived a
  -- summary of the date's own session, the item is neither declared inapplicable nor recorded as
  -- missed, whatever the calendar, the clock and the item's history say.
  pub archived_kept :
      (any run_succeeded? runs || any shows_session? runs) ≡ true
      → let dec =
          decide item (evidence item.trading_date runs) now events calendar gate_blocked ignore in
        (dec.kind ≢ not_applicable) × (dec.kind ≢ record_missed)
  archived_kept h =
      let c = captured-eq item.trading_date runs ∙ h in
      captured_kept item (evidence item.trading_date runs) now events calendar gate_blocked ignore c
        (captured-run item.trading_date runs c)

  -- A run that is resumed is one of the date's runs, in a state that can be resumed, and its
  -- archived snapshot, if it has one, does not show that the date had another session.
  pub resumed-mem :
      {r : ℕ}
      → let dec =
          decide item (evidence item.trading_date runs) now events calendar gate_blocked ignore in
        dec.action ≡ some resume
        → dec.run_id ≡ some r
        → (x : Run) × Memᴰ x runs
          × (x.id ≡ r)
          × (is_resumable x.state ≡ true)
          × ((shows_session? x ≡ true)
              ⊎ ((no_session? item.trading_date x ≡ false)
                  × (anomaly? item.trading_date x ≡ false)))
  resumed-mem h e = resumable-mem item.trading_date runs (
      resume-run item (evidence item.trading_date runs) now events calendar gate_blocked ignore h e)
