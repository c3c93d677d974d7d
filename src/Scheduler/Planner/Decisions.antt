-- ===== src/Scheduler/Planner/Decisions.antt =====
-- When `decide` captures, and what it concludes once the capture window has closed.
use cse_analysis.Base.{
  ℕ, ◌≤◌, ◌<◌, ◌≡◌, ◌↔◌, ◌≢◌, ◌⊎◌, Bool, true, false, Option, none, some, List, [], arith, length,
  ltb,
}
use cse_analysis.Scheduler.Schedule.{Snapshot, next_attempt_at}
use cse_analysis.Scheduler.Planner.{
  Evidence, Item, ItemEvent, MarketStatus, decide, decide_open, decide_closed, capture, wait,
  not_applicable, record_missed, capture_attempts, attempt_limit, backs_off, succeeded, missed,
  blocked, market_closed, resume,
}

-- The time before which the next capture waits; an operator may ignore it.
abbrev pub not_before : Snapshot → Bool → ℕ × Option ℕ → ℕ
not_before s true _ = 0
not_before s false (n, none) = 0
not_before s false (n, some last_at) = next_attempt_at s n last_at

-- The conditions on an item that is due in an open window.
record MayOpen (item : Item) (ev : Evidence) (now : ℕ) (events : List ItemEvent)
    (gate_blocked ignore : Bool) : Type 0 where
  clock_right : (ev.captured ≡ true) ⊎ (ev.anomaly_runs ≡ [])
  not_blocked : (ev.state ≢ blocked) ⊎ (gate_blocked ≡ false)
  attempts_left : (capture_attempts events).0 < attempt_limit item.schedule ignore
  backed_off : not_before item.schedule ignore (capture_attempts events) ≤ now

-- The conditions under which an item's capture may be attempted at `now`.
pub record MayCapture (item : Item) (ev : Evidence) (now : ℕ) (events : List ItemEvent)
    (calendar : Option MarketStatus) (gate_blocked ignore : Bool) : Type 0 where
  pub unfinished : ev.state ≢ succeeded
  pub not_declared_closed :
      (ev.captured ≡ true) ⊎ (item.by_operator ≡ true) ⊎ (calendar ≢ some market_closed)
  pub not_ruled_out :
      (ev.captured ≡ true) ⊎ (length ev.no_session_runs < item.schedule.no_session_confirmations)
  pub is_due : item.due_at ≤ now
  pub still_open : now < item.window_closes_at
  pub clock_right : (ev.captured ≡ true) ⊎ (ev.anomaly_runs ≡ [])
  pub not_blocked : (ev.state ≢ blocked) ⊎ (gate_blocked ≡ false)
  pub attempts_left : (capture_attempts events).0 < attempt_limit item.schedule ignore
  pub backed_off : not_before item.schedule ignore (capture_attempts events) ≤ now

module _ (item : Item) (ev : Evidence) (now : ℕ) (events : List ItemEvent)
    (gate_blocked ignore : Bool) where
  backs_off_iff :
      (n : ℕ × Option ℕ)
      → backs_off item.schedule now ignore n ≡ ltb now (not_before item.schedule ignore n)
  unfolding backs_off
  backs_off_iff (n, none) = ground arith
  backs_off_iff (n, some t) = ground arith

  open-MayOpen :
      (decide_open item ev now events gate_blocked ignore).kind ≡ capture
      → MayOpen item ev now events gate_blocked ignore
  unfolding decide_open
  open-MayOpen h = ground (arith, backs_off_iff (capture_attempts events))

  MayOpen-open :
      MayOpen item ev now events gate_blocked ignore
      → (decide_open item ev now events gate_blocked ignore).kind ≡ capture
  unfolding decide_open
  MayOpen-open h = ground (arith, backs_off_iff (capture_attempts events))

  closed-ne-capture : (decide_closed ev).kind ≢ capture
  unfolding decide_closed
  closed-ne-capture h = ground arith

  open-kind :
      let k = (decide_open item ev now events gate_blocked ignore).kind in
      (k ≡ wait) ⊎ (k ≡ capture)
  unfolding decide_open
  open-kind = ground arith

  open-resume :
      {r : ℕ}
      → (decide_open item ev now events gate_blocked ignore).action ≡ some resume
      → (decide_open item ev now events gate_blocked ignore).run_id ≡ some r
      → ev.resumable_run ≡ some r
  unfolding decide_open
  open-resume {r} h e = ground arith

  closed-action : (decide_closed ev).action ≡ none
  unfolding decide_closed
  closed-action = ground arith

  closed-kept :
      ev.captured ≡ true
      → ev.run ≢ none
      → ((decide_closed ev).kind ≢ not_applicable) × ((decide_closed ev).kind ≢ record_missed)
  unfolding decide_closed
  closed-kept c r = (λ w. ground arith, λ w. ground arith)

module _ (item : Item) (ev : Evidence) (now : ℕ) (events : List ItemEvent)
    (calendar : Option MarketStatus) (gate_blocked ignore : Bool) where
  decide-MayCapture :
      (decide item ev now events calendar gate_blocked ignore).kind ≡ capture
      → MayCapture item ev now events calendar gate_blocked ignore
  unfolding decide
  decide-MayCapture h = ground (
    arith,
    closed-ne-capture item ev now events gate_blocked ignore,
    open-MayOpen item ev now events gate_blocked ignore,
  )

  MayCapture-decide :
      MayCapture item ev now events calendar gate_blocked ignore
      → (decide item ev now events calendar gate_blocked ignore).kind ≡ capture
  unfolding decide
  MayCapture-decide h = ground (arith, MayOpen-open item ev now events gate_blocked ignore)

  -- `decide` asks for a capture exactly when the item is unfinished, neither declared closed nor
  -- ruled out by snapshots, due in an open window, with the clock not in doubt, not gated by a
  -- block, with an attempt left, and past its back-off.
  pub decide-capture_iff :
      ((decide item ev now events calendar gate_blocked ignore).kind ≡ capture)
      ↔ MayCapture item ev now events calendar gate_blocked ignore
  decide-capture_iff = (decide-MayCapture, MayCapture-decide)

  -- Once its window has closed, an item that has neither succeeded nor a missed record is settled by
  -- the next decision: it neither waits nor is captured again.
  pub closed_settles :
      item.window_closes_at ≤ now
      → ev.state ≢ succeeded
      → ev.state ≢ missed
      → ((decide item ev now events calendar gate_blocked ignore).kind ≢ wait)
        × ((decide item ev now events calendar gate_blocked ignore).kind ≢ capture)
  unfolding decide decide_closed
  closed_settles closed unfinished recorded = (λ w. ground arith, λ w. ground arith)

  pub captured_kept :
      ev.captured ≡ true
      → ev.run ≢ none
      → ((decide item ev now events calendar gate_blocked ignore).kind ≢ not_applicable)
        × ((decide item ev now events calendar gate_blocked ignore).kind ≢ record_missed)
  unfolding decide
  captured_kept c r =
      let o = open-kind item ev now events gate_blocked ignore in
      let k = closed-kept item ev now events gate_blocked ignore c r in
      (λ w. ground (arith, o, k.0), λ w. ground (arith, o, k.1))

  pub resume-run :
      {r : ℕ}
      → (decide item ev now events calendar gate_blocked ignore).action ≡ some resume
      → (decide item ev now events calendar gate_blocked ignore).run_id ≡ some r
      → ev.resumable_run ≡ some r
  unfolding decide
  resume-run {r} h e = ground (
    arith,
    closed-action item ev now events gate_blocked ignore,
    open-resume item ev now events gate_blocked ignore {r = r},
  )
