-- ===== src/Scheduler/Wakeup/Reconcile.antt =====
-- worker/scheduler/wakeup.py: what a wake-up does with an item without a request (`_sync`, `_reconcile`
-- and what it calls).
use cse_analysis.Base.{
  ℕ, Bool, true, false, ◌&&◌, Option, none, some, List, [], ◌∷◌, ◌++◌, map, ◌==◌, if◌then◌else◌,
  last?, is_none,
}
use cse_analysis.Capture.Completeness as Completeness
use cse_analysis.Scheduler.Planner.{
  Item, RunState, MarketStatus, market_open, pending, running, succeeded, missed, partial, failed,
  blocked, Evidence, evidence, Decision, DecisionKind, decide,
}
use cse_analysis.Scheduler.Wakeup.{
  ItemState, of_run, inapplicable, Action, Event, planner_event, Answer, refused_by_p2, ended, P2,
  reprocess_call, missed_call, Wake, append_item_event,
}

abbrev pub run_id_of : Evidence → Option ℕ
run_id_of ev = elim ev.run [ none ↦ none | some r ↦ some r.id ]

-- The state that a P2 call ends in (`decide_state`)
abbrev pub finished : Completeness.RunState → ItemState
finished Completeness.blocked = of_run blocked
finished Completeness.failed = of_run failed
finished Completeness.partial = of_run partial
finished Completeness.succeeded = of_run succeeded

abbrev pub same_id : Option ℕ → Option ℕ → Bool
same_id none none = true
same_id (some a) (some b) = a == b
same_id _ _ = false

abbrev pub run_state_code : RunState → ℕ
run_state_code RunState.pending = 0
run_state_code RunState.running = 1
run_state_code RunState.succeeded = 2
run_state_code RunState.partial = 3
run_state_code RunState.failed = 4
run_state_code RunState.abandoned = 5
run_state_code RunState.blocked = 6
run_state_code RunState.missed = 7

abbrev pub is_in_state : RunState → ItemState → Bool
is_in_state s (of_run t) = run_state_code s == run_state_code t
is_in_state s inapplicable = false

abbrev pub observed : ℕ → ItemState → Option ℕ → Event
observed now s r = record { state = s; action = Action.observe; run_id = r; scheduler_time = now }

-- `_sync`: the event that it records, if any; an item has an event from its creation on.
unfoldable pub sync : ℕ → Evidence → Option Event → Option Event
sync now ev none = none
sync now ev (some cur) =
    if is_in_state running (of_run ev.state)
    then none
    else if is_in_state pending (of_run ev.state)
    then (if is_in_state running cur.state && is_none cur.run_id
        then some (observed now (of_run pending) none)
        else none)
    else if is_in_state ev.state cur.state && same_id cur.run_id (run_id_of ev)
    then none
    else some (observed now (of_run ev.state) (run_id_of ev))

abbrev pub is_capture : DecisionKind → Bool
is_capture DecisionKind.capture = true
is_capture _ = false

module _ {Archive : Type 0} (p2 : P2 Archive) (now : ℕ) where
  abbrev pub evidence_at : Wake Archive → Item → Evidence
  evidence_at w i = evidence i.trading_date (p2.runs w.archive i.trading_date)

  abbrev pub note : Item → ItemState → Action → Option ℕ → Wake Archive → Wake Archive
  note i s a r w =
      append_item_event i.trading_date
        (record { state = s; action = a; run_id = r; scheduler_time = now }) w

  abbrev pub attend : Item → Wake Archive → Wake Archive
  attend i w = record w { attention = w.attention ++ i.trading_date ∷ [] }

  unfoldable pub noted : Item → Option Event → Wake Archive → Wake Archive
  noted i none w = w
  noted i (some e) w = append_item_event i.trading_date e w

  abbrev pub synced : Item → Evidence → Wake Archive → Wake Archive
  synced i ev w = noted i (sync now ev (last? (w.events i.trading_date))) w

  -- `_calendar`, by the row of the date
  unfoldable pub opened : Item → Option MarketStatus → Wake Archive → Wake Archive
  opened i none w = record w {
    calendar = λ d. if d == i.trading_date then some market_open else w.calendar d;
  }
  opened i (some market_open) w = w
  opened i (some _) w = attend i w

  -- `_calendar`, on whether the session is of the trading date: an existing row is kept.
  unfoldable pub calendar_row : Item → Bool → Wake Archive → Wake Archive
  unfolding opened
  calendar_row i false w = w
  calendar_row i true w = opened i (w.calendar i.trading_date) w

  -- `_record_missed`
  unfoldable pub miss : Item → Wake Archive → Wake Archive
  miss i w =
      let (r, archive) = p2.do_miss w.archive i.trading_date in
      note i (of_run missed) Action.record_missed (some r)
        (record w { archive = archive; calls = w.calls ++ missed_call i.trading_date ∷ [] })

  unfoldable pub reprocessed : Item → ℕ → Answer → Wake Archive → Wake Archive
  unfolding calendar_row
  reprocessed i r refused_by_p2 w = attend i w
  reprocessed i r (ended s id own) w =
      calendar_row i own (note i (finished s) Action.reprocess (some r) w)

  -- `_reprocess`
  unfoldable pub reprocess_run : Item → Option ℕ → Wake Archive → Wake Archive
  unfolding reprocessed
  reprocess_run i none w = w
  reprocess_run i (some r) w =
      let (answer, archive) = p2.do_reprocess w.archive r in
      reprocessed i r answer
        (record w { archive = archive; calls = w.calls ++ reprocess_call r ∷ [] })

  -- The decisions of `_reconcile` that need no request
  unfoldable pub apply : Item → Evidence → DecisionKind → Option ℕ → Wake Archive → Wake Archive
  unfolding miss reprocess_run
  apply i ev DecisionKind.not_applicable r w = note i inapplicable Action.finalize r w
  apply i ev DecisionKind.finalize r w = note i (of_run ev.state) Action.finalize r w
  apply i ev DecisionKind.record_missed r w = miss i w
  apply i ev DecisionKind.reprocess r w = reprocess_run i r w
  apply i ev _ r w = w

  abbrev pub wanted : Bool → Decision → Option Decision
  wanted allow dec = if is_capture dec.kind && allow then some dec else none

  abbrev pub attended : Item → Decision → Wake Archive → Wake Archive
  attended i dec w = if dec.attention then attend i w else w

  -- What `decide` says of an item by its events.
  abbrev pub decided : Item → Evidence → Bool → Bool → Wake Archive → Decision
  decided i ev blocks ignore w =
      decide i ev now (map planner_event (w.events i.trading_date)) (w.calendar i.trading_date)
        blocks ignore

  -- `_reconcile`
  unfoldable pub reconcile :
      Item → Bool → Bool → Bool → Wake Archive → Wake Archive × Option Decision
  unfolding noted apply
  reconcile i blocks ignore allow w =
      let ev = evidence_at w i in
      let w1 = synced i ev w in
      let dec = decided i ev blocks ignore w1 in
      (apply i ev dec.kind dec.run_id (attended i dec w1), wanted allow dec)

  abbrev pub listed : Item → Option Decision → List (Item × Decision) → List (Item × Decision)
  listed i none cs = cs
  listed i (some dec) cs = (i, dec) ∷ cs

  -- The loop of `run` over the open items
  unfoldable pub reconcile_all :
      Bool → (ℕ → Bool) → List Item → Wake Archive → Wake Archive × List (Item × Decision)
  unfolding reconcile
  reconcile_all blocks ignore [] w = (w, [])
  reconcile_all blocks ignore (i ∷ is) w =
      let (w1, d) = reconcile i blocks (ignore i.trading_date) true w in
      let (w2, cs) = reconcile_all blocks ignore is w1 in (w2, listed i d cs)
