-- ===== src/Scheduler/Planner.antt =====
-- worker/scheduler/planner.py: what P2's runs of a date prove, and the one thing to do about an open
-- item now. Pure functions of persisted facts and the time.
--
-- The texts of the reasons are left out: a reason is told apart by the branch that gives it. Run
-- ids are numbers, dates are ordinals and times are microseconds, as in Schedule.
pub mod Runs
pub mod Decisions
pub mod Outcomes
pub mod Story
mod Tests
use mathlib.Core.Option
use cse_analysis.Base.{
  ℕ, ◌≤◌, ◌*◌, ◌+◌, Bool, true, false, not, ◌&&◌, ◌||◌, Option, none, some, List, [], ◌∷◌, ltb, leb,
  ◌==◌, if◌then◌else◌, keep, last?, length, null?, is_none, is_some,
}
use cse_analysis.Scheduler.Schedule.{Snapshot, operator_hard_max_attempts, next_attempt_at}

-- The states of a P2 run, which are the states of `Evidence` too.
pub data RunState : Type 0 where
  pending running succeeded partial failed abandoned blocked missed : RunState

-- `run_facts` (worker/scheduler/store.py), as far as the planner reads it.
pub record Run : Type 0 where
  pub id : ℕ
  pub state : RunState
  pub a_captured : Bool
  pub e1 : Bool
  pub session_date : Option ℕ
  pub missed_record : Bool

pub data EvidenceReason : Type 0 where
  run_succeeded session_archived missed_exists latest_run no_run_yet : EvidenceReason

pub record Evidence : Type 0 where
  pub state : RunState
  pub run : Option Run
  pub captured : Bool
  pub no_session_runs : List Run
  pub anomaly_runs : List Run
  pub resumable_run : Option ℕ
  pub reason : EvidenceReason

-- `RESUMABLE`
abbrev pub is_resumable : RunState → Bool
is_resumable partial = true
is_resumable failed = true
is_resumable abandoned = true
is_resumable blocked = true
is_resumable _ = false

abbrev pub is_succeeded : RunState → Bool
is_succeeded succeeded = true
is_succeeded _ = false

abbrev pub is_missed : RunState → Bool
is_missed missed = true
is_missed _ = false

abbrev pub is_blocked : RunState → Bool
is_blocked blocked = true
is_blocked _ = false

-- `in ("abandoned", "failed")`
abbrev pub is_dead : RunState → Bool
is_dead abandoned = true
is_dead failed = true
is_dead _ = false

abbrev before : ℕ → Option ℕ → Bool
before d none = true
before d (some s) = ltb s d

abbrev after : ℕ → Option ℕ → Bool
after d none = false
after d (some s) = ltb d s

-- The tests of the list comprehensions of `evidence`.
abbrev pub run_succeeded? : Run → Bool
run_succeeded? r = is_succeeded r.state

abbrev pub shows_session? : Run → Bool
shows_session? r = r.a_captured && r.e1

abbrev pub not_missed? : Run → Bool
not_missed? r = not r.missed_record

abbrev pub no_session? : ℕ → Run → Bool
no_session? d r = r.a_captured && (not r.e1 && before d r.session_date)

abbrev pub anomaly? : ℕ → Run → Bool
anomaly? d r = r.a_captured && after d r.session_date

resumable_id : Bool → Run → Option ℕ
resumable_id fresh_needed r = if fresh_needed || not (is_resumable r.state) then none else some r.id

-- The branches of `evidence`, over its lists. `last in no_session` is the test that makes that list,
-- since it holds of equal runs alike.
evidence_of : ℕ → Option Run → Option Run → Option Run → List Run → List Run → Option Run → Evidence
unfolding resumable_id
evidence_of d (some p) _ _ ns an _ = record {
  state = succeeded;
  run = some p;
  captured = true;
  no_session_runs = [];
  anomaly_runs = [];
  resumable_run = none;
  reason = run_succeeded;
}
evidence_of d none (some p) _ ns an _ = record {
  state = p.state;
  run = some p;
  captured = true;
  no_session_runs = ns;
  anomaly_runs = an;
  resumable_run = resumable_id false p;
  reason = session_archived;
}
evidence_of d none none (some p) ns an _ = record {
  state = missed;
  run = some p;
  captured = false;
  no_session_runs = ns;
  anomaly_runs = an;
  resumable_run = none;
  reason = missed_exists;
}
evidence_of d none none none ns an (some p) = record {
  state = p.state;
  run = some p;
  captured = false;
  no_session_runs = ns;
  anomaly_runs = an;
  resumable_run = resumable_id (no_session? d p || anomaly? d p) p;
  reason = latest_run;
}
evidence_of d none none none ns an none = record {
  state = pending;
  run = none;
  captured = false;
  no_session_runs = [];
  anomaly_runs = [];
  resumable_run = none;
  reason = no_run_yet;
}

unfoldable pub evidence : ℕ → List Run → Evidence
unfolding evidence_of
evidence d runs =
    let others = keep not_missed? runs in
    evidence_of d (last? (keep run_succeeded? runs)) (last? (keep shows_session? runs))
      (last? (keep (λ r. r.missed_record) runs)) (keep (no_session? d) others)
      (keep (anomaly? d) others) (last? others)

-- An event of the item's history, as far as the planner reads it.
pub data ItemAction : Type 0 where
  start resume other_action : ItemAction

pub record ItemEvent : Type 0 where
  pub running : Bool
  pub action : ItemAction
  pub scheduler_time : ℕ

-- `CAPTURE_ACTIONS`
abbrev pub is_capture_action : ItemAction → Bool
is_capture_action start = true
is_capture_action resume = true
is_capture_action other_action = false

abbrev pub is_capture? : ItemEvent → Bool
is_capture? e = e.running && is_capture_action e.action

unfoldable pub capture_attempts : List ItemEvent → ℕ × Option ℕ
capture_attempts events =
    let starts = keep is_capture? events in
    (length starts, Option.map (λ (e : ItemEvent). e.scheduler_time) (last? starts))

pub data MarketStatus : Type 0 where
  market_open market_closed market_unknown : MarketStatus

abbrev declared_closed : Option MarketStatus → Bool
declared_closed (some market_closed) = true
declared_closed _ = false

pub record Item : Type 0 where
  pub trading_date : ℕ
  pub due_at : ℕ
  pub window_closes_at : ℕ
  pub by_operator : Bool
  pub schedule : Snapshot

pub data DecisionKind : Type 0 where
  wait not_applicable reprocess finalize record_missed capture : DecisionKind

pub data DecisionReason : Type 0 where
  already_succeeded declared_non_trading no_session_seen derive_from_archive window_closed :
      DecisionReason
  missed_record_exists no_archived_summary not_due later_session cse_blocked : DecisionReason
  attempts_used backing_off resume_run start_run : DecisionReason

pub record Decision : Type 0 where
  pub kind : DecisionKind
  pub reason : DecisionReason
  pub action : Option ItemAction
  pub run_id : Option ℕ
  pub attention : Bool

abbrev run_id_of : Option Run → Option ℕ
run_id_of r = Option.map (λ (x : Run). x.id) r

abbrev simple : DecisionKind → DecisionReason → Option ℕ → Bool → Decision
simple k why r a = record { kind = k; reason = why; action = none; run_id = r; attention = a }

abbrev archive_died : Option Run → Bool
archive_died none = false
archive_died (some r) = is_dead r.state

-- `decide`, the part under `if closed:`
pub decide_closed : Evidence → Decision
decide_closed ev =
    if ev.captured && is_some ev.run
    then (if archive_died ev.run
        then simple reprocess derive_from_archive (run_id_of ev.run) false
        else simple finalize window_closed (run_id_of ev.run) true)
    else if is_missed ev.state
    then simple wait missed_record_exists none false
    else simple record_missed no_archived_summary none true

-- `last_at is not None and not ignore_backoff` and `now < nxt`
unfoldable pub backs_off : Snapshot → ℕ → Bool → ℕ × Option ℕ → Bool
backs_off s now ignore (n, none) = false
backs_off s now ignore (n, some last_at) = not ignore && ltb now (next_attempt_at s n last_at)

unfoldable pub decide_capture : Evidence → Decision
decide_capture ev = elim ev.resumable_run [
  | some r ↦ record {
    kind = capture;
    reason = resume_run;
    action = some resume;
    run_id = some r;
    attention = false;
  }
  | none ↦ record {
    kind = capture;
    reason = start_run;
    action = some start;
    run_id = none;
    attention = false;
  }
]

abbrev pub attempt_limit : Snapshot → Bool → ℕ
attempt_limit s ignore = if ignore then operator_hard_max_attempts else s.max_attempts

-- `decide`, the part under `due` while the window is open
unfoldable pub decide_open : Item → Evidence → ℕ → List ItemEvent → Bool → Bool → Decision
unfolding backs_off decide_capture
decide_open item ev now events gate_blocked ignore =
    let (n, last_at) = capture_attempts events in
    if not (null? ev.anomaly_runs) && not ev.captured
    then simple wait later_session none true
    else if is_blocked ev.state && gate_blocked
    then simple wait cse_blocked none true
    else if leb (attempt_limit item.schedule ignore) n
    then simple wait attempts_used none true
    else if backs_off item.schedule now ignore (n, last_at)
    then simple wait backing_off none false
    else decide_capture ev

unfoldable pub decide :
    Item → Evidence → ℕ → List ItemEvent → Option MarketStatus → Bool → Bool → Decision
decide item ev now events calendar gate_blocked ignore =
    if is_succeeded ev.state
    then simple wait already_succeeded none false
    else if declared_closed calendar && (not item.by_operator && not ev.captured)
    then simple not_applicable declared_non_trading none false
    else if not ev.captured
        && leb item.schedule.no_session_confirmations (length ev.no_session_runs)
    then simple not_applicable no_session_seen (run_id_of (last? ev.no_session_runs)) false
    else if leb item.window_closes_at now
    then decide_closed ev
    else if ltb now item.due_at
    then simple wait not_due none false
    else decide_open item ev now events gate_blocked ignore

-- `validate_run`'s summary of a run, as far as the estimate reads it, and `RequestPolicy.attempts`
pub record ResumeSummary : Type 0 where
  pub universe_archived : Bool
  pub trade_summary_archived : Bool
  pub absent_not_archived : List ℕ
  pub cross_check_not_archived : List ℕ

pub record AttemptsByPurpose : Type 0 where
  pub universe : ℕ
  pub trade_summary : ℕ
  pub absent_fallback : ℕ
  pub cross_check : ℕ

unfoldable pub resume_request_estimate : ResumeSummary → AttemptsByPurpose → ℕ
resume_request_estimate summary attempts =
    (if summary.universe_archived then 0 else attempts.universe)
    + ((if summary.trade_summary_archived then 0 else attempts.trade_summary)
        + (length summary.absent_not_archived * attempts.absent_fallback
            + length summary.cross_check_not_archived * attempts.cross_check))
