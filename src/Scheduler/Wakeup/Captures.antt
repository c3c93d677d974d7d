-- ===== src/Scheduler/Wakeup/Captures.antt =====
-- What `_capture_one` may do: nothing but bookkeeping, or one capture within its limits.
use cse_analysis.Base.{
  ℕ, ◌+◌, ◌≤◌, ◌≡◌, refl, ◌∙◌, Bool, true, false, ◌||◌, ◌⊎◌, Option, none, some, [], ◌∷◌, ◌++◌,
  arith, keep, keep-append_true, ◌==◌, ltb, Bool-cases, Option-cases, inl, inr, is_none, min, ◌-◌,
}
use cse_analysis.Scheduler.Schedule.{ScheduleSettings, min_start_requests, p2_run_request_cap}
use cse_analysis.Scheduler.Planner.{
  Item, pending, running, Decision, is_capture?, resume_request_estimate,
}
use cse_analysis.Scheduler.Wakeup.{
  of_run, Action, Event, planner_event, Answer, refused_by_p2, ended, P2, Call, start_call,
  resume_call, Wake, append_item_event,
}
use cse_analysis.Scheduler.Wakeup.Reconcile.{
  finished, calendar_row, evidence_at, run_id_of, is_in_state,
}
use cse_analysis.Scheduler.Wakeup.Actions.{
  Host, refusal_recorded, answered, start_run, resume_run, within_budget, capture_one,
  agent_approved, capture_of, is_start,
}
use cse_analysis.Scheduler.Wakeup.Quiet.{
  is_request, is_request_of, Extends, IsQuiet, IsQuiet-refl, IsQuiet-trans, append-IsQuiet,
  attend-IsQuiet, calendar_row-IsQuiet, reconcile-IsQuiet, other-no_capture, finished-no_capture,
  ==_refl,
}

-- The cap of a new run is at least the minimum and at most P2's; the cap, and the estimate of a resumed
-- run, fit into what the day's budget leaves.
abbrev pub IsAffordable : ScheduleSettings → ℕ → (ℕ → ℕ) → Call → Type 0
IsAffordable s used estimate (start_call d n) =
    (min_start_requests ≤ n) × (n ≤ p2_run_request_cap) × (used + n ≤ s.daily_request_budget)
IsAffordable s used estimate (resume_call d r) = used + estimate r ≤ s.daily_request_budget
IsAffordable s used estimate _ = Unit {0}

-- One capture of a date's item: its `running` event, one call of P2, and then bookkeeping.
pub record IsCaptured {Archive : Type 0} (now day : ℕ) (w w' : Wake Archive) (event : Event)
    (call : Call) : Type 0 where
  pub captures : is_capture? (planner_event event) ≡ true
  pub at_now : event.scheduler_time ≡ now
  pub same_items : w'.items ≡ w.items
  pub of_day : (d : ℕ) → is_request_of d call ≡ (d == day)
  pub one_request : keep is_request w'.calls ≡ keep is_request w.calls ++ call ∷ []
  pub elsewhere : (d : ℕ) → (d == day) ≡ false → w'.events d ≡ w.events d
  pub extended : Extends (w.events day ++ event ∷ []) (w'.events day)

module _ {Archive : Type 0} (now day : ℕ) where
  call-IsCaptured :
      (w w' : Wake Archive) (archive : Archive) (event : Event) (call : Call)
      → is_capture? (planner_event event) ≡ true
      → event.scheduler_time ≡ now
      → is_request call ≡ true
      → ((d : ℕ) → is_request_of d call ≡ (d == day))
      → IsQuiet day
          (record (append_item_event day event w) {
            archive = archive;
            calls = w.calls ++ call ∷ [];
          })
          w'
      → IsCaptured now day w w' event call
  unfolding append_item_event
  call-IsCaptured w w' archive event call c t r od q = record {
    of_day = od;
    captures = c;
    at_now = t;
    same_items = q.same_items;
    one_request = q.same_requests ∙ keep-append_true is_request w.calls call r;
    elsewhere = λ d n. q.elsewhere d n ∙ rw n refl;
    extended = rw (==_refl day) at (q.extended);
  }

module _ {Archive : Type 0} (p2 : P2 Archive) (now : ℕ) (i : Item) where
  refusal-IsQuiet : (w : Wake Archive) → IsQuiet i.trading_date w (refusal_recorded p2 now i w)
  unfolding refusal_recorded
  refusal-IsQuiet w =
      let ev = evidence_at p2 now w i in
      elim (Bool-cases (is_in_state pending (of_run ev.state) || is_none ev.run)) [
        | inl e ↦ rw e (append-IsQuiet i.trading_date _ w refl)
        | inr e ↦ rw e (
            append-IsQuiet i.trading_date _ w
              (other-no_capture p2 now i (of_run ev.state) Action.refused (run_id_of ev) refl))
      ]

  answered-IsQuiet :
      (starts : Bool) (answer : Answer) (w : Wake Archive)
      → IsQuiet i.trading_date w (answered p2 now i starts answer w).1
  unfolding answered
  answered-IsQuiet starts refused_by_p2 w = refusal-IsQuiet w
  answered-IsQuiet starts (ended s id own) w =
      let d = i.trading_date in
      let w1 =
        append_item_event d
          (record {
            state = finished s;
            action = capture_of p2 now starts;
            run_id = some id;
            scheduler_time = now;
          })
          w in
      let w2 = calendar_row p2 now i own w1 in
      IsQuiet-trans d w w1 _
        (append-IsQuiet d _ w (finished-no_capture p2 now i s (capture_of p2 now starts) (some id)))
        (IsQuiet-trans d w1 w2 _ (calendar_row-IsQuiet p2 now i own w1)
          (reconcile-IsQuiet p2 now i (p2.blocked w2.archive) false false w2))

  abbrev running_event : Action → Option ℕ → Event
  running_event a r = record {
    state = of_run running;
    action = a;
    run_id = r;
    scheduler_time = now;
  }

  start_run-IsCaptured :
      (remaining : ℕ) (w : Wake Archive)
      → IsCaptured now i.trading_date w
          (start_run p2 now i remaining w).1
          (running_event Action.start none)
          (start_call i.trading_date (min p2_run_request_cap remaining))
  unfolding start_run append_item_event
  start_run-IsCaptured remaining w =
      call-IsCaptured now i.trading_date w _ _ _ _ refl refl refl (λ d. refl)
        (answered-IsQuiet true _ _)

  resume_run-IsCaptured :
      (r : ℕ) (w : Wake Archive)
      → IsCaptured now i.trading_date w
          (resume_run p2 now i r w).1
          (running_event Action.resume (some r))
          (resume_call i.trading_date r)
  unfolding resume_run append_item_event
  resume_run-IsCaptured r w =
      call-IsCaptured now i.trading_date w _ _ _ _ refl refl refl (λ d. refl)
        (answered-IsQuiet false _ _)

  -- What a capture action leads to
  abbrev pub IsOutcome : ScheduleSettings → ℕ → Wake Archive → Wake Archive → Type 0
  IsOutcome s used w w' =
      IsQuiet i.trading_date w w'
      ⊎ ((event : Event) × (call : Call) × IsCaptured now i.trading_date w w' event call
          × IsAffordable s used (λ r. resume_request_estimate (p2.summary w.archive r) p2.attempts)
              call)

  within_budget-IsOutcome :
      (s : ScheduleSettings) (dec : Decision) (used : ℕ) (w : Wake Archive)
      → IsOutcome s used w (within_budget p2 now s i dec used w).1
  unfolding within_budget
  within_budget-IsOutcome s dec used w = elim (Bool-cases (is_start dec.action)) [
    | inl e ↦ elim (Bool-cases (ltb s.daily_request_budget (used + min_start_requests))) [
      | inl f ↦ rw (e, f) (inl (attend-IsQuiet i.trading_date _ w))
      | inr f ↦
          rw (e, f)
            (inr (
              _,
              _,
              start_run-IsCaptured (s.daily_request_budget - used) w,
              (ground arith, ground arith, ground arith),
            ))
    ]
    | inr e ↦ elim (Option-cases dec.run_id) [
      | inl n ↦ rw (e, n) (inl (IsQuiet-refl i.trading_date w))
      | inr (r, n) ↦
          elim (Bool-cases (
            ltb s.daily_request_budget
              (used + resume_request_estimate (p2.summary w.archive r) p2.attempts))) [
                | inl f ↦ rw (e, n, f) (inl (attend-IsQuiet i.trading_date _ w))
                | inr f ↦ rw (e, n, f) (inr (_, _, resume_run-IsCaptured r w, ground arith))
              ]
    ]
  ]

  -- `_capture_one` makes no call of P2 that makes requests, and records no capture, unless no block is
  -- unacknowledged, the owner approved the configured user agent and the spool is writable. Then it may
  -- make one capture: it starts a run with a cap of requests that lies between the minimum and P2's own
  -- cap and that, with what the day's runs have used, stays within the daily budget; or it resumes one
  -- for which what was used and `resume_request_estimate` of the run together stay within it.
  pub capture_one-affordable :
      (s : ScheduleSettings) (host : Host) (today : ℕ) (blocks : Bool) (dec : Decision)
      (w : Wake Archive)
      → IsQuiet i.trading_date w (capture_one p2 now s host today blocks (i, dec) w).1
        ⊎ ((blocks ≡ false)
            × (agent_approved s host.user_agent ≡ true)
            × (host.spool_writable ≡ true)
            × IsOutcome s
                (p2.requests_on w.archive today)
                w
                (capture_one p2 now s host today blocks (i, dec) w).1)
  unfolding capture_one
  capture_one-affordable s host today blocks dec w = elim (Bool-cases blocks) [
    | inl b ↦ rw b (inl (IsQuiet-refl i.trading_date w))
    | inr b ↦ elim (Bool-cases (agent_approved s host.user_agent)) [
      | inr a ↦ rw (b, a) (inl (IsQuiet-refl i.trading_date w))
      | inl a ↦ elim (Bool-cases host.spool_writable) [
        | inr o ↦ rw (b, a, o) (inl (IsQuiet-refl i.trading_date w))
        | inl o ↦
            rw (b, a, o)
              (inr (
                refl,
                refl,
                refl,
                within_budget-IsOutcome s dec (p2.requests_on w.archive today) w,
              ))
      ]
    ]
  ]
