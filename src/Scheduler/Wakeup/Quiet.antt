-- ===== src/Scheduler/Wakeup/Quiet.antt =====
-- What a wake-up does without a request: it touches one item's events, appends no capture to them, and
-- makes no call of P2 that contacts the source.
use cse_analysis.Base.{
  ℕ, ◌≡◌, refl, ◌∙◌, Bool, true, false, Option, none, some, List, [], ◌∷◌, ◌++◌, arith, keep,
  keep-append_false, last?, ◌==◌, Bool-cases, Option-cases, inl, inr,
}
use cse_analysis.Capture.Completeness as Completeness
use cse_analysis.Scheduler.Planner.{
  Item, MarketStatus, DecisionKind, Decision, Evidence, is_capture?, is_capture_action,
}
use cse_analysis.Scheduler.Wakeup.{
  ItemState, of_run, Action, Event, planner_event, item_action, Answer, refused_by_p2, ended, P2,
  Call, start_call, resume_call, reprocess_call, missed_call, Wake, append_item_event,
}
use cse_analysis.Scheduler.Wakeup.Reconcile.{
  finished, sync, noted, attended, opened, calendar_row, miss, reprocessed, reprocess_run, apply,
  evidence_at, decided, reconcile,
}

pub ==_refl : (n : ℕ) → (n == n) ≡ true
==_refl n = ground arith

-- The calls that make requests
abbrev pub is_request : Call → Bool
is_request (start_call d n) = true
is_request (resume_call d r) = true
is_request _ = false

-- A call that makes requests, for the item of a date
abbrev pub is_request_of : ℕ → Call → Bool
is_request_of day (start_call d n) = day == d
is_request_of day (resume_call d r) = day == d
is_request_of day _ = false

-- The second list is the first with events appended that are no capture.
pub data Extends : List Event → List Event → Type 0 where
  no_more : {es : List Event} → Extends es es
  more :
      {es es' : List Event} (e : Event)
      → is_capture? (planner_event e) ≡ false
      → Extends es es'
      → Extends es (es' ++ e ∷ [])

Extends-trans : {a b c : List Event} → Extends a b → Extends b c → Extends a c
Extends-trans ab no_more = ab
Extends-trans ab (more e h bc) = more e h (Extends-trans ab bc)

pub record IsQuiet {Archive : Type 0} (day : ℕ) (w w' : Wake Archive) : Type 0 where
  pub same_items : w'.items ≡ w.items
  pub same_requests : keep is_request w'.calls ≡ keep is_request w.calls
  pub elsewhere : (d : ℕ) → (d == day) ≡ false → w'.events d ≡ w.events d
  pub extended : Extends (w.events day) (w'.events day)

module _ {Archive : Type 0} (day : ℕ) where
  pub IsQuiet-refl : (w : Wake Archive) → IsQuiet day w w
  IsQuiet-refl w = record {
    same_items = refl;
    same_requests = refl;
    elsewhere = λ d n. refl;
    extended = no_more;
  }

  pub IsQuiet-trans : (a b c : Wake Archive) → IsQuiet day a b → IsQuiet day b c → IsQuiet day a c
  IsQuiet-trans a b c ab bc = record {
    same_items = bc.same_items ∙ ab.same_items;
    same_requests = bc.same_requests ∙ ab.same_requests;
    elsewhere = λ d n. bc.elsewhere d n ∙ ab.elsewhere d n;
    extended = Extends-trans ab.extended bc.extended;
  }

  pub append-IsQuiet :
      (e : Event) (w : Wake Archive)
      → is_capture? (planner_event e) ≡ false
      → IsQuiet day w (append_item_event day e w)
  unfolding append_item_event
  append-IsQuiet e w h = record {
    same_items = refl;
    same_requests = refl;
    elsewhere = λ d n. rw n refl;
    extended = rw (==_refl day) (more e h no_more);
  }

  pub attend-IsQuiet :
      (ds : List ℕ) (w : Wake Archive) → IsQuiet day w (record w { attention = ds })
  attend-IsQuiet ds w = record {
    same_items = refl;
    same_requests = refl;
    elsewhere = λ d n. refl;
    extended = no_more;
  }

  call-IsQuiet :
      (c : Call) (a : Archive) (w : Wake Archive)
      → is_request c ≡ false
      → IsQuiet day w (record w { archive = a; calls = w.calls ++ c ∷ [] })
  call-IsQuiet c a w h = record {
    same_items = refl;
    same_requests = keep-append_false is_request w.calls c h;
    elsewhere = λ d n. refl;
    extended = no_more;
  }

module _ {Archive : Type 0} (p2 : P2 Archive) (now : ℕ) (i : Item) where
  pub finished-no_capture :
      (s : Completeness.RunState) (a : Action) (r : Option ℕ)
      → is_capture? (
          planner_event
            (record { state = finished s; action = a; run_id = r; scheduler_time = now }))
        ≡ false
  finished-no_capture Completeness.blocked a r = refl
  finished-no_capture Completeness.failed a r = refl
  finished-no_capture Completeness.partial a r = refl
  finished-no_capture Completeness.succeeded a r = refl

  pub other-no_capture :
      (s : ItemState) (a : Action) (r : Option ℕ)
      → is_capture_action (item_action a) ≡ false
      → is_capture?
          (planner_event (record { state = s; action = a; run_id = r; scheduler_time = now }))
        ≡ false
  other-no_capture s a r h = ground arith

  sync-no_capture :
      (ev : Evidence) (cur : Option Event) (e : Event)
      → sync now ev cur ≡ some e
      → is_capture? (planner_event e) ≡ false
  unfolding sync
  sync-no_capture ev cur e h = ground arith

  noted-IsQuiet :
      (ev : Evidence) (cur : Option Event) (w : Wake Archive)
      → IsQuiet i.trading_date w (noted p2 now i (sync now ev cur) w)
  unfolding noted
  noted-IsQuiet ev cur w = elim (Option-cases (sync now ev cur)) [
    | inl e ↦ rw e (IsQuiet-refl i.trading_date w)
    | inr (x, e) ↦ rw e (append-IsQuiet i.trading_date x w (sync-no_capture ev cur x e))
  ]

  opened-IsQuiet :
      (row : Option MarketStatus) (w : Wake Archive)
      → IsQuiet i.trading_date w (opened p2 now i row w)
  unfolding opened
  opened-IsQuiet none w = record {
    same_items = refl;
    same_requests = refl;
    elsewhere = λ d n. refl;
    extended = no_more;
  }
  opened-IsQuiet (some MarketStatus.market_open) w = IsQuiet-refl i.trading_date w
  opened-IsQuiet (some MarketStatus.market_closed) w = attend-IsQuiet i.trading_date _ w
  opened-IsQuiet (some MarketStatus.market_unknown) w = attend-IsQuiet i.trading_date _ w

  pub calendar_row-IsQuiet :
      (own : Bool) (w : Wake Archive) → IsQuiet i.trading_date w (calendar_row p2 now i own w)
  unfolding calendar_row
  calendar_row-IsQuiet false w = IsQuiet-refl i.trading_date w
  calendar_row-IsQuiet true w = opened-IsQuiet (w.calendar i.trading_date) w

  miss-IsQuiet : (w : Wake Archive) → IsQuiet i.trading_date w (miss p2 now i w)
  unfolding miss
  miss-IsQuiet w =
      let d = i.trading_date in
      let call = call-IsQuiet d (missed_call d) (p2.do_miss w.archive d).1 w refl in
      IsQuiet-trans d w _ _ call (append-IsQuiet d _ _ refl)

  reprocessed-IsQuiet :
      (r : ℕ) (answer : Answer) (w : Wake Archive)
      → IsQuiet i.trading_date w (reprocessed p2 now i r answer w)
  unfolding reprocessed
  reprocessed-IsQuiet r refused_by_p2 w = attend-IsQuiet i.trading_date _ w
  reprocessed-IsQuiet r (ended s id own) w =
      IsQuiet-trans i.trading_date w _ _
        (append-IsQuiet i.trading_date _ w (finished-no_capture s Action.reprocess (some r)))
        (calendar_row-IsQuiet own _)

  reprocess_run-IsQuiet :
      (r : Option ℕ) (w : Wake Archive) → IsQuiet i.trading_date w (reprocess_run p2 now i r w)
  unfolding reprocess_run
  reprocess_run-IsQuiet none w = IsQuiet-refl i.trading_date w
  reprocess_run-IsQuiet (some r) w =
      let out = p2.do_reprocess w.archive r in
      IsQuiet-trans i.trading_date w _ _
        (call-IsQuiet i.trading_date (reprocess_call r) out.1 w refl)
        (reprocessed-IsQuiet r out.0 _)

  pub apply-IsQuiet :
      (ev : Evidence) (k : DecisionKind) (r : Option ℕ) (w : Wake Archive)
      → IsQuiet i.trading_date w (apply p2 now i ev k r w)
  unfolding apply
  apply-IsQuiet ev DecisionKind.not_applicable r w = append-IsQuiet i.trading_date _ w refl
  apply-IsQuiet ev DecisionKind.finalize r w =
      append-IsQuiet i.trading_date _ w (other-no_capture (of_run ev.state) Action.finalize r refl)
  apply-IsQuiet ev DecisionKind.record_missed r w = miss-IsQuiet w
  apply-IsQuiet ev DecisionKind.reprocess r w = reprocess_run-IsQuiet r w
  apply-IsQuiet ev DecisionKind.wait r w = IsQuiet-refl i.trading_date w
  apply-IsQuiet ev DecisionKind.capture r w = IsQuiet-refl i.trading_date w

  attended-IsQuiet :
      (dec : Decision) (w : Wake Archive) → IsQuiet i.trading_date w (attended p2 now i dec w)
  attended-IsQuiet dec w = elim (Bool-cases dec.attention) [
    | inl e ↦ rw e (attend-IsQuiet i.trading_date _ w)
    | inr e ↦ rw e (IsQuiet-refl i.trading_date w)
  ]

  pub reconcile-IsQuiet :
      (blocks ignore allow : Bool) (w : Wake Archive)
      → IsQuiet i.trading_date w (reconcile p2 now i blocks ignore allow w).0
  unfolding reconcile
  reconcile-IsQuiet blocks ignore allow w =
      let ev = evidence_at p2 now w i in
      let w1 = noted p2 now i (sync now ev (last? (w.events i.trading_date))) w in
      let dec = decided p2 now i ev blocks ignore w1 in
      IsQuiet-trans i.trading_date w w1 _ (noted-IsQuiet ev (last? (w.events i.trading_date)) w) (
        IsQuiet-trans i.trading_date w1 _ _ (attended-IsQuiet dec w1)
          (apply-IsQuiet ev dec.kind dec.run_id (attended p2 now i dec w1)))
