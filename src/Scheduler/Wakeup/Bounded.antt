-- ===== src/Scheduler/Wakeup/Bounded.antt =====
-- Over any sequence of wake-ups an item is captured a bounded number of times.
use mathlib.Core.List.{Memᴰ}
use cse_analysis.Base.{
  ℕ, ◌≤◌, ◌<◌, ◌≡◌, refl, sym, subst, ◌∙◌, ap, Bool, true, false, Option, none, some, List, [], ◌∷◌,
  map, arith, All, All-mem, mem-All, keep, keep-mem, last?, length, ◌==◌, Bool-cases, Option-cases,
  inl, inr, any, mem-any,
}
use cse_analysis.Scheduler.Schedule.{ScheduleSettings, colombo_date, aware}
use cse_analysis.Scheduler.Planner.{Item, Evidence, Decision, DecisionKind, decide, is_capture?}
use cse_analysis.Scheduler.Planner.Story.{captures_bounded, IsSpaced, IsInWindow}
use cse_analysis.Scheduler.Wakeup.{P2, Wake, Rows, planner_event, discover, open_items, is_dated}
use cse_analysis.Scheduler.Wakeup.Reconcile.{
  sync, noted, attended, apply, evidence_at, decided, wanted, reconcile, reconcile_all, is_capture,
}
use cse_analysis.Scheduler.Wakeup.Actions.{
  Host, first_capture, run_on, with_rows, begun, current_rows, recovered, gates_open, run, is_only,
}
use cse_analysis.Scheduler.Wakeup.Quiet.{reconcile-IsQuiet, ==_refl}
use cse_analysis.Scheduler.Wakeup.Captures.{capture_one-affordable}
use cse_analysis.Scheduler.Wakeup.Created.{IsOrdered, IsTold, IsKeptUp, discover-keeps}
use cse_analysis.Scheduler.Wakeup.Told.{IsFresh, keep-IsOrdered}
use cse_analysis.Scheduler.Wakeup.Paid.{
  IsAccounted, requests_of, quiet-IsAccounted, captured-IsAccounted, grown-IsAccounted,
}

kind-capture : (k : DecisionKind) → is_capture k ≡ true → k ≡ DecisionKind.capture
kind-capture k h = ground arith

module _ {Archive : Type 0} (p2 : P2 Archive) (now : ℕ) where
  apply-capture :
      (i : Item) (ev : Evidence) (k : DecisionKind) (r : Option ℕ) (w : Wake Archive)
      → k ≡ DecisionKind.capture
      → apply p2 now i ev k r w ≡ w
  unfolding apply
  apply-capture i ev k r w h = rw h refl

  attended-events :
      (i : Item) (dec : Decision) (w : Wake Archive) → (attended p2 now i dec w).events ≡ w.events
  attended-events i dec w = elim (Bool-cases dec.attention) [
    | inl e ↦ rw e refl
    | inr e ↦ rw e refl
  ]

  wanted-kind :
      (dec d : Decision) → wanted p2 now true dec ≡ some d → dec.kind ≡ DecisionKind.capture
  wanted-kind dec d h = elim (Bool-cases (is_capture dec.kind)) [
    | inl e ↦ kind-capture dec.kind e
    | inr e ↦ let h' : none ≡ some d = rw e at h in cc
  ]

  reconcile-IsFresh :
      (i : Item) (blocks : Bool) (w : Wake Archive) (d : Decision)
      → Memᴰ i w.items
      → (reconcile p2 now i blocks false true w).1 ≡ some d
      → IsFresh now (reconcile p2 now i blocks false true w).0 i
  unfolding reconcile
  reconcile-IsFresh i blocks w d m h =
      let ev = evidence_at p2 now w i in
      let w1 = noted p2 now i (sync now ev (last? (w.events i.trading_date))) w in
      let dec = decided p2 now i ev blocks false w1 in
      let k = wanted-kind dec d h in
      let same : (apply p2 now i ev dec.kind dec.run_id (attended p2 now i dec w1)).events
          ≡ w1.events =
        ap (λ (x : Wake Archive). x.events)
          (apply-capture i ev dec.kind dec.run_id (attended p2 now i dec w1) k)
        ∙ attended-events i dec w1 in
      (
        subst (λ is. Memᴰ i is) (sym (reconcile-IsQuiet p2 now i blocks false true w).same_items) m,
        ev,
        w1.calendar i.trading_date,
        blocks,
        subst
            (λ es.
              (decide i ev now (map planner_event (es i.trading_date)) (w1.calendar i.trading_date)
                blocks false).kind
              ≡ DecisionKind.capture)
            (sym same) k,
      )

  IsFresh-moves :
      (i : Item) (w w' : Wake Archive)
      → w'.items ≡ w.items
      → w'.events i.trading_date ≡ w.events i.trading_date
      → IsFresh now w i
      → IsFresh now w' i
  IsFresh-moves i w w' qi qe (m, ev, calendar, blocks, d) = (
    subst (λ is. Memᴰ i is) (sym qi) m,
    ev,
    calendar,
    blocks,
    subst
        (λ es.
          (decide i ev now (map planner_event es) calendar blocks false).kind
          ≡ DecisionKind.capture)
        (sym qe) d,
  )

  apart_dates : (a b : ℕ) → a < b → (a == b) ≡ false
  apart_dates a b h = ground arith

  module _ (blocks : Bool) where
    abbrev loop : List Item → Wake Archive → Wake Archive × List (Item × Decision)
    loop is w = reconcile_all p2 now blocks (λ d. false) is w

    loop-items : (is : List Item) (w : Wake Archive) → (loop is w).0.items ≡ w.items
    unfolding reconcile_all
    loop-items [] w = refl
    loop-items (i ∷ is) w =
        loop-items is (reconcile p2 now i blocks false true w).0
        ∙ (reconcile-IsQuiet p2 now i blocks false true w).same_items

    loop-elsewhere :
        (day : ℕ) (is : List Item) (w : Wake Archive)
        → All (λ (y : Item). day < y.trading_date) is
        → (loop is w).0.events day ≡ w.events day
    unfolding reconcile_all
    loop-elsewhere day [] w h = refl
    loop-elsewhere day (i ∷ is) w h =
        loop-elsewhere day is (reconcile p2 now i blocks false true w).0 h.1
        ∙ (reconcile-IsQuiet p2 now i blocks false true w).elsewhere day
            (apart_dates day i.trading_date h.0)

    loop-IsAccounted :
        (is : List Item) (w : Wake Archive) → IsAccounted w → IsAccounted (loop is w).0
    unfolding reconcile_all
    loop-IsAccounted [] w k = k
    loop-IsAccounted (i ∷ is) w k =
        loop-IsAccounted is (reconcile p2 now i blocks false true w).0
          (quiet-IsAccounted i.trading_date w _ (reconcile-IsQuiet p2 now i blocks false true w) k)

    loop-IsFresh :
        (is : List Item) (w : Wake Archive)
        → IsOrdered is
        → All (λ (i : Item). Memᴰ i w.items) is
        → All (λ (c : Item × Decision). IsFresh now (loop is w).0 c.0) (loop is w).1
    unfolding reconcile_all
    loop-IsFresh [] w o m = tt
    loop-IsFresh (i ∷ is) w o m =
        let out = reconcile p2 now i blocks false true w in
        let q = reconcile-IsQuiet p2 now i blocks false true w in
        let rest = loop-IsFresh is out.0 o.1 (
          mem-All (λ (j : Item). Memᴰ j out.0.items) is
            (λ j mj.
              subst (λ js. Memᴰ j js) (sym q.same_items)
                (All-mem (λ (x : Item). Memᴰ x w.items) m.1 mj))) in
        elim (Option-cases out.1) [
          | inl e ↦ rw e rest
          | inr (d, e) ↦ rw e (
            IsFresh-moves i out.0 (loop is out.0).0 (loop-items is out.0)
                (loop-elsewhere i.trading_date is out.0 o.0) (reconcile-IsFresh i blocks w d m.0 e),
            rest,
          )
        ]

  first_capture-IsAccounted :
      (s : ScheduleSettings) (host : Host) (today : ℕ) (blocks : Bool) (cs : List (Item × Decision))
      (w : Wake Archive)
      → All (λ (c : Item × Decision). IsFresh now w c.0) cs
      → IsAccounted w
      → IsAccounted (first_capture p2 now s host today blocks cs w).1
  unfolding first_capture
  first_capture-IsAccounted s host today blocks [] w fresh k = k
  first_capture-IsAccounted s host today blocks ((i, dec) ∷ cs) w fresh k =
      elim (capture_one-affordable p2 now i s host today blocks dec w) [
        | inl q ↦ quiet-IsAccounted i.trading_date w _ q k
        | inr (b, a, o, out) ↦ elim out [
          | inl q ↦ quiet-IsAccounted i.trading_date w _ q k
          | inr (event, call, c, afford) ↦ captured-IsAccounted now i w _ event call c fresh.0 k
        ]
      ]

  run_on-IsAccounted :
      (s : ScheduleSettings) (host : Host) (today : ℕ) (only : Option ℕ) (w : Wake Archive)
      → IsAccounted w
      → IsAccounted (run_on p2 now s host today only false w).1
  unfolding run_on open_items
  run_on-IsAccounted s host today only w k =
      let blocks = p2.blocked w.archive in
      let is = open_items w in
      let fresh =
        loop-IsFresh blocks is w (keep-IsOrdered _ w.items k.kept_up.ordered)
          (mem-All (λ (i : Item). Memᴰ i w.items) is (λ i m. (keep-mem _ w.items m).0)) in
      let out = loop blocks is w in
      first_capture-IsAccounted s host today blocks
        (keep (λ c. is_only only c.0.trading_date) out.1) out.0
        (mem-All (λ (c : Item × Decision). IsFresh now out.0 c.0) _
          (λ c m.
            All-mem (λ (c : Item × Decision). IsFresh now out.0 c.0) fresh (keep-mem _ out.1 m).0))
        (loop-IsAccounted blocks is w k)

  begun-IsAccounted :
      (s : ScheduleSettings) (host : Host) (only : Option ℕ) (today : ℕ) (r : Option Rows)
      (w : Wake Archive)
      → ((x : Rows) → r ≡ some x → IsAccounted (with_rows p2 x w))
      → IsAccounted w
      → IsAccounted (begun p2 s host now only false today r w).1
  unfolding begun with_rows
  begun-IsAccounted s host only today none w h k = k
  begun-IsAccounted s host only today (some r) w h k =
      run_on-IsAccounted s host today only (with_rows p2 r w) (h r refl)

-- What one wake-up is given
pub record Timer : Type 0 where
  pub settings : ScheduleSettings
  pub host : Host
  pub now : ℕ
  pub last_time : Option ℕ
  pub confirm_through : Option ℕ
  pub only_date : Option ℕ

-- What the wake-ups so far did about an item: the calls of P2 for its date, and the captures that its
-- events tell of.
abbrev pub IsBounded : {Archive : Type 0} → Wake Archive → Item → Type 0
IsBounded w i =
    let starts = keep is_capture? (map planner_event (w.events i.trading_date)) in
    (requests_of i.trading_date w.calls ≤ length starts)
    × (length starts ≤ i.schedule.max_attempts)
    × IsSpaced i.schedule 1 starts
    × All (IsInWindow i) starts

module _ {Archive : Type 0} (p2 : P2 Archive) where
  abbrev pub wake_up : Timer → Wake Archive → Wake Archive
  wake_up t w = (run p2 t.settings t.host t.now t.last_time t.confirm_through t.only_date false w).1

  -- Wake-ups one after the other
  abbrev pub wake_ups : List Timer → Wake Archive → Wake Archive
  wake_ups [] w = w
  wake_ups (t ∷ ts) w = wake_ups ts (wake_up t w)

  recovered-IsAccounted : (w : Wake Archive) → IsAccounted w → IsAccounted (recovered p2 w)
  recovered-IsAccounted w k = record { kept_up = k.kept_up; paid = k.paid }

  -- A wake-up that no operator lets ignore the back-off keeps its accounts.
  run-IsAccounted :
      (s : ScheduleSettings) (host : Host) (now : ℕ) (last confirm only : Option ℕ)
      (w : Wake Archive)
      → IsAccounted w
      → IsAccounted (run p2 s host now last confirm only false w).1
  unfolding run
  run-IsAccounted s host now last confirm only w k = elim (Bool-cases s.armed) [
    | inr a ↦ rw a (recovered-IsAccounted w k)
    | inl a ↦ elim (Bool-cases (gates_open s host now last)) [
      | inr g ↦ rw (a, g) (recovered-IsAccounted w k)
      | inl g ↦ elim (Option-cases s.start_date) [
        | inl d ↦ rw (a, g, d) (recovered-IsAccounted w k)
        | inr (first, d) ↦ elim (Option-cases (colombo_date (aware now))) [
          | inl t ↦ rw (a, g, d, t) (recovered-IsAccounted w k)
          | inr (today, t) ↦
              rw (a, g, d, t)
                (begun-IsAccounted p2 now s host only today
                  (discover s first today confirm now (current_rows p2 w)) (recovered p2 w)
                  (λ x e.
                    let (up, kept) =
                      discover-keeps s first today confirm now (current_rows p2 w) x e k.kept_up in
                    grown-IsAccounted (recovered p2 w) x up kept (recovered-IsAccounted w k))
                  (recovered-IsAccounted w k))
        ]
      ]
    ]
  ]

  wake_ups-IsAccounted :
      (ts : List Timer) (w : Wake Archive) → IsAccounted w → IsAccounted (wake_ups ts w)
  wake_ups-IsAccounted [] w k = k
  wake_ups-IsAccounted (t ∷ ts) w k =
      wake_ups-IsAccounted ts (wake_up t w)
        (run-IsAccounted t.settings t.host t.now t.last_time t.confirm_through t.only_date w k)

  accounted-IsBounded : (w : Wake Archive) → IsAccounted w → All (IsBounded w) w.items
  accounted-IsBounded w k = mem-All (IsBounded w) w.items (λ i m.
      let here : any (is_dated i.trading_date) w.items ≡ true =
        mem-any (is_dated i.trading_date) m (==_refl i.trading_date) in
      let paid = k.paid i.trading_date in
      let (few, spaced, inside) = captures_bounded i (All-mem (IsTold w.events) k.kept_up.told m) in
      (rw here at paid, few, spaced, inside))

  -- Over any sequence of timer wake-ups that begins with no call of P2 made, under whatever settings,
  -- hosts, clocks and answers of P2, the starts and resumptions of runs that the wake-ups ask of P2
  -- for an item's date are no more than the captures that its events record; and these are at
  -- most the scheduled number, each after the back-off of the one before it, and all of them from its
  -- due time on and before its window closes.
  pub wake_ups-IsBounded :
      (ts : List Timer) (w : Wake Archive)
      → IsKeptUp w.items w.events
      → w.calls ≡ []
      → All (IsBounded (wake_ups ts w)) (wake_ups ts w).items
  wake_ups-IsBounded ts w k none_made =
      accounted-IsBounded (wake_ups ts w)
        (wake_ups-IsAccounted ts w (record { kept_up = k; paid = λ d. rw none_made (omega arith) }))
