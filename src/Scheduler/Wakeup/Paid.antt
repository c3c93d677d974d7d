-- ===== src/Scheduler/Wakeup/Paid.antt =====
-- Every call of P2 that makes requests is paid for by a capture that the item's events record.
use mathlib.Core.List.{Memᴰ}
use cse_analysis.Base.{
  ℕ, ◌+◌, ◌≤◌, ◌≡◌, sym, subst, Bool, true, List, [], ◌∷◌, ◌++◌, map, arith, All, All-mem, any,
  any-true, mem-any, count, keep, length, ◌==◌, if◌then◌else◌, Bool-cases, inl, inr,
}
use cse_analysis.Scheduler.Planner.{Item, ItemEvent, is_capture?}
use cse_analysis.Scheduler.Wakeup.{Call, Wake, Rows, Event, planner_event, is_dated}
use cse_analysis.Scheduler.Wakeup.Quiet.{
  is_request, is_request_of, Extends, no_more, more, IsQuiet, ==_refl,
}
use cse_analysis.Scheduler.Wakeup.Captures.{IsCaptured}
use cse_analysis.Scheduler.Wakeup.Created.{IsKeptUp}
use cse_analysis.Scheduler.Wakeup.Told.{
  quiet-IsKeptUp, captured-IsKeptUp, IsFresh, map-append, date_eq,
}

-- The calls that make requests for the item of a date, and the captures that its events record
abbrev pub requests_of : ℕ → List Call → ℕ
requests_of day calls = count (is_request_of day) (keep is_request calls)

abbrev pub captures_of : List Event → ℕ
captures_of es = length (keep is_capture? (map planner_event es))

-- A wake without an item of the date made no such call; with one, none that is not recorded.
abbrev allowance : List Item → (ℕ → List Event) → ℕ → ℕ
allowance items events day = if any (is_dated day) items then captures_of (events day) else 0

pub record IsAccounted {Archive : Type 0} (w : Wake Archive) : Type 0 where
  pub kept_up : IsKeptUp w.items w.events
  pub paid : (day : ℕ) → requests_of day w.calls ≤ allowance w.items w.events day

length-keep_append :
    (p : ItemEvent → Bool) (xs : List ItemEvent) (x : ItemEvent)
    → length (keep p (xs ++ x ∷ [])) ≡ length (keep p xs) + (if p x then 1 else 0)
length-keep_append p [] x = ground arith
length-keep_append p (y ∷ ys) x = let ih = length-keep_append p ys x in ground arith

captures_of-append :
    (es : List Event) (e : Event)
    → captures_of (es ++ e ∷ []) ≡ captures_of es + (if is_capture? (planner_event e) then 1 else 0)
captures_of-append es e =
    rw (map-append planner_event es e)
      (length-keep_append is_capture? (map planner_event es) (planner_event e))

count_append :
    (p : Call → Bool) (cs : List Call) (c : Call)
    → count p (cs ++ c ∷ []) ≡ count p cs + (if p c then 1 else 0)
count_append p [] c = ground arith
count_append p (x ∷ cs) c = let ih = count_append p cs c in ground arith

Extends-captures_of : {es es' : List Event} → Extends es es' → captures_of es ≤ captures_of es'
Extends-captures_of no_more = omega arith
Extends-captures_of (more {es' = es'} e h x) =
    let a = captures_of-append es' e in let b = Extends-captures_of x in omega arith

module _ {Archive : Type 0} where
  pub quiet-IsAccounted :
      (day : ℕ) (w w' : Wake Archive) → IsQuiet day w w' → IsAccounted w → IsAccounted w'
  quiet-IsAccounted day w w' q h = record {
    kept_up = quiet-IsKeptUp day w w' q h.kept_up;
    paid = λ d.
        let grows : captures_of (w.events d) ≤ captures_of (w'.events d) =
          elim (Bool-cases (d == day)) [
            | inl e ↦
                subst (λ x. captures_of (w.events x) ≤ captures_of (w'.events x))
                  (sym (date_eq d day e)) (Extends-captures_of q.extended)
            | inr e ↦ rw (q.elsewhere d e) (omega arith)
          ] in
        let p = h.paid d in rw (q.same_requests, q.same_items) (ground arith);
  }

  pub captured-IsAccounted :
      (now : ℕ) (i : Item) (w w' : Wake Archive) (event : Event) (call : Call)
      → IsCaptured now i.trading_date w w' event call
      → IsFresh now w i
      → IsAccounted w
      → IsAccounted w'
  captured-IsAccounted now i w w' event call c fresh h = record {
    kept_up = captured-IsKeptUp now i w w' event call c fresh h.kept_up;
    paid = λ d.
        let p = h.paid d in
        let more_calls = count_append (is_request_of d) (keep is_request w.calls) call in
        let own = c.of_day d in
        elim (Bool-cases (d == i.trading_date)) [
          | inl e ↦
              let q = date_eq d i.trading_date e in
              let here : any (is_dated d) w.items ≡ true =
                mem-any (is_dated d) fresh.0 (rw q (==_refl i.trading_date)) in
              let grown : captures_of (w.events d) + 1 ≤ captures_of (w'.events d) =
                subst (λ x. captures_of (w.events x) + 1 ≤ captures_of (w'.events x)) (sym q)
                  (let a = captures_of-append (w.events i.trading_date) event in
                    let b = Extends-captures_of c.extended in let k = c.captures in ground arith) in
              rw (c.one_request, c.same_items) (ground arith)
          | inr e ↦
              let same = c.elsewhere d e in rw (c.one_request, c.same_items, same) (ground arith)
        ];
  }

  -- Rows that keep every item and its events, and no other change
  pub grown-IsAccounted :
      (w : Wake Archive) (r : Rows)
      → IsKeptUp r.items r.events
      → All
          (λ (i : Item). Memᴰ i r.items × (r.events i.trading_date ≡ w.events i.trading_date))
          w.items
      → IsAccounted w
      → IsAccounted (record w { items = r.items; events = r.events })
  grown-IsAccounted w r k kept h = record {
    kept_up = k;
    paid = λ d.
        let p = h.paid d in
        elim (Bool-cases (any (is_dated d) w.items)) [
          | inr e ↦ let none_made : requests_of d w.calls ≤ 0 = rw e at p in omega arith
          | inl e ↦
              let (i, m, q) = any-true (is_dated d) w.items e in
              let (m', same) =
                All-mem
                  (λ (i : Item).
                    Memᴰ i r.items × (r.events i.trading_date ≡ w.events i.trading_date))
                  kept m in
              let here = mem-any (is_dated d) m' q in
              let day = date_eq i.trading_date d q in
              let same' : r.events d ≡ w.events d = subst (λ x. r.events x ≡ w.events x) day same in
              let p' : requests_of d w.calls ≤ captures_of (w.events d) = rw e at p in
              rw (here, same') p'
        ];
  }
