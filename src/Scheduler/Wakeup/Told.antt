-- ===== src/Scheduler/Wakeup/Told.antt =====
-- Wake-ups write only histories that the planner's decisions allow.
use mathlib.Core.List.{Memᴰ}
use cse_analysis.Base.{
  ℕ, ◌<◌, ◌≡◌, refl, sym, subst, ◌∙◌, ap, Bool, true, false, Option, List, [], ◌∷◌, ◌++◌, map,
  arith, All, All-mem, mem-All, keep, keep-mem, ◌==◌, Bool-cases, inl, inr, mem-uncons,
}
use cse_analysis.Scheduler.Planner.{Item, Evidence, MarketStatus, DecisionKind, decide}
use cse_analysis.Scheduler.Planner.Story.{Story, note, wake}
use cse_analysis.Scheduler.Wakeup.{Call, Wake, Event, planner_event}
use cse_analysis.Scheduler.Wakeup.Quiet.{Extends, no_more, more, IsQuiet}
use cse_analysis.Scheduler.Wakeup.Captures.{IsCaptured}
use cse_analysis.Scheduler.Wakeup.Created.{IsOrdered, IsTold, IsKeptUp}

pub map-append {ℓ κ} :
    {A : Type ℓ} {B : Type κ} (f : A → B) (xs : List A) (x : A)
    → map f (xs ++ x ∷ []) ≡ map f xs ++ f x ∷ []
map-append f [] x = refl
map-append f (y ∷ ys) x = ap (λ zs. f y ∷ zs) (map-append f ys x)

Extends-Story :
    (i : Item) {es es' : List Event}
    → Extends es es'
    → Story i (map planner_event es)
    → Story i (map planner_event es')
Extends-Story i no_more s = s
Extends-Story i (more {es' = es'} e h x) s =
    rw (map-append planner_event es' e) (note (planner_event e) h (Extends-Story i x s))

-- Of items in order, two of one date are the same.
ordered_unique :
    (is : List Item) (a b : Item)
    → IsOrdered is
    → Memᴰ a is
    → Memᴰ b is
    → a.trading_date ≡ b.trading_date
    → a ≡ b
ordered_unique [] a b o ma mb q = elim ma [ ]
ordered_unique (x ∷ is) a b o ma mb q = elim (mem-uncons ma) [
  | inl ea ↦ elim (mem-uncons mb) [
    | inl eb ↦ ea ∙ sym eb
    | inr tb ↦
        let lt = All-mem (λ (y : Item). x.trading_date < y.trading_date) o.0 tb in
        let qa = ap (λ (y : Item). y.trading_date) ea in absurd (omega arith)
  ]
  | inr ta ↦ elim (mem-uncons mb) [
    | inl eb ↦
        let lt = All-mem (λ (y : Item). x.trading_date < y.trading_date) o.0 ta in
        let qb = ap (λ (y : Item). y.trading_date) eb in absurd (omega arith)
    | inr tb ↦ ordered_unique is a b o.1 ta tb q
  ]
]

pub keep-IsOrdered : (p : Item → Bool) (is : List Item) → IsOrdered is → IsOrdered (keep p is)
keep-IsOrdered p [] o = tt
keep-IsOrdered p (x ∷ is) o = elim (Bool-cases (p x)) [
  | inl e ↦ rw e (
    mem-All (λ (y : Item). x.trading_date < y.trading_date) (keep p is)
        (λ y m. All-mem (λ (y : Item). x.trading_date < y.trading_date) o.0 (keep-mem p is m).0),
    keep-IsOrdered p is o.1,
  )
  | inr e ↦ rw e (keep-IsOrdered p is o.1)
]

pub date_eq : (a b : ℕ) → (a == b) ≡ true → a ≡ b
date_eq a b h = ground arith

module _ {Archive : Type 0} where
  pub quiet-IsKeptUp :
      (day : ℕ) (w w' : Wake Archive)
      → IsQuiet day w w'
      → IsKeptUp w.items w.events
      → IsKeptUp w'.items w'.events
  quiet-IsKeptUp day w w' q k = record {
    ordered = subst IsOrdered (sym q.same_items) k.ordered;
    told =
        subst (λ is. All (IsTold w'.events) is) (sym q.same_items)
          (mem-All (IsTold w'.events) w.items (λ j m.
            let t = All-mem (IsTold w.events) k.told m in
            elim (Bool-cases (j.trading_date == day)) [
              | inl e ↦
                  Extends-Story j
                    (subst (λ d. Extends (w.events d) (w'.events d))
                      (sym (date_eq j.trading_date day e)) q.extended)
                    t
              | inr e ↦
                  subst (λ es. Story j (map planner_event es)) (sym (q.elsewhere j.trading_date e))
                    t
            ]));
  }

  -- The planner would capture the item now, by the events that it has.
  abbrev pub IsFresh : ℕ → Wake Archive → Item → Type 0
  IsFresh now w i =
      Memᴰ i w.items
      × (ev : Evidence) × (calendar : Option MarketStatus) × (blocks : Bool) × ((decide i ev now
            (map planner_event (w.events i.trading_date)) calendar blocks false).kind
          ≡ DecisionKind.capture)

  pub captured-IsKeptUp :
      (now : ℕ) (i : Item) (w w' : Wake Archive) (event : Event) (call : Call)
      → IsCaptured now i.trading_date w w' event call
      → IsFresh now w i
      → IsKeptUp w.items w.events
      → IsKeptUp w'.items w'.events
  captured-IsKeptUp now i w w' event call c (mi, ev, calendar, blocks, d) k =
      let mine = Extends-Story i c.extended (
        rw (map-append planner_event (w.events i.trading_date) event) (
          wake ev now calendar blocks (planner_event event) d c.captures c.at_now
            (All-mem (IsTold w.events) k.told mi))) in
      record {
        ordered = subst IsOrdered (sym c.same_items) k.ordered;
        told =
            subst (λ is. All (IsTold w'.events) is) (sym c.same_items)
              (mem-All (IsTold w'.events) w.items (λ j m.
                elim (Bool-cases (j.trading_date == i.trading_date)) [
                  | inl e ↦
                      subst (λ x. IsTold w'.events x)
                        (sym (
                          ordered_unique w.items j i k.ordered m mi
                            (date_eq j.trading_date i.trading_date e)))
                        mine
                  | inr e ↦
                      subst (λ es. Story j (map planner_event es))
                        (sym (c.elsewhere j.trading_date e)) (All-mem (IsTold w.events) k.told m)
                ]));
      }
