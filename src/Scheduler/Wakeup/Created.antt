-- ===== src/Scheduler/Wakeup/Created.antt =====
-- `_discover` creates exactly the items that are missing, one for each date.
use mathlib.Core.List.{Memᴰ}
use cse_analysis.Base.{
  ℕ, ◌+◌, ◌≤◌, ◌<◌, ◌≡◌, refl, sym, subst, ◌∙◌, Bool, true, false, not, ◌&&◌, ◌⊎◌, Option, none,
  some, List, [], ◌∷◌, map, arith, All, All-mem, mem-All, any, mem-any, any-true, keep, mem-keep,
  ltb, ◌==◌, Bool-cases, inl, inr, mem-uncons,
}
use cse_analysis.Scheduler.Schedule.{ScheduleSettings, Snapshot, schedule_snapshot, weekday}
use cse_analysis.Scheduler.Schedule.Dates.{candidate_dates-mem}
use cse_analysis.Scheduler.Planner.{Item}
use cse_analysis.Scheduler.Planner.Story.{Story, new_item, note}
use cse_analysis.Scheduler.Wakeup.{
  with_created, Event, planner_event, Rows, is_dated, insert_item, create_item, create_all,
  scheduled_item, missing_dates, discover, is_date,
}
use cse_analysis.Scheduler.Wakeup.Quiet.{==_refl}

-- One item for each date, in the order of the dates
abbrev pub IsOrdered : List Item → Type 0
IsOrdered [] = Unit {0}
IsOrdered (x ∷ xs) = All (λ (y : Item). x.trading_date < y.trading_date) xs × IsOrdered xs

-- The events of an item's date make a history that wake-ups may write.
abbrev pub IsTold : (ℕ → List Event) → Item → Type 0
IsTold events i = Story i (map planner_event (events i.trading_date))

-- Items in order, each with its history
pub record IsKeptUp (items : List Item) (events : ℕ → List Event) : Type 0 where
  pub ordered : IsOrdered items
  pub told : All (IsTold events) items

module _ (i : Item) where
  insert_item-All {κ} :
      (P : Item → Type κ) (xs : List Item) → P i → All P xs → All P (insert_item i xs)
  unfolding insert_item
  insert_item-All P [] p h = (p, tt)
  insert_item-All P (x ∷ xs) p h = elim (Bool-cases (ltb i.trading_date x.trading_date)) [
    | inl e ↦ rw e (p, h)
    | inr e ↦ rw e (h.0, insert_item-All P xs p h.1)
  ]

  insert_item-IsOrdered :
      (xs : List Item)
      → any (is_dated i.trading_date) xs ≡ false
      → IsOrdered xs
      → IsOrdered (insert_item i xs)
  unfolding insert_item
  insert_item-IsOrdered [] n h = (tt, tt)
  insert_item-IsOrdered (x ∷ xs) n h = elim (Bool-cases (ltb i.trading_date x.trading_date)) [
    | inl e ↦
        let lt : i.trading_date < x.trading_date = ground arith in
        rw e (
          (
            lt,
            mem-All (λ (y : Item). i.trading_date < y.trading_date) xs
                (λ y m.
                  let q = All-mem (λ (y : Item). x.trading_date < y.trading_date) h.0 m in
                  omega arith),
          ),
          h,
        )
    | inr e ↦
        let gt : x.trading_date < i.trading_date = ground arith in
        let n' : any (is_dated i.trading_date) xs ≡ false = ground arith in
        rw e (
          insert_item-All (λ (y : Item). x.trading_date < y.trading_date) xs gt h.0,
          insert_item-IsOrdered xs n' h.1,
        )
  ]

  insert_item-mem : (xs : List Item) → Memᴰ i (insert_item i xs)
  unfolding insert_item
  insert_item-mem [] = Memᴰ.head refl
  insert_item-mem (x ∷ xs) = elim (Bool-cases (ltb i.trading_date x.trading_date)) [
    | inl e ↦ rw e (Memᴰ.head refl)
    | inr e ↦ rw e (Memᴰ.tail (insert_item-mem xs))
  ]

  mem-insert_item : {x : Item} (xs : List Item) → Memᴰ x xs → Memᴰ x (insert_item i xs)
  unfolding insert_item
  mem-insert_item [] m = elim m [ ]
  mem-insert_item {x} (y ∷ xs) m = elim (Bool-cases (ltb i.trading_date y.trading_date)) [
    | inl e ↦ rw e (Memᴰ.tail m)
    | inr e ↦
        rw e
          (elim (mem-uncons m) [ inl q ↦ Memᴰ.head q | inr t ↦ Memᴰ.tail (mem-insert_item xs t) ])
  ]

-- The rows that a creation leaves: they keep every item and its events.
record Grows (r r' : Rows) : Type 0 where
  kept_items : {i : Item} → Memᴰ i r.items → Memᴰ i r'.items
  kept_events : (d : ℕ) → any (is_dated d) r.items ≡ true → r'.events d ≡ r.events d
  kept_up : IsKeptUp r.items r.events → IsKeptUp r'.items r'.events

Grows-trans : (a b c : Rows) → Grows a b → Grows b c → Grows a c
Grows-trans a b c ab bc = record {
  kept_items = λ m. bc.kept_items (ab.kept_items m);
  kept_events = λ d h.
      (let (i, m, e) = any-true (is_dated d) a.items h in
        bc.kept_events d (mem-any (is_dated d) (ab.kept_items m) e))
      ∙ ab.kept_events d h;
  kept_up = λ k. bc.kept_up (ab.kept_up k);
}

other_date :
    (a b : ℕ) (is : List Item)
    → any (is_dated a) is ≡ true
    → any (is_dated b) is ≡ false
    → (a == b) ≡ false
other_date a b is h k = elim (Bool-cases (a == b)) [
  | inl e ↦
      let q : a ≡ b = ground arith in
      let h' : any (is_dated b) is ≡ true = subst (λ c. any (is_dated c) is ≡ true) q h in cc
  | inr e ↦ e
]

own_date : (i : Item) → is_dated i.trading_date i ≡ true
own_date i = ==_refl i.trading_date

IsTold-created :
    (now : ℕ) (i : Item) (events : ℕ → List Event)
    → IsTold (with_created now i.trading_date events) i
IsTold-created now i events = rw (==_refl i.trading_date) (note _ refl new_item)

IsTold-kept :
    (now : ℕ) (i j : Item) (is : List Item) (events : ℕ → List Event)
    → any (is_dated i.trading_date) is ≡ false
    → Memᴰ j is
    → IsTold events j
    → IsTold (with_created now i.trading_date events) j
IsTold-kept now i j is events n m t =
    rw
      (other_date j.trading_date i.trading_date is
        (mem-any (is_dated j.trading_date) m (own_date j)) n)
      t

create_item-Grows : (now : ℕ) (i : Item) (r : Rows) → Grows r (create_item now i r)
unfolding create_item
create_item-Grows now i r = elim (Bool-cases (any (is_dated i.trading_date) r.items)) [
  | inl e ↦ rw e (record { kept_items = λ m. m; kept_events = λ d h. refl; kept_up = λ k. k })
  | inr e ↦ rw e (record {
    kept_items = λ m. mem-insert_item i r.items m;
    kept_events = λ d h. rw (other_date d i.trading_date r.items h e) refl;
    kept_up = λ k. record {
      ordered = insert_item-IsOrdered i r.items e k.ordered;
      told =
          insert_item-All i (IsTold (with_created now i.trading_date r.events)) r.items
            (IsTold-created now i r.events)
            (mem-All (IsTold (with_created now i.trading_date r.events)) r.items (λ j m.
              IsTold-kept now i j r.items r.events e m (All-mem (IsTold r.events) k.told m)));
    };
  })
]

create_item-dated :
    (now : ℕ) (i : Item) (r : Rows)
    → any (is_dated i.trading_date) (create_item now i r).items ≡ true
unfolding create_item
create_item-dated now i r = elim (Bool-cases (any (is_dated i.trading_date) r.items)) [
  | inl e ↦ rw (e, e) refl
  | inr e ↦ rw e (mem-any (is_dated i.trading_date) (insert_item-mem i r.items) (own_date i))
]

module _ (s : Snapshot) (now : ℕ) where
  create_all-Grows : (ds : List ℕ) (r : Rows) → Grows r (create_all s now ds r)
  unfolding create_all
  create_all-Grows [] r = record {
    kept_items = λ m. m;
    kept_events = λ d h. refl;
    kept_up = λ k. k;
  }
  create_all-Grows (d ∷ ds) r =
      Grows-trans r _ _ (create_item-Grows now (scheduled_item s d) r) (create_all-Grows ds _)

  still_dated :
      (d : ℕ) (ds : List ℕ) (r : Rows)
      → any (is_dated d) r.items ≡ true
      → any (is_dated d) (create_all s now ds r).items ≡ true
  still_dated d ds r h =
      let (i, m, e) = any-true (is_dated d) r.items h in
      mem-any (is_dated d) ((create_all-Grows ds r).kept_items m) e

  create_all-dated :
      {d : ℕ} (ds : List ℕ) (r : Rows)
      → Memᴰ d ds
      → any (is_dated d) (create_all s now ds r).items ≡ true
  unfolding create_all scheduled_item
  create_all-dated [] r m = elim m [ ]
  create_all-dated {d} (x ∷ ds) r m = elim (mem-uncons m) [
    | inl q ↦ still_dated d ds _ (
        subst (λ y. any (is_dated y) (create_item now (scheduled_item s x) r).items ≡ true) (sym q)
          (create_item-dated now (scheduled_item s x) r))
    | inr t ↦ create_all-dated ds _ t
  ]

some-eq {ℓ} : {A : Type ℓ} {a b : A} → some a ≡ some b → a ≡ b
some-eq h = cc

keep-none {ℓ} :
    {A : Type ℓ} (p : A → Bool) (xs : List A) → ((x : A) → Memᴰ x xs → p x ≡ false) → keep p xs ≡ []
keep-none p [] h = refl
keep-none p (x ∷ xs) h = rw (h x (Memᴰ.head refl)) (keep-none p xs (λ y m. h y (Memᴰ.tail m)))

module _ (s : ScheduleSettings) (first today : ℕ) (confirm : Option ℕ) (now : ℕ) where
  discover-cases :
      (r r' : Rows)
      → discover s first today confirm now r ≡ some r'
      → ((ltb today first ≡ true) × (r' ≡ r))
        ⊎ (r' ≡ create_all (schedule_snapshot s) now (missing_dates first today r.items) r)
  unfolding discover
  discover-cases r r' h = elim (Bool-cases (ltb today first)) [
    | inl e ↦ inl (e, sym (some-eq (rw e at h)))
    | inr e ↦
        elim (Bool-cases (
          any (λ d. ltb (d + s.max_catch_up_days) today) (missing_dates first today r.items)
          && not (is_date confirm today))) [
            | inl g ↦ let h' : none ≡ some r' = rw (e, g) at h in cc
            | inr g ↦ inr (sym (some-eq (rw (e, g) at h)))
          ]
  ]

  -- `_discover` loses nothing: every item and its events are kept, there is still one item for each
  -- date, in order, and each item's events are still a history that wake-ups may write.
  pub discover-keeps :
      (r r' : Rows)
      → discover s first today confirm now r ≡ some r'
      → IsKeptUp r.items r.events
      → IsKeptUp r'.items r'.events
        × All
            (λ (i : Item). Memᴰ i r'.items × (r'.events i.trading_date ≡ r.events i.trading_date))
            r.items
  discover-keeps r r' h k = elim (discover-cases r r' h) [
    | inl (e, q) ↦
        subst
          (λ (x : Rows).
            IsKeptUp x.items x.events
            × All
                (λ (i : Item). Memᴰ i x.items × (x.events i.trading_date ≡ r.events i.trading_date))
                r.items)
          (sym q) (k, mem-All _ r.items (λ i m. (m, refl)))
    | inr q ↦
        let g = create_all-Grows (schedule_snapshot s) now (missing_dates first today r.items) r in
        subst
          (λ (x : Rows).
            IsKeptUp x.items x.events
            × All
                (λ (i : Item). Memᴰ i x.items × (x.events i.trading_date ≡ r.events i.trading_date))
                r.items)
          (sym q)
          (
            g.kept_up k,
            mem-All _ r.items (λ i m. (
              g.kept_items m,
              g.kept_events i.trading_date (mem-any (is_dated i.trading_date) m (own_date i)),
            )),
          )
  ]

  -- Unless `_discover` refuses, every weekday from the armed start date to today has an item after it.
  pub discover_complete :
      (r r' : Rows) (d : ℕ)
      → discover s first today confirm now r ≡ some r'
      → first ≤ d
      → d ≤ today
      → weekday d < 5
      → any (is_dated d) r'.items ≡ true
  unfolding missing_dates
  discover_complete r r' d h a b c = elim (discover-cases r r' h) [
    | inl (e, q) ↦ absurd (ground arith)
    | inr q ↦
        subst (λ (x : Rows). any (is_dated d) x.items ≡ true) (sym q)
          (elim (Bool-cases (any (is_dated d) r.items)) [
            | inl e ↦
                still_dated (schedule_snapshot s) now d (missing_dates first today r.items) r e
            | inr e ↦
                create_all-dated (schedule_snapshot s) now (missing_dates first today r.items) r (
                  mem-keep (λ x. not (any (is_dated x) r.items))
                    ((candidate_dates-mem first today d).1 (a, b, c)) (rw e refl))
          ])
  ]

  -- A second `_discover` - by a repeated timer or after a restart - creates nothing.
  pub discover-idempotent :
      (r r' : Rows)
      → discover s first today confirm now r ≡ some r'
      → discover s first today confirm now r' ≡ some r'
  unfolding discover missing_dates create_all
  discover-idempotent r r' h = elim (Bool-cases (ltb today first)) [
    | inl e ↦ rw e refl
    | inr e ↦
        let none_missing : missing_dates first today r'.items ≡ [] = keep-none _ _ (λ d m.
          let c = (candidate_dates-mem first today d).0 m in
          rw (discover_complete r r' d h c.0 c.1 c.2) refl) in
        rw (e, none_missing) refl
  ]
