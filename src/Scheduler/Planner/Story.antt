-- ===== src/Scheduler/Planner/Story.antt =====
-- The history of an item over wake-ups: at each, other events may be appended, and where `decide`
-- asks for a capture the wake-up appends the `running` event of it (`_capture_one`, wakeup.py).
use mathlib.Core.Option
use cse_analysis.Base.{
  ℕ, suc, ◌+◌, ◌≤◌, ◌<◌, ◌≡◌, refl, ap, Bool, true, false, Option, some, List, [], ◌∷◌, ◌++◌, arith,
  keep, last?, length, All, keep-append_true, keep-append_false,
}
use cse_analysis.Scheduler.Schedule.{Snapshot, next_attempt_at}
use cse_analysis.Scheduler.Planner.{
  Item, ItemEvent, Evidence, MarketStatus, decide, capture, is_capture?, capture_attempts,
  attempt_limit,
}
use cse_analysis.Scheduler.Planner.Decisions.{decide-capture_iff, not_before}

-- The events in the order in which they were appended.
pub data Story (item : Item) : List ItemEvent → Type 0 where
  new_item : Story item []
  note :
      {es : List ItemEvent} (e : ItemEvent)
      → is_capture? e ≡ false
      → Story item es
      → Story item (es ++ e ∷ [])
  wake :
      {es : List ItemEvent} (ev : Evidence) (now : ℕ) (calendar : Option MarketStatus)
      (gate_blocked : Bool) (e : ItemEvent)
      → (decide item ev now es calendar gate_blocked false).kind ≡ capture
      → is_capture? e ≡ true
      → e.scheduler_time ≡ now
      → Story item es
      → Story item (es ++ e ∷ [])

-- Each capture waited for the back-off after the one before it; `n` counts the captures so far.
abbrev pub IsSpaced : Snapshot → ℕ → List ItemEvent → Type 0
IsSpaced s n [] = Unit {0}
IsSpaced s n (a ∷ []) = Unit {0}
IsSpaced s n (a ∷ b ∷ es) =
    (next_attempt_at s n a.scheduler_time ≤ b.scheduler_time) × IsSpaced s (suc n) (b ∷ es)

IsSpaced-append :
    (s : Snapshot) (n k : ℕ) (xs : List ItemEvent) (b : ItemEvent)
    → suc k ≡ n + length xs
    → ((l : ItemEvent)
        → last? xs ≡ some l
        → next_attempt_at s k l.scheduler_time ≤ b.scheduler_time)
    → IsSpaced s n xs
    → IsSpaced s n (xs ++ b ∷ [])
IsSpaced-append s n k [] b e w h = tt
IsSpaced-append s n k (a ∷ []) b e w h = let q : n ≡ k = omega arith in (rw q (w a refl), tt)
IsSpaced-append s n k (a ∷ c ∷ xs) b e w h =
    (h.0, IsSpaced-append s (suc n) k (c ∷ xs) b (omega arith) w h.1)

All-append :
    (P : ItemEvent → Type 0) (xs : List ItemEvent) (b : ItemEvent)
    → All P xs
    → P b
    → All P (xs ++ b ∷ [])
All-append P [] b h p = (p, tt)
All-append P (x ∷ xs) b h p = (h.0, All-append P xs b h.1 p)

length-append : (xs : List ItemEvent) (b : ItemEvent) → length (xs ++ b ∷ []) ≡ suc (length xs)
length-append [] b = refl
length-append (x ∷ xs) b = ap suc (length-append xs b)

module _ (item : Item) where
  abbrev pub IsInWindow : ItemEvent → Type 0
  IsInWindow e = (item.due_at ≤ e.scheduler_time) × (e.scheduler_time < item.window_closes_at)

  abbrev IsKept : List ItemEvent → Type 0
  IsKept starts =
      (length starts ≤ item.schedule.max_attempts)
      × IsSpaced item.schedule 1 starts
      × All IsInWindow starts

  IsKept-append :
      (starts : List ItemEvent) (e : ItemEvent)
      → IsKept starts
      → length starts < item.schedule.max_attempts
      → ((l : ItemEvent)
          → last? starts ≡ some l
          → next_attempt_at item.schedule (length starts) l.scheduler_time ≤ e.scheduler_time)
      → IsInWindow e
      → IsKept (starts ++ e ∷ [])
  IsKept-append starts e (few, spaced, within) more waited inside = (
    omega (arith, length-append starts e),
    IsSpaced-append item.schedule 1 (length starts) starts e (omega arith) waited spaced,
    All-append IsInWindow starts e within inside,
  )

  waited_for :
      (es : List ItemEvent) (now : ℕ)
      → not_before item.schedule false (capture_attempts es) ≤ now
      → (l : ItemEvent) → last? (keep is_capture? es) ≡ some l
      → next_attempt_at item.schedule (length (keep is_capture? es)) l.scheduler_time ≤ now
  unfolding capture_attempts
  waited_for es now h l e =
      rw
        (ap
          (λ o.
            not_before item.schedule false
              (length (keep is_capture? es), Option.map (λ (x : ItemEvent). x.scheduler_time) o))
          e)
        at h

  attempts_left :
      (es : List ItemEvent)
      → (capture_attempts es).0 < attempt_limit item.schedule false
      → length (keep is_capture? es) < item.schedule.max_attempts
  unfolding capture_attempts
  attempts_left es h = h

  Story-IsKept : {es : List ItemEvent} → Story item es → IsKept (keep is_capture? es)
  Story-IsKept new_item = (omega arith, tt, tt)
  Story-IsKept (note {es = es} e other s) =
      rw (keep-append_false is_capture? es e other) (Story-IsKept s)
  Story-IsKept (wake {es = es} ev now calendar gate e dec yes_event at s) =
      let may = (decide-capture_iff item ev now es calendar gate false).0 dec in
      let starts = keep is_capture? es in
      rw (keep-append_true is_capture? es e yes_event) (
        IsKept-append starts e (Story-IsKept s) (attempts_left es may.attempts_left)
          (λ l q. rw at (waited_for es now may.backed_off l q))
          (rw at (may.is_due), rw at (may.still_open)))

  -- Over any sequence of wake-ups the scheduler makes at most the scheduled number of captures of an
  -- item, each at least the back-off after the one before it, and all of them from the due time on
  -- and before the window closes.
  pub captures_bounded :
      {es : List ItemEvent}
      → Story item es
      → let starts = keep is_capture? es in
        (length starts ≤ item.schedule.max_attempts)
        × IsSpaced item.schedule 1 starts
        × All IsInWindow starts
  captures_bounded s = Story-IsKept s
