-- ===== src/Scheduler/Schedule/Dates.antt =====
-- Colombo days as intervals of UTC time, and the trading days among the dates.
use cse_analysis.Base.{
  ℕ, zero, suc, ◌+◌, ◌-◌, ◌≤◌, ◌<◌, ◌≡◌, refl, ◌↔◌, some, List, [], ◌∷◌, arith, Bool-cases, inl,
  inr, lt→ltb, mem-uncons,
}
use mathlib.Core.List.{Memᴰ}
use native.Mathlib.Decide.{ℕ_discrete}
use cse_analysis.Scheduler.Schedule.{
  aware, day_us, colombo_date, colombo_moment, colombo_day_bounds, Snapshot, due_at,
  window_closes_at, weekday, candidates_from, candidate_dates, is_candidate_trading_day,
}

-- The Colombo date of a day's local time is that day.
pub colombo_date-moment :
    (day local : ℕ)
    → 1 ≤ day
    → local < day_us
    → colombo_date (aware (colombo_moment day local)) ≡ some day
unfolding colombo_date colombo_moment
colombo_date-moment day local h l = ground arith

-- A moment has a Colombo date exactly when it lies within that day's bounds, the start included and
-- the end excluded.
pub colombo_date-bounds :
    (day t : ℕ)
    → 1 ≤ day
    → (colombo_date (aware t) ≡ some day)
      ↔ (((colombo_day_bounds day).0 ≤ t) × (t < (colombo_day_bounds day).1))
unfolding colombo_date colombo_day_bounds
colombo_date-bounds day t h = (λ e. ground arith, λ b. ground arith)

-- In a capture window that opens and closes within one day, every moment from the due time to the
-- close carries the item's own trading date: a late capture is never relabelled.
pub window-colombo_date :
    (day t : ℕ) (s : Snapshot)
    → 1 ≤ day
    → s.window_close_local < day_us
    → due_at day s ≤ t
    → t < window_closes_at day s
    → colombo_date (aware t) ≡ some day
unfolding colombo_date due_at window_closes_at
window-colombo_date day t s h w a b = ground arith

-- Strictly ascending from a bound.
abbrev pub IsAscending : ℕ → List ℕ → Type 0
IsAscending lo [] = Unit {0}
IsAscending lo (x ∷ xs) = (lo ≤ x) × IsAscending (x + 1) xs

IsAscending-weaken : (lo hi : ℕ) (xs : List ℕ) → lo ≤ hi → IsAscending hi xs → IsAscending lo xs
IsAscending-weaken lo hi [] h a = tt
IsAscending-weaken lo hi (x ∷ xs) h a = (omega arith, a.1)

candidates_from-mem :
    (n d x : ℕ) → Memᴰ x (candidates_from n d) → (d ≤ x) × (x < d + n) × (weekday x < 5)
unfolding candidates_from
candidates_from-mem zero d x m = elim m [ ]
candidates_from-mem (suc n) d x m = elim (Bool-cases (is_candidate_trading_day d)) [
  | inl e ↦ elim (mem-uncons (rw e at m)) [
    | inl q ↦ ground arith
    | inr m' ↦ let r = candidates_from-mem n (d + 1) x m' in (omega arith, omega arith, r.2)
  ]
  | inr e ↦ let r = candidates_from-mem n (d + 1) x (rw e at m) in (omega arith, omega arith, r.2)
]

mem-candidates_from : (n d x : ℕ) → d ≤ x → x < d + n → weekday x < 5 → Memᴰ x (candidates_from n d)
unfolding candidates_from
mem-candidates_from zero d x a b w = absurd (omega arith)
mem-candidates_from (suc n) d x a b w = elim (ℕ_discrete x d) [
  | yes e ↦ rw (← e, lt→ltb _ _ w) (Memᴰ.head refl)
  | no ne ↦
      let rest = mem-candidates_from n (d + 1) x (omega arith) (omega arith) w in
      elim (Bool-cases (is_candidate_trading_day d)) [
        | inl e ↦ rw e (Memᴰ.tail rest)
        | inr e ↦ rw e rest
      ]
]

candidates_from-IsAscending : (n d : ℕ) → IsAscending d (candidates_from n d)
unfolding candidates_from
candidates_from-IsAscending zero d = tt
candidates_from-IsAscending (suc n) d = elim (Bool-cases (is_candidate_trading_day d)) [
  | inl e ↦ rw e (omega arith, candidates_from-IsAscending n (d + 1))
  | inr e ↦
      rw e (IsAscending-weaken d (d + 1) _ (omega arith) (candidates_from-IsAscending n (d + 1)))
]

-- The candidate dates are exactly the weekdays from the first date to the last, both included.
pub candidate_dates-mem :
    (first last x : ℕ)
    → Memᴰ x (candidate_dates first last) ↔ ((first ≤ x) × (x ≤ last) × (weekday x < 5))
unfolding candidate_dates
candidate_dates-mem first last x = (
  λ m. let r = candidates_from-mem (last + 1 - first) first x m in (r.0, omega arith, r.2),
  λ r. mem-candidates_from (last + 1 - first) first x r.0 (omega arith) r.2,
)

-- The candidate dates are in strictly ascending order, none of them before the first date.
pub candidate_dates-IsAscending : (first last : ℕ) → IsAscending first (candidate_dates first last)
unfolding candidate_dates
candidate_dates-IsAscending first last = candidates_from-IsAscending (last + 1 - first) first
