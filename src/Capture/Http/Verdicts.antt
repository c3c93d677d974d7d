-- ===== src/Capture/Http/Verdicts.antt =====
-- What a verdict says of the outcome that it was reached on.
use cse_analysis.Base.{ℕ, ◌≤◌, ◌<◌, ◌≡◌, Bool, true, false, Option, some, arith, ◌⊎◌}
use cse_analysis.Capture.Http.{
  RequestPolicy, Outcome, rate_limited, done, retry, verdict, is_ok, is_blocked, wait_after,
}

-- The delay that the exchange asked for, of an outcome that asks for one.
abbrev pub asked_for : Outcome → Option ℕ → ℕ
asked_for rate_limited (some w) = w
asked_for _ _ = 0

pub verdict-done :
    (p : RequestPolicy) (o : Outcome) (w : Option ℕ) (f i : ℕ) (last b : Bool)
    → verdict p o w f i last ≡ done b
    → (is_blocked o ≡ false)
      × (asked_for o w ≡ 0)
      × ((is_ok o ≡ true) ⊎ (f < p.max_consecutive_failures))
unfolding verdict
verdict-done p o w f i last b h = ground arith

pub verdict-retry :
    (p : RequestPolicy) (o : Outcome) (w : Option ℕ) (f i : ℕ) (last : Bool) (d : ℕ)
    → verdict p o w f i last ≡ retry d
    → (is_blocked o ≡ false) × (asked_for o w ≤ d) × (f < p.max_consecutive_failures)
unfolding verdict wait_after
verdict-retry p o w f i last d h = ground arith
