-- ===== src/Transport/Throttle/Tests.antt =====
-- A slice's throttle: the theorem about it.
use cse_analysis.Base.{ℕ, ◌+◌, ◌≤◌, ◌≡◌, refl, inl, some, List, [], ◌∷◌, arith, All}
use cse_analysis.Capture.Http.{RequestPolicy, seed, before}
use cse_analysis.Transport.Throttle.{
  Request, Use, Usage, unused, requests_of, pass, holds, request, uses, seeded, seed_seconds,
  release_guard, hold, before_request, after_request,
}
use cse_analysis.Transport.Throttle.Apart.{IsApart, slice-IsApart}

abbrev policy : RequestPolicy
policy = record {
  min_interval = 1500;
  backoff_base = 2000;
  backoff_max = 60000;
  retry_after_max = 300000;
  max_consecutive_failures = 5;
}

-- A request, a Retry-After of five seconds, and another request
abbrev both : List Use
both = request 0 200 ∷ holds 5000 ∷ pass 100 ∷ request 10 200 ∷ []

abbrev slice : Usage
slice = uses policy both (unused (seeded policy 100000 (seed_seconds (some 500) (some 900))))

second_waits :
    slice.sent
    ≡ (106200, record { started = 106210; ended = 106410 })
      ∷ (0, record { started = 101000; ended = 101200 })
      ∷ []
unfolding seeded seed_seconds seed before hold before_request after_request
second_waits = refl

slice-IsApart_example :
    IsApart policy (requests_of slice.sent)
    × All (λ (x : ℕ × Request). x.0 ≤ x.1.started) slice.sent
    × All (λ (x : ℕ × Request). 99500 + 1500 ≤ x.1.started) slice.sent
    × All
        (λ (r : Request). r.ended + 1500 ≤ (release_guard policy slice.throttle).now)
        (requests_of slice.sent)
slice-IsApart_example =
    slice-IsApart policy both 100000 500 (some 500) (some 900) (inl refl) (omega arith)
