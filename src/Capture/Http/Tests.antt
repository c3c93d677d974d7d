-- ===== src/Capture/Http/Tests.antt =====
-- A request that fails, is rate-limited and is answered: the theorems about it.
use cse_analysis.Base.{
  ℕ, ◌≤◌, ◌≡◌, refl, true, none, some, [], ◌∷◌, arith, length, map, ◌==◌, if◌then◌else◌,
}
use cse_analysis.Capture.Http.{
  RequestPolicy, World, Around, Exchange, json_ok, Outcome, server_error, rate_limited, ok, fetch,
  fetch_from, next_verdict, attempt, verdict, classify, before, seed, wait_after, backoff, returned,
}
use cse_analysis.Capture.Http.Runs.{begin, fresh}
use cse_analysis.Capture.Http.Spacing.{Polite, fetch-Polite}
use cse_analysis.Capture.Http.Breaker.{StreaksWithin, fetch-StreaksWithin, fetch-InBudget}

abbrev policy : RequestPolicy
policy = record {
  min_interval = 1500;
  backoff_base = 5000;
  backoff_max = 120000;
  retry_after_max = 300000;
  max_consecutive_failures = 5;
}

abbrev answer : Exchange → Around
answer ex = record { lag = 1; exchange = ex; took = 200; pause = 10 }

abbrev world : World
world n = answer (
    if n == 0
    then record { status = some 503; error_kind = none; parse_status = none; retry_after = none }
    else if n == 1
    then record {
      status = some 429;
      error_kind = none;
      parse_status = none;
      retry_after = some 60000;
    }
    else record {
      status = some 200;
      error_kind = none;
      parse_status = some (json_ok true);
      retry_after = none;
    })

three_requests :
    map {B = ℕ × Outcome}
      (λ s. (s.started, s.outcome))
      (fetch policy (some 150) world 3 (fresh policy 100000 (some 400))).1.sent
    ≡ (166523, ok) ∷ (106312, rate_limited) ∷ (101101, server_error) ∷ []
unfolding fetch fetch_from next_verdict attempt verdict classify before seed wait_after backoff
three_requests = refl

it_returned : (fetch policy (some 150) world 3 (fresh policy 100000 (some 400))).0 ≡ returned true
unfolding fetch fetch_from next_verdict attempt verdict classify before seed wait_after backoff
it_returned = refl

fetch-Polite_example :
    Polite policy (fetch policy (some 150) world 3 (fresh policy 100000 (some 400))).1.sent
fetch-Polite_example = fetch-Polite policy (some 150) world 3 (begin 100000 (some 400))

fetch-StreaksWithin_example :
    StreaksWithin 5 (fetch policy (some 150) world 3 (fresh policy 100000 (some 400))).1.sent
fetch-StreaksWithin_example =
    fetch-StreaksWithin policy (some 150) world 3 (omega arith) (begin 100000 (some 400))

fetch-InBudget_example :
    length (fetch policy (some 150) world 3 (fresh policy 100000 (some 400))).1.sent ≤ 150
fetch-InBudget_example = fetch-InBudget policy 150 world 3 (begin 100000 (some 400))
