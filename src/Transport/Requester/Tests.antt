-- ===== src/Transport/Requester/Tests.antt =====
-- The requester: its theorems at concrete attempts.
use cse_analysis.Base.{ℕ, ◌≡◌, refl, true, false, Option, none, some, [], ◌==◌, if◌then◌else◌}
use cse_analysis.Capture.Http as P2
use cse_analysis.Capture.Http.{
  Exchange, RequestPolicy, json_ok, verdict, classify, classify_status, classify_body, seed, before,
  backoff, wait_after,
}
use cse_analysis.Transport.Classify.{classify_json, json_status, json_body, is_ok}
use cse_analysis.Transport.Throttle.{seeded, before_request, after_request}
use cse_analysis.Transport.Requester.{
  Slice, Around, ends, succeeded, retries, attempt, request, request_from, intended, notes, unsent,
  sends, records, decide_attempt, refused_by_source, conclude_attempt, recorded_outcome,
  recorded_class, wait_before_retry,
}
use cse_analysis.Transport.Requester.Parity.{of_verdict, attempt-verdict}
use cse_analysis.Transport.Requester.Recorded.{IsSound, request-IsSound, attempt-durable}

abbrev policy : RequestPolicy
policy = record {
  min_interval = 1500;
  backoff_base = 2000;
  backoff_max = 60000;
  retry_after_max = 300000;
  max_consecutive_failures = 5;
}

abbrev answer : Option ℕ → Option ℕ → Around
answer status wanted = record {
  admitted = true;
  intent_committed = true;
  journaled = true;
  lag = 0;
  exchange = record {
    status = status;
    error_kind = none;
    parse_status = some (json_ok true);
    retry_after = wanted;
  };
  took = 300;
  spooled = true;
  committed = true;
}

abbrev slice : Slice
slice = record {
  throttle = seeded policy 100000 none;
  consecutive_failures = 0;
  json_attempts = 0;
  json_requests = 0;
  log = [];
}

-- A rate limit that asks for seven seconds, and then an answer
abbrev world : ℕ → Around
world i = if i == 0 then answer (some 429) (some 7000) else answer (some 200) none

it_succeeds : (request policy 3 world slice).0 ≡ succeeded
unfolding request request_from attempt intended notes unsent sends records decide_attempt
    refused_by_source conclude_attempt recorded_outcome recorded_class wait_before_retry seeded seed
    before_request after_request before classify_json json_status json_body
it_succeeds = refl

first_waits : (attempt policy (world 0) 0 false slice).0 ≡ retries 7000
unfolding attempt intended notes unsent sends records decide_attempt refused_by_source
    conclude_attempt recorded_outcome recorded_class wait_before_retry seeded seed before_request
    after_request before classify_json json_status json_body
first_waits = refl

attempt-verdict_example :
    (attempt policy (world 0) 0 false slice).0
    ≡ of_verdict (
        verdict policy
          (classify (world 0).exchange)
          (some 7000)
          (P2.count_failure (classify (world 0).exchange) 0)
          0
          false)
attempt-verdict_example = attempt-verdict policy (world 0) 0 false slice refl refl refl

slice-IsSound : IsSound policy slice
slice-IsSound = record { ahead = refl; spaced = record { apart = tt; tracked = tt } }

request-IsSound_example : IsSound policy (request policy 3 world slice).1
request-IsSound_example = request-IsSound policy 3 world slice slice-IsSound

second_succeeds : (attempt policy (world 1) 1 false slice).0 ≡ ends succeeded
unfolding attempt intended notes unsent sends records decide_attempt refused_by_source
    conclude_attempt recorded_outcome recorded_class wait_before_retry seeded seed before_request
    after_request before classify_json json_status json_body
second_succeeds = refl

attempt-durable_example :
    ((world 1).journaled ≡ true)
    × ((world 1).spooled ≡ true)
    × ((world 1).committed ≡ true)
    × (is_ok (classify_json (world 1).exchange) ≡ true)
attempt-durable_example = attempt-durable policy (world 1) 1 false slice second_succeeds
