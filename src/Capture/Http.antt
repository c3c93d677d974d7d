-- ===== src/Capture/Http.antt =====
-- worker/market_capture/http.py: the spacing of requests, the classification of one attempt, and one
-- logical request with its bounded retries and its circuit breaker.
--
-- Times are numbers of a unit fine enough for every delay. The world is a parameter: a function from
-- the number of requests made so far to what happens around the next one. `parse_body` and `shape_ok`
-- read bytes with code of libraries, so an exchange carries their results. The archiver is not
-- modelled: its calls take time, which is part of the pauses.
pub mod Verdicts
pub mod Spacing
pub mod Breaker
pub mod Runs
mod Tests
use cse_analysis.Base.{
  ℕ, zero, suc, ◌+◌, ◌-◌, ◌*◌, ◌^◌, min, max, Bool, true, false, not, ◌&&◌, ◌||◌, Option, none,
  some, List, [], ◌∷◌, ltb, leb, ◌==◌, if◌then◌else◌, any,
}

pub data ErrorKind : Type 0 where
  timeout_error too_large_error network_failure : ErrorKind

-- `parse_status`; an `ok` JSON text comes with what `shape_ok` says of it.
pub data ParseStatus : Type 0 where
  empty not_json : ParseStatus
  json_ok : Bool → ParseStatus

-- `Exchange`, as far as a verdict reads it; `retry_after` is the result of `retry_after_seconds`.
pub record Exchange : Type 0 where
  pub status : Option ℕ
  pub error_kind : Option ErrorKind
  pub parse_status : Option ParseStatus
  pub retry_after : Option ℕ

pub data Outcome : Type 0 where
  ok blocked rate_limited server_error unexpected_redirect http_error : Outcome
  timeout too_large network_error empty_response invalid_json malformed_response : Outcome

-- `BLOCK_STATUSES`
abbrev block_statuses : List ℕ
block_statuses = 401 ∷ 403 ∷ 407 ∷ 451 ∷ []

abbrev in_range : ℕ → ℕ → ℕ → Bool
in_range lo hi s = leb lo s && leb s hi

unfoldable pub classify_body : Option ParseStatus → Outcome
classify_body (some empty) = empty_response
classify_body (some not_json) = invalid_json
classify_body (some (json_ok true)) = ok
classify_body (some (json_ok false)) = malformed_response
classify_body none = malformed_response

unfoldable pub classify_status : Option ℕ → Option ParseStatus → Outcome
unfolding classify_body
classify_status none p = http_error
classify_status (some s) p =
    if any (λ b. s == b) block_statuses
    then blocked
    else if s == 429
    then rate_limited
    else if in_range 500 599 s
    then server_error
    else if in_range 300 399 s
    then unexpected_redirect
    else if not (in_range 200 299 s)
    then http_error
    else classify_body p

-- `classify`, its outcome
unfoldable pub classify : Exchange → Outcome
unfolding classify_status
classify ex = elim ex.error_kind [
  | some timeout_error ↦ timeout
  | some too_large_error ↦ too_large
  | some network_failure ↦ network_error
  | none ↦ classify_status ex.status ex.parse_status
]

abbrev pub is_ok : Outcome → Bool
is_ok ok = true
is_ok _ = false

abbrev pub is_blocked : Outcome → Bool
is_blocked blocked = true
is_blocked _ = false

abbrev pub is_rate_limited : Outcome → Bool
is_rate_limited rate_limited = true
is_rate_limited _ = false

-- `RETRYABLE`
abbrev pub is_retryable : Outcome → Bool
is_retryable server_error = true
is_retryable network_error = true
is_retryable timeout = true
is_retryable empty_response = true
is_retryable invalid_json = true
is_retryable malformed_response = true
is_retryable rate_limited = true
is_retryable _ = false

-- `RequestPolicy`, as far as `fetch` reads it
pub record RequestPolicy : Type 0 where
  pub min_interval : ℕ
  pub backoff_base : ℕ
  pub backoff_max : ℕ
  pub retry_after_max : ℕ
  pub max_consecutive_failures : ℕ

unfoldable pub backoff : RequestPolicy → ℕ → ℕ
backoff p failure_index = min (p.backoff_base * 2 ^ (failure_index - 1)) p.backoff_max

-- `Throttle`: when the last request ended; `before` gives the time at which it is done waiting.
unfoldable pub seed : RequestPolicy → ℕ → Option ℕ → Option ℕ
seed p now none = none
seed p now (some ago) = if ltb ago p.min_interval then some (now - ago) else none

unfoldable pub before : RequestPolicy → Option ℕ → ℕ → ℕ
before p none now = now
before p (some last_end) now = max now (last_end + p.min_interval)

-- The stops: `Blocked`, `RateLimited`, `CircuitOpen`, `BudgetExhausted`.
pub data Stop : Type 0 where
  refused kept_limiting circuit_open budget_exhausted : Stop

-- What `fetch` does once an attempt is classified and counted.
pub data Verdict : Type 0 where
  done : Bool → Verdict
  stop : Stop → Verdict
  retry : ℕ → Verdict

abbrev pub exceeds : ℕ → Option ℕ → Bool
exceeds bound none = false
exceeds bound (some w) = ltb bound w

-- The wait before a retry, after 429 with a `Retry-After`, or after anything else.
unfoldable pub wait_after : RequestPolicy → Outcome → Option ℕ → ℕ → ℕ
unfolding backoff
wait_after p rate_limited (some wanted) i = max wanted p.min_interval
wait_after p _ _ i = backoff p (i + 1)

-- Steps 1 to 4 of the loop's body: the policy, the outcome, the `Retry-After`, the consecutive
-- failures with this one, the attempt's index, and whether it is the last.
unfoldable pub verdict : RequestPolicy → Outcome → Option ℕ → ℕ → ℕ → Bool → Verdict
verdict p o wanted failures i last =
    if is_ok o
    then done true
    else if is_blocked o
    then stop refused
    else if is_rate_limited o && exceeds p.retry_after_max wanted
    then stop kept_limiting
    else if is_rate_limited o && last
    then stop kept_limiting
    else if leb p.max_consecutive_failures failures
    then stop (if is_rate_limited o then kept_limiting else circuit_open)
    else if not (is_retryable o) || last
    then done false
    else retry (wait_after p o wanted i)

-- One request that was sent: when it began and ended, its outcome, and its `Retry-After`.
pub record Sent : Type 0 where
  pub started : ℕ
  pub ended : ℕ
  pub outcome : Outcome
  pub asked : Option ℕ

-- `Requester`, with the clock and the requests that it sent, newest first.
pub record Session : Type 0 where
  pub now : ℕ
  pub last_end : Option ℕ
  pub requests_made : ℕ
  pub consecutive_failures : ℕ
  pub sent : List Sent

-- What the world does around one request: a pause before it, its exchange, how long it takes, and a
-- pause after it.
pub record Around : Type 0 where
  pub lag : ℕ
  pub exchange : Exchange
  pub took : ℕ
  pub pause : ℕ

abbrev pub World : Type 0
World = ℕ → Around

abbrev pub count_failure : Outcome → ℕ → ℕ
count_failure ok n = 0
count_failure _ n = suc n

-- `_attempt` past its budget test, with the count of failures that `fetch` keeps.
unfoldable pub attempt : RequestPolicy → World → Session → Session
unfolding before classify
attempt p w s =
    let a = w s.requests_made in
    let started = before p s.last_end s.now + a.lag in
    let ended = started + a.took in
    record {
      now = ended + a.pause;
      last_end = some ended;
      requests_made = suc s.requests_made;
      consecutive_failures = count_failure (classify a.exchange) s.consecutive_failures;
      sent =
          record {
            started = started;
            ended = ended;
            outcome = classify a.exchange;
            asked = a.exchange.retry_after;
          }
          ∷ s.sent;
    }

abbrev out_of_budget : Option ℕ → Session → Bool
out_of_budget none s = false
out_of_budget (some max_requests) s = leb max_requests s.requests_made

pub data Fetched : Type 0 where
  returned : Bool → Fetched
  stopped : Stop → Fetched

abbrev pub slept : ℕ → Session → Session
slept d s = record s { now = s.now + d }

module _ (p : RequestPolicy) (max_requests : Option ℕ) (w : World) where
  -- The verdict on the attempt that a session makes next, at an index.
  unfoldable pub next_verdict : Session → ℕ → Bool → Verdict
  unfolding verdict
  next_verdict s i last =
      let ex = (w s.requests_made).exchange in
      verdict p (classify ex) ex.retry_after (attempt p w s).consecutive_failures i last

  -- The `for` loop of `fetch`: the attempts that are left, and the index of the next.
  unfoldable pub fetch_from : ℕ → ℕ → Session → Fetched × Session
  unfolding attempt next_verdict
  fetch_from zero i s = (returned false, s)
  fetch_from (suc left) i s = elim (out_of_budget max_requests s) [
    | true ↦ (stopped budget_exhausted, s)
    | false ↦ elim (next_verdict s i (left == 0)) [
      | done b ↦ (returned b, attempt p w s)
      | stop k ↦ (stopped k, attempt p w s)
      | retry d ↦ fetch_from left (i + 1) (slept d (attempt p w s))
    ]
  ]

  unfoldable pub fetch : ℕ → Session → Fetched × Session
  unfolding fetch_from
  fetch allowed s = fetch_from allowed 0 s
