-- ===== src/Transport/Classify.antt =====
-- worker/backfill_transport/classify.py: the outcome of one attempt, and its class in the ledger.
--
-- An exchange is that of Capture.Http; the Boolean of its parsed body is the result of `f1_accepts`.
pub mod Classes
mod Tests
use cse_analysis.Base.{
  ℕ, Bool, true, false, not, Option, none, some, List, [], ◌∷◌, leb, ◌==◌, ◌&&◌, ◌||◌,
  if◌then◌else◌, any,
}
use cse_analysis.Capture.Http.{
  Exchange, ErrorKind, timeout_error, too_large_error, network_failure, ParseStatus, empty,
  not_json, json_ok,
}

-- Every outcome that the ledger of the transport has.
pub data Outcome : Type 0 where
  ok blocked rate_limited server_error unexpected_redirect http_error : Outcome
  timeout too_large network_error empty_response invalid_json malformed_response : Outcome
  forbidden_or_missing not_found redirect spool_failed stream_not_closed : Outcome

-- `API_BLOCK_STATUSES`, `CDN_BLOCK_STATUSES`, `RATE_LIMITED`
abbrev pub api_block_statuses : List ℕ
api_block_statuses = 401 ∷ 403 ∷ 407 ∷ 451 ∷ []

abbrev pub cdn_block_statuses : List ℕ
cdn_block_statuses = 401 ∷ 407 ∷ 451 ∷ []

abbrev pub rate_limited_status : ℕ
rate_limited_status = 429

abbrev pub is_one_of : List ℕ → ℕ → Bool
is_one_of xs s = any (λ x. s == x) xs

abbrev pub from_to : ℕ → ℕ → ℕ → Bool
from_to lo hi s = leb lo s && leb s hi

unfoldable pub json_body : Option ParseStatus → Outcome
json_body (some empty) = empty_response
json_body (some not_json) = invalid_json
json_body (some (json_ok true)) = ok
json_body (some (json_ok false)) = malformed_response
json_body none = malformed_response

unfoldable pub json_status : Option ℕ → Option ParseStatus → Outcome
unfolding json_body
json_status none p = http_error
json_status (some s) p =
    if is_one_of api_block_statuses s
    then blocked
    else if s == rate_limited_status
    then rate_limited
    else if from_to 500 599 s
    then server_error
    else if from_to 300 399 s
    then unexpected_redirect
    else if not (from_to 200 299 s)
    then http_error
    else json_body p

-- `classify_json`, its outcome
unfoldable pub classify_json : Exchange → Outcome
unfolding json_status
classify_json ex = elim ex.error_kind [
  | some timeout_error ↦ timeout
  | some too_large_error ↦ too_large
  | some network_failure ↦ network_error
  | none ↦ json_status ex.status ex.parse_status
]

pub data FetchError : Type 0 where
  fetch_timeout fetch_network : FetchError

-- `classify_cdn`
unfoldable pub classify_cdn : ℕ → Option FetchError → Bool → Outcome
classify_cdn status (some fetch_timeout) stream_error = timeout
classify_cdn status (some fetch_network) stream_error = network_error
classify_cdn status none stream_error =
    if is_one_of cdn_block_statuses status
    then blocked
    else if status == 403
    then forbidden_or_missing
    else if status == 404
    then not_found
    else if status == rate_limited_status
    then rate_limited
    else if from_to 500 599 status
    then server_error
    else if from_to 300 399 status
    then redirect
    else if not (from_to 200 299 status)
    then http_error
    else if stream_error
    then network_error
    else ok

-- `RETRYABLE` and `TERMINAL`
abbrev pub is_retryable : Outcome → Bool
is_retryable server_error = true
is_retryable network_error = true
is_retryable timeout = true
is_retryable empty_response = true
is_retryable invalid_json = true
is_retryable malformed_response = true
is_retryable rate_limited = true
is_retryable _ = false

abbrev pub is_terminal : Outcome → Bool
is_terminal too_large = true
is_terminal http_error = true
is_terminal unexpected_redirect = true
is_terminal forbidden_or_missing = true
is_terminal not_found = true
is_terminal redirect = true
is_terminal spool_failed = true
is_terminal stream_not_closed = true
is_terminal _ = false

abbrev pub is_blocked : Outcome → Bool
is_blocked blocked = true
is_blocked _ = false

abbrev pub is_ok : Outcome → Bool
is_ok ok = true
is_ok _ = false

pub data OutcomeClass : Type 0 where
  ok_class retryable_class terminal_class block_class : OutcomeClass

-- `outcome_class`; `none` is the `ValueError`.
unfoldable pub outcome_class : Outcome → Bool → Option OutcomeClass
outcome_class o block =
    if block || is_blocked o
    then some block_class
    else if is_ok o
    then some ok_class
    else if is_retryable o
    then some retryable_class
    else if is_terminal o
    then some terminal_class
    else none
