-- ===== src/Transport/Classify/Classes.antt =====
-- The transport's classifiers against the one of the daily capture, and the classes of outcomes.
use cse_analysis.Base.{ℕ, ◌≡◌, refl, Bool, true, Option, none, some, arith, ◌↔◌, is_some}
use cse_analysis.Capture.Http as P2
use cse_analysis.Capture.Http.{Exchange, classify, json_ok}
use cse_analysis.Transport.Classify.{
  Outcome, ok, blocked, rate_limited, server_error, unexpected_redirect, http_error, timeout,
  too_large, network_error, empty_response, invalid_json, malformed_response, json_status,
  json_body, classify_json, FetchError, classify_cdn, outcome_class, is_one_of, cdn_block_statuses,
}

-- The outcomes that the daily capture has too, by their names.
unfoldable pub of_p2 : P2.Outcome → Outcome
of_p2 P2.ok = ok
of_p2 P2.blocked = blocked
of_p2 P2.rate_limited = rate_limited
of_p2 P2.server_error = server_error
of_p2 P2.unexpected_redirect = unexpected_redirect
of_p2 P2.http_error = http_error
of_p2 P2.timeout = timeout
of_p2 P2.too_large = too_large
of_p2 P2.network_error = network_error
of_p2 P2.empty_response = empty_response
of_p2 P2.invalid_json = invalid_json
of_p2 P2.malformed_response = malformed_response

json_status-p2 :
    (status : Option ℕ) (p : Option P2.ParseStatus)
    → json_status status p ≡ of_p2 (P2.classify_status status p)
unfolding of_p2 json_status json_body P2.classify_status P2.classify_body
json_status-p2 none p = refl
json_status-p2 (some s) p = ground arith

classify_json-on :
    (k : Option P2.ErrorKind) (status : Option ℕ) (p : Option P2.ParseStatus) (r : Option ℕ)
    → classify_json (record { status = status; error_kind = k; parse_status = p; retry_after = r })
      ≡ of_p2
          (classify (record { status = status; error_kind = k; parse_status = p; retry_after = r }))
unfolding of_p2 classify_json classify
classify_json-on none status p r = json_status-p2 status p
classify_json-on (some P2.timeout_error) status p r = refl
classify_json-on (some P2.too_large_error) status p r = refl
classify_json-on (some P2.network_failure) status p r = refl

-- On every exchange the transport's classification is the one of the daily capture, where both check
-- the shape of a body with the same result.
pub classify_json-classify : (ex : Exchange) → classify_json ex ≡ of_p2 (classify ex)
classify_json-classify ex = classify_json-on ex.error_kind ex.status ex.parse_status ex.retry_after

-- A CDN answer is a block exactly on the statuses that are one, and a 403 is none of them.
pub classify_cdn-blocked_iff :
    (status : ℕ) (e : Option FetchError) (stream_error : Bool)
    → (classify_cdn status e stream_error ≡ blocked)
      ↔ ((e ≡ none) × (is_one_of cdn_block_statuses status ≡ true))
unfolding classify_cdn
classify_cdn-blocked_iff status e stream_error = ground arith

-- Every outcome of the transport has a class: the `ValueError` on an unknown one is never raised.
pub outcome_class_total : (o : Outcome) (block : Bool) → is_some (outcome_class o block) ≡ true
unfolding outcome_class
outcome_class_total o block = ground arith
