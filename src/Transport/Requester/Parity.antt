-- ===== src/Transport/Requester/Parity.antt =====
-- The requester concludes what the daily capture's loop concludes.
use cse_analysis.Base.{ℕ, ◌≡◌, Bool, true, false, Option, arith, leb}
use cse_analysis.Capture.Http as P2
use cse_analysis.Capture.Http.{RequestPolicy, Verdict, verdict, classify, wait_after, backoff}
use cse_analysis.Transport.Classify.{Outcome, is_ok}
use cse_analysis.Transport.Classify.Classes.{of_p2, classify_json-classify}
use cse_analysis.Transport.Requester.{
  Next, ends, retries, succeeded, failed, refused, blocked, circuit_open, decide_attempt,
  refused_by_source, conclude_attempt, recorded_outcome, wait_before_retry, Around, Slice, attempt,
  intended, notes, sends, count_failure,
}

-- What a verdict of the daily capture is to the transport: a refusal and a lasting rate limit are blocks.
pub of_verdict : Verdict → Next
of_verdict (P2.done true) = ends succeeded
of_verdict (P2.done false) = ends failed
of_verdict (P2.stop P2.refused) = ends blocked
of_verdict (P2.stop P2.kept_limiting) = ends blocked
of_verdict (P2.stop P2.circuit_open) = ends circuit_open
of_verdict (P2.stop P2.budget_exhausted) = ends refused
of_verdict (P2.retry d) = retries d

module _ (p : RequestPolicy) (wanted : Option ℕ) (failures i : ℕ) (last : Bool) where
  abbrev concluded : Outcome → Next
  concluded o =
      let d = decide_attempt p o wanted (leb p.max_consecutive_failures failures) last in
      conclude_attempt p o (recorded_outcome o d.block true) true d i last

  concluded-verdict :
      (o : P2.Outcome) → concluded (of_p2 o) ≡ of_verdict (verdict p o wanted failures i last)
  unfolding decide_attempt refused_by_source conclude_attempt recorded_outcome wait_before_retry
      of_p2 of_verdict verdict wait_after
  concluded-verdict P2.ok = ground arith
  concluded-verdict P2.blocked = ground arith
  concluded-verdict P2.rate_limited = ground arith
  concluded-verdict P2.server_error = ground arith
  concluded-verdict P2.unexpected_redirect = ground arith
  concluded-verdict P2.http_error = ground arith
  concluded-verdict P2.timeout = ground arith
  concluded-verdict P2.too_large = ground arith
  concluded-verdict P2.network_error = ground arith
  concluded-verdict P2.empty_response = ground arith
  concluded-verdict P2.invalid_json = ground arith
  concluded-verdict P2.malformed_response = ground arith

count_failure-p2 :
    (o : P2.Outcome) (n : ℕ) → count_failure (is_ok (of_p2 o)) n ≡ P2.count_failure o n
unfolding of_p2
count_failure-p2 o n = ground arith

-- Once the journal line, the spool copy and the outcome row are written, an attempt ends the request, stops
-- the slice or waits for the next attempt exactly as the loop of the daily capture does on the same
-- exchange, with the same wait, its count of consecutive failures being the one that the capture's own
-- loop would keep.
pub attempt-verdict :
    (p : RequestPolicy) (a : Around) (i : ℕ) (last : Bool) (s : Slice)
    → a.journaled ≡ true
    → a.spooled ≡ true
    → a.committed ≡ true
    → (attempt p a i last s).0
      ≡ of_verdict (
          verdict p
            (classify a.exchange)
            a.exchange.retry_after
            (P2.count_failure (classify a.exchange) s.consecutive_failures)
            i
            last)
unfolding attempt intended notes sends
attempt-verdict p a i last s j sp c =
    let o = classify a.exchange in
    let e = classify_json-classify a.exchange in
    rw (j, sp, c, e, count_failure-p2 o s.consecutive_failures)
      (concluded-verdict p a.exchange.retry_after (P2.count_failure o s.consecutive_failures) i last
        o)
