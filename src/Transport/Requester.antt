-- ===== src/Transport/Requester.antt =====
-- worker/backfill_transport/requester.py: one logical JSON request of a claimed item (`request`), with
-- its attempts, and what each leaves in the ledger, the journal and the spool.
--
-- What surrounds an attempt is a parameter: whether the slice admits it, whether the intent can be
-- committed, the journal and the spool written and the outcome committed, the exchange of Capture.Http,
-- and the time that all this takes. A write that fails leaves nothing in the log. Rows and files are told apart by their kind; the check of the endpoint and its
-- parameters comes before and is left out.
pub mod Parity
pub mod Recorded
mod Tests
use cse_analysis.Base.{
  ℕ, zero, suc, ◌+◌, ◌-◌, max, Bool, true, false, not, ◌&&◌, ◌||◌, Option, none, some, List, [],
  ◌∷◌, leb, ◌==◌, if◌then◌else◌,
}
use cse_analysis.Capture.Http.{Exchange, RequestPolicy, backoff, exceeds}
use cse_analysis.Transport.Classify.{
  Outcome, ok, rate_limited, spool_failed, classify_json, is_ok, is_blocked, is_retryable,
  OutcomeClass, outcome_class, terminal_class, ok_class,
}
use cse_analysis.Transport.Throttle.{SliceThrottle, Request, before_request, after_request}

abbrev pub is_limited : Outcome → Bool
is_limited rate_limited = true
is_limited _ = false

-- What is decided of a classified attempt: whether it is a block, whether the circuit opens, and the
-- delay that a rate limit asks for.
pub record Decided : Type 0 where
  pub block : Bool
  pub open_circuit : Bool
  pub delay : Option ℕ

-- The first `block_reason`
unfoldable pub refused_by_source : RequestPolicy → Outcome → Option ℕ → Bool → Bool
refused_by_source p o wanted last =
    is_blocked o || (is_limited o && (exceeds p.retry_after_max wanted || last))

unfoldable pub decide_attempt : RequestPolicy → Outcome → Option ℕ → Bool → Bool → Decided
unfolding refused_by_source
decide_attempt p o wanted tripped last =
    let first = refused_by_source p o wanted last in
    let counted = not first && (not (is_ok o) && tripped) in
    record {
      block = first || (counted && is_limited o);
      open_circuit = counted && not (is_limited o);
      delay = if is_limited o && not first then wanted else none;
    }

-- How `request` ends: its result, ok or not, or the exception that stops the slice.
pub data End : Type 0 where
  succeeded failed : End
  refused blocked circuit_open durability_stop ledger_failed : End

pub data Next : Type 0 where
  ends : End → Next
  retries : ℕ → Next

-- The wait before the next attempt
unfoldable pub wait_before_retry : RequestPolicy → Option ℕ → ℕ → ℕ
wait_before_retry p none i = backoff p (i + 1)
wait_before_retry p (some d) i = max d p.min_interval

-- What follows once the outcome is committed; `recorded` is the outcome with a failure of the spool in
-- place of an ok one.
unfoldable pub conclude_attempt :
    RequestPolicy → Outcome → Outcome → Bool → Decided → ℕ → Bool → Next
unfolding wait_before_retry
conclude_attempt p o recorded spooled d i last =
    if d.block
    then ends blocked
    else if not spooled
    then ends durability_stop
    else if is_ok recorded
    then ends succeeded
    else if d.open_circuit
    then ends circuit_open
    else if not (is_retryable o) || last
    then ends failed
    else retries (wait_before_retry p d.delay i)

-- What an attempt writes, and the request itself
pub data Entry : Type 0 where
  intent_row journal_line : Entry
  sent : Request → Entry
  spool_record : Entry
  outcome_row : Outcome → Option OutcomeClass → Entry

-- The slice, as far as `request` reads and changes it; the newest entry comes first.
pub record Slice : Type 0 where
  pub throttle : SliceThrottle
  pub consecutive_failures : ℕ
  pub json_attempts : ℕ
  pub json_requests : ℕ
  pub log : List Entry

pub record Around : Type 0 where
  pub admitted : Bool
  pub intent_committed : Bool
  pub journaled : Bool
  pub lag : ℕ
  pub exchange : Exchange
  pub took : ℕ
  pub spooled : Bool
  pub committed : Bool

abbrev pub count_failure : Bool → ℕ → ℕ
count_failure true n = 0
count_failure false n = suc n

-- `o.update(outcome="spool_failed", ...)` where the spool failed on an ok outcome
unfoldable pub recorded_outcome : Outcome → Bool → Bool → Outcome
recorded_outcome o block spooled = if not spooled && (is_ok o && not block) then spool_failed else o

unfoldable pub recorded_class : Outcome → Bool → Bool → Option OutcomeClass
unfolding recorded_outcome
recorded_class o block spooled =
    if not spooled && (is_ok o && not block) then some terminal_class else outcome_class o block

-- A write leaves its entry only where it did not fail.
abbrev pub written : Bool → Entry → List Entry → List Entry
written true e log = e ∷ log
written false e log = log

-- The intent, and the count of the item's attempts
unfoldable pub intended : Around → Slice → Slice
intended a s = record s {
  json_attempts = suc s.json_attempts;
  json_requests = suc s.json_requests;
  log = written a.intent_committed intent_row s.log;
}

-- `journal.intent`
unfoldable pub notes : Around → Slice → Slice
notes a s = record s { log = written a.journaled journal_line s.log }

unfoldable pub unsent : Slice → Slice
unsent s = record s { log = outcome_row spool_failed (some terminal_class) ∷ s.log }

-- The throttle, the request, and the throttle again; the breaker counts the outcome.
unfoldable pub sends : RequestPolicy → Around → Slice → Slice
unfolding before_request after_request
sends p a s =
    let ready = before_request p s.throttle in
    let ended = ready.now + (a.lag + a.took) in
    record s {
      throttle = after_request (record ready { now = ended });
      consecutive_failures =
          count_failure (is_ok (classify_json a.exchange)) s.consecutive_failures;
      log = sent (record { started = ready.now + a.lag; ended = ended }) ∷ s.log;
    }

abbrev pub decided_of : RequestPolicy → Around → Slice → Bool → Decided
decided_of p a s last =
    decide_attempt p (classify_json a.exchange) a.exchange.retry_after
      (leb p.max_consecutive_failures s.consecutive_failures) last

-- The spool and the outcome row
unfoldable pub records : Around → Decided → Slice → Slice
unfolding recorded_outcome recorded_class
records a d s =
    let o = classify_json a.exchange in
    let log = written a.spooled spool_record s.log in
    record s {
      log =
          written a.committed
            (outcome_row (recorded_outcome o d.block a.spooled)
              (recorded_class o d.block a.spooled))
            log;
    }

abbrev pub slept : ℕ → Slice → Slice
slept d s = record s { throttle = record s.throttle { now = s.throttle.now + d } }

-- An attempt, from its intent on; the intent's own failure ends the request before it.
unfoldable pub attempt : RequestPolicy → Around → ℕ → Bool → Slice → Next × Slice
unfolding intended notes unsent sends records conclude_attempt
attempt p a i last s0 =
    let s = notes a (intended a s0) in
    if not a.journaled
    then (ends durability_stop, unsent s)
    else (let s1 = sends p a s in
        let d = decided_of p a s1 last in
        let s2 = records a d s1 in
        let o = classify_json a.exchange in
        if not a.committed
        then (ends durability_stop, s2)
        else (conclude_attempt p o (recorded_outcome o d.block a.spooled) a.spooled d i last, s2))

-- The `for` loop: the attempts that are left, and the index of the next
unfoldable pub request_from : RequestPolicy → (ℕ → Around) → ℕ → ℕ → Slice → End × Slice
unfolding attempt
request_from p w zero i s = (failed, s)
request_from p w (suc left) i s = elim (w i).admitted [
  | false ↦ (refused, s)
  | true ↦
      let (next, s1) = attempt p (w i) i (left == 0) s in
      if not (w i).intent_committed
      then (ledger_failed, s)
      else elim next [ ends e ↦ (e, s1) | retries d ↦ request_from p w left (i + 1) (slept d s1) ]
]

-- `request`, for the attempts that an arming allows an item
unfoldable pub request : RequestPolicy → ℕ → (ℕ → Around) → Slice → End × Slice
unfolding request_from
request p attempts_per_request w s =
    if leb attempts_per_request s.json_attempts
    then (refused, s)
    else request_from p w (attempts_per_request - s.json_attempts) 0 s
