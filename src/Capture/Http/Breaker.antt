-- ===== src/Capture/Http/Breaker.antt =====
-- The circuit breaker and the budgets bound the requests of a run.
use cse_analysis.Base.{
  ℕ, suc, ◌≤◌, ◌<◌, ◌≡◌, refl, Bool, true, false, Option, some, List, [], ◌∷◌, arith, inl, inr,
  length, if◌then◌else◌, ap, subst,
}
use cse_analysis.Capture.Http.{
  RequestPolicy, World, Session, Sent, Outcome, done, retry, attempt, next_verdict, out_of_budget,
  slept, fetch, is_ok, classify, count_failure,
}
use cse_analysis.Capture.Http.Verdicts.{verdict-done, verdict-retry}
use cse_analysis.Capture.Http.Runs.{Reached, fetch-rule}

-- How many of the newest requests failed in a row.
pub streak : List Sent → ℕ
streak [] = 0
streak (x ∷ xs) = let rest = streak xs in if is_ok x.outcome then 0 else suc rest

-- At no time had more than `n` requests failed in a row.
pub StreaksWithin : ℕ → List Sent → Type 0
StreaksWithin n [] = Unit
StreaksWithin n (x ∷ xs) = (streak (x ∷ xs) ≤ n) × StreaksWithin n xs

Counted : RequestPolicy → Session → Type 0
Counted p s =
    (s.consecutive_failures ≡ streak s.sent)
    × (s.consecutive_failures < p.max_consecutive_failures)
    × StreaksWithin p.max_consecutive_failures s.sent

count_failure-le : (o : Outcome) (n : ℕ) → count_failure o n ≤ suc n
count_failure-le o n = ground arith

count_failure-if : (o : Outcome) (n : ℕ) → count_failure o n ≡ (if is_ok o then 0 else suc n)
count_failure-if o n = ground arith

count_failure-ok : (o : Outcome) (n : ℕ) → is_ok o ≡ true → count_failure o n ≡ 0
count_failure-ok o n h = ground arith

module _ (p : RequestPolicy) (max_requests : Option ℕ) (w : World) where
  attempt-streak :
      (s : Session)
      → Counted p s
      → (attempt p w s).consecutive_failures ≡ streak (attempt p w s).sent
  unfolding Counted attempt streak
  attempt-streak s h =
      rw h.0 (count_failure-if (classify (w s.requests_made).exchange) (streak s.sent))

  attempt-StreaksWithin :
      (s : Session) → Counted p s → StreaksWithin p.max_consecutive_failures (attempt p w s).sent
  unfolding StreaksWithin Counted attempt
  attempt-StreaksWithin s h =
      let le = count_failure-le (classify (w s.requests_made).exchange) s.consecutive_failures in
      let m = h.1 in
      let bound : (attempt p w s).consecutive_failures ≤ p.max_consecutive_failures = omega arith in
      (subst (λ n. n ≤ p.max_consecutive_failures) (attempt-streak s h) bound, h.2)

  done-Counted :
      (s : Session) (i : ℕ) (last b : Bool)
      → Counted p s
      → out_of_budget max_requests s ≡ false
      → next_verdict p max_requests w s i last ≡ done b
      → Counted p (attempt p w s)
  unfolding Counted next_verdict attempt
  done-Counted s i last b h e v =
      let ex = (w s.requests_made).exchange in
      let q =
        verdict-done p (classify ex) ex.retry_after (attempt p w s).consecutive_failures i last b
          v in
      let below : (attempt p w s).consecutive_failures < p.max_consecutive_failures = elim q.2 [
        | inl y ↦
            let zero_now = count_failure-ok (classify ex) s.consecutive_failures y in
            let m = h.1 in omega arith
        | inr n ↦ n
      ] in
      (attempt-streak s h, below, attempt-StreaksWithin s h)

  retry-Counted :
      (s : Session) (i : ℕ) (last : Bool) (d : ℕ)
      → Counted p s
      → out_of_budget max_requests s ≡ false
      → next_verdict p max_requests w s i last ≡ retry d
      → Counted p (slept d (attempt p w s))
  unfolding Counted next_verdict
  retry-Counted s i last d h e v =
      let ex = (w s.requests_made).exchange in
      let q =
        verdict-retry p (classify ex) ex.retry_after (attempt p w s).consecutive_failures i last d
          v in
      (attempt-streak s h, q.2, attempt-StreaksWithin s h)

  -- In a run whose policy allows a failure, the circuit breaker leaves no more consecutive failed
  -- requests, at any time and across fetches, than the policy allows.
  pub fetch-StreaksWithin :
      {s : Session} (allowed : ℕ)
      → (1 ≤ p.max_consecutive_failures)
      → Reached p max_requests w s
      → StreaksWithin p.max_consecutive_failures (fetch p max_requests w allowed s).1.sent
  unfolding Counted streak StreaksWithin
  fetch-StreaksWithin allowed positive =
      fetch-rule p max_requests w (Counted p) (λ s. StreaksWithin p.max_consecutive_failures s.sent)
        (λ s h. h.2) (λ s h e. attempt-StreaksWithin s h) done-Counted retry-Counted
        (λ now ago. (refl, positive, tt)) (λ s d h. h) allowed

InBudget : ℕ → Session → Type 0
InBudget n s = (length s.sent ≡ s.requests_made) × (s.requests_made ≤ n)

module _ (p : RequestPolicy) (n : ℕ) (w : World) where
  attempt-InBudget :
      (s : Session) → InBudget n s → out_of_budget (some n) s ≡ false → InBudget n (attempt p w s)
  unfolding InBudget attempt
  attempt-InBudget s h e = (ap suc h.0, let m = h.1 in ground arith)

  -- A run under a budget of requests sends no more of them, whatever is answered and however many
  -- attempts its fetches are allowed.
  pub fetch-InBudget :
      {s : Session} (allowed : ℕ)
      → Reached p (some n) w s
      → length (fetch p (some n) w allowed s).1.sent ≤ n
  unfolding InBudget
  fetch-InBudget allowed r =
      let h =
        fetch-rule p (some n) w (InBudget n) (InBudget n) (λ s h. h) attempt-InBudget
          (λ s i last b h e v. attempt-InBudget s h e) (λ s i last d h e v. attempt-InBudget s h e)
          (λ now ago. (refl, omega arith)) (λ s d h. h) allowed r in
      let l = h.0 in let m = h.1 in omega arith
