-- ===== src/Capture/Http/Spacing.antt =====
-- The requests of a run keep their distance, and none follows a refusal.
use cse_analysis.Base.{ℕ, ◌+◌, ◌≤◌, ◌≡◌, refl, Bool, false, Option, some, List, [], ◌∷◌, arith}
use cse_analysis.Capture.Http.{
  RequestPolicy, World, Session, Sent, done, retry, attempt, next_verdict, out_of_budget, slept,
  fetch, before, is_blocked, classify,
}
use cse_analysis.Capture.Http.Verdicts.{asked_for, verdict-done, verdict-retry}
use cse_analysis.Capture.Http.Runs.{Reached, fetch-rule}

-- From one request, the newer, to the one before it: it began the minimum interval after that one
-- ended at the earliest, and after the delay that a rate limit asked for, and that one was no refusal.
pub record Follows (p : RequestPolicy) (newer older : Sent) : Type 0 where
  pub spaced : older.ended + p.min_interval ≤ newer.started
  pub waited : older.ended + asked_for older.outcome older.asked ≤ newer.started
  pub allowed : is_blocked older.outcome ≡ false

-- Each request of a log, newest first, follows the one before it.
unfoldable pub Polite : RequestPolicy → List Sent → Type 0
Polite p [] = Unit
Polite p (x ∷ []) = Unit
Polite p (x ∷ y ∷ ys) = Follows p x y × Polite p (y ∷ ys)

-- The next request can follow the newest.
Ready : List Sent → Option ℕ → ℕ → Type 0
Ready [] last_end now = Unit
Ready (x ∷ xs) last_end now =
    (last_end ≡ some x.ended)
    × (x.ended + asked_for x.outcome x.asked ≤ now)
    × (is_blocked x.outcome ≡ false)

Kept : RequestPolicy → Session → Type 0
unfolding Ready
Kept p s = Polite p s.sent × Ready s.sent s.last_end s.now

later-Ready :
    (xs : List Sent) (last_end : Option ℕ) (now d : ℕ)
    → Ready xs last_end now
    → Ready xs last_end (now + d)
unfolding Ready
later-Ready [] last_end now d h = tt
later-Ready (x ∷ xs) last_end now d h = (h.0, (let z = h.1 in omega arith), h.2)

before-Follows :
    (p : RequestPolicy) (x : Sent) (last_end : Option ℕ) (now lag : ℕ)
    → last_end ≡ some x.ended
    → x.ended + asked_for x.outcome x.asked ≤ now
    → (x.ended + p.min_interval ≤ before p last_end now + lag)
      × (x.ended + asked_for x.outcome x.asked ≤ before p last_end now + lag)
unfolding before
before-Follows p x last_end now lag e h = rw e (omega arith, omega arith)

Polite-cons :
    (p : RequestPolicy) (x : Sent) (xs : List Sent) (last_end : Option ℕ) (now lag : ℕ)
    → x.started ≡ before p last_end now + lag
    → Polite p xs
    → Ready xs last_end now
    → Polite p (x ∷ xs)
unfolding Polite Ready
Polite-cons p x [] last_end now lag e h r = tt
Polite-cons p x (y ∷ ys) last_end now lag e h r =
    let f = before-Follows p y last_end now lag r.0 r.1 in
    (record { spaced = rw e f.0; waited = rw e f.1; allowed = r.2 }, h)

module _ (p : RequestPolicy) (max_requests : Option ℕ) (w : World) where
  attempt-Polite : (s : Session) → Kept p s → Polite p (attempt p w s).sent
  unfolding Kept attempt
  attempt-Polite s h = Polite-cons p _ s.sent s.last_end s.now (w s.requests_made).lag refl h.0 h.1

  done-Kept :
      (s : Session) (i : ℕ) (last b : Bool)
      → Kept p s
      → out_of_budget max_requests s ≡ false
      → next_verdict p max_requests w s i last ≡ done b
      → Kept p (attempt p w s)
  unfolding Kept Ready next_verdict attempt
  done-Kept s i last b h e v =
      let ex = (w s.requests_made).exchange in
      let q =
        verdict-done p (classify ex) ex.retry_after (attempt p w s).consecutive_failures i last b
          v in
      (attempt-Polite s h, (refl, (let z = q.1 in omega arith), q.0))

  retry-Kept :
      (s : Session) (i : ℕ) (last : Bool) (d : ℕ)
      → Kept p s
      → out_of_budget max_requests s ≡ false
      → next_verdict p max_requests w s i last ≡ retry d
      → Kept p (slept d (attempt p w s))
  unfolding Kept Ready next_verdict attempt
  retry-Kept s i last d h e v =
      let ex = (w s.requests_made).exchange in
      let q =
        verdict-retry p (classify ex) ex.retry_after (attempt p w s).consecutive_failures i last d
          v in
      (attempt-Polite s h, (refl, (let z = q.1 in omega arith), q.0))

  rest-Kept : (s : Session) (d : ℕ) → Kept p s → Kept p (slept d s)
  unfolding Kept
  rest-Kept s d h = (h.0, later-Ready s.sent s.last_end s.now d h.1)

  -- In a run, whatever the exchange answers: each request begins no sooner than the minimum interval
  -- after the end of the one before it, and no sooner than the delay that the one before it asked for
  -- when it was rate-limited; and no request follows one that the exchange refused.
  pub fetch-Polite :
      {s : Session} (allowed : ℕ)
      → Reached p max_requests w s
      → Polite p (fetch p max_requests w allowed s).1.sent
  unfolding Kept Polite
  fetch-Polite =
      fetch-rule p max_requests w (Kept p) (λ s. Polite p s.sent) (λ s h. h.0)
        (λ s h e. attempt-Polite s h) done-Kept retry-Kept (λ now ago. (tt, tt)) rest-Kept
