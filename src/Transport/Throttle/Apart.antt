-- ===== src/Transport/Throttle/Apart.antt =====
-- Requests keep their distance, whoever made the one before.
use mathlib.Core.List.{Memᴰ}
use cse_analysis.Base.{
  ℕ, ◌+◌, ◌-◌, ◌≤◌, ◌≡◌, refl, min, ◌⊎◌, inl, inr, Option, none, some, List, [], ◌∷◌, arith, All,
  All-mem, mem-All,
}
use cse_analysis.Capture.Http.{RequestPolicy, seed, before}
use cse_analysis.Transport.Throttle.{
  SliceThrottle, seed_seconds, seeded, hold, before_request, after_request, release_guard, Request,
  Use, pass, holds, request, Usage, used, uses, unused, requests_of, at_least,
}

-- A request starts the minimum interval after an older one has ended.
abbrev pub IsApart : RequestPolicy → List Request → Type 0
IsApart p [] = Unit {0}
IsApart p (r ∷ rs) = All (λ (o : Request). o.ended + p.min_interval ≤ r.started) rs × IsApart p rs

-- The requests so far are apart, and the throttle knows the end of the last.
pub record IsTracked (p : RequestPolicy) (t : SliceThrottle) (sent : List Request) : Type 0 where
  pub apart : IsApart p sent
  pub tracked : All (λ (r : Request). r.ended + p.min_interval ≤ before p t.last_end t.now) sent

before-later :
    (p : RequestPolicy) (last : Option ℕ) (now d : ℕ) → before p last now ≤ before p last (now + d)
unfolding before
before-later p last now d = ground arith

at_least-le : (h : Option ℕ) (t : ℕ) → t ≤ at_least h t
at_least-le h t = ground arith

at_least_mono : (h : Option ℕ) (a b : ℕ) → a ≤ b → at_least h a ≤ at_least h b
at_least_mono h a b l = ground arith

before-le : (p : RequestPolicy) (last : Option ℕ) (now : ℕ) → now ≤ before p last now
unfolding before
before-le p last now = ground arith

before-last : (p : RequestPolicy) (now : ℕ) → before p (some now) now ≡ now + p.min_interval
unfolding before
before-last p now = ground arith

-- The three uses of a throttle
pub pass-IsTracked :
    (p : RequestPolicy) (d : ℕ) (t : SliceThrottle) (sent : List Request)
    → IsTracked p t sent
    → IsTracked p (record t { now = t.now + d }) sent
pass-IsTracked p d t sent h = record {
  apart = h.apart;
  tracked = mem-All _ sent (λ r m.
      let a =
        All-mem (λ (r : Request). r.ended + p.min_interval ≤ before p t.last_end t.now) h.tracked
          m in
      let b = before-later p t.last_end t.now d in omega arith);
}

hold-IsTracked :
    (p : RequestPolicy) (d : ℕ) (t : SliceThrottle) (sent : List Request)
    → IsTracked p t sent
    → IsTracked p (hold d t) sent
unfolding hold
hold-IsTracked p d t sent h = record { apart = h.apart; tracked = h.tracked }

abbrev pub made : RequestPolicy → ℕ → ℕ → SliceThrottle → Request
made p lag took t =
    let ready = before_request p t in
    record { started = ready.now + lag; ended = ready.now + (lag + took) }

pub request-IsTracked :
    (p : RequestPolicy) (lag took : ℕ) (t : SliceThrottle) (sent : List Request)
    → IsTracked p t sent
    → IsTracked p
        (after_request
          (record (before_request p t) { now = (before_request p t).now + (lag + took) }))
        (made p lag took t ∷ sent)
unfolding before_request after_request
request-IsTracked p lag took t sent h =
    let ready = at_least t.hold_until (before p t.last_end t.now) in
    let r0 = at_least-le t.hold_until (before p t.last_end t.now) in
    let e = before-last p (ready + (lag + took)) in
    let older = λ (r : Request) (m : Memᴰ r sent).
      All-mem (λ (r : Request). r.ended + p.min_interval ≤ before p t.last_end t.now) h.tracked m in
    record {
      apart = (mem-All _ sent (λ r m. let a = older r m in omega arith), h.apart);
      tracked = (omega arith, mem-All _ sent (λ r m. let a = older r m in omega arith));
    }

-- What a slice keeps of its requests, from a bound on: they are apart, none starts before the bound
-- or before the time that a source had asked for.
record IsKept (p : RequestPolicy) (bound : ℕ) (s : Usage) : Type 0 where
  is_tracked : IsTracked p s.throttle (requests_of s.sent)
  next_floored : bound ≤ before p s.throttle.last_end s.throttle.now
  floored : All (λ (x : ℕ × Request). bound ≤ x.1.started) s.sent
  next_waits : s.asked ≤ at_least s.throttle.hold_until s.throttle.now
  waited : All (λ (x : ℕ × Request). x.0 ≤ x.1.started) s.sent

used-IsKept :
    (p : RequestPolicy) (bound : ℕ) (u : Use) (s : Usage)
    → IsKept p bound s
    → IsKept p bound (used p u s)
unfolding hold before_request after_request
used-IsKept p bound (pass d) s h =
    let a = h.next_floored in
    let b = before-later p s.throttle.last_end s.throttle.now d in
    let c = h.next_waits in
    record {
      is_tracked = pass-IsTracked p d s.throttle (requests_of s.sent) h.is_tracked;
      next_floored = omega arith;
      floored = h.floored;
      next_waits = ground arith;
      waited = h.waited;
    }
used-IsKept p bound (holds d) s h =
    let c = h.next_waits in
    record {
      is_tracked = hold-IsTracked p d s.throttle (requests_of s.sent) h.is_tracked;
      next_floored = h.next_floored;
      floored = h.floored;
      next_waits = ground arith;
      waited = h.waited;
    }
used-IsKept p bound (request lag took) s h =
    let t = s.throttle in
    let a = h.next_floored in
    let c = h.next_waits in
    let ready = at_least t.hold_until (before p t.last_end t.now) in
    let r0 = at_least-le t.hold_until (before p t.last_end t.now) in
    let n = before-le p t.last_end t.now in
    let late = at_least_mono t.hold_until t.now (before p t.last_end t.now) n in
    let e = before-last p (ready + (lag + took)) in
    record {
      is_tracked = request-IsTracked p lag took t (requests_of s.sent) h.is_tracked;
      next_floored = omega arith;
      floored = (omega arith, h.floored);
      next_waits = omega arith;
      waited = (omega arith, h.waited);
    }

uses-IsKept :
    (p : RequestPolicy) (bound : ℕ) (us : List Use) (s : Usage)
    → IsKept p bound s
    → IsKept p bound (uses p us s)
uses-IsKept p bound [] s h = h
uses-IsKept p bound (u ∷ us) s h = uses-IsKept p bound us (used p u s) (used-IsKept p bound u s h)

seed-before :
    (p : RequestPolicy) (now ago : ℕ)
    → ago ≤ now
    → (now - ago) + p.min_interval ≤ before p (seed p now (some ago)) now
unfolding seed before
seed-before p now ago h = ground arith

seed_seconds-le :
    (archive ledger : Option ℕ) (ago : ℕ)
    → (archive ≡ some ago) ⊎ (ledger ≡ some ago)
    → (n : ℕ) × (seed_seconds archive ledger ≡ some n) × (n ≤ ago)
unfolding seed_seconds
seed_seconds-le none none ago (inl e) = cc
seed_seconds-le none none ago (inr e) = cc
seed_seconds-le none (some l) ago (inl e) = cc
seed_seconds-le none (some l) ago (inr e) = (l, refl, ground arith)
seed_seconds-le (some a) none ago (inl e) = (a, refl, ground arith)
seed_seconds-le (some a) none ago (inr e) = cc
seed_seconds-le (some a) (some l) ago (inl e) = (min a l, refl, ground arith)
seed_seconds-le (some a) (some l) ago (inr e) = (min a l, refl, ground arith)

-- Whatever a slice does with its throttle, its requests keep the minimum interval from the end of one to
-- the start of the next, and none starts before the latest time until which any answer before it,
-- by its moment and the delay it asked for, had asked to hold. If P2's archive or the ledger
-- knows of a request that ended some time before the slice began, every request of the slice starts
-- the interval after that end. And when the lock is released, the interval has passed since each of
-- them ended, so that whoever begins next, knowing of none of them, keeps it too.
pub slice-IsApart :
    (p : RequestPolicy) (us : List Use) (now ago : ℕ) (archive ledger : Option ℕ)
    → (archive ≡ some ago) ⊎ (ledger ≡ some ago)
    → ago ≤ now
    → let s = uses p us (unused (seeded p now (seed_seconds archive ledger))) in
      IsApart p (requests_of s.sent)
      × All (λ (x : ℕ × Request). x.0 ≤ x.1.started) s.sent
      × All (λ (x : ℕ × Request). (now - ago) + p.min_interval ≤ x.1.started) s.sent
      × All
          (λ (r : Request). r.ended + p.min_interval ≤ (release_guard p s.throttle).now)
          (requests_of s.sent)
unfolding seeded release_guard
slice-IsApart p us now ago archive ledger known le =
    let (n, e, small) = seed_seconds-le archive ledger ago known in
    let first = seeded p now (seed_seconds archive ledger) in
    let bound : (now - ago) + p.min_interval
        ≤ before p (seed p now (seed_seconds archive ledger)) now =
      rw e (let b = seed-before p now n (omega arith) in omega arith) in
    let k = uses-IsKept p ((now - ago) + p.min_interval) us (unused first) (record {
      is_tracked = record { apart = tt; tracked = tt };
      next_floored = bound;
      floored = tt;
      next_waits = omega arith;
      waited = tt;
    }) in
    (k.is_tracked.apart, k.waited, k.floored, k.is_tracked.tracked)
