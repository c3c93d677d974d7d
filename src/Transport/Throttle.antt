-- ===== src/Transport/Throttle.antt =====
-- worker/backfill_transport/throttle.py: the distance between requests within a slice, and across the
-- processes that hold the capture lock one after the other.
--
-- The throttle carries the clock that it reads; a sleep moves the clock by what it sleeps. P2's Throttle
-- is the one of Capture.Http, whose times and policy these are. The times that the throttle recorded as
-- waited are left out.
pub mod Apart
mod Tests
use cse_analysis.Base.{ℕ, ◌+◌, min, max, Option, none, some, List, [], ◌∷◌, map}
use cse_analysis.Capture.Http.{RequestPolicy, seed, before}

-- `SliceThrottle`
pub record SliceThrottle : Type 0 where
  pub now : ℕ
  pub last_end : Option ℕ
  pub hold_until : Option ℕ

-- `seed_seconds`, of the seconds since the last request in P2's archive and in the ledger
unfoldable pub seed_seconds : Option ℕ → Option ℕ → Option ℕ
seed_seconds none b = b
seed_seconds (some a) none = some a
seed_seconds (some a) (some b) = some (min a b)

unfoldable pub seeded : RequestPolicy → ℕ → Option ℕ → SliceThrottle
seeded p now ago = record { now = now; last_end = seed p now ago; hold_until = none }

abbrev pub at_least : Option ℕ → ℕ → ℕ
at_least none t = t
at_least (some h) t = max h t

unfoldable pub hold : ℕ → SliceThrottle → SliceThrottle
hold seconds t = record t { hold_until = some (at_least t.hold_until (t.now + seconds)) }

-- `before`: P2's wait, then the hold's, which is over with it
unfoldable pub before_request : RequestPolicy → SliceThrottle → SliceThrottle
before_request p t = record t {
  now = at_least t.hold_until (before p t.last_end t.now);
  hold_until = none;
}

unfoldable pub after_request : SliceThrottle → SliceThrottle
after_request t = record t { last_end = some t.now }

unfoldable pub release_guard : RequestPolicy → SliceThrottle → SliceThrottle
release_guard p t = record t { now = before p t.last_end t.now }

-- A request that was sent
pub record Request : Type 0 where
  pub started : ℕ
  pub ended : ℕ

-- What a slice does with its throttle: time passes, a source asks for a delay, or a request is made,
-- which begins some time after the wait and takes some time.
pub data Use : Type 0 where
  pass holds : ℕ → Use
  request : ℕ → ℕ → Use

abbrev later_by : ℕ → SliceThrottle → SliceThrottle
later_by d t = record t { now = t.now + d }

-- A slice with its throttle, the latest time until which a source asked it to hold, and its requests,
-- newest first, each with that time as it was when it was made. The time is kept apart from the
-- throttle, from the moments and the delays of the answers alone.
pub record Usage : Type 0 where
  pub throttle : SliceThrottle
  pub asked : ℕ
  pub sent : List (ℕ × Request)

abbrev pub used : RequestPolicy → Use → Usage → Usage
used p (pass d) s = record s { throttle = later_by d s.throttle }
used p (holds d) s = record s {
  throttle = hold d s.throttle;
  asked = max s.asked (s.throttle.now + d);
}
used p (request lag took) s =
    let ready = before_request p s.throttle in
    record s {
      throttle = after_request (later_by (lag + took) ready);
      sent =
          (s.asked, record { started = ready.now + lag; ended = ready.now + (lag + took) })
          ∷ s.sent;
    }

abbrev pub uses : RequestPolicy → List Use → Usage → Usage
uses p [] s = s
uses p (u ∷ us) s = uses p us (used p u s)

-- A slice that has made no request
abbrev pub unused : SliceThrottle → Usage
unused t = record { throttle = t; asked = 0; sent = [] }

abbrev pub requests_of : List (ℕ × Request) → List Request
requests_of sent = map (λ x. x.1) sent
