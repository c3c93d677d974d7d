-- ===== src/AsOf/Supersession/Order.antt =====
-- Supersession is strict in availability, so it has no cycles.
use cse_analysis.Base.{ℕ, ◌≡◌, ◌≢◌, refl, true, false, ◌||◌, Option, none, some, arith}
use cse_analysis.AsOf.Supersession.{
  Candidate, DocumentTimes, bases, supersedes, later_than, document, s1, s2, s3,
}

later_trans :
    (a b c : Option ℕ) → later_than a b ≡ true → later_than b c ≡ true → later_than a c ≡ true
later_trans a b c h k = ground arith

pub later_irrefl : (a : Option ℕ) → later_than a a ≡ false
later_irrefl none = refl
later_irrefl (some x) = ground arith

-- One observation supersedes another only from a different document, with both availabilities known
-- and its own strictly later, and on a basis that the source declares: an errata or amendment read as
-- such, a restated marker, or the source's own order of the versions under a common filing.
pub supersedes-declared :
    (times : DocumentTimes) (s o : Candidate)
    → supersedes times s o ≡ true
    → (document s ≢ document o)
      × (later_than s.available_at o.available_at ≡ true)
      × ((s1 s || (s2 s || s3 times s o)) ≡ true)
unfolding bases
supersedes-declared times s o h = (ground arith, ground arith, ground arith)

-- A chain of supersessions: each observation supersedes the next.
pub data Chain (times : DocumentTimes) : Candidate → Candidate → Type 0 where
  link : (s o : Candidate) → supersedes times s o ≡ true → Chain times s o
  extend :
      (s o : Candidate) {t : Candidate}
      → supersedes times s o ≡ true
      → Chain times o t
      → Chain times s t

Chain-later :
    {times : DocumentTimes} {s o : Candidate}
    → Chain times s o
    → later_than s.available_at o.available_at ≡ true
Chain-later {times} (link s o h) = (supersedes-declared times s o h).1
Chain-later {times} (extend s o {t = t} h c) =
    later_trans s.available_at o.available_at t.available_at (supersedes-declared times s o h).1
      (Chain-later c)

-- No chain of supersessions leads back to the observation that it began with.
pub Chain-acyclic : (times : DocumentTimes) (c : Candidate) → ¬ Chain times c c
Chain-acyclic times c chain = let l = Chain-later chain in let i = later_irrefl c.available_at in cc
