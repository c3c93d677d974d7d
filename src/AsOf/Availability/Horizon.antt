-- ===== src/AsOf/Availability/Horizon.antt =====
-- Availability at a horizon reads only what was recorded by it.
use cse_analysis.Base.{ℕ, ◌≡◌, ap, ◌∙◌, List, keep, keep_idem}
use cse_analysis.AsOf.Availability.{
  Seen, Run, observed_by, recorded_by, filing_availability, filing_by, version_by,
  version_availability,
}

filing_availability-kept :
    (seen : List Seen) (horizon : ℕ)
    → filing_availability (keep (observed_by horizon) seen) horizon
      ≡ filing_availability seen horizon
unfolding filing_availability
filing_availability-kept seen horizon = ap filing_by (keep_idem (observed_by horizon) seen)

-- Without every observation and run that was recorded after the horizon, a version's availability is
-- what it is with them.
pub version_availability-kept :
    (seen : List Seen) (runs : List Run) (sha horizon : ℕ)
    → version_availability
        (keep (observed_by horizon) seen)
        (keep (recorded_by horizon) runs)
        sha
        horizon
      ≡ version_availability seen runs sha horizon
unfolding version_availability
version_availability-kept seen runs sha horizon =
    ap (λ f. version_by f (keep (recorded_by horizon) (keep (recorded_by horizon) runs)) sha)
      (filing_availability-kept seen horizon)
    ∙ ap (λ rs. version_by (filing_availability seen horizon) rs sha)
        (keep_idem (recorded_by horizon) runs)
