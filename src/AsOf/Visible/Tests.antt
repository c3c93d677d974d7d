-- ===== src/AsOf/Visible/Tests.antt =====
-- What a query may look at: the theorems about it.
use mathlib.Core.List.{Memᴰ}
use cse_analysis.Base.{
  ℕ, ◌≡◌, refl, true, false, none, some, List, [], ◌∷◌, ◌==◌, ◌⊎◌, All, if◌then◌else◌,
}
use cse_analysis.Truth.Values.{best}
use cse_analysis.Scheduler.Schedule.{colombo_moment}
use cse_analysis.AsOf.Availability.{
  Seen, Run, listing, version_availability, filing_availability, version_by, filing_by, role_of,
  role_among, version_at, effective_of, date_of, colombo_end_of_day, is_colombo_midnight,
  precision_at,
}
use cse_analysis.AsOf.Visible.{
  known, available, Evidence, version, visible, visible_at, shown, filings_of, document_time,
  pending_runs, ValidationRun, Decision, MetadataAsOf, one, tied_runs, canonical_validation_run,
  link_at, one_of,
}
use cse_analysis.AsOf.Visible.Shown.{shown-visible, up_to, visible-up_to}
use cse_analysis.AsOf.Visible.Validated.{IsEligible, canonical-one}

abbrev seen : ℕ → Seen
seen at = record {
  id = at;
  observed_at = 90;
  source = 5;
  endpoint = listing;
  uploaded = some (some at);
  authorized = none;
}

abbrev run : ℕ → ℕ → Run
run filing document = record {
  f5_run_id = document;
  filing = filing;
  document = document;
  recorded_at = 95;
  cdn_last_modified = none;
  path_epoch_at = none;
  document_retrieved_at = some 92;
}

-- Filing 7 was uploaded at 40, filing 8 at 400; one more run is recorded later.
abbrev evidence : Evidence
evidence = record {
  runs = run 7 3 ∷ run 8 4 ∷ record (run 7 9) { recorded_at = 200 } ∷ [];
  seen_of = λ f. if f == 7 then seen 40 ∷ [] else seen 400 ∷ [];
}

it_shows : shown known 50 evidence 100 ≡ run 7 3 ∷ []
unfolding shown visible version best version_availability version_by filing_availability filing_by
    role_of role_among version_at effective_of date_of colombo_end_of_day is_colombo_midnight
    colombo_moment precision_at
it_shows = refl

it_pends : pending_runs 50 evidence 100 ≡ run 8 4 ∷ []
unfolding pending_runs filings_of shown visible version best version_availability version_by
    filing_availability filing_by role_of role_among version_at effective_of date_of
    colombo_end_of_day is_colombo_midnight colombo_moment precision_at
it_pends = refl

first_shown : Memᴰ (run 7 3) (shown known 50 evidence 100)
first_shown = rw it_shows (Memᴰ.head refl)

shown-visible_example : visible_at known 50 (document_time known 50 evidence 100 3) ≡ true
shown-visible_example = shown-visible known 50 evidence 100 (run 7 3) first_shown

visible-up_to_example :
    (shown available 50 (up_to 100 evidence) 100 ≡ shown available 50 evidence 100)
    × (document_time available 50 (up_to 100 evidence) 100 3
        ≡ document_time available 50 evidence 100 3)
visible-up_to_example = visible-up_to available 50 evidence 100 3

abbrev validated : ValidationRun
validated = record {
  key = 61;
  versions = 2;
  recorded_at = 96;
  issuer_link_id = some 8;
  publication_uploaded_at = some 40;
}

abbrev outdated : ValidationRun
outdated = record validated { key = 60; issuer_link_id = some 7 }

abbrev decisions : List Decision
decisions =
    record { id = 7; decided_at = 50 }
    ∷ record { id = 8; decided_at = 60 }
    ∷ record { id = 9; decided_at = 101 }
    ∷ []

abbrev metadata : MetadataAsOf
metadata = record { uploaded_at = some 40; others = []; tie = false; unenumerated = false }

its_run :
    canonical_validation_run decisions metadata (outdated ∷ validated ∷ []) 2 100 ≡ one validated
unfolding canonical_validation_run link_at one_of best
its_run = refl

canonical-one_example :
    Memᴰ validated (outdated ∷ validated ∷ [])
    × (metadata.tie ≡ false)
    × IsEligible decisions (some 40) 2 100 validated
    × All
        (λ w. (w ≡ validated) ⊎ (¬ IsEligible decisions (some 40) 2 100 w))
        (outdated ∷ validated ∷ [])
canonical-one_example =
    canonical-one decisions metadata (outdated ∷ validated ∷ []) 2 100 validated its_run

-- A tie of the metadata is never settled, even with one run.
tied :
    canonical_validation_run decisions (record metadata { tie = true }) (validated ∷ []) 2 100
    ≡ tied_runs (validated ∷ [])
unfolding canonical_validation_run link_at one_of best
tied = refl
