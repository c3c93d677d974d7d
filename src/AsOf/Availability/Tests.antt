-- ===== src/AsOf/Availability/Tests.antt =====
-- When document versions became public: the theorems about it.
use mathlib.Core.List.{Memᴰ}
use cse_analysis.Base.{ℕ, ◌≤◌, ◌≡◌, refl, true, Option, none, some, List, [], ◌∷◌}
use cse_analysis.AsOf.Availability.{
  Seen, SourceInstant, Run, VersionAvailability, listing, upload, instant, version_availability,
  filing_availability, version_by, filing_by, role_of, role_among, version_at, effective_of,
  date_of, colombo_end_of_day, is_colombo_midnight, precision_at, instants_of,
}
use cse_analysis.Truth.Values.{best}
use cse_analysis.AsOf.Availability.Floors.{version-not_early}
use cse_analysis.Scheduler.Schedule.{colombo_moment}

abbrev listed : Seen
listed = record {
  id = 1;
  observed_at = 90;
  source = 5;
  endpoint = listing;
  uploaded = some (some 40);
  authorized = some none;
}

abbrev amended : Seen
amended = record {
  id = 2;
  observed_at = 200;
  source = 5;
  endpoint = listing;
  uploaded = some (some 60);
  authorized = none;
}

abbrev seen : List Seen
seen = listed ∷ amended ∷ []

abbrev first_run : Run
first_run = record {
  f5_run_id = 1;
  filing = 7;
  document = 3;
  recorded_at = 95;
  cdn_last_modified = some 70;
  path_epoch_at = none;
  document_retrieved_at = some 92;
}

abbrev second_run : Run
second_run = record first_run {
  f5_run_id = 2;
  document = 4;
  recorded_at = 97;
  cdn_last_modified = some 80;
  document_retrieved_at = some 96;
}

abbrev runs : List Run
runs = first_run ∷ second_run ∷ []

abbrev at_of : Option VersionAvailability → Option ℕ
at_of none = none
at_of (some va) = va.at

unfoldable of_second : VersionAvailability
unfolding best version_availability version_by filing_availability filing_by role_of role_among
    version_at effective_of date_of colombo_end_of_day is_colombo_midnight colombo_moment
    precision_at
of_second = elim (version_availability seen runs 4 100) [
  | some va ↦ va
  | none ↦ record {
    at = none;
    role = role_of [] 0;
    basis = (version_at (role_of [] 0) none []).1;
    last_modified_after_upload = true;
    filing = filing_by [];
    last_modified = none;
    path_epoch = none;
  }
]

abbrev its_upload : SourceInstant
its_upload = record {
  kind = upload;
  endpoint = listing;
  value = 40;
  effective = 40;
  precision = instant;
}

-- The base document is available from its upload, a later one from its own modification.
base_time : at_of (version_availability seen runs 3 100) ≡ some 40
unfolding best version_availability version_by filing_availability filing_by role_of role_among
    version_at effective_of date_of colombo_end_of_day is_colombo_midnight colombo_moment
    precision_at
base_time = refl

of_second-eq : version_availability seen runs 4 100 ≡ some of_second
unfolding of_second
of_second-eq = refl

of_second-at : of_second.at ≡ some 80
unfolding best of_second
of_second-at = refl

its_upload-mem : Memᴰ its_upload (instants_of listed)
unfolding effective_of date_of colombo_end_of_day is_colombo_midnight colombo_moment
its_upload-mem = Memᴰ.head refl

version-not_early_example : 40 ≤ 80
version-not_early_example =
    version-not_early seen runs 4 100 of_second 80 listed its_upload of_second-eq of_second-at
      (Memᴰ.head refl) refl its_upload-mem

first_time : (filing_availability seen 100).at ≡ some 40
unfolding best filing_availability filing_by effective_of date_of colombo_end_of_day
    is_colombo_midnight colombo_moment
first_time = refl
