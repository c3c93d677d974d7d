-- ===== src/AsOf/Availability.antt =====
-- worker/financial_asof/availability.py and times.py: when a document version became public, as known
-- at an evidence horizon.
--
-- Moments are microseconds, as in Scheduler.Schedule; filings, documents, runs, observations and
-- sources are numbers. An observation carries the two fields that `parse_listing_item`
-- (worker/report_discovery.py) reads from it; one that it rejects, an `EvidenceError`, is left out, and
-- so are the hash of the evidence and the raw texts. A set of flags is a Boolean for each flag.
pub mod Floors
pub mod Horizon
mod Tests
use cse_analysis.Base.{
  ℕ, suc, ◌+◌, ◌%◌, ◌/◌, ◌-◌, Bool, true, false, not, ◌&&◌, ◌||◌, Option, none, some, List, [], ◌∷◌,
  ◌++◌, map, leb, ltb, ◌==◌, if◌then◌else◌, any, all, keep, null?, length, is_some, is_none,
}
use cse_analysis.Scheduler.Schedule.{colombo_us, day_us, colombo_moment}
use cse_analysis.Truth.Values.{best, minimum}
use cse_analysis.Truth.Observations.{any_pair}
use cse_analysis.AsOf.Supersession.{gather}

-- `colombo_date`, `colombo_end_of_day` and `is_colombo_midnight` (times.py)
unfoldable pub date_of : ℕ → ℕ
date_of t = (t + colombo_us) / day_us

unfoldable pub colombo_end_of_day : ℕ → ℕ
unfolding colombo_moment
colombo_end_of_day day = colombo_moment (day + 1) 0

unfoldable pub is_colombo_midnight : ℕ → Bool
is_colombo_midnight t = (t + colombo_us) % day_us == 0

-- A-3
unfoldable pub effective_of : ℕ → ℕ
unfolding date_of colombo_end_of_day is_colombo_midnight
effective_of t = if is_colombo_midnight t then colombo_end_of_day (date_of t) else t

pub data Endpoint : Type 0 where
  feed listing other_endpoint : Endpoint

pub data InstantKind : Type 0 where
  upload authorization : InstantKind

abbrev same_kind : InstantKind → InstantKind → Bool
same_kind upload upload = true
same_kind authorization authorization = true
same_kind _ _ = false

pub data Precision : Type 0 where
  instant day : Precision

abbrev pub is_instant : Precision → Bool
is_instant instant = true
is_instant day = false

-- An F1 observation; a field is absent, or present with a value or without.
pub record Seen : Type 0 where
  pub id : ℕ
  pub observed_at : ℕ
  pub source : ℕ
  pub endpoint : Endpoint
  pub uploaded : Option (Option ℕ)
  pub authorized : Option (Option ℕ)

pub record SourceInstant : Type 0 where
  pub kind : InstantKind
  pub endpoint : Endpoint
  pub value : ℕ
  pub effective : ℕ
  pub precision : Precision

abbrev instant_of : Endpoint → InstantKind → Option (Option ℕ) → List SourceInstant
instant_of e k (some (some v)) =
    record {
      kind = k;
      endpoint = e;
      value = v;
      effective = effective_of v;
      precision = if is_colombo_midnight v then day else instant;
    }
    ∷ []
instant_of e k _ = []

-- `_instants`: the values, and with each field that is present what it holds
abbrev pub instants_of : Seen → List SourceInstant
instants_of o =
    instant_of o.endpoint upload o.uploaded ++ instant_of o.endpoint authorization o.authorized

pub record Present : Type 0 where
  pub source : ℕ
  pub kind : InstantKind
  pub held : Option ℕ

abbrev present_of : ℕ → InstantKind → Option (Option ℕ) → List Present
present_of s k none = []
present_of s k (some v) = record { source = s; kind = k; held = v } ∷ []

abbrev presents : Seen → List Present
presents o = present_of o.source upload o.uploaded ++ present_of o.source authorization o.authorized

abbrev same_held : Option ℕ → Option ℕ → Bool
same_held none none = true
same_held (some a) (some b) = a == b
same_held _ _ = false

-- Two observations of one source hold different values of a kind.
abbrev changed : Present → Present → Bool
changed a b = (a.source == b.source) && (same_kind a.kind b.kind && not (same_held a.held b.held))

abbrev is_feed : Endpoint → Bool
is_feed feed = true
is_feed _ = false

abbrev is_listing : Endpoint → Bool
is_listing listing = true
is_listing _ = false

-- `abs(a - b) >= DISAGREE`, one second
abbrev apart : ℕ → ℕ → Bool
apart a b = leb (a + 1000000) b || leb (b + 1000000) a

abbrev disagrees_with : SourceInstant → SourceInstant → Bool
disagrees_with a b =
    (is_feed a.endpoint && is_listing b.endpoint)
    && (same_kind a.kind b.kind && apart a.value b.value)

abbrev pub latest : List ℕ → Option ℕ
latest = best (λ a b. ltb b a)

pub record FilingAvailability : Type 0 where
  pub at : Option ℕ
  pub precision : Option Precision
  pub instants : List SourceInstant
  pub evidence_changed : Bool
  pub sources_disagree : Bool

abbrev pub observed_by : ℕ → Seen → Bool
observed_by horizon o = leb o.observed_at horizon

unfoldable pub precision_at : ℕ → List SourceInstant → Precision
precision_at at is =
    if any (λ i. (i.effective == at) && is_instant i.precision) is then instant else day

-- `filing_availability` of the filing's observations by the horizon
unfoldable pub filing_by : List Seen → FilingAvailability
unfolding precision_at
filing_by rows =
    let is = gather instants_of rows in
    let at = latest (map (λ i. i.effective) is) in
    record {
      at = at;
      precision = elim at as (λ _. Option Precision) [
        | none ↦ none
        | some t ↦ some (precision_at t is)
      ];
      instants = is;
      evidence_changed = any_pair changed (gather presents rows);
      sources_disagree = any (λ a. any (disagrees_with a) is) is;
    }

unfoldable pub filing_availability : List Seen → ℕ → FilingAvailability
unfolding filing_by
filing_availability seen horizon = filing_by (keep (observed_by horizon) seen)

-- An F5 run of a filing, as far as availability reads it
pub record Run : Type 0 where
  pub f5_run_id : ℕ
  pub filing : ℕ
  pub document : ℕ
  pub recorded_at : ℕ
  pub cdn_last_modified : Option ℕ
  pub path_epoch_at : Option ℕ
  pub document_retrieved_at : Option ℕ

abbrev pub recorded_by : ℕ → Run → Bool
recorded_by horizon r = leb r.recorded_at horizon

abbrev pub of_document : ℕ → Run → Bool
of_document sha r = r.document == sha

abbrev is_in : ℕ → List ℕ → Bool
is_in s xs = any (λ x. x == s) xs

-- The keys of `versions_of_filing`
abbrev pub documents : List Run → List ℕ
documents [] = []
documents (r ∷ rs) =
    let rest = documents rs in if is_in r.document rest then rest else r.document ∷ rest

abbrev pub present_times : List (Option ℕ) → List ℕ
present_times [] = []
present_times (none ∷ ts) = present_times ts
present_times (some t ∷ ts) = t ∷ present_times ts

abbrev pub first_retrieval : List Run → ℕ → Option ℕ
first_retrieval runs sha =
    minimum (present_times (map (λ r. r.document_retrieved_at) (keep (of_document sha) runs)))

pub data Role : Type 0 where
  base later unordered : Role

abbrev is_time : Option ℕ → Option ℕ → Bool
is_time (some a) (some b) = a == b
is_time _ _ = false

-- `_roles`, of one document, once each has a retrieval time
unfoldable pub role_among : List ℕ → List Run → ℕ → Role
role_among shas runs sha =
    let earliest = minimum (present_times (map (first_retrieval runs) shas)) in
    let leaders = keep (λ s. is_time (first_retrieval runs s) earliest) shas in
    if not (length leaders == 1) then unordered else if is_in sha leaders then base else later

-- `_roles`, of one document, over the runs of a filing by the horizon
unfoldable pub role_of : List Run → ℕ → Role
unfolding role_among
role_of runs sha =
    if length (documents runs) == 1
    then base
    else if any (λ s. is_none (first_retrieval runs s)) (documents runs)
    then unordered
    else role_among (documents runs) runs sha

pub data Basis : Type 0 where
  filing_instants later_version no_cse_instant later_version_without_document_time : Basis

pub record VersionAvailability : Type 0 where
  pub at : Option ℕ
  pub role : Role
  pub basis : Basis
  pub last_modified_after_upload : Bool
  pub filing : FilingAvailability
  pub last_modified : Option ℕ
  pub path_epoch : Option ℕ

-- `_latest`, of one field over a version's runs
abbrev pub latest_of : (Run → Option ℕ) → List Run → Option ℕ
latest_of field runs = latest (present_times (map field runs))

-- A-5: the time and its basis
unfoldable pub version_at : Role → Option ℕ → List ℕ → Option ℕ × Basis
version_at role none times = (none, no_cse_instant)
version_at base (some f) times = (some f, filing_instants)
version_at _ (some f) [] = (none, later_version_without_document_time)
version_at _ (some f) (t ∷ ts) = (latest (f ∷ t ∷ ts), later_version)

abbrev after : Option ℕ → Option ℕ → Bool
after (some a) (some b) = ltb b a
after _ _ = false

-- `version_availability`, past the reads of the evidence; `none` is the `EvidenceError` on a version
-- with no run.
unfoldable pub version_by : FilingAvailability → List Run → ℕ → Option VersionAvailability
unfolding version_at
version_by filing runs sha =
    let mine = keep (of_document sha) runs in
    let last_modified = latest_of (λ r. r.cdn_last_modified) mine in
    let path_epoch = latest_of (λ r. r.path_epoch_at) mine in
    let role = role_of runs sha in
    let out = version_at role filing.at (present_times (last_modified ∷ path_epoch ∷ [])) in
    if null? mine
    then none
    else some (record {
      at = out.0;
      role = role;
      basis = out.1;
      last_modified_after_upload =
          after last_modified
            (latest (map (λ i. i.effective) (keep (λ i. same_kind i.kind upload) filing.instants)));
      filing = filing;
      last_modified = last_modified;
      path_epoch = path_epoch;
    })

-- `version_availability` over a filing's observations and runs
unfoldable pub version_availability : List Seen → List Run → ℕ → ℕ → Option VersionAvailability
unfolding version_by
version_availability seen runs sha horizon =
    version_by (filing_availability seen horizon) (keep (recorded_by horizon) runs) sha

-- `document_availability`: its time (A-6)
unfoldable pub document_at : List (Option ℕ) → Option ℕ
document_at ats = minimum (present_times ats)
