-- ===== src/AsOf/Visible.antt =====
-- worker/financial_asof/selection.py: what a query may look at: the document versions that its mode
-- shows (step 1 of `_recomputed`), the documents that are held but not yet available, and the canonical
-- validation run of an F5 run.
--
-- The evidence is the F5 runs and each filing's F1 observations. A version set, an issuer decision and
-- a publication time are numbers; the merged metadata of a filing (metadata.py) is a parameter.
pub mod Shown
pub mod Validated
mod Tests
use cse_analysis.Base.{
  ℕ, Bool, true, false, not, ◌&&◌, ◌||◌, Option, none, some, List, [], ◌∷◌, map, leb, ◌==◌,
  if◌then◌else◌, any, keep, null?,
}
use cse_analysis.AsOf.Availability.{
  Seen, Run, VersionAvailability, version_availability, recorded_by, observed_by, document_at,
  latest,
}

-- The recomputed modes (query.py)
pub data Mode : Type 0 where
  known available current : Mode

pub record Evidence : Type 0 where
  pub runs : List Run
  pub seen_of : ℕ → List Seen

abbrev pub of_filing : ℕ → Run → Bool
of_filing f r = r.filing == f

-- `Cache.version`
unfoldable pub version : Evidence → ℕ → ℕ → ℕ → Option VersionAvailability
version e horizon f sha = version_availability (e.seen_of f) (keep (of_filing f) e.runs) sha horizon

abbrev pub time_of : Option VersionAvailability → Option ℕ
time_of none = none
time_of (some v) = v.at

-- The test of `visible`, at a time of availability; it is also the one that `_recomputed` repeats for
-- each document.
abbrev pub visible_at : Mode → ℕ → Option ℕ → Bool
visible_at known cutoff none = true
visible_at known cutoff (some t) = leb t cutoff
visible_at available cutoff none = false
visible_at available cutoff (some t) = leb t cutoff
visible_at current cutoff at = true

unfoldable pub visible : Mode → ℕ → Evidence → ℕ → Run → Bool
unfolding version
visible mode cutoff e horizon r =
    visible_at mode cutoff (time_of (version e horizon r.filing r.document))

abbrev pub known_runs : Evidence → ℕ → List Run
known_runs e horizon = keep (recorded_by horizon) e.runs

unfoldable pub shown : Mode → ℕ → Evidence → ℕ → List Run
shown mode cutoff e horizon = keep (visible mode cutoff e horizon) (known_runs e horizon)

abbrev pub is_in : ℕ → List ℕ → Bool
is_in s xs = any (λ x. x == s) xs

abbrev pub distinct : List ℕ → List ℕ
distinct [] = []
distinct (x ∷ xs) = let rest = distinct xs in if is_in x rest then rest else x ∷ rest

abbrev pub has_document : ℕ → Run → Bool
has_document sha r = r.document == sha

-- `filings_of`
unfoldable pub filings_of : List Run → ℕ → List ℕ
filings_of rs sha = distinct (map (λ r. r.filing) (keep (has_document sha) rs))

-- `documents`: the time of a document over its filings that are shown (`Cache.document`)
unfoldable pub document_time : Mode → ℕ → Evidence → ℕ → ℕ → Option ℕ
unfolding filings_of
document_time mode cutoff e horizon sha =
    document_at
      (map (λ f. time_of (version e horizon f sha)) (filings_of (shown mode cutoff e horizon) sha))

-- `pending`: in the mode KNOWN, the runs that are held, but of documents that are not yet available
unfoldable pub pending_runs : ℕ → Evidence → ℕ → List Run
unfolding filings_of
pending_runs cutoff e horizon =
    keep
      (λ r.
        not (visible known cutoff e horizon r)
        && null? (filings_of (shown known cutoff e horizon) r.document))
      (known_runs e horizon)

-- A row of `financial_validation_runs`
pub record ValidationRun : Type 0 where
  pub key : ℕ
  pub versions : ℕ
  pub recorded_at : ℕ
  pub issuer_link_id : Option ℕ
  pub publication_uploaded_at : Option ℕ

-- An issuer decision of a filing
pub record Decision : Type 0 where
  pub id : ℕ
  pub decided_at : ℕ

-- `MetadataAsOf`, with the first of its upload times apart
pub record MetadataAsOf : Type 0 where
  pub uploaded_at : Option ℕ
  pub others : List (Option ℕ)
  pub tie : Bool
  pub unenumerated : Bool

pub data Canonical : Type 0 where
  one : ValidationRun → Canonical
  tied_runs : List ValidationRun → Canonical
  no_run several : Canonical

abbrev same_time : Option ℕ → Option ℕ → Bool
same_time none none = true
same_time (some a) (some b) = a == b
same_time _ _ = false

abbrev pub decided_by : ℕ → Decision → Bool
decided_by horizon d = leb d.decided_at horizon

-- The highest decision by the horizon
unfoldable pub link_at : List Decision → ℕ → Option ℕ
link_at ds horizon = latest (map (λ d. d.id) (keep (decided_by horizon) ds))

abbrev pub admits : ℕ → ℕ → Option ℕ → ValidationRun → Bool
admits versions horizon link v =
    (v.versions == versions) && (leb v.recorded_at horizon && same_time v.issuer_link_id link)

abbrev pub published : Option ℕ → ValidationRun → Bool
published t v = same_time v.publication_uploaded_at t

abbrev pub may_be : MetadataAsOf → ValidationRun → Bool
may_be m v = m.unenumerated || (published m.uploaded_at v || any (λ t. published t v) m.others)

unfoldable pub one_of : List ValidationRun → Canonical
one_of [] = no_run
one_of (v ∷ []) = one v
one_of (v ∷ w ∷ vs) = several

-- `canonical_validation_run`, but for the order of tied runs; `several` is the `EvidenceError`.
unfoldable pub canonical_validation_run :
    List Decision → MetadataAsOf → List ValidationRun → ℕ → ℕ → Canonical
unfolding one_of link_at
canonical_validation_run ds meta vs versions horizon =
    let held = keep (admits versions horizon (link_at ds horizon)) vs in
    if meta.tie
    then tied_runs (keep (may_be meta) held)
    else one_of (keep (published meta.uploaded_at) held)
