-- ===== src/Backfill/Documents.antt =====
-- What moves a document's work item: worker/backfill_documents/planning.py (its creation and its
-- promotion from evidence), outcomes.py of the same package (what one retrieval means for it), and
-- worker/backfill_f6/promotion.py and readiness.py (its promotion from validations, and when its
-- issuer may be reconciled).
--
-- Paths, digests, filings, issuers and runs are numbers. The digest of a path and the acceptance of a
-- path (`resolve_candidates` of worker/document_retrieval.py) are parameters. What a query of the
-- database finds stands in the items, filings and evidence; `promote` is the event that is appended.
pub mod Legal
pub mod Ready
mod Tests
use Prim.Native.String.{String}
use cse_analysis.Base.{
  ℕ, ◌+◌, Bool, true, false, not, ◌&&◌, ◌||◌, Option, none, some, List, [], ◌∷◌, ltb, leb, ◌==◌,
  if◌then◌else◌, any, all, keep, map, is_some, is_none, null?,
}
use cse_analysis.Scheduler.Schedule.{colombo_moment}
use cse_analysis.Backfill.States.{
  Kind, State, Action, discovered, pending, retry_wait, excluded, persisted, retrieval_failed,
  consumer_failed, cleanup_failed, failed, validated, reconciled, needs_validation, promote,
  record_outcome, is_final, document,
}

-- `window_bounds` (worker/backfill_discovery/plan.py): from the first day to the end of the last
unfoldable pub window_bounds : ℕ × ℕ → ℕ × ℕ
unfolding colombo_moment
window_bounds w = (colombo_moment w.0 0, colombo_moment (w.1 + 1) 0)

unfoldable pub in_window : Option ℕ → ℕ × ℕ → Bool
unfolding window_bounds
in_window none w = false
in_window (some t) w = leb (window_bounds w).0 t && ltb t (window_bounds w).1

pub record Filing : Type 0 where
  pub cse_filing_id : ℕ
  pub path : Option ℕ
  pub uploaded_at : Option ℕ
  pub issuer_id : Option ℕ

-- An item with its state and its filing's current path and upload time
pub record DocumentItem : Type 0 where
  pub filing : ℕ
  pub path_sha256 : Option ℕ
  pub state : State
  pub path : Option ℕ
  pub uploaded_at : Option ℕ

-- `first_state`: the state and the reason of a new item
unfoldable pub first_state : (ℕ → Bool) → Filing → State × Option String
first_state accepts f =
    if is_none f.uploaded_at then (excluded, some "window_undetermined") else elim f.path [
      | none ↦ (excluded, some "no_document")
      | some p ↦ if accepts p then (discovered, none) else (excluded, some "invalid_path")
    ]

abbrev same_version : Option ℕ → ℕ → Bool
same_version none d = false
same_version (some v) d = d == v

-- `path_is_current`
unfoldable pub path_is_current : (ℕ → ℕ) → DocumentItem → Bool
path_is_current sha256 item = elim item.path [
  | none ↦ false
  | some p ↦ same_version item.path_sha256 (sha256 p)
]

-- What `plan_documents` does with one item: it promotes, records an anomaly, or does nothing.
pub data Planned : Type 0 where
  promoted : State → Action → String → Planned
  superseded window_changed untouched : Planned

abbrev is_discovered : State → Bool
is_discovered discovered = true
is_discovered _ = false

-- The loop's body past the tests of a discovered item's date; the Boolean is whether a run is evidence.
pub plan_current : (ℕ → ℕ) → ℕ × ℕ → Bool → DocumentItem → Planned
plan_current sha256 w evidenced item =
    if not (path_is_current sha256 item)
    then superseded
    else if not (is_discovered item.state) && not (in_window item.uploaded_at w)
    then window_changed
    else if evidenced
    then promoted persisted promote "evidence: an F5 run of this document under the armed versions"
    else if is_discovered item.state
    then promoted pending promote "eligible: in W, discovery closed, no F5 run of this document"
    else untouched

unfoldable pub plan_item : (ℕ → ℕ) → ℕ × ℕ → Bool → DocumentItem → Planned
plan_item sha256 w evidenced item =
    if is_discovered item.state && is_none item.uploaded_at
    then promoted excluded record_outcome "window_undetermined"
    else if is_discovered item.state && not (in_window item.uploaded_at w)
    then promoted excluded record_outcome "out_of_window"
    else plan_current sha256 w evidenced item

-- `document_items(conn, ("discovered", "pending", "retry_wait"))`
abbrev pub is_planned : State → Bool
is_planned discovered = true
is_planned pending = true
is_planned retry_wait = true
is_planned _ = false

-- Outcomes and categories of a retrieval record (worker/document_retrieval.py), as outcomes.py tells
-- them apart.
pub data RetrievalOutcome : Type 0 where
  succeeded consumer_fail no_document invalid_path internal_error hash_failed : RetrievalOutcome
  validation_failed download_failed cleanup_fail other_outcome : RetrievalOutcome

pub data Category : Type 0 where
  terminal_category retryable_category unexpected_status temp_root other_category : Category

pub record RetrievalRecord : Type 0 where
  pub outcome : RetrievalOutcome
  pub category : Category
  pub consumer_succeeded : Bool
  pub cleanup_deleted : Bool
  pub cleanup_status_failed : Bool
  pub http_status : Option ℕ

pub data Disposition : Type 0 where
  cleanup leftover persist consumer terminal retryable local : Disposition

abbrev is_status : Option ℕ → ℕ → Bool
is_status none n = false
is_status (some s) n = s == n

download_disposition : Category → Option ℕ → Disposition
download_disposition temp_root status = local
download_disposition retryable_category status = retryable
download_disposition unexpected_status status = if is_status status 429 then retryable else terminal
download_disposition _ status = terminal

abbrev is_cleanup_fail : RetrievalOutcome → Bool
is_cleanup_fail cleanup_fail = true
is_cleanup_fail _ = false

outcome_disposition : RetrievalRecord → Disposition
unfolding download_disposition
outcome_disposition r = elim r.outcome [
  | succeeded ↦ if r.consumer_succeeded && r.cleanup_deleted then persist else cleanup
  | consumer_fail ↦ consumer
  | hash_failed ↦ retryable
  | validation_failed ↦ elim r.category [ terminal_category ↦ terminal | _ ↦ retryable ]
  | download_failed ↦ download_disposition r.category r.http_status
  | _ ↦ terminal
]

unfoldable pub disposition : RetrievalRecord → Bool → Disposition
unfolding outcome_disposition
disposition r leftovers =
    if r.cleanup_status_failed || is_cleanup_fail r.outcome
    then cleanup
    else if leftovers
    then leftover
    else outcome_disposition r

-- `live_state`; `none` is the `ValueError`
unfoldable pub live_state : Disposition → ℕ → ℕ → Option State
live_state terminal claims item_max = some retrieval_failed
live_state retryable claims item_max =
    if ltb claims item_max then some retry_wait else some retrieval_failed
live_state local claims item_max = some retry_wait
live_state _ claims item_max = none

abbrev waits_validation : State → Bool
waits_validation needs_validation = true
waits_validation _ = false

abbrev enters_validated : State → Bool
enters_validated persisted = true
enters_validated needs_validation = true
enters_validated _ = false

abbrev is_validated : State → Bool
is_validated validated = true
is_validated _ = false

abbrev only : Bool → State → List State
only true s = s ∷ []
only false s = []

-- `decide` (promotion.py); the canonical validation run counts only as present or not
unfoldable pub decide_promotion : State → Bool → Bool → Bool → List State
decide_promotion state canonical ever_validated reconciled_now =
    if not canonical
    then only (ever_validated && not (waits_validation state)) needs_validation
    else if enters_validated state
    then validated ∷ only reconciled_now reconciled
    else only (is_validated state && reconciled_now) reconciled

-- `FAMILY` and `PERSISTED`
abbrev pub is_persisted_family : State → Bool
is_persisted_family persisted = true
is_persisted_family validated = true
is_persisted_family reconciled = true
is_persisted_family needs_validation = true
is_persisted_family _ = false

-- `FINAL_DOCUMENT`
unfoldable pub is_final_document : State → Bool
unfolding is_final
is_final_document s = is_final document s || is_persisted_family s

-- An entry of `Readiness.filings`
pub record Judged : Type 0 where
  pub filing : ℕ
  pub issuer_id : Option ℕ
  pub state : Option State
  pub final : Bool

abbrev pub first_of {ℓ} : {A : Type ℓ} → List A → Option A
first_of [] = none
first_of (x ∷ xs) = some x

-- `current_item`
unfoldable pub current_item : (ℕ → ℕ) → List DocumentItem → Filing → Option DocumentItem
current_item sha256 items f = elim f.path [
  | none ↦ first_of (keep (λ i. (i.filing == f.cse_filing_id) && is_none i.path_sha256) items)
  | some p ↦
      first_of
        (keep (λ i. (i.filing == f.cse_filing_id) && same_version i.path_sha256 (sha256 p)) items)
]

pub final_state : Option State → Bool
unfolding is_final_document
final_state none = false
final_state (some s) = is_final_document s

unfoldable pub judge : (ℕ → ℕ) → List DocumentItem → Filing → Judged
unfolding current_item final_state
judge sha256 items f =
    let state = elim (current_item sha256 items f) as (λ _. Option State) [
      | none ↦ none
      | some i ↦ some i.state
    ] in
    record {
      filing = f.cse_filing_id;
      issuer_id = f.issuer_id;
      state = state;
      final = final_state state;
    }

-- `evaluate` (readiness.py)
unfoldable pub evaluate : (ℕ → ℕ) → List Filing → List DocumentItem → ℕ × ℕ → List Judged
evaluate sha256 filings items w =
    map (judge sha256 items) (keep (λ f. in_window f.uploaded_at w) filings)

abbrev pub of_issuer : Option ℕ → Judged → Bool
of_issuer none j = true
of_issuer (some i) j = elim j.issuer_id [ none ↦ false | some k ↦ k == i ]

-- `open_filings`, of one issuer or of all
unfoldable pub open_filings : List Judged → Option ℕ → List Judged
open_filings js issuer = keep (λ j. not j.final && of_issuer issuer j) js

unfoldable pub issuer_ready : List Judged → ℕ → Bool
unfolding open_filings
issuer_ready js i = null? (open_filings js (some i))

unfoldable pub all_final : List Judged → Bool
unfolding open_filings
all_final js = null? (open_filings js none)
