-- ===== src/AsOf/Query.antt =====
-- worker/financial_asof/query.py: the query with its refusals and horizons, and pit.py of the same
-- package: the point-in-time interfaces on its results.
--
-- Issuers, configurations and hashes are numbers; whether one is a well-formed identifier is a
-- parameter. A timestamp is a datetime, aware or naive, in microseconds of UTC; texts that are no
-- timestamp and the filter of facts are left out. `evaluate` is a parameter, with `verified` for
-- whether a result re-proves its hash.
pub mod Timeline
mod Tests
use cse_analysis.Base.{
  ℕ, Bool, true, false, not, ◌&&◌, ◌||◌, Option, none, some, List, [], ◌∷◌, ltb, ◌==◌,
  if◌then◌else◌, all, is_none, is_some,
}
use cse_analysis.Scheduler.Schedule.{Datetime, aware, naive}

pub data QueryMode : Type 0 where
  known_recorded known available current : QueryMode

pub data Label : Type 0 where
  recorded_label known_label reconstructed retrospective_current : Label

-- `LABELS`
abbrev pub label_of : QueryMode → Label
label_of known_recorded = recorded_label
label_of known = known_label
label_of available = reconstructed
label_of current = retrospective_current

pub data Refused : Type 0 where
  unknown_mode identity_unresolved naive_timestamp invalid_configuration : Refused
  cutoff_not_allowed cutoff_required horizon_not_allowed horizon_before_cutoff : Refused
  horizon_required current_not_point_in_time not_live_mode : Refused
  result_hash_mismatch empty_dataset mixed_modes : Refused
  by_evaluation : ℕ → Refused

pub data Answer {ℓ} (A : Type ℓ) : Type ℓ where
  refused : Refused → Answer A
  answer : A → Answer A

infixl 40 ◌>>=◌
abbrev pub ◌>>=◌ {ℓ κ} : {A : Type ℓ} {B : Type κ} → Answer A → (A → Answer B) → Answer B
refused r >>= f = refused r
answer a >>= f = f a

-- `LIVE_MODES` and `POINT_IN_TIME_MODES`
abbrev pub is_live : QueryMode → Bool
is_live known_recorded = true
is_live known = true
is_live _ = false

abbrev pub is_current : QueryMode → Bool
is_current current = true
is_current _ = false

abbrev pub is_available : QueryMode → Bool
is_available available = true
is_available _ = false

abbrev pub is_point_in_time : QueryMode → Bool
is_point_in_time m = not (is_current m)

pub record Query : Type 0 where
  pub issuer_id : ℕ
  pub mode : QueryMode
  pub information_cutoff : Option ℕ
  pub knowledge_horizon : Option ℕ
  pub f8_configuration_id : Option ℕ

-- `Query.governing_horizon`
unfoldable pub governing_horizon : Query → Option ℕ
governing_horizon q = if is_live q.mode then q.information_cutoff else q.knowledge_horizon

-- `optional_instant`
unfoldable pub optional_instant : Option Datetime → Answer (Option ℕ)
optional_instant none = answer none
optional_instant (some (aware t)) = answer (some t)
optional_instant (some (naive t)) = refused naive_timestamp

abbrev pub is_before : Option ℕ → Option ℕ → Bool
is_before (some h) (some t) = ltb h t
is_before _ _ = false

-- The refusals of `query` that compare its mode with its times
unfoldable pub check_times : QueryMode → Option ℕ → Option ℕ → Answer Bool
check_times m t h =
    if is_current m && is_some t
    then refused cutoff_not_allowed
    else if not (is_current m) && is_none t
    then refused cutoff_required
    else if is_live m && is_some h
    then refused horizon_not_allowed
    else if is_available m && is_before h t
    then refused horizon_before_cutoff
    else answer true

abbrev pub holds : Refused → Bool → Answer Bool
holds r b = if b then answer true else refused r

abbrev pub known_mode : Option QueryMode → Answer QueryMode
known_mode none = refused unknown_mode
known_mode (some m) = answer m

abbrev pub as_datetime : Option ℕ → Option Datetime
as_datetime none = none
as_datetime (some t) = some (aware t)

module _ (is_issuer is_configuration : ℕ → Bool) where
  abbrev pub configuration_fits : Option ℕ → Bool
  configuration_fits none = true
  configuration_fits (some c) = is_configuration c

  -- `query`
  unfoldable pub query :
      ℕ → Option QueryMode → Option Datetime → Option Datetime → Option ℕ → Answer Query
  query issuer mode cutoff horizon configuration = do
    m ← known_mode mode
    _ ← holds identity_unresolved (is_issuer issuer)
    t ← optional_instant cutoff
    h ← optional_instant horizon
    _ ← check_times m t h
    _ ← holds invalid_configuration (configuration_fits configuration)
    answer (record {
      issuer_id = issuer;
      mode = m;
      information_cutoff = t;
      knowledge_horizon = h;
      f8_configuration_id = configuration;
    })

  -- `Query.with_cutoff`
  unfoldable pub with_cutoff : Query → Datetime → Answer Query
  unfolding query
  with_cutoff q cutoff =
      query q.issuer_id (some q.mode) (some cutoff) (as_datetime q.knowledge_horizon)
        q.f8_configuration_id

-- `AsOfResult`, as far as the interfaces read it
pub record AsOfResult : Type 0 where
  pub mode : QueryMode
  pub label : Label
  pub result_hash : ℕ
  pub verified : Bool

abbrev pub is_labelled : QueryMode → Label → Bool
is_labelled known_recorded recorded_label = true
is_labelled known known_label = true
is_labelled available reconstructed = true
is_labelled current retrospective_current = true
is_labelled _ _ = false

unfoldable pub require_point_in_time : AsOfResult → Answer AsOfResult
require_point_in_time r =
    if not r.verified
    then refused result_hash_mismatch
    else if not (is_point_in_time r.mode) || not (is_labelled r.mode r.label)
    then refused current_not_point_in_time
    else answer r

unfoldable pub require_live : AsOfResult → Answer AsOfResult
unfolding require_point_in_time
require_live r = do
  p ← require_point_in_time r
  if is_live p.mode then answer p else refused not_live_mode

abbrev pub same_mode : QueryMode → QueryMode → Bool
same_mode m n = is_labelled m (label_of n)

-- The loop of `dataset`: every result, or the first refusal
unfoldable pub require_all : List AsOfResult → Answer (List AsOfResult)
unfolding require_point_in_time
require_all [] = answer []
require_all (r ∷ rs) = do p ← require_point_in_time r; ps ← require_all rs; answer (p ∷ ps)

pub record PointInTimeDataset : Type 0 where
  pub mode : QueryMode
  pub label : Label
  pub results : List AsOfResult

unfoldable pub dataset : List AsOfResult → Answer PointInTimeDataset
unfolding require_all
dataset [] = refused empty_dataset
dataset (r ∷ rs) = do
  ps ← require_all (r ∷ rs)
  _ ← holds mixed_modes (all (λ s. same_mode r.mode s.mode) rs)
  answer (record { mode = r.mode; label = label_of r.mode; results = ps })

module _ (is_issuer is_configuration : ℕ → Bool) (evaluate : Query → Answer AsOfResult) where
  -- One cutoff of `timeline`
  unfoldable pub at_cutoff : Query → Datetime → Answer AsOfResult
  unfolding with_cutoff require_point_in_time
  at_cutoff base cutoff = do
    q ← with_cutoff is_issuer is_configuration base cutoff
    _ ← holds horizon_required (not (is_available q.mode && is_none q.knowledge_horizon))
    r ← evaluate q
    require_point_in_time r

  unfoldable pub at_cutoffs : Query → List Datetime → Answer (List AsOfResult)
  unfolding at_cutoff
  at_cutoffs base [] = answer []
  at_cutoffs base (d ∷ ds) = do r ← at_cutoff base d; rs ← at_cutoffs base ds; answer (r ∷ rs)

  -- `timeline`
  unfoldable pub timeline : Query → List Datetime → Answer (List AsOfResult)
  unfolding at_cutoffs
  timeline base ds =
      if is_current base.mode then refused current_not_point_in_time else at_cutoffs base ds
