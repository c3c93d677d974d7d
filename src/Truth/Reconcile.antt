-- ===== src/Truth/Reconcile.antt =====
-- worker/financial_truth/reconciliation.py: `reconcile_fact`, the state and value that F6 concludes
-- for one fact from the source observations of several documents.
--
-- Left out are the annotations, which never change the state, the hashes and the references that a
-- result carries along.
pub mod Overlap
pub mod Sound
use cse_analysis.Base.{
  ℕ, suc, Bool, true, false, not, ◌&&◌, ◌||◌, Option, none, some, List, [], ◌∷◌, ◌++◌, map, leb,
  ltb, ◌==◌, if◌then◌else◌, any, all, null?, sort_by, length,
}
use cse_analysis.Base.Int.{ℤ, ltb_ℤ}
use cse_analysis.Truth.Values.{
  ValueResult, Member, ValueKind, numeric, nil, Entry, finest, differ, lowest, highest,
}
use cse_analysis.Truth.Observations.{
  Observation, ObservationStatus, internally_conflicting, consistent, any_pair, pair_fails,
  pair_disagrees,
}

pub data FactState : Type 0 where
  single_source corroborated conflicting : FactState

-- The `ReconciliationInputError`s, the `InputError` of an incomparable pair, and the
-- `RuntimeError` on an empty interval.
pub data ReconcileError : Type 0 where
  no_observation different_facts versions_excluded two_per_document : ReconcileError
  incomparable_values empty_interval : ReconcileError

pub record Reconciled : Type 0 where
  pub state : FactState
  pub value_kind : Option ValueKind
  pub low : Option ℤ
  pub high : Option ℤ
  pub representative : Option (ℕ × Member)
  pub ambiguous : Bool
  pub document_count : ℕ

pub data Result : Type 0 where
  ok : Reconciled → Result
  err : ReconcileError → Result

-- `sorted(observations, key=lambda o: (o.document_sha256, o.so_key))`
abbrev key_le : Observation → Observation → Bool
key_le a b = ltb a.document b.document || (a.document == b.document && leb a.so_key b.so_key)

unfoldable pub sort_observations : List Observation → List Observation
unfolding sort_by
sort_observations = sort_by key_le

abbrev pub is_internal : Observation → Bool
is_internal o = elim o.status [ consistent ↦ false | internally_conflicting ↦ true ]

-- `any(p(ma, mb) for ma in a.members for mb in b.members)`
abbrev pub across : (Member → Member → Bool) → Observation → Observation → Bool
across p a b = any (λ ma. any (p ma) b.members) a.members

abbrev pub somes : List (Option ℤ) → List ℤ
somes [] = []
somes (none ∷ os) = somes os
somes (some x ∷ os) = x ∷ somes os

abbrev pub lows : List Observation → List ℤ
lows os = somes (map (λ o. o.low) os)

abbrev pub highs : List Observation → List ℤ
highs os = somes (map (λ o. o.high) os)

-- The entries of `finest`: every member with its observation.
abbrev entries_of : Observation → List Member → List (Entry (ℕ × Member))
entries_of o [] = []
entries_of o (m ∷ ms) =
    record {
      half_unit = m.value.half_unit;
      normalized_value = m.value.normalized_value;
      ref = (o.so_key, m);
    }
    ∷ entries_of o ms

abbrev pub entries : List Observation → List (Entry (ℕ × Member))
entries [] = []
entries (o ∷ os) = entries_of o o.members ++ entries os

abbrev first_value_kind : List Observation → Option ValueKind
first_value_kind [] = none
first_value_kind (o ∷ os) = o.value_kind

abbrev first_member : List Observation → Option (ℕ × Member)
first_member [] = none
first_member (o ∷ os) = elim o.members [ [] ↦ none | m ∷ ms ↦ some (o.so_key, m) ]

-- `low > high`, the test of the `RuntimeError`
abbrev pub is_empty : Option ℤ → Option ℤ → Bool
is_empty (some l) (some h) = ltb_ℤ h l
is_empty _ _ = false

abbrev pub agreed_state : List Observation → FactState
agreed_state (o ∷ []) = single_source
agreed_state _ = corroborated

abbrev is_numeric : Option ValueKind → Bool
is_numeric (some numeric) = true
is_numeric _ = false

-- The value of a fact whose observations agree: numbers, or nil.
unfoldable pub agreed : List Observation → Result
agreed sos =
    if is_numeric (first_value_kind sos)
    then (let low = highest (lows sos) in
        let high = lowest (highs sos) in
        let best = finest (entries sos) in
        if is_empty low high
        then err empty_interval
        else ok (record {
          state = agreed_state sos;
          value_kind = some numeric;
          low = low;
          high = high;
          representative = best.0;
          ambiguous = best.1;
          document_count = length sos;
        }))
    else ok (record {
      state = agreed_state sos;
      value_kind = first_value_kind sos;
      low = none;
      high = none;
      representative = first_member sos;
      ambiguous = false;
      document_count = length sos;
    })

-- The fact when something disagrees: no value, no interval, no representative.
unfoldable pub in_conflict : List Observation → Reconciled
in_conflict sos = record {
  state = conflicting;
  value_kind = none;
  low = none;
  high = none;
  representative = none;
  ambiguous = false;
  document_count = length sos;
}

-- `reconcile_fact` once its input is accepted.
unfoldable pub conclude : List Observation → Result
conclude sos =
    if any_pair (across pair_fails) sos
    then err incomparable_values
    else if any is_internal sos || any_pair (across pair_disagrees) sos
    then ok (in_conflict sos)
    else agreed sos

abbrev other_fact : List Observation → Bool
other_fact [] = false
other_fact (o ∷ os) = any (λ x. not (x.ef_key == o.ef_key)) os

abbrev pub same_document : Observation → Observation → Bool
same_document a b = a.document == b.document

-- `reconcile_fact`, under a configuration's versions
unfoldable pub reconcile_fact : ℕ → List Observation → Result
reconcile_fact versions observations =
    let sos = sort_observations observations in
    if null? sos
    then err no_observation
    else if other_fact sos
    then err different_facts
    else if any (λ o. not (o.versions == versions)) sos
    then err versions_excluded
    else if any_pair same_document sos
    then err two_per_document
    else conclude sos
