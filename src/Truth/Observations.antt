-- ===== src/Truth/Observations.antt =====
-- worker/financial_truth/observations.py: the source observation that one validation run makes of a
-- fact from its members, which stand in member order. Keys, documents and versions are numbers.
--
-- Left out are what an observation only carries along (roles, labels, hashes) and the list of the
-- comparisons: of that list the code reads whether a pair is incomparable, and whether one
-- disagrees.
pub mod Agreement
pub mod Built
use cse_analysis.Base.{
  ℕ, Bool, true, false, not, ◌||◌, Option, none, some, List, [], ◌∷◌, map, if◌then◌else◌, any, all,
  null?,
}
use cse_analysis.Base.Int.{ℤ}
use cse_analysis.Truth.Values.{
  ValueResult, Member, ValueKind, numeric, nil, is_nil, compare_members, disagrees, fails, Entry,
  finest, interval, differ,
}

pub data ObservationStatus : Type 0 where
  consistent internally_conflicting : ObservationStatus

pub record Observation : Type 0 where
  pub so_key : ℕ
  pub ef_key : ℕ
  pub versions : ℕ
  pub document : ℕ
  pub members : List Member
  pub status : ObservationStatus
  pub value_kind : Option ValueKind
  pub representative : Option Member
  pub ambiguous : Bool
  pub within_precision : Bool
  pub low : Option ℤ
  pub high : Option ℤ

-- `any(p(a, b) for i, a in enumerate(xs) for b in xs[i + 1:])`
abbrev pub any_pair {ℓ} : {A : Type ℓ} → (A → A → Bool) → List A → Bool
any_pair p [] = false
any_pair p (x ∷ xs) = any (p x) xs || any_pair p xs

abbrev pub pair_fails : Member → Member → Bool
pair_fails a b = fails (compare_members a b)

abbrev pub pair_disagrees : Member → Member → Bool
pair_disagrees a b = disagrees (compare_members a b)

-- `next(iter(kinds)) if len(kinds) == 1 else None`
abbrev pub common_kind : List Member → Option ValueKind
common_kind ms =
    if all (λ m. is_nil m.value_kind) ms
    then some nil
    else if all (λ m. not (is_nil m.value_kind)) ms
    then some numeric
    else none

abbrev pub entry : Member → Entry Member
entry m = record {
  half_unit = m.value.half_unit;
  normalized_value = m.value.normalized_value;
  ref = m;
}

abbrev pub values : List Member → List ValueResult
values ms = map (λ m. m.value) ms

abbrev pub head_member : List Member → Option Member
head_member [] = none
head_member (m ∷ ms) = some m

-- The observation before its status is known: the keys and the members.
abbrev pub blank : ℕ → ℕ → ℕ → ℕ → List Member → Observation
blank so ef v d ms = record {
  so_key = so;
  ef_key = ef;
  versions = v;
  document = d;
  members = ms;
  status = consistent;
  value_kind = none;
  representative = none;
  ambiguous = false;
  within_precision = false;
  low = none;
  high = none;
}

unfoldable pub conclude_members : Observation → Observation
conclude_members o =
    if any_pair pair_disagrees o.members
    then record o { status = internally_conflicting; value_kind = common_kind o.members }
    else if all (λ m. is_nil m.value_kind) o.members
    then record o { value_kind = some nil; representative = head_member o.members }
    else record o {
      value_kind = some numeric;
      representative = (finest (map entry o.members)).0;
      ambiguous = (finest (map entry o.members)).1;
      within_precision = differ (map (λ v. v.normalized_value) (values o.members));
      low = (interval (values o.members)).0;
      high = (interval (values o.members)).1;
    }

-- `observation`; `none` is the `InputError`: no member, or an incomparable pair.
unfoldable pub observation : ℕ → ℕ → ℕ → ℕ → List Member → Option Observation
observation so ef v d ms =
    if null? ms
    then none
    else if any_pair pair_fails ms
    then none
    else some (conclude_members (blank so ef v d ms))
