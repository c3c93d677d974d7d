-- ===== src/Truth/Tests.antt =====
-- A fact in two documents, reconciled, and the theorems about it.
use cse_analysis.Base.{ℕ, ◌≡◌, refl, ◌≢◌, true, false, some, List, [], ◌∷◌, All}
use cse_analysis.Base.Int.{pos, ◌+ℤ◌, ◌-ℤ◌, ◌≤ℤ◌}
use cse_analysis.Truth.Values.{
  ValueResult, Member, numeric, Entry, finest, best, compare_values, compare_members, abs_ℤ,
  interval, differ,
}
use cse_analysis.Truth.Observations.{Observation, observation, conclude_members, blank}
use cse_analysis.Truth.Observations.Built.{IsBuilt, observation-IsBuilt}
use cse_analysis.Truth.Reconcile.{
  Reconciled, ok, err, corroborated, empty_interval, reconcile_fact, conclude, agreed, in_conflict,
  sort_observations,
}
use cse_analysis.Truth.Reconcile.Sound.{reconcile_fact-nonempty, agreed_interval, LiesWithin}

abbrev value : ℕ → ℕ → ValueResult
value v h = record {
  normalized = true;
  currency = 1;
  value_type = 1;
  normalized_value = pos v;
  half_unit = h;
}

abbrev member : ℕ → ℕ → ℕ → Member
member k v h = record { source_key = k; value_kind = numeric; value = value v h; restated = false }

-- In thousands in one document, in full in the other.
abbrev rounded : Observation
rounded = conclude_members (blank 11 1 1 102 (member 1 1234000 500 ∷ []))

abbrev exact : Observation
exact = conclude_members (blank 12 1 1 101 (member 2 1234321 0 ∷ []))

abbrev other : Observation
other = conclude_members (blank 13 1 1 103 (member 3 1240000 500 ∷ []))

rounded-IsBuilt : IsBuilt rounded
unfolding observation
rounded-IsBuilt = observation-IsBuilt 11 1 1 102 (member 1 1234000 500 ∷ []) refl

exact-IsBuilt : IsBuilt exact
unfolding observation
exact-IsBuilt = observation-IsBuilt 12 1 1 101 (member 2 1234321 0 ∷ []) refl

both-IsBuilt : All IsBuilt (rounded ∷ exact ∷ [])
both-IsBuilt = (rounded-IsBuilt, (exact-IsBuilt, tt))

abbrev result : Reconciled
result = record {
  state = corroborated;
  value_kind = some numeric;
  low = some (pos 1234321);
  high = some (pos 1234321);
  representative = some (12, member 2 1234321 0);
  ambiguous = false;
  document_count = 2;
}

two_documents : reconcile_fact 1 (rounded ∷ exact ∷ []) ≡ ok result
unfolding reconcile_fact conclude agreed sort_observations conclude_members finest best interval
    differ compare_members compare_values abs_ℤ ◌+ℤ◌ ◌-ℤ◌
two_documents = refl

reconcile_fact-nonempty_example : reconcile_fact 1 (rounded ∷ exact ∷ []) ≢ err empty_interval
reconcile_fact-nonempty_example = reconcile_fact-nonempty 1 (rounded ∷ exact ∷ []) both-IsBuilt

agreed_interval_example :
    (pos 1234321 ≤ℤ pos 1234321)
    × All (LiesWithin (pos 1234321) (pos 1234321)) (rounded ∷ exact ∷ [])
agreed_interval_example =
    agreed_interval 1 (rounded ∷ exact ∷ []) result both-IsBuilt two_documents (λ e. cc)
      (pos 1234321) (pos 1234321) refl refl

abbrev conflict : Reconciled
conflict = in_conflict (exact ∷ other ∷ [])

abbrev some_entries : List (Entry ℕ)
some_entries =
    record { half_unit = 500; normalized_value = pos 1234000; ref = 1 }
    ∷ record { half_unit = 0; normalized_value = pos 1234321; ref = 2 }
    ∷ []
