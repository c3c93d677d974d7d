-- ===== src/AsOf/Configuration/Tests.antt =====
-- Two designations and a later one: the theorems about them.
use cse_analysis.Base.{ℕ, ◌≡◌, refl, true, none, some, List, [], ◌∷◌, ◌==◌, if◌then◌else◌}
use cse_analysis.Truth.Values.{best}
use cse_analysis.AsOf.Configuration.{
  Designation, canonical, in_force, F8Configuration, Evidence, resolved, resolve,
  resolve_designated, resolve_row, resolve_f6,
}

abbrev designation : ℕ → ℕ → ℕ → Designation
designation n t c = record { id = n; purpose = canonical; recorded_at = t; configuration_id = c }

abbrev two_designations : List Designation
two_designations = designation 1 10 5 ∷ designation 2 20 6 ∷ []

abbrev configuration : F8Configuration
configuration = record { f6_configuration_id = 9; implemented = true }

abbrev known : Evidence
known = record {
  designations = two_designations;
  f8_configurations = λ k. if k == 6 then some (some configuration) else none;
  f6_configurations = λ k. if k == 9 then some true else none;
}

the_second : in_force two_designations 30 canonical ≡ some (designation 2 20 6)
unfolding in_force best
the_second = refl

it_resolves : resolve known none 30 ≡ resolved configuration (some (designation 2 20 6))
unfolding resolve resolve_designated resolve_row resolve_f6 in_force best
it_resolves = refl
