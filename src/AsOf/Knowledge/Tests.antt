-- ===== src/AsOf/Knowledge/Tests.antt =====
-- Chains of knowledge: the theorem about them.
use mathlib.Core.List.{Memᴰ}
use cse_analysis.Base.{ℕ, ◌≤◌, ◌≡◌, refl, none, some, [], ◌∷◌, ◌⊎◌, All}
use cse_analysis.Truth.Values.{best}
use cse_analysis.AsOf.Availability.{Seen, listing}
use cse_analysis.AsOf.Knowledge.{
  Chain, Found, RunRow, ValidationRow, known_at, links, missing_terms, first_observation,
}
use cse_analysis.AsOf.Knowledge.Chains.{
  IsRunBy, IsRunAt, IsValidatedBy, IsValidatedAt, known_at-links,
}

abbrev seen_at : ℕ → ℕ → Seen
seen_at id at = record {
  id = id;
  observed_at = at;
  source = 5;
  endpoint = listing;
  uploaded = none;
  authorized = none;
}

abbrev found : ℕ → ℕ → Found
found key time = record { key = key; time = time }

abbrev run : RunRow
run = record { row = found 11 95; classification = some (found 12 93) }

abbrev validation : ValidationRow
validation = record { row = found 21 120; decision = some (some (found 22 110)) }

abbrev chain : Chain
chain = record {
  seen = seen_at 2 90 ∷ seen_at 1 90 ∷ [];
  run = some run;
  validation = some validation;
  stored = found 31 118;
}

chain_at : (known_at chain).at ≡ some 120
unfolding best known_at links missing_terms first_observation
chain_at = refl

known_at-links_example :
    (o : Found) × (first_observation chain.seen ≡ some o)
    × ((x : Seen) × Memᴰ x chain.seen × (o.time ≡ x.observed_at))
    × All (λ (x : Seen). o.time ≤ x.observed_at) chain.seen
    × (o.time ≤ 120)
    × IsRunBy 120 (some run)
    × IsValidatedBy 120 (some validation)
    × (chain.stored.time ≤ 120)
    × ((120 ≡ o.time)
        ⊎ (IsRunAt 120 (some run)
            ⊎ (IsValidatedAt 120 (some validation) ⊎ (120 ≡ (found 31 118).time))))
known_at-links_example = known_at-links chain 120 chain_at

-- The decision that the validation run names is not found.
undecided :
    (known_at (record chain { validation = some (record validation { decision = some none }) })).at
    ≡ none
unfolding best known_at links missing_terms first_observation
undecided = refl
