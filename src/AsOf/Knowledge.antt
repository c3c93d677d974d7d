-- ===== src/AsOf/Knowledge.antt =====
-- worker/financial_asof/knowledge.py: when the system knew a source observation.
--
-- A row of the evidence is what `known_at` reads of it: its key and its recorded time. What the
-- lookups in the evidence find are the parts of the chain; `none` is a row that is absent. The tables
-- of the terms, which are constants, are left out.
pub mod Chains
mod Tests
use cse_analysis.Base.{
  ℕ, ◌+◌, Bool, true, false, not, ◌&&◌, Option, none, some, List, [], ◌∷◌, ◌++◌, map, keep, ltb,
  leb, ◌==◌, if◌then◌else◌, null?, ◌||◌,
}
use cse_analysis.Truth.Values.{best}
use cse_analysis.AsOf.Availability.{Seen, latest}

-- `TERMS`
pub data Term : Type 0 where
  f1_first_observation classification issuer_decision f5_run validation_run source_observation :
      Term

-- A row found for a term: its key, and the time at which it was recorded.
pub record Found : Type 0 where
  pub key : ℕ
  pub time : ℕ

pub record Link : Type 0 where
  pub term : Term
  pub found : Found

-- An F5 run with the classification that its identifier finds, and a validation run with the issuer
-- decision that it names, if it names one, and what that finds.
pub record RunRow : Type 0 where
  pub row : Found
  pub classification : Option Found

pub record ValidationRow : Type 0 where
  pub row : Found
  pub decision : Option (Option Found)

pub record Chain : Type 0 where
  pub seen : List Seen
  pub run : Option RunRow
  pub validation : Option ValidationRow
  pub stored : Found

-- `min(..., key=lambda o: (o.observed_at, o.id), default=None)`
abbrev pub earlier : Seen → Seen → Bool
earlier a b = ltb a.observed_at b.observed_at || ((a.observed_at == b.observed_at) && ltb a.id b.id)

unfoldable pub first_observation : List Seen → Option Found
first_observation seen = elim (best earlier seen) [
  | none ↦ none
  | some o ↦ some (record { key = o.id; time = o.observed_at })
]

abbrev classification_of : Option RunRow → Option Found
classification_of none = none
classification_of (some r) = r.classification

abbrev run_of : Option RunRow → Option Found
run_of none = none
run_of (some r) = some r.row

abbrev validation_of : Option ValidationRow → Option Found
validation_of none = none
validation_of (some v) = some v.row

abbrev decision_of : Option ValidationRow → Option Found
decision_of none = none
decision_of (some v) = elim v.decision [ none ↦ none | some d ↦ d ]

-- The issuer decision is needed where the validation run names one.
abbrev pub needs_decision : Option ValidationRow → Bool
needs_decision none = false
needs_decision (some v) = elim v.decision [ none ↦ false | some d ↦ true ]

abbrev link : Term → Option Found → List Link
link t none = []
link t (some f) = record { term = t; found = f } ∷ []

abbrev absent : Bool → Term → Option Found → List Term
absent true t none = t ∷ []
absent _ t _ = []

-- Of the parts of a chain: the links that are present and the terms that are missing, in the order of
-- `TERMS`
abbrev pub links_of : Option Found → Option RunRow → Option ValidationRow → Found → List Link
links_of o r v s =
    link f1_first_observation o
    ++ (link classification (classification_of r)
        ++ (link issuer_decision (decision_of v)
            ++ (link f5_run (run_of r)
                ++ (link validation_run (validation_of v) ++ link source_observation (some s)))))

abbrev pub missing_of : Option Found → Option RunRow → Option ValidationRow → List Term
missing_of o r v =
    absent true f1_first_observation o
    ++ (absent true classification (classification_of r)
        ++ (absent (needs_decision v) issuer_decision (decision_of v)
            ++ (absent true f5_run (run_of r) ++ absent true validation_run (validation_of v))))

-- `terms`
unfoldable pub links : Chain → List Link
links c = links_of (first_observation c.seen) c.run c.validation c.stored

unfoldable pub missing_terms : Chain → List Term
missing_terms c = missing_of (first_observation c.seen) c.run c.validation

pub record Knowledge : Type 0 where
  pub at : Option ℕ
  pub terms : List Link
  pub set_by : List Link
  pub missing : List Term

abbrev is_at : Option ℕ → Link → Bool
is_at none l = false
is_at (some t) l = l.found.time == t

unfoldable pub known_at : Chain → Knowledge
known_at c =
    if null? (missing_terms c)
    then (let at = latest (map (λ l. l.found.time) (links c)) in
        record { at = at; terms = links c; set_by = keep (is_at at) (links c); missing = [] })
    else record { at = none; terms = links c; set_by = []; missing = missing_terms c }
