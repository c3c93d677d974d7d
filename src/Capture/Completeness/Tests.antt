-- ===== src/Capture/Completeness/Tests.antt =====
-- A capture of two securities, and a sweep: the theorems about them.
use cse_analysis.Base.{◌≡◌, refl, ◌⊎◌, true, false, Option, none, some, List, [], ◌∷◌, All, sort_by}
use cse_analysis.Capture.Completeness.{
  SecurityResult, produced, already_present, c_status, is_produced, lookup, RunState, succeeded,
  market_capture, decide_state, evidence_state, expected_symbols,
}
use cse_analysis.Capture.Completeness.Succeeded.{IsObserved, succeeded-IsObserved}

abbrev rows : List SecurityResult
rows =
    record { symbol = 1; raw_status = produced }
    ∷ record { symbol = 2; raw_status = already_present }
    ∷ []

two_expected : expected_symbols (1 ∷ 3 ∷ []) (2 ∷ 1 ∷ []) true ≡ 1 ∷ 3 ∷ 2 ∷ []
unfolding expected_symbols sort_by
two_expected = refl

it_succeeded :
    decide_state
      (market_capture true true
        (c_status rows (expected_symbols (1 ∷ []) (2 ∷ 1 ∷ []) false))
        (some true))
      none
    ≡ succeeded
unfolding decide_state evidence_state c_status is_produced lookup expected_symbols sort_by
it_succeeded = refl

abbrev no_stop : Option RunState
no_stop = none

succeeded-IsObserved_example :
    (no_stop ≡ none)
    × (true ≡ true)
    × (some true ≡ some true)
    × (true ≡ true)
    × All (IsObserved rows) (2 ∷ 1 ∷ [])
    × All (λ s. (false ≡ false) ⊎ IsObserved rows s) (1 ∷ [])
succeeded-IsObserved_example =
    succeeded-IsObserved rows (1 ∷ []) (2 ∷ 1 ∷ []) false true true (some true) no_stop it_succeeded
