-- ===== src/Truth/Selection/Tests.antt =====
-- The selection of runs: the theorem about it.
use mathlib.Core.List.{Memᴰ}
use cse_analysis.Base.{ℕ, ◌≡◌, refl, true, false, none, some, List, [], ◌∷◌, sort_by, insert_by}
use cse_analysis.Truth.Values.{best}
use cse_analysis.Truth.Selection.{
  F5RunRef, ReconciliationConfiguration, RunSelection, Selection, refusal, is_accepted, comes_later,
  choose, unique_runs, select_documents, document_keys, select_sorted, select_runs,
}
use cse_analysis.Truth.Selection.Latest.{select_runs-latest}

abbrev run : ℕ → ℕ → ℕ → F5RunRef
run id document time = record {
  f5_run_id = id;
  cse_filing_id = 7;
  document_sha256 = document;
  f3_version = 1;
  f4_version = 1;
  f5_version = 1;
  recorded_at = some time;
  other_fields = 0;
}

abbrev refused : F5RunRef
refused = record (run 5 3 90) { f5_version = 2 }

abbrev runs : List F5RunRef
runs = run 1 3 40 ∷ run 2 3 60 ∷ run 4 8 10 ∷ refused ∷ run 2 3 60 ∷ []

abbrev configuration : ReconciliationConfiguration
configuration = record { accepted_f3 = 1 ∷ []; accepted_f4 = 1 ∷ []; accepted_f5 = 1 ∷ [] }

abbrev selection : Selection
selection = record {
  documents =
      record {
        document_sha256 = 3;
        selected = run 2 3 60;
        accepted_runs = run 1 3 40 ∷ run 2 3 60 ∷ [];
      }
      ∷ record { document_sha256 = 8; selected = run 4 8 10; accepted_runs = run 4 8 10 ∷ [] }
      ∷ [];
  excluded_runs = refused ∷ [];
}

it_selects : select_runs runs configuration ≡ some selection
unfolding select_runs unique_runs select_sorted select_documents document_keys choose refusal best
    sort_by insert_by
it_selects = refl

-- Two different runs share an id.
shared_id : select_runs (run 1 3 40 ∷ run 1 3 50 ∷ []) configuration ≡ none
unfolding select_runs unique_runs
shared_id = refl

first_accepted : is_accepted configuration (run 1 3 40) ≡ true
unfolding refusal
first_accepted = refl

select_runs-latest_example :
    (d : RunSelection) × Memᴰ d selection.documents
    × (d.document_sha256 ≡ 3)
    × (Memᴰ d.selected runs
        × (is_accepted configuration d.selected ≡ true)
        × (d.selected.document_sha256 ≡ 3))
    × (comes_later (run 1 3 40) d.selected ≡ false)
select_runs-latest_example =
    select_runs-latest runs configuration selection (run 1 3 40) it_selects (Memᴰ.head refl)
      first_accepted
