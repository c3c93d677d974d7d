-- ===== src/Truth/Selection.antt =====
-- worker/financial_truth/reconciliation.py: one F5 run per document (`select_runs`), and the versions
-- that a configuration accepts (`refusal`).
--
-- Identifiers, documents, filings and tuples of versions are only compared or ordered, so they are
-- numbers; a recorded time is a moment. A run's fields that nothing here reads stand as one number.
-- `Selection` is without the configuration's digest, and a document's filings are those of its accepted
-- runs.
pub mod Latest
mod Tests
use cse_analysis.Base.{
  ℕ, Bool, true, false, not, ◌&&◌, ◌||◌, Option, none, some, List, [], ◌∷◌, map, leb, ltb, ◌==◌,
  if◌then◌else◌, any, keep, null?, is_none, sort_by,
}
use cse_analysis.Truth.Values.{best}

pub record F5RunRef : Type 0 where
  pub f5_run_id : ℕ
  pub cse_filing_id : ℕ
  pub document_sha256 : ℕ
  pub f3_version : ℕ
  pub f4_version : ℕ
  pub f5_version : ℕ
  pub recorded_at : Option ℕ
  pub other_fields : ℕ

pub record ReconciliationConfiguration : Type 0 where
  pub accepted_f3 : List ℕ
  pub accepted_f4 : List ℕ
  pub accepted_f5 : List ℕ

pub data RefusalReason : Type 0 where
  f3_version_not_accepted f4_version_not_accepted f5_version_not_accepted : RefusalReason

abbrev pub is_in : ℕ → List ℕ → Bool
is_in v vs = any (λ x. x == v) vs

unfoldable pub refusal : ReconciliationConfiguration → F5RunRef → Option RefusalReason
refusal c r =
    if not (is_in r.f3_version c.accepted_f3)
    then some f3_version_not_accepted
    else if not (is_in r.f4_version c.accepted_f4)
    then some f4_version_not_accepted
    else if not (is_in r.f5_version c.accepted_f5)
    then some f5_version_not_accepted
    else none

abbrev pub same_time : Option ℕ → Option ℕ → Bool
same_time none none = true
same_time (some a) (some b) = a == b
same_time _ _ = false

abbrev pub has_id : ℕ → F5RunRef → Bool
has_id i r = r.f5_run_id == i

abbrev pub same_run : F5RunRef → F5RunRef → Bool
same_run a b =
    (a.f5_run_id == b.f5_run_id)
    && ((a.cse_filing_id == b.cse_filing_id)
        && ((a.document_sha256 == b.document_sha256)
            && ((a.f3_version == b.f3_version)
                && ((a.f4_version == b.f4_version)
                    && ((a.f5_version == b.f5_version)
                        && (same_time a.recorded_at b.recorded_at
                            && (a.other_fields == b.other_fields)))))))

-- Two different runs share an id.
abbrev pub clashes : F5RunRef → List F5RunRef → Bool
clashes r rs = any (λ s. has_id r.f5_run_id s && not (same_run r s)) rs

-- `unique`; `none` is the `ReconciliationInputError` on a shared id.
unfoldable pub unique_runs : List F5RunRef → Option (List F5RunRef)
unique_runs [] = some []
unique_runs (r ∷ rs) = elim (unique_runs rs) [
  | none ↦ none
  | some us ↦
      if clashes r us then none else if any (has_id r.f5_run_id) us then some us else some (r ∷ us)
]

abbrev pub id_le : F5RunRef → F5RunRef → Bool
id_le a b = leb a.f5_run_id b.f5_run_id

abbrev time_of : Option ℕ → ℕ
time_of none = 0
time_of (some t) = t

-- Of two recorded runs, the first one comes later: by its time, and then by its id.
abbrev pub comes_later : F5RunRef → F5RunRef → Bool
comes_later a b =
    ltb (time_of b.recorded_at) (time_of a.recorded_at)
    || ((time_of a.recorded_at == time_of b.recorded_at) && ltb b.f5_run_id a.f5_run_id)

abbrev pub is_unrecorded : F5RunRef → Bool
is_unrecorded r = is_none r.recorded_at

-- The run of one document among its accepted ones; `none` is the `ReconciliationInputError` where one of
-- several was never recorded.
unfoldable pub choose : List F5RunRef → Option F5RunRef
choose (r ∷ []) = some r
choose rs = if any is_unrecorded rs then none else best comes_later rs

pub record RunSelection : Type 0 where
  pub document_sha256 : ℕ
  pub selected : F5RunRef
  pub accepted_runs : List F5RunRef

abbrev pub distinct : List ℕ → List ℕ
distinct [] = []
distinct (x ∷ xs) = let rest = distinct xs in if is_in x rest then rest else x ∷ rest

abbrev pub of_document : ℕ → F5RunRef → Bool
of_document sha r = r.document_sha256 == sha

unfoldable pub select_documents : List F5RunRef → List ℕ → Option (List RunSelection)
unfolding choose
select_documents accepted [] = some []
select_documents accepted (sha ∷ shas) =
    let mine = keep (of_document sha) accepted in
    elim (choose mine) [
      | none ↦ none
      | some r ↦ elim (select_documents accepted shas) [
        | none ↦ none
        | some ds ↦ some (record { document_sha256 = sha; selected = r; accepted_runs = mine } ∷ ds)
      ]
    ]

pub record Selection : Type 0 where
  pub documents : List RunSelection
  pub excluded_runs : List F5RunRef

abbrev pub is_accepted : ReconciliationConfiguration → F5RunRef → Bool
is_accepted c r = is_none (refusal c r)

-- `by_doc`, its keys in order
unfoldable pub document_keys : List F5RunRef → List ℕ
document_keys accepted = sort_by leb (distinct (map (λ r. r.document_sha256) accepted))

unfoldable pub select_sorted : ReconciliationConfiguration → List F5RunRef → Option Selection
unfolding select_documents document_keys
select_sorted c runs =
    let accepted = keep (is_accepted c) runs in
    elim (select_documents accepted (document_keys accepted)) [
      | none ↦ none
      | some ds ↦
          some (record { documents = ds; excluded_runs = keep (λ r. not (is_accepted c r)) runs })
    ]

unfoldable pub select_runs : List F5RunRef → ReconciliationConfiguration → Option Selection
unfolding unique_runs select_sorted
select_runs runs c = elim (unique_runs runs) [
  | none ↦ none
  | some us ↦ select_sorted c (sort_by id_le us)
]
