-- ===== src/Truth/Partition.antt =====
-- worker/financial_truth/op1.py: the rule by which a section heading's operations are admitted.
--
-- A row has its normalised value with its half-unit, or none where its status is not `normalized`.
-- Decimals are integers at one scale, as in Truth.Values. Groups, concepts, keys, currencies and value
-- types are numbers; `section_label` is the heading's basis, and the others are those of the row.
pub mod Adds
use cse_analysis.Base.{
  ℕ, ◌+◌, Bool, true, false, not, ◌&&◌, ◌||◌, Option, none, some, List, [], ◌∷◌, ◌++◌, map, leb,
  ◌==◌, if◌then◌else◌, keep, any, all, is_none, null?, sort_by,
}
use cse_analysis.Base.Int.{ℤ, ◌+ℤ◌, ◌-ℤ◌}
use cse_analysis.Truth.Values.{abs_ℤ, differ, minimum}

pub data Operations : Type 0 where
  continuing discontinued total_or_unstated : Operations

pub data OperationsBasis : Type 0 where
  row_label no_label section_label : OperationsBasis

pub data ValueState : Type 0 where
  numeric reported_nil reported_nil_word other_state : ValueState

pub record TermRow : Type 0 where
  pub source_key : ℕ
  pub operations_basis : OperationsBasis
  pub value_state : ValueState
  pub normalized : Option (ℤ × ℕ)
  pub currency : Option ℕ
  pub value_type : Option ℕ

pub data Term : Type 0 where
  usable : ℤ → ℕ → Term
  missing nil non_numeric not_normalized multiple_values : Term

abbrev pub is_nil_state : ValueState → Bool
is_nil_state reported_nil = true
is_nil_state reported_nil_word = true
is_nil_state _ = false

abbrev pub is_numeric_state : ValueState → Bool
is_numeric_state numeric = true
is_numeric_state _ = false

abbrev pub add_amount : Option (ℤ × ℕ) → List (ℤ × ℕ) → List (ℤ × ℕ)
add_amount none xs = xs
add_amount (some x) xs = x ∷ xs

abbrev pub amounts_of : List TermRow → List (ℤ × ℕ)
amounts_of [] = []
amounts_of (r ∷ rs) = add_amount r.normalized (amounts_of rs)

abbrev pub usable_with : ℤ → Option ℕ → Term
usable_with v none = missing
usable_with v (some h) = usable v h

-- The one value, with the least half-unit
unfoldable pub common_amount : List (ℤ × ℕ) → Term
common_amount [] = missing
common_amount (x ∷ xs) =
    if differ (map (λ y. y.0) (x ∷ xs))
    then multiple_values
    else usable_with x.0 (minimum (map (λ y. y.1) (x ∷ xs)))

-- `_term`
unfoldable pub term_of : List TermRow → Term
unfolding common_amount
term_of rows =
    if null? rows
    then missing
    else if any (λ r. is_nil_state r.value_state) rows
    then nil
    else if any (λ r. not (is_numeric_state r.value_state)) rows
    then non_numeric
    else if any (λ r. is_none r.normalized) rows
    then not_normalized
    else common_amount (amounts_of rows)

pub data Op1Outcome : Type 0 where
  pass fail insufficient_evidence : Op1Outcome

pub data Op1Reason : Type 0 where
  unusable : Term → Operations → Op1Reason
  currency_mismatch value_type_mismatch difference_exceeds_printed_precision : Op1Reason

-- `OP1Record`, as far as a decision or the theorems read it
pub record Op1Record : Type 0 where
  pub outcome : Op1Outcome
  pub reasons : List Op1Reason
  pub validated : List ℕ

abbrev pub is_operations : Operations → Operations → Bool
is_operations continuing continuing = true
is_operations discontinued discontinued = true
is_operations total_or_unstated total_or_unstated = true
is_operations _ _ = false

-- `by_ops`, with the rows in the order of their keys
unfoldable pub rows_of : Operations → List (Operations × TermRow) → List TermRow
rows_of o ms =
    sort_by (λ a b. leb a.source_key b.source_key)
      (map (λ m. m.1) (keep (λ m. is_operations o m.0) ms))

abbrev pub is_usable : Term → Bool
is_usable (usable _ _) = true
is_usable _ = false

abbrev pub term_reasons : Operations → Term → List Op1Reason
term_reasons o t = if is_usable t then [] else unusable t o ∷ []

abbrev pub same_option : Option ℕ → Option ℕ → Bool
same_option (some a) (some b) = a == b
same_option _ _ = false

-- Every one is there, and they are one.
unfoldable pub is_common : List (Option ℕ) → Bool
is_common [] = false
is_common (x ∷ xs) = all (λ y. same_option x y) (x ∷ xs)

abbrev pub all_rows : List (Operations × TermRow) → List TermRow
all_rows ms = rows_of continuing ms ++ rows_of discontinued ms ++ rows_of total_or_unstated ms

abbrev pub unusable_terms : List (Operations × TermRow) → List Op1Reason
unusable_terms ms =
    term_reasons continuing (term_of (rows_of continuing ms))
    ++ term_reasons discontinued (term_of (rows_of discontinued ms))
    ++ term_reasons total_or_unstated (term_of (rows_of total_or_unstated ms))

abbrev pub mismatches : List TermRow → List Op1Reason
mismatches rows =
    (if is_common (map (λ r. r.currency) rows) then [] else currency_mismatch ∷ [])
    ++ (if is_common (map (λ r. r.value_type) rows) then [] else value_type_mismatch ∷ [])

-- `reasons` of `_record`
unfoldable pub record_reasons : List (Operations × TermRow) → List Op1Reason
record_reasons ms =
    if null? (unusable_terms ms) then mismatches (all_rows ms) else unusable_terms ms

unfoldable pub adds_up : Term → Term → Term → Bool
adds_up (usable c hc) (usable d hd) (usable t ht) = leb (abs_ℤ (c +ℤ d -ℤ t)) (hc + hd + ht)
adds_up _ _ _ = false

abbrev pub is_section : OperationsBasis → Bool
is_section section_label = true
is_section _ = false

abbrev pub is_from_section : TermRow → Bool
is_from_section r = is_section r.operations_basis

unfoldable pub validated_keys : List (Operations × TermRow) → List ℕ
validated_keys ms = sort_by leb (
    map (λ r. r.source_key)
      (keep is_from_section (rows_of continuing ms ++ rows_of discontinued ms)))

-- `_record`
unfoldable pub record_of : List (Operations × TermRow) → Op1Record
unfolding record_reasons adds_up validated_keys
record_of ms =
    if not (null? (record_reasons ms))
    then record { outcome = insufficient_evidence; reasons = record_reasons ms; validated = [] }
    else if adds_up (term_of (rows_of continuing ms)) (term_of (rows_of discontinued ms))
        (term_of (rows_of total_or_unstated ms))
    then record { outcome = pass; reasons = []; validated = validated_keys ms }
    else record {
      outcome = fail;
      reasons = difference_exceeds_printed_precision ∷ [];
      validated = [];
    }

-- A candidate with its validation, as far as the rule reads them
pub record Candidate : Type 0 where
  pub group : ℕ
  pub concept : Option ℕ
  pub operations : Operations
  pub proposed : Bool
  pub from_column : Bool
  pub row : TermRow

abbrev pub has_concept : Option ℕ → ℕ → Bool
has_concept none k = false
has_concept (some c) k = c == k

-- `members[(group, concept)]`
abbrev pub in_group : ℕ → ℕ → Candidate → Bool
in_group g k c = c.group == g && has_concept c.concept k

abbrev pub members_of : ℕ → ℕ → List Candidate → List (Operations × TermRow)
members_of g k cs =
    map (λ c. (c.operations, c.row)) (keep (λ c. in_group g k c && c.proposed && c.from_column) cs)

-- `evaluate`: the record of a group and concept, where a section-derived candidate wants one
unfoldable pub record_at : ℕ → ℕ → List Candidate → Option Op1Record
unfolding record_of
record_at g k cs =
    if any (λ c. in_group g k c && is_from_section c.row) cs
    then some (record_of (members_of g k cs))
    else none

pub data Route : Type 0 where
  by_row_label by_no_label by_section_and_op1 : Route

pub record OperationsDecision : Type 0 where
  pub route : Option Route
  pub refusal : Option Op1Outcome
  pub lift : Bool

abbrev pub refused_with : Op1Outcome → OperationsDecision
refused_with o = record { route = none; refusal = some o; lift = false }

abbrev pub decide_outcome : Op1Outcome → ℕ → List ℕ → OperationsDecision
decide_outcome pass key validated =
    if any (λ k. k == key) validated
    then record { route = some by_section_and_op1; refusal = none; lift = true }
    else refused_with insufficient_evidence
decide_outcome fail key validated = refused_with fail
decide_outcome insufficient_evidence key validated = refused_with insufficient_evidence

abbrev pub decide_basis : OperationsBasis → ℕ → Option Op1Record → OperationsDecision
decide_basis row_label key r = record { route = some by_row_label; refusal = none; lift = false }
decide_basis no_label key r = record { route = some by_no_label; refusal = none; lift = false }
decide_basis section_label key none = refused_with insufficient_evidence
decide_basis section_label key (some r) = decide_outcome r.outcome key r.validated

abbrev pub record_for : ℕ → Option ℕ → List Candidate → Option Op1Record
record_for g none cs = none
record_for g (some k) cs = record_at g k cs

-- `operations_decision`
unfoldable pub operations_decision : Candidate → List Candidate → OperationsDecision
unfolding record_at
operations_decision c cs =
    decide_basis c.row.operations_basis c.row.source_key (record_for c.group c.concept cs)
