-- ===== src/Truth/Admission/Tests.antt =====
-- Admissions at concrete inputs.
use cse_analysis.Base.{
  ℕ, ◌≡◌, refl, Bool, true, false, Option, none, some, List, [], ◌∷◌, ◌==◌, insert_by, sort_by,
}
use cse_analysis.Base.Int.{ℤ, pos, negsuc, ◌+ℤ◌, ◌-ℤ◌}
use cse_analysis.Truth.Values.{ValueKind, abs_ℤ, differ, best}
use cse_analysis.Truth.Partition.{
  Operations, continuing, discontinued, total_or_unstated, no_label, section_label,
  by_section_and_op1, numeric, TermRow, common_amount, term_of, insufficient_evidence, rows_of,
  is_common, record_reasons, adds_up, validated_keys, record_of, Candidate, members_of, record_at,
  operations_decision,
}
use cse_analysis.Truth.Partition.Adds.{IsPartition, IsPart}
use cse_analysis.Truth.Identity.{duration, PeriodKind, group, Identity, not_applicable, is_identity}
use cse_analysis.Truth.Admission.{
  validation_ineligible, operations_section_derived_unvalidated, Validation,
  operations_section_derived_on_total_row, listing_symbol_sec_id, document_path_prefix, LinkBasis,
  IssuerLinkDecision, reported, Admission, Result, raised, done, issuer_link_path_prefix_only,
  Refusal, value_refusals, value_kind_of, link_refusals, linked_issuer, operations_refusals,
  route_of, maturity_refusals, scope_refusals, identity_refusals, identity_of, rule_refusals, admit,
}
use cse_analysis.Truth.Admission.Admitted.{admit-IsPartition}

abbrev row : ℕ → ℤ → TermRow
row key v = record {
  source_key = key;
  operations_basis = section_label;
  value_state = numeric;
  normalized = some (v, 500);
  currency = some 1;
  value_type = some 1;
}

abbrev candidate : Operations → TermRow → Candidate
candidate o r = record {
  group = 3;
  concept = some 7;
  operations = o;
  proposed = true;
  from_column = true;
  row = r;
}

-- A profit of 120 in thousands: 150 from continuing operations, and a loss of 30 from discontinued ones
abbrev total_row : TermRow
total_row = record (row 3 (pos 120000)) { operations_basis = no_label }

abbrev statement : List Candidate
statement =
    candidate continuing (row 1 (pos 150000))
    ∷ candidate discontinued (row 2 (negsuc 29999))
    ∷ candidate total_or_unstated total_row
    ∷ []

abbrev fact : ℕ → ℕ → Validation
fact months currency = record {
  ineligible_reasons = operations_section_derived_on_total_row ∷ [];
  normalization_reasons = [];
  period_kind = some duration;
  end_date = some 738000;
  duration_months = some months;
  currency = some currency;
  operations = some continuing;
  is_trusted = true;
  maturity = none;
}

abbrev evidenced : LinkBasis → Option IssuerLinkDecision
evidenced b = some (record { is_evidenced = true; basis = some b; issuer_id = some 11 })

abbrev concepts : ℕ → Option PeriodKind
concepts k = some duration

abbrev borrowing : ℕ → Bool
borrowing k = k == 8

abbrev code : ℕ → Bool
code k = k == 1

abbrev admission : ℕ → ℕ → LinkBasis → List Candidate → Result
admission months currency b cs =
    admit concepts borrowing code (candidate continuing (row 1 (pos 150000))) cs
      (fact months currency) (evidenced b) (reported group)

abbrev outcomes : Result → Option (Bool × List Refusal)
outcomes raised = none
outcomes (done a) = some (a.admitted, a.reasons)

section_admitted : outcomes (admission 12 1 listing_symbol_sec_id statement) ≡ some (true, [])
unfolding admit rule_refusals operations_decision record_at record_of record_reasons adds_up
    validated_keys term_of common_amount rows_of is_common differ best abs_ℤ sort_by insert_by ◌+ℤ◌
    ◌-ℤ◌ value_refusals link_refusals operations_refusals maturity_refusals scope_refusals
    identity_refusals identity_of linked_issuer is_identity value_kind_of route_of
section_admitted = refl

-- Without the discontinued row there is no partition, and a path prefix is no issuer.
refusals :
    outcomes (admission 12 1 listing_symbol_sec_id (candidate continuing (row 1 (pos 150000)) ∷ []))
      ∷ outcomes (admission 12 1 document_path_prefix statement)
      ∷ outcomes (admission 0 1 listing_symbol_sec_id statement)
      ∷ []
    ≡ some (
      false,
      validation_ineligible ∷ operations_section_derived_unvalidated insufficient_evidence ∷ [],
    )
      ∷ some (false, issuer_link_path_prefix_only ∷ [])
      ∷ none
      ∷ []
unfolding admit rule_refusals operations_decision record_at record_of record_reasons adds_up
    validated_keys term_of common_amount rows_of is_common differ best abs_ℤ sort_by insert_by ◌+ℤ◌
    ◌-ℤ◌ value_refusals link_refusals operations_refusals maturity_refusals scope_refusals
    identity_refusals identity_of linked_issuer is_identity value_kind_of route_of
refusals = refl

abbrev identity_12 : Identity
identity_12 = record {
  issuer_id = 11;
  concept_key = 7;
  period_kind = duration;
  period_end = 738000;
  duration_months = some 12;
  scope = group;
  operations = continuing;
  maturity = not_applicable;
  currency = 1;
}

abbrev concluded : Admission
concluded = record {
  admitted = true;
  value_kind = some ValueKind.numeric;
  reasons = [];
  lifted_reasons = operations_section_derived_on_total_row ∷ [];
  operations_route = some by_section_and_op1;
  identity = some identity_12;
}

is_concluded : admission 12 1 listing_symbol_sec_id statement ≡ done concluded
unfolding admit rule_refusals operations_decision record_at record_of record_reasons adds_up
    validated_keys term_of common_amount rows_of is_common differ best abs_ℤ sort_by insert_by ◌+ℤ◌
    ◌-ℤ◌ value_refusals link_refusals operations_refusals maturity_refusals scope_refusals
    identity_refusals identity_of linked_issuer is_identity value_kind_of route_of
is_concluded = refl

abbrev first_row : Candidate
first_row = candidate continuing (row 1 (pos 150000))

admit-IsPartition_example :
    (k : ℕ) × (some 7 ≡ some k)
    × IsPartition (members_of 3 k statement)
    × (r : TermRow) × IsPart (members_of 3 k statement) 1 r
admit-IsPartition_example =
    admit-IsPartition concepts borrowing code first_row statement (fact 12 1)
      (evidenced listing_symbol_sec_id) (reported group) concluded is_concluded refl refl
