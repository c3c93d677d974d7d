-- ===== src/Truth/Admission.antt =====
-- worker/financial_truth/admission.py: `admit`.
--
-- Texts, issuers, concepts and currencies are numbers; the parameters are those of Truth.Identity.
-- `raised` is the `IdentityError`.
pub mod Rules
pub mod Admitted
mod Tests
use cse_analysis.Base.{
  ℕ, zero, suc, Bool, true, false, not, ◌&&◌, ◌||◌, Option, none, some, List, [], ◌∷◌, ◌++◌, keep,
  any, ◌==◌, if◌then◌else◌, is_none, is_some, null?,
}
use cse_analysis.Truth.Values.{ValueKind, numeric, nil}
use cse_analysis.Truth.Identity.{
  Identity, Maturity, PeriodKind, Scope, bank, company, current, duration, fits_concept,
  fits_maturity, fits_months, group, instant, is_identity, non_current, not_applicable, unlabelled,
}
use cse_analysis.Truth.Partition.{
  Operations, Op1Outcome, Route, by_row_label, by_no_label, by_section_and_op1, Candidate,
  operations_decision, OperationsDecision,
}

pub data IneligibleReason : Type 0 where
  operations_section_derived_on_total_row : IneligibleReason
  another : ℕ → IneligibleReason

pub data NormalizationReason : Type 0 where
  value_reported_nil value_reported_nil_word : NormalizationReason
  another_normalization : ℕ → NormalizationReason

pub data ReportedScope : Type 0 where
  reported : Scope → ReportedScope
  unstated : ReportedScope
  unknown : ℕ → ReportedScope

-- The parts of `CandidateValidation` that the rules read
pub record Validation : Type 0 where
  pub ineligible_reasons : List IneligibleReason
  pub normalization_reasons : List NormalizationReason
  pub period_kind : Option PeriodKind
  pub end_date : Option ℕ
  pub duration_months : Option ℕ
  pub currency : Option ℕ
  pub operations : Option Operations
  pub is_trusted : Bool
  pub maturity : Option Maturity

pub data LinkBasis : Type 0 where
  listing_symbol_sec_id document_path_prefix both : LinkBasis

pub record IssuerLinkDecision : Type 0 where
  pub is_evidenced : Bool
  pub basis : Option LinkBasis
  pub issuer_id : Option ℕ

pub data Field : Type 0 where
  issuer_id concept_key period_kind period_end scope operations currency duration_months : Field

pub data Refusal : Type 0 where
  validation_ineligible normalization_not_admissible : Refusal
  issuer_link_not_supplied issuer_link_not_evidenced issuer_link_path_prefix_only : Refusal
  operations_section_derived_unvalidated : Op1Outcome → Refusal
  maturity_undetermined scope_unrecognised : Refusal
  identity_incomplete : Field → Refusal

pub record Admission : Type 0 where
  pub admitted : Bool
  pub value_kind : Option ValueKind
  pub reasons : List Refusal
  pub lifted_reasons : List IneligibleReason
  pub operations_route : Option Route
  pub identity : Option Identity

pub data Result : Type 0 where
  raised : Result
  done : Admission → Result

abbrev pub is_liftable : IneligibleReason → Bool
is_liftable operations_section_derived_on_total_row = true
is_liftable (another _) = false

-- `norm in NIL_ONLY`
abbrev pub is_nil_only : List NormalizationReason → Bool
is_nil_only (value_reported_nil ∷ []) = true
is_nil_only (value_reported_nil_word ∷ []) = true
is_nil_only _ = false

abbrev pub lifted_by : Bool → List IneligibleReason → List IneligibleReason
lifted_by lift rs =
    if lift && any is_liftable rs then operations_section_derived_on_total_row ∷ [] else []

-- The ineligibility that is left
abbrev pub left_by : Bool → List IneligibleReason → List IneligibleReason
left_by lift rs = if lift then keep (λ r. not (is_liftable r)) rs else rs

-- A-1
unfoldable pub value_refusals : List IneligibleReason → List NormalizationReason → List Refusal
value_refusals ineligible norm =
    (if null? ineligible then [] else validation_ineligible ∷ [])
    ++ (if null? norm || is_nil_only norm then [] else normalization_not_admissible ∷ [])

unfoldable pub value_kind_of : List IneligibleReason → List NormalizationReason → Option ValueKind
value_kind_of ineligible norm =
    if not (null? ineligible)
    then none
    else if null? norm
    then some numeric
    else if is_nil_only norm
    then some nil
    else none

-- A-2
abbrev pub is_admissible_basis : Option LinkBasis → Bool
is_admissible_basis (some listing_symbol_sec_id) = true
is_admissible_basis (some both) = true
is_admissible_basis _ = false

unfoldable pub link_refusals : Option IssuerLinkDecision → List Refusal
link_refusals none = issuer_link_not_supplied ∷ []
link_refusals (some l) =
    if not l.is_evidenced
    then issuer_link_not_evidenced ∷ []
    else if not (is_admissible_basis l.basis)
    then issuer_link_path_prefix_only ∷ []
    else []

unfoldable pub linked_issuer : Option IssuerLinkDecision → Option ℕ
linked_issuer none = none
linked_issuer (some l) = if l.is_evidenced && is_admissible_basis l.basis then l.issuer_id else none

-- A-3
unfoldable pub operations_refusals : Option Op1Outcome → List Refusal
operations_refusals none = []
operations_refusals (some o) = operations_section_derived_unvalidated o ∷ []

abbrev pub is_by_row : Option Route → Bool
is_by_row (some by_row_label) = true
is_by_row (some by_no_label) = true
is_by_row _ = false

unfoldable pub route_of : OperationsDecision → Bool → Option Route
route_of d trusted = if is_none d.refusal && is_by_row d.route && not trusted then none else d.route

-- A-4
abbrev pub is_determined : Option Maturity → Bool
is_determined (some current) = true
is_determined (some non_current) = true
is_determined _ = false

unfoldable pub maturity_refusals : Bool → Option Maturity → List Refusal
maturity_refusals borrowing m =
    if borrowing && not (is_determined m) then maturity_undetermined ∷ [] else []

-- A-5
abbrev pub identity_scope : ReportedScope → Option Scope
identity_scope (reported s) = some s
identity_scope unstated = some unlabelled
identity_scope (unknown _) = none

unfoldable pub scope_refusals : Option Scope → List Refusal
scope_refusals none = scope_unrecognised ∷ []
scope_refusals (some s) = []

-- A-6
abbrev pub missing {ℓ} : {A : Type ℓ} → Field → Option A → List Refusal
missing f none = identity_incomplete f ∷ []
missing f (some x) = []

abbrev pub is_duration : Option PeriodKind → Bool
is_duration (some duration) = true
is_duration _ = false

unfoldable pub identity_refusals : Option ℕ → Option ℕ → Option Scope → Validation → List Refusal
identity_refusals issuer concept s v =
    missing issuer_id issuer
    ++ missing concept_key concept
    ++ missing period_kind v.period_kind
    ++ missing period_end v.end_date
    ++ missing scope s
    ++ missing operations v.operations
    ++ missing currency v.currency
    ++ (if is_duration v.period_kind then missing duration_months v.duration_months else [])

abbrev pub maturity_of : Bool → Option Maturity → Maturity
maturity_of true (some m) = m
maturity_of _ _ = not_applicable

abbrev pub months_of : PeriodKind → Option ℕ → Option ℕ
months_of duration m = m
months_of instant m = none

infixl 40 ◌>>=◌
abbrev pub ◌>>=◌ {ℓ κ} : {A : Type ℓ} {B : Type κ} → Option A → (A → Option B) → Option B
none >>= f = none
(some a) >>= f = f a

-- The identity of the fields that are all there
unfoldable pub identity_of :
    Bool → Option ℕ → Option ℕ → Option Scope → Validation → Option Identity
identity_of borrowing issuer concept s v = do
  i ← issuer
  c ← concept
  k ← v.period_kind
  e ← v.end_date
  sc ← s
  o ← v.operations
  cur ← v.currency
  some (record {
    issuer_id = i;
    concept_key = c;
    period_kind = k;
    period_end = e;
    duration_months = months_of k v.duration_months;
    scope = sc;
    operations = o;
    maturity = maturity_of borrowing v.maturity;
    currency = cur;
  })

module _ (concepts : ℕ → Option PeriodKind) (is_borrowing : ℕ → Bool) (is_code : ℕ → Bool) where
  abbrev pub borrows : Option ℕ → Bool
  borrows none = false
  borrows (some c) = is_borrowing c

  module _ (c : Candidate) (cs : List Candidate) (v : Validation) (link : Option IssuerLinkDecision)
      (scope : ReportedScope) where
    abbrev pub decided : OperationsDecision
    decided = operations_decision c cs

    abbrev pub ineligible_left : List IneligibleReason
    ineligible_left = left_by decided.lift v.ineligible_reasons

    -- A-1 to A-5
    unfoldable pub rule_refusals : List Refusal
    rule_refusals =
        value_refusals ineligible_left v.normalization_reasons
        ++ link_refusals link
        ++ operations_refusals decided.refusal
        ++ maturity_refusals (borrows c.concept) v.maturity
        ++ scope_refusals (identity_scope scope)

    abbrev pub fields_missing : List Refusal
    fields_missing = identity_refusals (linked_issuer link) c.concept (identity_scope scope) v

    abbrev pub candidate_identity : Option Identity
    candidate_identity =
        identity_of (borrows c.concept) (linked_issuer link) c.concept (identity_scope scope) v

    abbrev pub refused_for : List Refusal → Admission
    refused_for rs = record {
      admitted = false;
      value_kind = none;
      reasons = rs;
      lifted_reasons = lifted_by decided.lift v.ineligible_reasons;
      operations_route = route_of decided v.is_trusted;
      identity = none;
    }

    abbrev pub admitted_as : Identity → Admission
    admitted_as i = record {
      admitted = true;
      value_kind = value_kind_of ineligible_left v.normalization_reasons;
      reasons = [];
      lifted_reasons = lifted_by decided.lift v.ineligible_reasons;
      operations_route = route_of decided v.is_trusted;
      identity = some i;
    }

    abbrev pub with_identity : Option Identity → Result
    with_identity none = raised
    with_identity (some i) =
        if is_identity concepts is_borrowing is_code i then done (admitted_as i) else raised

    -- `admit`
    unfoldable pub admit : Result
    unfolding rule_refusals
    admit =
        if not (null? rule_refusals)
        then done (refused_for rule_refusals)
        else if not (null? fields_missing)
        then done (refused_for fields_missing)
        else with_identity candidate_identity
