-- ===== src/Truth/Admission/Rules.antt =====
-- What an admission shows, and when it is none.
use cse_analysis.Base.{
  ℕ, ◌≡◌, refl, ap, sym, subst, ◌∙◌, Bool, true, false, not, ◌&&◌, ◌||◌, Option, none, some, List,
  [], ◌∷◌, ◌++◌, is_none, is_some, null?, Bool-cases, inl, inr, ◌⊎◌, arith, if◌then◌else◌,
}
use cse_analysis.Truth.Partition.{Candidate, operations_decision, Op1Outcome}
use cse_analysis.Truth.Identity.{
  PeriodKind, instant, duration, Maturity, current, non_current, not_applicable, Identity,
  is_identity, Scope,
}
use cse_analysis.Truth.Admission.{
  IneligibleReason, NormalizationReason, Validation, IssuerLinkDecision, ReportedScope, Refusal,
  Admission, Result, raised, done, is_nil_only, left_by, value_refusals, is_admissible_basis,
  link_refusals, linked_issuer, operations_refusals, maturity_refusals, scope_refusals,
  is_determined, identity_scope, borrows, rule_refusals, fields_missing, candidate_identity,
  refused_for, admitted_as, with_identity, admit, ◌>>=◌, missing, Field, identity_of,
  identity_refusals, is_duration, months_of, maturity_of, issuer_id, concept_key, period_kind,
  period_end, scope, operations, currency, duration_months,
}

null-++ : (xs ys : List Refusal) → null? (xs ++ ys) ≡ true → (null? xs ≡ true) × (null? ys ≡ true)
null-++ [] ys h = (refl, h)
null-++ (x ∷ xs) ys h = cc

value_refusals-null :
    (rs : List IneligibleReason) (ns : List NormalizationReason)
    → null? (value_refusals rs ns) ≡ true
    → (null? rs ≡ true) × ((null? ns || is_nil_only ns) ≡ true)
unfolding value_refusals
value_refusals-null rs ns h = ground arith

abbrev pub issuer_of : Option IssuerLinkDecision → Option ℕ
issuer_of none = none
issuer_of (some l) = l.issuer_id

-- What the rules ask of a link
abbrev pub is_relied_on : Option IssuerLinkDecision → Bool
is_relied_on none = false
is_relied_on (some l) = l.is_evidenced && is_admissible_basis l.basis

link_refusals-null :
    (l : Option IssuerLinkDecision) → null? (link_refusals l) ≡ true → is_relied_on l ≡ true
unfolding link_refusals
link_refusals-null none h = cc
link_refusals-null (some l) h = ground arith

operations_refusals-null :
    (o : Option Op1Outcome) → null? (operations_refusals o) ≡ true → is_none o ≡ true
unfolding operations_refusals
operations_refusals-null none h = refl
operations_refusals-null (some o) h = cc

scope_refusals-null :
    (s : ReportedScope)
    → null? (scope_refusals (identity_scope s)) ≡ true
    → is_some (identity_scope s) ≡ true
unfolding scope_refusals
scope_refusals-null s h = ground arith

pub done_eq : (a b : Admission) → done a ≡ done b → b ≡ a
done_eq a b h = cc

module _ (concepts : ℕ → Option PeriodKind) (is_borrowing : ℕ → Bool) (is_code : ℕ → Bool)
    (c : Candidate) (cs : List Candidate) (v : Validation) (link : Option IssuerLinkDecision)
    (reported : ReportedScope) where
  -- A-1 to A-5 hold.
  pub record IsClear : Type 0 where
    pub eligible : null? (left_by (operations_decision c cs).lift v.ineligible_reasons) ≡ true
    pub normalised : (null? v.normalization_reasons || is_nil_only v.normalization_reasons) ≡ true
    pub linked : is_relied_on link ≡ true
    pub operations_stand : is_none (operations_decision c cs).refusal ≡ true
    pub maturity_known :
        (not (borrows concepts is_borrowing is_code c.concept) || is_determined v.maturity) ≡ true
    pub scope_known : is_some (identity_scope reported) ≡ true

  rule_refusals-null :
      null? (rule_refusals concepts is_borrowing is_code c cs v link reported) ≡ true → IsClear
  unfolding rule_refusals value_refusals maturity_refusals
  rule_refusals-null h =
      let left = left_by (operations_decision c cs).lift v.ineligible_reasons in
      let values = value_refusals left v.normalization_reasons in
      let links = link_refusals link in
      let ops = operations_refusals (operations_decision c cs).refusal in
      let mat = maturity_refusals (borrows concepts is_borrowing is_code c.concept) v.maturity in
      let scopes = scope_refusals (identity_scope reported) in
      let (h4, hs) = null-++ (values ++ links ++ ops ++ mat) scopes h in
      let (h3, hm) = null-++ (values ++ links ++ ops) mat h4 in
      let (h2, ho) = null-++ (values ++ links) ops h3 in
      let (hv, hl) = null-++ values links h2 in
      let (e, n) = value_refusals-null left v.normalization_reasons hv in
      record {
        eligible = e;
        normalised = n;
        linked = link_refusals-null link hl;
        operations_stand = operations_refusals-null (operations_decision c cs).refusal ho;
        maturity_known = ground arith;
        scope_known = scope_refusals-null reported hs;
      }

  pub with_identity-done :
      (o : Option Identity) (a : Admission)
      → with_identity concepts is_borrowing is_code c cs v link reported o ≡ done a
      → (i : Identity) × (o ≡ some i)
        × (is_identity concepts is_borrowing is_code i ≡ true)
        × (a ≡ admitted_as concepts is_borrowing is_code c cs v link reported i)
  with_identity-done none a h = cc
  with_identity-done (some i) a h =
      elim (Bool-cases (is_identity concepts is_borrowing is_code i)) [
        | inl e ↦ (i, refl, e, done_eq _ _ (rw e at h))
        | inr e ↦ let h' : raised ≡ done a = rw e at h in cc
      ]

  pub with_identity-raised :
      (o : Option Identity)
      → with_identity concepts is_borrowing is_code c cs v link reported o ≡ raised
      → (o ≡ none)
        ⊎ ((i : Identity) × (o ≡ some i) × (is_identity concepts is_borrowing is_code i ≡ false))
  with_identity-raised none h = inl refl
  with_identity-raised (some i) h =
      elim (Bool-cases (is_identity concepts is_borrowing is_code i)) [
        | inl e ↦
            let h' : done (admitted_as concepts is_borrowing is_code c cs v link reported i)
                ≡ raised =
              rw e at h in
            cc
        | inr e ↦ inr (i, refl, e)
      ]

  -- The three ways in which `admit` ends
  pub data Ended (r : Result) : Type 0 where
    by_rules :
        null? (rule_refusals concepts is_borrowing is_code c cs v link reported) ≡ false
        → r
          ≡ done (
              refused_for concepts is_borrowing is_code c cs v link reported
                (rule_refusals concepts is_borrowing is_code c cs v link reported))
        → Ended r
    by_fields :
        IsClear
        → null? (fields_missing concepts is_borrowing is_code c cs v link reported) ≡ false
        → r
          ≡ done (
              refused_for concepts is_borrowing is_code c cs v link reported
                (fields_missing concepts is_borrowing is_code c cs v link reported))
        → Ended r
    by_identity :
        IsClear
        → null? (fields_missing concepts is_borrowing is_code c cs v link reported) ≡ true
        → r
          ≡ with_identity concepts is_borrowing is_code c cs v link reported
              (candidate_identity concepts is_borrowing is_code c cs v link reported)
        → Ended r

  pub admit-Ended : Ended (admit concepts is_borrowing is_code c cs v link reported)
  unfolding admit
  admit-Ended =
      elim (Bool-cases (null? (rule_refusals concepts is_borrowing is_code c cs v link reported))) [
        | inr e ↦ by_rules e (rw e refl)
        | inl e ↦
            elim (Bool-cases
              (null? (fields_missing concepts is_borrowing is_code c cs v link reported))) [
                | inr f ↦ by_fields (rule_refusals-null e) f (rw (e, f) refl)
                | inl f ↦ by_identity (rule_refusals-null e) f (rw (e, f) refl)
              ]
      ]

-- A borrowing's maturity is the validated one, `current` or `non_current` or, where it has none, not
-- applicable; nothing else has a maturity.
abbrev pub fits_borrowing : Bool → Option Maturity → Maturity → Bool
fits_borrowing true (some current) current = true
fits_borrowing true (some non_current) non_current = true
fits_borrowing true (some not_applicable) not_applicable = true
fits_borrowing true none not_applicable = true
fits_borrowing false m not_applicable = true
fits_borrowing _ _ _ = false

-- The fields of an identity are those of the candidate, all there.
pub record IsOf (i : Identity) (borrowing : Bool) (issuer concept : Option ℕ) (s : Option Scope)
    (v : Validation) : Type 0 where
  pub issuer_is : issuer ≡ some i.issuer_id
  pub concept_is : concept ≡ some i.concept_key
  pub kind_is : v.period_kind ≡ some i.period_kind
  pub end_is : v.end_date ≡ some i.period_end
  pub scope_is : s ≡ some i.scope
  pub operations_are : v.operations ≡ some i.operations
  pub currency_is : v.currency ≡ some i.currency
  pub months_are :
      i.duration_months ≡ (if is_duration v.period_kind then v.duration_months else none)
  pub maturity_is : fits_borrowing borrowing v.maturity i.maturity ≡ true

months_of-kind :
    (k : PeriodKind) (m : Option ℕ) → months_of k m ≡ (if is_duration (some k) then m else none)
months_of-kind instant m = refl
months_of-kind duration m = refl

maturity_of-fits : (b : Bool) (m : Option Maturity) → fits_borrowing b m (maturity_of b m) ≡ true
maturity_of-fits b m = ground arith

bind-some {ℓ κ} :
    {A : Type ℓ} {B : Type κ} (o : Option A) (f : A → Option B) {b : B}
    → (o >>= f) ≡ some b
    → (x : A) × (o ≡ some x) × (f x ≡ some b)
bind-some none f h = cc
bind-some (some x) f h = (x, refl, h)

some-eq : (j i : Identity) → some j ≡ some i → j ≡ i
some-eq j i h = cc

pub identity_of-IsOf :
    (b : Bool) (issuer concept : Option ℕ) (s : Option Scope) (v : Validation) (i : Identity)
    → identity_of b issuer concept s v ≡ some i
    → IsOf i b issuer concept s v
unfolding identity_of
identity_of-IsOf b issuer concept s v i h =
    let (x1, e1, h1) = bind-some issuer _ h in
    let (x2, e2, h2) = bind-some concept _ h1 in
    let (x3, e3, h3) = bind-some v.period_kind _ h2 in
    let (x4, e4, h4) = bind-some v.end_date _ h3 in
    let (x5, e5, h5) = bind-some s _ h4 in
    let (x6, e6, h6) = bind-some v.operations _ h5 in
    let (x7, e7, h7) = bind-some v.currency _ h6 in
    let q = some-eq _ i h7 in
    record {
      issuer_is = e1 ∙ ap (λ j. some j.issuer_id) q;
      concept_is = e2 ∙ ap (λ j. some j.concept_key) q;
      kind_is = e3 ∙ ap (λ j. some j.period_kind) q;
      end_is = e4 ∙ ap (λ j. some j.period_end) q;
      scope_is = e5 ∙ ap (λ j. some j.scope) q;
      operations_are = e6 ∙ ap (λ j. some j.operations) q;
      currency_is = e7 ∙ ap (λ j. some j.currency) q;
      months_are =
          ap (λ j. j.duration_months) (sym q)
          ∙ months_of-kind x3 v.duration_months
          ∙ ap (λ k. if is_duration k then v.duration_months else none) (sym e3);
      maturity_is =
          subst (λ j. fits_borrowing b v.maturity j.maturity ≡ true) q
            (maturity_of-fits b v.maturity);
    }

missing-null {ℓ} :
    {A : Type ℓ} (f : Field) (o : Option A) → null? (missing f o) ≡ true → (x : A) × (o ≡ some x)
missing-null f none h = cc
missing-null f (some x) h = (x, refl)

pub identity_of-some :
    (b : Bool) (issuer concept : Option ℕ) (s : Option Scope) (v : Validation)
    → null? (identity_refusals issuer concept s v) ≡ true
    → (i : Identity) × (identity_of b issuer concept s v ≡ some i)
unfolding identity_refusals identity_of
identity_of-some b issuer concept s v h =
    let m1 = missing issuer_id issuer in
    let m2 = missing concept_key concept in
    let m3 = missing period_kind v.period_kind in
    let m4 = missing period_end v.end_date in
    let m5 = missing scope s in
    let m6 = missing operations v.operations in
    let m7 = missing currency v.currency in
    let months =
      if is_duration v.period_kind then missing duration_months v.duration_months else [] in
    let (h7, _) = null-++ (m1 ++ m2 ++ m3 ++ m4 ++ m5 ++ m6 ++ m7) months h in
    let (h6, n7) = null-++ (m1 ++ m2 ++ m3 ++ m4 ++ m5 ++ m6) m7 h7 in
    let (h5, n6) = null-++ (m1 ++ m2 ++ m3 ++ m4 ++ m5) m6 h6 in
    let (h4, n5) = null-++ (m1 ++ m2 ++ m3 ++ m4) m5 h5 in
    let (h3, n4) = null-++ (m1 ++ m2 ++ m3) m4 h4 in
    let (h2, n3) = null-++ (m1 ++ m2) m3 h3 in
    let (n1, n2) = null-++ m1 m2 h2 in
    let (x1, e1) = missing-null issuer_id issuer n1 in
    let (x2, e2) = missing-null concept_key concept n2 in
    let (x3, e3) = missing-null period_kind v.period_kind n3 in
    let (x4, e4) = missing-null period_end v.end_date n4 in
    let (x5, e5) = missing-null scope s n5 in
    let (x6, e6) = missing-null operations v.operations n6 in
    let (x7, e7) = missing-null currency v.currency n7 in rw (e1, e2, e3, e4, e5, e6, e7) (_, refl)

pub link-issuer :
    (l : Option IssuerLinkDecision) (i : ℕ)
    → linked_issuer l ≡ some i
    → (is_relied_on l ≡ true) × (issuer_of l ≡ some i)
unfolding linked_issuer
link-issuer none i h = cc
link-issuer (some l) i h = elim (Bool-cases (l.is_evidenced && is_admissible_basis l.basis)) [
  | inl e ↦ (e, rw e at h)
  | inr e ↦ let h' : none ≡ some i = rw e at h in cc
]
