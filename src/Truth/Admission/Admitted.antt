-- ===== src/Truth/Admission/Admitted.antt =====
-- What `admit` concludes: what an admission shows, how its parts belong together, and when it is none.
use cse_analysis.Base.{
  ℕ, ◌≡◌, refl, ap, sym, subst, ◌∙◌, Bool, true, false, ◌||◌, Option, none, some, List, is_none,
  is_some, null?, arith,
}
use cse_analysis.Truth.Partition.{
  TermRow, Candidate, operations_decision, OperationsBasis, row_label, no_label, section_label,
  decide_basis, decide_outcome, Op1Record, Op1Outcome, pass, fail, insufficient_evidence,
  is_section, is_from_section, members_of, record_for,
}
use cse_analysis.Truth.Partition.Adds.{IsPartition, IsPart, operations_decision-lift}
use cse_analysis.Truth.Identity.{PeriodKind, Identity, is_identity}
use cse_analysis.Truth.Admission.{
  IneligibleReason, NormalizationReason, Validation, IssuerLinkDecision, ReportedScope, Admission,
  Result, done, is_nil_only, value_kind_of, linked_issuer, identity_scope, borrows,
  candidate_identity, admit, left_by,
}
use cse_analysis.Truth.Admission.Rules.{
  IsClear, Ended, by_rules, by_fields, by_identity, admit-Ended, with_identity-done,
  identity_of-IsOf, IsOf, done_eq,
}

value_kind_of-some :
    (rs : List IneligibleReason) (ns : List NormalizationReason)
    → null? rs ≡ true
    → (null? ns || is_nil_only ns) ≡ true
    → is_some (value_kind_of rs ns) ≡ true
unfolding value_kind_of
value_kind_of-some rs ns h k = ground arith

-- Where no refusal is left on a section heading's operations, its refusal is lifted.
stands-lift :
    (b : OperationsBasis) (key : ℕ) (r : Option Op1Record)
    → is_section b ≡ true
    → is_none (decide_basis b key r).refusal ≡ true
    → (decide_basis b key r).lift ≡ true
stands-lift row_label key r h k = cc
stands-lift no_label key r h k = cc
stands-lift section_label key none h k = cc
stands-lift section_label key (some r) h k = by_outcome r.outcome r.validated k
  where
    by_outcome :
        (o : Op1Outcome) (keys : List ℕ)
        → is_none (decide_outcome o key keys).refusal ≡ true
        → (decide_outcome o key keys).lift ≡ true
    by_outcome pass keys e = ground arith
    by_outcome fail keys e = cc
    by_outcome insufficient_evidence keys e = cc

operations_decision-stands :
    (c : Candidate) (cs : List Candidate)
    → is_from_section c.row ≡ true
    → is_none (operations_decision c cs).refusal ≡ true
    → (operations_decision c cs).lift ≡ true
unfolding operations_decision
operations_decision-stands c cs h k =
    stands-lift c.row.operations_basis c.row.source_key (record_for c.group c.concept cs) h k

module _ (concepts : ℕ → Option PeriodKind) (is_borrowing : ℕ → Bool) (is_code : ℕ → Bool)
    (c : Candidate) (cs : List Candidate) (v : Validation) (link : Option IssuerLinkDecision)
    (reported : ReportedScope) where
  -- An admitted candidate
  pub record IsAdmitted (a : Admission) : Type 0 where
    pub clear : IsClear concepts is_borrowing is_code c cs v link reported
    pub fact : Identity
    pub identity_is : a.identity ≡ some fact
    pub fields :
        IsOf fact
          (borrows concepts is_borrowing is_code c.concept)
          (linked_issuer link)
          c.concept
          (identity_scope reported)
          v
    pub is_fact : is_identity concepts is_borrowing is_code fact ≡ true

  Ended-IsAdmitted :
      (r : Result) (a : Admission)
      → Ended concepts is_borrowing is_code c cs v link reported r
      → r ≡ done a
      → a.admitted ≡ true
      → IsAdmitted a
  Ended-IsAdmitted r a (by_rules e q) h k =
      let p = done_eq _ a (sym q ∙ h) in
      let no : false ≡ true = sym (ap (λ x. x.admitted) p) ∙ k in cc
  Ended-IsAdmitted r a (by_fields n e q) h k =
      let p = done_eq _ a (sym q ∙ h) in
      let no : false ≡ true = sym (ap (λ x. x.admitted) p) ∙ k in cc
  Ended-IsAdmitted r a (by_identity n e q) h k =
      let (i, o, ok, p) =
        with_identity-done concepts is_borrowing is_code c cs v link reported
          (candidate_identity concepts is_borrowing is_code c cs v link reported) a (sym q ∙ h) in
      record {
        clear = n;
        fact = i;
        identity_is = ap (λ x. x.identity) p;
        fields = identity_of-IsOf _ _ _ _ v i o;
        is_fact = ok;
      }

  abbrev PartsAgree : Admission → Type 0
  PartsAgree a =
      (a.admitted ≡ null? a.reasons)
      × (a.admitted ≡ is_some a.identity)
      × (a.admitted ≡ is_some a.value_kind)

  Ended-PartsAgree :
      (r : Result) (a : Admission)
      → Ended concepts is_borrowing is_code c cs v link reported r
      → r ≡ done a
      → PartsAgree a
  Ended-PartsAgree r a (by_rules e q) h =
      subst PartsAgree (sym (done_eq _ a (sym q ∙ h))) (sym e, refl, refl)
  Ended-PartsAgree r a (by_fields n e q) h =
      subst PartsAgree (sym (done_eq _ a (sym q ∙ h))) (sym e, refl, refl)
  Ended-PartsAgree r a (by_identity n e q) h =
      let (i, o, ok, p) =
        with_identity-done concepts is_borrowing is_code c cs v link reported
          (candidate_identity concepts is_borrowing is_code c cs v link reported) a (sym q ∙ h) in
      subst PartsAgree (sym p) (
        refl,
        refl,
        sym (
            value_kind_of-some (left_by (operations_decision c cs).lift v.ineligible_reasons)
              v.normalization_reasons n.eligible n.normalised),
      )

  pub admit-IsAdmitted :
      (a : Admission)
      → admit concepts is_borrowing is_code c cs v link reported ≡ done a
      → a.admitted ≡ true
      → IsAdmitted a
  admit-IsAdmitted a h k =
      Ended-IsAdmitted (admit concepts is_borrowing is_code c cs v link reported) a
        (admit-Ended concepts is_borrowing is_code c cs v link reported) h k

  -- Whatever `admit` concludes, the candidate is admitted exactly when no refusal is recorded, and
  -- it has an identity and a kind of value exactly then.
  pub admit-PartsAgree :
      (a : Admission)
      → admit concepts is_borrowing is_code c cs v link reported ≡ done a
      → (a.admitted ≡ null? a.reasons)
        × (a.admitted ≡ is_some a.identity)
        × (a.admitted ≡ is_some a.value_kind)
  admit-PartsAgree a h =
      Ended-PartsAgree (admit concepts is_borrowing is_code c cs v link reported) a
        (admit-Ended concepts is_borrowing is_code c cs v link reported) h

  -- A candidate whose operations a section heading gives is admitted only where its statement column
  -- shows a partition for its concept: the continuing and the discontinued value, each printed by
  -- a numeric row, of one currency and one type and with no row of another value or a nil, add up
  -- to the total within the half-units that are printed. And the candidate's row is one of the two
  -- parts.
  pub admit-IsPartition :
      (a : Admission)
      → admit concepts is_borrowing is_code c cs v link reported ≡ done a
      → a.admitted ≡ true
      → is_from_section c.row ≡ true
      → (k : ℕ) × (c.concept ≡ some k)
        × IsPartition (members_of c.group k cs)
        × (r : TermRow) × IsPart (members_of c.group k cs) c.row.source_key r
  admit-IsPartition a h k s =
      let n = (admit-IsAdmitted a h k).clear in
      let (f, i, e, p, r, q) =
        operations_decision-lift c cs (operations_decision-stands c cs s n.operations_stand) in
      (i, e, p, r, q)
