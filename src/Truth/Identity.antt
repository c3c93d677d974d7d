-- ===== src/Truth/Identity.antt =====
-- worker/financial_truth/identity.py: the identity of an economic fact, and the checks of its fields.
--
-- Issuers, concepts and currencies are numbers; an issuer's number stands for a text that is not
-- empty. The table of the active concepts with their period kinds, the borrowing concepts and the test
-- of a currency code are parameters.
use cse_analysis.Base.{ℕ, suc, Bool, true, false, ◌&&◌, Option, none, some}
use cse_analysis.Truth.Partition.{Operations}

pub data PeriodKind : Type 0 where
  instant duration : PeriodKind

pub data Maturity : Type 0 where
  current non_current not_applicable : Maturity

pub data Scope : Type 0 where
  group company bank unlabelled : Scope

pub record Identity : Type 0 where
  pub issuer_id : ℕ
  pub concept_key : ℕ
  pub period_kind : PeriodKind
  pub period_end : ℕ
  pub duration_months : Option ℕ
  pub scope : Scope
  pub operations : Operations
  pub maturity : Maturity
  pub currency : ℕ

abbrev pub fits_concept : Option PeriodKind → PeriodKind → Bool
fits_concept (some instant) instant = true
fits_concept (some duration) duration = true
fits_concept _ _ = false

abbrev pub fits_months : PeriodKind → Option ℕ → Bool
fits_months duration (some (suc n)) = true
fits_months instant none = true
fits_months _ _ = false

abbrev pub fits_maturity : Bool → Maturity → Bool
fits_maturity false not_applicable = true
fits_maturity true current = true
fits_maturity true non_current = true
fits_maturity _ _ = false

module _ (concepts : ℕ → Option PeriodKind) (is_borrowing : ℕ → Bool) (is_code : ℕ → Bool) where
  -- The checks of `EconomicFactIdentity`
  unfoldable pub is_identity : Identity → Bool
  is_identity i =
      fits_concept (concepts i.concept_key) i.period_kind
      && fits_months i.period_kind i.duration_months
      && fits_maturity (is_borrowing i.concept_key) i.maturity
      && is_code i.currency
