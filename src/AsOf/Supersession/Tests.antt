-- ===== src/AsOf/Supersession/Tests.antt =====
-- A report and its errata: the theorems about them.
use mathlib.Core.List.{Memᴰ}
use cse_analysis.Base.{
  ℕ, ◌≡◌, refl, sym, ap, ◌∙◌, ◌↔◌, ◌⊎◌, inl, inr, true, false, some, [], ◌∷◌, null?, any,
  mem-uncons, sort_by,
}
use cse_analysis.Base.Int.{pos}
use cse_analysis.Truth.Values.{Member, numeric}
use cse_analysis.Truth.Observations.{blank}
use cse_analysis.AsOf.Supersession.{
  Candidate, DocumentTimes, amendment, other_type, confirmed, supersedes, kept, derive,
  derive_sorted, ambiguities_of, bases, so_key,
}
use cse_analysis.AsOf.Supersession.Order.{Chain, Chain-acyclic}
use cse_analysis.AsOf.Supersession.Survivors.{KeysDistinct, kept-derive_iff, kept-nonempty}

abbrev member : ℕ → Member
member v = record {
  source_key = 1;
  value_kind = numeric;
  value = record {
    normalized = true;
    currency = 1;
    value_type = 1;
    normalized_value = pos v;
    half_unit = 0;
  };
  restated = false;
}

abbrev original : Candidate
original = record {
  observation = blank 1 1 1 101 (member 500 ∷ []);
  document_type = other_type;
  type_status = confirmed;
  available_at = some 10;
  filings = [];
}

abbrev amended : Candidate
amended = record {
  observation = blank 2 1 1 102 (member 700 ∷ []);
  document_type = amendment;
  type_status = confirmed;
  available_at = some 20;
  filings = [];
}

abbrev no_times : DocumentTimes
no_times d f = ([], [])

amended_first : supersedes no_times amended original ≡ true
unfolding bases
amended_first = refl

the_original_is_dropped :
    kept (derive (amended ∷ original ∷ []) no_times) (amended ∷ original ∷ []) ≡ amended ∷ []
unfolding kept derive derive_sorted ambiguities_of bases sort_by
the_original_is_dropped = refl

both_distinct : KeysDistinct (amended ∷ original ∷ [])
unfolding KeysDistinct
both_distinct a b ma mb h = elim (mem-uncons ma) [
  | inl p ↦ elim (mem-uncons mb) [
    | inl q ↦ cc
    | inr q ↦ elim (mem-uncons q) [
      | inl r ↦ let k : 2 ≡ 1 = (sym (ap so_key p) ∙ h) ∙ ap so_key r in cc
      | inr r ↦ elim r [ ]
    ]
  ]
  | inr p ↦ elim (mem-uncons p) [
    | inr r ↦ elim r [ ]
    | inl r ↦ elim (mem-uncons mb) [
      | inl q ↦ let k : 1 ≡ 2 = (sym (ap so_key r) ∙ h) ∙ ap so_key q in cc
      | inr q ↦ elim (mem-uncons q) [ inl t ↦ cc | inr t ↦ elim t [ ] ]
    ]
  ]
]

Chain-acyclic_example : ¬ Chain no_times amended amended
Chain-acyclic_example = Chain-acyclic no_times amended

kept-derive_iff_example :
    Memᴰ original (kept (derive (amended ∷ original ∷ []) no_times) (amended ∷ original ∷ [])) ↔ (
      (null? (derive (amended ∷ original ∷ []) no_times).ambiguities ≡ false)
      ⊎ (any (λ s. supersedes no_times s original) (amended ∷ original ∷ []) ≡ false))
kept-derive_iff_example =
    kept-derive_iff (amended ∷ original ∷ []) no_times original both_distinct
      (Memᴰ.tail (Memᴰ.head refl))

kept-nonempty_example :
    null? (kept (derive (amended ∷ original ∷ []) no_times) (amended ∷ original ∷ [])) ≡ false
kept-nonempty_example = kept-nonempty no_times amended (original ∷ []) both_distinct
