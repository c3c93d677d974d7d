-- ===== src/Truth/Values.antt =====
-- Observed values and their comparison: `compare_values` (V8) of worker/financial_validation.py, and
-- `compare_members`, `finest` and `interval` of worker/financial_truth/observations.py.
--
-- A decimal is an integer at one scale, fine enough for every value and half-unit of the fact: the
-- source's decimal context traps any inexact result, so its sums and differences are exact. Keys,
-- currencies and value types are only compared, so they are numbers.
pub mod Extrema
pub mod Finest
use cse_analysis.Base.{
  ℕ, ◌+◌, Bool, true, false, not, ◌&&◌, ◌||◌, Option, none, some, List, [], ◌∷◌, map, leb, ltb,
  ◌==◌, if◌then◌else◌, keep, any,
}
use cse_analysis.Base.Int.{ℤ, pos, pos_part, neg_part, ◌+ℤ◌, ◌-ℤ◌, ltb_ℤ}

-- `ValueResult`, as far as a comparison reads it
pub record ValueResult : Type 0 where
  pub normalized : Bool
  pub currency : ℕ
  pub value_type : ℕ
  pub normalized_value : ℤ
  pub half_unit : ℕ

pub data Incomparable : Type 0 where
  not_normalized currency_differs value_type_differs : Incomparable

pub data Outcome : Type 0 where
  agree disagree : Outcome
  incomparable : Incomparable → Outcome

unfoldable pub abs_ℤ : ℤ → ℕ
abs_ℤ a = pos_part a + neg_part a

-- V8
unfoldable pub compare_values : ValueResult → ValueResult → Outcome
compare_values a b =
    if not a.normalized || not b.normalized
    then incomparable not_normalized
    else if not (a.currency == b.currency)
    then incomparable currency_differs
    else if not (a.value_type == b.value_type)
    then incomparable value_type_differs
    else if leb (abs_ℤ (a.normalized_value -ℤ b.normalized_value)) (a.half_unit + b.half_unit)
    then agree
    else disagree

pub data ValueKind : Type 0 where
  numeric nil : ValueKind

-- `SOMember`, as far as the conclusions read it
pub record Member : Type 0 where
  pub source_key : ℕ
  pub value_kind : ValueKind
  pub value : ValueResult
  pub restated : Bool

abbrev pub is_nil : ValueKind → Bool
is_nil nil = true
is_nil numeric = false

-- `compare_members`; an incomparable pair is the `InputError`.
unfoldable pub compare_members : Member → Member → Outcome
compare_members a b =
    if is_nil a.value_kind || is_nil b.value_kind
    then if is_nil a.value_kind && is_nil b.value_kind then agree else disagree
    else compare_values a.value b.value

abbrev pub disagrees : Outcome → Bool
disagrees disagree = true
disagrees _ = false

abbrev pub fails : Outcome → Bool
fails (incomparable _) = true
fails _ = false

-- The test of the Python set `len({...}) > 1`: some value differs from the first.
unfoldable pub differ : List ℤ → Bool
differ [] = false
differ (x ∷ xs) = any (λ y. ltb_ℤ x y || ltb_ℤ y x) xs

-- Python's `min` and `max`: the element that no other one is below, by a test; `none` on an empty
-- list.
unfoldable pub best {ℓ} : {A : Type ℓ} → (A → A → Bool) → List A → Option A
best below [] = none
best below (x ∷ xs) = elim (best below xs) [
  | none ↦ some x
  | some m ↦ some (if below m x then m else x)
]

abbrev pub minimum : List ℕ → Option ℕ
minimum = best ltb

abbrev pub lowest : List ℤ → Option ℤ
lowest = best ltb_ℤ

abbrev pub highest : List ℤ → Option ℤ
highest = best (λ a b. ltb_ℤ b a)

-- An entry of `finest`: its half-unit, its value and what it refers to.
pub record Entry {ℓ} (R : Type ℓ) : Type ℓ where
  pub half_unit : ℕ
  pub normalized_value : ℤ
  pub ref : R

abbrev pub first_ref {ℓ} : {R : Type ℓ} → List (Entry R) → Option R
first_ref [] = none
first_ref (e ∷ es) = some e.ref

abbrev pub tied_at {ℓ} : {R : Type ℓ} → Option ℕ → List (Entry R) → List (Entry R)
tied_at none es = []
tied_at (some h) es = keep (λ e. e.half_unit == h) es

-- `finest`: the reference, and whether it is ambiguous
unfoldable pub finest {ℓ} : {R : Type ℓ} → List (Entry R) → Option R × Bool
unfolding differ
finest es =
    let tied = tied_at (minimum (map (λ e. e.half_unit) es)) es in
    if differ (map (λ e. e.normalized_value) tied) then (none, true) else (first_ref tied, false)

abbrev pub low_end : ValueResult → ℤ
low_end v = v.normalized_value -ℤ pos v.half_unit

abbrev pub high_end : ValueResult → ℤ
high_end v = v.normalized_value +ℤ pos v.half_unit

-- `interval`
unfoldable pub interval : List ValueResult → Option ℤ × Option ℤ
interval vs = (highest (map low_end vs), lowest (map high_end vs))
