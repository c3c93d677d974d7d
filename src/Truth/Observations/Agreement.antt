-- ===== src/Truth/Observations/Agreement.antt =====
-- What the absence of a disagreeing pair says of all pairs.
use mathlib.Core.List.{Memᴰ}
use cse_analysis.Base.{
  ◌≡◌, refl, sym, Bool, false, ◌||◌, List, [], ◌∷◌, arith, any, any-false, ◌∙◌, inl, inr,
  mem-uncons,
}
use cse_analysis.Base.Int.{◌≤ℤ◌, int_laws}
use cse_analysis.Truth.Values.{
  ValueResult, Member, numeric, compare_members, compare_values, agree, low_end, high_end,
}
use cse_analysis.Truth.Values.Extrema.{agree-meets}
use cse_analysis.Truth.Observations.{any_pair, pair_fails, pair_disagrees}

-- Where no pair passes a test, every two elements are related, for a symmetric relation that the
-- failed test gives and that each element has to itself.
pub any_pair-false {ℓ κ} :
    {A : Type ℓ} (q : A → A → Bool) (P : A → A → Type κ) (xs : List A)
    → ((a b : A) → q a b ≡ false → P a b)
    → ((a b : A) → P a b → P b a)
    → ((a : A) → Memᴰ a xs → P a a)
    → any_pair q xs ≡ false
    → (a b : A) → Memᴰ a xs
    → Memᴰ b xs
    → P a b
any_pair-false q P [] given symm self h a b ma mb = elim ma [ ]
any_pair-false q P (x ∷ xs) given symm self h a b ma mb =
    let first : any (q x) xs ≡ false = ground arith in
    let later : any_pair q xs ≡ false = ground arith in
    elim (mem-uncons ma) [
      | inl ea ↦ elim (mem-uncons mb) [
        | inl eb ↦ rw (ea, eb) (self x (Memᴰ.head refl))
        | inr mb' ↦ rw ea (given x b (any-false (q x) first mb'))
      ]
      | inr ma' ↦ elim (mem-uncons mb) [
        | inl eb ↦ rw eb (symm x a (given x a (any-false (q x) first ma')))
        | inr mb' ↦ any_pair-false q P xs given symm (λ y m. self y (Memᴰ.tail m)) later a b ma' mb'
      ]
    ]

any-or {ℓ} :
    {A : Type ℓ} (p q : A → Bool) (xs : List A)
    → any p xs ≡ false
    → any q xs ≡ false
    → any (λ a. p a || q a) xs ≡ false
any-or p q [] h k = refl
any-or p q (x ∷ xs) h k = ground (arith, any-or p q xs)

pub any_pair-or {ℓ} :
    {A : Type ℓ} (p q : A → A → Bool) (xs : List A)
    → any_pair p xs ≡ false
    → any_pair q xs ≡ false
    → any_pair (λ a b. p a b || q a b) xs ≡ false
any_pair-or p q [] h k = refl
any_pair-or p q (x ∷ xs) h k = ground (arith, any-or (p x) (q x) xs, any_pair-or p q xs)

-- The two values' intervals meet.
abbrev pub Meets : ValueResult → ValueResult → Type 0
Meets a b = (low_end a ≤ℤ high_end b) × (low_end b ≤ℤ high_end a)

-- Two members are of one kind, and where they are numbers their intervals meet.
pub record Fits (a b : Member) : Type 0 where
  pub same_kind : a.value_kind ≡ b.value_kind
  pub meets : a.value_kind ≡ numeric → Meets a.value b.value

pub Fits-symm : (a b : Member) → Fits a b → Fits b a
Fits-symm a b f = record {
  same_kind = sym f.same_kind;
  meets = λ n. let m = f.meets (f.same_kind ∙ n) in (m.1, m.0);
}

pub Fits-self : (a : Member) → Fits a a
Fits-self a = record { same_kind = refl; meets = λ n. (omega int_laws, omega int_laws) }

abbrev pub pair_bad : Member → Member → Bool
pair_bad a b = pair_fails a b || pair_disagrees a b

compare_members-kind : (a b : Member) → pair_bad a b ≡ false → a.value_kind ≡ b.value_kind
unfolding compare_members
compare_members-kind a b h = ground arith

compare_members-agree :
    (a b : Member)
    → pair_bad a b ≡ false
    → a.value_kind ≡ numeric
    → compare_values a.value b.value ≡ agree
unfolding compare_members
compare_members-agree a b h n = ground arith

pub good-Fits : (a b : Member) → pair_bad a b ≡ false → Fits a b
good-Fits a b h = record {
  same_kind = compare_members-kind a b h;
  meets = λ n. agree-meets a.value b.value (compare_members-agree a b h n);
}
