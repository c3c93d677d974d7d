-- ===== src/Truth/Values/Extrema.antt =====
-- The extrema of a list bound it and are among it; what agreement says of two intervals.
use mathlib.Core.List.{Memᴰ}
use cse_analysis.Base.{
  ℕ, ◌+◌, ◌≤◌, ◌≡◌, refl, ap, ◌∙◌, subst, Bool, true, false, Option, some, List, [], ◌∷◌, arith,
  inl, inr, Bool-cases, ltb, if◌then◌else◌, All, All-mem,
}
use cse_analysis.Base.Int.{ℤ, ◌-ℤ◌, ◌≤ℤ◌, ltb_ℤ, int_laws}
use cse_analysis.Truth.Values.{
  ValueResult, agree, compare_values, abs_ℤ, best, lowest, highest, minimum, low_end, high_end,
}

module _ {ℓ} {A : Type ℓ} (below : A → A → Bool) where
  pub best-cons : (x : A) (xs : List A) → (k : A) × (best below (x ∷ xs) ≡ some k)
  unfolding best
  best-cons x [] = (x, refl)
  best-cons x (y ∷ ys) = let (k, e) = best-cons y ys in (if below k x then k else x, rw e)

  -- The best element is among them.
  pub best-mem : (xs : List A) (m : A) → best below xs ≡ some m → Memᴰ m xs
  unfolding best
  best-mem [] m h = cc
  best-mem (x ∷ []) m h = Memᴰ.head (cc)
  best-mem (x ∷ y ∷ ys) m h =
      let (k, e) = best-cons y ys in
      let h' : some (if below k x then k else x) ≡ some m = rw e at h in
      elim (Bool-cases (below k x)) [
        | inl b ↦ let q : k ≡ m = ground arith in Memᴰ.tail (best-mem (y ∷ ys) m (e ∙ ap some q))
        | inr b ↦ Memᴰ.head (ground arith)
      ]

module _ {ℓ κ} {A : Type ℓ} (below : A → A → Bool) (R : A → A → Type κ) (same : (a : A) → R a a)
    (trans : (a b c : A) → R a b → R b c → R a c) (yes_below : (a b : A) → below a b ≡ true → R a b)
    (not_below : (a b : A) → below a b ≡ false → R b a) where
  All-weaken : (m k : A) (xs : List A) → R m k → All (λ x. R k x) xs → All (λ x. R m x) xs
  All-weaken m k [] r h = tt
  All-weaken m k (x ∷ xs) r h = (trans m k x r h.0, All-weaken m k xs r h.1)

  -- The best element bounds them all.
  pub best-All : (xs : List A) (m : A) → best below xs ≡ some m → All (λ x. R m x) xs
  unfolding best
  best-All [] m h = tt
  best-All (x ∷ []) m h = let e : x ≡ m = cc in (rw e (same m), tt)
  best-All (x ∷ y ∷ ys) m h =
      let (k, e) = best-cons below y ys in
      let h' : some (if below k x then k else x) ≡ some m = rw e at h in
      elim (Bool-cases (below k x)) [
        | inl b ↦
            let q : k ≡ m = ground arith in
            (rw (← q) (yes_below k x b), best-All (y ∷ ys) m (e ∙ ap some q))
        | inr b ↦
            let q : x ≡ m = ground arith in
            subst (λ z. All (λ w. R z w) (x ∷ y ∷ ys)) q
              (same x, All-weaken x k (y ∷ ys) (not_below k x b) (best-All (y ∷ ys) k e))
      ]

agree_close :
    (a b : ValueResult)
    → compare_values a b ≡ agree
    → abs_ℤ (a.normalized_value -ℤ b.normalized_value) ≤ a.half_unit + b.half_unit
unfolding compare_values
agree_close a b h = ground arith

-- Two values that agree have intervals that meet.
pub agree-meets :
    (a b : ValueResult)
    → compare_values a b ≡ agree
    → (low_end a ≤ℤ high_end b) × (low_end b ≤ℤ high_end a)
unfolding abs_ℤ
agree-meets a b h =
    let close : abs_ℤ (a.normalized_value -ℤ b.normalized_value) ≤ a.half_unit + b.half_unit =
      agree_close a b h in
    (omega int_laws, omega int_laws)

-- The extrema of the source, as instances.
module _ (xs : List ℤ) (m : ℤ) where
  pub lowest-All : lowest xs ≡ some m → All (λ x. m ≤ℤ x) xs
  lowest-All =
      best-All ltb_ℤ ◌≤ℤ◌ (λ a. omega int_laws) (λ a b c p q. omega int_laws)
        (λ a b p. ground arith) (λ a b p. ground arith) xs m

  pub highest-All : highest xs ≡ some m → All (λ x. x ≤ℤ m) xs
  highest-All =
      best-All (λ a b. ltb_ℤ b a) (λ a b. b ≤ℤ a) (λ a. omega int_laws)
        (λ a b c p q. omega int_laws) (λ a b p. ground arith) (λ a b p. ground arith) xs m

  pub lowest-mem : lowest xs ≡ some m → Memᴰ m xs
  lowest-mem = best-mem ltb_ℤ xs m

  pub highest-mem : highest xs ≡ some m → Memᴰ m xs
  highest-mem = best-mem (λ a b. ltb_ℤ b a) xs m

pub minimum-All : (xs : List ℕ) (m : ℕ) → minimum xs ≡ some m → All (λ x. m ≤ x) xs
minimum-All =
    best-All ltb ◌≤◌ (λ a. omega arith) (λ a b c p q. omega arith) (λ a b p. ground arith)
      (λ a b p. ground arith)

-- The greatest of some numbers, by the same function.
abbrev pub latest_by : List ℕ → Option ℕ
latest_by = best (λ a b. ltb b a)

pub latest_by-All : (xs : List ℕ) (m : ℕ) → latest_by xs ≡ some m → All (λ x. x ≤ m) xs
latest_by-All =
    best-All (λ a b. ltb b a) (λ a b. b ≤ a) (λ a. omega arith) (λ a b c p q. omega arith)
      (λ a b p. ground arith) (λ a b p. ground arith)

-- A list with an element has a greatest one, which is no less.
pub latest_by-le : {x : ℕ} (xs : List ℕ) → Memᴰ x xs → (m : ℕ) × (latest_by xs ≡ some m) × (x ≤ m)
latest_by-le [] m = elim m [ ]
latest_by-le {x} (y ∷ ys) mem =
    let (k, e) = best-cons (λ a b. ltb b a) y ys in
    (k, e, All-mem (λ z. z ≤ k) (latest_by-All (y ∷ ys) k e) mem)
