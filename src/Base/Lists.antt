-- ===== src/Base/Lists.antt =====
-- Lists measured by native numbers, with Boolean filters that run, and predicates by recursion.
use Prim.Native.Nat.{ℕ, suc}
use mathlib.Core.Path.{◌≡◌, refl, ap}
use mathlib.Core.Logic.{◌⊎◌, inl, inr}
use mathlib.Core.Bool.{Bool, true, false, ◌&&◌, ◌||◌}
use mathlib.Core.List.{List, [], ◌∷◌, ◌++◌, Memᴰ, map}
use mathlib.Core.Option.{Option, none, some}
use native.Mathlib.Omega.{arith}
use cse_analysis.Base.Tests.{Bool-cases, is_some, if◌then◌else◌}

module _ {ℓ} {A : Type ℓ} where
  abbrev pub length : List A → ℕ
  length [] = 0
  length (_ ∷ xs) = suc (length xs)

  -- `[x for x in xs if p(x)]`
  abbrev pub keep : (A → Bool) → List A → List A
  keep p [] = []
  keep p (x ∷ xs) = if p x then x ∷ keep p xs else keep p xs

  -- `any(p(x) for x in xs)` and `all(...)`
  abbrev pub any : (A → Bool) → List A → Bool
  any p [] = false
  any p (x ∷ xs) = p x || any p xs

  abbrev pub all : (A → Bool) → List A → Bool
  all p [] = true
  all p (x ∷ xs) = p x && all p xs

  -- `sum(1 for x in xs if p(x))`
  abbrev pub count : (A → Bool) → List A → ℕ
  count p [] = 0
  count p (x ∷ xs) = if p x then suc (count p xs) else count p xs

  -- `xs[-1] if xs else None`
  abbrev pub last? : List A → Option A
  last? [] = none
  last? (x ∷ []) = some x
  last? (x ∷ y ∷ xs) = last? (y ∷ xs)

  abbrev pub null? : List A → Bool
  null? [] = true
  null? (_ ∷ _) = false

module _ {ℓ κ} {A : Type ℓ} where
  abbrev pub All : (A → Type κ) → List A → Type κ
  All P [] = Unit
  All P (x ∷ xs) = P x × All P xs

  pub All-mem : (P : A → Type κ) {x : A} {xs : List A} → All P xs → Memᴰ x xs → P x
  All-mem P h (Memᴰ.head e) = rw e h.0
  All-mem P h (Memᴰ.tail m) = All-mem P h.1 m

  pub mem-All : (P : A → Type κ) (xs : List A) → ((x : A) → Memᴰ x xs → P x) → All P xs
  mem-All P [] h = tt
  mem-All P (x ∷ xs) h = (h x (Memᴰ.head refl), mem-All P xs (λ y m. h y (Memᴰ.tail m)))

module _ {ℓ} {A : Type ℓ} (p : A → Bool) where
  pub any-true : (xs : List A) → any p xs ≡ true → (x : A) × Memᴰ x xs × (p x ≡ true)
  any-true [] h = cc
  any-true (y ∷ ys) h = elim (Bool-cases (p y)) [
    | inl e ↦ (y, Memᴰ.head refl, e)
    | inr e ↦
        let h' : any p ys ≡ true = ground arith in
        let (x, m, px) = any-true ys h' in (x, Memᴰ.tail m, px)
  ]

  pub mem-any : {x : A} {xs : List A} → Memᴰ x xs → p x ≡ true → any p xs ≡ true
  mem-any (Memᴰ.head e) h = rw (← e, h)
  mem-any (Memᴰ.tail m) h = ground (arith, mem-any m h)

  pub any-false : {x : A} {xs : List A} → any p xs ≡ false → Memᴰ x xs → p x ≡ false
  any-false h (Memᴰ.head e) = rw e (ground arith)
  any-false h (Memᴰ.tail m) = any-false (ground arith) m

  pub all-mem : {x : A} {xs : List A} → all p xs ≡ true → Memᴰ x xs → p x ≡ true
  all-mem h (Memᴰ.head e) = rw e (ground arith)
  all-mem h (Memᴰ.tail m) = all-mem (ground arith) m

  pub all-false : (xs : List A) → all p xs ≡ false → (x : A) × Memᴰ x xs × (p x ≡ false)
  all-false [] h = cc
  all-false (y ∷ ys) h = elim (Bool-cases (p y)) [
    | inl e ↦
        let h' : all p ys ≡ false = ground arith in
        let (x, m, px) = all-false ys h' in (x, Memᴰ.tail m, px)
    | inr e ↦ (y, Memᴰ.head refl, e)
  ]

  pub mem-keep : {x : A} {xs : List A} → Memᴰ x xs → p x ≡ true → Memᴰ x (keep p xs)
  mem-keep (Memᴰ.head e) h = rw (← e, h) (Memᴰ.head refl)
  mem-keep (Memᴰ.tail {x = y} m) h = elim (Bool-cases (p y)) [
    | inl e ↦ rw e (Memᴰ.tail (mem-keep m h))
    | inr e ↦ rw e (mem-keep m h)
  ]

  keep-mem_head :
      {x : A} (y : A) (ys : List A)
      → (p y ≡ true)
      → Memᴰ x (y ∷ keep p ys)
      → (Memᴰ x (keep p ys) → Memᴰ x ys × (p x ≡ true))
      → Memᴰ x (y ∷ ys) × (p x ≡ true)
  keep-mem_head y ys py (Memᴰ.head e) ih = (Memᴰ.head e, rw e py)
  keep-mem_head y ys py (Memᴰ.tail m) ih = (Memᴰ.tail (ih m).0, (ih m).1)

  pub keep-mem : {x : A} (xs : List A) → Memᴰ x (keep p xs) → Memᴰ x xs × (p x ≡ true)
  keep-mem [] m = elim m [ ]
  keep-mem {x} (y ∷ ys) m = elim (Bool-cases (p y)) [
    | inl e ↦ keep-mem_head y ys e (rw e at m) (λ m'. keep-mem ys m')
    | inr e ↦
        let m' : Memᴰ x (keep p ys) = rw e at m in let r = keep-mem ys m' in (Memᴰ.tail r.0, r.1)
  ]

module _ {ℓ} {A : Type ℓ} where
  pub mem-uncons : {x y : A} {ys : List A} → Memᴰ x (y ∷ ys) → (x ≡ y) ⊎ Memᴰ x ys
  mem-uncons (Memᴰ.head e) = inl e
  mem-uncons (Memᴰ.tail m) = inr m

  pub last?-mem : {x : A} (xs : List A) → last? xs ≡ some x → Memᴰ x xs
  last?-mem [] h = cc
  last?-mem (y ∷ []) h = Memᴰ.head (cc)
  last?-mem (y ∷ z ∷ xs) h = Memᴰ.tail (last?-mem (z ∷ xs) h)

module _ {ℓ} {A : Type ℓ} where
  last?-cons : (x : A) (xs : List A) → is_some (last? (x ∷ xs)) ≡ true
  last?-cons x [] = refl
  last?-cons x (y ∷ ys) = last?-cons y ys

  -- A filter keeps something exactly when its test passes somewhere.
  pub is_some-last? : (p : A → Bool) (xs : List A) → is_some (last? (keep p xs)) ≡ any p xs
  is_some-last? p [] = refl
  is_some-last? p (x ∷ xs) = elim (Bool-cases (p x)) [
    | inl e ↦ rw e (last?-cons x (keep p xs))
    | inr e ↦ rw e (is_some-last? p xs)
  ]

  -- The last element that a filter keeps is an element that passes its test.
  pub last?-keep :
      (p : A → Bool) (xs : List A) {x : A} → last? (keep p xs) ≡ some x → Memᴰ x xs × (p x ≡ true)
  last?-keep p xs h = keep-mem p xs (last?-mem (keep p xs) h)

module _ {ℓ κ} {A : Type ℓ} {B : Type κ} (f : A → B) where
  -- What a map holds is the image of an element.
  pub mem-map : {y : B} (xs : List A) → Memᴰ y (map f xs) → (x : A) × Memᴰ x xs × (y ≡ f x)
  mem-map [] m = elim m [ ]
  mem-map (x ∷ xs) m = elim (mem-uncons m) [
    | inl e ↦ (x, Memᴰ.head refl, e)
    | inr t ↦ let (z, mz, e) = mem-map xs t in (z, Memᴰ.tail mz, e)
  ]

-- Membership in an appended list, and under a map.
pub mem-++_left {ℓ} :
    {A : Type ℓ} {x : A} {xs : List A} (ys : List A) → Memᴰ x xs → Memᴰ x (xs ++ ys)
mem-++_left ys (Memᴰ.head e) = Memᴰ.head e
mem-++_left ys (Memᴰ.tail m) = Memᴰ.tail (mem-++_left ys m)

pub mem-++_right {ℓ} :
    {A : Type ℓ} {x : A} (xs : List A) {ys : List A} → Memᴰ x ys → Memᴰ x (xs ++ ys)
mem-++_right [] m = m
mem-++_right (x ∷ xs) m = Memᴰ.tail (mem-++_right xs m)

pub mem-++ {ℓ} :
    {A : Type ℓ} {x : A} (xs : List A) {ys : List A} → Memᴰ x (xs ++ ys) → Memᴰ x xs ⊎ Memᴰ x ys
mem-++ [] m = inr m
mem-++ (x ∷ xs) (Memᴰ.head e) = inl (Memᴰ.head e)
mem-++ (x ∷ xs) (Memᴰ.tail m) = elim (mem-++ xs m) [ inl l ↦ inl (Memᴰ.tail l) | inr r ↦ inr r ]

pub mem-map_of {ℓ κ} :
    {A : Type ℓ} {B : Type κ} (f : A → B) {x : A} {xs : List A} → Memᴰ x xs → Memᴰ (f x) (map f xs)
mem-map_of f (Memᴰ.head e) = Memᴰ.head (rw e refl)
mem-map_of f (Memᴰ.tail m) = Memᴰ.tail (mem-map_of f m)

pub mem-null? {ℓ} : {A : Type ℓ} {x : A} {xs : List A} → Memᴰ x xs → null? xs ≡ false
mem-null? (Memᴰ.head e) = refl
mem-null? (Memᴰ.tail m) = refl

pub null-no_mem {ℓ} : {A : Type ℓ} {x : A} {xs : List A} → null? xs ≡ true → ¬ Memᴰ x xs
null-no_mem h (Memᴰ.head e) = cc
null-no_mem h (Memᴰ.tail m) = cc

-- A filter that has run once finds nothing more to drop.
pub keep_idem {ℓ} : {A : Type ℓ} (p : A → Bool) (xs : List A) → keep p (keep p xs) ≡ keep p xs
keep_idem p [] = refl
keep_idem p (x ∷ xs) = elim (Bool-cases (p x)) [
  | inl e ↦ rw e (rw e (ap (λ ys. x ∷ ys) (keep_idem p xs)))
  | inr e ↦ rw e (keep_idem p xs)
]

-- Filters commute.
pub keep_comm {ℓ} :
    {A : Type ℓ} (p q : A → Bool) (xs : List A) → keep p (keep q xs) ≡ keep q (keep p xs)
keep_comm p q [] = refl
keep_comm p q (x ∷ xs) = let ih = keep_comm p q xs in ground arith

pub null?-nil {ℓ} : {A : Type ℓ} (xs : List A) → null? xs ≡ true → xs ≡ []
null?-nil [] h = refl
null?-nil (x ∷ xs) h = cc

module _ {ℓ} {A : Type ℓ} (p : A → Bool) where
  pub keep-append_true :
      (xs : List A) (x : A) → p x ≡ true → keep p (xs ++ x ∷ []) ≡ keep p xs ++ x ∷ []
  keep-append_true [] x h = rw h refl
  keep-append_true (y ∷ ys) x h = elim (Bool-cases (p y)) [
    | inl e ↦ rw (e, keep-append_true ys x h) refl
    | inr e ↦ rw (e, keep-append_true ys x h) refl
  ]

  pub keep-append_false : (xs : List A) (x : A) → p x ≡ false → keep p (xs ++ x ∷ []) ≡ keep p xs
  keep-append_false [] x h = rw h refl
  keep-append_false (y ∷ ys) x h = elim (Bool-cases (p y)) [
    | inl e ↦ rw (e, keep-append_false ys x h) refl
    | inr e ↦ rw (e, keep-append_false ys x h) refl
  ]
