-- ===== src/Extraction/Numbers/Print.antt =====
-- How a statement prints a number: its whole part in groups of three digits, with a comma before each
-- group, and its fraction after a dot. Reading such a text with `is_core` and `dec` gives the number.
use cse_analysis.Base.{
  ℕ, zero, suc, ◌+◌, ◌*◌, ◌/◌, ◌%◌, ◌≤◌, ◌≡◌, refl, ◌∙◌, ap, Bool, true, false, not, List, [], ◌∷◌,
  map, ltb, if◌then◌else◌, all, keep, length, Bool-cases, arith, count, inl, inr,
}
use cse_analysis.Extraction.Numbers.{
  Char, digit, comma, dot, is_digit, is_comma, before_dot, after_dot, is_digits, are_groups,
  is_grouped, is_whole, has_fraction, is_core, is_core_char, number, decimals_of, dec,
}

-- A number under a thousand, before what follows
abbrev pub lead : ℕ → List Char → List Char
lead n cs =
    if ltb n 10
    then digit n ∷ cs
    else if ltb n 100
    then digit (n / 10) ∷ digit (n % 10) ∷ cs
    else digit (n / 100) ∷ digit (n / 10 % 10) ∷ digit (n % 10) ∷ cs

abbrev group : ℕ → List Char → List Char
group n cs = comma ∷ digit (n / 100 % 10) ∷ digit (n / 10 % 10) ∷ digit (n % 10) ∷ cs

-- A number before what follows, its last groups first
unfoldable pub thousands : ℕ → ℕ → List Char → List Char
thousands zero n cs = lead n cs
thousands (suc left) n cs =
    let more = thousands left (n / 1000) (group n cs) in if ltb n 1000 then lead n cs else more

abbrev pub fraction : List ℕ → List Char
fraction [] = []
fraction (k ∷ ks) = dot ∷ digit k ∷ map digit ks

-- A whole number and the digits after its dot
unfoldable pub printed : ℕ → List ℕ → List Char
unfolding thousands
printed n ks = thousands n n (fraction ks)

-- The value of some digits after those read before
abbrev pub digits_after : ℕ → List ℕ → ℕ
digits_after acc [] = acc
digits_after acc (k ∷ ks) = digits_after (acc * 10 + k) ks

module _ (cs : List Char) where
  before_dot-lead : (n : ℕ) → before_dot (lead n cs) ≡ lead n (before_dot cs)
  before_dot-lead n = ground arith

  after_dot-lead : (n : ℕ) → after_dot (lead n cs) ≡ after_dot cs
  after_dot-lead n = ground arith

before_dot-thousands :
    (left n : ℕ) (cs : List Char)
    → before_dot (thousands left n cs) ≡ thousands left n (before_dot cs)
unfolding thousands
before_dot-thousands zero n cs = before_dot-lead cs n
before_dot-thousands (suc left) n cs = elim (Bool-cases (ltb n 1000)) [
  | inl e ↦ rw e (before_dot-lead cs n)
  | inr e ↦ rw e (before_dot-thousands left (n / 1000) (group n cs))
]

after_dot-thousands : (left n : ℕ) (cs : List Char) → after_dot (thousands left n cs) ≡ after_dot cs
unfolding thousands
after_dot-thousands zero n cs = after_dot-lead cs n
after_dot-thousands (suc left) n cs = elim (Bool-cases (ltb n 1000)) [
  | inl e ↦ rw e (after_dot-lead cs n)
  | inr e ↦ rw e (after_dot-thousands left (n / 1000) (group n cs))
]

lead-is_grouped :
    (n : ℕ) (cs : List Char)
    → are_groups (comma ∷ cs) ≡ true
    → is_grouped (lead n (comma ∷ cs)) ≡ true
lead-is_grouped n cs h = ground arith

thousands-is_grouped :
    (left n : ℕ) (cs : List Char)
    → are_groups (comma ∷ cs) ≡ true
    → is_grouped (thousands left n (comma ∷ cs)) ≡ true
unfolding thousands
thousands-is_grouped zero n cs h = lead-is_grouped n cs h
thousands-is_grouped (suc left) n cs h = elim (Bool-cases (ltb n 1000)) [
  | inl e ↦ rw e (lead-is_grouped n cs h)
  | inr e ↦ rw e (thousands-is_grouped left (n / 1000) _ h)
]

lead-is_digits : (n : ℕ) → is_digits (lead n []) ≡ true
lead-is_digits n = ground arith

thousands-is_whole : (left n : ℕ) → is_whole (thousands left n []) ≡ true
unfolding thousands
thousands-is_whole zero n = ground (arith, lead-is_digits n)
thousands-is_whole (suc left) n = elim (Bool-cases (ltb n 1000)) [
  | inl e ↦ rw e (ground (arith, lead-is_digits n))
  | inr e ↦ rw (e, thousands-is_grouped left (n / 1000) _ refl) refl
]

number-lead : (n : ℕ) (cs : List Char) → ltb n 1000 ≡ true → number 0 (lead n cs) ≡ number n cs
number-lead n cs h = elim (Bool-cases (ltb n 10)) [
  | inl e ↦ rw e (ap (λ k. number k cs) (omega arith))
  | inr e ↦ rw e (elim (Bool-cases (ltb n 100)) [
    | inl e' ↦ rw e' (ap (λ k. number k cs) (omega arith))
    | inr e' ↦ rw e' (ap (λ k. number k cs) (ground arith))
  ])
]

number-group : (n : ℕ) (cs : List Char) → number (n / 1000) (group n cs) ≡ number n cs
number-group n cs = ap (λ k. number k cs) (omega arith)

number-thousands :
    (left n : ℕ) (cs : List Char) → n ≤ left → number 0 (thousands left n cs) ≡ number n cs
unfolding thousands
number-thousands zero n cs h = number-lead n cs (ground arith)
number-thousands (suc left) n cs h = elim (Bool-cases (ltb n 1000)) [
  | inl e ↦ rw e (number-lead n cs e)
  | inr e ↦ rw e (number-thousands left (n / 1000) (group n cs) (ground arith) ∙ number-group n cs)
]

lead-all_core :
    (n : ℕ) (cs : List Char) → all is_core_char cs ≡ true → all is_core_char (lead n cs) ≡ true
lead-all_core n cs h = ground arith

thousands-all_core :
    (left n : ℕ) (cs : List Char)
    → all is_core_char cs ≡ true
    → all is_core_char (thousands left n cs) ≡ true
unfolding thousands
thousands-all_core zero n cs h = lead-all_core n cs h
thousands-all_core (suc left) n cs h = elim (Bool-cases (ltb n 1000)) [
  | inl e ↦ rw e (lead-all_core n cs h)
  | inr e ↦ rw e (thousands-all_core left (n / 1000) (group n cs) h)
]

all-digits :
    (p : Char → Bool) → ((k : ℕ) → p (digit k) ≡ true) → (ks : List ℕ) → all p (map digit ks) ≡ true
all-digits p h [] = refl
all-digits p h (k ∷ ks) = rw (h k) (all-digits p h ks)

number-digits : (acc : ℕ) (ks : List ℕ) → number acc (map digit ks) ≡ digits_after acc ks
number-digits acc [] = refl
number-digits acc (k ∷ ks) = number-digits (acc * 10 + k) ks

number-fraction : (acc : ℕ) (ks : List ℕ) → number acc (fraction ks) ≡ digits_after acc ks
number-fraction acc [] = refl
number-fraction acc (k ∷ ks) = number-digits (acc * 10 + k) ks

before_dot-fraction : (ks : List ℕ) → before_dot (fraction ks) ≡ []
before_dot-fraction [] = refl
before_dot-fraction (k ∷ ks) = refl

length-digits : (ks : List ℕ) → length (keep (λ c. not (is_comma c)) (map digit ks)) ≡ length ks
length-digits [] = refl
length-digits (k ∷ ks) = ap suc (length-digits ks)

decimals_of-fraction : (ks : List ℕ) → decimals_of (after_dot (fraction ks)) ≡ length ks
decimals_of-fraction [] = refl
decimals_of-fraction (k ∷ ks) = ap suc (length-digits ks)

has_fraction-fraction :
    (whole : List Char) (ks : List ℕ)
    → is_whole whole ≡ true
    → has_fraction whole (after_dot (fraction ks)) ≡ true
has_fraction-fraction whole [] h = h
has_fraction-fraction whole (k ∷ ks) h = rw (h, all-digits is_digit (λ j. refl) ks) refl

pub printed-is_core : (n : ℕ) (ks : List ℕ) → is_core (printed n ks) ≡ true
unfolding is_core printed
printed-is_core n ks =
    rw
      (
        before_dot-thousands n n (fraction ks),
        before_dot-fraction ks,
        after_dot-thousands n n (fraction ks),
      )
      (has_fraction-fraction (thousands n n []) ks (thousands-is_whole n n))

pub dec-printed :
    (n : ℕ) (ks : List ℕ)
    → dec (printed n ks) ≡ record { coefficient = digits_after n ks; decimals = length ks }
unfolding dec printed
dec-printed n ks =
    rw
      (
        number-thousands n n (fraction ks) (omega arith),
        number-fraction n ks,
        after_dot-thousands n n (fraction ks),
        decimals_of-fraction ks,
      )
      refl

fraction-all_core : (ks : List ℕ) → all is_core_char (fraction ks) ≡ true
fraction-all_core [] = refl
fraction-all_core (k ∷ ks) = all-digits is_core_char (λ j. refl) ks

pub printed-all_core : (n : ℕ) (ks : List ℕ) → all is_core_char (printed n ks) ≡ true
unfolding printed
printed-all_core n ks = thousands-all_core n n (fraction ks) (fraction-all_core ks)

-- A printed number begins with a digit, and has at most one of the marks of a date.
lead-digit : (n : ℕ) (cs : List Char) → (k : ℕ) × (rest : List Char) × (lead n cs ≡ digit k ∷ rest)
lead-digit n cs = elim (Bool-cases (ltb n 10)) [
  | inl e ↦ rw e (n, cs, refl)
  | inr e ↦ rw e (elim (Bool-cases (ltb n 100)) [
    | inl e' ↦ rw e' (n / 10, digit (n % 10) ∷ cs, refl)
    | inr e' ↦ rw e' (n / 100, digit (n / 10 % 10) ∷ digit (n % 10) ∷ cs, refl)
  ])
]

thousands-digit :
    (left n : ℕ) (cs : List Char)
    → (k : ℕ) × (rest : List Char) × (thousands left n cs ≡ digit k ∷ rest)
unfolding thousands
thousands-digit zero n cs = lead-digit n cs
thousands-digit (suc left) n cs = elim (Bool-cases (ltb n 1000)) [
  | inl e ↦ rw e (lead-digit n cs)
  | inr e ↦ rw e (thousands-digit left (n / 1000) (group n cs))
]

pub printed-digit :
    (n : ℕ) (ks : List ℕ) → (k : ℕ) × (rest : List Char) × (printed n ks ≡ digit k ∷ rest)
unfolding printed
printed-digit n ks = thousands-digit n n (fraction ks)

module _ (p : Char → Bool) (h : (k : ℕ) → p (digit k) ≡ false) (hc : p comma ≡ false) where
  count-lead : (n : ℕ) (cs : List Char) → count p (lead n cs) ≡ count p cs
  count-lead n cs = elim (Bool-cases (ltb n 10)) [
    | inl e ↦ rw (e, h n) refl
    | inr e ↦ rw e (elim (Bool-cases (ltb n 100)) [
      | inl e' ↦ rw (e', h (n / 10), h (n % 10)) refl
      | inr e' ↦ rw (e', h (n / 100), h (n / 10 % 10), h (n % 10)) refl
    ])
  ]

  count-thousands : (left n : ℕ) (cs : List Char) → count p (thousands left n cs) ≡ count p cs
  unfolding thousands
  count-thousands zero n cs = count-lead n cs
  count-thousands (suc left) n cs = elim (Bool-cases (ltb n 1000)) [
    | inl e ↦ rw e (count-lead n cs)
    | inr e ↦
        rw
          (
            e,
            count-thousands left (n / 1000) (group n cs),
            hc,
            h (n / 100 % 10),
            h (n / 10 % 10),
            h (n % 10),
          )
          refl
  ]

  count-digits : (ks : List ℕ) → count p (map digit ks) ≡ 0
  count-digits [] = refl
  count-digits (k ∷ ks) = rw (h k) (count-digits ks)

  count-fraction : (ks : List ℕ) → count p (fraction ks) ≤ 1
  count-fraction [] = omega arith
  count-fraction (k ∷ ks) = rw (h k, count-digits ks) (ground arith)

  pub count-printed : (n : ℕ) (ks : List ℕ) → count p (printed n ks) ≤ 1
  unfolding printed
  count-printed n ks = rw (count-thousands n n (fraction ks)) (count-fraction ks)
