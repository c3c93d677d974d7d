-- ===== src/Extraction/Patterns/Runs.antt =====
-- What the patterns find in a run of digits, and in a text without blanks.
use cse_analysis.Base.{
  ℕ, suc, ◌≤◌, ◌≡◌, refl, sym, ap, ◌∙◌, Bool, true, false, not, some, List, [], ◌∷◌, ◌++◌, all,
  count, null?, Bool-cases, inl, inr, &&-true, arith,
}
use cse_analysis.Extraction.Numbers.{Char, right_paren, is_blank, is_core_char, is_core, dec}
use cse_analysis.Extraction.Patterns.{
  is_dash, is_dash_nil, is_date_mark, is_year, one_or_two, is_date_like, skip_blanks,
  drop_blanks_end, strip, core_run, after_core, core_then, closes_after_blanks,
}

pub not-true : (b : Bool) → not b ≡ true → b ≡ false
not-true b h = ground arith

pub all-uncons :
    (p : Char → Bool) (x : Char) (xs : List Char)
    → all p (x ∷ xs) ≡ true
    → (p x ≡ true) × (all p xs ≡ true)
all-uncons p x xs h = &&-true (p x) (all p xs) h

-- The characters of a number are a run of their own.
pub core_run-++ :
    (xs ys : List Char) → all is_core_char xs ≡ true → core_run (xs ++ ys) ≡ xs ++ core_run ys
core_run-++ [] ys h = refl
core_run-++ (x ∷ xs) ys h =
    rw ((all-uncons is_core_char x xs h).0)
      (ap (λ zs. x ∷ zs) (core_run-++ xs ys (all-uncons is_core_char x xs h).1))

pub after_core-++ :
    (xs ys : List Char) → all is_core_char xs ≡ true → after_core (xs ++ ys) ≡ after_core ys
after_core-++ [] ys h = refl
after_core-++ (x ∷ xs) ys h =
    rw ((all-uncons is_core_char x xs h).0) (after_core-++ xs ys (all-uncons is_core_char x xs h).1)

pub ++_nil : (xs : List Char) → xs ++ [] ≡ xs
++_nil [] = refl
++_nil (x ∷ xs) = ap (λ zs. x ∷ zs) (++_nil xs)

pub all-++ :
    (p : Char → Bool) (xs ys : List Char)
    → all p xs ≡ true
    → all p ys ≡ true
    → all p (xs ++ ys) ≡ true
all-++ p [] ys h h' = h'
all-++ p (x ∷ xs) ys h h' = ground (arith, all-++ p xs ys)

-- A text without blanks is not stripped.
abbrev pub is_solid : List Char → Bool
is_solid cs = all (λ c. not (is_blank c)) cs

pub core-solid : (c : Char) → is_core_char c ≡ true → is_blank c ≡ false
core-solid c h = ground arith

pub all_core-solid : (cs : List Char) → all is_core_char cs ≡ true → is_solid cs ≡ true
all_core-solid [] h = refl
all_core-solid (c ∷ cs) h = rw (core-solid c (ground arith)) (all_core-solid cs (ground arith))

pub skip_blanks-solid : (cs : List Char) → is_solid cs ≡ true → skip_blanks cs ≡ cs
skip_blanks-solid [] h = refl
skip_blanks-solid (c ∷ cs) h =
    rw (not-true (is_blank c) (all-uncons (λ y. not (is_blank y)) c cs h).0) refl

pub drop_blanks_end-solid : (cs : List Char) → is_solid cs ≡ true → drop_blanks_end cs ≡ cs
drop_blanks_end-solid [] h = refl
drop_blanks_end-solid (c ∷ cs) h =
    rw
      (
        not-true (is_blank c) (all-uncons (λ y. not (is_blank y)) c cs h).0,
        drop_blanks_end-solid cs (all-uncons (λ y. not (is_blank y)) c cs h).1,
      )
      refl

pub strip-solid : (cs : List Char) → is_solid cs ≡ true → strip cs ≡ cs
unfolding strip
strip-solid cs h = rw (skip_blanks-solid cs h) (drop_blanks_end-solid cs h)

-- A date has two marks.
pub one_or_two-count :
    (accepts : List Char → Bool) (n : ℕ)
    → ((cs : List Char) → accepts cs ≡ true → n ≤ count is_date_mark cs)
    → (cs : List Char) → one_or_two accepts cs ≡ true
    → suc n ≤ count is_date_mark cs
one_or_two-count accepts n h [] e = cc
one_or_two-count accepts n h (x ∷ []) e = cc
one_or_two-count accepts n h (x ∷ y ∷ []) e = cc
one_or_two-count accepts n h (x ∷ y ∷ z ∷ cs) e = ground (arith, h (z ∷ cs), h cs)

pub is_date_like-count : (cs : List Char) → is_date_like cs ≡ true → 2 ≤ count is_date_mark cs
is_date_like-count cs e =
    one_or_two-count (one_or_two is_year) 1
      (λ xs. one_or_two-count is_year 0 (λ ys _. omega arith) xs) cs e

-- What does not look like a printed nil or a date
pub no_dash_nil : (c : Char) (cs : List Char) → is_dash c ≡ false → is_dash_nil (c ∷ cs) ≡ false
no_dash_nil c [] h = h
no_dash_nil c (c' ∷ []) h = rw h refl
no_dash_nil c (c' ∷ x ∷ cs) h = refl

pub no_dash_nil_two :
    (c c' : Char) (cs : List Char) → is_dash c' ≡ false → is_dash_nil (c ∷ c' ∷ cs) ≡ false
no_dash_nil_two c c' [] h = ground arith
no_dash_nil_two c c' (x ∷ cs) h = refl

pub one_mark-no_date : (cs : List Char) → count is_date_mark cs ≤ 1 → is_date_like cs ≡ false
one_mark-no_date cs h = elim (Bool-cases (is_date_like cs)) [
  | inl e ↦ let two = is_date_like-count cs e in ground arith
  | inr e ↦ e
]

-- A number that fills the text, or stands before a closing parenthesis
pub core_then-end :
    (cs : List Char)
    → all is_core_char cs ≡ true
    → is_core cs ≡ true
    → core_then null? cs ≡ some (dec cs)
core_then-end cs h w =
    let run : core_run cs ≡ cs = ap core_run (sym (++_nil cs)) ∙ core_run-++ cs [] h ∙ ++_nil cs in
    let rest : after_core cs ≡ [] = ap after_core (sym (++_nil cs)) ∙ after_core-++ cs [] h in
    rw (run, rest, w) refl

pub core_then-closed :
    (cs : List Char)
    → all is_core_char cs ≡ true
    → is_core cs ≡ true
    → core_then closes_after_blanks (cs ++ right_paren ∷ []) ≡ some (dec cs)
core_then-closed cs h w =
    rw (core_run-++ cs (right_paren ∷ []) h, after_core-++ cs (right_paren ∷ []) h, ++_nil cs, w)
      refl
