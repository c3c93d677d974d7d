-- ===== src/Extraction/Patterns.antt =====
-- worker/financial_values.py: the patterns of a cell's text, and `looks_numeric`.
--
-- No character of `_CORE` is one that a pattern has around it, so a pattern's number is always the
-- longest run of those characters, and the patterns match in one way. An `anchored` text is one
-- without the newline at its end that `$` allows.
pub mod Runs
use cse_analysis.Base.{
  ℕ, zero, ◌==◌, Bool, true, false, not, ◌&&◌, ◌||◌, Option, none, some, List, [], ◌∷◌,
  if◌then◌else◌, any, all, keep, null?, is_some,
}
use cse_analysis.Extraction.Numbers.{
  Char, digit, other_digit, comma, dot, left_paren, right_paren, percent, plus, hyphen, en_dash,
  minus_sign, em_dash, less_than, greater_than, at_most, at_least, equals, slash, hash, exclamation,
  question, space, newline, letter_a, letter_d, letter_e, letter_f, letter_i, letter_l, letter_m,
  letter_n, letter_r, letter_u, letter_v, is_digit, is_blank, is_core_char, is_core, Amount, dec,
  Decimal, exactly, negated,
}

-- `_MINUS`
abbrev pub is_minus : Char → Bool
is_minus hyphen = true
is_minus en_dash = true
is_minus minus_sign = true
is_minus _ = false

abbrev pub is_dash : Char → Bool
is_dash em_dash = true
is_dash c = is_minus c

abbrev pub skip_blanks : List Char → List Char
skip_blanks [] = []
skip_blanks (c ∷ cs) = if is_blank c then skip_blanks cs else c ∷ cs

abbrev pub drop_blanks_end : List Char → List Char
drop_blanks_end [] = []
drop_blanks_end (c ∷ cs) =
    let rest = drop_blanks_end cs in if is_blank c && null? rest then [] else c ∷ rest

-- `str.strip`
unfoldable pub strip : List Char → List Char
strip cs = drop_blanks_end (skip_blanks cs)

abbrev pub anchored : List Char → List Char
anchored [] = []
anchored (newline ∷ []) = []
anchored (c ∷ cs) = c ∷ anchored cs

-- The run of a number's characters that a text begins with, and the text after it
abbrev pub core_run : List Char → List Char
core_run [] = []
core_run (c ∷ cs) = if is_core_char c then c ∷ core_run cs else []

abbrev pub after_core : List Char → List Char
after_core [] = []
after_core (c ∷ cs) = if is_core_char c then after_core cs else c ∷ cs

-- `(?P<n>_CORE)` followed by what the test accepts
abbrev pub core_then : (List Char → Bool) → List Char → Option Amount
core_then accepts cs =
    if is_core (core_run cs) && accepts (after_core cs) then some (dec (core_run cs)) else none

-- `DASH_RE`
abbrev pub is_dash_nil : List Char → Bool
is_dash_nil (c ∷ []) = is_dash c
is_dash_nil (c ∷ c' ∷ []) = is_dash c && is_dash c'
is_dash_nil _ = false

-- The names that `ERROR_RE` has after the '#'
abbrev pub is_error_name : List Char → Bool
is_error_name (letter_r ∷ letter_e ∷ letter_f ∷ exclamation ∷ []) = true
is_error_name (letter_d ∷ letter_i ∷ letter_v ∷ slash ∷ digit zero ∷ exclamation ∷ []) = true
is_error_name (letter_v ∷ letter_a ∷ letter_l ∷ letter_u ∷ letter_e ∷ exclamation ∷ []) = true
is_error_name (letter_n ∷ slash ∷ letter_a ∷ []) = true
is_error_name (letter_n ∷ letter_a ∷ letter_m ∷ letter_e ∷ question ∷ []) = true
is_error_name (letter_n ∷ letter_u ∷ letter_m ∷ exclamation ∷ []) = true
is_error_name (letter_n ∷ letter_u ∷ letter_l ∷ letter_l ∷ exclamation ∷ []) = true
is_error_name _ = false

abbrev pub is_error : List Char → Bool
is_error (hash ∷ cs) = is_error_name cs
is_error _ = false

-- `[./\-]`, and `DATE_LIKE_RE`
abbrev pub is_date_mark : Char → Bool
is_date_mark dot = true
is_date_mark slash = true
is_date_mark hyphen = true
is_date_mark _ = false

abbrev pub is_year : List Char → Bool
is_year (w ∷ x ∷ []) = is_digit w && is_digit x
is_year (w ∷ x ∷ y ∷ z ∷ []) = is_digit w && is_digit x && is_digit y && is_digit z
is_year _ = false

-- `\d{1,2}[./\-]` and what the test accepts
abbrev pub one_or_two : (List Char → Bool) → List Char → Bool
one_or_two accepts (x ∷ y ∷ z ∷ cs) =
    is_digit x && (is_date_mark y && accepts (z ∷ cs) || is_digit y && is_date_mark z && accepts cs)
one_or_two accepts _ = false

abbrev pub is_date_like : List Char → Bool
is_date_like cs = one_or_two (one_or_two is_year) cs

-- `PLAIN_RE`
abbrev pub plain : List Char → Option Amount
plain (plus ∷ cs) = core_then null? cs
plain cs = core_then null? cs

-- `\s*\)$`
abbrev pub closes : List Char → Bool
closes (right_paren ∷ []) = true
closes _ = false

abbrev pub closes_after_blanks : List Char → Bool
closes_after_blanks cs = closes (skip_blanks cs)

-- `PAREN_RE`
abbrev pub in_parentheses : List Char → Option Amount
in_parentheses (left_paren ∷ cs) = core_then closes_after_blanks (skip_blanks cs)
in_parentheses _ = none

abbrev pub skip_one : List Char → List Char
skip_one [] = []
skip_one (c ∷ cs) = if is_blank c then cs else c ∷ cs

-- `MINUS_RE`
abbrev pub after_minus : List Char → Option Amount
after_minus [] = none
after_minus (c ∷ cs) = if is_minus c then core_then null? (skip_one cs) else none

-- The end of `PERCENT_RE` from the percent sign on, and from the number on
abbrev pub percent_end : List Char → Bool
percent_end (percent ∷ cs) = null? (skip_blanks cs) || closes_after_blanks cs
percent_end _ = false

abbrev pub percent_close : List Char → Bool
percent_close (right_paren ∷ cs) = percent_end (skip_blanks cs)
percent_close cs = percent_end cs

abbrev pub percent_tail : List Char → Bool
percent_tail cs = percent_close (skip_blanks cs)

-- The group `neg` of `PERCENT_RE`: whether it took part, and the text after it
abbrev pub percent_sign : List Char → Bool × List Char
percent_sign [] = (false, [])
percent_sign (left_paren ∷ cs) = (true, cs)
percent_sign (c ∷ cs) = if is_minus c then (true, cs) else (false, c ∷ cs)

-- `PERCENT_RE`
abbrev pub percent_number : List Char → Option Amount
percent_number cs = core_then percent_tail (skip_blanks (percent_sign cs).1)

abbrev pub is_left_paren : Char → Bool
is_left_paren left_paren = true
is_left_paren _ = false

abbrev pub is_right_paren : Char → Bool
is_right_paren right_paren = true
is_right_paren _ = false

-- Whether `neg` is a parenthesis, and whether `close` or `close2` took part: in a text that
-- `PERCENT_RE` matches, they have its only closing parentheses.
abbrev pub opens : List Char → Bool
opens [] = false
opens (c ∷ cs) = is_left_paren c

abbrev pub is_unbalanced : List Char → Bool
is_unbalanced cs = if opens cs then not (any is_right_paren cs) else any is_right_paren cs

-- `op` of `BOUND_RE`, and the text after it
abbrev pub skip_equals : List Char → List Char
skip_equals (equals ∷ cs) = cs
skip_equals cs = cs

abbrev pub after_operator : List Char → Option (List Char)
after_operator (less_than ∷ cs) = some (skip_equals cs)
after_operator (greater_than ∷ cs) = some (skip_equals cs)
after_operator (at_least ∷ cs) = some cs
after_operator (at_most ∷ cs) = some cs
after_operator _ = none

-- `\s*%?$`
abbrev pub maybe_percent : List Char → Bool
maybe_percent (percent ∷ []) = true
maybe_percent cs = null? cs

abbrev pub bound_end : List Char → Bool
bound_end cs = maybe_percent (skip_blanks cs)

abbrev pub bound_close : List Char → Bool
bound_close (right_paren ∷ cs) = bound_end cs
bound_close _ = false

abbrev pub bound_close_after_blanks : List Char → Bool
bound_close_after_blanks cs = bound_close (skip_blanks cs)

abbrev pub skip_minus : List Char → List Char
skip_minus [] = []
skip_minus (c ∷ cs) = if is_minus c then cs else c ∷ cs

abbrev pub bound_number : List Char → Option Amount
bound_number (left_paren ∷ cs) = core_then bound_close_after_blanks (skip_blanks cs)
bound_number cs = core_then bound_end (skip_blanks (skip_minus cs))

-- `BOUND_RE`
abbrev pub is_bound : List Char → Bool
is_bound cs = elim (after_operator cs) [
  | none ↦ false
  | some rest ↦ is_some (bound_number (skip_blanks rest))
]

-- `NUMBER_CHARS`
abbrev pub is_number_char : Char → Bool
is_number_char (digit _) = true
is_number_char comma = true
is_number_char dot = true
is_number_char left_paren = true
is_number_char right_paren = true
is_number_char percent = true
is_number_char plus = true
is_number_char less_than = true
is_number_char greater_than = true
is_number_char c = is_dash c

abbrev pub is_space : Char → Bool
is_space space = true
is_space _ = false

abbrev pub looks_numeric_closed : List Char → Bool
looks_numeric_closed cs =
    not (null? cs)
    && (is_dash_nil (anchored cs)
        || is_error (anchored cs)
        || any is_digit cs && all is_number_char cs)

-- `looks_numeric`. Of the characters that `str.isdigit` accepts, only '0' to '9' are in `NUMBER_CHARS`.
unfoldable pub looks_numeric : List Char → Bool
looks_numeric cs = looks_numeric_closed (keep (λ c. not (is_space c)) cs)
