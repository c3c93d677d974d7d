-- ===== src/Extraction/Parse.antt =====
-- worker/financial_values.py: `parse_value` and `is_fragment`.
pub mod Kinds
pub mod Round
use Prim.Native.String.{String}
use cse_analysis.Base.{
  ℕ, zero, ◌==◌, Bool, true, false, not, ◌&&◌, ◌||◌, Option, none, some, List, [], ◌∷◌,
  if◌then◌else◌, any, all, keep, null?, is_some,
}
use cse_analysis.Extraction.Numbers.{
  Char, digit, other_digit, comma, dot, left_paren, right_paren, percent, plus, hyphen, en_dash,
  minus_sign, em_dash, less_than, greater_than, at_most, at_least, equals, slash, hash, exclamation,
  question, space, newline, letter_a, letter_d, letter_e, letter_f, letter_i, letter_l, letter_m,
  letter_n, letter_r, letter_u, letter_v, is_digit, is_blank, is_core_char, is_core, Amount, dec,
  Decimal, exactly, negated,
}
use cse_analysis.Extraction.Patterns.{
  after_core, after_minus, after_operator, anchored, bound_close, bound_close_after_blanks,
  bound_end, bound_number, closes, closes_after_blanks, core_run, core_then, drop_blanks_end,
  in_parentheses, is_bound, is_dash, is_dash_nil, is_date_like, is_date_mark, is_error,
  is_error_name, is_left_paren, is_minus, is_number_char, is_right_paren, is_space, is_unbalanced,
  is_year, looks_numeric, looks_numeric_closed, maybe_percent, one_or_two, opens, percent_close,
  percent_end, percent_number, percent_sign, percent_tail, plain, skip_blanks, skip_equals,
  skip_minus, skip_one, strip,
}

pub data Class : Type 0 where
  numeric parenthesised_negative minus_negative negative_zero dash_nil : Class
  percentage comparison_bound spreadsheet_error words unresolved : Class

-- `VALUE_CLASSES` and `AMOUNT_CLASSES`
abbrev pub is_value_class : Class → Bool
is_value_class words = false
is_value_class unresolved = false
is_value_class _ = true

abbrev pub is_amount_class : Class → Bool
is_amount_class numeric = true
is_amount_class parenthesised_negative = true
is_amount_class minus_negative = true
is_amount_class negative_zero = true
is_amount_class _ = false

pub record ParsedValue : Type 0 where
  pub raw : List Char
  pub parsed : Option Decimal
  pub representation_class : Class
  pub decimals : Option ℕ
  pub reason : Option String

abbrev pub no_value : List Char → Class → Option String → ParsedValue
no_value raw c why = record {
  raw = raw;
  parsed = none;
  representation_class = c;
  decimals = none;
  reason = why;
}

abbrev pub with_value : List Char → Class → Decimal → Amount → ParsedValue
with_value raw c x n = record {
  raw = raw;
  parsed = some x;
  representation_class = c;
  decimals = some n.decimals;
  reason = none;
}

-- The negative value of an amount, of the class given unless it is zero
abbrev pub negative : List Char → Class → Amount → ParsedValue
negative raw c n = with_value raw (if n.coefficient == 0 then negative_zero else c) (negated n) n

abbrev pub percentage_of : List Char → List Char → Amount → ParsedValue
percentage_of raw t n =
    if is_unbalanced t
    then no_value raw unresolved (some "unbalanced_parenthesis")
    else with_value raw percentage (if (percent_sign t).0 then negated n else exactly n) n

abbrev pub rest_of : List Char → List Char → ParsedValue
rest_of raw t =
    if is_bound t
    then no_value raw comparison_bound none
    else if looks_numeric t
    then no_value raw unresolved (some "malformed_number")
    else no_value raw words none

abbrev pub percent_or_rest : List Char → List Char → Option Amount → ParsedValue
percent_or_rest raw t (some n) = percentage_of raw t n
percent_or_rest raw t none = rest_of raw t

abbrev pub minus_or_rest : List Char → List Char → Option Amount → ParsedValue
minus_or_rest raw t (some n) = negative raw minus_negative n
minus_or_rest raw t none = percent_or_rest raw t (percent_number t)

abbrev pub parentheses_or_rest : List Char → List Char → Option Amount → ParsedValue
parentheses_or_rest raw t (some n) = negative raw parenthesised_negative n
parentheses_or_rest raw t none = minus_or_rest raw t (after_minus t)

abbrev pub plain_or_rest : List Char → List Char → Option Amount → ParsedValue
plain_or_rest raw t (some n) = with_value raw numeric (exactly n) n
plain_or_rest raw t none = parentheses_or_rest raw t (in_parentheses t)

unfoldable pub parse_stripped : List Char → List Char → ParsedValue
parse_stripped raw t =
    if null? t
    then no_value raw words (some "empty")
    else if is_dash_nil t
    then no_value raw dash_nil none
    else if is_error t
    then no_value raw spreadsheet_error none
    else if is_date_like t
    then no_value raw words (some "date")
    else plain_or_rest raw t (plain t)

-- `parse_value`
unfoldable pub parse_value : List Char → ParsedValue
unfolding strip parse_stripped
parse_value raw = parse_stripped raw (strip raw)

-- `ParsedValue.is_value`
abbrev pub is_value : ParsedValue → Bool
is_value p = is_value_class p.representation_class

abbrev pub is_fragment_char : Char → Bool
is_fragment_char (digit _) = true
is_fragment_char (other_digit _) = true
is_fragment_char comma = true
is_fragment_char dot = true
is_fragment_char left_paren = true
is_fragment_char right_paren = true
is_fragment_char percent = true
is_fragment_char c = is_minus c

-- `is_fragment`
unfoldable pub is_fragment : List Char → Bool
is_fragment cs = not (null? (anchored cs)) && all is_fragment_char (anchored cs)
