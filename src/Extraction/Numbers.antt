-- ===== src/Extraction/Numbers.antt =====
-- worker/financial_values.py: the characters of a cell, the number inside it (`_CORE`) and its decimal
-- value (`_dec`, and the negation that `parse_value` applies to it).
--
-- A text is its list of characters. `digit` has '0' to '9', `other_digit` the other decimal digits of
-- Unicode, which `\d` matches too; `letter_a` has the characters that are that letter when case
-- is ignored. A decimal is its sign and its coefficient over ten to the power of the printed decimals.
-- The negation is that of the decimal library's default context, the one in force here: 28
-- significant digits, half to even, and no negative zero; the digits it drops are zeros here.
pub mod Print
use cse_analysis.Base.{
  ℕ, zero, suc, ◌+◌, ◌*◌, ◌/◌, ◌%◌, ◌^◌, Bool, true, false, not, ◌&&◌, ◌||◌, Option, none, some,
  List, [], ◌∷◌, ltb, ◌==◌, if◌then◌else◌, all, keep, null?, length,
}

pub data Char : Type 0 where
  digit : ℕ → Char
  other_digit : ℕ → Char
  comma dot left_paren right_paren percent plus : Char
  hyphen en_dash minus_sign em_dash : Char
  less_than greater_than at_most at_least equals : Char
  slash hash exclamation question space newline blank : Char
  letter_a letter_d letter_e letter_f letter_i letter_l : Char
  letter_m letter_n letter_r letter_u letter_v : Char
  other : ℕ → Char

-- `\d`
abbrev pub is_digit : Char → Bool
is_digit (digit _) = true
is_digit (other_digit _) = true
is_digit _ = false

abbrev pub is_comma : Char → Bool
is_comma comma = true
is_comma _ = false

-- `\s`, and what `str.strip` removes
abbrev pub is_blank : Char → Bool
is_blank space = true
is_blank newline = true
is_blank blank = true
is_blank _ = false

-- The characters of `_CORE`
abbrev pub is_core_char : Char → Bool
is_core_char comma = true
is_core_char dot = true
is_core_char c = is_digit c

-- A text without and after its first dot
abbrev pub before_dot : List Char → List Char
before_dot [] = []
before_dot (dot ∷ cs) = []
before_dot (c ∷ cs) = c ∷ before_dot cs

abbrev pub after_dot : List Char → Option (List Char)
after_dot [] = none
after_dot (dot ∷ cs) = some cs
after_dot (c ∷ cs) = after_dot cs

-- `\d+`
abbrev pub is_digits : List Char → Bool
is_digits cs = not (null? cs) && all is_digit cs

-- `(?:,\d{3})*` to the end
abbrev pub are_groups : List Char → Bool
are_groups [] = true
are_groups (comma ∷ x ∷ y ∷ z ∷ cs) = is_digit x && is_digit y && is_digit z && are_groups cs
are_groups (_ ∷ _) = false

-- Up to n more digits, then `(?:,\d{3})+` to the end
abbrev pub after_lead : ℕ → List Char → Bool
after_lead n [] = false
after_lead n (comma ∷ cs) = are_groups (comma ∷ cs)
after_lead zero (c ∷ cs) = false
after_lead (suc n) (c ∷ cs) = is_digit c && after_lead n cs

-- `\d{1,3}(?:,\d{3})+`
abbrev pub is_grouped : List Char → Bool
is_grouped [] = false
is_grouped (c ∷ cs) = is_digit c && after_lead 2 cs

abbrev pub is_whole : List Char → Bool
is_whole cs = is_grouped cs || is_digits cs

abbrev pub has_fraction : List Char → Option (List Char) → Bool
has_fraction whole none = is_whole whole
has_fraction whole (some f) = (is_whole whole || null? whole) && is_digits f

-- A full match of `_CORE`
unfoldable pub is_core : List Char → Bool
is_core cs = has_fraction (before_dot cs) (after_dot cs)

-- The value of the digits of a text, after those read before
abbrev pub number : ℕ → List Char → ℕ
number acc [] = acc
number acc (digit k ∷ cs) = number (acc * 10 + k) cs
number acc (other_digit k ∷ cs) = number (acc * 10 + k) cs
number acc (_ ∷ cs) = number acc cs

pub record Amount : Type 0 where
  pub coefficient : ℕ
  pub decimals : ℕ

abbrev pub decimals_of : Option (List Char) → ℕ
decimals_of none = 0
decimals_of (some f) = length (keep (λ c. not (is_comma c)) f)

-- `_dec`
unfoldable pub dec : List Char → Amount
dec core = record { coefficient = number 0 core; decimals = decimals_of (after_dot core) }

pub record Decimal : Type 0 where
  pub is_negative : Bool
  pub value : ℕ
  pub places : ℕ

-- What has more digits than the context keeps
unfoldable pub precision_limit : ℕ
precision_limit = 10 ^ 28

-- How many digits of a coefficient are beyond the context's precision
unfoldable pub beyond : ℕ → ℕ → ℕ
unfolding precision_limit
beyond zero c = 0
beyond (suc left) c = elim (ltb c precision_limit) [ true ↦ 0 | false ↦ suc (beyond left (c / 10)) ]

abbrev pub half_even : ℕ → ℕ → ℕ
half_even c unit =
    if ltb (2 * (c % unit)) unit || (2 * (c % unit) == unit && c / unit % 2 == 0)
    then c / unit * unit
    else (c / unit + 1) * unit

-- A coefficient to the context's precision. It has fewer digits than itself.
unfoldable pub rounded : ℕ → ℕ
unfolding beyond
rounded c = elim (beyond c c) [ zero ↦ c | suc k ↦ half_even c (10 ^ suc k) ]

unfoldable pub exactly : Amount → Decimal
exactly x = record { is_negative = false; value = x.coefficient; places = x.decimals }

-- `-d`
unfoldable pub negated : Amount → Decimal
unfolding rounded
negated x = record {
  is_negative = not (x.coefficient == 0);
  value = rounded x.coefficient;
  places = x.decimals;
}
