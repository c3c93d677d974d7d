-- ===== src/Extraction/Tests.antt =====
-- Cells, and a line of words, at concrete inputs.
use cse_analysis.Base.{
  ℕ, ◌+◌, ◌≡◌, refl, ◌^◌, true, some, none, List, [], ◌∷◌, All, arith, insert_by, sort_by,
}
use cse_analysis.Base.Int.{pos, ◌+ℤ◌, ◌-ℤ◌}
use cse_analysis.Extraction.Numbers.{
  Char, digit, comma, dot, left_paren, right_paren, percent, hyphen, greater_than, hash, slash,
  exclamation, letter_d, letter_i, letter_v, space, precision_limit, beyond, rounded, is_core, dec,
  exactly, negated,
}
use cse_analysis.Extraction.Patterns.{strip, looks_numeric}
use cse_analysis.Extraction.Parse.{
  Class, parenthesised_negative, negative_zero, dash_nil, percentage, comparison_bound,
  spreadsheet_error, words, unresolved, parse_value, parse_stripped, is_fragment,
}
use cse_analysis.Extraction.Parse.Kinds.{IsCoherent, parse_value-IsCoherent}
use cse_analysis.Extraction.Parse.Round.{bracketed, written, meant, parse_value-written}
use cse_analysis.Extraction.Merge.{
  Word, adjoins, run_after, best_length, pieces, text_of, fragments_of, merge_from, by_x0,
  merge_numeric_fragments,
}
use cse_analysis.Extraction.Merge.Kept.{merge_numeric_fragments-text_of}
use cse_analysis.Extraction.Merge.Joined.{IsSound, merge_numeric_fragments-IsSound}

abbrev class_of : List Char → Class
class_of cs = (parse_value cs).representation_class

-- (1,234.50)
abbrev bracketed_cell : List Char
bracketed_cell =
    left_paren
    ∷ digit 1
    ∷ comma
    ∷ digit 2
    ∷ digit 3
    ∷ digit 4
    ∷ dot
    ∷ digit 5
    ∷ digit 0
    ∷ right_paren
    ∷ []

bracketed_value : parse_value (space ∷ bracketed_cell) ≡ record {
  raw = space ∷ bracketed_cell;
  parsed = some (record { is_negative = true; value = 123450; places = 2 });
  representation_class = parenthesised_negative;
  decimals = some 2;
  reason = none;
}
unfolding parse_value strip parse_stripped is_core dec negated rounded beyond precision_limit
bracketed_value = refl

-- (0), 1,23,456 and 801.814,765, #DIV/0!, >100%, (4.78)%, 31.03.26
cell_classes :
    class_of (left_paren ∷ digit 0 ∷ right_paren ∷ [])
      ∷ class_of (digit 1 ∷ comma ∷ digit 2 ∷ digit 3 ∷ comma ∷ digit 4 ∷ digit 5 ∷ digit 6 ∷ [])
      ∷ class_of (
          digit 8
          ∷ digit 0
          ∷ digit 1
          ∷ dot
          ∷ digit 8
          ∷ digit 1
          ∷ digit 4
          ∷ comma
          ∷ digit 7
          ∷ digit 6
          ∷ digit 5
          ∷ [])
      ∷ class_of (hash ∷ letter_d ∷ letter_i ∷ letter_v ∷ slash ∷ digit 0 ∷ exclamation ∷ [])
      ∷ class_of (greater_than ∷ digit 1 ∷ digit 0 ∷ digit 0 ∷ percent ∷ [])
      ∷ class_of (left_paren ∷ digit 4 ∷ dot ∷ digit 7 ∷ digit 8 ∷ right_paren ∷ percent ∷ [])
      ∷ class_of (digit 3 ∷ digit 1 ∷ dot ∷ digit 0 ∷ digit 3 ∷ dot ∷ digit 2 ∷ digit 6 ∷ [])
      ∷ class_of (hyphen ∷ hyphen ∷ [])
      ∷ []
    ≡ negative_zero ∷ unresolved ∷ unresolved ∷ spreadsheet_error ∷ comparison_bound ∷ percentage
      ∷ words ∷ dash_nil ∷ []
unfolding parse_value strip parse_stripped is_core dec negated rounded beyond precision_limit
    looks_numeric exactly
cell_classes = refl

-- A coefficient of 29 digits is rounded when its sign is changed.
rounded_sign : rounded (10 ^ 28 + 5) ≡ 10 ^ 28
unfolding rounded beyond precision_limit
rounded_sign = refl

parse_value-written_example :
    parse_value (written bracketed 1234567 (8 ∷ 9 ∷ []))
    ≡ meant bracketed (written bracketed 1234567 (8 ∷ 9 ∷ [])) 123456789 2
unfolding precision_limit
parse_value-written_example = parse_value-written bracketed 1234567 (8 ∷ 9 ∷ []) (omega arith)

parse_value-IsCoherent_example :
    IsCoherent bracketed_cell bracketed_cell (parse_value bracketed_cell)
parse_value-IsCoherent_example = parse_value-IsCoherent bracketed_cell

-- '1 2 ,37 7' and a cell of its own
abbrev piece : List Char → ℕ → ℕ → Word
piece cs left right = record {
  text = cs;
  x0 = pos left;
  y0 = pos 1000;
  x1 = pos right;
  y1 = pos 1100;
  fragments = 1;
}

abbrev spaced_line : List Word
spaced_line =
    piece (digit 1 ∷ []) 100 150
    ∷ piece (digit 2 ∷ []) 160 210
    ∷ piece (comma ∷ digit 3 ∷ digit 7 ∷ []) 220 340
    ∷ piece (digit 7 ∷ []) 350 400
    ∷ piece (digit 9 ∷ []) 900 950
    ∷ []

merged_line :
    merge_numeric_fragments 10 spaced_line
    ≡ record {
      text = digit 1 ∷ digit 2 ∷ comma ∷ digit 3 ∷ digit 7 ∷ digit 7 ∷ [];
      x0 = pos 100;
      y0 = pos 1000;
      x1 = pos 400;
      y1 = pos 1100;
      fragments = 4;
    }
      ∷ piece (digit 9 ∷ []) 900 950
      ∷ []
unfolding merge_numeric_fragments merge_from run_after pieces best_length adjoins is_fragment
    sort_by insert_by ◌+ℤ◌ ◌-ℤ◌ parse_value strip parse_stripped is_core dec exactly looks_numeric
merged_line = refl

merge_numeric_fragments-text_of_example :
    (text_of (merge_numeric_fragments 10 spaced_line) ≡ text_of (by_x0 spaced_line))
    × (fragments_of (merge_numeric_fragments 10 spaced_line) ≡ 5)
merge_numeric_fragments-text_of_example = merge_numeric_fragments-text_of 10 spaced_line

merge_numeric_fragments-IsSound_example :
    All (IsSound 10 spaced_line) (merge_numeric_fragments 10 spaced_line)
merge_numeric_fragments-IsSound_example = merge_numeric_fragments-IsSound 10 spaced_line
