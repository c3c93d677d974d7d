-- ===== src/Extraction/Parse/Round.antt =====
-- A printed amount is read back: unsigned, in the parentheses of a negative amount, or after a minus.
use cse_analysis.Base.{
  ℕ, zero, suc, ◌≤◌, ◌<◌, ◌≡◌, refl, subst, ◌∙◌, true, false, not, some, none, List, [], ◌∷◌, ◌++◌,
  lt→ltb, ◌==◌, if◌then◌else◌, all, count, length,
}
use cse_analysis.Extraction.Numbers.{
  Char, digit, left_paren, right_paren, hyphen, en_dash, minus_sign, is_blank, is_core_char,
  is_core, dec, Amount, precision_limit, beyond, rounded, exactly, negated,
}
use cse_analysis.Extraction.Numbers.Print.{
  printed, digits_after, printed-is_core, dec-printed, printed-all_core, printed-digit,
  count-printed,
}
use cse_analysis.Extraction.Patterns.{is_minus, is_date_mark}
use cse_analysis.Extraction.Parse.{
  numeric, parenthesised_negative, minus_negative, negative_zero, Class, ParsedValue, with_value,
  negative, parse_stripped, parse_value,
}
use cse_analysis.Extraction.Patterns.Runs.{
  all-++, all_core-solid, core_then-closed, core_then-end, is_solid, no_dash_nil, no_dash_nil_two,
  one_mark-no_date, strip-solid,
}

no_core : is_core [] ≡ false
unfolding is_core
no_core = refl

module _ (raw cs : List Char) (k : ℕ) (h : all is_core_char (digit k ∷ cs) ≡ true)
    (w : is_core (digit k ∷ cs) ≡ true) where
  parse_plain :
      count is_date_mark (digit k ∷ cs) ≤ 1
      → parse_stripped raw (digit k ∷ cs)
        ≡ with_value raw numeric (exactly (dec (digit k ∷ cs))) (dec (digit k ∷ cs))
  unfolding parse_stripped
  parse_plain e =
      rw
        (
          no_dash_nil (digit k) cs refl,
          one_mark-no_date (digit k ∷ cs) e,
          core_then-end (digit k ∷ cs) h w,
        )
        refl

  parse_bracketed :
      parse_stripped raw (left_paren ∷ digit k ∷ cs ++ right_paren ∷ [])
      ≡ negative raw parenthesised_negative (dec (digit k ∷ cs))
  unfolding parse_stripped
  parse_bracketed =
      rw
        (
          no_dash_nil left_paren (digit k ∷ cs ++ right_paren ∷ []) refl,
          no_core,
          core_then-closed (digit k ∷ cs) h w,
        )
        refl

  parse_minus :
      (m : Char)
      → is_minus m ≡ true
      → parse_stripped raw (m ∷ digit k ∷ cs) ≡ negative raw minus_negative (dec (digit k ∷ cs))
  unfolding parse_stripped
  parse_minus hyphen hm =
      rw (no_dash_nil_two hyphen (digit k) cs refl, no_core, core_then-end (digit k ∷ cs) h w) refl
  parse_minus en_dash hm =
      rw (no_dash_nil_two en_dash (digit k) cs refl, no_core, core_then-end (digit k ∷ cs) h w) refl
  parse_minus minus_sign hm =
      rw (no_dash_nil_two minus_sign (digit k) cs refl, no_core, core_then-end (digit k ∷ cs) h w)
        refl
  parse_minus _ hm = cc

-- How a statement prints an amount: unsigned, in parentheses, or after one of the three minuses
pub data Form : Type 0 where
  unsigned bracketed hyphened dashed minused : Form

unfoldable pub in_form : Form → List Char → List Char
in_form unsigned t = t
in_form bracketed t = left_paren ∷ t ++ right_paren ∷ []
in_form hyphened t = hyphen ∷ t
in_form dashed t = en_dash ∷ t
in_form minused t = minus_sign ∷ t

unfoldable pub written : Form → ℕ → List ℕ → List Char
unfolding in_form
written form n ks = in_form form (printed n ks)

abbrev pub negative_class : Form → Class
negative_class bracketed = parenthesised_negative
negative_class _ = minus_negative

-- What such a text says: of a coefficient and its decimals
unfoldable pub meant : Form → List Char → ℕ → ℕ → ParsedValue
meant unsigned raw c d = record {
  raw = raw;
  parsed = some (record { is_negative = false; value = c; places = d });
  representation_class = numeric;
  decimals = some d;
  reason = none;
}
meant form raw c d = record {
  raw = raw;
  parsed = some (record { is_negative = not (c == 0); value = c; places = d });
  representation_class = if c == 0 then negative_zero else negative_class form;
  decimals = some d;
  reason = none;
}

rounded_within : (c : ℕ) → c < precision_limit → rounded c ≡ c
unfolding rounded beyond
rounded_within zero h = refl
rounded_within (suc c) h = rw (rounded, beyond, lt→ltb (suc c) precision_limit h) refl

in_form-solid : (form : Form) (t : List Char) → is_solid t ≡ true → is_solid (in_form form t) ≡ true
unfolding in_form
in_form-solid unsigned t h = h
in_form-solid bracketed t h = all-++ (λ c. not (is_blank c)) t (right_paren ∷ []) h refl
in_form-solid hyphened t h = h
in_form-solid dashed t h = h
in_form-solid minused t h = h

module _ (raw cs : List Char) (k : ℕ) (h : all is_core_char (digit k ∷ cs) ≡ true)
    (w : is_core (digit k ∷ cs) ≡ true) (x : Amount) (read : dec (digit k ∷ cs) ≡ x)
    (within : x.coefficient < precision_limit) where
  negative_lem :
      (c : Class)
      → negative raw c (dec (digit k ∷ cs)) ≡ record {
        raw = raw;
        parsed = some (record {
          is_negative = not (x.coefficient == 0);
          value = x.coefficient;
          places = x.decimals;
        });
        representation_class = if x.coefficient == 0 then negative_zero else c;
        decimals = some x.decimals;
        reason = none;
      }
  unfolding negated
  negative_lem c = rw (read, rounded_within x.coefficient within) refl

  form_parse :
      (form : Form)
      → count is_date_mark (digit k ∷ cs) ≤ 1
      → parse_stripped raw (in_form form (digit k ∷ cs)) ≡ meant form raw x.coefficient x.decimals
  unfolding in_form meant exactly
  form_parse unsigned e = parse_plain raw cs k h w e ∙ rw read refl
  form_parse bracketed e = parse_bracketed raw cs k h w ∙ negative_lem parenthesised_negative
  form_parse hyphened e = parse_minus raw cs k h w hyphen refl ∙ negative_lem minus_negative
  form_parse dashed e = parse_minus raw cs k h w en_dash refl ∙ negative_lem minus_negative
  form_parse minused e = parse_minus raw cs k h w minus_sign refl ∙ negative_lem minus_negative

written-parse :
    (form : Form) (n : ℕ) (ks : List ℕ) (raw : List Char)
    → digits_after n ks < precision_limit
    → parse_stripped raw (written form n ks) ≡ meant form raw (digits_after n ks) (length ks)
unfolding written
written-parse form n ks raw h =
    let (k, cs, e) = printed-digit n ks in
    rw e (
      form_parse raw cs k (subst (λ t. all is_core_char t ≡ true) e (printed-all_core n ks))
        (subst (λ t. is_core t ≡ true) e (printed-is_core n ks))
        (record { coefficient = digits_after n ks; decimals = length ks })
        (subst (λ t. dec t ≡ record { coefficient = digits_after n ks; decimals = length ks }) e
          (dec-printed n ks))
        h form
        (subst (λ t. count is_date_mark t ≤ 1) e
          (count-printed is_date_mark (λ j. refl) refl n ks)))

-- An amount that is printed, with a comma before each group of three digits and its decimals
-- after a dot, unsigned, in parentheses or after a minus, is read back as that amount, if it
-- has no more digits than the context keeps: with its decimals, its sign, and the class of its
-- form, which for a zero that is printed negative is `negative_zero`.
pub parse_value-written :
    (form : Form) (n : ℕ) (ks : List ℕ)
    → digits_after n ks < precision_limit
    → parse_value (written form n ks)
      ≡ meant form (written form n ks) (digits_after n ks) (length ks)
unfolding parse_value written
parse_value-written form n ks h =
    rw
      (strip-solid (written form n ks)
        (in_form-solid form (printed n ks) (all_core-solid (printed n ks) (printed-all_core n ks))))
      (written-parse form n ks (written form n ks) h)
