-- ===== src/Extraction/Parse/Kinds.antt =====
-- What `parse_value` returns for any text whatever: how its class, its value, its decimals and its
-- reason belong together, and that a negative value is printed negative.
use Prim.Native.String.{String}
use cse_analysis.Base.{
  ℕ, ◌==◌, ◌≡◌, refl, Bool, true, false, not, ◌&&◌, ◌||◌, Option, none, some, List, [], ◌∷◌,
  if◌then◌else◌, any, null?, ==_iff, is_some, implies, Bool-cases, inl, inr, arith,
}
use cse_analysis.Extraction.Numbers.{
  Char, left_paren, hyphen, en_dash, minus_sign, is_blank, Amount, Decimal, exactly, negated,
  rounded, beyond,
}
use cse_analysis.Extraction.Patterns.{
  is_minus, is_left_paren, plain, in_parentheses, after_minus, percent_sign, percent_number,
  is_unbalanced, is_bound, looks_numeric, is_dash_nil, is_error, is_date_like, strip, skip_blanks,
  drop_blanks_end,
}
use cse_analysis.Extraction.Parse.{
  Class, numeric, parenthesised_negative, minus_negative, negative_zero, dash_nil, percentage,
  comparison_bound, spreadsheet_error, words, unresolved, is_value_class, is_amount_class,
  ParsedValue, no_value, with_value, negative, percentage_of, rest_of, percent_or_rest,
  minus_or_rest, parentheses_or_rest, plain_or_rest, parse_stripped, parse_value, is_value,
}

-- The classes that come with a value
abbrev pub has_amount : Class → Bool
has_amount percentage = true
has_amount c = is_amount_class c

-- What is printed before a negative number
abbrev pub is_negative_mark : Char → Bool
is_negative_mark c = is_minus c || is_left_paren c

abbrev pub places_of : Option Decimal → Option ℕ
places_of none = none
places_of (some x) = some x.places

abbrev pub below_zero : Option Decimal → Bool
below_zero none = false
below_zero (some x) = x.is_negative

-- The sign that a class gives its value
abbrev pub sign_fits : Class → Decimal → Bool
sign_fits numeric x = not x.is_negative
sign_fits parenthesised_negative x = x.is_negative
sign_fits minus_negative x = x.is_negative
sign_fits negative_zero x = not x.is_negative && x.value == 0
sign_fits percentage x = true
sign_fits _ x = false

abbrev pub fits : Class → Option Decimal → Bool
fits c none = not (has_amount c)
fits c (some x) = sign_fits c x

-- A parsed value of a text, whose printed signs are those of what is shown
pub record IsCoherent (raw shown : List Char) (p : ParsedValue) : Type 0 where
  pub raw_is : p.raw ≡ raw
  pub has_value : is_some p.parsed ≡ has_amount p.representation_class
  pub has_decimals : p.decimals ≡ places_of p.parsed
  pub explained : implies (is_some p.reason) (not (is_value p)) ≡ true
  pub sign_is : fits p.representation_class p.parsed ≡ true
  pub sign_shown : implies (below_zero p.parsed) (any is_negative_mark shown) ≡ true

if_case {ℓ} :
    {A : Type ℓ} (P : A → Type 0) (b : Bool) {x y : A}
    → (b ≡ true → P x)
    → (b ≡ false → P y)
    → P (if b then x else y)
if_case P true h k = h refl
if_case P false h k = k refl

module _ (raw t : List Char) where
  no_value-IsCoherent :
      (c : Class) (why : Option String)
      → has_amount c ≡ false
      → implies (is_some why) (not (is_value_class c)) ≡ true
      → IsCoherent raw t (no_value raw c why)
  no_value-IsCoherent c why h k = record {
    raw_is = refl;
    has_value = ground arith;
    has_decimals = refl;
    explained = k;
    sign_is = ground arith;
    sign_shown = refl;
  }

  exact-IsCoherent :
      (n : Amount) (c : Class)
      → has_amount c ≡ true
      → sign_fits c (exactly n) ≡ true
      → IsCoherent raw t (with_value raw c (exactly n) n)
  unfolding exactly
  exact-IsCoherent n c h k = record {
    raw_is = refl;
    has_value = ground arith;
    has_decimals = refl;
    explained = refl;
    sign_is = k;
    sign_shown = refl;
  }

  negated-IsCoherent :
      (n : Amount) (c : Class)
      → has_amount c ≡ true
      → sign_fits c (negated n) ≡ true
      → any is_negative_mark t ≡ true
      → IsCoherent raw t (with_value raw c (negated n) n)
  unfolding negated
  negated-IsCoherent n c h k s = record {
    raw_is = refl;
    has_value = ground arith;
    has_decimals = refl;
    explained = refl;
    sign_is = k;
    sign_shown = ground (arith, s);
  }

  zero_fits : (c v : ℕ) → (c == 0) ≡ true → (rounded c == 0) ≡ true
  unfolding rounded beyond
  zero_fits c v h = rw (((==_iff c 0).0 h)) refl

  -- A class of negatives, of which a zero is printed as `negative_zero`
  negative-fits :
      (n : Amount) (c : Class)
      → ((x : Decimal) → sign_fits c x ≡ x.is_negative)
      → sign_fits (if n.coefficient == 0 then negative_zero else c) (negated n) ≡ true
  unfolding negated
  negative-fits n c h = elim (Bool-cases (n.coefficient == 0)) [
    | inl e ↦ rw (e, zero_fits n.coefficient 0 e) refl
    | inr e ↦ rw (e, h _) refl
  ]

  negative-IsCoherent :
      (n : Amount) (c : Class)
      → has_amount c ≡ true
      → ((x : Decimal) → sign_fits c x ≡ x.is_negative)
      → any is_negative_mark t ≡ true
      → IsCoherent raw t (negative raw c n)
  negative-IsCoherent n c h k s =
      negated-IsCoherent n (if n.coefficient == 0 then negative_zero else c) (ground arith)
        (negative-fits n c k) s

  percentage-IsCoherent :
      (n : Amount)
      → ((percent_sign t).0 ≡ true → any is_negative_mark t ≡ true)
      → IsCoherent raw t (percentage_of raw t n)
  percentage-IsCoherent n s =
      if_case (IsCoherent raw t) (is_unbalanced t)
        (λ e. no_value-IsCoherent unresolved (some "unbalanced_parenthesis") refl refl)
        (λ e. elim (Bool-cases (percent_sign t).0) [
          | inl e' ↦ rw e' (negated-IsCoherent n percentage refl refl (s e'))
          | inr e' ↦ rw e' (exact-IsCoherent n percentage refl refl)
        ])

  rest-IsCoherent : IsCoherent raw t (rest_of raw t)
  rest-IsCoherent =
      if_case (IsCoherent raw t) (is_bound t)
        (λ e. no_value-IsCoherent comparison_bound none refl refl)
        (λ e.
          if_case (IsCoherent raw t) (looks_numeric t)
            (λ e'. no_value-IsCoherent unresolved (some "malformed_number") refl refl)
            (λ e'. no_value-IsCoherent words none refl refl))

  percent-IsCoherent :
      (o : Option Amount)
      → ((percent_sign t).0 ≡ true → any is_negative_mark t ≡ true)
      → IsCoherent raw t (percent_or_rest raw t o)
  percent-IsCoherent none s = rest-IsCoherent
  percent-IsCoherent (some n) s = percentage-IsCoherent n s

  minus-IsCoherent :
      (o : Option Amount)
      → (is_some o ≡ true → any is_negative_mark t ≡ true)
      → ((percent_sign t).0 ≡ true → any is_negative_mark t ≡ true)
      → IsCoherent raw t (minus_or_rest raw t o)
  minus-IsCoherent none h s = percent-IsCoherent (percent_number t) s
  minus-IsCoherent (some n) h s = negative-IsCoherent n minus_negative refl (λ x. refl) (h refl)

  parentheses-IsCoherent :
      (o : Option Amount)
      → (is_some o ≡ true → any is_negative_mark t ≡ true)
      → (is_some (after_minus t) ≡ true → any is_negative_mark t ≡ true)
      → ((percent_sign t).0 ≡ true → any is_negative_mark t ≡ true)
      → IsCoherent raw t (parentheses_or_rest raw t o)
  parentheses-IsCoherent none h h' s = minus-IsCoherent (after_minus t) h' s
  parentheses-IsCoherent (some n) h h' s =
      negative-IsCoherent n parenthesised_negative refl (λ x. refl) (h refl)

  plain-IsCoherent :
      (o : Option Amount)
      → (is_some (in_parentheses t) ≡ true → any is_negative_mark t ≡ true)
      → (is_some (after_minus t) ≡ true → any is_negative_mark t ≡ true)
      → ((percent_sign t).0 ≡ true → any is_negative_mark t ≡ true)
      → IsCoherent raw t (plain_or_rest raw t o)
  unfolding exactly
  plain-IsCoherent none h h' s = parentheses-IsCoherent (in_parentheses t) h h' s
  plain-IsCoherent (some n) h h' s = exact-IsCoherent n numeric refl refl

-- What matches a signed pattern begins with the sign.
in_parentheses-mark :
    (t : List Char) → is_some (in_parentheses t) ≡ true → any is_negative_mark t ≡ true
in_parentheses-mark [] h = cc
in_parentheses-mark (left_paren ∷ cs) h = refl
in_parentheses-mark (_ ∷ cs) h = cc

after_minus-mark : (t : List Char) → is_some (after_minus t) ≡ true → any is_negative_mark t ≡ true
after_minus-mark [] h = cc
after_minus-mark (c ∷ cs) h = elim (Bool-cases (is_minus c)) [
  | inl e ↦ rw e refl
  | inr e ↦ let h' : false ≡ true = rw e at h in cc
]

percent_sign-mark : (t : List Char) → (percent_sign t).0 ≡ true → any is_negative_mark t ≡ true
percent_sign-mark [] h = cc
percent_sign-mark (left_paren ∷ cs) h = refl
percent_sign-mark (hyphen ∷ cs) h = refl
percent_sign-mark (en_dash ∷ cs) h = refl
percent_sign-mark (minus_sign ∷ cs) h = refl
percent_sign-mark (_ ∷ cs) h = cc

parse_stripped-IsCoherent : (raw t : List Char) → IsCoherent raw t (parse_stripped raw t)
unfolding parse_stripped
parse_stripped-IsCoherent raw t =
    if_case (IsCoherent raw t) (null? t)
      (λ e. no_value-IsCoherent raw t words (some "empty") refl refl)
      (λ _.
        if_case (IsCoherent raw t) (is_dash_nil t)
          (λ e. no_value-IsCoherent raw t dash_nil none refl refl)
          (λ _.
            if_case (IsCoherent raw t) (is_error t)
              (λ e. no_value-IsCoherent raw t spreadsheet_error none refl refl)
              (λ _.
                if_case (IsCoherent raw t) (is_date_like t)
                  (λ e. no_value-IsCoherent raw t words (some "date") refl refl)
                  (λ _.
                    plain-IsCoherent raw t (plain t) (in_parentheses-mark t) (after_minus-mark t)
                      (percent_sign-mark t)))))

-- What is stripped is blank.
module _ (p : Char → Bool) where
  any-skip_blanks : (cs : List Char) → any p (skip_blanks cs) ≡ true → any p cs ≡ true
  any-skip_blanks [] h = h
  any-skip_blanks (c ∷ cs) h = elim (Bool-cases (is_blank c)) [
    | inl e ↦ ground (arith, any-skip_blanks cs (rw e at h))
    | inr e ↦ rw e at h
  ]

  any-drop_blanks_end : (cs : List Char) → any p (drop_blanks_end cs) ≡ true → any p cs ≡ true
  any-drop_blanks_end [] h = h
  any-drop_blanks_end (c ∷ cs) h = ground (arith, any-drop_blanks_end cs)

  any-strip : (cs : List Char) → any p (strip cs) ≡ true → any p cs ≡ true
  unfolding strip
  any-strip cs h = any-skip_blanks cs (any-drop_blanks_end (skip_blanks cs) h)

implies-any :
    (b : Bool) (cs : List Char)
    → implies b (any is_negative_mark (strip cs)) ≡ true
    → implies b (any is_negative_mark cs) ≡ true
implies-any true cs h = any-strip is_negative_mark cs h
implies-any false cs h = refl

-- For every text: `parse_value` keeps it as `raw`; gives a value for the amounts and percentages
-- and for no other class, with the printed decimals exactly then, and a reason only where the
-- class is not that of a value. A `numeric` value is not negative, one in parentheses or after a
-- minus is, and a `negative_zero` is zero. And a negative value has a minus or an opening
-- parenthesis in its text.
pub parse_value-IsCoherent : (raw : List Char) → IsCoherent raw raw (parse_value raw)
unfolding parse_value
parse_value-IsCoherent raw =
    let c = parse_stripped-IsCoherent raw (strip raw) in
    record {
      raw_is = c.raw_is;
      has_value = c.has_value;
      has_decimals = c.has_decimals;
      explained = c.explained;
      sign_is = c.sign_is;
      sign_shown = implies-any (below_zero (parse_value raw).parsed) raw c.sign_shown;
    }
