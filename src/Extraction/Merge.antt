-- ===== src/Extraction/Merge.antt =====
-- worker/financial_values.py: `merge_numeric_fragments`, on the words of worker/pdf_words.py.
--
-- A coordinate is an integer of a unit of which a point has `point`; the gap ratio is the default,
-- a quarter. What the source computes in floating point is exact here.
pub mod Kept
pub mod Joined
use cse_analysis.Base.{
  ℕ, zero, suc, ◌+◌, ◌-◌, Bool, true, false, not, ◌&&◌, ◌||◌, List, [], ◌∷◌, ◌++◌, ltb,
  if◌then◌else◌, length, sort_by,
}
use cse_analysis.Base.Int.{ℤ, pos, ltb_ℤ, ◌+ℤ◌, ◌-ℤ◌}
use cse_analysis.Extraction.Numbers.{Char}
use cse_analysis.Extraction.Parse.{parse_value, is_value, is_fragment}

-- `Word`
pub record Word : Type 0 where
  pub text : List Char
  pub x0 : ℤ
  pub y0 : ℤ
  pub x1 : ℤ
  pub y1 : ℤ
  pub fragments : ℕ

abbrev pub height : Word → ℤ
height w = w.y1 -ℤ w.y0

abbrev pub leb_ℤ : ℤ → ℤ → Bool
leb_ℤ a b = not (ltb_ℤ b a)

abbrev pub min_ℤ : ℤ → ℤ → ℤ
min_ℤ a b = if ltb_ℤ b a then b else a

abbrev pub max_ℤ : ℤ → ℤ → ℤ
max_ℤ a b = if ltb_ℤ a b then b else a

abbrev pub times_four : ℤ → ℤ
times_four a = a +ℤ a +ℤ (a +ℤ a)

-- The condition on the next word of a run
unfoldable pub adjoins : ℕ → Word → Word → Bool
adjoins point prev nxt =
    is_fragment nxt.text
    && leb_ℤ (times_four (nxt.x0 -ℤ prev.x1)) (max_ℤ (pos point) (min_ℤ (height prev) (height nxt)))
    && leb_ℤ prev.x0 nxt.x0

-- The run after its first word
unfoldable pub run_after : ℕ → Word → List Word → List Word
run_after point prev [] = []
run_after point prev (nxt ∷ ws) =
    let rest = run_after point nxt ws in if adjoins point prev nxt then nxt ∷ rest else []

abbrev pub take {ℓ} : {A : Type ℓ} → ℕ → List A → List A
take zero xs = []
take (suc n) [] = []
take (suc n) (x ∷ xs) = x ∷ take n xs

abbrev pub drop {ℓ} : {A : Type ℓ} → ℕ → List A → List A
drop zero xs = xs
drop (suc n) [] = []
drop (suc n) (x ∷ xs) = drop n xs

-- `"".join(r.text for r in run)`
abbrev pub text_of : List Word → List Char
text_of [] = []
text_of (w ∷ ws) = w.text ++ text_of ws

abbrev pub fragments_of : List Word → ℕ
fragments_of [] = 0
fragments_of (w ∷ ws) = w.fragments + fragments_of ws

-- `best`, among the first words of a run up to a number of them
unfoldable pub best_length : ℕ → List Word → ℕ
best_length zero run = 1
best_length (suc zero) run = 1
best_length (suc (suc k)) run =
    let shorter = best_length (suc k) run in
    if is_value (parse_value (text_of (take (suc (suc k)) run))) then suc (suc k) else shorter

-- How many pieces become one word
unfoldable pub pieces : ℕ → Word → List Word → ℕ
pieces point w ws =
    if is_fragment w.text
    then best_length (length (w ∷ run_after point w ws)) (w ∷ run_after point w ws)
    else 1

abbrev pub around : Word → List Word → Word
around w [] = w
around w (v ∷ vs) =
    let rest = around v vs in
    record {
      text = w.text ++ rest.text;
      x0 = min_ℤ w.x0 rest.x0;
      y0 = min_ℤ w.y0 rest.y0;
      x1 = max_ℤ w.x1 rest.x1;
      y1 = max_ℤ w.y1 rest.y1;
      fragments = w.fragments + rest.fragments;
    }

-- The loop on i. A round leaves fewer words.
unfoldable pub merge_from : ℕ → ℕ → List Word → List Word
merge_from point zero ws = []
merge_from point (suc left) [] = []
merge_from point (suc left) (w ∷ ws) =
    let more = pieces point w ws - 1 in
    around w (take more (run_after point w ws)) ∷ merge_from point left (drop more ws)

abbrev pub by_x0 : List Word → List Word
by_x0 ws = sort_by (λ a b. leb_ℤ a.x0 b.x0) ws

-- `merge_numeric_fragments`
unfoldable pub merge_numeric_fragments : ℕ → List Word → List Word
unfolding merge_from
merge_numeric_fragments point ws = merge_from point (length ws) (by_x0 ws)
