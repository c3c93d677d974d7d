-- ===== src/Extraction/Merge/Kept.antt =====
-- `merge_numeric_fragments` loses and adds nothing: its loop goes over every word.
use cse_analysis.Base.{
  ℕ, zero, suc, ◌+◌, ◌-◌, ◌≤◌, max, ◌≡◌, refl, sym, ap, ◌∙◌, Bool, List, [], ◌∷◌, ◌++◌, length,
  insert_by, sort_by, Bool-cases, inl, inr, arith,
}
use cse_analysis.Extraction.Numbers.{Char}
use cse_analysis.Extraction.Merge.{
  Word, adjoins, run_after, take, drop, text_of, fragments_of, best_length, pieces, around,
  merge_from, by_x0, merge_numeric_fragments, leb_ℤ,
}

pub best_length-bounds :
    (k : ℕ) (run : List Word) → (1 ≤ best_length k run) × (best_length k run ≤ max 1 k)
unfolding best_length
best_length-bounds zero run = (omega arith, omega arith)
best_length-bounds (suc zero) run = (omega arith, omega arith)
best_length-bounds (suc (suc k)) run = let ih = best_length-bounds (suc k) run in ground arith

pub pieces-bounds :
    (point : ℕ) (w : Word) (ws : List Word) → pieces point w ws - 1 ≤ length (run_after point w ws)
unfolding pieces
pieces-bounds point w ws =
    let b = best_length-bounds (length (w ∷ run_after point w ws)) (w ∷ run_after point w ws) in
    ground arith

-- A run is what the words begin with.
pub take-run_after :
    (point n : ℕ) (w : Word) (ws : List Word)
    → n ≤ length (run_after point w ws)
    → take n (run_after point w ws) ≡ take n ws
unfolding run_after
take-run_after point zero w ws h = refl
take-run_after point (suc n) w [] h = refl
take-run_after point (suc n) w (v ∷ ws) h = elim (Bool-cases (adjoins point w v)) [
  | inl e ↦
      let h' = rw e at h in rw e (ap (λ xs. v ∷ xs) (take-run_after point n v ws (omega arith)))
  | inr e ↦ let h' = rw e at h in ground arith
]

++_assoc : (xs ys zs : List Char) → xs ++ ys ++ zs ≡ xs ++ (ys ++ zs)
++_assoc [] ys zs = refl
++_assoc (x ∷ xs) ys zs = ap (λ t. x ∷ t) (++_assoc xs ys zs)

++_empty : (xs : List Char) → xs ++ [] ≡ xs
++_empty [] = refl
++_empty (x ∷ xs) = ap (λ t. x ∷ t) (++_empty xs)

pub text-around : (w : Word) (ws : List Word) → (around w ws).text ≡ text_of (w ∷ ws)
text-around w [] = sym (++_empty w.text)
text-around w (v ∷ vs) = rw (text-around v vs) refl

fragments-around : (w : Word) (ws : List Word) → (around w ws).fragments ≡ fragments_of (w ∷ ws)
fragments-around w [] = omega arith
fragments-around w (v ∷ vs) = rw (fragments-around v vs) refl

text_of-take : (n : ℕ) (ws : List Word) → text_of (take n ws) ++ text_of (drop n ws) ≡ text_of ws
text_of-take zero ws = refl
text_of-take (suc n) [] = refl
text_of-take (suc n) (w ∷ ws) =
    ++_assoc w.text (text_of (take n ws)) (text_of (drop n ws))
    ∙ ap (λ t. w.text ++ t) (text_of-take n ws)

fragments_of-take :
    (n : ℕ) (ws : List Word) → fragments_of (take n ws) + fragments_of (drop n ws) ≡ fragments_of ws
fragments_of-take zero ws = omega arith
fragments_of-take (suc n) [] = omega arith
fragments_of-take (suc n) (w ∷ ws) = let ih = fragments_of-take n ws in omega arith

length-drop : (n : ℕ) (ws : List Word) → length (drop n ws) ≤ length ws
length-drop zero ws = omega arith
length-drop (suc n) [] = omega arith
length-drop (suc n) (w ∷ ws) = let ih = length-drop n ws in omega arith

-- With a round for every word, the loop goes over them all.
text_of-merge_from :
    (point left : ℕ) (ws : List Word)
    → length ws ≤ left
    → text_of (merge_from point left ws) ≡ text_of ws
unfolding merge_from
text_of-merge_from point zero [] h = refl
text_of-merge_from point zero (w ∷ ws) h = ground arith
text_of-merge_from point (suc left) [] h = refl
text_of-merge_from point (suc left) (w ∷ ws) h =
    let more = pieces point w ws - 1 in
    let shorter = length-drop more ws in
    rw
      (
        text_of-merge_from point left (drop more ws) (omega arith),
        text-around w (take more (run_after point w ws)),
        take-run_after point more w ws (pieces-bounds point w ws),
      )
      (++_assoc w.text (text_of (take more ws)) (text_of (drop more ws))
        ∙ ap (λ t. w.text ++ t) (text_of-take more ws))

fragments_of-merge_from :
    (point left : ℕ) (ws : List Word)
    → length ws ≤ left
    → fragments_of (merge_from point left ws) ≡ fragments_of ws
unfolding merge_from
fragments_of-merge_from point zero [] h = refl
fragments_of-merge_from point zero (w ∷ ws) h = ground arith
fragments_of-merge_from point (suc left) [] h = refl
fragments_of-merge_from point (suc left) (w ∷ ws) h =
    let more = pieces point w ws - 1 in
    let shorter = length-drop more ws in
    rw
      (
        fragments_of-merge_from point left (drop more ws) (omega arith),
        fragments-around w (take more (run_after point w ws)),
        take-run_after point more w ws (pieces-bounds point w ws),
      )
      (let parts = fragments_of-take more ws in omega arith)

module _ (le : Word → Word → Bool) where
  insert_by-fragments_of :
      (w : Word) (ws : List Word)
      → (fragments_of (insert_by le w ws) ≡ w.fragments + fragments_of ws)
        × (length (insert_by le w ws) ≡ suc (length ws))
  unfolding insert_by
  insert_by-fragments_of w [] = (refl, refl)
  insert_by-fragments_of w (v ∷ ws) = elim (Bool-cases (le w v)) [
    | inl e ↦ rw e (refl, refl)
    | inr e ↦ let (a, b) = insert_by-fragments_of w ws in rw e (omega arith, omega arith)
  ]

  sort_by-fragments_of :
      (ws : List Word)
      → (fragments_of (sort_by le ws) ≡ fragments_of ws) × (length (sort_by le ws) ≡ length ws)
  unfolding sort_by
  sort_by-fragments_of [] = (refl, refl)
  sort_by-fragments_of (w ∷ ws) =
      let (a, b) = sort_by-fragments_of ws in
      let (c, d) = insert_by-fragments_of w (sort_by le ws) in (omega arith, omega arith)

-- Over any words of a line the merge comes to its end with all of them: its words, read in order,
-- spell what the sorted words spell, and they count as many fragments as the words given.
pub merge_numeric_fragments-text_of :
    (point : ℕ) (ws : List Word)
    → (text_of (merge_numeric_fragments point ws) ≡ text_of (by_x0 ws))
      × (fragments_of (merge_numeric_fragments point ws) ≡ fragments_of ws)
unfolding merge_numeric_fragments
merge_numeric_fragments-text_of point ws =
    let (a, b) = sort_by-fragments_of (λ v w. leb_ℤ v.x0 w.x0) ws in
    (
      text_of-merge_from point (length ws) (by_x0 ws) (omega arith),
      fragments_of-merge_from point (length ws) (by_x0 ws) (omega arith) ∙ a,
    )
