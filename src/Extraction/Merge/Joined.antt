-- ===== src/Extraction/Merge/Joined.antt =====
-- What `merge_numeric_fragments` joins: pieces of one value, each close after the one before it.
use cse_analysis.Base.{
  ℕ, zero, suc, ◌-◌, ◌≤◌, ◌≡◌, refl, ap, ◌⊎◌, inl, inr, true, ◌&&◌, List, [], ◌∷◌, length, All,
  sort_by-All, mem-All, Bool-cases, &&-true, arith,
}
use mathlib.Core.List.{Memᴰ}
use cse_analysis.Base.Int.{ℤ, pos, ◌-ℤ◌, ◌≤ℤ◌}
use cse_analysis.Extraction.Parse.{parse_value, is_value, is_fragment}
use cse_analysis.Extraction.Merge.{
  Word, height, leb_ℤ, min_ℤ, max_ℤ, times_four, adjoins, run_after, take, drop, text_of,
  best_length, pieces, around, merge_from, by_x0, merge_numeric_fragments,
}
use cse_analysis.Extraction.Merge.Kept.{best_length-bounds, text-around}

-- A word that comes close after the one before it
abbrev pub IsClose : ℕ → Word → Word → Type 0
IsClose point w v =
    (is_fragment v.text ≡ true)
    × (times_four (v.x0 -ℤ w.x1) ≤ℤ max_ℤ (pos point) (min_ℤ (height w) (height v)))
    × (w.x0 ≤ℤ v.x0)

-- Each word comes close after the one before it.
abbrev pub IsRun : ℕ → Word → List Word → Type 0
IsRun point w [] = Unit
IsRun point w (v ∷ vs) = IsClose point w v × IsRun point v vs

leb_ℤ-≤ℤ : (a b : ℤ) → leb_ℤ a b ≡ true → a ≤ℤ b
leb_ℤ-≤ℤ a b h = ground arith

adjoins-IsClose : (point : ℕ) (w v : Word) → adjoins point w v ≡ true → IsClose point w v
unfolding adjoins
adjoins-IsClose point w v h =
    let gap = times_four (v.x0 -ℤ w.x1) in
    let most = max_ℤ (pos point) (min_ℤ (height w) (height v)) in
    let (fg, x) = &&-true (is_fragment v.text && leb_ℤ gap most) (leb_ℤ w.x0 v.x0) h in
    let (f, g) = &&-true (is_fragment v.text) (leb_ℤ gap most) fg in
    (f, leb_ℤ-≤ℤ gap most g, leb_ℤ-≤ℤ w.x0 v.x0 x)

take-IsRun :
    (point n : ℕ) (w : Word) (ws : List Word) → IsRun point w (take n (run_after point w ws))
unfolding run_after
take-IsRun point zero w ws = tt
take-IsRun point (suc n) w [] = tt
take-IsRun point (suc n) w (v ∷ ws) = elim (Bool-cases (adjoins point w v)) [
  | inl e ↦ rw e (adjoins-IsClose point w v e, take-IsRun point n v ws)
  | inr e ↦ rw e tt
]

-- A word that was joined from several: from a first fragment and those after it
pub record IsJoined (point : ℕ) (ws : List Word) (v : Word) : Type 0 where
  pub first : Word
  pub others : List Word
  pub from_line : All (λ w. Memᴰ w ws) (first ∷ others)
  pub several : 1 ≤ length others
  pub fragment : is_fragment first.text ≡ true
  pub adjoining : IsRun point first others
  pub text_is : v.text ≡ text_of (first ∷ others)
  pub value_is : is_value (parse_value v.text) ≡ true

best_length-value :
    (k : ℕ) (run : List Word)
    → 2 ≤ best_length k run
    → is_value (parse_value (text_of (take (best_length k run) run))) ≡ true
unfolding best_length
best_length-value zero run h = ground arith
best_length-value (suc zero) run h = ground arith
best_length-value (suc (suc k)) run h =
    elim (Bool-cases (is_value (parse_value (text_of (take (suc (suc k)) run))))) [
      | inl e ↦ rw e e
      | inr e ↦ rw e (best_length-value (suc k) run (rw e at h))
    ]

module _ (P : Word → Type 0) where
  All-drop : (n : ℕ) (ws : List Word) → All P ws → All P (drop n ws)
  All-drop zero ws h = h
  All-drop (suc n) [] h = h
  All-drop (suc n) (w ∷ ws) h = All-drop n ws h.1

  All-take_run :
      (point n : ℕ) (w : Word) (ws : List Word) → All P ws → All P (take n (run_after point w ws))
  unfolding run_after
  All-take_run point zero w ws h = tt
  All-take_run point (suc n) w [] h = tt
  All-take_run point (suc n) w (v ∷ ws) h = elim (Bool-cases (adjoins point w v)) [
    | inl e ↦ rw e (h.0, All-take_run point n v ws h.1)
    | inr e ↦ rw e tt
  ]

length-take : (n : ℕ) (ws : List Word) → n ≤ length ws → length (take n ws) ≡ n
length-take zero ws h = refl
length-take (suc n) [] h = ground arith
length-take (suc n) (w ∷ ws) h = ap suc (length-take n ws (omega arith))

pieces-several :
    (point : ℕ) (w : Word) (ws : List Word) (m : ℕ)
    → pieces point w ws - 1 ≡ suc m
    → (is_fragment w.text ≡ true)
      × (suc m ≤ length (run_after point w ws))
      × (is_value (parse_value (text_of (w ∷ take (suc m) (run_after point w ws)))) ≡ true)
unfolding pieces
pieces-several point w ws m h = elim (Bool-cases (is_fragment w.text)) [
  | inl e ↦
      let run = w ∷ run_after point w ws in
      let b = best_length-bounds (length run) run in
      let h' : best_length (length run) run - 1 ≡ suc m = rw e at h in
      let k : best_length (length run) run ≡ suc (suc m) = omega arith in
      (e, omega arith, rw k at (best_length-value (length run) run (omega arith)))
  | inr e ↦ let h' : 1 - 1 ≡ suc m = rw e at h in ground arith
]

module _ (point : ℕ) (line : List Word) where
  abbrev pub IsSound : Word → Type 0
  IsSound v = Memᴰ v line ⊎ IsJoined point line v

  around-IsSound :
      (w : Word) (ws : List Word) (n : ℕ)
      → pieces point w ws - 1 ≡ n
      → All (λ v. Memᴰ v line) (w ∷ ws)
      → IsSound (around w (take n (run_after point w ws)))
  around-IsSound w ws zero e h = inl h.0
  around-IsSound w ws (suc n) e h =
      let (f, l, v) = pieces-several point w ws n e in
      inr (record {
        first = w;
        others = take (suc n) (run_after point w ws);
        from_line = (h.0, All-take_run (λ u. Memᴰ u line) point (suc n) w ws h.1);
        several = rw (length-take (suc n) (run_after point w ws) l) (omega arith);
        fragment = f;
        adjoining = take-IsRun point (suc n) w ws;
        text_is = text-around w (take (suc n) (run_after point w ws));
        value_is = rw (text-around w (take (suc n) (run_after point w ws))) v;
      })

  merge_from-IsSound :
      (left : ℕ) (ws : List Word)
      → All (λ v. Memᴰ v line) ws
      → All IsSound (merge_from point left ws)
  unfolding merge_from
  merge_from-IsSound zero ws h = tt
  merge_from-IsSound (suc left) [] h = tt
  merge_from-IsSound (suc left) (w ∷ ws) h = (
    around-IsSound w ws (pieces point w ws - 1) refl h,
    merge_from-IsSound left (drop (pieces point w ws - 1) ws)
        (All-drop (λ v. Memᴰ v line) (pieces point w ws - 1) ws h.1),
  )

-- Each word of the merged line is a word of the line, or is joined from several of its words: the
-- first is a fragment, each other one is a fragment that lies no further from the one before it
-- than a quarter of the lesser height, or of a point, and not to the left of it; together they
-- spell the joined word, and that is a well-formed value.
pub merge_numeric_fragments-IsSound :
    (point : ℕ) (ws : List Word) → All (IsSound point ws) (merge_numeric_fragments point ws)
unfolding merge_numeric_fragments
merge_numeric_fragments-IsSound point ws = merge_from-IsSound point ws (length ws) (by_x0 ws) (
    sort_by-All (λ a b. leb_ℤ a.x0 b.x0) (λ v. Memᴰ v ws) ws
      (mem-All (λ v. Memᴰ v ws) ws (λ v m. m)))
