-- ===== src/Base/Sort.antt =====
-- `sorted(xs, key=...)`: insertion by a Boolean order, which keeps the elements.
use mathlib.Core.Logic.{inl, inr}
use mathlib.Core.Bool.{Bool}
use mathlib.Core.List.{List, [], ◌∷◌, Memᴰ}
use cse_analysis.Base.Tests.{Bool-cases, if◌then◌else◌}
use cse_analysis.Base.Lists.{All, mem-uncons}

module _ {ℓ} {A : Type ℓ} (le : A → A → Bool) where
  unfoldable pub insert_by : A → List A → List A
  insert_by o [] = o ∷ []
  insert_by o (x ∷ xs) = if le o x then o ∷ x ∷ xs else x ∷ insert_by o xs

  unfoldable pub sort_by : List A → List A
  unfolding insert_by
  sort_by [] = []
  sort_by (o ∷ os) = insert_by o (sort_by os)

  mem-insert_by : (o : A) (os : List A) {x : A} → Memᴰ x (o ∷ os) → Memᴰ x (insert_by o os)
  unfolding insert_by
  mem-insert_by o [] m = m
  mem-insert_by o (y ∷ ys) m = elim (Bool-cases (le o y)) [
    | inl e ↦ rw e m
    | inr e ↦ rw e (elim (mem-uncons m) [
      | inl q ↦ Memᴰ.tail (mem-insert_by o ys (Memᴰ.head q))
      | inr t ↦ elim (mem-uncons t) [
        | inl q ↦ Memᴰ.head q
        | inr u ↦ Memᴰ.tail (mem-insert_by o ys (Memᴰ.tail u))
      ]
    ])
  ]

  pub mem-sort_by : (os : List A) {x : A} → Memᴰ x os → Memᴰ x (sort_by os)
  unfolding sort_by
  mem-sort_by [] m = elim m [ ]
  mem-sort_by (o ∷ os) m =
      mem-insert_by o (sort_by os)
        (elim (mem-uncons m) [ inl q ↦ Memᴰ.head q | inr t ↦ Memᴰ.tail (mem-sort_by os t) ])

module _ {ℓ κ} {A : Type ℓ} (le : A → A → Bool) (P : A → Type κ) where
  insert_by-All : (o : A) (os : List A) → P o → All P os → All P (insert_by le o os)
  unfolding insert_by
  insert_by-All o [] p h = (p, tt)
  insert_by-All o (x ∷ xs) p h = elim (Bool-cases (le o x)) [
    | inl e ↦ rw e (p, h)
    | inr e ↦ rw e (h.0, insert_by-All o xs p h.1)
  ]

  pub sort_by-All : (os : List A) → All P os → All P (sort_by le os)
  unfolding sort_by
  sort_by-All [] h = tt
  sort_by-All (o ∷ os) h = insert_by-All o (sort_by le os) h.0 (sort_by-All os h.1)
