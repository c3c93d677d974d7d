-- ===== src/Truth/Values/Finest.antt =====
-- `finest` picks a representative among values that agree, and never between different values.
use mathlib.Core.List.{Memᴰ}
use cse_analysis.Base.{
  ℕ, ◌≤◌, ◌≡◌, refl, sym, ap, ◌∙◌, false, ◌||◌, none, some, List, [], ◌∷◌, map, arith, any, keep,
  All, All-mem, inl, inr, Bool-cases, Option-cases, ◌==◌, keep-mem, any-false, mem-uncons, mem-All,
  ==_iff,
}
use cse_analysis.Base.Int.{ℤ, ltb_ℤ}
use cse_analysis.Truth.Values.{Entry, finest, first_ref, differ, minimum}
use cse_analysis.Truth.Values.Extrema.{minimum-All}

pub differ-false : (xs : List ℤ) (x y : ℤ) → differ xs ≡ false → Memᴰ x xs → Memᴰ y xs → x ≡ y
unfolding differ
differ-false [] x y h mx my = elim mx [ ]
differ-false (z ∷ zs) x y h mx my = from_head z zs x h mx ∙ sym (from_head z zs y h my)
  where
    same_ℤ : (a b : ℤ) → (ltb_ℤ a b || ltb_ℤ b a) ≡ false → b ≡ a
    same_ℤ a b e = ground arith

    from_head :
        (a : ℤ) (as' : List ℤ) (b : ℤ)
        → any (λ w. ltb_ℤ a w || ltb_ℤ w a) as' ≡ false
        → Memᴰ b (a ∷ as')
        → b ≡ a
    from_head a as' b e m = elim (mem-uncons m) [
      | inl q ↦ q
      | inr t ↦ same_ℤ a b (any-false (λ w. ltb_ℤ a w || ltb_ℤ w a) e t)
    ]

first_ref-mem {ℓ} :
    {R : Type ℓ} (es : List (Entry R)) (r : R)
    → first_ref es ≡ some r
    → (e : Entry R) × Memᴰ e es × (e.ref ≡ r)
first_ref-mem [] r h = cc
first_ref-mem (e ∷ es) r h = (e, Memᴰ.head refl, cc)

map-mem {ℓ κ} :
    {A : Type ℓ} {B : Type κ} (f : A → B) {x : A} {xs : List A} → Memᴰ x xs → Memᴰ (f x) (map f xs)
map-mem f (Memᴰ.head q) = Memᴰ.head (ap f q)
map-mem f (Memᴰ.tail m) = Memᴰ.tail (map-mem f m)

-- What `finest` picks is one of the entries, has the smallest half-unit of them all, and every entry
-- that has that half-unit too has the same value.
pub finest_least :
    {R : Type 0} (es : List (Entry R)) (r : R)
    → (finest es).0 ≡ some r
    → (e : Entry R) × Memᴰ e es
      × (e.ref ≡ r)
      × All (λ (x : Entry R). e.half_unit ≤ x.half_unit) es
      × All
          (λ (x : Entry R). x.normalized_value ≡ e.normalized_value)
          (keep (λ x. x.half_unit == e.half_unit) es)
unfolding finest
finest_least {R} es r h = elim (Option-cases (minimum halves)) [
  | inl e ↦ absurd (let q : none ≡ some r = (rw e at h) in cc)
  | inr (m, e) ↦
      let tied = keep (λ (x : Entry R). x.half_unit == m) es in
      elim (Bool-cases (differ (map (λ (x : Entry R). x.normalized_value) tied))) [
        | inl d ↦ absurd (let q : none ≡ some r = rw (e, d) at h in cc)
        | inr d ↦
            let q : first_ref tied ≡ some r = rw (e, d) at h in
            let (x, mx, rx) = first_ref-mem tied r q in
            let (kx, hx) = keep-mem (λ (y : Entry R). y.half_unit == m) es mx in
            let hm : x.half_unit ≡ m = (==_iff x.half_unit m).0 hx in
            (
              x,
              kx,
              rx,
              mem-All (λ (y : Entry R). x.half_unit ≤ y.half_unit) es
                  (λ y my. rw hm (
                    All-mem (λ n. m ≤ n) (minimum-All halves m e)
                      (map-mem (λ (z : Entry R). z.half_unit) my))),
              rw hm (
                  mem-All (λ (y : Entry R). y.normalized_value ≡ x.normalized_value) tied
                    (λ y my.
                      differ-false (map (λ (z : Entry R). z.normalized_value) tied)
                        y.normalized_value x.normalized_value d
                        (map-mem (λ (z : Entry R). z.normalized_value) my)
                        (map-mem (λ (z : Entry R). z.normalized_value) mx))),
            )
      ]
]
  where
    halves : List ℕ
    halves = map (λ (x : Entry R). x.half_unit) es
