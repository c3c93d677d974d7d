-- ===== src/Truth/Reconcile/Sound.antt =====
-- What `reconcile_fact` concludes.
use mathlib.Core.List.{Memᴰ}
use cse_analysis.Base.{
  ℕ, ◌≡◌, ◌≢◌, sym, ◌∙◌, ap, false, Option, none, some, List, [], ◌∷◌, map, arith, any, All,
  All-mem, inl, inr, Bool-cases, Option-cases, mem-uncons, mem-All, mem-sort_by, sort_by-All,
}
use cse_analysis.Base.Int.{ℤ, ◌≤ℤ◌}
use cse_analysis.Truth.Values.{Member, highest, lowest}
use cse_analysis.Truth.Observations.{Observation, any_pair, pair_fails, pair_disagrees}
use cse_analysis.Truth.Values.Extrema.{highest-All, lowest-All}
use cse_analysis.Truth.Observations.Agreement.{Fits}
use cse_analysis.Truth.Observations.Built.{IsBuilt}
use cse_analysis.Truth.Reconcile.{
  ok, err, Reconciled, conflicting, empty_interval, conclude, agreed, in_conflict, reconcile_fact,
  sort_observations, is_internal, across, lows, highs, is_empty, agreed_state, key_le, somes,
}
use cse_analysis.Truth.Reconcile.Overlap.{IsAgreeing, agreeing-Fits, ends-le}

sort-All :
    (P : Observation → Type 0) (os : List Observation) → All P os → All P (sort_observations os)
unfolding sort_observations
sort-All = sort_by-All key_le

not_empty :
    {sos : List Observation}
    → IsAgreeing sos
    → is_empty (highest (lows sos)) (lowest (highs sos)) ≡ false
not_empty {sos} g = elim (Option-cases (highest (lows sos))) [
  | inl e ↦ rw e
  | inr (l, el) ↦ elim (Option-cases (lowest (highs sos))) [
    | inl e ↦ rw (el, e)
    | inr (h, eh) ↦ rw (el, eh) (let q = ends-le g l h el eh in ground arith)
  ]
]

conclude-nonempty : (sos : List Observation) → All IsBuilt sos → conclude sos ≢ err empty_interval
unfolding conclude agreed in_conflict
conclude-nonempty sos b h = elim (Bool-cases (any_pair (across pair_fails) sos)) [
  | inl f ↦ ground arith
  | inr f ↦ elim (Bool-cases (any is_internal sos)) [
    | inl i ↦ ground arith
    | inr i ↦ elim (Bool-cases (any_pair (across pair_disagrees) sos)) [
      | inl d ↦ ground arith
      | inr d ↦
          let g : IsAgreeing sos = record {
            built = b;
            none_internal = i;
            none_fails = f;
            none_disagrees = d;
          } in
          ground (arith, not_empty g)
    ]
  ]
]

-- The `RuntimeError` of an empty interval cannot be raised: observations that were built by
-- `observation` never bring `reconcile_fact` there, whatever their members.
pub reconcile_fact-nonempty :
    (versions : ℕ) (observations : List Observation)
    → All IsBuilt observations
    → reconcile_fact versions observations ≢ err empty_interval
unfolding reconcile_fact
reconcile_fact-nonempty versions observations b h =
    ground
      (arith, conclude-nonempty (sort_observations observations) (sort-All IsBuilt observations b))

mem-sort : (os : List Observation) {x : Observation} → Memᴰ x os → Memᴰ x (sort_observations os)
unfolding sort_observations
mem-sort = mem-sort_by key_le

conclude-agreed :
    (sos : List Observation) (r : Reconciled)
    → All IsBuilt sos
    → conclude sos ≡ ok r
    → r.state ≢ conflicting
    → IsAgreeing sos × (agreed sos ≡ ok r)
unfolding conclude in_conflict
conclude-agreed sos r b h n = elim (Bool-cases (any_pair (across pair_fails) sos)) [
  | inl f ↦ absurd (ground arith)
  | inr f ↦ elim (Bool-cases (any is_internal sos)) [
    | inl i ↦ absurd (ground arith)
    | inr i ↦ elim (Bool-cases (any_pair (across pair_disagrees) sos)) [
      | inl d ↦ absurd (ground arith)
      | inr d ↦ (
        record { built = b; none_internal = i; none_fails = f; none_disagrees = d },
        ground arith,
      )
    ]
  ]
]

reconcile_fact-conclude :
    (versions : ℕ) (observations : List Observation) (r : Reconciled)
    → reconcile_fact versions observations ≡ ok r
    → conclude (sort_observations observations) ≡ ok r
unfolding reconcile_fact
reconcile_fact-conclude versions observations r h = ground arith

agreed-ends :
    (sos : List Observation) (r : Reconciled) (l h : ℤ)
    → agreed sos ≡ ok r
    → r.low ≡ some l
    → r.high ≡ some h
    → (highest (lows sos) ≡ some l) × (lowest (highs sos) ≡ some h)
unfolding agreed
agreed-ends sos r l h e el eh = ground arith

-- An end of an observation's interval, where it has one, against a number.
abbrev pub AtMost : Option ℤ → ℤ → Type 0
AtMost none l = Unit {0}
AtMost (some x) l = x ≤ℤ l

abbrev pub AtLeast : Option ℤ → ℤ → Type 0
AtLeast none h = Unit {0}
AtLeast (some x) h = h ≤ℤ x

-- The interval from `l` to `h` lies within the observation's own.
abbrev pub LiesWithin : ℤ → ℤ → Observation → Type 0
LiesWithin l h o = AtMost o.low l × AtLeast o.high h

mem-ends : (x : ℤ) (os : List (Option ℤ)) → Memᴰ (some x) os → Memᴰ x (somes os)
mem-ends x [] m = elim m [ ]
mem-ends x (none ∷ os) m = elim (mem-uncons m) [
  | inl q ↦ absurd (ground arith)
  | inr t ↦ mem-ends x os t
]
mem-ends x (some y ∷ os) m = elim (mem-uncons m) [
  | inl q ↦ Memᴰ.head (ground arith)
  | inr t ↦ Memᴰ.tail (mem-ends x os t)
]

mem-map_image :
    (f : Observation → Option ℤ) (x : Option ℤ) {o : Observation} {os : List Observation}
    → f o ≡ x
    → Memᴰ o os
    → Memᴰ x (map f os)
mem-map_image f x e (Memᴰ.head q) = Memᴰ.head (sym e ∙ ap f q)
mem-map_image f x e (Memᴰ.tail m) = Memᴰ.tail (mem-map_image f x e m)

at_most :
    (sos : List Observation) (l : ℤ) (o : Observation)
    → highest (lows sos) ≡ some l
    → Memᴰ o sos
    → AtMost o.low l
at_most sos l o e m = elim (Option-cases o.low) [
  | inl q ↦ rw q tt
  | inr (x, q) ↦ rw q (
      All-mem (λ y. y ≤ℤ l) (highest-All (lows sos) l e)
        (mem-ends x (map (λ (p : Observation). p.low) sos)
          (mem-map_image (λ p. p.low) (some x) q m)))
]

at_least :
    (sos : List Observation) (h : ℤ) (o : Observation)
    → lowest (highs sos) ≡ some h
    → Memᴰ o sos
    → AtLeast o.high h
at_least sos h o e m = elim (Option-cases o.high) [
  | inl q ↦ rw q tt
  | inr (x, q) ↦ rw q (
      All-mem (λ y. h ≤ℤ y) (lowest-All (highs sos) h e)
        (mem-ends x (map (λ (p : Observation). p.high) sos)
          (mem-map_image (λ p. p.high) (some x) q m)))
]

module _ (versions : ℕ) (observations : List Observation) (r : Reconciled)
    (b : All IsBuilt observations) (done : reconcile_fact versions observations ≡ ok r)
    (n : r.state ≢ conflicting) where
  agreement :
      IsAgreeing (sort_observations observations) × (agreed (sort_observations observations) ≡ ok r)
  agreement =
      conclude-agreed (sort_observations observations) r (sort-All IsBuilt observations b)
        (reconcile_fact-conclude versions observations r done) n

  -- Where a fact does not conflict, any two values observed for it, in one document or in two, are of
  -- one kind, and as numbers have intervals that meet.
  pub agreed-Fits :
      (a c : Observation)
      → Memᴰ a observations
      → Memᴰ c observations
      → (x y : Member) → Memᴰ x a.members
      → Memᴰ y c.members
      → Fits x y
  agreed-Fits a c ma mc =
      agreeing-Fits agreement.0 a c (mem-sort observations ma) (mem-sort observations mc)

  ends :
      (l h : ℤ)
      → r.low ≡ some l
      → r.high ≡ some h
      → (highest (lows (sort_observations observations)) ≡ some l)
        × (lowest (highs (sort_observations observations)) ≡ some h)
  ends l h el eh = agreed-ends (sort_observations observations) r l h agreement.1 el eh

  -- The interval of a fact that does not conflict is not empty, and lies within the interval of
  -- every observation of the fact.
  pub agreed_interval :
      (l h : ℤ) → r.low ≡ some l → r.high ≡ some h → (l ≤ℤ h) × All (LiesWithin l h) observations
  agreed_interval l h el eh =
      let sos = sort_observations observations in
      let e = ends l h el eh in
      (
        ends-le agreement.0 l h e.0 e.1,
        mem-All (LiesWithin l h) observations (λ o m. (
          at_most sos l o e.0 (mem-sort observations m),
          at_least sos h o e.1 (mem-sort observations m),
        )),
      )

agreed_state-ne : (sos : List Observation) → agreed_state sos ≢ conflicting
agreed_state-ne [] h = cc
agreed_state-ne (o ∷ []) h = cc
agreed_state-ne (o ∷ p ∷ os) h = cc

conclude-conflict :
    (sos : List Observation) (r : Reconciled)
    → conclude sos ≡ ok r
    → r.state ≡ conflicting
    → r ≡ in_conflict sos
unfolding conclude agreed
conclude-conflict sos r h c = ground (arith, agreed_state-ne sos)

-- A conflict has no winner: a fact that conflicts has no value, no interval and no representative.
pub conflict_no_winner :
    (versions : ℕ) (observations : List Observation) (r : Reconciled)
    → reconcile_fact versions observations ≡ ok r
    → r.state ≡ conflicting
    → (r.value_kind ≡ none) × (r.low ≡ none) × (r.high ≡ none) × (r.representative ≡ none)
unfolding in_conflict
conflict_no_winner versions observations r h c =
    let e =
      conclude-conflict (sort_observations observations) r
        (reconcile_fact-conclude versions observations r h) c in
    (ground arith, ground arith, ground arith, ground arith)
