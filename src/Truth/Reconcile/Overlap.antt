-- ===== src/Truth/Reconcile/Overlap.antt =====
-- Observations that agree pair by pair have an interval in common (Helly's theorem on the line).
use mathlib.Core.List.{Memᴰ}
use cse_analysis.Base.{
  ◌≡◌, sym, ◌∙◌, ap, ◌||◌, false, Option, none, some, List, [], ◌∷◌, map, arith, any, all, All,
  All-mem, mem-uncons, mem-map, any-false, all-false, inl, inr, Bool-cases,
}
use cse_analysis.Base.Int.{ℤ, ◌≤ℤ◌}
use cse_analysis.Truth.Values.{
  Member, numeric, is_nil, ValueKind, low_end, high_end, highest, lowest, interval,
}
use cse_analysis.Truth.Values.Extrema.{highest-mem, lowest-mem}
use cse_analysis.Truth.Observations.{
  Observation, consistent, any_pair, pair_fails, pair_disagrees, values,
}
use cse_analysis.Truth.Observations.Agreement.{
  any_pair-false, any_pair-or, Fits, Fits-symm, good-Fits,
}
use cse_analysis.Truth.Observations.Built.{IsBuilt, members-Fits}
use cse_analysis.Truth.Reconcile.{is_internal, across, somes, lows, highs}

not_internal : (o : Observation) → is_internal o ≡ false → o.status ≡ consistent
not_internal o h = ground arith

across-bad :
    (a b : Observation)
    → (across pair_fails a b || across pair_disagrees a b) ≡ false
    → (x y : Member) → Memᴰ x a.members
    → Memᴰ y b.members
    → Fits x y
across-bad a b h x y mx my =
    let f : across pair_fails a b ≡ false = ground arith in
    let d : across pair_disagrees a b ≡ false = ground arith in
    let fx = any-false (pair_fails x) (any-false (λ m. any (pair_fails m) b.members) f mx) my in
    let dx =
      any-false (pair_disagrees x) (any-false (λ m. any (pair_disagrees m) b.members) d mx) my in
    good-Fits x y (ground arith)

-- The observations of a fact, which agree.
pub record IsAgreeing (sos : List Observation) : Type 0 where
  pub built : All IsBuilt sos
  pub none_internal : any is_internal sos ≡ false
  pub none_fails : any_pair (across pair_fails) sos ≡ false
  pub none_disagrees : any_pair (across pair_disagrees) sos ≡ false

module _ {sos : List Observation} (g : IsAgreeing sos) where
  pub agreeing-consistent : (o : Observation) → Memᴰ o sos → o.status ≡ consistent
  agreeing-consistent o m = not_internal o (any-false is_internal g.none_internal m)

  -- Any two members of the fact fit one another.
  pub agreeing-Fits :
      (a b : Observation)
      → Memᴰ a sos
      → Memᴰ b sos
      → (x y : Member) → Memᴰ x a.members
      → Memᴰ y b.members
      → Fits x y
  agreeing-Fits =
      any_pair-false (λ a b. across pair_fails a b || across pair_disagrees a b)
        (λ a b. (x y : Member) → Memᴰ x a.members → Memᴰ y b.members → Fits x y) sos across-bad
        (λ a b f x y mx my. Fits-symm y x (f y x my mx))
        (λ a m. members-Fits (All-mem IsBuilt g.built m) (agreeing-consistent a m))
        (any_pair-or (across pair_fails) (across pair_disagrees) sos g.none_fails g.none_disagrees)

not_nil : (k : ValueKind) → is_nil k ≡ false → k ≡ numeric
not_nil k h = ground arith

-- A consistent observation with an end of an interval has only numbers among its members.
module _ {o : Observation} (b : IsBuilt o) (c : o.status ≡ consistent) where
  all_numeric :
      all (λ m. is_nil m.value_kind) o.members ≡ false
      → (m : Member) → Memᴰ m o.members
      → m.value_kind ≡ numeric
  all_numeric h m mm =
      let (x, mx, e) = all-false (λ m. is_nil m.value_kind) o.members h in
      (members-Fits b c m x mm mx).same_kind ∙ not_nil x.value_kind e

  low-attained :
      (l : ℤ)
      → o.low ≡ some l
      → (m : Member) × Memᴰ m o.members × (m.value_kind ≡ numeric) × (l ≡ low_end m.value)
  unfolding interval
  low-attained l e = elim (Bool-cases (all (λ m. is_nil m.value_kind) o.members)) [
    | inl n ↦ absurd (let q = sym (b.kind_nil c n).1 ∙ e in cc)
    | inr n ↦
        let (v, mv, q) =
          mem-map low_end (values o.members) (highest-mem _ l (sym (b.kind_numeric c n).1 ∙ e)) in
        let (m, mm, r) = mem-map (λ (x : Member). x.value) o.members mv in
        (m, mm, all_numeric n m mm, q ∙ ap low_end r)
  ]

  high-attained :
      (h : ℤ)
      → o.high ≡ some h
      → (m : Member) × Memᴰ m o.members × (m.value_kind ≡ numeric) × (h ≡ high_end m.value)
  unfolding interval
  high-attained h e = elim (Bool-cases (all (λ m. is_nil m.value_kind) o.members)) [
    | inl n ↦ absurd (let q = sym (b.kind_nil c n).2 ∙ e in cc)
    | inr n ↦
        let (v, mv, q) =
          mem-map high_end (values o.members) (lowest-mem _ h (sym (b.kind_numeric c n).2 ∙ e)) in
        let (m, mm, r) = mem-map (λ (x : Member). x.value) o.members mv in
        (m, mm, all_numeric n m mm, q ∙ ap high_end r)
  ]

mem-somes : {x : ℤ} (os : List (Option ℤ)) → Memᴰ x (somes os) → Memᴰ (some x) os
mem-somes [] m = elim m [ ]
mem-somes (none ∷ os) m = Memᴰ.tail (mem-somes os m)
mem-somes (some y ∷ os) m = elim (mem-uncons m) [
  | inl e ↦ Memᴰ.head (ap some e)
  | inr t ↦ Memᴰ.tail (mem-somes os t)
]

end-mem :
    (f : Observation → Option ℤ) (sos : List Observation) {x : ℤ}
    → Memᴰ x (somes (map f sos))
    → (o : Observation) × Memᴰ o sos × (f o ≡ some x)
end-mem f sos m = let (o, mo, e) = mem-map f sos (mem-somes (map f sos) m) in (o, mo, sym e)

-- Observations that agree pair by pair have a common interval: the highest of their lower ends does
-- not exceed the lowest of their upper ends.
pub ends-le :
    {sos : List Observation}
    → IsAgreeing sos
    → (l h : ℤ) → highest (lows sos) ≡ some l
    → lowest (highs sos) ≡ some h
    → l ≤ℤ h
ends-le {sos} g l h el eh =
    let (a, ma, la) = end-mem (λ o. o.low) sos (highest-mem (lows sos) l el) in
    let (b, mb, hb) = end-mem (λ o. o.high) sos (lowest-mem (highs sos) h eh) in
    let (x, mx, nx, lx) =
      low-attained (All-mem IsBuilt g.built ma) (agreeing-consistent g a ma) l la in
    let (y, my, ny, hy) =
      high-attained (All-mem IsBuilt g.built mb) (agreeing-consistent g b mb) h hb in
    let meet = ((agreeing-Fits g a b ma mb x y mx my).meets nx).0 in rw (lx, hy) meet
