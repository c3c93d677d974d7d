-- ===== src/Truth/Observations/Built.antt =====
-- What an observation that `observation` made satisfies.
use mathlib.Core.List.{Memᴰ}
use cse_analysis.Base.{
  ℕ, ◌≡◌, refl, subst, true, false, none, some, List, arith, all, inl, inr, Bool-cases, null?,
}
use cse_analysis.Truth.Values.{Member, numeric, nil, is_nil, interval}
use cse_analysis.Truth.Observations.{
  Observation, observation, consistent, internally_conflicting, values, any_pair, pair_fails,
  pair_disagrees, conclude_members, blank,
}
use cse_analysis.Truth.Observations.Agreement.{
  any_pair-false, any_pair-or, Fits, Fits-symm, Fits-self, good-Fits, pair_bad,
}

-- A consistent observation has members of one kind, which fit one another, and its interval is that
-- of its members where they are numbers.
pub record IsBuilt (o : Observation) : Type 0 where
  pub inhabited : null? o.members ≡ false
  pub comparable : any_pair pair_fails o.members ≡ false
  pub agreeing : o.status ≡ consistent → any_pair pair_disagrees o.members ≡ false
  pub kind_nil :
      o.status ≡ consistent
      → all (λ m. is_nil m.value_kind) o.members ≡ true
      → (o.value_kind ≡ some nil) × (o.low ≡ none) × (o.high ≡ none)
  pub kind_numeric :
      o.status ≡ consistent
      → all (λ m. is_nil m.value_kind) o.members ≡ false
      → (o.value_kind ≡ some numeric)
        × (o.low ≡ (interval (values o.members)).0)
        × (o.high ≡ (interval (values o.members)).1)
  pub no_value : o.status ≡ internally_conflicting → (o.low ≡ none) × (o.high ≡ none)

conclude-IsBuilt :
    (so ef v d : ℕ) (ms : List Member)
    → null? ms ≡ false
    → any_pair pair_fails ms ≡ false
    → IsBuilt (conclude_members (blank so ef v d ms))
unfolding conclude_members
conclude-IsBuilt so ef v d ms a b = elim (Bool-cases (any_pair pair_disagrees ms)) [
  | inl bad ↦ rw bad (record {
    inhabited = a;
    comparable = b;
    agreeing = λ e. cc;
    kind_nil = λ e. cc;
    kind_numeric = λ e. cc;
    no_value = λ e. (refl, refl);
  })
  | inr good ↦ elim (Bool-cases (all (λ m. is_nil m.value_kind) ms)) [
    | inl n ↦
        rw (good, n)
          (record {
            inhabited = a;
            comparable = b;
            agreeing = λ e. good;
            kind_nil = λ e k. (refl, refl, refl);
            kind_numeric = λ e k. cc;
            no_value = λ e. cc;
          })
    | inr n ↦
        rw (good, n)
          (record {
            inhabited = a;
            comparable = b;
            agreeing = λ e. good;
            kind_nil = λ e k. cc;
            kind_numeric = λ e k. (refl, refl, refl);
            no_value = λ e. cc;
          })
  ]
]

pub observation-IsBuilt :
    (so ef v d : ℕ) (ms : List Member) {o : Observation}
    → observation so ef v d ms ≡ some o
    → IsBuilt o
unfolding observation
observation-IsBuilt so ef v d ms {o} h = elim (Bool-cases (null? ms)) [
  | inl e ↦ absurd (ground arith)
  | inr e ↦ elim (Bool-cases (any_pair pair_fails ms)) [
    | inl f ↦ absurd (ground arith)
    | inr f ↦
        let q : conclude_members (blank so ef v d ms) ≡ o = ground arith in
        subst IsBuilt q (conclude-IsBuilt so ef v d ms e f)
  ]
]

module _ {o : Observation} (b : IsBuilt o) (ok : o.status ≡ consistent) where
  -- The members of a consistent observation fit one another.
  pub members-Fits : (x y : Member) → Memᴰ x o.members → Memᴰ y o.members → Fits x y
  members-Fits =
      any_pair-false pair_bad Fits o.members good-Fits Fits-symm (λ a m. Fits-self a)
        (any_pair-or pair_fails pair_disagrees o.members b.comparable (b.agreeing ok))
